-- ===== src/Bytes/Equality.antt =====
-- `bytesEqual` of packages/db/src/schema/columns.ts decides equality.
use tr4ce_app.Prelude.{◌≡◌, ◌↔◌, refl, true, [], ◌∷◌, arith}
use tr4ce_app.Bytes.{Text, bytes_equal}

pub bytes_equal_self : (a : Text) → bytes_equal a a ≡ true
unfolding bytes_equal
bytes_equal_self [] = refl
bytes_equal_self (x ∷ a) = ground (arith, bytes_equal_self a)

-- Byte-wise equality holds exactly of equal lists.
pub bytes_equal_iff : (a b : Text) → (bytes_equal a b ≡ true) ↔ (a ≡ b)
unfolding bytes_equal
bytes_equal_iff [] [] = (λ _. refl, λ _. refl)
bytes_equal_iff [] (y ∷ b) = (λ e. cc, λ e. cc)
bytes_equal_iff (x ∷ a) [] = (λ e. cc, λ e. cc)
bytes_equal_iff (x ∷ a) (y ∷ b) = ground (arith, bytes_equal_iff a b)
