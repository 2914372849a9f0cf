-- ===== src/Bytes/RoundTrip.antt =====
-- packages/db/src/schema/columns.ts: what is written is read back.
use tr4ce_app.Prelude.{
  ℕ, ◌+◌, ◌*◌, ◌/◌, ◌%◌, ◌<◌, ◌==◌, ◌≡◌, refl, sym, ap, ◌∙◌, subst, ==_iff, Bool, true, false, ◌&&◌,
  not, [], ◌∷◌, ◌++◌, ok, arith, all, length, All, throw_if-ok, ok_inj,
}
use tr4ce_app.Bytes.{
  Text, Bytes, is_hex_digit, digit_value, parse_pairs, hex_to_bytes, digit_code, byte_text,
  bytes_text, bytes_to_hex, hex_body, hex_pattern, lower_code, lower,
}

abbrev pub AreBytes : Bytes → Type 0
AreBytes bytes = All (λ b. b < 256) bytes

digit_value-digit_code : (n : ℕ) → n < 16 → digit_value (digit_code n) ≡ n
digit_value-digit_code n h = ground arith

is_hex_digit-digit_code : (n : ℕ) → n < 16 → is_hex_digit (digit_code n) ≡ true
is_hex_digit-digit_code n h = ground arith

byte_text_two : (b : ℕ) → b < 256 → byte_text b ≡ digit_code (b / 16) ∷ digit_code (b % 16) ∷ []
byte_text_two b h = ground arith

parse_pairs-bytes_text : (bytes : Bytes) → AreBytes bytes → parse_pairs (bytes_text bytes) ≡ bytes
unfolding parse_pairs bytes_text
parse_pairs-bytes_text [] h = refl
parse_pairs-bytes_text (b ∷ bytes) (small, h) = grind (
  arith,
  byte_text_two b small,
  digit_value-digit_code (b / 16),
  digit_value-digit_code (b % 16),
  parse_pairs-bytes_text bytes h,
)

bytes_text-digits :
    (bytes : Bytes) → AreBytes bytes → all (λ c. is_hex_digit c) (bytes_text bytes) ≡ true
unfolding bytes_text
bytes_text-digits [] h = refl
bytes_text-digits (b ∷ bytes) (small, h) = grind (
  arith,
  byte_text_two b small,
  is_hex_digit-digit_code (b / 16),
  is_hex_digit-digit_code (b % 16),
  bytes_text-digits bytes h,
)

length-bytes_text : (bytes : Bytes) → AreBytes bytes → length (bytes_text bytes) ≡ length bytes * 2
unfolding bytes_text
length-bytes_text [] h = refl
length-bytes_text (b ∷ bytes) (small, h) =
    grind (arith, byte_text_two b small, length-bytes_text bytes h)

-- The bytes that are written in hexadecimal are the bytes that are read back.
pub hex_to_bytes-bytes_to_hex :
    (bytes : Bytes) → AreBytes bytes → hex_to_bytes (bytes_to_hex bytes) ≡ ok bytes
unfolding hex_to_bytes bytes_to_hex
hex_to_bytes-bytes_to_hex bytes h =
    grind
      (arith, bytes_text-digits bytes h, length-bytes_text bytes h, parse_pairs-bytes_text bytes h)

digit_value-IsHex :
    (c : ℕ)
    → is_hex_digit c ≡ true
    → (digit_value c < 16) × (digit_code (digit_value c) ≡ lower_code c)
digit_value-IsHex c h = ground arith

and_split : (a b : Bool) → (a && b) ≡ true → (a ≡ true) × (b ≡ true)
and_split true b e = (refl, e)
and_split false b e = cc

-- A text of pairs of digits, written again.
bytes_text-parse_pairs :
    (body : Text)
    → all (λ c. is_hex_digit c) body ≡ true
    → (length body % 2 == 0) ≡ true
    → AreBytes (parse_pairs body) × (bytes_text (parse_pairs body) ≡ lower body)
unfolding parse_pairs bytes_text
bytes_text-parse_pairs [] h even = (tt, refl)
bytes_text-parse_pairs (c ∷ []) h even = cc
bytes_text-parse_pairs (c ∷ d ∷ body) h even =
    let (h0, h1) = and_split (is_hex_digit c) _ h in
    let (h2, h3) = and_split (is_hex_digit d) _ h1 in
    let (small_c, lower_c) = digit_value-IsHex c h0 in
    let (small_d, lower_d) = digit_value-IsHex d h2 in
    let (bytes, text) = bytes_text-parse_pairs body h3 (ground arith) in
    let small : digit_value c * 16 + digit_value d < 256 = omega arith in
    let high : (digit_value c * 16 + digit_value d) / 16 ≡ digit_value c = omega arith in
    let low : (digit_value c * 16 + digit_value d) % 16 ≡ digit_value d = omega arith in
    (
      (small, bytes),
      ap (λ t. t ++ bytes_text (parse_pairs body)) (byte_text_two _ small)
          ∙ two (ap digit_code high ∙ lower_c) (ap digit_code low ∙ lower_d) text,
    )
  where
    two : {a b x y : ℕ} {s t : Text} → a ≡ x → b ≡ y → s ≡ t → a ∷ b ∷ s ≡ x ∷ y ∷ t
    two e f g = cc

hex_pattern-split :
    (hex : Text)
    → hex_pattern hex ≡ true
    → (all (λ c. is_hex_digit c) (hex_body hex) ≡ true)
      × (lower hex ≡ 48 ∷ 120 ∷ lower (hex_body hex))
hex_pattern-split [] e = cc
hex_pattern-split (c ∷ []) e = cc
hex_pattern-split (c ∷ d ∷ body) e =
    let (e1, e3) = and_split (c == 48 && d == 120) _ e in
    let (e0, e2) = and_split (c == 48) _ e1 in
    (e3, prefix ((==_iff c 48).0 e0) ((==_iff d 120).0 e2))
  where
    prefix : c ≡ 48 → d ≡ 120 → lower (c ∷ d ∷ body) ≡ 48 ∷ 120 ∷ lower body
    prefix p q =
        ap (λ n. lower_code n ∷ lower (d ∷ body)) p ∙ ap (λ n. 48 ∷ lower_code n ∷ lower body) q

-- A text that is accepted as hexadecimal denotes bytes, and the bytes are written as
-- that text in lower case.
pub bytes_to_hex-hex_to_bytes :
    (hex : Text) (bytes : Bytes)
    → hex_to_bytes hex ≡ ok bytes
    → AreBytes bytes × (bytes_to_hex bytes ≡ lower hex)
unfolding hex_to_bytes bytes_to_hex
bytes_to_hex-hex_to_bytes hex bytes e =
    let (p, e1) = throw_if-ok (not (hex_pattern hex)) _ _ e in
    let (q, e2) = throw_if-ok (not (length (hex_body hex) % 2 == 0)) _ _ e1 in
    let (digits, prefix) = hex_pattern-split hex (ground arith) in
    let (small, text) = bytes_text-parse_pairs (hex_body hex) digits (ground arith) in
    let same = ok_inj e2 in
    (
      subst AreBytes same small,
      ap (λ b. 48 ∷ 120 ∷ bytes_text b) (sym same) ∙ (ap (λ t. 48 ∷ 120 ∷ t) text ∙ sym prefix),
    )
