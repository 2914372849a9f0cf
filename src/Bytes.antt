-- ===== src/Bytes.antt =====
-- packages/db/src/schema/columns.ts: bytes and their text in hexadecimal. A text here is the list of
-- the codes of its characters, which are ASCII.
pub mod RoundTrip
pub mod Equality
mod Tests
use tr4ce_app.Prelude.{
  ℕ, ◌+◌, ◌-◌, ◌*◌, ◌/◌, ◌%◌, ◌==◌, Bool, true, false, ◌&&◌, ◌||◌, not, List, [], ◌∷◌, ◌++◌, map,
  Result, ok, err, ◌>>=◌, ◌>>◌, throw_if, if◌then◌else◌, leb, ltb, all, length,
}

abbrev pub Text : Type 0
Text = List ℕ

abbrev pub Bytes : Type 0
Bytes = List ℕ

-- The two messages of the `TypeError`.
pub data HexError : Type 0 where
  not_hex odd_digits : HexError

abbrev between : ℕ → ℕ → ℕ → Bool
between low high c = leb low c && leb c high

-- `[0-9a-fA-F]`
abbrev pub is_hex_digit : ℕ → Bool
is_hex_digit c = between 48 57 c || between 65 70 c || between 97 102 c

-- `/^0x[0-9a-fA-F]*$/`
abbrev pub hex_pattern : Text → Bool
hex_pattern [] = false
hex_pattern (c ∷ []) = false
hex_pattern (zero_digit ∷ x ∷ body) = zero_digit == 48 && x == 120 && all (λ c. is_hex_digit c) body

-- `hex.slice(2)`
abbrev pub hex_body : Text → Text
hex_body [] = []
hex_body (c ∷ []) = []
hex_body (c ∷ d ∷ body) = body

-- `Number.parseInt` of one digit
abbrev pub digit_value : ℕ → ℕ
digit_value c = if leb c 57 then c - 48 else if leb c 70 then c - 55 else c - 87

unfoldable pub parse_pairs : Text → Bytes
parse_pairs [] = []
parse_pairs (c ∷ []) = []
parse_pairs (high ∷ low ∷ rest) = (digit_value high * 16 + digit_value low) ∷ parse_pairs rest

unfoldable pub hex_to_bytes : Text → Result HexError Bytes
hex_to_bytes hex = do
  throw_if (not (hex_pattern hex)) not_hex
  throw_if (not (length (hex_body hex) % 2 == 0)) odd_digits
  ok (parse_pairs (hex_body hex))

abbrev pub digit_code : ℕ → ℕ
digit_code n = if leb n 9 then n + 48 else n + 87

-- `byte.toString(16).padStart(2, "0")`
abbrev pub byte_text : ℕ → Text
byte_text byte =
    if ltb byte 16
    then 48 ∷ digit_code byte ∷ []
    else digit_code (byte / 16) ∷ digit_code (byte % 16) ∷ []

unfoldable pub bytes_text : Bytes → Text
bytes_text [] = []
bytes_text (byte ∷ bytes) = byte_text byte ++ bytes_text bytes

unfoldable pub bytes_to_hex : Bytes → Text
bytes_to_hex bytes = 48 ∷ 120 ∷ bytes_text bytes

-- `left.length === right.length` and every byte the same; `===` on texts
unfoldable pub bytes_equal : Bytes → Bytes → Bool
bytes_equal [] [] = true
bytes_equal [] (b ∷ right) = false
bytes_equal (a ∷ left) [] = false
bytes_equal (a ∷ left) (b ∷ right) = a == b && bytes_equal left right

-- `toLowerCase` of a character
abbrev pub lower_code : ℕ → ℕ
lower_code c = if between 65 90 c then c + 32 else c

abbrev pub lower : Text → Text
lower text = map lower_code text
