-- ===== src/Platform.antt =====
-- What the program takes from its language and from its libraries: the parameters of the models.
pub mod Plain
use tr4ce_app.Prelude.{ℕ, Bool, String, Option, List}
use tr4ce_app.Prelude.Int.{ℤ}

pub record Platform : Type 0 where
  -- `JSON.stringify` of a text
  pub quote : String → String
  -- `toString` of an integer
  pub show_int : ℤ → String
  -- `(a / b).toFixed(2)`
  pub to_fixed : ℤ → ℕ → String
  -- `a < b` on texts
  pub text_lt : String → String → Bool
  -- `toLowerCase`
  pub to_lower : String → String
  -- `text.slice(0, n)`
  pub slice_from_start : ℕ → String → String
  -- `createHash("sha256").update(text, "utf8").digest("hex")`
  pub sha256 : String → String
  -- `Date.parse`, in milliseconds; `none` is NaN
  pub date_parse : String → Option ℤ
  -- `keccak256` of the bytes that a hexadecimal text denotes
  pub keccak_of_hex : String → String
  -- `keccak256(new TextEncoder().encode(text))`
  pub keccak_of_text : String → String
  -- the codes of a text's characters, and back
  pub codes : String → List ℕ
  pub from_codes : List ℕ → String
  -- `String(n)` of a number, as the codes of its digits
  pub decimal : ℕ → List ℕ
  -- `createHash("sha1").update(bytes).update(Buffer.from(text, "utf8")).digest()`
  pub sha1 : List ℕ → List ℕ → List ℕ
  -- `JSON.parse`, then the check that each entry has a method and a classification; `none` is an error
  pub parse_call_errors : List ℕ → Option (List (List ℕ × List ℕ))
  -- `n.toString(16)`
  pub to_hex : ℤ → String
  -- `text.padStart(n, "0")`
  pub pad_zeros : ℕ → String → String
  -- `text.slice(n)`
  pub slice_from : ℕ → String → String
  -- `encodeFunctionData` of a call's name and arguments, of which an amount is its text
  pub encode_call : String → List String → String
