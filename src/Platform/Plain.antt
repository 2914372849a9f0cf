-- ===== src/Platform/Plain.antt =====
-- A platform for the tests: each function is the simplest one of its type.
use tr4ce_app.Prelude.{false, some, [], ◌∷◌, if◌then◌else◌}
use tr4ce_app.Prelude.Text.{str_eq, join}
use tr4ce_app.Prelude.Int.{pos}
use tr4ce_app.Platform.{Platform}

abbrev pub plain : Platform
plain = record {
  quote = λ s. s;
  show_int = λ n. "1";
  to_fixed = λ a b. "1.00";
  text_lt = λ a b. false;
  to_lower = λ s. s;
  slice_from_start = λ n s. s;
  sha256 = λ s. "hash";
  date_parse = λ s. some (pos (if str_eq s "2026-01-31" then 2592000000 else 0));
  keccak_of_hex = λ s. s;
  keccak_of_text = λ s. s;
  codes = λ s. 48 ∷ 120 ∷ 97 ∷ 98 ∷ [];
  from_codes = λ codes. "text";
  decimal = λ n. n ∷ [];
  sha1 = λ bytes text. text;
  parse_call_errors = λ text. some [];
  to_hex = λ n. "1";
  pad_zeros = λ n s. s;
  slice_from = λ n s. s;
  encode_call = λ name arguments. join "," (name ∷ arguments);
}
