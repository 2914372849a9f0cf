-- ===== src/Bytes/Tests.antt =====
-- packages/db/src/schema/columns.ts on two bytes, and the theorems applied to them.
use tr4ce_app.Prelude.{◌≡◌, refl, [], ◌∷◌, ok, arith}
use tr4ce_app.Bytes.{hex_to_bytes, bytes_to_hex, parse_pairs, lower}
use tr4ce_app.Bytes.RoundTrip.{AreBytes, hex_to_bytes-bytes_to_hex, bytes_to_hex-hex_to_bytes}

hex_to_bytes-bytes_to_hex_example : hex_to_bytes (bytes_to_hex (10 ∷ 255 ∷ [])) ≡ ok (10 ∷ 255 ∷ [])
hex_to_bytes-bytes_to_hex_example =
    hex_to_bytes-bytes_to_hex (10 ∷ 255 ∷ []) (omega arith, (omega arith, tt))

-- `0xAb`
spelled : hex_to_bytes (48 ∷ 120 ∷ 65 ∷ 98 ∷ []) ≡ ok (171 ∷ [])
unfolding hex_to_bytes parse_pairs
spelled = refl

bytes_to_hex-hex_to_bytes_example :
    AreBytes (171 ∷ []) × (bytes_to_hex (171 ∷ []) ≡ lower (48 ∷ 120 ∷ 65 ∷ 98 ∷ []))
bytes_to_hex-hex_to_bytes_example =
    bytes_to_hex-hex_to_bytes (48 ∷ 120 ∷ 65 ∷ 98 ∷ []) (171 ∷ []) spelled
