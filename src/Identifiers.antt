-- ===== src/Identifiers.antt =====
-- packages/db/src/ids.ts: keys derived from the names of what they identify. A text is the list of the
-- codes of its characters, which are ASCII.
use tr4ce_app.Prelude.{ℕ, ◌+◌, ◌%◌, zero, suc, List, [], ◌∷◌, ◌++◌}
use tr4ce_app.Platform.{Platform}
use tr4ce_app.Bytes.{Text, Bytes, lower, bytes_text}
use tr4ce_app.Domain.{FlowKind, deposit, withdraw, share_transfer}

-- `TR4CE_NAMESPACE`, as its bytes: 6f1f2d6c-9d4f-5c2a-a8d3-0b7a5e4c1f90
abbrev pub namespace_bytes : Bytes
namespace_bytes =
    111 ∷ 31 ∷ 45 ∷ 108 ∷ 157 ∷ 79 ∷ 92 ∷ 42 ∷ 168 ∷ 211 ∷ 11 ∷ 122 ∷ 94 ∷ 76 ∷ 31 ∷ 144 ∷ []

-- `bytes.slice(from, to)`, by the number of bytes to skip and to keep.
abbrev pub slice : ℕ → ℕ → Bytes → Bytes
slice from count [] = []
slice zero zero (b ∷ bytes) = []
slice zero (suc count) (b ∷ bytes) = b ∷ slice 0 count bytes
slice (suc from) count (b ∷ bytes) = slice from count bytes

abbrev set_byte : ℕ → (ℕ → ℕ) → Bytes → Bytes
set_byte index f [] = []
set_byte zero f (b ∷ bytes) = f b ∷ bytes
set_byte (suc index) f (b ∷ bytes) = b ∷ set_byte index f bytes

-- `(b & 0x0f) | 0x50`
abbrev version_byte : ℕ → ℕ
version_byte b = b % 16 + 80

-- `(b & 0x3f) | 0x80`
abbrev variant_byte : ℕ → ℕ
variant_byte b = b % 64 + 128

-- A byte is two digits, so the slices of the text are slices of the bytes; 45 is `-`.
abbrev dashed : Bytes → Text
dashed bytes =
    bytes_text (slice 0 4 bytes)
    ++ 45 ∷ bytes_text (slice 4 2 bytes)
    ++ 45 ∷ bytes_text (slice 6 2 bytes)
    ++ 45 ∷ bytes_text (slice 8 2 bytes)
    ++ 45 ∷ bytes_text (slice 10 6 bytes)

unfoldable pub uuid_v5 : Platform → Text → Text
uuid_v5 p name =
    let digest = slice 0 16 (p.sha1 namespace_bytes name) in
    dashed (set_byte 8 variant_byte (set_byte 6 version_byte digest))

-- `parts.map((part) => String(part).toLowerCase()).join(":")`, of parts that are texts; 58 is `:`.
abbrev pub join_parts : List Text → Text
join_parts [] = []
join_parts (part ∷ []) = lower part
join_parts (part ∷ next ∷ rest) = lower part ++ 58 ∷ join_parts (next ∷ rest)

-- `tr4ce:`, the kind, `:` and the parts
unfoldable pub entity_name : Text → List Text → Text
entity_name kind parts =
    (116 ∷ 114 ∷ 52 ∷ 99 ∷ 101 ∷ 58 ∷ []) ++ kind ++ (58 ∷ []) ++ join_parts parts

-- `vault_flow`
abbrev pub vault_flow_word : Text
vault_flow_word = 118 ∷ 97 ∷ 117 ∷ 108 ∷ 116 ∷ 95 ∷ 102 ∷ 108 ∷ 111 ∷ 119 ∷ []

-- `vault_snapshot`
abbrev pub vault_snapshot_word : Text
vault_snapshot_word =
    118 ∷ 97 ∷ 117 ∷ 108 ∷ 116 ∷ 95 ∷ 115 ∷ 110 ∷ 97 ∷ 112 ∷ 115 ∷ 104 ∷ 111 ∷ 116 ∷ []

-- `evidence_report`
abbrev pub evidence_report_word : Text
evidence_report_word =
    101 ∷ 118 ∷ 105 ∷ 100 ∷ 101 ∷ 110 ∷ 99 ∷ 101 ∷ 95 ∷ 114 ∷ 101 ∷ 112 ∷ 111 ∷ 114 ∷ 116 ∷ []

-- `report_observation`
abbrev report_observation_word : Text
report_observation_word =
    114 ∷ 101 ∷ 112 ∷ 111 ∷ 114 ∷ 116 ∷ 95 ∷ 111 ∷ 98 ∷ 115 ∷ 101 ∷ 114 ∷ 118 ∷ 97 ∷ 116 ∷ 105 ∷ 111
    ∷ 110 ∷ []

-- `reorg_invalidation`
abbrev reorg_invalidation_word : Text
reorg_invalidation_word =
    114 ∷ 101 ∷ 111 ∷ 114 ∷ 103 ∷ 95 ∷ 105 ∷ 110 ∷ 118 ∷ 97 ∷ 108 ∷ 105 ∷ 100 ∷ 97 ∷ 116 ∷ 105 ∷ 111
    ∷ 110 ∷ []

-- `deposit`, `withdraw` and `share_transfer`
abbrev pub flow_kind_word : FlowKind → Text
flow_kind_word deposit = 100 ∷ 101 ∷ 112 ∷ 111 ∷ 115 ∷ 105 ∷ 116 ∷ []
flow_kind_word withdraw = 119 ∷ 105 ∷ 116 ∷ 104 ∷ 100 ∷ 114 ∷ 97 ∷ 119 ∷ []
flow_kind_word share_transfer =
    115 ∷ 104 ∷ 97 ∷ 114 ∷ 101 ∷ 95 ∷ 116 ∷ 114 ∷ 97 ∷ 110 ∷ 115 ∷ 102 ∷ 101 ∷ 114 ∷ []

unfoldable pub vault_flow_id : Platform → ℕ → Text → Text → ℕ → FlowKind → Text
vault_flow_id p chain_id block_hash transaction_hash log_index kind = uuid_v5 p (
    entity_name vault_flow_word (
      p.decimal chain_id
      ∷ block_hash
      ∷ transaction_hash
      ∷ p.decimal log_index
      ∷ flow_kind_word kind
      ∷ []))

unfoldable pub vault_snapshot_id : Platform → ℕ → Text → Text → Text → Text
vault_snapshot_id p chain_id vault_address block_hash schema_version = uuid_v5 p (
    entity_name vault_snapshot_word
      (p.decimal chain_id ∷ vault_address ∷ block_hash ∷ schema_version ∷ []))

unfoldable pub report_observation_id : Platform → Text → Text → Text
report_observation_id p report_id observation_id =
    uuid_v5 p (entity_name report_observation_word (report_id ∷ observation_id ∷ []))

unfoldable pub reorg_invalidation_id : Platform → Text → Text → Text → Text
reorg_invalidation_id p subject_kind subject_id canonical_block_hash =
    uuid_v5 p
      (entity_name reorg_invalidation_word (subject_kind ∷ subject_id ∷ canonical_block_hash ∷ []))

-- `wallet`
abbrev wallet_word : Text
wallet_word = 119 ∷ 97 ∷ 108 ∷ 108 ∷ 101 ∷ 116 ∷ []

unfoldable pub wallet_id : Platform → Text → Text
wallet_id p address = uuid_v5 p (entity_name wallet_word (address ∷ []))
