-- ===== src/Observations/Staging.antt =====
-- The rows that the sink writes, packages/db/src/schema/raw.ts, and what promotion reads of them. An
-- amount is a number; a text outside the enumerations, which the database refuses, is left out.
use tr4ce_app.Prelude.{ℕ, ◌==◌, Bool, ◌&&◌, Option, none, some, List, [], ◌∷◌, leb, if◌then◌else◌}
use tr4ce_app.Prelude.Int.{ℤ}
use tr4ce_app.Domain.{TransferKind}
use tr4ce_app.Bytes.{Text}
use tr4ce_app.Observations.Tables.{CallStatus}

pub record RawEventRow : Type 0 where
  pub chain_id : ℕ
  pub block_hash : Text
  pub transaction_hash : Text
  pub log_index : ℕ
  pub block_number : ℕ
  pub block_time : ℤ
  pub vault : Text
  pub schema_version : Text

pub record RawDeposit : Type 0 where
  pub event : RawEventRow
  pub sender : Text
  pub owner : Text
  pub assets : ℕ
  pub shares : ℕ

pub record RawWithdraw : Type 0 where
  pub event : RawEventRow
  pub sender : Text
  pub receiver : Text
  pub owner : Text
  pub assets : ℕ
  pub shares : ℕ

pub record RawShareTransfer : Type 0 where
  pub event : RawEventRow
  pub from_address : Text
  pub to_address : Text
  pub shares : ℕ
  pub transfer_kind : TransferKind

pub record RawVaultSnapshot : Type 0 where
  pub chain_id : ℕ
  pub vault : Text
  pub block_hash : Text
  pub schema_version : Text
  pub block_number : ℕ
  pub block_time : ℤ
  pub total_assets : Option ℕ
  pub total_supply : Option ℕ
  pub one_share_units : ℕ
  pub one_share_assets : Option ℕ
  pub call_status : CallStatus
  pub call_errors : Text
  pub trigger_activity : Bool
  pub trigger_checkpoint : Bool
  pub trigger_anchor : Bool

pub record Staging : Type 0 where
  pub deposits : List RawDeposit
  pub withdrawals : List RawWithdraw
  pub transfers : List RawShareTransfer
  pub snapshots : List RawVaultSnapshot
  -- the `block_num` of each row of the sink's `cursors`
  pub sink_blocks : List ℕ

-- The `where` of the four reads: the chain, and a block in the range, its ends included.
abbrev pub in_range : ℕ → ℕ → ℕ → ℕ → ℕ → Bool
in_range chain_id from_block to_block row_chain row_block =
    row_chain == chain_id && leb from_block row_block && leb row_block to_block

abbrev pub event_in_range : ℕ → ℕ → ℕ → RawEventRow → Bool
event_in_range chain_id from_block to_block row =
    in_range chain_id from_block to_block row.chain_id row.block_number

higher : ℕ → Option ℕ → Option ℕ
higher block none = some block
higher block (some other) = some (if leb other block then block else other)

-- `ORDER BY block_num DESC LIMIT 1`
unfoldable pub read_sink_head : List ℕ → Option ℕ
unfolding higher
read_sink_head [] = none
read_sink_head (block ∷ blocks) = higher block (read_sink_head blocks)
