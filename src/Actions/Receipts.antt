-- ===== src/Actions/Receipts.antt =====
-- packages/chain/src/receipts.ts: the amounts that a vault's own event reports. The decoding of a log,
-- which is viem's, is the parameter `decode`; `none` is a log that it throws on.
use tr4ce_app.Prelude.{
  ℕ, Bool, true, false, ◌&&◌, not, Option, none, some, List, [], ◌∷◌, String, if◌then◌else◌,
}
use tr4ce_app.Prelude.Int.{ℤ, pos, ◌-ℤ◌}
use tr4ce_app.Prelude.Text.{str_eq}
use tr4ce_app.Platform.{Platform}
use tr4ce_app.Actions.Store.{ReceiptStatus}
pub mod Events

pub record Log : Type 0 where
  pub address : String
  pub payload : String

-- A decoded `Deposit` or `Withdraw`.
pub record VaultEvent : Type 0 where
  pub event_name : String
  pub owner : String
  pub assets : ℕ
  pub shares : ℕ

pub record ActionReceipt : Type 0 where
  pub status : ReceiptStatus
  pub block_number : ℕ
  pub block_hash : ℕ
  pub gas_used : ℕ
  pub effective_gas_price : Option ℕ
  pub logs : List Log

pub record DepositOutcome : Type 0 where
  pub actual_shares : Option ℕ
  pub actual_assets : Option ℕ
  pub previewed_shares : ℕ
  pub share_delta : Option ℤ

pub record RedeemOutcome : Type 0 where
  pub actual_assets : Option ℕ
  pub actual_shares : Option ℕ
  pub previewed_assets : ℕ
  pub asset_delta : Option ℤ

abbrev pub delta_of : Option ℕ → ℕ → Option ℤ
delta_of none previewed = none
delta_of (some actual) previewed = some (pos actual -ℤ pos previewed)

abbrev shares_of : Option VaultEvent → Option ℕ
shares_of none = none
shares_of (some event) = some event.shares

abbrev assets_of : Option VaultEvent → Option ℕ
assets_of none = none
assets_of (some event) = some event.assets

module _ (p : Platform) (decode : Log → Option VaultEvent) where
  abbrev pub matching_event : String → String → Option VaultEvent → Option VaultEvent
  matching_event name owner none = none
  matching_event name owner (some event) =
      if not (str_eq event.event_name name)
      then none
      else if str_eq (p.to_lower event.owner) (p.to_lower owner)
      then some event
      else none

  abbrev pub event_of : String → String → String → Log → Option VaultEvent
  event_of vault name owner log =
      if not (str_eq (p.to_lower log.address) (p.to_lower vault))
      then none
      else matching_event name owner (decode log)

  unfoldable pub find_event : List Log → String → String → String → Option VaultEvent
  find_event [] vault name owner = none
  find_event (log ∷ logs) vault name owner =
      let rest = find_event logs vault name owner in
      elim (event_of vault name owner log) [ none ↦ rest | some event ↦ some event ]

  unfoldable pub decode_deposit : ActionReceipt → String → String → ℕ → DepositOutcome
  decode_deposit receipt vault owner previewed_shares =
      let event = find_event receipt.logs vault "Deposit" owner in
      record {
        actual_shares = shares_of event;
        actual_assets = assets_of event;
        previewed_shares = previewed_shares;
        share_delta = delta_of (shares_of event) previewed_shares;
      }

  unfoldable pub decode_redeem : ActionReceipt → String → String → ℕ → RedeemOutcome
  decode_redeem receipt vault owner previewed_assets =
      let event = find_event receipt.logs vault "Withdraw" owner in
      record {
        actual_assets = assets_of event;
        actual_shares = shares_of event;
        previewed_assets = previewed_assets;
        asset_delta = delta_of (assets_of event) previewed_assets;
      }
