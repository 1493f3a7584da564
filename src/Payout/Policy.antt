-- ===== src/Payout/Policy.antt =====
-- server/src/lib/merchant-payout-rails-policy.js (the limits and treasury of a rail) and
-- server/src/lib/rp-merchant-swap-main.js.
use crypto_gateway_rp.Common.{
  ℕ, ◌&&◌, Option, none, some, List, [], ◌∷◌, ◌==◌, if◌then◌else◌, leb, is_empty, find,
}
use crypto_gateway_rp.Text.{Text, codes, eq_text, trim}
use crypto_gateway_rp.Store.{Chain, RailPolicyRow, Merchant, SwapConfig, Store, is_active}
use crypto_gateway_rp.Store.Queries.{sort_by}

pub record Policy : Type 0 where
  pub min : Text
  pub max : Text
  pub treasury : Text

unfoldable pub payout_rail_key_for_chain : Chain → Option Text
payout_rail_key_for_chain Chain.tron = some (codes "USDT|TRC20")
payout_rail_key_for_chain Chain.eth = some (codes "USDT|ERC20")
payout_rail_key_for_chain _ = none

abbrev empty_row : RailPolicyRow
empty_row = record { min_human = none; max_human = none; treasury_address = none }

row_of : List (Text × RailPolicyRow) → Text → RailPolicyRow
row_of [] key = empty_row
row_of ((k, row) ∷ rows) key = let rest = row_of rows key in if eq_text k key then row else rest

-- `x != null ? String(x).trim() : ""`
unfoldable pub trimmed : Option Text → Text
unfolding trim
trimmed none = []
trimmed (some s) = trim s

-- `a !== "" ? a : b`
abbrev pub or_text : Text → Text → Text
or_text a b = if is_empty a then b else a

legacy_treasury : Merchant → Text → Text
unfolding trimmed
legacy_treasury merchant key =
    if eq_text key (codes "USDT|TRC20")
    then trimmed merchant.payout_treasury_tron
    else if eq_text key (codes "USDT|ERC20")
    then trimmed merchant.payout_treasury_eth
    else []

unfoldable pub effective_payout_policy_for_rail : Merchant → Text → Policy
unfolding row_of trimmed legacy_treasury trim
effective_payout_policy_for_rail merchant key =
    let row = row_of merchant.payout_rails_policy key in
    record {
      min =
          or_text (trimmed row.min_human)
            (or_text (trim merchant.payout_min_amount_human) (codes "0"));
      max =
          or_text (trimmed row.max_human)
            (or_text (trim merchant.payout_max_amount_human) (codes "0"));
      treasury = or_text (trimmed row.treasury_address) (legacy_treasury merchant key);
    }

-- The first by id; a blank address is none.
unfoldable pub rp_merchant_swap_main_tron_address : Store → ℕ → Option Text
unfolding sort_by trim
rp_merchant_swap_main_tron_address store merchant_id =
    if leb 1 merchant_id
    then elim (find
        (λ (c : SwapConfig). c.merchant_id == merchant_id && c.is_enabled && is_active c.deleted_at)
        (sort_by (λ (c : SwapConfig). c.id) store.swap_configs)) [
          | none ↦ none
          | some c ↦ if is_empty (trim c.tron_address) then none else some (trim c.tron_address)
        ]
    else none
