-- ===== src/Withdrawal/Patch.antt =====
-- server/src/services/withdrawal-admin-patch.js: an administrator's update of a payout row.
use crypto_gateway_rp.Common.{ℕ, Option, none, some, leb, if◌then◌else◌, is_empty}
use crypto_gateway_rp.Text.{Text, codes, eq_text}
use crypto_gateway_rp.Store.{WithdrawalStatus, processing, completed, Withdrawal, Store}
use crypto_gateway_rp.Store.Queries.{update_where}
use crypto_gateway_rp.Payout.Policy.{trimmed}
use crypto_gateway_rp.Payout.Execute.{
  World, WithdrawalPatch, has_withdrawal_id, patched, write_withdrawals, find_withdrawal,
  fill_missing_network_fee,
}

-- An outer `none` is an absent field, an inner one is null.
pub record PatchBody : Type 0 where
  pub status : Option Text
  pub tx_hash : Option (Option Text)
  pub failure_reason : Option (Option Text)

pub data PatchAnswer : Type 0 where
  updated : Option Withdrawal → Store → PatchAnswer
  invalid_withdrawal_id not_found invalid_status : PatchAnswer

-- `h || null` of a trimmed text.
trimmed_or_null : Option Text → Option Text
unfolding trimmed
trimmed_or_null s = if is_empty (trimmed s) then none else some (trimmed s)

text_field : Option (Option Text) → Option (Option Text)
unfolding trimmed_or_null
text_field none = none
text_field (some s) = some (trimmed_or_null s)

-- `Object.values(WithdrawalStatus).includes(s)`
status_of_text : Text → Option WithdrawalStatus
status_of_text s =
    if eq_text s (codes "pending")
    then some WithdrawalStatus.pending
    else if eq_text s (codes "processing")
    then some processing
    else if eq_text s (codes "completed")
    then some completed
    else if eq_text s (codes "failed")
    then some WithdrawalStatus.failed
    else none

unfoldable pub next_status : WithdrawalStatus → Option Text → Option WithdrawalStatus
unfolding status_of_text trimmed
next_status current status =
    if is_empty (trimmed status) then some current else status_of_text (trimmed status)

fill_row : World → Store → Option Withdrawal → Store
unfolding fill_missing_network_fee
fill_row world store none = store
fill_row world store (some fresh) = fill_missing_network_fee world store fresh

write_patch : World → Store → ℕ → WithdrawalPatch → PatchAnswer
unfolding fill_row find_withdrawal
write_patch world store id p =
    let written =
      write_withdrawals store
        (update_where (has_withdrawal_id id) (patched world.now p) store.withdrawals) in
    let filled = fill_row world written (find_withdrawal written id) in
    updated (find_withdrawal filled id) filled

patch_status : World → Store → ℕ → PatchBody → Option WithdrawalStatus → PatchAnswer
unfolding write_patch text_field
patch_status world store id body none = invalid_status
patch_status world store id body (some status) = write_patch world store id (record {
  status = some status;
  tx_hash = text_field body.tx_hash;
  failure_reason = text_field body.failure_reason;
})

patch_found : World → Store → ℕ → PatchBody → Option Withdrawal → PatchAnswer
unfolding patch_status next_status
patch_found world store id body none = not_found
patch_found world store id body (some row) =
    patch_status world store id body (next_status row.status body.status)

unfoldable pub admin_patch_withdrawal : World → Store → ℕ → PatchBody → PatchAnswer
unfolding patch_found find_withdrawal
admin_patch_withdrawal world store id body =
    if leb 1 id
    then patch_found world store id body (find_withdrawal store id)
    else invalid_withdrawal_id
