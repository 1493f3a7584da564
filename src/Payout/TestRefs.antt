-- ===== src/Payout/TestRefs.antt =====
-- server/src/services/payout/payout-test-refs.js: the references and flags that simulate a payout.
use crypto_gateway_rp.Common.{
  ◌-◌, Bool, false, ◌||◌, Option, none, some, [], ◌++◌, ℤ, pos, negsuc, ◌==◌, leb, if◌then◌else◌,
  get_or, length, take,
}
use crypto_gateway_rp.Text.{Text, codes, eq_text, starts_with, trim, to_upper_case, to_lower_case}

pub data SimulatedOutcome : Type 0 where
  failed completed : SimulatedOutcome

-- `force_fail` of a request body.
pub data FlagInput : Type 0 where
  truth : Bool → FlagInput
  number : ℤ → FlagInput
  text : Text → FlagInput
  other : FlagInput

unfoldable pub normalize_payout_client_ref : Option Text → Text
unfolding trim to_upper_case
normalize_payout_client_ref reference = to_upper_case (trim (get_or reference []))

unfoldable pub is_payout_fail_test_ref : Option Text → Bool
unfolding normalize_payout_client_ref
is_payout_fail_test_ref client_reference_id =
    let reference = normalize_payout_client_ref client_reference_id in
    starts_with (codes "FAIL-TEST") reference
    || starts_with (codes "FAIL_") reference
    || starts_with (codes "FAIL-") reference
    || eq_text reference (codes "FAIL")
    || starts_with (codes "SANDBOX_FAIL") reference

is_payout_success_test_ref : Option Text → Bool
unfolding normalize_payout_client_ref
is_payout_success_test_ref client_reference_id =
    let reference = normalize_payout_client_ref client_reference_id in
    starts_with (codes "SUCCESS-TEST") reference
    || starts_with (codes "SUCCESS_") reference
    || starts_with (codes "SUCCESS-") reference
    || eq_text reference (codes "SUCCESS")

is_payout_simulated_test_ref : Option Text → Bool
unfolding is_payout_fail_test_ref is_payout_success_test_ref
is_payout_simulated_test_ref client_reference_id =
    is_payout_fail_test_ref client_reference_id || is_payout_success_test_ref client_reference_id

abbrev pub is_one : ℤ → Bool
is_one (pos n) = n == 1
is_one (negsuc n) = false

unfoldable pub is_payout_force_fail_flag : FlagInput → Bool
unfolding trim to_lower_case
is_payout_force_fail_flag (truth b) = b
is_payout_force_fail_flag (number n) = is_one n
is_payout_force_fail_flag (text s) =
    eq_text s (codes "1") || eq_text (to_lower_case (trim s)) (codes "true")
is_payout_force_fail_flag other = false

unfoldable pub parse_simulate_result : Option Text → Option SimulatedOutcome
unfolding trim to_lower_case
parse_simulate_result none = none
parse_simulate_result (some raw) =
    let s = to_lower_case (trim raw) in
    if eq_text s (codes "failed") || eq_text s (codes "fail") || eq_text s (codes "failure")
    then some failed
    else if eq_text s (codes "success")
        || eq_text s (codes "succeeded")
        || eq_text s (codes "completed")
        || eq_text s (codes "ok")
    then some completed
    else none

unfoldable pub simulated_payout_outcome : FlagInput → Option Text → Option Text → SimulatedOutcome
unfolding parse_simulate_result is_payout_force_fail_flag is_payout_fail_test_ref
simulated_payout_outcome force_fail client_reference_id simulate_result =
    get_or (parse_simulate_result simulate_result) (
      if is_payout_force_fail_flag force_fail || is_payout_fail_test_ref client_reference_id
      then failed
      else completed)

-- The suffix comes from the clock and Math.random.
unfoldable pub uniquify_sandbox_client_ref : Text → Text → Text
unfolding trim
uniquify_sandbox_client_ref suffix base_ref =
    let room = 256 - length suffix in
    let base = take (if leb 1 room then room else 1) (trim base_ref) in take 256 (base ++ suffix)
