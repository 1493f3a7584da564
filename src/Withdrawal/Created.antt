-- ===== src/Withdrawal/Created.antt =====
-- What a payout request that was stored went through.
use crypto_gateway_rp.Common.{
  ℕ, ◌≤◌, arith, ◌≡◌, refl, sym, ap, Bool, true, false, not, ◌&&◌, Option, ℤ, pos, pos_part, ltb_ℤ,
  if◌then◌else◌, is_empty,
}
use crypto_gateway_rp.Numeric.{NumberOps}
use crypto_gateway_rp.Text.{Text, big_int}
use crypto_gateway_rp.Amount.{parse_optional_gateway_deposit_amount}
use crypto_gateway_rp.Store.{Store}
use crypto_gateway_rp.Balance.{Engine}
use crypto_gateway_rp.Withdrawal.{
  Rail, resolve_merchant_withdrawal_rail, RequestError, Answer, answered, rejected, thrown, ◌>>=◌,
  ◌>>◌, or_reject, or_throw, reject_if, AddressLibrary, normalize_withdrawal_to_address,
  merchant_has_pending_payout,
}
use crypto_gateway_rp.Withdrawal.Request.{
  WithdrawalRequest, Created, amount_of_answer, client_reference, pre_fail_reason, new_row,
  inserted, insert_with_ref, is_sandbox, reference_taken, create_merchant_withdrawal_request,
}
use crypto_gateway_rp.Payout.TestRefs.{uniquify_sandbox_client_ref}

pub answered_injective : {A : Type 0} {a b : A} → answered a ≡ answered b → a ≡ b
answered_injective {A} {a} {b} h = ap (content a) h
  where
    content : A → Answer A → A
    content d (answered x) = x
    content d (rejected e) = d
    content d thrown = d

pub step_answered :
    {A B : Type 0} (m : Answer A) (f : A → Answer B) {b : B}
    → (m >>= f) ≡ answered b
    → (a : A) × (m ≡ answered a) × (f a ≡ answered b)
step_answered (answered a) f h = (a, refl, h)
step_answered (rejected e) f h = cc h
step_answered thrown f h = cc h

step_passed :
    {B : Type 0} (c : Bool) (e : RequestError) (m : Answer B) {b : B}
    → (reject_if c e >> m) ≡ answered b
    → (c ≡ false) × (m ≡ answered b)
step_passed true e m h = cc h
step_passed false e m h = (refl, h)

part_positive : (n : ℤ) → ltb_ℤ n (pos 1) ≡ false → 1 ≤ pos_part n
part_positive n h = ground (arith, h)

module _ (js : NumberOps) (sql : Engine) (lib : AddressLibrary) where
  -- The values that the steps found, and the row that was written.
  pub record Creation (now : ℕ) (store : Store) (p : WithdrawalRequest) (c : Created) : Type 0 where
    pub rail : Rail
    pub to_address : Text
    pub gross : ℕ
    pub reference : Text
    pub reason : Option Text
    pub positive : 1 ≤ gross
    pub none_open : merchant_has_pending_payout store p.merchant_id p.environment ≡ false
    pub judged : pre_fail_reason js sql lib store p rail gross ≡ answered reason
    pub made :
        c
        ≡ inserted js sql lib store
            (new_row js sql lib now store p rail to_address gross reference reason)

  insert_row :
      (now : ℕ) (store : Store) (p : WithdrawalRequest) (rail : Rail) (to_address : Text)
      (gross : ℕ) (suffix reference : Text) (reason : Option Text) (c : Created)
      → insert_with_ref js sql lib now store p rail to_address gross suffix reference reason
        ≡ answered c
      → (r : Text) × (c
          ≡ inserted js sql lib store
              (new_row js sql lib now store p rail to_address gross r reason))
  unfolding insert_with_ref
  insert_row now store p rail to_address gross suffix reference reason c h =
      cases (not (not (is_empty reference) && reference_taken store p reference))
        (is_sandbox p && not (not (is_empty again) && reference_taken store p again)) h
    where
      again : Text
      again = uniquify_sandbox_client_ref suffix reference

      row : Text → Created
      row r =
          inserted js sql lib store (new_row js sql lib now store p rail to_address gross r reason)

      cases :
          (a b : Bool)
          → (if a then answered (row reference) else if b then answered (row again) else thrown)
            ≡ answered c
          → (r : Text) × (c ≡ row r)
      cases true b k = (reference, sym (answered_injective k))
      cases false true k = (again, sym (answered_injective k))
      cases false false k = cc k

  -- A request that is answered with a row had no other open payout, and wrote one new row.
  pub create_merchant_withdrawal_request-Creation :
      (now : ℕ) (suffix second_suffix : Text) (store : Store) (p : WithdrawalRequest) (c : Created)
      → create_merchant_withdrawal_request js sql lib now suffix second_suffix store p ≡ answered c
      → Creation now store p c
  unfolding create_merchant_withdrawal_request
  create_merchant_withdrawal_request-Creation now suffix second_suffix store p c h =
      let (rail, on_rail, h1) =
        step_answered
          (or_reject (resolve_merchant_withdrawal_rail p.chain_input p.token_symbol_input)
            RequestError.unsupported_withdrawal_rail)
          _ h in
      let (to_address, valid, h2) =
        step_answered (normalize_withdrawal_to_address lib rail.chain p.to_address_raw) _ h1 in
      let (atomic, parsed, h3) =
        step_answered
          (amount_of_answer
            (parse_optional_gateway_deposit_amount p.amount_raw rail.token_decimals))
          _ h2 in
      let (gross, number, h4) = step_answered (or_throw (big_int atomic)) _ h3 in
      let (positive, h5) = step_passed (ltb_ℤ gross (pos 1)) RequestError.invalid_amount _ h4 in
      let (free, h6) =
        step_passed (merchant_has_pending_payout store p.merchant_id p.environment)
          RequestError.payout_already_pending _ h5 in
      let (reference, unused, h7) = step_answered (client_reference store p suffix) _ h6 in
      let (reason, judged, h8) =
        step_answered (pre_fail_reason js sql lib store p rail (pos_part gross)) _ h7 in
      let (stored, made) =
        insert_row now store p rail to_address (pos_part gross) second_suffix reference reason c
          h8 in
      record {
        rail = rail;
        to_address = to_address;
        gross = pos_part gross;
        reference = stored;
        reason = reason;
        positive = part_positive gross positive;
        none_open = free;
        judged = judged;
        made = made;
      }
