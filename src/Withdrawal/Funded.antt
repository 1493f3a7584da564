-- ===== src/Withdrawal/Funded.antt =====
-- A live payout that is to be sent is covered by the balance.
use crypto_gateway_rp.Common.{
  ℕ, ◌+◌, ◌-◌, ◌≤◌, ◌≡◌, refl, sym, ap, subst, ◌∙◌, Bool, true, false, ◌&&◌, ◌||◌, Option, none,
  some, List, [], ◌∷◌, ℤ, pos, ltb, ltb_ℤ, if◌then◌else◌, find, lookup, IsMap, is_some, inl, inr,
  Bool-cases, Option-cases, arith, ==_iff,
}
use mathlib.Core.Option.{some-injective}
use crypto_gateway_rp.Numeric.{NumberOps}
use crypto_gateway_rp.Text.{Text, decimal, to_upper_case, eq_text}
use crypto_gateway_rp.Text.Decimal.{decimal-print_number}
use crypto_gateway_rp.Store.{
  Chain, GatewayEnv, WithdrawalStatus, processing, eq_chain, Withdrawal, Store,
}
use crypto_gateway_rp.Balance.{Token, same_token, Engine}
use crypto_gateway_rp.Balance.Ledger.{
  token_Eq, same_token→≡, same_token_iff, merchant_exists, compute_merchant_balances,
}
use crypto_gateway_rp.Balance.Value.{
  HasAmounts, credited, debited, balance_of_sums, compute_merchant_balances-total,
}
use crypto_gateway_rp.Withdrawal.{
  Rail, usdt, answered, AddressLibrary, validate_gross_against_merchant_payout_limits,
}
use crypto_gateway_rp.Withdrawal.Request.{
  WithdrawalRequest, Created, limit_reason, is_bucket_of, is_sandbox, available_of, balance_reason,
  pre_fail_reason, new_row, create_merchant_withdrawal_request,
}
use crypto_gateway_rp.Withdrawal.Created.{
  answered_injective, create_merchant_withdrawal_request-Creation,
}

-- What a search finds is the entry of its key, and satisfies the test.
find-lookup :
    (p : (Token × ℤ) → Bool) (m : List (Token × ℤ)) {e : Token × ℤ}
    → IsMap m
    → find p m ≡ some e
    → (lookup e.0 m ≡ some e.1) × (p e ≡ true)
find-lookup p [] h found = cc found
find-lookup p (f ∷ fs) {e} h found = elim (Bool-cases (p f)) [
  | inl hit ↦
      let same : f ≡ e = some-injective _ _ (rw hit at found) in
      subst (λ (x : Token × ℤ). (lookup x.0 (f ∷ fs) ≡ some x.1) × (p x ≡ true)) same
        (rw ((same_token_iff f.0 f.0).1 refl) refl, hit)
  | inr miss ↦
      let (here, holds) = find-lookup p fs h.1 (rw miss at found) in
      (
        elim (Bool-cases (same_token e.0 f.0)) [
          | inl same ↦
              let last : lookup e.0 fs ≡ none =
                subst (λ k. lookup k fs ≡ none) (sym (same_token→≡ e.0 f.0 same)) h.0 in
              cc (here, last)
          | inr other ↦ rw other here
        ],
        holds,
      )
]

-- What an entry of the balances leaves for a payout.
entry_covers :
    (credits debits gross : ℕ) (n : ℤ)
    → balance_of_sums credits debits ≡ some n
    → ltb_ℤ n (pos gross) ≡ false
    → debits + gross ≤ credits
entry_covers credits debits gross n h k = elim (Bool-cases (ltb debits credits)) [
  | inl e ↦
      let same : pos (credits - debits) ≡ n = some-injective _ _ (rw e at h) in
      covered (subst (λ m. ltb_ℤ m (pos gross) ≡ false) (sym same) k) e
  | inr e ↦ cc (rw e at h)
]
  where
    covered :
        ltb_ℤ (pos (credits - debits)) (pos gross) ≡ false
        → ltb debits credits ≡ true
        → debits + gross ≤ credits
    covered h k = ground (arith, h, k)

module _ (js : NumberOps) (sql : Engine) (lib : AddressLibrary) where
  -- A live request without a reason to fail found a balance that is not below the gross amount.
  judged_funded :
      (store : Store) (p : WithdrawalRequest) (rail : Rail) (gross : ℕ)
      (balances : List (Token × ℤ))
      → is_sandbox p ≡ false
      → compute_merchant_balances sql store p.merchant_id p.environment ≡ some balances
      → pre_fail_reason js sql lib store p rail gross ≡ answered none
      → ltb_ℤ (available_of (find (is_bucket_of rail) balances)) (pos gross) ≡ false
  unfolding pre_fail_reason
  judged_funded store p rail gross balances live computed judged =
      enough
        (limit_reason (
          validate_gross_against_merchant_payout_limits gross p.payout_min_amount_human
            p.payout_max_amount_human rail.token_decimals))
        (available_of (find (is_bucket_of rail) balances)) (rw (live, computed) at judged)
    where
      enough :
          (bounds : Option Text) (available : ℤ)
          → (if is_some bounds || false
              then answered bounds
              else answered (balance_reason available gross))
            ≡ answered none
          → ltb_ℤ available (pos gross) ≡ false
      enough (some reason) available h = cc (answered_injective h)
      enough none available h = elim (Bool-cases (ltb_ℤ available (pos gross))) [
        | inl e ↦ cc (answered_injective (rw e at h))
        | inr e ↦ e
      ]

  -- Some token of the rail's chain and decimals, whose symbol is USDT in capitals, has credits that
  -- cover its debits and the gross amount.
  abbrev pub Covered : Store → ℕ → GatewayEnv → Chain → ℕ → ℕ → Type 0
  Covered store merchant_id env chain decimals gross =
      (k : Token) × (eq_chain k.chain chain ≡ true)
      × (eq_text (to_upper_case k.symbol) usdt ≡ true)
      × (k.decimals ≡ decimals)
      × (debited store merchant_id env k + gross ≤ credited store merchant_id env k)

  found-Covered :
      (store : Store) (merchant_id : ℕ) (env : GatewayEnv) (rail : Rail) (gross : ℕ)
      (balances : List (Token × ℤ))
      → 1 ≤ gross
      → IsMap balances
      → ((k : Token)
          → lookup k balances
            ≡ balance_of_sums (credited store merchant_id env k) (debited store merchant_id env k))
      → ltb_ℤ (available_of (find (is_bucket_of rail) balances)) (pos gross) ≡ false
      → Covered store merchant_id env rail.chain rail.token_decimals gross
  unfolding is_bucket_of
  found-Covered store merchant_id env rail gross balances positive unique entries enough =
      elim (Option-cases (find (is_bucket_of rail) balances)) [
        | inl e ↦
            let none_left : ltb_ℤ (pos 0) (pos gross) ≡ false = rw e at enough in
            absurd (no_balance positive none_left)
        | inr (entry, e) ↦
            let (here, holds) = find-lookup (is_bucket_of rail) balances unique e in
            let parts = split _ _ _ holds in
            (
              entry.0,
              parts.0,
              parts.1,
              (==_iff _ _).0 parts.2,
              entry_covers _ _ gross entry.1 (sym (entries entry.0) ∙ here) (rw e at enough),
            )
      ]
    where
      split : (a b c : Bool) → (a && b && c) ≡ true → (a ≡ true) × (b ≡ true) × (c ≡ true)
      split a b c h = ground (arith, h)

      no_balance : 1 ≤ gross → ltb_ℤ (pos 0) (pos gross) ≡ false → ⊥
      no_balance h k = ground (arith, h, k)

  -- For an active merchant whose live amounts are all texts of digits: when a live request is answered
  -- with a row that is to be sent, then some token on the row's chain, with its decimals and with the
  -- symbol USDT in capitals, has credits that cover its payouts, its settlements and this gross amount.
  pub create_merchant_withdrawal_request-Covered :
      (now : ℕ) (suffix second_suffix : Text) (store : Store) (p : WithdrawalRequest) (c : Created)
      → is_sandbox p ≡ false
      → merchant_exists store p.merchant_id ≡ true
      → HasAmounts store p.merchant_id p.environment
      → create_merchant_withdrawal_request js sql lib now suffix second_suffix store p ≡ answered c
      → c.withdrawal.status ≡ processing
      → Covered store p.merchant_id p.environment c.withdrawal.chain c.withdrawal.token_decimals
          (decimal c.withdrawal.amount)
  unfolding new_row
  create_merchant_withdrawal_request-Covered now suffix second_suffix store p c live active h answer
        to_send =
      let made =
        create_merchant_withdrawal_request-Creation js sql lib now suffix second_suffix store p c
          answer in
      let (balances, computed, unique, entries) =
        compute_merchant_balances-total sql store p.merchant_id p.environment active h in
      let row =
        new_row js sql lib now store p made.rail made.to_address made.gross made.reference
          made.reason in
      let same : c.withdrawal ≡ row = ap (λ (x : Created). x.withdrawal) made.made in
      let unfailed : made.reason ≡ none =
        no_reason made.reason (subst (λ (w : Withdrawal). w.status ≡ processing) same to_send) in
      let covered =
        found-Covered store p.merchant_id p.environment made.rail made.gross balances made.positive
          unique entries
          (judged_funded store p made.rail made.gross balances live computed (
            subst (λ r. pre_fail_reason js sql lib store p made.rail made.gross ≡ answered r)
              unfailed made.judged)) in
      subst
        (λ (w : Withdrawal).
          Covered store p.merchant_id p.environment w.chain w.token_decimals (decimal w.amount))
        (sym same)
        (unfold new_row in
          subst (Covered store p.merchant_id p.environment made.rail.chain made.rail.token_decimals)
            (sym (decimal-print_number made.gross)) covered)
    where
      no_reason :
          (r : Option Text)
          → (if is_some r then WithdrawalStatus.failed else processing) ≡ processing
          → r ≡ none
      no_reason none h = refl
      no_reason (some x) h = cc h
