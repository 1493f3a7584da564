-- ===== src/Settlement/Funded.antt =====
-- A settlement is paid from the balance of its token.
use crypto_gateway_rp.Common.{
  ℕ, ◌+◌, ◌≤◌, ◌≡◌, refl, sym, ap, subst, ◌∙◌, Bool, true, ◌&&◌, List, [], ◌∷◌, map, filter, lookup,
  All, inl, inr, Bool-cases, ==_iff, arith, is_some, ◌==◌,
}
use mathlib.Core.Option.{some-injective}
use crypto_gateway_rp.Numeric.{NumberOps}
use crypto_gateway_rp.Text.{decimal}
use crypto_gateway_rp.Text.Decimal.{decimal-print_number, print_number_digits}
use crypto_gateway_rp.Store.{GatewayEnv, MerchantSettlement, Store, eq_env}
use crypto_gateway_rp.Store.Queries.{update_where}
use crypto_gateway_rp.Balance.{
  Token, IsAmount, Engine, is_inbound_credit, inbound_amounts, is_settlement_of, payout_amounts,
  settlement_amounts,
}
use crypto_gateway_rp.Balance.Sums.{total_for}
use crypto_gateway_rp.Balance.Ledger.{token_Eq, same_token_iff, merchant_exists}
use crypto_gateway_rp.Balance.Value.{
  HasAmounts, credited, debited, balance_of_sums, compute_merchant_balances-total,
}
use crypto_gateway_rp.Settlement.Execute.{
  done, Request, Settled, is_among, settle_with, write_settlement, active_merchant, token_of_asset,
  covers, execute_batch_settlement,
}
use crypto_gateway_rp.Settlement.Batch.{execute_batch_settlement-Steps}

-- Marking rows as settled changes no credit.
map-filter-update_where :
    {A B : Type 0} (g : A → B) (p q : A → Bool) (f : A → A)
    → ((x : A) → g (f x) ≡ g x)
    → ((x : A) → p (f x) ≡ p x)
    → (xs : List A) → map g (filter p (update_where q f xs)) ≡ map g (filter p xs)
unfolding update_where
map-filter-update_where g p q f same kept [] = refl
map-filter-update_where g p q f same kept (x ∷ xs) =
    let rest = map-filter-update_where g p q f same kept xs in
    elim (Bool-cases (q x)) [
      | inl e ↦ elim (Bool-cases (p x)) [
        | inl k ↦ rw (e, kept x, k) (λ i. same x i ∷ rest i)
        | inr k ↦ rw (e, kept x, k) rest
      ]
      | inr e ↦ elim (Bool-cases (p x)) [
        | inl k ↦ rw (e, k) (ap (λ l. g x ∷ l) rest)
        | inr k ↦ rw (e, k) rest
      ]
    ]

eq_env_refl : (env : GatewayEnv) → eq_env env env ≡ true
eq_env_refl GatewayEnv.live = refl
eq_env_refl GatewayEnv.sandbox = refl

inbound-write_settlement :
    (store : Store) (row : MerchantSettlement) (ids : List ℕ) (merchant_id : ℕ) (env : GatewayEnv)
    → inbound_amounts (write_settlement store row ids) merchant_id env
      ≡ inbound_amounts store merchant_id env
unfolding inbound_amounts is_inbound_credit
inbound-write_settlement store row ids merchant_id env =
    map-filter-update_where _ (is_inbound_credit store merchant_id env) (is_among ids)
      (settle_with row.id) (λ t. refl) (λ t. refl) store.transactions

payouts-write_settlement :
    (store : Store) (row : MerchantSettlement) (ids : List ℕ) (merchant_id : ℕ) (env : GatewayEnv)
    → payout_amounts (write_settlement store row ids) merchant_id env
      ≡ payout_amounts store merchant_id env
unfolding payout_amounts
payouts-write_settlement store row ids merchant_id env = refl

-- What was written, and how it stands in the sums.
debited-settlement :
    (store : Store) (row : MerchantSettlement) (ids : List ℕ)
    → is_settlement_of row.merchant_id row.environment row ≡ true
    → debited
        (write_settlement store row ids)
        row.merchant_id
        row.environment
        (record { chain = row.chain; symbol = row.token_symbol; decimals = row.token_decimals })
      ≡ debited store row.merchant_id row.environment
          (record { chain = row.chain; symbol = row.token_symbol; decimals = row.token_decimals })
        + decimal row.net_amount
unfolding debited payout_amounts settlement_amounts total_for
debited-settlement store row ids h =
    rw
      (
        h,
        (same_token_iff
              (record {
                chain = row.chain;
                symbol = row.token_symbol;
                decimals = row.token_decimals;
              })
              _).1
            refl,
      )
      (omega arith)

-- A covered amount leaves the debits below the credits.
covers-le :
    (credits debits net : ℕ)
    → covers (balance_of_sums credits debits) net ≡ true
    → debits + net ≤ credits
covers-le credits debits net h = ground (arith, h)

pub active_merchant-exists :
    (store : Store) (id : ℕ)
    → is_some (active_merchant store id) ≡ true
    → merchant_exists store id ≡ true
unfolding active_merchant
active_merchant-exists store id h = elim (Bool-cases (merchant_exists store id)) [
  | inl e ↦ e
  | inr e ↦ cc (rw e at h)
]

-- The merchant's books before and after: the same credits, debits that grew by `net`, and no more
-- debits than credits.
abbrev pub Funded : Store → Store → ℕ → GatewayEnv → Token → ℕ → Type 0
Funded before after merchant_id env k net =
    (credited after merchant_id env k ≡ credited before merchant_id env k)
    × (debited after merchant_id env k ≡ debited before merchant_id env k + net)
    × (debited after merchant_id env k ≤ credited after merchant_id env k)
    × HasAmounts after merchant_id env

settled-All :
    (store : Store) (row : MerchantSettlement) (ids : List ℕ)
    → is_settlement_of row.merchant_id row.environment row ≡ true
    → IsAmount row.net_amount
    → All (λ r. IsAmount r.1) (settlement_amounts store row.merchant_id row.environment)
    → All
        (λ r. IsAmount r.1)
        (settlement_amounts (write_settlement store row ids) row.merchant_id row.environment)
unfolding settlement_amounts
settled-All store row ids own amount h = rw own (amount, h)

write_settlement-Funded :
    (store : Store) (row : MerchantSettlement) (ids : List ℕ)
    → is_settlement_of row.merchant_id row.environment row ≡ true
    → IsAmount row.net_amount
    → HasAmounts store row.merchant_id row.environment
    → (k : Token)
    → k ≡ record { chain = row.chain; symbol = row.token_symbol; decimals = row.token_decimals }
    → debited store row.merchant_id row.environment k + decimal row.net_amount
      ≤ credited store row.merchant_id row.environment k
    → Funded store
        (write_settlement store row ids)
        row.merchant_id
        row.environment
        k
        (decimal row.net_amount)
write_settlement-Funded store row ids own amount h k same fits =
    let after = write_settlement store row ids in
    let credits : credited after row.merchant_id row.environment k
        ≡ credited store row.merchant_id row.environment k =
      unfold credited in
      ap (total_for k) (inbound-write_settlement store row ids row.merchant_id row.environment) in
    let debits : debited after row.merchant_id row.environment k
        ≡ debited store row.merchant_id row.environment k + decimal row.net_amount =
      subst
        (λ j.
          debited after row.merchant_id row.environment j
          ≡ debited store row.merchant_id row.environment j + decimal row.net_amount)
        (sym same) (debited-settlement store row ids own) in
    (
      credits,
      debits,
      omega (arith, credits, debits, fits),
      record {
        credits =
            subst (All (λ row. IsAmount row.1))
              (sym (inbound-write_settlement store row ids row.merchant_id row.environment))
              h.credits;
        payouts = unfold payout_amounts in h.payouts;
        settlements = settled-All store row ids own amount h.settlements;
      },
    )

module _ (js : NumberOps) (sql : Engine) where
  -- A settlement that is made for a merchant whose amounts are all texts of digits leaves the credits
  -- of the token as they were, raises its debits by the net amount of the settlement, and the debits
  -- do not exceed the credits afterwards; the amounts are all texts of digits again.
  pub execute_batch_settlement-Funded :
      (now : ℕ) (store : Store) (req : Request) (out : Settled)
      → HasAmounts store req.asset.merchant_id req.asset.environment
      → execute_batch_settlement js sql now store req ≡ done out
      → Funded store out.store req.asset.merchant_id req.asset.environment
          (token_of_asset req.asset)
          (decimal out.row.net_amount)
  unfolding is_settlement_of
  execute_batch_settlement-Funded now store req out h done_ =
      let (merchant, found, steps) =
        execute_batch_settlement-Steps js sql now store req out done_ in
      let active = active_merchant-exists store req.asset.merchant_id (ap is_some found) in
      let (balances, computed, unique, entries) =
        compute_merchant_balances-total sql store req.asset.merchant_id req.asset.environment active
          h in
      let k = token_of_asset req.asset in
      let before = credited store req.asset.merchant_id req.asset.environment k in
      let spent = debited store req.asset.merchant_id req.asset.environment k in
      let same : balances ≡ steps.balances = some-injective _ _ (sym computed ∙ steps.computes) in
      let entry : lookup k steps.balances ≡ balance_of_sums before spent =
        subst (λ b. lookup k b ≡ balance_of_sums before spent) same (entries k) in
      let fits =
        covers-le _ _ steps.fees.net_amount
          (subst (λ b. covers b steps.fees.net_amount ≡ true) entry steps.covered) in
      let digits = print_number_digits steps.fees.net_amount in
      subst
        (λ (o : Settled).
          Funded store o.store req.asset.merchant_id req.asset.environment k
            (decimal o.row.net_amount))
        (sym steps.made)
        (write_settlement-Funded store _ _ (own_row req.asset.merchant_id req.asset.environment)
          (digits.0, digits.1) h k refl
          (subst (λ n. spent + n ≤ before) (sym (decimal-print_number steps.fees.net_amount)) fits))
    where
      own_row : (id : ℕ) (env : GatewayEnv) → (id == id && true && eq_env env env) ≡ true
      own_row id env = rw ((==_iff id id).1 refl, eq_env_refl env) refl
