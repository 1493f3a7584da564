-- ===== src/Balance/Ledger.antt =====
-- computeMerchantBalances of server/src/services/merchant-balance.js: the rows grouped and summed, the
-- map that the three loops build, and the positive entries of it.
use crypto_gateway_rp.Common.{
  ◌++◌, ◌>>=◌, ◌↔◌, ℕ, Bool, true, ◌&&◌, ◌≡◌, Option, none, some, List, [], ◌∷◌, ℤ, pos, ◌-ℤ◌,
  ltb_ℤ, leb, ◌==◌, if◌then◌else◌, filter, any, get_or, Eq, lookup, insert, ==_iff, subst, refl,
  arith,
}
use crypto_gateway_rp.Text.{Text}
use crypto_gateway_rp.Text.Laws.{eq_text→≡, eq_text_refl}
use crypto_gateway_rp.Store.{chain_text, Chain, chain_index, is_active, GatewayEnv, Merchant, Store}
use crypto_gateway_rp.Balance.{
  Token, same_token, Engine, big_int_from_pg_numeric_text, inbound_amounts, payout_amounts,
  settlement_amounts,
}

chain_of_index : (a b : Chain) → chain_index a ≡ chain_index b → a ≡ b
chain_of_index a b h = ground arith

pub same_token→≡ : (a b : Token) → same_token a b ≡ true → a ≡ b
same_token→≡ a b h =
    let parts = split _ _ _ h in
    let c = chain_of_index a.chain b.chain ((==_iff _ _).0 parts.0) in
    let s = eq_text→≡ a.symbol b.symbol parts.1 in
    let d = (==_iff _ _).0 parts.2 in λ i. record { chain = c i; symbol = s i; decimals = d i }
  where
    split : (a b c : Bool) → (a && b && c) ≡ true → (a ≡ true) × (b ≡ true) × (c ≡ true)
    split a b c h = ground arith

same_token_refl : (a : Token) → same_token a a ≡ true
same_token_refl a = both _ _ _ ((==_iff _ _).1 refl) (eq_text_refl a.symbol) ((==_iff _ _).1 refl)
  where
    both : (a b c : Bool) → a ≡ true → b ≡ true → c ≡ true → (a && b && c) ≡ true
    both a b c h k l = ground arith

pub same_token_iff : (a b : Token) → (same_token a b ≡ true) ↔ (a ≡ b)
same_token_iff a b =
    (same_token→≡ a b, λ e. subst (λ x. same_token a x ≡ true) e (same_token_refl a))

-- Two keys of the map are one text when their tokens agree.
instance abbrev pub token_Eq : Eq Token
token_Eq = record { beq = same_token; beq_iff = same_token_iff }

-- `GROUP BY t.chain, t.token_symbol, t.token_decimals`
unfoldable pub group_rows : List (Token × Text) → List (Token × List Text)
group_rows [] = []
group_rows ((k, a) ∷ rows) =
    let groups = group_rows rows in insert k (a ∷ get_or (lookup k groups) []) groups

-- `none` is an exception of the database or of BigInt.
unfoldable pub sum_groups : Engine → List (Token × List Text) → Option (List (Token × ℤ))
sum_groups sql [] = some []
sum_groups sql ((k, texts) ∷ groups) = do
  s ← sql.sum_of texts
  n ← big_int_from_pg_numeric_text s
  sums ← sum_groups sql groups
  some ((k, n) ∷ sums)

unfoldable pub set_all : List (Token × ℤ) → List (Token × ℤ) → List (Token × ℤ)
set_all balances [] = balances
set_all balances ((k, n) ∷ sums) = set_all (insert k n balances) sums

-- A missing entry is set to `-n`.
abbrev pub debit : Option ℤ → ℤ → ℤ
debit none n = pos 0 -ℤ n
debit (some balance) n = balance -ℤ n

unfoldable pub subtract_all : List (Token × ℤ) → List (Token × ℤ) → List (Token × ℤ)
subtract_all balances [] = balances
subtract_all balances ((k, n) ∷ sums) =
    subtract_all (insert k (debit (lookup k balances) n) balances) sums

-- `r.bal > 0n`
abbrev pub is_positive : (Token × ℤ) → Bool
is_positive entry = ltb_ℤ (pos 0) entry.1

-- The sort is stable, by `${chain}:${token_symbol}`.
abbrev sort_key : (Token × ℤ) → Text
sort_key entry = chain_text entry.0.chain ++ (b':' ∷ entry.0.symbol)

unfoldable pub insert_sorted : Engine → (Token × ℤ) → List (Token × ℤ) → List (Token × ℤ)
insert_sorted sql e [] = e ∷ []
insert_sorted sql e (f ∷ fs) =
    let rest = insert_sorted sql e fs in
    if sql.locale_at_most (sort_key e) (sort_key f) then e ∷ f ∷ fs else f ∷ rest

unfoldable pub sort_buckets : Engine → List (Token × ℤ) → List (Token × ℤ)
unfolding insert_sorted
sort_buckets sql [] = []
sort_buckets sql (e ∷ es) = insert_sorted sql e (sort_buckets sql es)

unfoldable pub merchant_exists : Store → ℕ → Bool
merchant_exists store merchant_id =
    leb 1 merchant_id
    && any (λ (m : Merchant). m.id == merchant_id && is_active m.deleted_at) store.merchants

unfoldable pub compute_merchant_balances :
    Engine → Store → ℕ → GatewayEnv → Option (List (Token × ℤ))
unfolding group_rows sum_groups set_all subtract_all merchant_exists sort_buckets
compute_merchant_balances sql store merchant_id env =
    if merchant_exists store merchant_id
    then (do
      credits ← sum_groups sql (group_rows (inbound_amounts store merchant_id env))
      payouts ← sum_groups sql (group_rows (payout_amounts store merchant_id env))
      settled ← sum_groups sql (group_rows (settlement_amounts store merchant_id env))
      some (
          sort_buckets sql (
            filter is_positive (subtract_all (subtract_all (set_all [] credits) payouts) settled))))
    else some []
