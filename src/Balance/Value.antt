-- ===== src/Balance/Value.antt =====
-- What the balance of a token is: its credits less its payouts and settlements.
use crypto_gateway_rp.Common.{
  ℕ, ◌+◌, ◌-◌, ◌≡◌, refl, sym, ap, subst, ◌∙◌, true, false, Option, none, some, List, [], ◌∷◌, ℤ,
  pos, ◌-ℤ◌, ltb, ltb_ℤ, if◌then◌else◌, inl, inr, Bool-cases, filter, get_or, or_else, All, lookup,
  insert, IsMap, beq_sym, if_cases, insert-IsMap, lookup-insert_self, lookup-insert_ne, bind-some,
  arith, int_laws, -ℤ_parts, ◌⊎◌,
}
use crypto_gateway_rp.Store.{GatewayEnv, Store}
use crypto_gateway_rp.Balance.{
  Token, same_token, IsAmount, Engine, inbound_amounts, payout_amounts, settlement_amounts,
}
use crypto_gateway_rp.Balance.Sums.{total_for, value, sum_groups-total_for}
use crypto_gateway_rp.Balance.Ledger.{
  token_Eq, insert_sorted, sort_buckets, same_token→≡, set_all, debit, subtract_all, is_positive,
  merchant_exists, compute_merchant_balances,
}

set_all-IsMap : (m rs : List (Token × ℤ)) → IsMap m → IsMap (set_all m rs)
unfolding set_all
set_all-IsMap m [] h = h
set_all-IsMap m ((k, n) ∷ rs) h = set_all-IsMap (insert k n m) rs (insert-IsMap k n m h)

lookup-set_all :
    (k : Token) (m rs : List (Token × ℤ))
    → IsMap rs
    → lookup k (set_all m rs) ≡ or_else (lookup k rs) (lookup k m)
unfolding set_all
lookup-set_all k m [] h = refl
lookup-set_all k m ((j, n) ∷ rs) h = elim (Bool-cases (same_token k j)) [
  | inl e ↦
      let same = same_token→≡ k j e in
      let last : lookup k rs ≡ none = subst (λ i. lookup i rs ≡ none) (sym same) h.0 in
      rw e (
        lookup-set_all k (insert j n m) rs h.1
        ∙ rw last (subst (λ i. lookup k (insert i n m) ≡ some n) same (lookup-insert_self k n m)))
  | inr e ↦ rw e (
      lookup-set_all k (insert j n m) rs h.1
      ∙ ap (or_else (lookup k rs)) (lookup-insert_ne k j n m e))
]

subtract_all-IsMap : (m rs : List (Token × ℤ)) → IsMap m → IsMap (subtract_all m rs)
unfolding subtract_all
subtract_all-IsMap m [] h = h
subtract_all-IsMap m ((k, n) ∷ rs) h =
    subtract_all-IsMap (insert k (debit (lookup k m) n) m) rs (insert-IsMap k _ m h)

sub_zero : (a : ℤ) → a -ℤ pos 0 ≡ a
sub_zero a = grind int_laws

debit-get_or : (o : Option ℤ) (n : ℤ) → debit o n ≡ get_or o (pos 0) -ℤ n
debit-get_or none n = refl
debit-get_or (some b) n = refl

value-subtract_all :
    (k : Token) (m rs : List (Token × ℤ))
    → IsMap rs
    → value k (subtract_all m rs) ≡ value k m -ℤ value k rs
unfolding subtract_all
value-subtract_all k m [] h = sym (sub_zero (value k m))
value-subtract_all k m ((j, n) ∷ rs) h = elim (Bool-cases (same_token k j)) [
  | inl e ↦
      let same = same_token→≡ k j e in
      let last : lookup k rs ≡ none = subst (λ i. lookup i rs ≡ none) (sym same) h.0 in
      let here : value k (insert j (debit (lookup j m) n) m) ≡ value k m -ℤ n =
        subst (λ i. value k (insert i (debit (lookup i m) n) m) ≡ value k m -ℤ n) same
          (ap (λ o. get_or o (pos 0)) (lookup-insert_self k (debit (lookup k m) n) m)
            ∙ debit-get_or (lookup k m) n) in
      rw e (
        value-subtract_all k (insert j (debit (lookup j m) n) m) rs h.1
        ∙ rw (last, here) (sub_zero (value k m -ℤ n)))
  | inr e ↦ rw e (
      value-subtract_all k (insert j (debit (lookup j m) n) m) rs h.1
      ∙ ap (λ o. get_or o (pos 0) -ℤ value k rs) (lookup-insert_ne k j _ m e))
]

-- What the positive entries say of a token.
abbrev positive_part : ℤ → Option ℤ
positive_part n = if ltb_ℤ (pos 0) n then some n else none

lookup-filter-none :
    (k : Token) (m : List (Token × ℤ)) → lookup k m ≡ none → lookup k (filter is_positive m) ≡ none
lookup-filter-none k [] h = refl
lookup-filter-none k ((j, n) ∷ m) h = elim (Bool-cases (same_token k j)) [
  | inl e ↦ cc (rw e at h)
  | inr e ↦
      let rest = lookup-filter-none k m (rw e at h) in
      elim (Bool-cases (ltb_ℤ (pos 0) n)) [ inl p ↦ rw (p, e) rest | inr p ↦ rw p rest ]
]

lookup-filter :
    (k : Token) (m : List (Token × ℤ))
    → IsMap m
    → lookup k (filter is_positive m) ≡ positive_part (value k m)
lookup-filter k [] h = refl
lookup-filter k ((j, n) ∷ m) h = elim (Bool-cases (same_token k j)) [
  | inl e ↦
      let same = same_token→≡ k j e in
      let last : lookup k m ≡ none = subst (λ i. lookup i m ≡ none) (sym same) h.0 in
      elim (Bool-cases (ltb_ℤ (pos 0) n)) [
        | inl p ↦ rw (p, e, p) refl
        | inr p ↦ rw (p, e, p) (lookup-filter-none k m last)
      ]
  | inr e ↦
      let rest = lookup-filter k m h.1 in
      elim (Bool-cases (ltb_ℤ (pos 0) n)) [ inl p ↦ rw (p, e) rest | inr p ↦ rw (p, e) rest ]
]

insert_sorted-IsMap :
    (sql : Engine) (e : Token × ℤ) (m : List (Token × ℤ))
    → IsMap (e ∷ m)
    → IsMap (insert_sorted sql e m)
      × ((k : Token) → lookup k (insert_sorted sql e m) ≡ lookup k (e ∷ m))
unfolding insert_sorted
insert_sorted-IsMap sql e [] h = (h, λ k. refl)
insert_sorted-IsMap sql e (f ∷ fs) h =
    let (apart, fits) = fresh (Bool-cases (same_token e.0 f.0)) h.0 in
    let (unique, same) = insert_sorted-IsMap sql e fs (fits, h.1.1) in
    if_cases (λ l. IsMap l × ((k : Token) → lookup k l ≡ lookup k (e ∷ f ∷ fs)))
      (sql.locale_at_most _ _) (h, λ k. refl)
      (
        (same f.0 ∙ rw (beq_sym e.0 f.0 apart) h.1.0, unique),
        λ k.
            ap (λ rest. if same_token k f.0 then some f.1 else rest) (same k)
            ∙ swap k (Bool-cases (same_token k e.0)) apart,
      )
  where
    fresh :
        ((same_token e.0 f.0 ≡ true) ⊎ (same_token e.0 f.0 ≡ false))
        → lookup e.0 (f ∷ fs) ≡ none
        → (same_token e.0 f.0 ≡ false) × (lookup e.0 fs ≡ none)
    fresh (inl x) k = cc (rw x at k)
    fresh (inr x) k = (x, rw x at k)

    swap :
        (k : Token)
        → ((same_token k e.0 ≡ true) ⊎ (same_token k e.0 ≡ false))
        → same_token e.0 f.0 ≡ false
        → (if same_token k f.0
            then some f.1
            else (if same_token k e.0 then some e.1 else lookup k fs))
          ≡ (if same_token k e.0
              then some e.1
              else (if same_token k f.0 then some f.1 else lookup k fs))
    swap k (inl x) apart =
        let other : same_token k f.0 ≡ false =
          subst (λ j. same_token j f.0 ≡ false) (sym (same_token→≡ k e.0 x)) apart in
        rw (x, other) refl
    swap k (inr x) apart = rw x refl

-- Sorting changes no entry.
sort_buckets-IsMap :
    (sql : Engine) (m : List (Token × ℤ))
    → IsMap m
    → IsMap (sort_buckets sql m) × ((k : Token) → lookup k (sort_buckets sql m) ≡ lookup k m)
unfolding sort_buckets
sort_buckets-IsMap sql [] h = (tt, λ k. refl)
sort_buckets-IsMap sql (e ∷ m) h =
    let (unique, same) = sort_buckets-IsMap sql m h.1 in
    let (unique', same') =
      insert_sorted-IsMap sql e (sort_buckets sql m) (same e.0 ∙ h.0, unique) in
    (unique', λ k. same' k ∙ ap (λ rest. if same_token k e.0 then some e.1 else rest) (same k))

filter-IsMap : (m : List (Token × ℤ)) → IsMap m → IsMap (filter is_positive m)
filter-IsMap [] h = tt
filter-IsMap ((j, n) ∷ m) h = elim (Bool-cases (ltb_ℤ (pos 0) n)) [
  | inl p ↦ rw p (lookup-filter-none j m h.0, filter-IsMap m h.1)
  | inr p ↦ rw p (filter-IsMap m h.1)
]

-- The difference of the sums, where it is positive.
abbrev pub balance_of_sums : ℕ → ℕ → Option ℤ
balance_of_sums credited debited =
    if ltb debited credited then some (pos (credited - debited)) else none

positive_part-sub :
    (i o s : ℕ) → positive_part (pos i -ℤ pos o -ℤ pos s) ≡ balance_of_sums i (o + s)
positive_part-sub i o s =
    ground (arith, -ℤ_parts (pos i -ℤ pos o) (pos s), -ℤ_parts (pos i) (pos o))

-- The merchant's rows of the three kinds hold texts of digits.
pub record HasAmounts (store : Store) (merchant_id : ℕ) (env : GatewayEnv) : Type 0 where
  pub credits : All (λ row. IsAmount row.1) (inbound_amounts store merchant_id env)
  pub payouts : All (λ row. IsAmount row.1) (payout_amounts store merchant_id env)
  pub settlements : All (λ row. IsAmount row.1) (settlement_amounts store merchant_id env)

unfoldable pub credited : Store → ℕ → GatewayEnv → Token → ℕ
credited store merchant_id env k = total_for k (inbound_amounts store merchant_id env)

unfoldable pub debited : Store → ℕ → GatewayEnv → Token → ℕ
debited store merchant_id env k =
    total_for k (payout_amounts store merchant_id env)
    + total_for k (settlement_amounts store merchant_id env)

-- For an active merchant whose credits, completed payouts and settlements all have texts of digits as
-- amounts, the balances are computed without an exception, no token stands twice, and the entry of a
-- token is the sum of its credits less the sums of its payouts and settlements, missing where that is
-- not positive.
pub compute_merchant_balances-total :
    (sql : Engine) (store : Store) (merchant_id : ℕ) (env : GatewayEnv)
    → merchant_exists store merchant_id ≡ true
    → HasAmounts store merchant_id env
    → (balances : List (Token × ℤ)) × (compute_merchant_balances sql store merchant_id env
        ≡ some balances)
      × IsMap balances
      × ((k : Token)
          → lookup k balances
            ≡ balance_of_sums (credited store merchant_id env k) (debited store merchant_id env k))
unfolding compute_merchant_balances credited debited
compute_merchant_balances-total sql store merchant_id env active h =
    let (credits, read_credits, one_credit, credit) = sum_groups-total_for sql _ h.credits in
    let (payouts, read_payouts, one_payout, payout) = sum_groups-total_for sql _ h.payouts in
    let (settled, read_settled, one_settled, settlement) =
      sum_groups-total_for sql _ h.settlements in
    let start = set_all [] credits in
    let paid = subtract_all start payouts in
    let keyed =
      subtract_all-IsMap paid settled
        (subtract_all-IsMap start payouts (set_all-IsMap [] credits tt)) in
    (
      sort_buckets sql (filter is_positive (subtract_all paid settled)),
      rw active (
          bind-some _ _ read_credits
            (bind-some _ _ read_payouts (bind-some _ _ read_settled refl))),
      (sort_buckets-IsMap sql _ (filter-IsMap (subtract_all paid settled) keyed)).0,
      λ k.
          (sort_buckets-IsMap sql _ (filter-IsMap (subtract_all paid settled) keyed)).1 k
          ∙ lookup-filter k (subtract_all paid settled) keyed
          ∙ ap positive_part (
              value-subtract_all k paid settled one_settled
              ∙ ap (λ n. n -ℤ value k settled)
                  (value-subtract_all k start payouts one_payout
                    ∙ ap (λ n. n -ℤ value k payouts) (start_value k credits one_credit))
              ∙ (λ i. credit k i -ℤ payout k i -ℤ settlement k i))
          ∙ positive_part-sub _ _ _,
    )
  where
    start_value :
        (k : Token) (credits : List (Token × ℤ))
        → IsMap credits
        → value k (set_all [] credits) ≡ value k credits
    start_value k credits h =
        ap (λ o. get_or o (pos 0)) (lookup-set_all k [] credits h ∙ or_none (lookup k credits))
      where
        or_none : (o : Option ℤ) → or_else o none ≡ o
        or_none none = refl
        or_none (some a) = refl
