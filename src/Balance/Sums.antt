-- ===== src/Balance/Sums.antt =====
-- The grouped sums of the database, read back, are the sums of the rows of each token.
use crypto_gateway_rp.Common.{
  ℕ, ◌+◌, ◌≡◌, refl, sym, ap, subst, ◌∙◌, true, false, none, some, List, [], ◌∷◌, ℤ, pos,
  if◌then◌else◌, inl, inr, Bool-cases, get_or, is_empty, All, lookup, insert, IsMap, insert-IsMap,
  lookup-insert_self, lookup-insert_ne, bind-some,
}
use crypto_gateway_rp.Text.{Text, codes, eq_text, are_digits, big_int, decimal}
use crypto_gateway_rp.Text.Laws.{eq_text→≡}
use crypto_gateway_rp.Text.Cut.{trim-digits, after_dot-none}
use crypto_gateway_rp.Text.Decimal.{big_int-digits}
use crypto_gateway_rp.Balance.{
  Token, same_token, IsAmount, total_decimal, Engine, big_int_from_pg_numeric_text,
}
use crypto_gateway_rp.Balance.Ledger.{token_Eq, same_token→≡, group_rows, sum_groups}

-- The sum of the amounts of one token.
unfoldable pub total_for : Token → List (Token × Text) → ℕ
total_for k [] = 0
total_for k ((j, a) ∷ rows) =
    let rest = total_for k rows in if same_token k j then decimal a + rest else rest

abbrev HasAmounts : (Token × List Text) → Type 0
HasAmounts g = All IsAmount g.1 × (is_empty g.1 ≡ false)

pub big_int_from_pg_numeric_text-digits :
    (s : Text) → IsAmount s → big_int_from_pg_numeric_text s ≡ some (pos (decimal s))
unfolding big_int_from_pg_numeric_text
big_int_from_pg_numeric_text-digits s h =
    rw (trim-digits s h.0, after_dot-none s h.0, h.1)
      (elim (Bool-cases (eq_text s (codes "0"))) [
        | inl e ↦ rw e (
            subst (λ t. some (pos 0) ≡ some (pos (decimal t))) (sym (eq_text→≡ _ _ e))
              (unfold decimal in refl))
        | inr e ↦ rw e (no_sign s h)
      ])
  where
    no_sign :
        (s : Text)
        → IsAmount s
        → (if eq_text s (codes "-") then some (pos 0) else big_int s) ≡ some (pos (decimal s))
    no_sign s h = elim (Bool-cases (eq_text s (codes "-"))) [
      | inl e ↦
          let h' : false ≡ true =
            subst (λ t. are_digits t ≡ true) (eq_text→≡ s (codes "-") e) h.0 in
          cc h'
      | inr e ↦ rw e (big_int-digits s h.0 h.1)
    ]

insert-All :
    (P : (Token × List Text) → Type 0) (k : Token) (v : List Text) (d : List (Token × List Text))
    → P (k, v)
    → All P d
    → All P (insert k v d)
insert-All P k v [] h all = (h, tt)
insert-All P k v ((j, u) ∷ d) h all = elim (Bool-cases (same_token k j)) [
  | inl e ↦ rw e (h, all.1)
  | inr e ↦ rw e (all.0, insert-All P k v d h all.1)
]

lookup-All :
    (k : Token) (d : List (Token × List Text))
    → All HasAmounts d
    → All IsAmount (get_or (lookup k d) [])
lookup-All k [] all = tt
lookup-All k ((j, u) ∷ d) all = elim (Bool-cases (same_token k j)) [
  | inl e ↦ rw e all.0.0
  | inr e ↦ rw e (lookup-All k d all.1)
]

group_rows-HasAmounts :
    (rows : List (Token × Text))
    → All (λ row. IsAmount row.1) rows
    → All HasAmounts (group_rows rows)
unfolding group_rows
group_rows-HasAmounts [] h = tt
group_rows-HasAmounts ((k, a) ∷ rows) h =
    let groups = group_rows-HasAmounts rows h.1 in
    insert-All HasAmounts k (a ∷ get_or (lookup k (group_rows rows)) []) (group_rows rows)
      ((h.0, lookup-All k (group_rows rows) groups), refl) groups

group_rows-IsMap : (rows : List (Token × Text)) → IsMap (group_rows rows)
unfolding group_rows
group_rows-IsMap [] = tt
group_rows-IsMap ((k, a) ∷ rows) = insert-IsMap k _ (group_rows rows) (group_rows-IsMap rows)

-- The amounts of a group are those of the rows of its token.
group_rows-total_for :
    (k : Token) (rows : List (Token × Text))
    → total_decimal (get_or (lookup k (group_rows rows)) []) ≡ total_for k rows
unfolding group_rows total_for
group_rows-total_for k [] = refl
group_rows-total_for k ((j, a) ∷ rows) = elim (Bool-cases (same_token k j)) [
  | inl e ↦
      let same = same_token→≡ k j e in
      rw e (
        subst
          (λ i.
            total_decimal (
              get_or
                (lookup k (insert i (a ∷ get_or (lookup i (group_rows rows)) []) (group_rows rows)))
                [])
            ≡ decimal a + total_for k rows)
          same
          (rw (lookup-insert_self k (a ∷ get_or (lookup k (group_rows rows)) []) (group_rows rows))
            (ap (λ n. decimal a + n) (group_rows-total_for k rows))))
  | inr e ↦
      rw (e, lookup-insert_ne k j (a ∷ get_or (lookup j (group_rows rows)) []) (group_rows rows) e)
        (group_rows-total_for k rows)
]

-- The value of a token in a list of sums, 0 where it has none.
abbrev pub value : Token → List (Token × ℤ) → ℤ
value k d = get_or (lookup k d) (pos 0)

-- The sums of a grouping: one per group.
abbrev SumsOf : List (Token × List Text) → List (Token × ℤ) → Type 0
SumsOf groups sums =
    IsMap sums
    × ((k : Token) → lookup k groups ≡ none → lookup k sums ≡ none)
    × ((k : Token) → value k sums ≡ pos (total_decimal (get_or (lookup k groups) [])))

sum_groups-SumsOf :
    (sql : Engine) (groups : List (Token × List Text))
    → All HasAmounts groups
    → IsMap groups
    → (sums : List (Token × ℤ)) × (sum_groups sql groups ≡ some sums) × SumsOf groups sums
unfolding sum_groups
sum_groups-SumsOf sql [] h m = ([], refl, (tt, (λ k e. refl), λ k. refl))
sum_groups-SumsOf sql ((k, texts) ∷ groups) h m =
    let (s, read, amount, total) = sql.sum_digits texts h.0.0 h.0.1 in
    let (sums, rest, (unique, keys, values)) = sum_groups-SumsOf sql groups h.1 m.1 in
    (
      (k, pos (decimal s)) ∷ sums,
      bind-some (sql.sum_of texts) _ read (
          bind-some (big_int_from_pg_numeric_text s) _
            (big_int_from_pg_numeric_text-digits s amount)
            (bind-some (sum_groups sql groups) _ rest refl)),
      (
        (keys k m.0, unique),
        (λ j e. elim (Bool-cases (same_token j k)) [
          | inl same ↦ cc (rw same at e)
          | inr other ↦ rw other (keys j (rw other at e))
        ]),
        λ j. elim (Bool-cases (same_token j k)) [
          | inl same ↦ rw same (ap pos total)
          | inr other ↦ rw other (values j)
        ],
      ),
    )

-- The database's sums of rows of digits: each token once, with the sum of its rows.
pub sum_groups-total_for :
    (sql : Engine) (rows : List (Token × Text))
    → All (λ row. IsAmount row.1) rows
    → (sums : List (Token × ℤ)) × (sum_groups sql (group_rows rows) ≡ some sums)
      × IsMap sums
      × ((k : Token) → value k sums ≡ pos (total_for k rows))
sum_groups-total_for sql rows h =
    let (sums, e, (unique, keys, values)) =
      sum_groups-SumsOf sql (group_rows rows) (group_rows-HasAmounts rows h)
        (group_rows-IsMap rows) in
    (sums, e, unique, λ k. values k ∙ ap pos (group_rows-total_for k rows))
