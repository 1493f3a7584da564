-- ===== src/Common/Dict.antt =====
-- A JavaScript Map as the list of its entries in insertion order, and equality as an instance.
use mathlib.Core.Path.{◌≡◌, refl, sym, subst, ◌∙◌}
use mathlib.Core.Logic.{◌≢◌, ◌↔◌, inl, inr}
use mathlib.Core.Bool.{Bool, true, false}
use mathlib.Core.Option.{Option, none, some}
use mathlib.Core.List.{List, [], ◌∷◌}
use crypto_gateway_rp.Common.Tests.{if◌then◌else◌, Bool-cases}

pub record Eq {ℓ} (A : Type ℓ) : Type ℓ where
  pub beq : A → A → Bool
  pub beq_iff : (a b : A) → (beq a b ≡ true) ↔ (a ≡ b)

module _ {K : Type 0} ⦃e : Eq K⦄ where
  pub beq_refl : (k : K) → e.beq k k ≡ true
  beq_refl k = (e.beq_iff k k).1 refl

  pub beq_ne : (j k : K) → j ≢ k → e.beq j k ≡ false
  beq_ne j k h = elim (Bool-cases (e.beq j k)) [
    | inl same ↦ absurd (h ((e.beq_iff j k).0 same))
    | inr miss ↦ miss
  ]

  pub beq_sym : (j k : K) → e.beq j k ≡ false → e.beq k j ≡ false
  beq_sym j k h = beq_ne k j (λ same. cc (rw (sym same, beq_refl k) at h))

module _ {K V : Type 0} ⦃e : Eq K⦄ where
  -- `m.get(k)`
  abbrev pub lookup : K → List (K × V) → Option V
  lookup k [] = none
  lookup k ((j, v) ∷ d) = let rest = lookup k d in if e.beq k j then some v else rest

  -- `m.set(k, v)`
  abbrev pub insert : K → V → List (K × V) → List (K × V)
  insert k v [] = (k, v) ∷ []
  insert k v ((j, u) ∷ d) =
      let rest = insert k v d in if e.beq k j then (k, v) ∷ d else (j, u) ∷ rest

  -- No key stands twice.
  abbrev pub IsMap : List (K × V) → Type 0
  IsMap [] = Unit {0}
  IsMap ((k, v) ∷ d) = (lookup k d ≡ none) × IsMap d

  pub lookup-insert_self : (k : K) (v : V) (d : List (K × V)) → lookup k (insert k v d) ≡ some v
  lookup-insert_self k v [] = rw (beq_refl k) refl
  lookup-insert_self k v ((j, u) ∷ d) = elim (Bool-cases (e.beq k j)) [
    | inl same ↦ rw (same, beq_refl k) refl
    | inr miss ↦ rw (miss, miss) (lookup-insert_self k v d)
  ]

  pub lookup-insert_ne :
      (j k : K) (v : V) (d : List (K × V))
      → e.beq j k ≡ false
      → lookup j (insert k v d) ≡ lookup j d
  lookup-insert_ne j k v [] h = rw h refl
  lookup-insert_ne j k v ((i, u) ∷ d) h = elim (Bool-cases (e.beq k i)) [
    | inl same ↦
        let other : e.beq j i ≡ false = subst (λ x. e.beq j x ≡ false) ((e.beq_iff k i).0 same) h in
        rw (same, h, other) refl
    | inr miss ↦ rw miss (elim (Bool-cases (e.beq j i)) [
      | inl hit ↦ rw hit refl
      | inr other ↦ rw other (lookup-insert_ne j k v d h)
    ])
  ]

  pub insert-IsMap : (k : K) (v : V) (d : List (K × V)) → IsMap d → IsMap (insert k v d)
  insert-IsMap k v [] h = (refl, tt)
  insert-IsMap k v ((j, u) ∷ d) h = elim (Bool-cases (e.beq k j)) [
    | inl same ↦ rw same (subst (λ x. lookup x d ≡ none) (sym ((e.beq_iff k j).0 same)) h.0, h.1)
    | inr miss ↦ rw miss (lookup-insert_ne j k v d (beq_sym k j miss) ∙ h.0, insert-IsMap k v d h.1)
  ]
