-- ===== src/Base/Keys.antt =====
-- The keys of a `dict`: no key comes twice.
use mathlib.Core.Path.{◌≡◌, refl, ap, ◌∙◌}
use mathlib.Core.Logic.{inl, inr}
use mathlib.Core.Bool.{false, ◌||◌}
use mathlib.Core.Option.{none, some}
use mathlib.Core.List.{[], ◌∷◌}
use native.Mathlib.Omega.{arith}
use emergence_os.Base.Tests.{Bool-cases, if◌then◌else◌}
use emergence_os.Base.Lists.{All}
use emergence_os.Base.Equality.{Hashable, ◌==◌, ==_refl}
use emergence_os.Base.Bag
use emergence_os.Base.Bag.{Distinct}
use emergence_os.Base.Dict
use emergence_os.Base.Dict.{Dict}

module _ {ℓ κ} {K : Type ℓ} {V : Type κ} ⦃e : Hashable K⦄ where
  pub has-keys-put :
      (k j : K) (v : V) (d : Dict K V)
      → Bag.has j (Dict.keys (Dict.put k v d)) ≡ ((k == j) || Bag.has j (Dict.keys d))
  unfolding Dict.put Dict.keys Bag.has
  has-keys-put k j v [] = ground arith
  has-keys-put k j v ((i, w) ∷ d) =
      ground (arith, has-keys-put k j v d, e.same_iff i k, e.same_iff i j, e.same_iff k j)

  pub has-keys : (k : K) (d : Dict K V) → Bag.has k (Dict.keys d) ≡ Dict.has k d
  unfolding Dict.has Dict.keys Bag.has
  has-keys k [] = refl
  has-keys k ((j, v) ∷ d) = ground (arith, has-keys k d)

  pub Distinct-keys-put :
      (k : K) (v : V) (d : Dict K V)
      → Distinct (Dict.keys d)
      → Distinct (Dict.keys (Dict.put k v d))
  unfolding Dict.put Dict.keys Bag.has
  Distinct-keys-put k v [] h = (refl, tt)
  Distinct-keys-put k v ((i, w) ∷ d) h = elim (Bool-cases (i == k)) [
    | inl same ↦ rw same h
    | inr other ↦ rw other (
      has-keys-put k i v d ∙ ground (arith, h.0, e.same_iff i k, e.same_iff k i),
      Distinct-keys-put k v d h.1,
    )
  ]

  pub has-keys-pop :
      (k j : K) (d : Dict K V)
      → Bag.has j (Dict.keys d) ≡ false
      → Bag.has j (Dict.keys (Dict.pop k d)) ≡ false
  unfolding Dict.pop Dict.keys Bag.has
  has-keys-pop k j [] h = refl
  has-keys-pop k j ((i, w) ∷ d) h = elim (Bool-cases (i == k)) [
    | inl same ↦ rw same (has-keys-pop k j d (ground (arith, h)))
    | inr other ↦ rw other ground (arith, h, has-keys-pop k j d)
  ]

  pub Distinct-keys-pop :
      (k : K) (d : Dict K V) → Distinct (Dict.keys d) → Distinct (Dict.keys (Dict.pop k d))
  unfolding Dict.pop Dict.keys
  Distinct-keys-pop k [] h = tt
  Distinct-keys-pop k ((i, w) ∷ d) h = elim (Bool-cases (i == k)) [
    | inl same ↦ rw same (Distinct-keys-pop k d h.1)
    | inr other ↦ rw other (has-keys-pop k i d h.0, Distinct-keys-pop k d h.1)
  ]

  pub get-absent : (k : K) (d : Dict K V) → Bag.has k (Dict.keys d) ≡ false → Dict.get k d ≡ none
  get-absent k d h = ground (arith, h, has-keys k d, Dict.has-eq-is_some k d)

-- What holds of a key and the value that it gives holds of all entries.
module _ {ℓ κ μ} {K : Type ℓ} {V : Type κ} ⦃e : Hashable K⦄ (Q : K × V → Type μ) where
  pub All-entries :
      (d : Dict K V)
      → Distinct (Dict.keys d)
      → ((k : K) (v : V) → Dict.get k d ≡ some v → Q (k, v))
      → All Q d
  unfolding Dict.get Dict.keys
  All-entries [] h q = tt
  All-entries ((j, v) ∷ d) h q = (
    q j v (rw (==_refl j) refl),
    All-entries d h.1 (λ k w held. q k w (still j k v w d h.0 held)),
  )
    where
      still :
          (j k : K) (v w : V) (d : Dict K V)
          → Bag.has j (Dict.keys d) ≡ false
          → Dict.get k d ≡ some w
          → (if j == k then some v else Dict.get k d) ≡ some w
      still j k v w d h held = elim (Bool-cases (j == k)) [
        | inl same ↦ absurd (
            ground (
              arith,
              held,
              get-absent j d h,
              ap (λ (i : K). Dict.get i d) ((e.same_iff j k).0 same),
            ))
        | inr other ↦ rw other held
      ]

module _ {ℓ κ μ} {K : Type ℓ} {V : Type κ} ⦃e : Hashable K⦄ (Q : V → Type μ) where
  pub All-values : (d : Dict K V) → All (λ (p : K × V). Q (p.1)) d → All Q (Dict.values d)
  unfolding Dict.values
  All-values [] h = tt
  All-values ((j, v) ∷ d) h = (h.0, All-values d h.1)
