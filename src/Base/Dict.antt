-- ===== src/Base/Dict.antt =====
-- Python's `dict`: an association list in insertion order. A new key goes to the end, a known key
-- keeps its place.
use mathlib.Core.Path.{◌≡◌, refl}
use mathlib.Core.Bool.{Bool, false, ◌||◌}
use mathlib.Core.Option.{Option, none, some}
use mathlib.Core.List.{List, [], ◌∷◌}
use native.Mathlib.Omega.{arith}
use emergence_os.Base.Tests.{if◌then◌else◌, is_some}
use emergence_os.Base.Equality.{Hashable, ◌==◌}

abbrev pub Dict {ℓ κ} : Type ℓ → Type κ → Type (ℓ ⊔ κ)
Dict K V = List (K × V)

module _ {ℓ κ} {K : Type ℓ} {V : Type κ} ⦃e : Hashable K⦄ where
  -- d.get(k)
  unfoldable pub get : K → Dict K V → Option V
  get k [] = none
  get k ((j, v) ∷ d) = if j == k then some v else get k d

  -- k in d
  unfoldable pub has : K → Dict K V → Bool
  has k [] = false
  has k ((j, v) ∷ d) = (j == k) || has k d

  -- d[k] = v
  unfoldable pub put : K → V → Dict K V → Dict K V
  put k v [] = (k, v) ∷ []
  put k v ((j, w) ∷ d) = if j == k then (j, v) ∷ d else (j, w) ∷ put k v d

  -- d.pop(k, None)
  unfoldable pub pop : K → Dict K V → Dict K V
  pop k [] = []
  pop k ((j, w) ∷ d) = let rest = pop k d in if j == k then rest else (j, w) ∷ rest

  unfoldable pub keys : Dict K V → List K
  keys [] = []
  keys ((k, v) ∷ d) = k ∷ keys d

  unfoldable pub values : Dict K V → List V
  values [] = []
  values ((k, v) ∷ d) = v ∷ values d

  pub has-eq-is_some : (k : K) (d : Dict K V) → has k d ≡ is_some (get k d)
  unfolding has get
  has-eq-is_some k [] = refl
  has-eq-is_some k ((j, v) ∷ d) = ground (arith, has-eq-is_some k d)

  pub get-put :
      (k j : K) (v : V) (d : Dict K V) → get j (put k v d) ≡ (if k == j then some v else get j d)
  unfolding get put
  get-put k j v [] = ground arith
  get-put k j v ((i, w) ∷ d) =
      ground (arith, e.same_iff k j, e.same_iff i k, e.same_iff i j, get-put k j v d)

  pub get-pop : (k j : K) (d : Dict K V) → get j (pop k d) ≡ (if k == j then none else get j d)
  unfolding get pop
  get-pop k j [] = ground arith
  get-pop k j ((i, w) ∷ d) =
      ground (arith, e.same_iff k j, e.same_iff i k, e.same_iff i j, get-pop k j d)

  pub has-put : (k j : K) (v : V) (d : Dict K V) → has j (put k v d) ≡ ((k == j) || has j d)
  has-put k j v d =
      ground
        (arith, has-eq-is_some j (put k v d), has-eq-is_some j d, get-put k j v d, e.same_iff k j)

  pub has-pop : (k j : K) (d : Dict K V) → has j (pop k d) ≡ (if k == j then false else has j d)
  has-pop k j d =
      ground (arith, has-eq-is_some j (pop k d), has-eq-is_some j d, get-pop k j d, e.same_iff k j)

pub ruleset laws = (get-put, get-pop, has-put, has-pop)
