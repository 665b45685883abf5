-- ===== src/Base/Bag.antt =====
-- Python's `set`, as a list without repetition whose order no operation reads.
use mathlib.Core.Path.{◌≡◌, refl}
use mathlib.Core.Bool.{Bool, false, ◌||◌}
use mathlib.Core.List.{List, [], ◌∷◌, ◌++◌}
use native.Mathlib.Omega.{arith}
use emergence_os.Base.Tests.{if◌then◌else◌}
use emergence_os.Base.Equality.{Hashable, ◌==◌}

module _ {ℓ} {A : Type ℓ} ⦃e : Hashable A⦄ where
  unfoldable pub has : A → List A → Bool
  has a [] = false
  has a (x ∷ xs) = (x == a) || has a xs

  -- s.add(a)
  unfoldable pub add : A → List A → List A
  add a xs = if has a xs then xs else a ∷ xs

  -- s.discard(a)
  unfoldable pub discard : A → List A → List A
  discard a [] = []
  discard a (x ∷ xs) = let rest = discard a xs in if x == a then rest else x ∷ rest

  pub has-add : (a b : A) (xs : List A) → has b (add a xs) ≡ ((a == b) || has b xs)
  unfolding has add
  has-add a b xs = ground (arith, e.same_iff a b, has-cong a b xs)
    where
      has-cong : (a b : A) (xs : List A) → a ≡ b → has a xs ≡ has b xs
      has-cong a b xs p = cc

  pub has-discard :
      (a b : A) (xs : List A) → has b (discard a xs) ≡ (if a == b then false else has b xs)
  unfolding has discard
  has-discard a b [] = ground arith
  has-discard a b (x ∷ xs) =
      ground (arith, e.same_iff a b, e.same_iff x a, e.same_iff x b, has-discard a b xs)

  -- xs.remove(a), for a list that holds `a`: the first one goes.
  unfoldable pub remove : A → List A → List A
  remove a [] = []
  remove a (x ∷ xs) = if x == a then xs else x ∷ remove a xs

  -- No element twice.
  abbrev pub Distinct : List A → Type 0
  Distinct [] = Unit
  Distinct (x ∷ xs) = (has x xs ≡ false) × Distinct xs

  pub has-append : (a : A) (xs ys : List A) → has a (xs ++ ys) ≡ (has a xs || has a ys)
  unfolding has
  has-append a [] ys = refl
  has-append a (x ∷ xs) ys = ground (arith, has-append a xs ys)

  pub Distinct-append_one :
      (a : A) (xs : List A) → has a xs ≡ false → Distinct xs → Distinct (xs ++ a ∷ [])
  unfolding has
  Distinct-append_one a [] h d = (refl, tt)
  Distinct-append_one a (x ∷ xs) h d = (
    ground (arith, has-append x xs (a ∷ []), e.same_iff a x, e.same_iff x a),
    Distinct-append_one a xs (ground arith) d.1,
  )

  pub has-remove_le : (a b : A) (xs : List A) → has b xs ≡ false → has b (remove a xs) ≡ false
  unfolding has remove
  has-remove_le a b [] h = refl
  has-remove_le a b (x ∷ xs) h = ground (arith, has-remove_le a b xs)

  pub Distinct-remove : (a : A) (xs : List A) → Distinct xs → Distinct (remove a xs)
  unfolding remove
  Distinct-remove a [] d = tt
  Distinct-remove a (x ∷ xs) d = ground (arith, has-remove_le a x xs d.0, Distinct-remove a xs d.1)

  pub has-remove_self : (a : A) (xs : List A) → Distinct xs → has a (remove a xs) ≡ false
  unfolding has remove
  has-remove_self a [] d = refl
  has-remove_self a (x ∷ xs) d = ground (arith, e.same_iff x a, has-remove_self a xs d.1)

  pub has-remove :
      (a b : A) (xs : List A)
      → Distinct xs
      → has b (remove a xs) ≡ (if a == b then false else has b xs)
  unfolding has remove
  has-remove a b [] d = ground arith
  has-remove a b (x ∷ xs) d = ground (
    arith,
    e.same_iff a b,
    e.same_iff x a,
    e.same_iff x b,
    has-remove a b xs d.1,
    d.0,
    has-same x b xs,
  )
    where
      has-same : (a b : A) (xs : List A) → a ≡ b → has a xs ≡ has b xs
      has-same a b xs p = cc

  pub remove-append_one : (a : A) (xs : List A) → has a xs ≡ false → remove a (xs ++ a ∷ []) ≡ xs
  unfolding has remove
  remove-append_one a [] h = ground (arith, e.same_iff a a)
  remove-append_one a (x ∷ xs) h = ground (arith, remove-append_one a xs)
