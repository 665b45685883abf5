-- ===== src/Memory/Snapshot.antt =====
-- What `working_snapshot` of emergence/memory/memory_manager.py takes from the entries.
use emergence_os.Base.{
  ℕ, String, ◌≡◌, refl, subst, true, false, ◌||◌, ◌&&◌, if◌then◌else◌, Option, none, some, [], ◌∷◌,
  ◌==◌, string_eq, nat_eq, Bool-cases, inl, inr, arith,
}
use emergence_os.Base.Bag
use emergence_os.Base.Bag.{Distinct}
use emergence_os.Base.Dict
use emergence_os.Base.Dict.{Dict}
use emergence_os.Base.Keys.{get-absent}
use emergence_os.Base.Value.{Value}
use emergence_os.Memory.{
  Memory, MemoryKey, memory_key_eq, same_key_iff, working, collect, is_working, working_snapshot,
  get_or, exists, peek, scoped, legacy,
}

-- The first of two values that there is.
abbrev or_else : Option Value → Option Value → Option Value
or_else none b = b
or_else (some v) b = some v

module _ (space_of : ℕ → String) (p : ℕ) (j : String) where
  abbrev pub new_key : MemoryKey
  new_key = scoped space_of p working j

  abbrev pub old_key : MemoryKey
  old_key = legacy space_of p working j

  -- The keys that `collect` puts under `j`.
  is_working-eq :
      (k : MemoryKey) → (is_working (space_of p) p k && k.key == j) ≡ (k == new_key || k == old_key)
  unfolding is_working
  is_working-eq k = ground arith

  -- No key comes twice, and the key is not in both layouts.
  get-collect :
      (entries : Dict MemoryKey Value) (d : Dict String Value)
      → Distinct (Dict.keys entries)
      → (Dict.has new_key entries && Dict.has old_key entries) ≡ false
      → Dict.get j (collect (space_of p) p entries d)
        ≡ or_else (Dict.get new_key entries) (or_else (Dict.get old_key entries) (Dict.get j d))
  unfolding collect Dict.get Dict.has Dict.keys
  get-collect [] d h one = refl
  get-collect ((k, v) ∷ more) d h one =
      let once : (i : MemoryKey) → (k == i) ≡ true → Dict.get i more ≡ none = λ i e.
        get-absent i more
          (subst (λ x. Bag.has x (Dict.keys more) ≡ false) ((same_key_iff k i).0 e) h.0) in
      let rest_one : (Dict.has new_key more && Dict.has old_key more) ≡ false = ground arith in
      elim (Bool-cases (is_working (space_of p) p k)) [
        | inl own ↦
            rw (own, get-collect more (Dict.put k.key v d) h.1 rest_one, Dict.get-put k.key j v d)
              (ground (
                arith,
                is_working-eq k,
                once new_key,
                once old_key,
                Dict.has-eq-is_some new_key more,
                Dict.has-eq-is_some old_key more,
              ))
        | inr other ↦ rw (other, get-collect more d h.1 rest_one) (ground (arith, is_working-eq k))
      ]

  -- What the snapshot gives under a key that is not in both layouts, or else `before`.
  pub get-working_snapshot :
      (default before : Value) (m : Memory)
      → Distinct (Dict.keys m.entries)
      → (Dict.has new_key m.entries && Dict.has old_key m.entries) ≡ false
      → get_or before (Dict.get j (working_snapshot space_of p m))
        ≡ (if exists space_of p working j m then peek space_of p working j default m else before)
  unfolding working_snapshot exists peek get_or Dict.get
  get-working_snapshot default before m h one =
      rw (get-collect m.entries [] h one) (
        ground
          (arith, Dict.has-eq-is_some new_key m.entries, Dict.has-eq-is_some old_key m.entries))
