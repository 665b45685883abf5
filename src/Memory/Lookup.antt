-- ===== src/Memory/Lookup.antt =====
-- What emergence/memory/memory_manager.py finds after it stored or deleted something.
use emergence_os.Base.{
  ℕ, String, ◌≡◌, refl, ap, ◌∙◌, Bool, true, false, ◌&&◌, if◌then◌else◌, ◌==◌, ==_refl, string_eq,
  nat_eq, nat_beq, Bool-cases, inl, inr, arith,
}
use emergence_os.Base.Dict
use emergence_os.Base.Dict.{Dict}
use emergence_os.Base.Value.{Value}
use emergence_os.Memory.{
  MemoryCategory, Memory, same_category, same_key, memory_key_eq, get_or, scoped, legacy, store,
  peek, delete, exists,
}

-- The same entry of the same process.
abbrev pub same_entry : (p : ℕ) → MemoryCategory → String → (q : ℕ) → MemoryCategory → String → Bool
same_entry p c k q d j = same_category c d && p == q && k == j

module _ (space_of : ℕ → String) where
  same-scoped :
      (p q : ℕ) (c d : MemoryCategory) (k j : String)
      → same_key (scoped space_of p c k) (scoped space_of q d j) ≡ same_entry p c k q d j
  same-scoped p q c d k j = elim (Bool-cases (nat_beq p q)) [
    | inl e ↦ rw (same_space e, e) refl
    | inr n ↦ rw n (not_same _ _ _)
  ]
    where
      same_space : nat_beq p q ≡ true → (space_of p == space_of q) ≡ true
      same_space e = (string_eq.same_iff _ _).1 (ap space_of ((nat_eq.same_iff p q).0 e))

      not_same : (x y z : Bool) → (x && y && false && z) ≡ (y && false && z)
      not_same x y z = ground arith

  -- An entry that was stored is found again, whatever layout held it before, and no entry of another
  -- process, category or key changes.
  pub peek-store :
      (p q : ℕ) (c d : MemoryCategory) (k j : String) (v default : Value) (m : Memory)
      → peek space_of q d j default (store space_of p c k v m)
        ≡ (if same_entry p c k q d j then v else peek space_of q d j default m)
  unfolding peek store get_or
  peek-store p q c d k j v default m =
      let new = scoped space_of p c k in
      let found = scoped space_of q d j in
      let old = legacy space_of q d j in
      elim (Bool-cases (same_entry p c k q d j)) [
        | inl e ↦
            let named : (new == found) ≡ true = same-scoped p q c d k j ∙ e in
            rw (Dict.has-put new found v m.entries, Dict.get-put new found v m.entries, named, e)
              refl
        | inr n ↦
            let other : (new == found) ≡ false = same-scoped p q c d k j ∙ n in
            rw
              (
                Dict.has-put new found v m.entries,
                Dict.get-put new found v m.entries,
                Dict.has-put new old v m.entries,
                Dict.get-put new old v m.entries,
                other,
                n,
              )
              refl
      ]

  -- After a deletion the entry is still there exactly if it was held in both layouts of keys: only the
  -- first one found is removed.
  pub exists-delete :
      (p : ℕ) (c : MemoryCategory) (k : String) (m : Memory)
      → exists space_of p c k (delete space_of p c k m)
        ≡ (Dict.has (scoped space_of p c k) m.entries && Dict.has (legacy space_of p c k) m.entries)
  unfolding exists delete
  exists-delete p c k m =
      let new = scoped space_of p c k in
      let old = legacy space_of p c k in
      elim (Bool-cases (Dict.has new m.entries)) [
        | inl held ↦
            rw (held, Dict.has-pop new new m.entries, Dict.has-pop new old m.entries, ==_refl new)
              refl
        | inr absent ↦ elim (Bool-cases (Dict.has old m.entries)) [
          | inl held ↦
              rw
                (
                  absent,
                  held,
                  Dict.has-pop old new m.entries,
                  Dict.has-pop old old m.entries,
                  ==_refl old,
                  absent,
                )
                refl
          | inr none_held ↦ rw (absent, none_held, absent, none_held) refl
        ]
      ]
