-- ===== src/Spaces/Active.antt =====
-- Which space of emergence/spaces/registry.py is active.
use emergence_os.Base.{
  ℕ, ◌≡◌, refl, sym, ◌∙◌, subst, String, Bool, true, false, Option, none, some, List, [], ◌∷◌, map,
  returned, returned-injective, if◌then◌else◌, ◌==◌, string_eq, Bool-cases, inl, inr, arith,
}
use emergence_os.Base.Bag
use emergence_os.Base.Dict
use emergence_os.Base.Dict.{Dict}
use emergence_os.Spaces.{
  SpaceRegistry, Space, Snapshot, default_space_id, new_registry, create, switch, switch_over, get,
  restore, put_all, or_default,
}

-- The active space and the default one are registered.
pub record IsSound (s : SpaceRegistry) : Type 0 where
  pub active : Dict.has s.active_space_id s.spaces ≡ true
  pub fallback : Dict.has default_space_id s.spaces ≡ true

stays :
    (i j : String) (space : Space) (d : Dict String Space)
    → Dict.has j d ≡ true
    → Dict.has j (Dict.put i space d) ≡ true
stays i j space d h = ground (arith, Dict.has-put i j space d)

create-IsSound :
    (i name : String) (now : ℕ) (s : SpaceRegistry) → IsSound s → IsSound (create i name now s)
unfolding create
create-IsSound i name now s v = record {
  active = stays i s.active_space_id _ s.spaces v.active;
  fallback = stays i default_space_id _ s.spaces v.fallback;
}

switch_over-IsSound :
    (o : Option Space) (i : String) (s s' : SpaceRegistry)
    → Dict.get i s.spaces ≡ o
    → switch_over o i s ≡ returned s'
    → IsSound s
    → IsSound s'
unfolding switch_over
switch_over-IsSound none i s s' found h v = cc
switch_over-IsSound (some space) i s s' found h v =
    subst IsSound (returned-injective _ s' h)
      record { active = Dict.has-eq-is_some i s.spaces ∙ rw found refl; fallback = v.fallback }

-- Saving a space keeps the ones before it.
kept :
    (saved : List Space) (i : String) (d : Dict String Space)
    → Dict.has i d ≡ true
    → Dict.has i (put_all saved d) ≡ true
unfolding put_all
kept [] i d h = h
kept (space ∷ saved) i d h = kept saved i _ (stays space.space_id i space d h)

saved_has :
    (saved : List Space) (i : String) (d : Dict String Space)
    → Bag.has i (map (λ (x : Space). x.space_id) saved) ≡ true
    → Dict.has i (put_all saved d) ≡ true
unfolding put_all Bag.has
saved_has [] i d h = cc
saved_has (space ∷ saved) i d h = elim (Bool-cases (space.space_id == i)) [
  | inl same ↦ kept saved i _ (Dict.has-put space.space_id i space d ∙ rw same refl)
  | inr other ↦ saved_has saved i _ (sym (rw other refl) ∙ h)
]

filled :
    (now : ℕ) (d : Dict String Space)
    → Dict.has default_space_id d ≡ true
    → Dict.has default_space_id (or_default now d) ≡ true
unfolding or_default Dict.has
filled now [] h = refl
filled now (item ∷ d) h = h

chosen :
    (b : Bool) (i : String) (d : Dict String Space)
    → Dict.has i d ≡ b
    → Dict.has default_space_id d ≡ true
    → Dict.has (if b then i else default_space_id) d ≡ true
chosen true i d h fallback = h
chosen false i d h fallback = fallback

restore-IsSound :
    (saved : Snapshot) (now : ℕ)
    → Bag.has default_space_id (map (λ (x : Space). x.space_id) saved.saved_spaces) ≡ true
    → IsSound (restore saved now)
unfolding restore
restore-IsSound saved now h =
    let there = filled now _ (saved_has saved.saved_spaces default_space_id [] h) in
    record { active = chosen _ _ _ refl there; fallback = there }

-- What a registry goes through.
pub data Reachable : SpaceRegistry → Type 0 where
  built : (now : ℕ) → Reachable (new_registry now)
  created :
      (i name : String) (now : ℕ) (s : SpaceRegistry)
      → Reachable s
      → Reachable (create i name now s)
  switched :
      (i : String) (s s' : SpaceRegistry) → Reachable s → switch i s ≡ returned s' → Reachable s'
  restored :
      (saved : Snapshot) (now : ℕ)
      → Bag.has default_space_id (map (λ (x : Space). x.space_id) saved.saved_spaces) ≡ true
      → Reachable (restore saved now)

-- The active space is always a registered one, and so is the default space, whatever is created,
-- switched to or restored from data that has the default space.
pub Reachable-IsSound : {s : SpaceRegistry} → Reachable s → IsSound s
unfolding new_registry switch get Dict.has
Reachable-IsSound (built now) = record { active = refl; fallback = refl }
Reachable-IsSound (created i name now s r) = create-IsSound i name now s (Reachable-IsSound r)
Reachable-IsSound (switched i s s' r h) =
    switch_over-IsSound (Dict.get i s.spaces) i s s' refl h (Reachable-IsSound r)
Reachable-IsSound (restored saved now h) = restore-IsSound saved now h
