-- ===== src/Security/Grants.antt =====
-- Which capabilities a process holds (emergence/security/capability_manager.py and
-- emergence/security/capabilities.py).
use emergence_os.Base.{
  ℕ, String, ◌≡◌, refl, ap, ◌∙◌, sym, Bool, true, false, ◌&&◌, ◌||◌, Option, none, some, List, [],
  ◌∷◌, map, arith, if◌then◌else◌, ◌==◌, nat_eq, string_eq, Bool-cases, inl, inr,
}
use emergence_os.Base.Bag
use emergence_os.Base.Bag.{Distinct}
use emergence_os.Base.Dict
use emergence_os.Definition.{ProcessDefinition}
use emergence_os.Security.{
  Capability, capability_eq, known_capabilities, capability_by_name, default_process_capabilities,
  add_known, grant_named, capabilities_for_definition, CapabilityManager, or_empty, capabilities,
  grant, revoke, has, clear, grant_all,
}

capabilities-put :
    (p q : ℕ) (granted : List Capability) (m : CapabilityManager)
    → capabilities q (Dict.put p granted m) ≡ (if p == q then granted else capabilities q m)
unfolding capabilities or_empty
capabilities-put p q granted m = ground (arith, Dict.get-put p q granted m)

capabilities-clear :
    (p q : ℕ) (m : CapabilityManager)
    → capabilities q (clear p m) ≡ (if p == q then [] else capabilities q m)
unfolding capabilities or_empty clear
capabilities-clear p q m = ground (arith, Dict.get-pop p q m)

pub has-grant :
    (p q : ℕ) (c d : Capability) (m : CapabilityManager)
    → has q d (grant p c m) ≡ (((p == q) && (c == d)) || has q d m)
unfolding has grant
has-grant p q c d m = elim (Bool-cases (p == q)) [
  | inl same ↦ ground (
    arith,
    capabilities-put p q (Bag.add c (capabilities p m)) m,
    Bag.has-add c d (capabilities p m),
    nat_eq.same_iff p q,
  )
  | inr other ↦ rw (capabilities-put, other) refl
]

-- After `revoke` a process does not hold the capability, and nothing else changes for any process.
pub has-revoke :
    (p q : ℕ) (c d : Capability) (m : CapabilityManager)
    → has q d (revoke p c m) ≡ (if (p == q) && (c == d) then false else has q d m)
unfolding has revoke
has-revoke p q c d m = elim (Bool-cases (p == q)) [
  | inl same ↦ ground (
    arith,
    capabilities-put p q (Bag.discard c (capabilities p m)) m,
    Bag.has-discard c d (capabilities p m),
    nat_eq.same_iff p q,
  )
  | inr other ↦ rw (capabilities-put, other) refl
]

pub has-grant_all :
    (p q : ℕ) (cs : List Capability) (d : Capability) (m : CapabilityManager)
    → has q d (grant_all p cs m) ≡ (((p == q) && Bag.has d cs) || has q d m)
unfolding grant_all Bag.has
has-grant_all p q [] d m = ground arith
has-grant_all p q (c ∷ cs) d m =
    ground (arith, has-grant_all p q cs d (grant p c m), has-grant p q c d m)

-- The permission names that a definition declares, read without the table: by name, and known.
abbrev pub declared : Capability → List String → Bool
declared c permissions = Bag.has c.name permissions && Bag.has c known_capabilities

names-Distinct : Distinct (map (λ (c : Capability). c.name) known_capabilities)
unfolding Bag.has
names-Distinct = (
  refl,
  (
    refl,
    (
      refl,
      (
        refl,
        (
          refl,
          (
            refl,
            (
              refl,
              (
                refl,
                (
                  refl,
                  (
                    refl,
                    (
                      refl,
                      (
                        refl,
                        (
                          refl,
                          (
                            refl,
                            (refl, (refl, (refl, (refl, (refl, (refl, (refl, (refl, tt)))))))),
                          ),
                        ),
                      ),
                    ),
                  ),
                ),
              ),
            ),
          ),
        ),
      ),
    ),
  ),
)

-- Whether a lookup finds `c`.
finds : Capability → Option Capability → Bool
finds c none = false
finds c (some d) = d == c

has_name :
    (c : Capability) (cs : List Capability)
    → Bag.has c cs ≡ true
    → Bag.has c.name (map (λ (d : Capability). d.name) cs) ≡ true
unfolding Bag.has
has_name c [] h = ground arith
has_name c (d ∷ cs) h =
    ground (arith, capability_eq.same_iff d c, string_eq.same_iff d.name c.name, has_name c cs)

not_twice : (a b c : Bool) → (a ≡ true → b ≡ true) → b ≡ c → c ≡ false → a ≡ false
not_twice a b c f p q = ground arith

finds-get :
    (c : Capability) (n : String) (cs : List Capability)
    → Distinct (map (λ (d : Capability). d.name) cs)
    → finds c (Dict.get n (map (λ (d : Capability). (d.name, d)) cs))
      ≡ ((c.name == n) && Bag.has c cs)
unfolding Dict.get Bag.has finds
finds-get c n [] h = ground arith
finds-get c n (d ∷ cs) h = elim (Bool-cases (d.name == n)) [
  | inl same ↦ rw same (only_here same h.0)
  | inr other ↦
      rw (other, finds-get c n cs h.1)
        (ground (
          arith,
          capability_eq.same_iff d c,
          string_eq.same_iff c.name n,
          string_eq.same_iff d.name n,
        ))
]
  where
    names : List String
    names = map (λ (x : Capability). x.name) cs

    only_here :
        (d.name == n) ≡ true
        → Bag.has d.name names ≡ false
        → (d == c) ≡ ((c.name == n) && ((d == c) || Bag.has c cs))
    only_here same absent = elim (Bool-cases (d == c)) [
      | inl this ↦ ground (
        arith,
        capability_eq.same_iff d c,
        string_eq.same_iff c.name n,
        string_eq.same_iff d.name n,
      )
      | inr that ↦ elim (Bool-cases (c.name == n)) [
        | inl named ↦
            let here = (string_eq.same_iff d.name n).0 same in
            let there = (string_eq.same_iff c.name n).0 named in
            rw (that, named)
              (sym (
                not_twice _ _ _ (has_name c cs) (ap (λ x. Bag.has x names) (there ∙ sym here))
                  absent))
        | inr unnamed ↦ rw (that, unnamed) refl
      ]
    ]

finds-get_name :
    (c : Capability) (n : String)
    → finds c (Dict.get n capability_by_name) ≡ ((c.name == n) && Bag.has c known_capabilities)
finds-get_name c n = finds-get c n known_capabilities names-Distinct

has-add_known :
    (c : Capability) (o : Option Capability) (granted : List Capability)
    → Bag.has c (add_known o granted) ≡ (finds c o || Bag.has c granted)
unfolding add_known finds
has-add_known c none granted = refl
has-add_known c (some d) granted = Bag.has-add d c granted

regroup : (n k g x y : Bool) → x ≡ y → ((n && k) || ((x && k) || g)) ≡ (((y || n) && k) || g)
regroup n k g x y h = ground arith

==_comm : (x y : String) → (x == y) ≡ (y == x)
==_comm x y = ground (arith, string_eq.same_iff x y, string_eq.same_iff y x)

has-cons :
    (n p : String) (permissions : List String)
    → Bag.has n (p ∷ permissions) ≡ ((p == n) || Bag.has n permissions)
unfolding Bag.has
has-cons n p permissions = refl

has-grant_named :
    (c : Capability) (permissions : List String) (granted : List Capability)
    → Bag.has c (grant_named permissions granted)
      ≡ ((Bag.has c.name permissions && Bag.has c known_capabilities) || Bag.has c granted)
unfolding grant_named
has-grant_named c [] granted = unfold Bag.has in refl
has-grant_named c (p ∷ permissions) granted =
    has-grant_named c permissions (add_known (Dict.get p capability_by_name) granted)
    ∙ rw (has-add_known, finds-get_name, has-cons)
        (regroup (Bag.has c.name permissions) (Bag.has c known_capabilities) (Bag.has c granted) _ _
          (==_comm c.name p))

select_held :
    (same s d h cleared : Bool)
    → cleared ≡ (if same then false else h)
    → ((same && (s || d)) || cleared) ≡ (if same then (s || d) else h)
select_held same s d h cleared e = ground arith

pub has-clear :
    (p q : ℕ) (c : Capability) (m : CapabilityManager)
    → has q c (clear p m) ≡ (if p == q then false else has q c m)
unfolding has Bag.has
has-clear p q c m = elim (Bool-cases (p == q)) [
  | inl same ↦ rw (capabilities-clear, same) refl
  | inr other ↦ rw (capabilities-clear, other) refl
]

-- After a clear, a process that is given the capabilities of a definition holds exactly the default
-- capabilities and the known ones that its definition names; an unknown name gives nothing, and the
-- other processes hold what they held.
pub has-grant_definition :
    (p q : ℕ) (c : Capability) (d : ProcessDefinition) (m : CapabilityManager)
    → has q c (grant_all p (capabilities_for_definition d) (clear p m)) ≡ (
        if p == q
        then declared c d.required_permissions || Bag.has c default_process_capabilities
        else has q c m)
unfolding capabilities_for_definition
has-grant_definition p q c d m =
    has-grant_all p q (capabilities_for_definition d) c (clear p m)
    ∙ rw (has-grant_named c d.required_permissions default_process_capabilities) (
        select_held (p == q) (declared c d.required_permissions)
          (Bag.has c default_process_capabilities) (has q c m) _ (has-clear p q c m))

pub has-capabilities_for_definition :
    (c : Capability) (d : ProcessDefinition)
    → Bag.has c (capabilities_for_definition d)
      ≡ (declared c d.required_permissions || Bag.has c default_process_capabilities)
unfolding capabilities_for_definition
has-capabilities_for_definition c d =
    has-grant_named c d.required_permissions default_process_capabilities
