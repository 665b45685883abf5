-- ===== src/Goals/Ownership.antt =====
-- Which processes the registry of emergence/cognitive/goal_registry.py counts for which goal.
use emergence_os.Base.{
  ℕ, String, ◌≡◌, refl, ap, sym, ◌∙◌, subst, Bool, true, false, Option, none, some, some-injective,
  List, [], ◌∷◌, returned, returned-injective, if◌then◌else◌, ◌==◌, ==_refl, nat_eq, Bool-cases,
  inl, inr, ◌⊎◌, arith,
}
use emergence_os.Base.Bag
use emergence_os.Base.Dict
use emergence_os.Base.Dict.{Dict}
use emergence_os.Goals.{
  GoalKind, GoalRecord, GoalRegistry, new_registry, new_record, put_record, register, register_over,
  associate_process, associate_over, join, all_process_ids, remove, remove_over, unmap, update,
  found, add_root,
}

-- A process that is mapped to a goal is a child of that goal's record, which is held under its id.
pub record IsOwned (g : GoalRegistry) : Type 0 where
  pub keyed : (i : ℕ) (r : GoalRecord) → Dict.get i g.records ≡ some r → r.goal_id ≡ i
  pub owned :
      (p i : ℕ)
      → Dict.get p g.process_to_goal ≡ some i
      → (r : GoalRecord) × (Dict.get i g.records ≡ some r) × (Bag.has p r.child_process_ids ≡ true)

pub new_registry-IsOwned : IsOwned new_registry
unfolding Dict.get
new_registry-IsOwned = record { keyed = λ i r h. cc; owned = λ p i h. cc }

get-put_cases :
    {V : Type 0} (k i : ℕ) (v w : V) (d : Dict ℕ V)
    → Dict.get i (Dict.put k v d) ≡ some w
    → ((k ≡ i) × (v ≡ w)) ⊎ (Dict.get i d ≡ some w)
get-put_cases k i v w d h = elim (Bool-cases (k == i)) [
  | inl this ↦ inl (
    (nat_eq.same_iff k i).0 this,
    some-injective v w (sym (Dict.get-put k i v d ∙ rw this refl) ∙ h),
  )
  | inr other ↦ inr (sym (Dict.get-put k i v d ∙ rw other refl) ∙ h)
]

-- A record is put over an older one that had the same id and no more children, or over none.
put_record-IsOwned :
    (new : GoalRecord) (g : GoalRegistry)
    → IsOwned g
    → ((old : GoalRecord)
        → Dict.get new.goal_id g.records ≡ some old
        → (p : ℕ) → Bag.has p old.child_process_ids ≡ true
        → Bag.has p new.child_process_ids ≡ true)
    → IsOwned (put_record new g)
put_record-IsOwned new g v keeps = record {
  keyed = λ i r h. elim (get-put_cases new.goal_id i new r g.records h) [
    | inl (k, e) ↦ ap (λ (x : GoalRecord). x.goal_id) (sym e) ∙ k
    | inr before ↦ v.keyed i r before
  ];
  owned = λ p i h.
      let (r, held, child) = v.owned p i h in
      elim (Bool-cases (new.goal_id == i)) [
        | inl this ↦
            let named = (nat_eq.same_iff new.goal_id i).0 this in
            (
              new,
              Dict.get-put new.goal_id i new g.records ∙ rw this refl,
              keeps r (ap (λ x. Dict.get x g.records) named ∙ held) p child,
            )
        | inr other ↦ (r, Dict.get-put new.goal_id i new g.records ∙ rw other held, child)
      ];
}

pub register-IsOwned :
    (i : ℕ) (description : String) (kind : GoalKind) (now : ℕ) (g : GoalRegistry)
    → IsOwned g
    → IsOwned (register i description kind none now g)
unfolding register register_over
register-IsOwned i description kind now g v = by_held (Dict.get i g.records) refl
  where
    by_held :
        (o : Option GoalRecord)
        → Dict.get i g.records ≡ o
        → IsOwned (register_over o i description kind none now g)
    by_held none h =
        put_record-IsOwned (new_record i description kind none now) g v (λ old e p b. cc)
    by_held (some r) h = put_record-IsOwned _ g v (λ old e p b.
        let at_i = ap (λ x. Dict.get x g.records) (v.keyed i r h) in
        subst (λ (x : GoalRecord). Bag.has p x.child_process_ids ≡ true)
          (some-injective old r (sym e ∙ at_i ∙ h)) b)

-- A change that leaves the id and the children alone.
pub update-IsOwned :
    (f : GoalRecord → GoalRecord) (i : ℕ) (g g' : GoalRegistry)
    → IsOwned g
    → ((r : GoalRecord) → (f r).goal_id ≡ r.goal_id)
    → ((r : GoalRecord) → (f r).child_process_ids ≡ r.child_process_ids)
    → update f (found (Dict.get i g.records)) g ≡ returned g'
    → IsOwned g'
unfolding found
update-IsOwned f i g g' v same children = by_held (Dict.get i g.records) refl
  where
    by_held :
        (o : Option GoalRecord)
        → Dict.get i g.records ≡ o
        → update f (found o) g ≡ returned g'
        → IsOwned g'
    by_held none h e = cc
    by_held (some r) h e = subst IsOwned (returned-injective (put_record (f r) g) g' e) (
        put_record-IsOwned (f r) g v (λ old at p b.
          let at_i = ap (λ x. Dict.get x g.records) (same r ∙ v.keyed i r h) in
          let is_r = some-injective old r (sym at ∙ at_i ∙ h) in
          rw (children r)
            (subst (λ (x : GoalRecord). Bag.has p x.child_process_ids ≡ true) is_r b)))

pub associate_process-IsOwned :
    (i p : ℕ) (as_root : Bool) (now : ℕ) (g g' : GoalRegistry)
    → IsOwned g
    → associate_process i p as_root now g ≡ returned g'
    → IsOwned g'
unfolding associate_process associate_over
associate_process-IsOwned i p as_root now g g' v = by_held (Dict.get i g.records) refl
  where
    by_held :
        (o : Option GoalRecord)
        → Dict.get i g.records ≡ o
        → associate_over o i p as_root now g ≡ returned g'
        → IsOwned g'
    by_held none h e = cc
    by_held (some r) h e =
        let new = join p as_root now r in
        let id_is = v.keyed i r h in
        let held = ap (λ x. Dict.get x g.records) id_is ∙ h in
        let put = put_record-IsOwned new g v (λ old at q b.
          let is_r = some-injective old r (sym at ∙ held) in
          Bag.has-add p q r.child_process_ids
          ∙ ground
              (arith, subst (λ (x : GoalRecord). Bag.has q x.child_process_ids ≡ true) is_r b)) in
        subst IsOwned (returned-injective _ g' e) (record {
          keyed = put.keyed;
          owned = λ q j m. elim (get-put_cases p q i j g.process_to_goal m) [
            | inl (this, goal) ↦ (
              new,
              ap (λ x. Dict.get x (Dict.put r.goal_id new g.records)) (sym goal ∙ sym id_is)
                  ∙ Dict.get-put r.goal_id r.goal_id new g.records
                  ∙ rw (==_refl r.goal_id) refl,
              Bag.has-add p q r.child_process_ids ∙ ground (arith, nat_eq.same_iff p q),
            )
            | inr before ↦ put.owned q j before
          ];
        })

get-unmap :
    (p : ℕ) (ids : List ℕ) (owners : Dict ℕ ℕ)
    → Dict.get p (unmap ids owners) ≡ (if Bag.has p ids then none else Dict.get p owners)
unfolding unmap Bag.has
get-unmap p [] owners = refl
get-unmap p (q ∷ ids) owners =
    get-unmap p ids (Dict.pop q owners) ∙ ground (arith, Dict.get-pop q p owners)

has-all_process_ids :
    (p : ℕ) (r : GoalRecord)
    → Bag.has p r.child_process_ids ≡ true
    → Bag.has p (all_process_ids r) ≡ true
unfolding all_process_ids
has-all_process_ids p r h = with_root r.root_process_id
  where
    with_root : (root : Option ℕ) → Bag.has p (add_root root r.child_process_ids) ≡ true
    with_root none = h
    with_root (some q) = Bag.has-add q p r.child_process_ids ∙ ground arith

not_some : {A : Type 0} (a : A) → none ≡ some a → ⊥
not_some a x = cc

get-pop-some :
    {V : Type 0} (i j : ℕ) (w : V) (d : Dict ℕ V)
    → Dict.get j (Dict.pop i d) ≡ some w
    → Dict.get j d ≡ some w
get-pop-some i j w d h = elim (Bool-cases (i == j)) [
  | inl this ↦ absurd (not_some w (sym (Dict.get-pop i j d ∙ rw this refl) ∙ h))
  | inr other ↦ sym (Dict.get-pop i j d ∙ rw other refl) ∙ h
]

-- The registry without the goal `i`, whose record was `r`.
without : (i : ℕ) → GoalRecord → GoalRegistry → GoalRegistry
without i r g = record {
  records = Dict.pop i g.records;
  process_to_goal = unmap (all_process_ids r) g.process_to_goal;
}

without-IsOwned :
    (i : ℕ) (r : GoalRecord) (g : GoalRegistry)
    → IsOwned g
    → Dict.get i g.records ≡ some r
    → IsOwned (without i r g)
unfolding without
without-IsOwned i r g v h = record {
  keyed = λ j s m. v.keyed j s (get-pop-some i j s g.records m);
  owned = λ p j m. elim (Bool-cases (Bag.has p (all_process_ids r))) [
    | inl gone ↦
        absurd
          (not_some j (sym (get-unmap p (all_process_ids r) g.process_to_goal ∙ rw gone refl) ∙ m))
    | inr stays ↦
        let mapped = sym (get-unmap p (all_process_ids r) g.process_to_goal ∙ rw stays refl) ∙ m in
        let (s, held, child) = v.owned p j mapped in
        (s, Dict.get-pop i j g.records ∙ rw (other_goal p j s held child stays) held, child)
  ];
}
  where
    other_goal :
        (p j : ℕ) (s : GoalRecord)
        → Dict.get j g.records ≡ some s
        → Bag.has p s.child_process_ids ≡ true
        → Bag.has p (all_process_ids r) ≡ false
        → (i == j) ≡ false
    other_goal p j s held child stays = elim (Bool-cases (i == j)) [
      | inl this ↦
          let at_i = ap (λ x. Dict.get x g.records) ((nat_eq.same_iff i j).0 this) in
          let is_r = some-injective s r (sym held ∙ sym at_i ∙ h) in
          let listed =
            has-all_process_ids p r
              (subst (λ (x : GoalRecord). Bag.has p x.child_process_ids ≡ true) is_r child) in
          ground (arith, listed)
      | inr other ↦ other
    ]

pub remove-IsOwned :
    (i : ℕ) (g g' : GoalRegistry) → IsOwned g → remove i g ≡ returned g' → IsOwned g'
unfolding remove remove_over
remove-IsOwned i g g' v = by_held (Dict.get i g.records) refl
  where
    by_held :
        (o : Option GoalRecord)
        → Dict.get i g.records ≡ o
        → remove_over o i g ≡ returned g'
        → IsOwned g'
    by_held none h e = cc
    by_held (some r) h e =
        subst IsOwned (returned-injective _ g' e) (unfold without in without-IsOwned i r g v h)
