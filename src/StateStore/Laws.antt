-- ===== src/StateStore/Laws.antt =====
-- What the operations of emergence/kernel/state_store.py do to the values and which calls they make.
use emergence_os.Base.{
  ℕ, List, ◌∷◌, String, ◌≡◌, refl, true, Option, none, some, [], if◌then◌else◌, arith, ◌==◌,
  string_eq, subst, sym, ◌∙◌, some-injective, ==_refl, inl, inr, Bool-cases,
}
use emergence_os.Base.Dict
use emergence_os.Base.Value.{Value, py_equal, py_equal_refl}
use emergence_os.StateStore.{
  watch, unwatch, unwatch_from, put_or_drop, StateStore, set, set_over, delete, delete_over,
}

-- The value that a key has after `set`: the old object stays where it equals the new one.
abbrev pub settled : Option Value → Value → Value
settled none value = value
settled (some old) value = if py_equal old value then old else value

get-set_over :
    (o : Option Value) (k j : String) (v : Value) (s : StateStore)
    → Dict.get k s.state ≡ o
    → Dict.get j (set_over o k v s).0.state
      ≡ (if k == j then some (settled o v) else Dict.get j s.state)
unfolding set_over
get-set_over none k j v s e = ground (arith, Dict.get-put k j v s.state)
get-set_over (some old) k j v s e = elim (Bool-cases (py_equal old v)) [
  | inl same ↦ rw same (ground (arith, string_eq.same_iff k j))
  | inr other ↦ rw other (Dict.get-put k j v s.state)
]

-- After `set`, the key holds the new value, or the old one where `==` holds between them, and every
-- other key holds what it held.
pub get-set :
    (k j : String) (v : Value) (s : StateStore)
    → Dict.get j (set k v s).0.state
      ≡ (if k == j then some (settled (Dict.get k s.state) v) else Dict.get j s.state)
unfolding set
get-set k j v s = get-set_over (Dict.get k s.state) k j v s refl

get-delete_over :
    (o : Option Value) (k j : String) (s : StateStore)
    → Dict.get k s.state ≡ o
    → Dict.get j (delete_over o k s).0.state ≡ (if k == j then none else Dict.get j s.state)
unfolding delete_over
get-delete_over none k j s e = ground (arith, string_eq.same_iff k j)
get-delete_over (some old) k j s e = Dict.get-pop k j s.state

-- After `delete`, the key is gone and every other key holds what it held.
pub get-delete :
    (k j : String) (s : StateStore)
    → Dict.get j (delete k s).0.state ≡ (if k == j then none else Dict.get j s.state)
unfolding delete
get-delete k j s = get-delete_over (Dict.get k s.state) k j s refl

py_equal-settled : (o : Option Value) (v : Value) → py_equal (settled o v) v ≡ true
py_equal-settled none v = py_equal_refl v
py_equal-settled (some old) v = elim (Bool-cases (py_equal old v)) [
  | inl same ↦ rw same same
  | inr other ↦ rw other (py_equal_refl v)
]

set_over_equal :
    (o : Option Value) (k : String) (old v : Value) (s : StateStore)
    → o ≡ some old
    → py_equal old v ≡ true
    → set_over o k v s ≡ (s, [])
unfolding set_over
set_over_equal none k old v s e p = cc
set_over_equal (some w) k old v s e p =
    rw (subst (λ x. py_equal x v ≡ true) (sym (some-injective w old e)) p) refl

-- Setting a key twice to one value does nothing the second time: the store stays as it is, and
-- neither an event is published nor a watcher called.
pub set-set_self :
    (k : String) (v : Value) (s : StateStore) → set k v (set k v s).0 ≡ ((set k v s).0, [])
set-set_self k v s =
    let held : Dict.get k (set k v s).0.state ≡ some (settled (Dict.get k s.state) v) =
      get-set k k v s ∙ rw (==_refl k) refl in
    unfold set in
    set_over_equal _ k (settled (Dict.get k s.state) v) v (set k v s).0 held
      (py_equal-settled (Dict.get k s.state) v)

pub state-watch :
    (k : String) (callback : ℕ) (s : StateStore) → (watch k callback s).state ≡ s.state
unfolding watch
state-watch k callback s = refl

pub state-unwatch :
    (k : String) (callback : ℕ) (s : StateStore) → (unwatch k callback s).state ≡ s.state
unfolding unwatch unwatch_from put_or_drop
state-unwatch k callback s = from_held (Dict.get k s.watchers)
  where
    dropped : (callbacks : List ℕ) → (put_or_drop k callbacks s).state ≡ s.state
    dropped [] = refl
    dropped (c ∷ callbacks) = refl

    from_held : (o : Option (List ℕ)) → (unwatch_from o k callback s).state ≡ s.state
    from_held none = refl
    from_held (some callbacks) = dropped _
