-- ===== src/Memory/Examples.antt =====
-- Memory in one space, with an entry of the older layout.
use emergence_os.Base.{ℕ, String, ◌≡◌, refl, true, ◌&&◌, [], ◌∷◌, nat_eq, string_eq}
use emergence_os.Base.Dict
use emergence_os.Base.Value.{integer}
use emergence_os.Base.Int.{pos}
use emergence_os.Memory.{
  Memory, memory_key_eq, working, scoped, legacy, delete, exists, working_snapshot,
}
use emergence_os.Memory.Lookup.{exists-delete}

abbrev space_of : ℕ → String
space_of p = "default"

-- Process 7 holds the key "k" in both layouts.
abbrev memory : Memory
memory = record {
  entries =
      (legacy space_of 7 working "k", integer (pos 1))
      ∷ (scoped space_of 7 working "k", integer (pos 2))
      ∷ (scoped space_of 8 working "k", integer (pos 3))
      ∷ [];
  index = [];
  published = [];
}

snapshot_of_seven : working_snapshot space_of 7 memory ≡ ("k", integer (pos 2)) ∷ []
unfolding working_snapshot Dict.put
snapshot_of_seven = refl

exists-delete_example : exists space_of 7 working "k" (delete space_of 7 working "k" memory) ≡ (
    Dict.has (scoped space_of 7 working "k") memory.entries
    && Dict.has (legacy space_of 7 working "k") memory.entries)
exists-delete_example = exists-delete space_of 7 working "k" memory

still_there : exists space_of 7 working "k" (delete space_of 7 working "k" memory) ≡ true
unfolding exists delete Dict.has Dict.pop
still_there = refl
