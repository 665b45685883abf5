-- ===== src/Knowledge/Examples.antt =====
-- An index with one finding of a process, which moves from one goal to another.
use emergence_os.Base.{
  List, All, ℕ, String, Bool, true, false, Option, none, some, [], ◌∷◌, ◌≡◌, ◌≢◌, refl, select,
  string_eq, ◌==◌, returned, arith, if◌then◌else◌,
}
use emergence_os.Base.Bag
use emergence_os.Base.Dict
use emergence_os.Base.Value.{Value, text}
use emergence_os.Goals.{goal_for_process}
use emergence_os.Memory.{semantic}
use emergence_os.Knowledge.{
  ArtifactKey, of_event, artifact_key_eq, KnowledgeArtifact, KnowledgeIndex, Context, new_index,
  ids_of, goal_for,
}
use emergence_os.Knowledge.Index.{
  MemoryNotice, add_artifact, category_from_event, process_id_from_event, key_from_event,
}
use emergence_os.Knowledge.Changes.{on_memory_stored, on_memory_deleted, artifact_of_event}
use emergence_os.Knowledge.Reads.{snapshot, restore}
use emergence_os.Knowledge.Coherence.{IsCoherent, new_index-IsCoherent}
use emergence_os.Knowledge.Storing.{on_memory_stored-IsCoherent, on_memory_stored-stale}
use emergence_os.Knowledge.Forgetting.{is_forgotten, on_memory_deleted-IsCoherent}
use emergence_os.Knowledge.Runs.{
  Delivery, stored, deleted, IsOwnedBy, handle_all, handle_all-IsCoherent,
}
use emergence_os.Knowledge.Restored.{back, restore-snapshot_default}

-- The process 4 works for the goal.
abbrev working_for : (goal_id : ℕ) → Option Context
working_for goal_id = some (record {
  goals = record { records = []; process_to_goal = (4, goal_id) ∷ [] };
  process_table = [];
  memory = record { entries = []; index = []; published = [] };
})

abbrev notice : MemoryNotice
notice = record {
  event_id = 100;
  category = some semantic;
  process_id = some 4;
  key = "result";
  payload_category = none;
  payload_process_id = none;
  payload_key = "";
  payload_value = some (text "done");
  source_process = some 4;
  timestamp = 10;
  correlation_id = none;
  causation_id = none;
}

abbrev same_text : String → String
same_text s = s

abbrev no_end : String → String → Bool
no_end s t = false

abbrev four : Value → ℕ
four v = 4

abbrev noted : (goal_id : ℕ) → KnowledgeArtifact
noted goal_id =
    artifact_of_event same_text no_end four (working_for goal_id) notice semantic 4 "result"

abbrev one_note : KnowledgeIndex
one_note = add_artifact (noted 1) new_index

takes_note :
    on_memory_stored same_text no_end four (working_for 1) notice new_index ≡ returned one_note
unfolding on_memory_stored Dict.get
takes_note = refl

nothing_held : (b : KnowledgeArtifact) → ¬ (Dict.get (of_event 100) new_index.artifacts ≡ some b)
unfolding Dict.get
nothing_held b h = ground (arith, h)

one_note-IsCoherent : IsCoherent one_note
one_note-IsCoherent =
    on_memory_stored-IsCoherent same_text no_end four (working_for 1) notice new_index one_note
      new_index-IsCoherent (λ process_id b _ h. absurd (nothing_held b h)) takes_note

is_noted : Dict.get (of_event 100) one_note.artifacts ≡ some (noted 1)
unfolding add_artifact Dict.get Dict.put artifact_of_event
is_noted = refl

-- The same notice comes once more.
abbrev noted_again : KnowledgeIndex
noted_again = add_artifact (noted 1) (record one_note { by_goal_object = (1, []) ∷ [] })

takes_note_again :
    on_memory_stored same_text no_end four (working_for 1) notice one_note ≡ returned noted_again
unfolding on_memory_stored Dict.put Dict.get goal_for_process Bag.remove
takes_note_again = refl

is_of_goal_one : (noted 1).goal_id ≡ some 1
unfolding artifact_of_event Dict.get goal_for_process
is_of_goal_one = refl

process_of_note : process_id_from_event notice ≡ some 4
unfolding process_id_from_event
process_of_note = refl

-- The notice comes once more when the process works for the goal 2.
abbrev moved_note : KnowledgeIndex
moved_note = add_artifact (noted 2) (record one_note { by_goal_object = (1, []) ∷ [] })

takes_moved_note :
    on_memory_stored same_text no_end four (working_for 2) notice one_note ≡ returned moved_note
unfolding on_memory_stored Dict.put Dict.get goal_for_process Bag.remove
takes_moved_note = refl

is_not_of_goal_one : goal_for (working_for 2) 4 ≢ some 1
unfolding goal_for goal_for_process Dict.get
is_not_of_goal_one h = ground (arith, h)

known_note : category_from_event notice ≡ returned semantic
unfolding category_from_event
known_note = refl

key_of_note : (key_from_event notice == "") ≡ false
unfolding key_from_event
key_of_note = refl

on_memory_stored-stale_example :
    (Bag.has (of_event 100) (ids_of 1 moved_note.by_goal) ≡ true) × ¬ (IsCoherent moved_note)
on_memory_stored-stale_example =
    on_memory_stored-stale same_text no_end four (working_for 2) notice one_note semantic 4 1
      (noted 1) moved_note known_note refl process_of_note key_of_note one_note-IsCoherent is_noted
      is_of_goal_one is_not_of_goal_one takes_moved_note

forgets_note :
    on_memory_deleted notice one_note ≡ returned (record new_index { by_goal = (1, []) ∷ [] })
unfolding on_memory_deleted select Dict.values add_artifact Dict.put artifact_of_event Dict.pop
    goal_for_process Dict.get Bag.remove Bag.has
forgets_note = refl

on_memory_deleted-IsCoherent_example :
    IsCoherent (record new_index { by_goal = (1, []) ∷ [] })
    × ((id : ArtifactKey)
        → Dict.get id [] ≡ (
            if is_forgotten notice semantic (Dict.get id one_note.artifacts)
            then none
            else Dict.get id one_note.artifacts))
on_memory_deleted-IsCoherent_example =
    on_memory_deleted-IsCoherent notice one_note (record new_index { by_goal = (1, []) ∷ [] })
      semantic one_note-IsCoherent known_note refl forgets_note

restore-snapshot_default_example :
    Dict.get (of_event 100) (restore (snapshot one_note) new_index).artifacts
    ≡ back (Dict.get (of_event 100) one_note.artifacts)
restore-snapshot_default_example =
    restore-snapshot_default one_note new_index (of_event 100) one_note-IsCoherent

-- The notice comes twice, and then the memory is deleted.
abbrev three : List Delivery
three = stored notice ∷ stored notice ∷ deleted notice ∷ []

abbrev forgotten : KnowledgeIndex
forgotten = record new_index { by_goal = (1, []) ∷ []; by_goal_object = (1, []) ∷ [] }

three_handled :
    handle_all same_text no_end four (working_for 1) three new_index ≡ returned forgotten
unfolding handle_all on_memory_stored on_memory_deleted select Dict.values Dict.put Dict.get
    goal_for_process Dict.pop Bag.remove Bag.has
three_handled = refl

three_owned : All (IsOwnedBy (λ n. some 4)) three
three_owned = (process_of_note, (process_of_note, (process_of_note, tt)))

handle_all-IsCoherent_example : IsCoherent forgotten
handle_all-IsCoherent_example =
    handle_all-IsCoherent same_text no_end four (working_for 1) (λ n. some 4) three forgotten
      three_owned three_handled
