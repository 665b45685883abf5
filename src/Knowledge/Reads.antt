-- ===== src/Knowledge/Reads.antt =====
-- emergence/memory/knowledge_index.py: queries, summaries and snapshots. A query returns the
-- artifacts that the source makes views of.
use emergence_os.Base.{
  ℕ, ◌+◌, String, Bool, true, ltb, ◌&&◌, Option, none, some, List, [], ◌∷◌, ◌++◌, map, select,
  sort_by, if◌then◌else◌, ◌==◌, nat_beq, nat_eq, string_eq,
}
use emergence_os.Base.Bag
use emergence_os.Base.Dict
use emergence_os.Base.Dict.{Dict}
use emergence_os.Base.Value.{Value, none_value}
use emergence_os.Memory.{MemoryCategory, peek}
use emergence_os.Knowledge.{
  ArtifactType, document, summary, report, embedding, dataset, finding, ArtifactKey,
  artifact_key_eq, KnowledgeArtifact, KnowledgeIndex, Context, ids_of, SizeText, format_bytes,
  RelativeTime, format_relative_time,
}

-- The order of the members of `ArtifactType`.
abbrev type_code : ArtifactType → ℕ
type_code document = 0
type_code summary = 1
type_code report = 2
type_code embedding = 3
type_code dataset = 4
type_code finding = 5

abbrev same_type : ArtifactType → ArtifactType → Bool
same_type a b = nat_beq (type_code a) (type_code b)

if_given {ℓ} : {A : Type ℓ} → Option A → (A → Bool) → Bool
if_given none test = true
if_given (some a) test = test a

-- The three filters of `query` on one artifact.
unfoldable pub is_wanted :
    (goal_id : Option ℕ)
    → (artifact_type : Option ArtifactType) → (space_id : Option String) → KnowledgeIndex
    → KnowledgeArtifact
    → Bool
unfolding if_given ids_of
is_wanted goal_id artifact_type space_id x a =
    if_given goal_id (λ goal. Bag.has a.artifact_id (ids_of goal x.by_goal))
    && if_given space_id (λ space. a.space_id == space)
    && if_given artifact_type (λ wanted. same_type a.artifact_type wanted)

ordered : (sort : String) → List KnowledgeArtifact → List KnowledgeArtifact
unfolding sort_by
ordered sort artifacts =
    if sort == "recency"
    then sort_by (λ a b. ltb b.stored_at a.stored_at) artifacts
    else if sort == "size"
    then sort_by (λ a b. ltb b.size_bytes a.size_bytes) artifacts
    else artifacts

unfoldable pub query :
    (goal_id : Option ℕ)
    → (artifact_type : Option ArtifactType) → (space_id : Option String) → (sort : String)
    → KnowledgeIndex
    → List KnowledgeArtifact
unfolding is_wanted ordered
query goal_id artifact_type space_id sort x =
    ordered sort (select (is_wanted goal_id artifact_type space_id x) (Dict.values x.artifacts))

shown : Value → Option Value
shown none_value = none
shown v = some v

-- `read_content`, before the value is made a text. `space_of` is the resolver of the memory.
unfoldable pub read_content :
    (space_of : (process_id : ℕ) → String) → Option Context → KnowledgeArtifact → Option Value
unfolding peek shown
read_content space_of none a = none
read_content space_of (some ctx) a =
    shown (peek space_of a.process_id a.category a.key none_value ctx.memory)

-- The artifacts that some ids stand for, without the ids that are missing.
unfoldable pub held : List ArtifactKey → Dict ArtifactKey KnowledgeArtifact → List KnowledgeArtifact
held [] artifacts = []
held (id ∷ ids) artifacts = add (Dict.get id artifacts) (held ids artifacts)
  where
    add : Option KnowledgeArtifact → List KnowledgeArtifact → List KnowledgeArtifact
    add none rest = rest
    add (some a) rest = a ∷ rest

first : List KnowledgeArtifact → Option KnowledgeArtifact
first [] = none
first (a ∷ rest) = some a

-- `primary_report_for_goal`
unfoldable pub primary_report_for_goal : (goal_id : ℕ) → KnowledgeIndex → Option KnowledgeArtifact
unfolding first held ids_of sort_by
primary_report_for_goal goal_id x = first (
    sort_by (λ a b. ltb b.stored_at a.stored_at)
      (select (λ (a : KnowledgeArtifact). same_type a.artifact_type report)
        (held (ids_of goal_id x.by_goal) x.artifacts)))

-- A count for each type, by its place in `ArtifactType`.
pub record GoalSummary : Type 0 where
  pub total_bytes : ℕ
  pub counts : Dict ℕ ℕ
  pub artifact_count : ℕ
  pub last_updated : Option ℕ

count_or_zero : Option ℕ → ℕ
count_or_zero none = 0
count_or_zero (some n) = n

later_of : Option ℕ → ℕ → Option ℕ
later_of none t = some t
later_of (some u) t = if ltb u t then some t else some u

-- The body of the loop of `summarize_goal`.
unfoldable pub count_artifact : KnowledgeArtifact → GoalSummary → GoalSummary
unfolding count_or_zero later_of
count_artifact a v = record {
  total_bytes = v.total_bytes + a.size_bytes;
  counts =
      Dict.put (type_code a.artifact_type)
        (count_or_zero (Dict.get (type_code a.artifact_type) v.counts) + 1) v.counts;
  artifact_count = v.artifact_count + 1;
  last_updated = later_of v.last_updated a.stored_at;
}

count_all : List KnowledgeArtifact → GoalSummary → GoalSummary
unfolding count_artifact
count_all [] v = v
count_all (a ∷ artifacts) v = count_all artifacts (count_artifact a v)

unfoldable pub summarize_goal : (goal_id : ℕ) → KnowledgeIndex → GoalSummary
unfolding count_all held ids_of
summarize_goal goal_id x =
    count_all (held (ids_of goal_id x.by_goal) x.artifacts)
      (record { total_bytes = 0; counts = []; artifact_count = 0; last_updated = none })

-- The parts of a goal card, before they are joined by dots.
pub record GoalCard : Type 0 where
  pub size : SizeText
  pub counts : List (ArtifactType × ℕ)
  pub updated : RelativeTime

labels : List ArtifactType → Dict ℕ ℕ → List (ArtifactType × ℕ)
unfolding count_or_zero
labels [] counts = []
labels (t ∷ types) counts =
    let count = count_or_zero (Dict.get (type_code t) counts) in
    let rest = labels types counts in if nat_beq count 0 then rest else (t, count) ∷ rest

-- `format_goal_card`
unfoldable pub format_goal_card : GoalSummary → (now : ℕ) → GoalCard
unfolding format_bytes labels format_relative_time
format_goal_card v now = record {
  size = format_bytes v.total_bytes;
  counts = labels (document ∷ summary ∷ report ∷ embedding ∷ dataset ∷ finding ∷ []) v.counts;
  updated = format_relative_time v.last_updated now;
}

-- What `snapshot` writes of an artifact, with the texts of ids, categories, types and times as these
-- are.
pub record SavedArtifact : Type 0 where
  pub artifact_id : ArtifactKey
  pub goal_id : Option ℕ
  pub artifact_type : ArtifactType
  pub key : String
  pub category : MemoryCategory
  pub process_id : ℕ
  pub plugin : Option String
  pub size_bytes : ℕ
  pub stored_at : ℕ
  pub event_id : ℕ
  pub correlation_id : Option ℕ
  pub causation_id : Option ℕ

unfoldable pub saved : KnowledgeArtifact → SavedArtifact
saved a = record {
  artifact_id = a.artifact_id;
  goal_id = a.goal_id;
  artifact_type = a.artifact_type;
  key = a.key;
  category = a.category;
  process_id = a.process_id;
  plugin = a.plugin;
  size_bytes = a.size_bytes;
  stored_at = a.stored_at;
  event_id = a.event_id;
  correlation_id = a.correlation_id;
  causation_id = a.causation_id;
}

unfoldable pub snapshot : KnowledgeIndex → List SavedArtifact
unfolding saved
snapshot x = map saved (Dict.values x.artifacts)

-- The artifact that `restore` makes, in the space that the class has as its default.
unfoldable pub read_back : SavedArtifact → KnowledgeArtifact
read_back raw = record {
  artifact_id = raw.artifact_id;
  goal_id = raw.goal_id;
  artifact_type = raw.artifact_type;
  key = raw.key;
  category = raw.category;
  process_id = raw.process_id;
  plugin = raw.plugin;
  size_bytes = raw.size_bytes;
  stored_at = raw.stored_at;
  event_id = raw.event_id;
  correlation_id = raw.correlation_id;
  causation_id = raw.causation_id;
  space_id = "default";
}

append_under : Option ℕ → ArtifactKey → Dict ℕ (List ArtifactKey) → Dict ℕ (List ArtifactKey)
unfolding ids_of
append_under none id d = d
append_under (some goal_id) id d = Dict.put goal_id (ids_of goal_id d ++ id ∷ []) d

-- The loop of `restore`.
unfoldable pub restore_all : List SavedArtifact → KnowledgeIndex → KnowledgeIndex
unfolding read_back append_under
restore_all [] x = x
restore_all (raw ∷ raws) x = restore_all raws (record x {
  artifacts = Dict.put raw.artifact_id (read_back raw) x.artifacts;
  by_goal = append_under raw.goal_id raw.artifact_id x.by_goal;
})

unfoldable pub restore : List SavedArtifact → KnowledgeIndex → KnowledgeIndex
unfolding restore_all
restore raws x = restore_all raws (record x { artifacts = []; by_goal = []; by_goal_object = [] })
