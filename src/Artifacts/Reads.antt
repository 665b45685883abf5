-- ===== src/Artifacts/Reads.antt =====
-- emergence/artifacts/service.py: the operations that read artifacts. What they return is the
-- record that the source makes a view of.
use emergence_os.Base.{
  ℕ, ◌+◌, String, Bool, true, false, ltb, ◌&&◌, Option, none, some, List, [], ◌∷◌, map, select,
  sort_by, take, Outcome, returned, raised, key_error, file_not_found, if◌then◌else◌, ◌==◌, nat_eq,
  string_eq, ◌>>=◌,
}
use emergence_os.Base.Bag
use emergence_os.Base.Dict
use emergence_os.Base.Dict.{Dict}
use emergence_os.Base.Text.{strip}
use emergence_os.Artifacts.{
  Platform, ArtifactStatus, active, superseded, deleted, is_active, ArtifactRecord, ArtifactService,
  lineage_of, ids_under, blob_path_eq,
}
use emergence_os.Artifacts.Watches.{is_subset}
use emergence_os.Artifacts.Mutations.{blob_path}

-- The loop of `get` over the ids of a lineage.
unfoldable pub find_version :
    (version : ℕ) → List ℕ → Dict ℕ ArtifactRecord → Outcome (Option ArtifactRecord)
find_version version [] records = returned none
find_version version (id ∷ ids) records =
    let rest = find_version version ids records in choose (Dict.get id records) rest
  where
    choose :
        Option ArtifactRecord → Outcome (Option ArtifactRecord) → Outcome (Option ArtifactRecord)
    choose none rest = raised key_error
    choose (some r) rest = if r.version == version then returned (some r) else rest

-- `get` with a version, for the record that the id stands for.
unfoldable pub version_of :
    (version : ℕ) → Option ArtifactRecord → ArtifactService → Outcome (Option ArtifactRecord)
unfolding find_version ids_under lineage_of
version_of version none s = returned none
version_of version (some r) s =
    find_version version (ids_under (lineage_of r) s.by_lineage) s.records

unfoldable pub get :
    (artifact_id : ℕ) → (version : Option ℕ) → ArtifactService → Outcome (Option ArtifactRecord)
unfolding version_of
get artifact_id none s = returned (Dict.get artifact_id s.records)
get artifact_id (some version) s = version_of version (Dict.get artifact_id s.records) s

-- `read_content` of the record that `get` finds.
unfoldable pub content_of : Platform → Option ArtifactRecord → ArtifactService → Option (List ℕ)
unfolding blob_path
content_of platform none s = none
content_of platform (some r) s = Dict.get (blob_path platform r) s.blobs

unfoldable pub read_content :
    Platform
    → (artifact_id : ℕ) → (version : Option ℕ) → ArtifactService
    → Outcome (Option (List ℕ))
unfolding get content_of
read_content platform artifact_id version s =
    get artifact_id version s >>= λ found. returned (content_of platform found s)

-- The records that some ids stand for, without the ids that are missing.
unfoldable pub held : List ℕ → Dict ℕ ArtifactRecord → List ArtifactRecord
held [] records = []
held (id ∷ ids) records = add (Dict.get id records) (held ids records)
  where
    add : Option ArtifactRecord → List ArtifactRecord → List ArtifactRecord
    add none rs = rs
    add (some r) rs = r ∷ rs

versions_in : Option ArtifactRecord → ArtifactService → List ArtifactRecord
unfolding held ids_under lineage_of sort_by
versions_in none s = []
versions_in (some r) s =
    sort_by (λ a b. ltb a.version b.version)
      (held (ids_under (lineage_of r) s.by_lineage) s.records)

unfoldable pub versions : (artifact_id : ℕ) → ArtifactService → List ArtifactRecord
unfolding versions_in
versions artifact_id s = versions_in (Dict.get artifact_id s.records) s

first : List ArtifactRecord → Option ArtifactRecord
first [] = none
first (r ∷ rs) = some r

-- `_active_in_lineage`
unfoldable pub active_in_lineage : (lineage_id : ℕ) → ArtifactService → Option ArtifactRecord
unfolding held ids_under sort_by first
active_in_lineage lineage_id s = first (
    sort_by (λ a b. ltb b.version a.version)
      (select (λ (r : ArtifactRecord). is_active r.status)
        (held (ids_under lineage_id s.by_lineage) s.records)))

or_record : Option ArtifactRecord → ArtifactRecord → ArtifactRecord
or_record none r = r
or_record (some a) r = a

-- The record whose content `export` reads.
unfoldable pub exported : (version : Option ℕ) → ArtifactRecord → ArtifactService → ArtifactRecord
unfolding or_record active_in_lineage lineage_of
exported (some version) r s = r
exported none r s =
    if is_active r.status then r else or_record (active_in_lineage (lineage_of r) s) r

found_or_raise : Option ArtifactRecord → Outcome ArtifactRecord
found_or_raise none = raised key_error
found_or_raise (some r) = returned r

with_content : ArtifactRecord → Option (List ℕ) → Outcome (ArtifactRecord × List ℕ)
with_content r none = raised file_not_found
with_content r (some content) = returned (r, content)

-- `export`, before the decoding of the content.
unfoldable pub export :
    Platform
    → (artifact_id : ℕ) → (version : Option ℕ) → ArtifactService
    → Outcome (ArtifactRecord × List ℕ)
unfolding get found_or_raise exported read_content with_content
export platform artifact_id version s = get artifact_id version s >>= found_or_raise >>= λ r.
    let e = exported version r s in
    read_content platform e.artifact_id (some e.version) s >>= with_content e

newer : Option ArtifactRecord → ArtifactRecord → Bool
newer none r = true
newer (some current) r = ltb current.version r.version

latest : List ArtifactRecord → Dict ℕ ArtifactRecord → Dict ℕ ArtifactRecord
unfolding newer lineage_of
latest [] d = d
latest (r ∷ rs) d =
    latest rs (if newer (Dict.get (lineage_of r) d) r then Dict.put (lineage_of r) r d else d)

-- `_latest_versions`
unfoldable pub latest_versions : List ArtifactRecord → List ArtifactRecord
unfolding latest
latest_versions records = Dict.values (latest records [])

-- The arguments of `search`, without a query and the content of what is found.
pub record Search : Type 0 where
  pub artifact_type : Option String
  pub goal_id : Option ℕ
  pub space_id : Option String
  pub tags : List String
  pub latest_only : Bool
  pub status : Option ArtifactStatus
  pub limit : ℕ

same_status : ArtifactStatus → ArtifactStatus → Bool
same_status active active = true
same_status superseded superseded = true
same_status deleted deleted = true
same_status _ _ = false

-- A filter that only applies to a value that is given.
if_given {ℓ} : {A : Type ℓ} → Option A → (A → Bool) → Bool
if_given none test = true
if_given (some a) test = test a

-- The tests of `search` on one record.
unfoldable pub matches : Platform → Search → ArtifactService → ArtifactRecord → Bool
unfolding if_given same_status ids_under strip is_subset
matches platform q s r =
    if_given q.status (λ status. same_status r.status status)
    && if_given q.goal_id (λ goal_id. Bag.has r.artifact_id (ids_under goal_id s.by_goal))
    && if_given q.space_id (λ space_id. r.space_id == space_id)
    && if_given q.artifact_type
        (λ artifact_type. r.artifact_type == platform.lower (strip artifact_type))
    && is_subset (map (λ tag. platform.lower (strip tag)) q.tags) r.tags

unfoldable pub search : Platform → Search → ArtifactService → List ArtifactRecord
unfolding matches latest_versions sort_by
search platform q s =
    let chosen = select (matches platform q s) (Dict.values s.records) in
    take q.limit (
      sort_by (λ a b. ltb b.updated_at a.updated_at)
        (if q.latest_only then latest_versions chosen else chosen))

pub record GoalSummary : Type 0 where
  pub artifact_count : ℕ
  pub total_bytes : ℕ
  pub counts_by_type : Dict String ℕ
  pub last_updated : Option ℕ

count_or_zero : Option ℕ → ℕ
count_or_zero none = 0
count_or_zero (some n) = n

later_of : Option ℕ → ℕ → Option ℕ
later_of none t = some t
later_of (some u) t = if ltb u t then some t else some u

-- The body of the loop of `summarize_goal`.
unfoldable pub count_record : ArtifactRecord → GoalSummary → GoalSummary
unfolding count_or_zero later_of
count_record r v = record {
  artifact_count = v.artifact_count + 1;
  total_bytes = v.total_bytes + r.size_bytes;
  counts_by_type =
      Dict.put r.artifact_type (count_or_zero (Dict.get r.artifact_type v.counts_by_type) + 1)
        v.counts_by_type;
  last_updated = later_of v.last_updated r.updated_at;
}

count_all : List ArtifactRecord → GoalSummary → GoalSummary
unfolding count_record
count_all [] v = v
count_all (r ∷ rs) v = count_all rs (count_record r v)

unfoldable pub summarize_goal : (goal_id : ℕ) → ArtifactService → GoalSummary
unfolding count_all latest_versions held ids_under
summarize_goal goal_id s =
    count_all
      (latest_versions (
        select (λ (r : ArtifactRecord). is_active r.status)
          (held (ids_under goal_id s.by_goal) s.records)))
      (record { artifact_count = 0; total_bytes = 0; counts_by_type = []; last_updated = none })
