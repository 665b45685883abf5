-- ===== src/Artifacts/Examples.antt =====
-- A service with a report, its second version, and a process that watches reports.
use emergence_os.Base.{true, ℕ, false, ◌||◌, none, some, [], ◌∷◌, ◌≡◌, refl, returned, nat_eq}
use emergence_os.Base.Bag
use emergence_os.Base.Dict
use emergence_os.Base.Text.{is_blank, is_space}
use emergence_os.Artifacts.{
  Platform, ArtifactService, ArtifactRecord, artifact_created, new_service,
}
use emergence_os.Artifacts.Mutations.{
  bytes_of, create, update, update_found, new_artifact, store_blob,
}
use emergence_os.Artifacts.Records.{
  bytes, CreateRequest, UpdateRequest, require_active, add_record, index_record,
}
use emergence_os.Artifacts.Watches.{register_watch, notify_watchers}
use emergence_os.Artifacts.Reads.{get, versions, read_content, summarize_goal}
use emergence_os.Artifacts.Snapshots.{snapshot, restore}
use emergence_os.Artifacts.Lineage.{IsHeld}
use emergence_os.Artifacts.Effects.{IsConsistent}
use emergence_os.Artifacts.Reachable.{
  Reachable, started, created, updated, watched, reloaded, IsSoundAfter, Reachable-IsSoundAfter,
}
use emergence_os.Artifacts.Versions.{update-read_content}
use emergence_os.Artifacts.Restored.{restore-versions, restore-snapshot}
use emergence_os.Artifacts.Notified.{is_watched_by, create-told}

abbrev here : Platform
here = record {
  lower = λ s. s;
  safe_filename = λ s. s;
  guess_mime_type = λ s. none;
  encode = λ s. [];
}

abbrev report : CreateRequest
report = record {
  name = "plan";
  artifact_type = "report";
  content = bytes (7 ∷ []);
  owner_process_id = none;
  owner_goal_id = some 5;
  space_id = none;
  metadata = [];
  provenance = record { lineage_id = none; entries = [] };
  tags = [];
  mime_type = none;
  based_on = none;
  knowledge_links = [];
}

abbrev watching : ArtifactService
watching = register_watch here 9 (some 77) (some "report") [] new_service

abbrev first : ArtifactRecord × ArtifactService
first = store_blob here (new_artifact here none 1 10 report watching) report.content watching

abbrev with_report : ArtifactService
with_report = add_record artifact_created first

creates_report : create here none 1 10 report watching ≡ returned (first.0, with_report)
unfolding create is_blank is_space
creates_report = refl

abbrev revision : UpdateRequest
revision = record {
  content = bytes (8 ∷ 9 ∷ []);
  name = none;
  metadata = [];
  tags = none;
  owner_process_id = none;
}

abbrev second : ArtifactRecord × ArtifactService
second = update_found here 2 20 revision (first.0) with_report

revises_report : update here 1 2 20 revision with_report ≡ returned (second.0, second.1)
unfolding update require_active new_artifact store_blob add_record index_record Dict.put Dict.get
    notify_watchers register_watch
revises_report = refl

is_first : Dict.has 1 watching.records ≡ false
unfolding register_watch Dict.has
is_first = refl

is_second : Dict.has 2 with_report.records ≡ false
unfolding new_artifact store_blob add_record index_record Dict.put Dict.has notify_watchers
    register_watch
is_second = refl

with_report-Reachable : Reachable here false with_report
with_report-Reachable =
    created none 1 10 report watching (first.0) with_report
      (watched 9 (some 77) (some "report") [] new_service started) is_first refl creates_report

with_report-IsConsistent : IsConsistent with_report
with_report-IsConsistent = Reachable-IsSoundAfter here false with_report with_report-Reachable

update-read_content_example :
    (read_content here 2 none (second.1) ≡ returned (some (bytes_of here revision.content)))
    × ((b : ℕ) (u : ArtifactRecord)
        → IsHeld with_report.records b u
        → read_content here b (some u.version) (second.1)
          ≡ read_content here b (some u.version) with_report)
update-read_content_example =
    update-read_content here 1 2 20 revision with_report (second.0) (second.1)
      with_report-IsConsistent is_second revises_report

create-told_example :
    Bag.has 9 with_report.pending_notifications
    ≡ (is_watched_by 9 watching.watches (first.0) || Bag.has 9 watching.pending_notifications)
create-told_example =
    create-told here none 1 10 report watching (first.0) with_report 9 creates_report

restore-snapshot_example :
    (t : ArtifactService) × (restore (snapshot with_report) new_service ≡ returned t)
    × ((id : ℕ) → Dict.get id t.records ≡ Dict.get id with_report.records)
    × (t.watches ≡ with_report.watches)
restore-snapshot_example = restore-snapshot with_report new_service with_report-IsConsistent

abbrev is_restored :
    (t : ArtifactService) × (restore (snapshot with_report) new_service ≡ returned t)
unfolding restore snapshot Dict.values add_record Dict.put store_blob register_watch new_artifact
is_restored = (_, refl)

abbrev restored : ArtifactService
restored = is_restored.0

restore-versions_example :
    (versions 1 restored ≡ [])
    × (get 1 (some 1) restored ≡ returned none)
    × ((summarize_goal 5 restored).artifact_count ≡ 0)
restore-versions_example =
    restore-versions (snapshot with_report) new_service restored (is_restored.1) 1 1 5

-- The restored service goes on with a second version.
abbrev third : ArtifactRecord × ArtifactService
third = update_found here 3 30 revision (first.0) restored

revises_restored : update here 1 3 30 revision restored ≡ returned (third.0, third.1)
unfolding update require_active new_artifact store_blob add_record index_record Dict.put Dict.get
    notify_watchers register_watch restore snapshot Dict.values
revises_restored = refl

is_third : Dict.has 3 restored.records ≡ false
unfolding new_artifact store_blob add_record index_record Dict.put Dict.has notify_watchers
    register_watch restore snapshot Dict.values
is_third = refl

Reachable-IsSoundAfter_example : IsSoundAfter true (third.1)
Reachable-IsSoundAfter_example = Reachable-IsSoundAfter here true (third.1) (
    updated 1 3 30 revision restored (third.0) (third.1)
      (reloaded with_report new_service restored with_report-Reachable started (is_restored.1))
      is_third revises_restored)
