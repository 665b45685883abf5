-- ===== src/Knowledge/Restored.antt =====
-- emergence/memory/knowledge_index.py: what a restored index has of the one that was saved.
use emergence_os.Base.{
  Option, none, some, List, [], ◌∷◌, map, ◌≡◌, refl, ap, ◌∙◌, if◌then◌else◌, ==_refl, arith,
  is_some,
}
use emergence_os.Base.Bag.{Distinct}
use emergence_os.Base.Dict
use emergence_os.Base.Dict.{Dict}
use emergence_os.Base.Keys.{has-keys}
use emergence_os.Knowledge.{ArtifactKey, artifact_key_eq, KnowledgeArtifact, KnowledgeIndex}
use emergence_os.Knowledge.Reads.{saved, snapshot, read_back, restore, restore_all}
use emergence_os.Knowledge.Coherence.{IsHeld, IsCoherent}

put_back :
    List KnowledgeArtifact → Dict ArtifactKey KnowledgeArtifact → Dict ArtifactKey KnowledgeArtifact
unfolding saved read_back
put_back [] d = d
put_back (a ∷ artifacts) d = put_back artifacts (Dict.put a.artifact_id (read_back (saved a)) d)

restore_all-artifacts :
    (artifacts : List KnowledgeArtifact) (x : KnowledgeIndex)
    → (restore_all (map saved artifacts) x).artifacts ≡ put_back artifacts x.artifacts
unfolding restore_all put_back saved read_back
restore_all-artifacts [] x = refl
restore_all-artifacts (a ∷ artifacts) x = restore_all-artifacts artifacts _

-- The artifact as it comes back.
abbrev pub back : Option KnowledgeArtifact → Option KnowledgeArtifact
back none = none
back (some a) = some (record a { space_id = "default" })

IsKeyed : Dict ArtifactKey KnowledgeArtifact → Type 0
IsKeyed d = (id : ArtifactKey) (a : KnowledgeArtifact) → IsHeld d id a → a.artifact_id ≡ id

get-put_back :
    (d e : Dict ArtifactKey KnowledgeArtifact) (id : ArtifactKey)
    → Distinct (Dict.keys d)
    → IsKeyed d
    → Dict.get id (put_back (Dict.values d) e)
      ≡ (if Dict.has id d then back (Dict.get id d) else Dict.get id e)
unfolding put_back Dict.values Dict.keys Dict.get Dict.has IsKeyed saved read_back
get-put_back [] e id h k = refl
get-put_back ((j, a) ∷ d) e id h k =
    let here : a.artifact_id ≡ j = k j a (rw (==_refl j) refl) in
    let rest = get-put_back d (Dict.put a.artifact_id (read_back (saved a)) e) id h.1 (λ i u held.
      k i u (
        ground (
          arith,
          held,
          h.0,
          has-keys j d,
          artifact_key_eq.same_iff j i,
          Dict.has-eq-is_some i d,
          Dict.has-eq-is_some j d,
        ))) in
    ground (
      arith,
      rest,
      here,
      h.0,
      has-keys j d,
      artifact_key_eq.same_iff j id,
      Dict.has-eq-is_some id d,
      Dict.get-put a.artifact_id id (read_back (saved a)) e,
    )

-- An index whose artifacts and lists agree has, when it is saved and restored, the artifacts that
-- it had, all of them in the default space.
pub restore-snapshot_default :
    (x y : KnowledgeIndex) (id : ArtifactKey)
    → IsCoherent x
    → Dict.get id (restore (snapshot x) y).artifacts ≡ back (Dict.get id x.artifacts)
unfolding restore snapshot Dict.get IsKeyed
restore-snapshot_default x y id v =
    ap (λ d. Dict.get id d) (restore_all-artifacts (Dict.values x.artifacts) _)
    ∙ get-put_back x.artifacts [] id v.distinct v.keyed
    ∙ present (Dict.get id x.artifacts) (Dict.has-eq-is_some id x.artifacts)
  where
    present :
        (o : Option KnowledgeArtifact)
        → Dict.has id x.artifacts ≡ is_some o
        → (if Dict.has id x.artifacts then back o else Dict.get id []) ≡ back o
    present none h = rw h refl
    present (some a) h = rw h refl
