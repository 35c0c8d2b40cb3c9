-- ===== src/Memory/Meta.antt =====
-- The operations that crates/core/src/repo/memory/mod.rs writes out itself.
use check_trung_video.Base.{
  String, List, [], ◌∷◌, ◌++◌, Option, none, some, Result, ok, err, str_eq, if◌then◌else◌,
}
use check_trung_video.Base.BTreeMap
use check_trung_video.Model.Records.{ScanProgress}
use check_trung_video.Model.Transition.{DedupEvent, GroupNote}
use check_trung_video.Memory.{Store, RepoError, group_unknown}

unfoldable pub scan_progress_set : Store → ScanProgress → Store
unfolding BTreeMap.insert
scan_progress_set s p = record s { scan = BTreeMap.insert p.root_id p s.scan }

unfoldable pub meta_lookup : String → List (String × String) → Option String
meta_lookup k [] = none
meta_lookup k ((j, v) ∷ m) = if str_eq j k then some v else meta_lookup k m

-- The table is only looked up and written, so the order of its entries is not modelled.
unfoldable pub meta_insert : String → String → List (String × String) → List (String × String)
meta_insert k v [] = (k, v) ∷ []
meta_insert k v ((j, w) ∷ m) = if str_eq j k then (k, v) ∷ m else (j, w) ∷ meta_insert k v m

unfoldable pub meta_get : Store → String → Option String
unfolding meta_lookup
meta_get s k = meta_lookup k s.meta

unfoldable pub meta_set : Store → String → String → Store
unfolding meta_insert
meta_set s k v = record s { meta = meta_insert k v s.meta }

unfoldable pub group_note_set : Store → GroupNote → Result RepoError (Unit {0}) × Store
group_note_set s n =
    if BTreeMap.contains_key n.group_id s.groups
    then (ok tt, record s { notes = BTreeMap.insert n.group_id n s.notes })
    else (err (group_unknown n.group_id), s)

unfoldable pub record_event : Store → DedupEvent → Store
record_event s ev = record s { events = s.events ++ ev ∷ [] }
