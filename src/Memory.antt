-- ===== src/Memory.antt =====
-- The store in memory: crates/core/src/repo/memory/mod.rs. The lock around it is not modelled: each
-- call of the repository is one function on the store. The text of an error is represented by what
-- it reports.
pub mod Queue
pub mod Apply
pub mod Misc
pub mod Watch
pub mod Prefix
pub mod Presence
pub mod Lookup
pub mod Meta
pub mod Inv
pub mod Reach
use check_trung_video.Base.{
  ℕ, ◌+◌, ◌==◌, String, List, [], Bool, true, false, ◌&&◌, Option, none, some, Result, ok, err,
  ok_or, opt_map, opt_eq, if◌then◌else◌,
}
use check_trung_video.Base.BTreeMap
use check_trung_video.Base.BTreeMap.{BTreeMap}
use check_trung_video.Model.RootKind.{RootKind}
use check_trung_video.Model.Records.{
  Ts, FileKey, FileRecord, Group, Volume, Root, ScanProgress, key_eq,
}
use check_trung_video.Model.Transition.{JournalRow, DedupEvent, GroupNote}

-- A session of the presence scan: the keys seen, and the root to which they belong.
pub record Phien : Type 0 where
  pub root_id : ℕ
  pub seen : List FileKey

pub record Store : Type 0 where
  pub next_id : ℕ
  pub files : BTreeMap FileRecord
  pub groups : BTreeMap Group
  pub journal : BTreeMap JournalRow
  pub events : List DedupEvent
  pub volumes : BTreeMap Volume
  pub roots : BTreeMap Root
  pub scan : BTreeMap ScanProgress
  pub meta : List (String × String)
  pub notes : BTreeMap GroupNote
  pub phien : Option Phien
  pub durable_writes : ℕ

-- `Store::default()`
abbrev pub empty_store : Store
empty_store = record {
  next_id = 0;
  files = [];
  groups = [];
  journal = [];
  events = [];
  volumes = [];
  roots = [];
  scan = [];
  meta = [];
  notes = [];
  phien = none;
  durable_writes = 0;
}

pub data RepoError : Type 0 where
  root_unknown : ℕ → RepoError
  group_unknown : ℕ → RepoError
  group_file_unknown : RepoError
  journal_unknown : ℕ → RepoError
  rename_unknown : RepoError
  session_open : ℕ → RepoError
  session_missing : RepoError
  session_of_other_root : ℕ → ℕ → RepoError
  whole_root : String → ℕ → RepoError

-- `alloc_id` returns the new value of `next_id`.
abbrev pub alloc_id : Store → ℕ × Store
alloc_id s = (s.next_id + 1, record s { next_id = s.next_id + 1 })

unfoldable pub root_kind : Store → ℕ → Result RepoError RootKind
root_kind s root_id =
    ok_or (opt_map (λ (r : Root). r.kind) (BTreeMap.get root_id s.roots)) (root_unknown root_id)

-- `file_by_key_mut`: the entry of the row with the key
abbrev pub file_by_key : Store → FileKey → Option (ℕ × FileRecord)
file_by_key s key = BTreeMap.find_entry (λ (f : FileRecord). key_eq f.key key) s.files

-- The group's canonical pointer, dropped if it points to the row.
abbrev pub drop_canonical : ℕ → Group → Group
drop_canonical row_id g = record g {
  canonical_file_id =
      if opt_eq ◌==◌ g.canonical_file_id (some row_id) then none else g.canonical_file_id;
}

-- The canonical pointer is dropped if this very upsert took the row out of its group.
unfoldable pub bo_goc_khi_roi_nhom : ℕ → Option ℕ → Option ℕ → Store → Store
bo_goc_khi_roi_nhom row_id (some g) none s = record s {
  groups = BTreeMap.modify g (drop_canonical row_id) s.groups;
}
bo_goc_khi_roi_nhom row_id _ _ s = s
