-- ===== src/Memory/Inv.antt =====
-- The invariant of the store of crates/core/src/repo/memory.
pub mod Rules
pub mod Queue
pub mod Watch
pub mod Presence
pub mod Misc
pub mod Apply
use check_trung_video.Base.{
  ℕ, ◌≤◌, ◌+◌, ◌==◌, ==_iff, ◌⊎◌, ◌≡◌, ◌∙◌, false≢true, refl, sym, ap, unwrap_or, Bool, true, false,
  Option, none, some, is_some, List, arith, Option-cases, inl, inr, if◌then◌else◌, opt_map,
  Bool-cases,
}
use check_trung_video.Base.BTreeMap
use check_trung_video.Base.BTreeMap.{
  BTreeMap, get-map_values, get-update_where, get-modify, get-insert,
}
use check_trung_video.Model.Records.{FileKey, FileRecord, Group, key_eq}
use check_trung_video.Memory.{Store}

abbrev pub HasGroup : BTreeMap Group → ℕ → Type 0
HasGroup groups g = BTreeMap.contains_key g groups ≡ true

-- The ids are the keys of the maps and were allocated; a row's group exists; and no two rows have
-- the same file key.
pub record Inv (s : Store) : Type 0 where
  pub files_sorted : BTreeMap.IsSorted s.files
  pub groups_sorted : BTreeMap.IsSorted s.groups
  pub file_id : (k : ℕ) (r : FileRecord) → BTreeMap.get k s.files ≡ some r → r.id ≡ k
  pub file_allocated : (k : ℕ) (r : FileRecord) → BTreeMap.get k s.files ≡ some r → k ≤ s.next_id
  pub group_id : (k : ℕ) (g : Group) → BTreeMap.get k s.groups ≡ some g → g.id ≡ k
  pub group_allocated : (k : ℕ) (g : Group) → BTreeMap.get k s.groups ≡ some g → k ≤ s.next_id
  pub group_exists :
      (k : ℕ) (r : FileRecord) (g : ℕ)
      → BTreeMap.get k s.files ≡ some r
      → r.group_id ≡ some g
      → HasGroup s.groups g
  pub key_unique :
      (j k : ℕ) (a b : FileRecord)
      → BTreeMap.get j s.files ≡ some a
      → BTreeMap.get k s.files ≡ some b
      → key_eq a.key b.key ≡ true
      → j ≡ k

-- `r'` is a new value of the row `r`: the same id and key, and a group that exists.
pub record IsUpdate (s : Store) (r r' : FileRecord) : Type 0 where
  pub same_id : r'.id ≡ r.id
  pub same_key : r'.key ≡ r.key
  pub grouped : (g : ℕ) → r'.group_id ≡ some g → HasGroup s.groups g

-- Every row of `files'` is a new value of the row that had its id.
abbrev pub AreUpdates : Store → BTreeMap FileRecord → Type 0
AreUpdates s files' =
    (k : ℕ) (r' : FileRecord)
    → BTreeMap.get k files' ≡ some r'
    → (r : FileRecord) × (BTreeMap.get k s.files ≡ some r) × IsUpdate s r r'
