-- ===== src/Pipeline/Lawful/Compared.antt =====
-- What is known of a pair of files when crates/core/src/pipeline/verify.rs lets the deduper compare
-- them.
use check_trung_video.Base.{
  ℕ, ltb, ◌==◌, Bool, true, false, not, Option, some, Result, ok, ◌≡◌, arith, ◌≤◌, In, opt_eq,
  if◌then◌else◌,
}
use check_trung_video.Base.BTreeMap
use check_trung_video.Model.State.{State, verified, deduped}
use check_trung_video.Model.Records.{
  FileRecord, Group as GroupRow, has_special_mode, fingerprint_eq, identity_fingerprint,
  row_fingerprint, key_eq,
}
use check_trung_video.Pipeline.Ctx.{FsError, OpenedFile, same, StepCtx}

-- The states that say that the content is the canonical's.
abbrev pub says_same : State → Bool
says_same verified = true
says_same deduped = true
says_same _ = false

abbrev pub open_row : StepCtx → FileRecord → Result FsError OpenedFile
open_row ctx rec =
    if ctx.deduper.dest_needs_write then ctx.fs.open_rw rec.loc else ctx.fs.open_file rec.loc

-- `c` is the canonical of the row's group: a row of the store that is in the group and that the group
-- names.
pub record IsCanonicalOf (ctx : StepCtx) (rec c : FileRecord) : Type 0 where
  pub g : ℕ
  pub group : GroupRow
  pub in_group : rec.group_id ≡ some g
  pub group_stored : BTreeMap.get g ctx.store.groups ≡ some group
  pub named : group.canonical_file_id ≡ some c.id
  pub member : c.group_id ≡ some g
  pub stored : In c (BTreeMap.values ctx.store.files)

-- The file has the size and the two times that the store has for the row.
abbrev pub IsUnchanged : OpenedFile → FileRecord → Type 0
IsUnchanged f r =
    (f.identity.size ≡ r.size)
    × (f.identity.mtime_ns ≡ r.mtime_ns)
    × (f.identity.ctime_ns ≡ r.ctime_ns)

-- The canonical `c` of the row's group and the row were opened and are the files that the store
-- knows, are two files of one size, the row's has one link and no special mode, and the deduper found
-- them to be the same.
pub record Compared (ctx : StepCtx) (rec : FileRecord) : Type 0 where
  pub c : FileRecord
  pub canonical_of : IsCanonicalOf ctx rec c
  pub a : OpenedFile
  pub b : OpenedFile
  pub bytes_shared : ℕ
  pub opened_a : ctx.fs.open_file c.loc ≡ ok a
  pub opened_b : open_row ctx rec ≡ ok b
  pub known_a : IsUnchanged a c
  pub known_b : IsUnchanged b rec
  pub one_link : b.identity.nlink ≤ 1
  pub plain_mode : has_special_mode b.identity ≡ false
  pub two_files : key_eq a.identity.key b.identity.key ≡ false
  pub one_size : a.identity.size ≡ b.identity.size
  pub answer : ctx.deduper.dedupe a b b.identity.size ≡ ok (same bytes_shared)

pub known-IsUnchanged :
    (f : OpenedFile) (r : FileRecord)
    → not (fingerprint_eq (identity_fingerprint f.identity) (row_fingerprint r)) ≡ false
    → IsUnchanged f r
unfolding fingerprint_eq
known-IsUnchanged f r h = ground arith

pub links_le : (n : ℕ) → ltb 1 n ≡ false → n ≤ 1
links_le n h = ground arith

pub same_size : (m n : ℕ) → not (m == n) ≡ false → m ≡ n
same_size m n h = ground arith

pub member_of : (o : Option ℕ) (g : ℕ) → opt_eq ◌==◌ o (some g) ≡ true → o ≡ some g
member_of o g h = ground arith
