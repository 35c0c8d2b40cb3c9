-- ===== src/Model/Records.antt =====
-- The records of crates/core/src/model.rs.
--
-- An array of bytes is the number with those base-256 digits, the first byte lowest: the program
-- copies and compares arrays, and `from_parts` and `as_bytes` are all that looks inside. A path is
-- the list of its components, by which Rust compares paths. Row ids, which the store allocates
-- upward from 1, and the other unsigned fields are natural numbers; a time is an `i64`.
use check_trung_video.Base.{
  ℕ, ◌+◌, ◌*◌, ◌/◌, ◌%◌, ◌^◌, String, List, [], ◌∷◌, Option, Bool, true, false, not, ◌&&◌, ◌||◌,
  ◌==◌, str_eq,
}
use check_trung_video.Base.Int
use check_trung_video.Base.Int.{ℤ}
use check_trung_video.Model.State.{State}
use check_trung_video.Model.RootKind
use check_trung_video.Model.RootKind.{RootKind}
use check_trung_video.Model.Backend.{Backend}
use check_trung_video.Model.ScanPhase.{ScanPhase}
use Prim.Native.Nat.{bit_and}

-- Milliseconds since the epoch
abbrev pub Ts : Type 0
Ts = ℤ

abbrev pub DomainId : Type 0
DomainId = ℕ

abbrev pub SubId : Type 0
SubId = ℕ

-- `[u8; 32]`
abbrev pub Digest : Type 0
Digest = ℕ

-- The eight little-endian bytes of `hi`, then those of `lo`.
unfoldable pub from_parts : ℕ → ℕ → DomainId
from_parts hi lo = hi + lo * 2 ^ 64

-- `id.as_bytes()[i]`
unfoldable pub as_byte : DomainId → ℕ → ℕ
as_byte id i = id / 256 ^ i % 256

pub record FileKey : Type 0 where
  pub sub_id : SubId
  pub ino : ℕ

abbrev pub key_eq : FileKey → FileKey → Bool
key_eq a b = a.sub_id == b.sub_id && a.ino == b.ino

abbrev pub FilePath : Type 0
FilePath = List String

unfoldable pub path_eq : FilePath → FilePath → Bool
path_eq [] [] = true
path_eq (a ∷ p) (b ∷ q) = str_eq a b && path_eq p q
path_eq _ _ = false

-- `p.starts_with(dir)`
unfoldable pub path_starts_with : FilePath → FilePath → Bool
path_starts_with p [] = true
path_starts_with [] (b ∷ dir) = false
path_starts_with (a ∷ p) (b ∷ dir) = str_eq a b && path_starts_with p dir

pub record FileLoc : Type 0 where
  pub root_id : ℕ
  pub rel_path : FilePath

abbrev pub loc_eq : FileLoc → FileLoc → Bool
loc_eq a b = a.root_id == b.root_id && path_eq a.rel_path b.rel_path

pub record Fingerprint : Type 0 where
  pub size : ℕ
  pub mtime_ns : ℤ
  pub ctime_ns : ℤ

-- derived `==`
unfoldable pub fingerprint_eq : Fingerprint → Fingerprint → Bool
fingerprint_eq a b =
    a.size == b.size && Int.eq a.mtime_ns b.mtime_ns && Int.eq a.ctime_ns b.ctime_ns

-- On a remote root `ctime` is not compared.
unfoldable pub matches : Fingerprint → Fingerprint → RootKind → Bool
matches a b kind =
    a.size == b.size
    && Int.eq a.mtime_ns b.mtime_ns
    && (not (RootKind.uses_ctime kind) || Int.eq a.ctime_ns b.ctime_ns)

pub record Identity : Type 0 where
  pub key : FileKey
  pub domain_id : DomainId
  pub size : ℕ
  pub mtime_ns : ℤ
  pub ctime_ns : ℤ
  pub atime_ns : ℤ
  pub nlink : ℕ
  pub uid : ℕ
  pub mode : ℕ
  pub blocks : ℕ
  pub dev : ℕ

-- `Identity::fingerprint`
abbrev pub identity_fingerprint : Identity → Fingerprint
identity_fingerprint i = record { size = i.size; mtime_ns = i.mtime_ns; ctime_ns = i.ctime_ns }

-- `S_ISUID | S_ISGID`
unfoldable pub has_special_mode : Identity → Bool
has_special_mode i = not (bit_and i.mode 0o6000 == 0)

-- A row of the table `files`.
pub record FileRecord : Type 0 where
  pub id : ℕ
  pub key : FileKey
  pub domain_id : DomainId
  pub loc : FileLoc
  pub owner_uid : ℕ
  pub mode : ℕ
  pub size : ℕ
  pub mtime_ns : ℤ
  pub ctime_ns : ℤ
  pub nlink : ℕ
  pub state : State
  pub prev_state : Option State
  pub ready_at : Option Ts
  pub priority : ℕ
  pub heavy_wait_since : Option Ts
  pub attempts : ℕ
  pub last_error : Option String
  pub skip_reason : Option String
  pub enq : Option Fingerprint
  pub magic_ok : Option Bool
  pub sparse_hash : Option Digest
  pub hash_version : Option ℕ
  pub full_hash : Option Digest
  pub duration_ms : Option ℕ
  pub probe_status : Option String
  pub group_id : Option ℕ
  pub first_seen_at : Ts
  pub last_seen_at : Ts
  pub updated_at : Ts

-- `FileRecord::fingerprint`: of the last processed result
abbrev pub row_fingerprint : FileRecord → Fingerprint
row_fingerprint r = record { size = r.size; mtime_ns = r.mtime_ns; ctime_ns = r.ctime_ns }

-- A row of the table `content_groups`.
pub record Group : Type 0 where
  pub id : ℕ
  pub domain_id : DomainId
  pub size : ℕ
  pub sparse_hash : Digest
  pub hash_version : ℕ
  pub full_hash : Option Digest
  pub canonical_file_id : Option ℕ
  pub verified_at : Option Ts
  pub created_at : Ts

-- A row of the table `volumes`.
pub record Volume : Type 0 where
  pub id : ℕ
  pub domain_id : DomainId
  pub fstype : String
  pub mount : FilePath
  pub backend : Backend
  pub dest_needs_write : Bool
  pub supports_lease : Option Bool
  pub fs_version : Option String
  pub kernel : Option String
  pub probed_at : Option Ts
  pub probe_error : Option String

-- A row of the table `roots`.
pub record Root : Type 0 where
  pub id : ℕ
  pub path : FilePath
  pub domain_id : DomainId
  pub kind : RootKind
  pub label : Option String
  pub windows_unc : Option String
  pub active : Bool
  pub added_at : Ts

-- A row of the table `scan_progress`.
pub record ScanProgress : Type 0 where
  pub root_id : ℕ
  pub phase : ScanPhase
  pub last_completed_dir : Option FilePath
  pub started_at : Option Ts
  pub finished_at : Option Ts
  pub last_reconcile_done : Option Ts
  pub last_presence_scan : Option Ts
