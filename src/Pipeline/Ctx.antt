-- ===== src/Pipeline/Ctx.antt =====
-- What a step of the pipeline is given and what it answers: crates/core/src/pipeline/mod.rs, with
-- the interfaces of crates/core/src/fs.rs and crates/core/src/dedupe.rs that it calls.
--
-- The repository is the store itself, whose reads do not fail. An open file is what the pipeline asks
-- of it: its identity, the identity read again later, and what reading its content gives (whether it
-- has a hole, the verdict on its magic bytes, its sparse hash). An error is the text that it
-- displays, and how Rust displays a number or an error of the deduper is a field of the context.
use check_trung_video.Base.{ℕ, String, Bool, Option, Result, unwrap_or}
use check_trung_video.Base.Int
use check_trung_video.Base.Int.{ℤ, pos}
use check_trung_video.Model.Records.{Ts, Digest, FilePath, FileLoc, Identity}
use check_trung_video.Model.Transition.{Transition}
use check_trung_video.Memory.{Store}
use check_trung_video.Memory.Lookup.{Scope}

-- The other variants of an error; of an error of the system, whether its kind is
-- `PermissionDenied`, and its number.
pub data FsFault : Type 0 where
  not_regular unknown_root read_only_root unsupported : FsFault
  os_error : (permission_denied : Bool) (raw_os_error : Option ℤ) → FsFault

-- `not_found` is an error for which `is_not_found` holds.
pub data FsError : Type 0 where
  not_found : FsError
  other : FsFault → String → FsError

pub record OpenedFile : Type 0 where
  pub identity : Identity
  pub refresh_identity : Result String Identity
  pub has_hole : Result String Bool
  pub cho_qua : FileLoc → Result String Bool
  pub sparse_hash : ℕ → Result String Digest

pub record FileSystem : Type 0 where
  pub open_file : FileLoc → Result FsError OpenedFile
  pub open_rw : FileLoc → Result FsError OpenedFile
  pub statx : FileLoc → Result FsError Identity
  pub has_optout_marker : ℕ → FilePath → Bool

pub data DedupeOutcome : Type 0 where
  same : (bytes_shared : ℕ) → DedupeOutcome
  differs : (at_offset : ℕ) → DedupeOutcome

pub data DedupeError : Type 0 where
  errno : ℤ → DedupeError
  no_progress busy fingerprint_changed stopped : DedupeError
  io : String → DedupeError
  repo : String → DedupeError

pub record Deduper : Type 0 where
  pub dedupe : OpenedFile → OpenedFile → ℕ → Result DedupeError DedupeOutcome
  pub name : String
  pub dest_needs_write : Bool
  pub shares_extents : Bool

pub record StepCtx : Type 0 where
  pub store : Store
  pub fs : FileSystem
  pub deduper : Deduper
  pub scope : Scope
  pub max_size_group : ℕ
  pub verify_max_size : ℕ
  pub settle_delay : ℤ
  pub now : Ts
  pub allow_heavy : Bool
  pub next_heavy_at : Option Ts
  pub display_number : ℕ → String
  pub display_error : DedupeError → String

pub data StepOutcome : Type 0 where
  apply : Transition → StepOutcome
  defer : (until : Ts) (reason : String) → StepOutcome
  noop : StepOutcome

abbrev pub Step : Type 0
Step = Result String StepOutcome

abbrev pub hash_version_value : ℕ
hash_version_value = 1

-- Wait for the next heavy window, or a minute if there is none.
unfoldable pub hen_khung_nang : StepCtx → String → StepOutcome
hen_khung_nang ctx reason =
    defer (unwrap_or (Int.add_i64 ctx.now (pos 60_000)) ctx.next_heavy_at) reason
