-- ===== src/Pipeline/Lawful.antt =====
-- What a step may answer about a row: crates/core/src/pipeline.
pub mod Compared
pub mod OfSettle
pub mod OfGroup
pub mod OfSized
pub mod OfVerify
pub mod OfStep
pub mod Shared
use check_trung_video.Base.{
  ℕ, is_none, ltb, ◌==◌, String, List, [], ◌∷◌, Bool, true, false, not, ◌&&◌, ◌||◌, Option, none,
  some, Result, ok, err, is_some, ◌≡◌, refl, arith, if◌then◌else◌, Bool-cases, inl, inr, ◌⊎◌, find,
  filter,
}
use check_trung_video.Base.Int
use check_trung_video.Model.State
use check_trung_video.Model.State.{
  State, settling, sized, hashed, verified, deduped, distinct, canonical, skipped, failed, missing,
  gone,
}
use check_trung_video.Model.Records.{
  FileRecord, FileLoc, Identity, Digest, Group as GroupRow, Ts, has_special_mode, fingerprint_eq,
  identity_fingerprint, row_fingerprint, key_eq,
}
use check_trung_video.Model.Transition.{
  Transition, Patch, DedupEvent, with_other, with_event, new_transition,
}
use check_trung_video.StateTable.{is_valid}
use check_trung_video.Pipeline.Ctx.{
  FsError, not_found, other, OpenedFile, DedupeError, DedupeOutcome, same, differs, StepCtx,
  StepOutcome, apply, defer, noop, Step, hen_khung_nang,
}
use check_trung_video.Pipeline.Errno.{ChinhSach, dung, thu_lai_ngay}
use check_trung_video.Pipeline.Settle
use check_trung_video.Pipeline.Settle.{settle_buoc}
use check_trung_video.Pipeline.Requeue.{quay_ve_settling}
use check_trung_video.Pipeline.Group
use check_trung_video.Pipeline.Sized
use check_trung_video.Pipeline.Sized.{sized_buoc}
use check_trung_video.Pipeline.Verify
use check_trung_video.Pipeline.Verify.{verify_buoc}
use check_trung_video.Pipeline.Verify.Outcome

-- A rule of the table, the state that the row has, or the way back from `hashed` to `sized`.
unfoldable pub allowed : State → State → Bool
unfolding is_valid
allowed from to =
    is_valid from to || (State.eq from to || (State.eq from hashed && State.eq to sized))

-- The transition is that of the row, from the state it has, to an allowed one, and sets its time.
abbrev pub IsOwn : ℕ → State → Transition → Type 0
IsOwn id from t =
    (t.id ≡ id) × (t.from ≡ from) × (allowed from t.to ≡ true) × (is_some t.patch.ready_at ≡ true)

abbrev pub IsOwnOutcome : ℕ → State → StepOutcome → Type 0
IsOwnOutcome id from (apply t) = IsOwn id from t
IsOwnOutcome id from _ = Unit

abbrev pub IsOwnStep : ℕ → State → Step → Type 0
IsOwnStep id from (ok o) = IsOwnOutcome id from o
IsOwnStep id from (err e) = Unit

pub allowed-ket_thuc : (b : Bool) → allowed hashed (if b then deduped else verified) ≡ true
unfolding allowed
allowed-ket_thuc true = refl
allowed-ket_thuc false = refl

module _ (id : ℕ) (from : State) where
  pub if-IsOwn :
      (b : Bool) (x y : Transition)
      → IsOwn id from x
      → IsOwn id from y
      → IsOwn id from (if b then x else y)
  if-IsOwn true x y p q = p
  if-IsOwn false x y p q = q

  pub if-IsOwnStep :
      (b : Bool) (x y : Step)
      → IsOwnStep id from x
      → IsOwnStep id from y
      → IsOwnStep id from (if b then x else y)
  if-IsOwnStep true x y p q = p
  if-IsOwnStep false x y p q = q

  pub if-IsOwnOutcome :
      (b : Bool) (x y : StepOutcome)
      → IsOwnOutcome id from x
      → IsOwnOutcome id from y
      → IsOwnOutcome id from (if b then x else y)
  if-IsOwnOutcome true x y p q = p
  if-IsOwnOutcome false x y p q = q
