-- ===== src/Model/Enum/RoundTrip.antt =====
-- Printing and parsing the enumerations of crates/core/src/model.rs and crates/core/src/repo/types.rs.
use check_trung_video.Base.{String, ok, ◌≡◌, refl}
use check_trung_video.Model.Enum.{as_str-from_str}
use check_trung_video.Model.State
use check_trung_video.Model.State.{State}
use check_trung_video.Model.Backend
use check_trung_video.Model.Backend.{Backend}
use check_trung_video.Model.RootKind
use check_trung_video.Model.RootKind.{RootKind}
use check_trung_video.Model.ScanPhase
use check_trung_video.Model.ScanPhase.{ScanPhase}
use check_trung_video.Model.JournalState
use check_trung_video.Model.JournalState.{JournalState}
use check_trung_video.Model.EventMethod
use check_trung_video.Model.EventMethod.{EventMethod}
use check_trung_video.Model.EventResult
use check_trung_video.Model.EventResult.{EventResult}

state_name-read : (s : State) → State.from_str (State.as_str s) ≡ ok s
unfolding State.from_str
state_name-read State.settling = refl
state_name-read State.sized = refl
state_name-read State.hashed = refl
state_name-read State.verified = refl
state_name-read State.deduped = refl
state_name-read State.distinct = refl
state_name-read State.canonical = refl
state_name-read State.skipped = refl
state_name-read State.failed = refl
state_name-read State.missing = refl
state_name-read State.gone = refl

backend_name-read : (s : Backend) → Backend.from_str (Backend.as_str s) ≡ ok s
unfolding Backend.from_str
backend_name-read Backend.kernel_dedupe = refl
backend_name-read Backend.verified_clone = refl
backend_name-read Backend.unsupported = refl
backend_name-read Backend.unknown = refl
backend_name-read Backend.unprobed = refl

rootkind_name-read : (s : RootKind) → RootKind.from_str (RootKind.as_str s) ≡ ok s
unfolding RootKind.from_str
rootkind_name-read RootKind.local = refl
rootkind_name-read RootKind.remote = refl

scanphase_name-read : (s : ScanPhase) → ScanPhase.from_str (ScanPhase.as_str s) ≡ ok s
unfolding ScanPhase.from_str
scanphase_name-read ScanPhase.a = refl
scanphase_name-read ScanPhase.b = refl
scanphase_name-read ScanPhase.done = refl

journalstate_name-read : (s : JournalState) → JournalState.from_str (JournalState.as_str s) ≡ ok s
unfolding JournalState.from_str
journalstate_name-read JournalState.planned = refl
journalstate_name-read JournalState.compared = refl
journalstate_name-read JournalState.cloned = refl
journalstate_name-read JournalState.done = refl
journalstate_name-read JournalState.aborted = refl

eventmethod_name-read : (s : EventMethod) → EventMethod.from_str (EventMethod.as_str s) ≡ ok s
unfolding EventMethod.from_str
eventmethod_name-read EventMethod.fideduperange = refl
eventmethod_name-read EventMethod.verified_clone = refl
eventmethod_name-read EventMethod.dry_run = refl
eventmethod_name-read EventMethod.fiemap = refl
eventmethod_name-read EventMethod.undo = refl

eventresult_name-read : (s : EventResult) → EventResult.from_str (EventResult.as_str s) ≡ ok s
unfolding EventResult.from_str
eventresult_name-read EventResult.same = refl
eventresult_name-read EventResult.differs = refl
eventresult_name-read EventResult.error = refl
eventresult_name-read EventResult.skipped = refl

-- The name of a value of each of the enumerations parses back to that value.
pub from_str-as_str :
    ((s : State) → State.from_str (State.as_str s) ≡ ok s)
    × ((s : Backend) → Backend.from_str (Backend.as_str s) ≡ ok s)
    × ((s : RootKind) → RootKind.from_str (RootKind.as_str s) ≡ ok s)
    × ((s : ScanPhase) → ScanPhase.from_str (ScanPhase.as_str s) ≡ ok s)
    × ((s : JournalState) → JournalState.from_str (JournalState.as_str s) ≡ ok s)
    × ((s : EventMethod) → EventMethod.from_str (EventMethod.as_str s) ≡ ok s)
    × ((s : EventResult) → EventResult.from_str (EventResult.as_str s) ≡ ok s)
from_str-as_str = (
  state_name-read, backend_name-read, rootkind_name-read, scanphase_name-read,
  journalstate_name-read, eventmethod_name-read, eventresult_name-read,
)

-- A text that parses as a value of one of the enumerations is the name of that value.
pub as_str-from_str_all :
    ((x : String) (s : State) → State.from_str x ≡ ok s → State.as_str s ≡ x)
    × ((x : String) (s : Backend) → Backend.from_str x ≡ ok s → Backend.as_str s ≡ x)
    × ((x : String) (s : RootKind) → RootKind.from_str x ≡ ok s → RootKind.as_str s ≡ x)
    × ((x : String) (s : ScanPhase) → ScanPhase.from_str x ≡ ok s → ScanPhase.as_str s ≡ x)
    × ((x : String) (s : JournalState) → JournalState.from_str x ≡ ok s → JournalState.as_str s ≡ x)
    × ((x : String) (s : EventMethod) → EventMethod.from_str x ≡ ok s → EventMethod.as_str s ≡ x)
    × ((x : String) (s : EventResult) → EventResult.from_str x ≡ ok s → EventResult.as_str s ≡ x)
unfolding State.from_str Backend.from_str RootKind.from_str ScanPhase.from_str JournalState.from_str
    EventMethod.from_str EventResult.from_str
as_str-from_str_all = (
  as_str-from_str "State" State.all State.as_str,
  as_str-from_str "Backend" Backend.all Backend.as_str,
  as_str-from_str "RootKind" RootKind.all RootKind.as_str,
  as_str-from_str "ScanPhase" ScanPhase.all ScanPhase.as_str,
  as_str-from_str "JournalState" JournalState.all JournalState.as_str,
  as_str-from_str "EventMethod" EventMethod.all EventMethod.as_str,
  as_str-from_str "EventResult" EventResult.all EventResult.as_str,
)
