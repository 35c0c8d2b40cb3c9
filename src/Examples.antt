-- ===== src/Examples.antt =====
-- Concrete stores, files and rounds at which the theorems are applied.
use check_trung_video.Base.{
  ℕ, String, List, [], ◌∷◌, Bool, true, false, false≢true, ◌≢◌, sym, ap, ◌∙◌, Option, none, some,
  Result, ok, err, ◌≡◌, refl, if◌then◌else◌, leb, ◌+◌, ◌⊎◌,
}
use check_trung_video.Base.Int
use check_trung_video.Base.Int.{ℤ, pos}
use check_trung_video.Base.BTreeMap
use check_trung_video.Model.State
use check_trung_video.Model.State.{
  State, settling, sized, hashed, verified, deduped, distinct, canonical, missing, gone,
}
use check_trung_video.Model.RootKind.{local}
use check_trung_video.Model.EventMethod
use check_trung_video.Model.EventResult
use check_trung_video.Model.Records.{FileLoc, FileRecord, Group, Identity, Root}
use check_trung_video.Model.Transition.{
  Transition, empty_patch, new_transition, new_event, with_event,
}
use check_trung_video.StateTable.{backoff_ms}
use check_trung_video.Rules.{is_ready, new_row}
use check_trung_video.Memory.{Store, RepoError, empty_store}
use check_trung_video.Memory.Reach
use check_trung_video.Memory.Reach.{Call, run, run-Inv}
use check_trung_video.Memory.Inv.{Inv}
use check_trung_video.Memory.Queue.{next_ready, queue_less}
use check_trung_video.Memory.Queue.Order.{next_ready-none}
use check_trung_video.Memory.Apply
use check_trung_video.Memory.Apply.{move_row, set_group, raced_note, check_all, passes}
use check_trung_video.Memory.Apply.Laws.{Noted, apply-raced}
use check_trung_video.Memory.Misc.{purge}
use check_trung_video.Pipeline
use check_trung_video.Pipeline.Ctx.{
  FsError, other, os_error, OpenedFile, FileSystem, same, Deduper, StepCtx, apply, Step,
}
use check_trung_video.Pipeline.Lawful.{IsOwn}
use check_trung_video.Pipeline.Lawful.OfStep.{step-IsOwn}
use check_trung_video.Pipeline.Lawful.Compared.{Compared}
use check_trung_video.Pipeline.Lawful.Shared.{step-Compared}
use check_trung_video.Pipeline.Heavy.{with_files, step-light}
use check_trung_video.Pipeline.Verify.Outcome
use check_trung_video.Pipeline.Verify.Outcome.{khac_nhau}
use check_trung_video.Pipeline.Verify.Differs.{IsNext, IsOwnGroup, khac_nhau-IsNext}
use check_trung_video.Memory.Lookup.{same_domain}
use check_trung_video.Memory.Queue
use check_trung_video.Memory.Misc
use check_trung_video.Worker.{chay, mot_vong}
use check_trung_video.Worker.Progress.{IsOver, chay-Inv, chay-ends, mot_vong-error}

abbrev pub id_of : ℕ → ℤ → Identity
id_of ino mtime = record {
  key = record { sub_id = 7; ino = ino };
  domain_id = 9;
  size = 4096;
  mtime_ns = mtime;
  ctime_ns = mtime;
  atime_ns = mtime;
  nlink = 1;
  uid = 1000;
  mode = 0o644;
  blocks = 8;
  dev = 1;
}

abbrev pub loc_of : ℕ → String → FileLoc
loc_of root name = record { root_id = root; rel_path = name ∷ [] }

abbrev root_one : Root
root_one = record {
  id = 0;
  path = "srv" ∷ [];
  domain_id = 9;
  kind = local;
  label = none;
  windows_unc = none;
  active = true;
  added_at = pos 0;
}

-- A root and a file that is written to it.
abbrev pub calls : List Call
calls =
    Reach.root_upsert root_one (pos 0)
    ∷ Reach.upsert_pending (id_of 1 (pos 5)) (loc_of 1 "a.mp4") (pos 10) 0 (pos 0)
    ∷ []

abbrev pub store_one : Store
store_one = run calls empty_store

abbrev pub row_one : FileRecord
row_one = new_row 2 (id_of 1 (pos 5)) (loc_of 1 "a.mp4") (pos 10) 0 (pos 0)

abbrev pub row_in : State → FileRecord
row_in st = record row_one { state = st }

run-Inv_example : Inv (run calls empty_store)
run-Inv_example = run-Inv calls

abbrev file_of : Identity → OpenedFile
file_of id = record {
  identity = id;
  refresh_identity = ok id;
  has_hole = ok false;
  cho_qua = λ loc. ok true;
  sparse_hash = λ n. ok 77;
}

-- The file of the inode with the number of the root.
abbrev opened : FileLoc → Result FsError OpenedFile
opened loc = ok (file_of (id_of loc.root_id (pos 5)))

abbrev files_one : FileSystem
files_one = record {
  open_file = opened;
  open_rw = opened;
  statx = λ loc. err (other (os_error false (some (pos 5))) "EIO");
  has_optout_marker = λ root_id dir. false;
}

abbrev deduper_one : Deduper
deduper_one = record {
  dedupe = λ a b n. ok (same n);
  name = "fideduperange";
  dest_needs_write = true;
  shares_extents = true;
}

abbrev ctx_in : Store → Bool → StepCtx
ctx_in s heavy = record {
  store = s;
  fs = files_one;
  deduper = deduper_one;
  scope = same_domain;
  max_size_group = 50;
  verify_max_size = 0;
  settle_delay = pos 30;
  now = pos 100;
  allow_heavy = heavy;
  next_heavy_at = none;
  display_number = λ n. "0";
  display_error = λ e. "error";
}

abbrev pub hour : ℤ
hour = pos 3_600_000

mot_vong-error_example :
    (r : FileRecord) × (BTreeMap.get 2 (mot_vong (ctx_in store_one true) hour).1.files ≡ some r)
    × (r.attempts ≡ 0 + 1)
    × (r.last_error ≡ some "EIO")
    × (r.state ≡ (if leb 8 (0 + 1) then State.failed else settling))
    × (r.ready_at
        ≡ (if leb 8 (0 + 1) then none else some (Int.add_i64 (pos 100) (backoff_ms (0 + 1)))))
unfolding run next_ready Pipeline.step new_row Queue.upsert_pending Misc.root_upsert
mot_vong-error_example =
    mot_vong-error (ctx_in store_one true) hour row_one "EIO" (run-Inv calls) refl refl

next_ready-none_example : is_ready row_one (pos 1) true hour ≡ false
unfolding run next_ready new_row Queue.upsert_pending BTreeMap.get Misc.root_upsert
next_ready-none_example =
    next_ready-none store_one (pos 1) true hour 2 row_one (run-Inv calls) refl refl

chay-Inv_example :
    (r : Result RepoError ℕ × Store) × (chay
        (λ n. ctx_in store_one true)
        hour
        (λ n. false)
        3
        store_one
      ≡ some r)
    × Inv r.1
chay-Inv_example =
    chay-Inv (λ n. ctx_in store_one true) hour (λ n. false) 3 store_one (run-Inv calls)

chay-ends_example :
    (r : Result RepoError ℕ × Store) × (chay
        (λ n. ctx_in store_one true)
        hour
        (λ n. false)
        3
        store_one
      ≡ some r)
    × IsOver (λ n. ctx_in store_one true) hour (λ n. false) 3 r
chay-ends_example = chay-ends (λ n. ctx_in store_one true) hour (λ n. false) 3 store_one

abbrev to_sized : Transition
to_sized =
    with_event (new_event (pos 100) EventMethod.dry_run EventResult.same)
      (new_transition 2 settling sized empty_patch (pos 100))

abbrev to_hashed : Transition
to_hashed =
    with_event (new_event (pos 100) EventMethod.dry_run EventResult.same)
      (new_transition 2 sized hashed empty_patch (pos 100))

abbrev is_settling : Option FileRecord → Bool
is_settling none = true
is_settling (some r) = State.eq r.state settling

settling_not_sized : (r : FileRecord) → BTreeMap.get 2 store_one.files ≡ some r → r.state ≢ sized
unfolding run new_row BTreeMap.get Queue.upsert_pending Misc.root_upsert
settling_not_sized r e q = false≢true (sym (ap is_settling e ∙ ap (λ s. State.eq s settling) q))

apply-raced_example :
    ((Apply.apply store_one to_hashed).0 ≡ ok false)
    × ((Apply.apply store_one to_hashed).1.files ≡ store_one.files)
    × ((Apply.apply store_one to_hashed).1.groups ≡ store_one.groups)
    × Noted to_hashed.event store_one.events (Apply.apply store_one to_hashed).1.events
unfolding run new_row check_all BTreeMap.get Queue.upsert_pending Misc.root_upsert
apply-raced_example = apply-raced store_one to_hashed refl (λ r e. settling_not_sized r e)

khac_nhau-IsNext_example :
    (t : Transition) × (khac_nhau (ctx_in store_one true) (row_in hashed) (row_in canonical) 3 0 77
      ≡ apply t)
    × (t.id ≡ 2)
    × (IsNext (ctx_in store_one true) (row_in hashed) 3 77 t
        ⊎ IsOwnGroup (ctx_in store_one true) (row_in hashed) 3 77 t)
unfolding new_row
khac_nhau-IsNext_example =
    khac_nhau-IsNext (ctx_in store_one true) (row_in hashed) (row_in canonical) 3 0 77
      (run-Inv calls)

-- A group of two files, the second of which has been hashed.
abbrev member : ℕ → State → FileRecord
member n st = record (new_row n (id_of n (pos 5)) (loc_of n "a.mp4") (pos 10) 0 (pos 0)) {
  state = st;
  sparse_hash = some 77;
  group_id = some 3;
}

abbrev group_one : Group
group_one = record {
  id = 3;
  domain_id = 9;
  size = 4096;
  sparse_hash = 77;
  hash_version = 1;
  full_hash = none;
  canonical_file_id = some 1;
  verified_at = none;
  created_at = pos 0;
}

abbrev store_two : Store
store_two = record empty_store {
  next_id = 3;
  files = (1, member 1 canonical) ∷ (2, member 2 hashed) ∷ [];
  groups = (3, group_one) ∷ [];
}

abbrev transition_of : Step → Transition
transition_of (ok (apply t)) = t
transition_of _ = new_transition 0 settling settling empty_patch (pos 0)

unfoldable dedupe_round : Transition
unfolding Pipeline.step new_row
dedupe_round = transition_of (Pipeline.step (ctx_in store_two true) (member 2 hashed))

step-Compared_example :
    Compared (ctx_in store_two true) (member 2 hashed)
    × (dedupe_round.to ≡ Outcome.ket_thuc (ctx_in store_two true))
unfolding Pipeline.step new_row dedupe_round
step-Compared_example =
    step-Compared (ctx_in store_two true) (member 2 hashed) dedupe_round refl refl

step-IsOwn_example : IsOwn 2 hashed dedupe_round
unfolding Pipeline.step new_row dedupe_round
step-IsOwn_example = step-IsOwn (ctx_in store_two true) (member 2 hashed) dedupe_round refl

step-light_example :
    Pipeline.step
      (with_files
        (λ l. err (other (os_error false none) "x"))
        (λ l. err (other (os_error false none) "x"))
        deduper_one
        (ctx_in store_two false))
      (member 2 hashed)
    ≡ Pipeline.step (ctx_in store_two false) (member 2 hashed)
unfolding new_row
step-light_example =
    step-light (λ l. err (other (os_error false none) "x"))
      (λ l. err (other (os_error false none) "x")) deduper_one (ctx_in store_two false)
      (member 2 hashed) refl (λ e. cc e)
