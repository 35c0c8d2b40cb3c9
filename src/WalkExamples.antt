-- ===== src/WalkExamples.antt =====
-- Concrete runs of the walks, the filter, the blocks of the sparse hash and the limits of inotify.
use check_trung_video.Base.{
  ℕ, ◌*◌, ◌^◌, ◌-◌, min, ◌/◌, ◌≤◌, [], ◌∷◌, true, none, some, here, ◌↔◌, ◌≡◌, refl, ap, sym,
  unwrap_or, opt_map, if◌then◌else◌, ◌==◌, arith,
}
use check_trung_video.Base.Int.{pos}
use check_trung_video.Memory.Prefix.{noi_duong_dan}
use check_trung_video.Memory.Reach.{run, run-Inv}
use check_trung_video.Filter.{check_path}
use check_trung_video.Filter.Passed.{IsCandidate, check_path-none}
use check_trung_video.Hash.{HashParams, cac_doan}
use check_trung_video.Hash.Blocks.{IsCover, cac_doan-IsCover}
use check_trung_video.Sysctl.{thieu_watch, can_nang}
use check_trung_video.Sysctl.Raise.{can_nang-ends}
use check_trung_video.Scan.{nen_bo_qua}
use check_trung_video.Scan.Skip.{IsBefore, nen_bo_qua-IsBefore}
use check_trung_video.Base.BTreeMap
use check_trung_video.Model.ScanPhase
use check_trung_video.Model.Records.{ScanProgress}
use check_trung_video.Model.State.{settling}
use check_trung_video.Model.Transition.{ScanRow}
use check_trung_video.Memory.{Store, root_unknown}
use check_trung_video.Memory.Queue
use check_trung_video.Memory.Misc
use check_trung_video.Walk.{BoXuLy, file, xong_root}
use check_trung_video.Walk.HangDoi
use check_trung_video.Walk.HangDoi.{ThemVaoHangDoi}
use check_trung_video.Walk.HangDoi.Commit.{IsSafe, IsKept, xu_ly_entry-IsSafe, xu_ly_entry-err}
use check_trung_video.Walk.Reconcile
use check_trung_video.Walk.Reconcile.{with_done, xong_root-scan}
use check_trung_video.Examples.{id_of, loc_of, calls, store_one}
use check_trung_video.HandlerExamples.{filter_one, files_there}

check_path-none_example :
    (check_path filter_one ("phim" ∷ "a.MP4" ∷ []) 20 ≡ none)
    ↔ IsCandidate filter_one ("phim" ∷ "a.MP4" ∷ []) 20
check_path-none_example = check_path-none filter_one ("phim" ∷ "a.MP4" ∷ []) 20

check_path_test : check_path filter_one ("phim" ∷ "a.MP4" ∷ []) 20 ≡ none
unfolding check_path
check_path_test = refl

abbrev params_one : HashParams
params_one = record { chunks = 4; chunk_len = 4_096 }

cac_doan-IsCover_example : IsCover 4 1_000_000 (cac_doan params_one 1_000_000)
cac_doan-IsCover_example = cac_doan-IsCover params_one 1_000_000 (omega arith) (omega arith)

can_nang-ends_example :
    (v : ℕ) × (can_nang 100_000 8_192 ≡ some v)
    × (8_192 ≤ v)
    × (8_192 ≤ v)
    × (min (100_000 * 12) (2 ^ 64 - 1) / 10 ≤ v)
unfolding thieu_watch
can_nang-ends_example = can_nang-ends 100_000 8_192 refl

-- The number that is proposed can still be one that does not suffice: what is needed is rounded down.
can_nang_test : (can_nang 6_827 8_192 ≡ some 8_192) × (thieu_watch 6_827 8_192 ≡ true)
unfolding can_nang
can_nang_test = (refl, refl)

nen_bo_qua-IsBefore_example :
    (nen_bo_qua ("a" ∷ "b" ∷ []) ("a-b" ∷ "c" ∷ []) ≡ true)
    ↔ IsBefore ("a" ∷ "b" ∷ []) ("a-b" ∷ "c" ∷ [])
nen_bo_qua-IsBefore_example = nen_bo_qua-IsBefore ("a" ∷ "b" ∷ []) ("a-b" ∷ "c" ∷ [])

-- A `\` in the name of a file becomes a separator.
noi_duong_dan_test : noi_duong_dan ("b" ∷ "c" ∷ []) ("d\\e" ∷ []) ≡ "b" ∷ "c" ∷ "d" ∷ "e" ∷ []
unfolding noi_duong_dan
noi_duong_dan_test = refl

abbrev scanned_in : ℕ → ScanRow
scanned_in root = record {
  id = id_of 9 (pos 5);
  loc = loc_of root "z.mp4";
  state = settling;
  ready_at = none;
  priority = 2;
}

abbrev batch_in : ℕ → ThemVaoHangDoi
batch_in root = record (HangDoi.moi (pos 900_000) 2) {
  lo = scanned_in root ∷ [];
  con_tro = record { cho_commit = some ("phim" ∷ []); an_toan = none };
}

abbrev walk_one : BoXuLy
walk_one = record { fs = files_there; loc = filter_one; root_id = 0; now = pos 1_000 }

xu_ly_entry-IsSafe_example :
    IsSafe
      (batch_in 0)
      (scanned_in 0)
      (HangDoi.xu_ly_entry walk_one (file (loc_of 3 "y.mp4") 20) (batch_in 0) store_one)
xu_ly_entry-IsSafe_example =
    xu_ly_entry-IsSafe walk_one (file (loc_of 3 "y.mp4") 20) (batch_in 0) store_one
      {r = scanned_in 0} (run-Inv calls) here

xu_ly_entry-err_example :
    IsKept (batch_in 8) store_one (HangDoi.xu_ly_entry walk_one xong_root (batch_in 8) store_one)
unfolding HangDoi.xu_ly_entry BTreeMap.get run Queue.upsert_pending Misc.root_upsert
xu_ly_entry-err_example =
    xu_ly_entry-err walk_one xong_root (batch_in 8) store_one {e = root_unknown 8} refl

abbrev progress_one : ScanProgress
progress_one = record {
  root_id = 0;
  phase = ScanPhase.done;
  last_completed_dir = some ("phim" ∷ []);
  started_at = some (pos 1);
  finished_at = some (pos 2);
  last_reconcile_done = none;
  last_presence_scan = none;
}

abbrev store_scanned : Store
store_scanned = record store_one { scan = (0, progress_one) ∷ [] }

xong_root-scan_example :
    BTreeMap.get 0
      (Reconcile.xu_ly_entry walk_one xong_root
        (Reconcile.moi (pos 0) (pos 77) (pos 900_000))
        store_scanned).1.1.scan
    ≡ (if 0 == 0
        then opt_map (with_done (pos 77)) (BTreeMap.get 0 store_scanned.scan)
        else BTreeMap.get 0 store_scanned.scan)
unfolding BTreeMap.get
xong_root-scan_example =
    xong_root-scan walk_one (Reconcile.moi (pos 0) (pos 77) (pos 900_000)) store_scanned 0
      (λ p e. sym (ap (λ o. ScanProgress.root_id (unwrap_or progress_one o)) e))
