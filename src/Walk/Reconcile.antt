-- ===== src/Walk/Reconcile.antt =====
-- The delta reconcile: crates/core/src/walk/reconcile.rs.
use check_trung_video.Base.{
  ℕ, ◌+◌, ◌==◌, ==_iff, Option, none, some, Bool, true, false, not, is_some, unwrap_or, opt_map,
  Result, ok, err, if◌then◌else◌, ◌≡◌, refl, ap, arith,
}
use check_trung_video.Base.Int.{ℤ}
use check_trung_video.Base.BTreeMap
use check_trung_video.Base.BTreeMap.{get-insert}
use check_trung_video.Model.Records.{Ts, FileLoc, Identity, ScanProgress}
use check_trung_video.Memory.{Store, RepoError}
use check_trung_video.Memory.Queue.{UpsertResult, upsert_pending}
use check_trung_video.Memory.Meta.{scan_progress_set}
use check_trung_video.Memory.Inv.{Inv}
use check_trung_video.Memory.Inv.Queue.{upsert_pending-Inv}
use check_trung_video.Pipeline.Ctx.{FsError}
use check_trung_video.Filter.{check_path, check}
use check_trung_video.Scan.{khoi_dau, ctime_sau_nguong, tien_do_moi, priority_reconcile}
use check_trung_video.Walk.{BoXuLy, WalkCall, file, xong_thu_muc, xong_root, bi_cat}

pub record DeltaReconcile : Type 0 where
  pub nguong : Ts
  pub started : Ts
  pub settle_delay_ms : ℤ
  pub so_upsert : ℕ
  pub so_bo_qua : ℕ

abbrev pub moi : Ts → Ts → ℤ → DeltaReconcile
moi nguong started settle_delay_ms = record {
  nguong = nguong;
  started = started;
  settle_delay_ms = settle_delay_ms;
  so_upsert = 0;
  so_bo_qua = 0;
}

-- The answer, with the handler and the store that are left.
abbrev pub Walked : Type 0
Walked = Result RepoError (Unit {0}) × (DeltaReconcile × Store)

abbrev pub da_upsert : DeltaReconcile → Result RepoError UpsertResult × Store → Walked
da_upsert d (err e, s) = (err e, (d, s))
da_upsert d (ok r, s) = (ok tt, (record d { so_upsert = d.so_upsert + 1 }, s))

abbrev pub so_voi_db : Result FsError Identity → BoXuLy → DeltaReconcile → Store → FileLoc → Walked
so_voi_db (err e) b d s loc = (ok tt, (d, s))
so_voi_db (ok id) b d s loc =
    if not (ctime_sau_nguong id d.nguong)
    then (ok tt, (record d { so_bo_qua = d.so_bo_qua + 1 }, s))
    else if is_some (check b.loc b.fs.has_optout_marker loc id.size)
    then (ok tt, (d, s))
    else da_upsert d (
        upsert_pending s id loc (unwrap_or b.now (khoi_dau id b.now d.settle_delay_ms).ready_at)
          priority_reconcile b.now)

-- The row of the progress with the time at which this run began; a row is not made.
abbrev pub ghi_xong : Option ScanProgress → BoXuLy → DeltaReconcile → Store → Store
ghi_xong none b d s = s
ghi_xong (some cu) b d s =
    scan_progress_set s
      (record (tien_do_moi (some cu) b.root_id) { last_reconcile_done = some d.started })

unfoldable pub xu_ly_entry : BoXuLy → WalkCall → DeltaReconcile → Store → Walked
unfolding check check_path khoi_dau ctime_sau_nguong upsert_pending scan_progress_set BTreeMap.get
xu_ly_entry b (file loc so_bo) d s =
    if is_some (check_path b.loc loc.rel_path so_bo)
    then (ok tt, (d, s))
    else so_voi_db (b.fs.statx loc) b d s loc
xu_ly_entry b (xong_thu_muc dir) d s = (ok tt, (d, s))
xu_ly_entry b xong_root d s = (ok tt, (d, ghi_xong (BTreeMap.get b.root_id s.scan) b d s))
xu_ly_entry b bi_cat d s = (ok tt, (d, s))

-- The progress of a root after a run that has reached its end.
abbrev pub with_done : Ts → ScanProgress → ScanProgress
with_done t p = record p { last_reconcile_done = some t }

get-at :
    (m : BTreeMap.BTreeMap ScanProgress) (i j : ℕ)
    → (i == j) ≡ true
    → BTreeMap.get i m ≡ BTreeMap.get j m
get-at m i j t = ap (λ x. BTreeMap.get x m) ((==_iff i j).0 t)

ghi_xong-scan :
    (o : Option ScanProgress) (b : BoXuLy) (d : DeltaReconcile) (s : Store) (j : ℕ)
    → BTreeMap.get b.root_id s.scan ≡ o
    → ((p : ScanProgress) → o ≡ some p → p.root_id ≡ b.root_id)
    → BTreeMap.get j (ghi_xong o b d s).scan ≡ (
        if b.root_id == j
        then opt_map (with_done d.started) (BTreeMap.get j s.scan)
        else BTreeMap.get j s.scan)
unfolding scan_progress_set
ghi_xong-scan none b d s j e h = ground (arith, e, get-at s.scan b.root_id j)
ghi_xong-scan (some cu) b d s j e h = ground (
  arith,
  e,
  h cu refl,
  get-at s.scan b.root_id j,
  get-insert cu.root_id j (with_done d.started cu) s.scan,
)

-- Where the row of the progress of the root names that root: at the end of the root the time at
-- which the run began is written to that row, and nothing else of it changes; where there is no such
-- row, none is made. No other root's row changes.
pub xong_root-scan :
    (b : BoXuLy) (d : DeltaReconcile) (s : Store) (j : ℕ)
    → ((p : ScanProgress) → BTreeMap.get b.root_id s.scan ≡ some p → p.root_id ≡ b.root_id)
    → BTreeMap.get j (xu_ly_entry b xong_root d s).1.1.scan ≡ (
        if b.root_id == j
        then opt_map (with_done d.started) (BTreeMap.get j s.scan)
        else BTreeMap.get j s.scan)
unfolding xu_ly_entry
xong_root-scan b d s j h = ghi_xong-scan (BTreeMap.get b.root_id s.scan) b d s j refl h

-- An entry that is compared with the store keeps the invariant.
pub so_voi_db-Inv :
    (a : Result FsError Identity) (b : BoXuLy) (d : DeltaReconcile) (s : Store) (loc : FileLoc)
    → Inv s
    → Inv (so_voi_db a b d s loc).1.1
so_voi_db-Inv (err e) b d s loc h = h
so_voi_db-Inv (ok id) b d s loc h = old (not (ctime_sau_nguong id d.nguong))
  where
    pushed : (r : Result RepoError UpsertResult × Store) → Inv r.1 → Inv (da_upsert d r).1.1
    pushed (err e, s) h = h
    pushed (ok r, s) h = h

    rest : Walked
    rest = da_upsert d (
        upsert_pending s id loc (unwrap_or b.now (khoi_dau id b.now d.settle_delay_ms).ready_at)
          priority_reconcile b.now)

    wanted : (c : Bool) → Inv (if c then (ok tt, (d, s)) else rest).1.1
    wanted true = h
    wanted false =
        pushed
          (upsert_pending s id loc (unwrap_or b.now (khoi_dau id b.now d.settle_delay_ms).ready_at)
            priority_reconcile b.now)
          (upsert_pending-Inv s id loc _ _ _ h)

    old :
        (c : Bool)
        → Inv
            (if c
              then (ok tt, (record d { so_bo_qua = d.so_bo_qua + 1 }, s))
              else if is_some (check b.loc b.fs.has_optout_marker loc id.size)
              then (ok tt, (d, s))
              else rest).1.1
    old true = h
    old false = wanted (is_some (check b.loc b.fs.has_optout_marker loc id.size))
