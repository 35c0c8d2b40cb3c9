-- ===== src/Walk/HangDoi.antt =====
-- Phase A of the initial scan: crates/core/src/walk/hangdoi.rs.
pub mod Commit
use check_trung_video.Base.{
  ℕ, ◌+◌, leb, List, [], ◌∷◌, ◌++◌, Option, none, some, Bool, true, false, is_some, Result, ok, err,
  length, if◌then◌else◌,
}
use check_trung_video.Base.Int.{ℤ}
use check_trung_video.Model.Records.{Ts, FilePath, FileLoc, Identity}
use check_trung_video.Model.Transition.{ScanRow}
use check_trung_video.Memory.{Store, RepoError}
use check_trung_video.Memory.Queue.{scan_insert}
use check_trung_video.Pipeline.Ctx.{FsError}
use check_trung_video.Filter.{check_path, check}
use check_trung_video.Scan
use check_trung_video.Scan.{ConTro, con_tro_moi, sau_khi_commit, khoi_dau, priority_scan}
use check_trung_video.Walk.{BoXuLy, WalkCall, file, xong_thu_muc, xong_root, bi_cat}

pub record ThemVaoHangDoi : Type 0 where
  pub settle_delay_ms : ℤ
  pub lo_toi_da : ℕ
  pub lo : List ScanRow
  pub da_them : ℕ
  pub da_loai : ℕ
  pub con_tro : ConTro

abbrev pub moi : ℤ → ℕ → ThemVaoHangDoi
moi settle_delay_ms lo_toi_da = record {
  settle_delay_ms = settle_delay_ms;
  lo_toi_da = lo_toi_da;
  lo = [];
  da_them = 0;
  da_loai = 0;
  con_tro = con_tro_moi;
}

abbrev pub thu_muc_cuoi : ThemVaoHangDoi → Option FilePath
thu_muc_cuoi h = h.con_tro.an_toan

-- The answer, with the handler and the store that are left.
abbrev pub Walked : Type 0
Walked = Result RepoError (Unit {0}) × (ThemVaoHangDoi × Store)

abbrev pub committed : ThemVaoHangDoi → Result RepoError ℕ × Store → Walked
committed h (err e, s) = (err e, (h, s))
committed h (ok n, s) =
    (ok tt, (record h { da_them = h.da_them + n; lo = []; con_tro = sau_khi_commit h.con_tro }, s))

abbrev pub ghi_rows : List ScanRow → BoXuLy → ThemVaoHangDoi → Store → Walked
ghi_rows [] b h s = (ok tt, (record h { con_tro = sau_khi_commit h.con_tro }, s))
ghi_rows (r ∷ rows) b h s = committed h (scan_insert s (r ∷ rows) b.now)

-- The batch is written in one transaction, and then the cursor may move.
unfoldable pub ghi_lo : BoXuLy → ThemVaoHangDoi → Store → Walked
unfolding scan_insert
ghi_lo b h s = ghi_rows h.lo b h s

abbrev pub scan_row_of : Identity → FileLoc → Scan.KhoiDau → ScanRow
scan_row_of id loc k = record {
  id = id;
  loc = loc;
  state = k.state;
  ready_at = k.ready_at;
  priority = priority_scan;
}

abbrev pub ghi_neu_day : BoXuLy → ThemVaoHangDoi → Store → Walked
ghi_neu_day b h s = if leb h.lo_toi_da (length h.lo) then ghi_lo b h s else (ok tt, (h, s))

abbrev pub them_file : Result FsError Identity → BoXuLy → ThemVaoHangDoi → Store → FileLoc → Walked
them_file (err e) b h s loc = (ok tt, (h, s))
them_file (ok id) b h s loc =
    if is_some (check b.loc b.fs.has_optout_marker loc id.size)
    then (ok tt, (record h { da_loai = h.da_loai + 1 }, s))
    else ghi_neu_day b
        (record h { lo = h.lo ++ (scan_row_of id loc (khoi_dau id b.now h.settle_delay_ms) ∷ []) })
        s

unfoldable pub xu_ly_entry : BoXuLy → WalkCall → ThemVaoHangDoi → Store → Walked
unfolding ghi_lo check check_path khoi_dau
xu_ly_entry b (file loc so_bo) h s =
    if is_some (check_path b.loc loc.rel_path so_bo)
    then (ok tt, (record h { da_loai = h.da_loai + 1 }, s))
    else them_file (b.fs.statx loc) b h s loc
xu_ly_entry b (xong_thu_muc rel_dir) h s =
    (ok tt, (record h { con_tro = Scan.xong_thu_muc h.con_tro rel_dir }, s))
xu_ly_entry b xong_root h s = ghi_lo b h s
xu_ly_entry b bi_cat h s = ghi_lo b h s
