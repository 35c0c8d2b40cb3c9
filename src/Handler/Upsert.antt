-- ===== src/Handler/Upsert.antt =====
-- What the handlers of events share: crates/core/src/handler/mod.rs.
--
-- The handler changes the store and the cached counter, which are passed and returned.
use check_trung_video.Base.{
  ℕ, ltb, leb, ◌==◌, List, [], ◌∷◌, Option, none, some, Bool, true, false, ◌||◌, any, is_some,
  is_some_and, Result, ok, err, if◌then◌else◌, ◌^◌, ◌-◌,
}
use Prim.Native.Nat.{bit_and}
use check_trung_video.Base.Int
use check_trung_video.Base.Int.{ℤ, pos}
use check_trung_video.Model.Records.{Ts, FilePath, FileLoc, FileRecord, Identity, key_eq}
use check_trung_video.Memory.{Store, RepoError}
use check_trung_video.Memory.Queue.{UpsertResult, upsert_pending}
use check_trung_video.Memory.Watch.{mark_missing, rename}
use check_trung_video.Memory.Lookup.{find_by_key, find_by_path}
use check_trung_video.Pipeline.Ctx.{
  not_regular, unknown_root, read_only_root, unsupported, os_error, FsError, not_found, other,
  FileSystem,
}
use check_trung_video.Filter.{Prefilter, Reject, thu_muc_loai_tru, check_path, check}
use check_trung_video.Events.{FsEvent, RescanReason, back_pressure}
use check_trung_video.Handler.Dem
use check_trung_video.Handler.Dem.{DemHangDoi}

abbrev pub priority_su_kien : ℕ
priority_su_kien = 0

abbrev pub tre_thu_lai_ms : ℤ
tre_thu_lai_ms = pos 1_000

pub record HandlerCtx : Type 0 where
  pub fs : FileSystem
  pub loc : Prefilter
  pub settle_delay : ℤ
  pub max_pending : ℕ
  pub max_pending_per_uid : ℕ
  pub now : Ts

-- What a handler changes.
pub record Kho : Type 0 where
  pub repo : Store
  pub dem : DemHangDoi

pub data HanhDong : Type 0 where
  walk_thu_muc : FileLoc → HanhDong
  can_quet_lai : RescanReason → HanhDong
  thu_lai : (ev : FsEvent) (khong_som_hon : Ts) → HanhDong
  da_danh_dau_missing : (loc : FileLoc) (so_row : ℕ) → HanhDong

abbrev pub Run : Type 0
Run = Result RepoError (List HanhDong) × Kho

pub data KetQuaStatx : Type 0 where
  file : Identity → KetQuaStatx
  khong_phai_file : KetQuaStatx
  da_di : KetQuaStatx
  bo_qua : KetQuaStatx
  hoi_lai : KetQuaStatx

abbrev pub errno_vinh_vien : List ℤ
errno_vinh_vien = pos 1 ∷ pos 6 ∷ pos 13 ∷ pos 19 ∷ pos 36 ∷ pos 40 ∷ pos 75 ∷ []

abbrev pub loi_vinh_vien : Bool → Option ℤ → Bool
loi_vinh_vien permission_denied raw =
    permission_denied || is_some_and (λ n. any (λ e. Int.eq e n) errno_vinh_vien) raw

-- `mode & 0o170_000 == 0o040_000`
unfoldable pub la_thu_muc : ℕ → Bool
la_thu_muc mode = bit_and mode 0o170000 == 0o040000

abbrev pub phan_nhanh : Result FsError Identity → KetQuaStatx
phan_nhanh (ok id) = if la_thu_muc id.mode then khong_phai_file else file id
phan_nhanh (err not_found) = da_di
phan_nhanh (err (other not_regular x)) = khong_phai_file
phan_nhanh (err (other unknown_root x)) = bo_qua
phan_nhanh (err (other unsupported x)) = bo_qua
phan_nhanh (err (other read_only_root x)) = bo_qua
phan_nhanh (err (other (os_error denied raw) x)) =
    if loi_vinh_vien denied raw then bo_qua else hoi_lai

unfoldable pub statx_phan_nhanh : HandlerCtx → FileLoc → KetQuaStatx
unfolding la_thu_muc
statx_phan_nhanh ctx loc = phan_nhanh (ctx.fs.statx loc)

abbrev pub u64_max : ℕ
u64_max = 2 ^ 64 - 1

abbrev pub is_thu_muc_loai_tru : Option Reject → Bool
is_thu_muc_loai_tru (some (thu_muc_loai_tru ten)) = true
is_thu_muc_loai_tru _ = false

unfoldable pub bi_loai_tru : Prefilter → FilePath → Bool
unfolding check_path
bi_loai_tru loc p = is_thu_muc_loai_tru (check_path loc p u64_max)

abbrev pub bao_missing : FileLoc → ℕ → List HanhDong
bao_missing loc so_row = if so_row == 0 then [] else da_danh_dau_missing loc so_row ∷ []

unfoldable pub han_on_dinh : HandlerCtx → Ts
unfolding Int.saturating_add
han_on_dinh ctx = Int.saturating_add ctx.now ctx.settle_delay

unfoldable pub dat_thu_lai : HandlerCtx → FsEvent → HanhDong
unfolding Int.saturating_add
dat_thu_lai ctx ev = thu_lai ev (Int.saturating_add ctx.now tre_thu_lai_ms)

unfoldable pub walk_neu_dang_theo_doi : HandlerCtx → FileLoc → List HanhDong
unfolding bi_loai_tru
walk_neu_dang_theo_doi ctx loc =
    if bi_loai_tru ctx.loc loc.rel_path then [] else walk_thu_muc loc ∷ []

abbrev pub con_cho : HandlerCtx → ℕ × ℕ → Bool
con_cho ctx (tong, cua_uid) =
    if leb ctx.max_pending tong then false else ltb cua_uid ctx.max_pending_per_uid

-- Whether there is room in the queue for a file of the user.
unfoldable pub con_cho_phep : HandlerCtx → Kho → ℕ → Bool × Kho
unfolding Dem.doc
con_cho_phep ctx k uid =
    let (n, dem) = Dem.doc k.dem k.repo ctx.now uid in (con_cho ctx n, record k { dem = dem })

abbrev pub don_row_cua :
    Option FileRecord → Store → FileLoc → Identity → Ts → Result RepoError (Unit {0}) × Store
don_row_cua (some r) s loc id now = rename s id.key loc now
don_row_cua none s loc id now = (ok tt, mark_missing s loc now)

abbrev pub don_row_tai :
    Option FileRecord → Store → FileLoc → Identity → Ts → Result RepoError (Unit {0}) × Store
don_row_tai none s loc id now = (ok tt, s)
don_row_tai (some cu) s loc id now =
    if key_eq cu.key id.key then (ok tt, s) else don_row_cua (find_by_key s id.key) s loc id now

-- A row of another file that holds the place is cleared away.
unfoldable pub don_row_la_o : Store → FileLoc → Identity → Ts → Result RepoError (Unit {0}) × Store
unfolding find_by_path find_by_key rename mark_missing
don_row_la_o s loc id now = don_row_tai (find_by_path s loc) s loc id now

-- `ctx.repo.upsert_pending(..)?`, and the counter counts the row.
abbrev pub upserted : Result RepoError UpsertResult × Store → DemHangDoi → ℕ → Run
upserted (err e, s) dem uid = (err e, record { repo = s; dem = dem })
upserted (ok r, s) dem uid = (ok [], record { repo = s; dem = Dem.them dem uid })

abbrev pub ghi_sau_don :
    HandlerCtx → Result RepoError (Unit {0}) × Store → DemHangDoi → FileLoc → Identity → Run
ghi_sau_don ctx (err e, s) dem loc id = (err e, record { repo = s; dem = dem })
ghi_sau_don ctx (ok u, s) dem loc id =
    upserted (upsert_pending s id loc (han_on_dinh ctx) priority_su_kien ctx.now) dem id.uid

abbrev pub ghi_neu_con_cho : HandlerCtx → Bool × Kho → FileLoc → Identity → Run
ghi_neu_con_cho ctx (false, k) loc id = (ok (can_quet_lai back_pressure ∷ []), k)
ghi_neu_con_cho ctx (true, k) loc id =
    ghi_sau_don ctx (don_row_la_o k.repo loc id ctx.now) k.dem loc id

-- A file that is there: the filter, the room in the queue, the row that holds its place, the upsert.
unfoldable pub upsert_su_kien : HandlerCtx → Kho → FileLoc → Identity → Run
unfolding check con_cho_phep don_row_la_o upsert_pending han_on_dinh Dem.them
upsert_su_kien ctx k loc id =
    if is_some (check ctx.loc ctx.fs.has_optout_marker loc id.size)
    then (ok [], k)
    else ghi_neu_con_cho ctx (con_cho_phep ctx k id.uid) loc id
