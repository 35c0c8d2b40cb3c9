-- ===== src/Handler/XuLy.antt =====
-- The handler of one event: `xu_ly` of crates/core/src/handler/mod.rs.
use check_trung_video.Base.{
  ℕ, [], ◌∷◌, Option, none, some, Bool, true, false, not, ◌||◌, is_some, Result, ok, err,
  if◌then◌else◌,
}
use check_trung_video.Model.State
use check_trung_video.Model.State.{settling}
use check_trung_video.Model.Records.{FileLoc, FileRecord, Identity, loc_eq, path_eq}
use check_trung_video.Memory.{Store, RepoError}
use check_trung_video.Memory.Queue.{UpsertResult, upsert_pending}
use check_trung_video.Memory.Watch
use check_trung_video.Memory.Lookup.{find_by_key}
use check_trung_video.Filter.{check_path}
use check_trung_video.Events.{
  FsEvent, closed, modified, renamed, moved_in, removed, removed_unknown, removed_dir, renamed_dir,
  created_dir, needs_rescan,
}
use check_trung_video.Handler.Upsert.{
  HandlerCtx, Kho, can_quet_lai, Run, KetQuaStatx, file, khong_phai_file, da_di, bo_qua, hoi_lai,
  u64_max, statx_phan_nhanh, bi_loai_tru, bao_missing, dat_thu_lai, han_on_dinh,
  walk_neu_dang_theo_doi, upsert_su_kien, priority_su_kien,
}
use check_trung_video.Handler.Rename.{
  with_repo, danh_dau_da_xoa_cua, danh_dau_da_xoa, doi_ten, doi_ten_thu_muc,
}

abbrev pub them_theo : KetQuaStatx → HandlerCtx → Kho → FsEvent → Bool → FileLoc → Run
them_theo (file id) ctx k ev cho_phep_walk loc = upsert_su_kien ctx k loc id
them_theo khong_phai_file ctx k ev cho_phep_walk loc =
    if cho_phep_walk then (ok (walk_neu_dang_theo_doi ctx loc), k) else (ok [], k)
them_theo da_di ctx k ev cho_phep_walk loc = (ok [], k)
them_theo bo_qua ctx k ev cho_phep_walk loc = (ok [], k)
them_theo hoi_lai ctx k ev cho_phep_walk loc = (ok (dat_thu_lai ctx ev ∷ []), k)

abbrev pub is_moved_in : FsEvent → Bool
is_moved_in (moved_in l) = true
is_moved_in _ = false

-- A file that was closed is filtered by its whole name; what was moved in may be a directory.
unfoldable pub them_moi : HandlerCtx → Kho → FsEvent → FileLoc → Run
unfolding bi_loai_tru check_path statx_phan_nhanh upsert_su_kien walk_neu_dang_theo_doi dat_thu_lai
them_moi ctx k ev loc =
    if (if is_moved_in ev
      then bi_loai_tru ctx.loc loc.rel_path
      else is_some (check_path ctx.loc loc.rel_path u64_max))
    then (ok [], k)
    else them_theo (statx_phan_nhanh ctx loc) ctx k ev (is_moved_in ev) loc

abbrev pub da_day : Result RepoError UpsertResult × Store → Kho → Run
da_day (err e, s) k = (err e, with_repo k s)
da_day (ok r, s) k = (ok [], with_repo k s)

abbrev pub day_row : Option FileRecord → HandlerCtx → Kho → FileLoc → Identity → Run
day_row none ctx k loc id = (ok [], k)
day_row (some row) ctx k loc id =
    if not (State.eq row.state settling) || not (loc_eq row.loc loc)
    then (ok [], k)
    else da_day (upsert_pending k.repo id loc (han_on_dinh ctx) priority_su_kien ctx.now) k

abbrev pub day_theo : KetQuaStatx → HandlerCtx → Kho → FileLoc → Run
day_theo (file id) ctx k loc = day_row (find_by_key k.repo id.key) ctx k loc id
day_theo hoi_lai ctx k loc = (ok (dat_thu_lai ctx (modified loc) ∷ []), k)
day_theo khong_phai_file ctx k loc = (ok [], k)
day_theo da_di ctx k loc = (ok [], k)
day_theo bo_qua ctx k loc = (ok [], k)

-- A row that settles at this very place is put off; no row is made.
unfoldable pub day_ready_at : HandlerCtx → Kho → FileLoc → Run
unfolding statx_phan_nhanh find_by_key upsert_pending han_on_dinh dat_thu_lai path_eq
day_ready_at ctx k loc = day_theo (statx_phan_nhanh ctx loc) ctx k loc

abbrev pub bao_dai : ℕ × Store → Kho → FileLoc → Run
bao_dai (so_row, s) k loc = (ok (bao_missing loc so_row), with_repo k s)

unfoldable pub xu_ly : HandlerCtx → Kho → FsEvent → Run
unfolding them_moi day_ready_at doi_ten doi_ten_thu_muc danh_dau_da_xoa_cua walk_neu_dang_theo_doi
    Watch.mark_missing Watch.mark_missing_prefix
xu_ly ctx k (closed loc) = them_moi ctx k (closed loc) loc
xu_ly ctx k (moved_in loc) = them_moi ctx k (moved_in loc) loc
xu_ly ctx k (modified loc) = day_ready_at ctx k loc
xu_ly ctx k (renamed src dst) = doi_ten ctx k src dst
xu_ly ctx k (renamed_dir src dst) = doi_ten_thu_muc ctx k src dst
xu_ly ctx k (removed_unknown loc) = danh_dau_da_xoa ctx k loc
xu_ly ctx k (removed loc) = (ok [], with_repo k (Watch.mark_missing k.repo loc ctx.now))
xu_ly ctx k (removed_dir loc) = bao_dai (Watch.mark_missing_prefix k.repo loc ctx.now) k loc
xu_ly ctx k (created_dir loc) = (ok (walk_neu_dang_theo_doi ctx loc), k)
xu_ly ctx k (needs_rescan reason) = (ok (can_quet_lai reason ∷ []), k)
