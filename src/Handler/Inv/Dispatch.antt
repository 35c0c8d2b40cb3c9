-- ===== src/Handler/Inv/Dispatch.antt =====
-- Any event handled by crates/core/src/handler/mod.rs keeps the invariant of the store.
use check_trung_video.Base.{[], Option, none, some, Bool, not, ◌||◌, Result, ok, err}
use check_trung_video.Model.State
use check_trung_video.Model.State.{missing, settling}
use check_trung_video.Model.Records.{FileLoc, FileRecord, Identity, loc_eq}
use check_trung_video.Memory.{Store, RepoError}
use check_trung_video.Memory.Queue.{UpsertResult, upsert_pending}
use check_trung_video.Memory.Lookup.{find_by_key}
use check_trung_video.Memory.Inv.{Inv}
use check_trung_video.Memory.Inv.Queue.{upsert_pending-Inv}
use check_trung_video.Memory.Inv.Watch.{mark_missing-Inv, mark_missing_prefix-Inv}
use check_trung_video.Events.{
  FsEvent, closed, modified, renamed, moved_in, removed, removed_unknown, removed_dir, renamed_dir,
  created_dir, needs_rescan,
}
use check_trung_video.Handler.Upsert.{
  HandlerCtx, Kho, KetQuaStatx, file, khong_phai_file, da_di, bo_qua, hoi_lai, statx_phan_nhanh,
  han_on_dinh, priority_su_kien,
}
use check_trung_video.Handler.XuLy.{
  them_theo, is_moved_in, them_moi, da_day, day_row, day_theo, day_ready_at, xu_ly,
}
use check_trung_video.Handler.Inv.{
  Keeps, KeepsStore, if-Keeps, upsert_su_kien-Inv, danh_dau_da_xoa_cua-Inv,
}
use check_trung_video.Handler.Inv.Rename.{doi_ten_thu_muc-Inv, doi_ten-Inv}

module _ (ctx : HandlerCtx) where
  them_theo-Inv :
      (x : KetQuaStatx) (k : Kho) (ev : FsEvent) (walk : Bool) (loc : FileLoc)
      → Inv k.repo
      → Keeps (them_theo x ctx k ev walk loc)
  them_theo-Inv (file id) k ev walk loc h = upsert_su_kien-Inv ctx k loc id h
  them_theo-Inv khong_phai_file k ev walk loc h = if-Keeps walk _ _ h h
  them_theo-Inv da_di k ev walk loc h = h
  them_theo-Inv bo_qua k ev walk loc h = h
  them_theo-Inv hoi_lai k ev walk loc h = h

  them_moi-Inv :
      (k : Kho) (ev : FsEvent) (loc : FileLoc) → Inv k.repo → Keeps (them_moi ctx k ev loc)
  unfolding them_moi
  them_moi-Inv k ev loc h =
      if-Keeps _ (ok [], k) _ h
        (them_theo-Inv (statx_phan_nhanh ctx loc) k ev (is_moved_in ev) loc h)

  day_row-Inv :
      (o : Option FileRecord) (k : Kho) (loc : FileLoc) (id : Identity)
      → Inv k.repo
      → Keeps (day_row o ctx k loc id)
  day_row-Inv none k loc id h = h
  day_row-Inv (some row) k loc id h =
      if-Keeps (not (State.eq row.state settling) || not (loc_eq row.loc loc)) (ok [], k) _ h
        (pushed (upsert_pending k.repo id loc (han_on_dinh ctx) priority_su_kien ctx.now)
          (upsert_pending-Inv k.repo id loc (han_on_dinh ctx) priority_su_kien ctx.now h))
    where
      pushed : (r : Result RepoError UpsertResult × Store) → KeepsStore r → Keeps (da_day r k)
      pushed (err e, s) h = h
      pushed (ok r, s) h = h

  day_theo-Inv :
      (x : KetQuaStatx) (k : Kho) (loc : FileLoc) → Inv k.repo → Keeps (day_theo x ctx k loc)
  day_theo-Inv (file id) k loc h = day_row-Inv (find_by_key k.repo id.key) k loc id h
  day_theo-Inv khong_phai_file k loc h = h
  day_theo-Inv da_di k loc h = h
  day_theo-Inv bo_qua k loc h = h
  day_theo-Inv hoi_lai k loc h = h

  -- Whatever event is handled, and whatever the file system answers, the handler preserves the
  -- invariant of the store, also when it fails.
  pub xu_ly-Inv : (k : Kho) (ev : FsEvent) → Inv k.repo → Inv (xu_ly ctx k ev).1.repo
  unfolding xu_ly day_ready_at
  xu_ly-Inv k (closed loc) h = them_moi-Inv k (closed loc) loc h
  xu_ly-Inv k (moved_in loc) h = them_moi-Inv k (moved_in loc) loc h
  xu_ly-Inv k (modified loc) h = day_theo-Inv (statx_phan_nhanh ctx loc) k loc h
  xu_ly-Inv k (renamed src dst) h = doi_ten-Inv ctx k src dst h
  xu_ly-Inv k (renamed_dir src dst) h = doi_ten_thu_muc-Inv ctx k src dst h
  xu_ly-Inv k (removed_unknown loc) h = danh_dau_da_xoa_cua-Inv ctx k loc (removed_unknown loc) h
  xu_ly-Inv k (removed loc) h = mark_missing-Inv k.repo h loc ctx.now
  xu_ly-Inv k (removed_dir loc) h = mark_missing_prefix-Inv k.repo h loc ctx.now
  xu_ly-Inv k (created_dir loc) h = h
  xu_ly-Inv k (needs_rescan reason) h = h
