-- ===== src/Handler/Inv/Rename.antt =====
-- Renames in crates/core/src/handler/rename.rs keep the invariant of the store.
use check_trung_video.Base.{
  ℕ, ◌==◌, Option, none, some, Bool, true, false, is_some, Result, ok, err,
}
use check_trung_video.Model.State
use check_trung_video.Model.State.{missing, settling}
use check_trung_video.Model.Records.{Ts, FileLoc, FileRecord, Identity}
use check_trung_video.Memory.{Store, RepoError}
use check_trung_video.Memory.Watch
use check_trung_video.Memory.Prefix
use check_trung_video.Memory.Prefix.{rename_prefix-Inv}
use check_trung_video.Memory.Lookup.{find_by_key}
use check_trung_video.Memory.Inv.{Inv}
use check_trung_video.Memory.Inv.Watch.{rename-Inv, restore_or_reset-Inv}
use check_trung_video.Filter.{check}
use check_trung_video.Events.{renamed, renamed_dir}
use check_trung_video.Handler.Upsert.{
  HandlerCtx, Kho, Run, KetQuaStatx, file, khong_phai_file, da_di, bo_qua, hoi_lai,
  statx_phan_nhanh, bi_loai_tru, upsert_su_kien,
}
use check_trung_video.Handler.Rename.{
  with_repo, is_root, danh_dau_da_xoa_cua, don_nguon_theo, don_nguon, walk_neu_khong,
  doi_ten_thu_muc, extended, then_upsert, then_don_nguon, khoi_phuc, doi_ten_file, doi_ten_theo,
  doi_ten,
}
use check_trung_video.Handler.Inv.{
  Keeps, KeepsStore, if-Keeps, upsert_su_kien-Inv, danh_dau_chac_chan-Inv, danh_dau_da_xoa_cua-Inv,
}

module _ (ctx : HandlerCtx) where
  don_nguon_theo-Inv :
      (x : KetQuaStatx) (k : Kho) (src : FileLoc) → Inv k.repo → Keeps (don_nguon_theo x ctx k src)
  don_nguon_theo-Inv da_di k src h = danh_dau_chac_chan-Inv ctx k src h
  don_nguon_theo-Inv (file id) k src h = h
  don_nguon_theo-Inv khong_phai_file k src h = h
  don_nguon_theo-Inv hoi_lai k src h = h
  don_nguon_theo-Inv bo_qua k src h = h

  don_nguon-Inv : (k : Kho) (src : FileLoc) → Inv k.repo → Keeps (don_nguon ctx k src)
  unfolding don_nguon
  don_nguon-Inv k src h =
      if-Keeps (is_root src.rel_path) (err _, k)
        (don_nguon_theo (statx_phan_nhanh ctx src) ctx k src) h
        (don_nguon_theo-Inv (statx_phan_nhanh ctx src) k src h)

  walk_neu_khong-Inv :
      (r : ℕ × Store) (k : Kho) (dst : FileLoc) → KeepsStore r → Keeps (walk_neu_khong r k dst)
  walk_neu_khong-Inv (n, s) k dst h = if-Keeps (n == 0) _ _ h h

  pub doi_ten_thu_muc-Inv :
      (k : Kho) (src dst : FileLoc) → Inv k.repo → Keeps (doi_ten_thu_muc ctx k src dst)
  unfolding doi_ten_thu_muc
  doi_ten_thu_muc-Inv k src dst h =
      if-Keeps (is_root src.rel_path) (err _, k) _ h
        (if-Keeps (bi_loai_tru ctx.loc dst.rel_path)
          (danh_dau_da_xoa_cua ctx k src (renamed_dir src dst))
          (walk_neu_khong (Prefix.rename_prefix k.repo src dst ctx.now) k dst)
          (danh_dau_da_xoa_cua-Inv ctx k src (renamed_dir src dst) h)
          (walk_neu_khong-Inv (Prefix.rename_prefix k.repo src dst ctx.now) k dst
            (rename_prefix-Inv k.repo src dst ctx.now h)))

  then_don_nguon-Inv :
      (r : Result RepoError (Unit {0}) × Store) (k : Kho) (src : FileLoc)
      → KeepsStore r
      → Keeps (then_don_nguon r ctx k src)
  then_don_nguon-Inv (err e, s) k src h = h
  then_don_nguon-Inv (ok u, s) k src h = don_nguon-Inv (with_repo k s) src h

  khoi_phuc-Inv :
      (r : Result RepoError (Unit {0}) × Store) (was_missing : Bool) (id : Identity) (now : Ts)
      → KeepsStore r
      → KeepsStore (khoi_phuc r was_missing id now)
  khoi_phuc-Inv (err e, s) was_missing id now h = h
  khoi_phuc-Inv (ok u, s) true id now h = restore_or_reset-Inv s id.key id now h
  khoi_phuc-Inv (ok u, s) false id now h = h

  then_upsert-Inv :
      (r : Run) (dst : FileLoc) (id : Identity) → Keeps r → Keeps (then_upsert r ctx dst id)
  then_upsert-Inv (err e, k) dst id h = h
  then_upsert-Inv (ok ra, k) dst id h =
      more (upsert_su_kien ctx k dst id) (upsert_su_kien-Inv ctx k dst id h)
    where
      more : (r : Run) → Keeps r → Keeps (extended ra r)
      more (err e, k) h = h
      more (ok xs, k) h = h

  doi_ten_file-Inv :
      (o : Option FileRecord) (k : Kho) (src dst : FileLoc) (id : Identity)
      → Inv k.repo
      → Keeps (doi_ten_file o ctx k src dst id)
  doi_ten_file-Inv (some row) k src dst id h = then_don_nguon-Inv _ k src (
      khoi_phuc-Inv (Watch.rename k.repo id.key dst ctx.now) (State.eq row.state missing) id ctx.now
        (rename-Inv k.repo id.key dst ctx.now h))
  doi_ten_file-Inv none k src dst id h =
      then_upsert-Inv (don_nguon ctx k src) dst id (don_nguon-Inv k src h)

  doi_ten_theo-Inv :
      (x : KetQuaStatx) (k : Kho) (src dst : FileLoc)
      → Inv k.repo
      → Keeps (doi_ten_theo x ctx k src dst)
  doi_ten_theo-Inv da_di k src dst h = danh_dau_da_xoa_cua-Inv ctx k src (renamed src dst) h
  doi_ten_theo-Inv bo_qua k src dst h = h
  doi_ten_theo-Inv hoi_lai k src dst h = h
  doi_ten_theo-Inv khong_phai_file k src dst h = doi_ten_thu_muc-Inv k src dst h
  doi_ten_theo-Inv (file id) k src dst h =
      if-Keeps (is_some (check ctx.loc ctx.fs.has_optout_marker dst id.size))
        (danh_dau_da_xoa_cua ctx k src (renamed src dst)) _
        (danh_dau_da_xoa_cua-Inv ctx k src (renamed src dst) h)
        (doi_ten_file-Inv (find_by_key k.repo id.key) k src dst id h)

  pub doi_ten-Inv : (k : Kho) (src dst : FileLoc) → Inv k.repo → Keeps (doi_ten ctx k src dst)
  unfolding doi_ten
  doi_ten-Inv k src dst h =
      if-Keeps (bi_loai_tru ctx.loc dst.rel_path) (danh_dau_da_xoa_cua ctx k src (renamed src dst))
        _ (danh_dau_da_xoa_cua-Inv ctx k src (renamed src dst) h)
        (doi_ten_theo-Inv (statx_phan_nhanh ctx dst) k src dst h)
