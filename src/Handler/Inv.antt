-- ===== src/Handler/Inv.antt =====
-- The handler of events in crates/core/src/handler keeps the invariant of the store.
pub mod Rename
pub mod Dispatch
use check_trung_video.Base.{
  ℕ, List, [], ◌∷◌, Option, none, some, Bool, true, false, not, ◌||◌, is_some, Result, ok, err,
  if◌then◌else◌, ◌≡◌, refl, arith,
}
use check_trung_video.Model.State
use check_trung_video.Model.State.{missing, settling}
use check_trung_video.Model.Records.{Ts, FileLoc, FileRecord, Identity, key_eq, loc_eq}
use check_trung_video.Memory.{Store, RepoError}
use check_trung_video.Memory.Queue.{UpsertResult, upsert_pending}
use check_trung_video.Memory.Watch
use check_trung_video.Memory.Prefix
use check_trung_video.Memory.Prefix.{rename_prefix-Inv}
use check_trung_video.Memory.Lookup.{find_by_key, find_by_path}
use check_trung_video.Memory.Inv.{Inv}
use check_trung_video.Memory.Inv.Queue.{upsert_pending-Inv}
use check_trung_video.Memory.Inv.Watch.{
  rename-Inv, mark_missing-Inv, mark_missing_prefix-Inv, restore_or_reset-Inv,
}
use check_trung_video.Filter.{check, check_path}
use check_trung_video.Events.{
  FsEvent, closed, modified, renamed, moved_in, removed, removed_unknown, removed_dir, renamed_dir,
  created_dir, needs_rescan,
}
use check_trung_video.Handler.Dem.{DemHangDoi}
use check_trung_video.Handler.Upsert.{
  HandlerCtx, Kho, HanhDong, Run, KetQuaStatx, file, khong_phai_file, da_di, bo_qua, hoi_lai,
  u64_max, statx_phan_nhanh, bi_loai_tru, han_on_dinh, priority_su_kien, con_cho_phep, don_row_cua,
  don_row_tai, don_row_la_o, upserted, ghi_sau_don, ghi_neu_con_cho, upsert_su_kien,
}
use check_trung_video.Handler.Rename.{
  with_repo, danh_dau_chac_chan, is_root, kiem_khong_rong, danh_dau_theo, danh_dau_da_xoa_cua,
  don_nguon_theo, don_nguon, walk_neu_khong, doi_ten_thu_muc, extended, then_upsert, then_don_nguon,
  khoi_phuc, doi_ten_file, doi_ten_theo, doi_ten,
}
use check_trung_video.Handler.XuLy.{
  them_theo, is_moved_in, them_moi, da_day, day_row, day_theo, day_ready_at, xu_ly,
}

-- A result that leaves a store with the invariant.
abbrev pub Keeps : Run → Type 0
Keeps (r, k) = Inv k.repo

abbrev pub KeepsStore {ℓ} : {A : Type ℓ} → A × Store → Type 0
KeepsStore (r, s) = Inv s

pub if-Keeps : (b : Bool) (x y : Run) → Keeps x → Keeps y → Keeps (if b then x else y)
if-Keeps true x y hx hy = hx
if-Keeps false x y hx hy = hy

module _ (ctx : HandlerCtx) where
  don_row_cua-Inv :
      (o : Option FileRecord) (s : Store) (loc : FileLoc) (id : Identity) (now : Ts)
      → Inv s
      → KeepsStore (don_row_cua o s loc id now)
  don_row_cua-Inv (some r) s loc id now h = rename-Inv s id.key loc now h
  don_row_cua-Inv none s loc id now h = mark_missing-Inv s h loc now

  don_row_tai-Inv :
      (o : Option FileRecord) (s : Store) (loc : FileLoc) (id : Identity) (now : Ts)
      → Inv s
      → KeepsStore (don_row_tai o s loc id now)
  don_row_tai-Inv none s loc id now h = h
  don_row_tai-Inv (some cu) s loc id now h = same_key (key_eq cu.key id.key)
    where
      same_key :
          (b : Bool)
          → KeepsStore (if b then (ok tt, s) else don_row_cua (find_by_key s id.key) s loc id now)
      same_key true = h
      same_key false = don_row_cua-Inv (find_by_key s id.key) s loc id now h

  ghi_sau_don-Inv :
      (r : Result RepoError (Unit {0}) × Store) (dem : DemHangDoi) (loc : FileLoc) (id : Identity)
      → KeepsStore r
      → Keeps (ghi_sau_don ctx r dem loc id)
  ghi_sau_don-Inv (err e, s) dem loc id h = h
  ghi_sau_don-Inv (ok u, s) dem loc id h =
      written (upsert_pending s id loc (han_on_dinh ctx) priority_su_kien ctx.now)
        (upsert_pending-Inv s id loc (han_on_dinh ctx) priority_su_kien ctx.now h)
    where
      written :
          (r : Result RepoError UpsertResult × Store) → KeepsStore r → Keeps (upserted r dem id.uid)
      written (err e, s) h = h
      written (ok r, s) h = h

  ghi_neu_con_cho-Inv :
      (r : Bool × Kho) (loc : FileLoc) (id : Identity)
      → Inv r.1.repo
      → Keeps (ghi_neu_con_cho ctx r loc id)
  unfolding don_row_la_o
  ghi_neu_con_cho-Inv (false, k) loc id h = h
  ghi_neu_con_cho-Inv (true, k) loc id h =
      ghi_sau_don-Inv (don_row_la_o k.repo loc id ctx.now) k.dem loc id
        (don_row_tai-Inv (find_by_path k.repo loc) k.repo loc id ctx.now h)

  pub upsert_su_kien-Inv :
      (k : Kho) (loc : FileLoc) (id : Identity) → Inv k.repo → Keeps (upsert_su_kien ctx k loc id)
  unfolding upsert_su_kien con_cho_phep
  upsert_su_kien-Inv k loc id h =
      if-Keeps (is_some (check ctx.loc ctx.fs.has_optout_marker loc id.size)) (ok [], k)
        (ghi_neu_con_cho ctx (con_cho_phep ctx k id.uid) loc id) h
        (ghi_neu_con_cho-Inv (con_cho_phep ctx k id.uid) loc id h)

  pub danh_dau_chac_chan-Inv :
      (k : Kho) (loc : FileLoc) → Inv k.repo → Keeps (danh_dau_chac_chan ctx k loc)
  unfolding danh_dau_chac_chan
  danh_dau_chac_chan-Inv k loc h =
      mark_missing_prefix-Inv (Watch.mark_missing k.repo loc ctx.now)
        (mark_missing-Inv k.repo h loc ctx.now) loc ctx.now

  pub danh_dau_theo-Inv :
      (x : KetQuaStatx) (k : Kho) (loc : FileLoc) (goc : FsEvent)
      → Inv k.repo
      → Keeps (danh_dau_theo x ctx k loc goc)
  danh_dau_theo-Inv da_di k loc goc h = danh_dau_chac_chan-Inv k loc h
  danh_dau_theo-Inv (file id) k loc goc h = upsert_su_kien-Inv k loc id h
  danh_dau_theo-Inv khong_phai_file k loc goc h = h
  danh_dau_theo-Inv hoi_lai k loc goc h = h
  danh_dau_theo-Inv bo_qua k loc goc h = h

  pub danh_dau_da_xoa_cua-Inv :
      (k : Kho) (loc : FileLoc) (goc : FsEvent)
      → Inv k.repo
      → Keeps (danh_dau_da_xoa_cua ctx k loc goc)
  unfolding danh_dau_da_xoa_cua
  danh_dau_da_xoa_cua-Inv k loc goc h =
      if-Keeps (is_root loc.rel_path) (err _, k)
        (danh_dau_theo (statx_phan_nhanh ctx loc) ctx k loc goc) h
        (danh_dau_theo-Inv (statx_phan_nhanh ctx loc) k loc goc h)
