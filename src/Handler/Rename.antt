-- ===== src/Handler/Rename.antt =====
-- Renames and removals: crates/core/src/handler/rename.rs.
use check_trung_video.Base.{
  ℕ, ◌==◌, String, List, [], ◌∷◌, ◌++◌, Option, none, some, Bool, true, false, is_some, Result, ok,
  err, if◌then◌else◌,
}
use check_trung_video.Model.State
use check_trung_video.Model.State.{missing}
use check_trung_video.Model.Records.{Ts, FilePath, FileLoc, FileRecord, Identity}
use check_trung_video.Memory.{Store, RepoError, whole_root}
use check_trung_video.Memory.Watch
use check_trung_video.Memory.Prefix
use check_trung_video.Memory.Lookup.{find_by_key}
use check_trung_video.Filter.{check}
use check_trung_video.Events.{FsEvent, renamed, renamed_dir, removed_unknown}
use check_trung_video.Handler.Upsert.{
  HandlerCtx, Kho, HanhDong, walk_thu_muc, Run, KetQuaStatx, file, khong_phai_file, da_di, bo_qua,
  hoi_lai, statx_phan_nhanh, bi_loai_tru, bao_missing, dat_thu_lai, walk_neu_dang_theo_doi,
  upsert_su_kien,
}

abbrev pub with_repo : Kho → Store → Kho
with_repo k s = record k { repo = s }

-- Marks the row of the place, then the rows under it.
unfoldable pub danh_dau_chac_chan : HandlerCtx → Kho → FileLoc → Run
unfolding Watch.mark_missing Watch.mark_missing_prefix
danh_dau_chac_chan ctx k loc =
    let (duoi, s) = Watch.mark_missing_prefix (Watch.mark_missing k.repo loc ctx.now) loc ctx.now in
    (ok (bao_missing loc duoi), with_repo k s)

abbrev pub is_root : FilePath → Bool
is_root [] = true
is_root (c ∷ p) = false

-- No event may range over a whole root: otherwise what follows is done.
abbrev pub kiem_khong_rong : FileLoc → String → Kho → Run → Run
kiem_khong_rong loc ten k next =
    if is_root loc.rel_path then (err (whole_root ten loc.root_id), k) else next

abbrev pub danh_dau_theo : KetQuaStatx → HandlerCtx → Kho → FileLoc → FsEvent → Run
danh_dau_theo da_di ctx k loc goc = danh_dau_chac_chan ctx k loc
danh_dau_theo (file id) ctx k loc goc = upsert_su_kien ctx k loc id
danh_dau_theo khong_phai_file ctx k loc goc = (ok (walk_neu_dang_theo_doi ctx loc), k)
danh_dau_theo hoi_lai ctx k loc goc = (ok (dat_thu_lai ctx goc ∷ []), k)
danh_dau_theo bo_qua ctx k loc goc = (ok [], k)

unfoldable pub danh_dau_da_xoa_cua : HandlerCtx → Kho → FileLoc → FsEvent → Run
unfolding danh_dau_chac_chan upsert_su_kien walk_neu_dang_theo_doi dat_thu_lai statx_phan_nhanh
danh_dau_da_xoa_cua ctx k loc goc =
    kiem_khong_rong loc "RemovedUnknown" k (danh_dau_theo (statx_phan_nhanh ctx loc) ctx k loc goc)

abbrev pub danh_dau_da_xoa : HandlerCtx → Kho → FileLoc → Run
danh_dau_da_xoa ctx k loc = danh_dau_da_xoa_cua ctx k loc (removed_unknown loc)

abbrev pub don_nguon_theo : KetQuaStatx → HandlerCtx → Kho → FileLoc → Run
don_nguon_theo da_di ctx k src = danh_dau_chac_chan ctx k src
don_nguon_theo _ ctx k src = (ok [], k)

unfoldable pub don_nguon : HandlerCtx → Kho → FileLoc → Run
unfolding danh_dau_chac_chan statx_phan_nhanh
don_nguon ctx k src =
    kiem_khong_rong src "Renamed" k (don_nguon_theo (statx_phan_nhanh ctx src) ctx k src)

abbrev pub walk_neu_khong : ℕ × Store → Kho → FileLoc → Run
walk_neu_khong (doi, s) k dst =
    if doi == 0 then (ok (walk_thu_muc dst ∷ []), with_repo k s) else (ok [], with_repo k s)

unfoldable pub doi_ten_thu_muc : HandlerCtx → Kho → FileLoc → FileLoc → Run
unfolding bi_loai_tru danh_dau_da_xoa_cua Prefix.rename_prefix
doi_ten_thu_muc ctx k src dst = kiem_khong_rong src "RenamedDir" k (
    if bi_loai_tru ctx.loc dst.rel_path
    then danh_dau_da_xoa_cua ctx k src (renamed_dir src dst)
    else walk_neu_khong (Prefix.rename_prefix k.repo src dst ctx.now) k dst)

-- `let mut ra = a?; ra.extend(b?)`
abbrev pub extended : List HanhDong → Run → Run
extended ra (err e, k) = (err e, k)
extended ra (ok xs, k) = (ok (ra ++ xs), k)

abbrev pub then_upsert : Run → HandlerCtx → FileLoc → Identity → Run
then_upsert (err e, k) ctx dst id = (err e, k)
then_upsert (ok ra, k) ctx dst id = extended ra (upsert_su_kien ctx k dst id)

abbrev pub then_don_nguon : Result RepoError (Unit {0}) × Store → HandlerCtx → Kho → FileLoc → Run
then_don_nguon (err e, s) ctx k src = (err e, with_repo k s)
then_don_nguon (ok u, s) ctx k src = don_nguon ctx (with_repo k s) src

-- A row that was missing is restored once its path is right.
abbrev pub khoi_phuc :
    Result RepoError (Unit {0}) × Store → Bool → Identity → Ts → Result RepoError (Unit {0}) × Store
khoi_phuc (err e, s) was_missing id now = (err e, s)
khoi_phuc (ok u, s) was_missing id now =
    if was_missing then Watch.restore_or_reset s id.key id now else (ok u, s)

abbrev pub doi_ten_file : Option FileRecord → HandlerCtx → Kho → FileLoc → FileLoc → Identity → Run
doi_ten_file (some row) ctx k src dst id =
    then_don_nguon
      (khoi_phuc (Watch.rename k.repo id.key dst ctx.now) (State.eq row.state missing) id ctx.now)
      ctx k src
doi_ten_file none ctx k src dst id = then_upsert (don_nguon ctx k src) ctx dst id

abbrev pub doi_ten_theo : KetQuaStatx → HandlerCtx → Kho → FileLoc → FileLoc → Run
doi_ten_theo da_di ctx k src dst = danh_dau_da_xoa_cua ctx k src (renamed src dst)
doi_ten_theo bo_qua ctx k src dst = (ok [], k)
doi_ten_theo hoi_lai ctx k src dst = (ok (dat_thu_lai ctx (renamed src dst) ∷ []), k)
doi_ten_theo khong_phai_file ctx k src dst = doi_ten_thu_muc ctx k src dst
doi_ten_theo (file id) ctx k src dst =
    if is_some (check ctx.loc ctx.fs.has_optout_marker dst id.size)
    then danh_dau_da_xoa_cua ctx k src (renamed src dst)
    else doi_ten_file (find_by_key k.repo id.key) ctx k src dst id

unfoldable pub doi_ten : HandlerCtx → Kho → FileLoc → FileLoc → Run
unfolding bi_loai_tru danh_dau_da_xoa_cua statx_phan_nhanh dat_thu_lai doi_ten_thu_muc don_nguon
    upsert_su_kien check find_by_key Watch.rename Watch.restore_or_reset
doi_ten ctx k src dst =
    if bi_loai_tru ctx.loc dst.rel_path
    then danh_dau_da_xoa_cua ctx k src (renamed src dst)
    else doi_ten_theo (statx_phan_nhanh ctx dst) ctx k src dst
