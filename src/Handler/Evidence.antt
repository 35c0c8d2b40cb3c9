-- ===== src/Handler/Evidence.antt =====
-- What the handler of crates/core/src/handler does where the file system gives no evidence.
use check_trung_video.Base.{
  String, All, List, [], ◌∷◌, Option, none, some, Bool, true, false, Result, ok, err, if◌then◌else◌,
  ◌≡◌, refl, ap, sym, subst, unwrap_or, ◌∙◌,
}
use check_trung_video.Model.Records.{FileLoc, Identity}
use check_trung_video.Events.{
  FsEvent, closed, modified, renamed, moved_in, removed, removed_unknown, removed_dir, renamed_dir,
  created_dir, needs_rescan,
}
use check_trung_video.Pipeline.Ctx.{
  not_regular, unknown_root, read_only_root, unsupported, os_error, FsError, not_found, other,
}
use check_trung_video.Handler.Upsert.{
  phan_nhanh, loi_vinh_vien, HandlerCtx, Kho, Run, KetQuaStatx, file, khong_phai_file, da_di,
  bo_qua, hoi_lai, statx_phan_nhanh, bi_loai_tru,
}
use check_trung_video.Handler.Rename.{
  is_root, kiem_khong_rong, danh_dau_theo, danh_dau_da_xoa_cua, doi_ten_thu_muc, doi_ten_theo,
  doi_ten,
}
use check_trung_video.Handler.XuLy.{them_theo, is_moved_in, them_moi, day_theo, day_ready_at, xu_ly}

-- The file system fails with an error that says neither that nothing is there nor that what is
-- there is not a regular file.
abbrev pub is_unclear : Result FsError Identity → Bool
is_unclear (ok id) = false
is_unclear (err not_found) = false
is_unclear (err (other not_regular x)) = false
is_unclear (err (other f x)) = true

abbrev pub IsUnclear : HandlerCtx → FileLoc → Type 0
IsUnclear ctx l = is_unclear (ctx.fs.statx l) ≡ true

-- The branches that such an error takes.
abbrev khong_ro : KetQuaStatx → Bool
khong_ro bo_qua = true
khong_ro hoi_lai = true
khong_ro _ = false

phan_nhanh-khong_ro :
    (r : Result FsError Identity) → is_unclear r ≡ true → khong_ro (phan_nhanh r) ≡ true
phan_nhanh-khong_ro (ok id) h = cc h
phan_nhanh-khong_ro (err not_found) h = cc h
phan_nhanh-khong_ro (err (other not_regular x)) h = cc h
phan_nhanh-khong_ro (err (other unknown_root x)) h = refl
phan_nhanh-khong_ro (err (other read_only_root x)) h = refl
phan_nhanh-khong_ro (err (other unsupported x)) h = refl
phan_nhanh-khong_ro (err (other (os_error denied raw) x)) h = permanent (loi_vinh_vien denied raw)
  where
    permanent : (b : Bool) → khong_ro (if b then bo_qua else hoi_lai) ≡ true
    permanent true = refl
    permanent false = refl

statx-khong_ro :
    (ctx : HandlerCtx) (l : FileLoc) → IsUnclear ctx l → khong_ro (statx_phan_nhanh ctx l) ≡ true
unfolding statx_phan_nhanh
statx-khong_ro ctx l h = phan_nhanh-khong_ro (ctx.fs.statx l) h

-- The event itself says what has happened at its places.
abbrev pub is_evidence : FsEvent → Bool
is_evidence (removed l) = true
is_evidence (removed_dir l) = true
is_evidence (renamed_dir src dst) = true
is_evidence _ = false

-- The places at which the handler looks for another event.
abbrev pub places_of : FsEvent → List FileLoc
places_of (closed l) = l ∷ []
places_of (modified l) = l ∷ []
places_of (renamed src dst) = src ∷ dst ∷ []
places_of (moved_in l) = l ∷ []
places_of (removed l) = []
places_of (removed_unknown l) = l ∷ []
places_of (removed_dir l) = []
places_of (renamed_dir src dst) = []
places_of (created_dir l) = []
places_of (needs_rescan r) = []

abbrev pub is_ok {ℓ} : {E A : Type ℓ} → Result E A → Bool
is_ok (ok a) = true
is_ok (err e) = false

abbrev IsUnchanged : Kho → Run → Type 0
IsUnchanged k r = r.1 ≡ k

if-IsUnchanged :
    (k : Kho) (b : Bool) (x y : Run)
    → IsUnchanged k x
    → IsUnchanged k y
    → IsUnchanged k (if b then x else y)
if-IsUnchanged k true x y hx hy = hx
if-IsUnchanged k false x y hx hy = hy

module _ (ctx : HandlerCtx) (k : Kho) where
  danh_dau_theo-IsUnchanged :
      (x : KetQuaStatx) (loc : FileLoc) (goc : FsEvent)
      → khong_ro x ≡ true
      → IsUnchanged k (danh_dau_theo x ctx k loc goc)
  danh_dau_theo-IsUnchanged da_di loc goc h = cc h
  danh_dau_theo-IsUnchanged (file id) loc goc h = cc h
  danh_dau_theo-IsUnchanged khong_phai_file loc goc h = refl
  danh_dau_theo-IsUnchanged hoi_lai loc goc h = refl
  danh_dau_theo-IsUnchanged bo_qua loc goc h = refl

  danh_dau_da_xoa_cua-IsUnchanged :
      (loc : FileLoc) (goc : FsEvent)
      → IsUnclear ctx loc
      → IsUnchanged k (danh_dau_da_xoa_cua ctx k loc goc)
  unfolding danh_dau_da_xoa_cua
  danh_dau_da_xoa_cua-IsUnchanged loc goc h =
      if-IsUnchanged k (is_root loc.rel_path) _ _ refl
        (danh_dau_theo-IsUnchanged (statx_phan_nhanh ctx loc) loc goc (statx-khong_ro ctx loc h))

  doi_ten_theo-IsUnchanged :
      (x : KetQuaStatx) (src dst : FileLoc)
      → khong_ro x ≡ true
      → IsUnchanged k (doi_ten_theo x ctx k src dst)
  doi_ten_theo-IsUnchanged da_di src dst h = cc h
  doi_ten_theo-IsUnchanged (file id) src dst h = cc h
  doi_ten_theo-IsUnchanged khong_phai_file src dst h = cc h
  doi_ten_theo-IsUnchanged hoi_lai src dst h = refl
  doi_ten_theo-IsUnchanged bo_qua src dst h = refl

  doi_ten-IsUnchanged :
      (src dst : FileLoc)
      → IsUnclear ctx src
      → IsUnclear ctx dst
      → IsUnchanged k (doi_ten ctx k src dst)
  unfolding doi_ten
  doi_ten-IsUnchanged src dst hs hd =
      if-IsUnchanged k (bi_loai_tru ctx.loc dst.rel_path) _ _
        (danh_dau_da_xoa_cua-IsUnchanged src (renamed src dst) hs)
        (doi_ten_theo-IsUnchanged (statx_phan_nhanh ctx dst) src dst (statx-khong_ro ctx dst hd))

  them_theo-IsUnchanged :
      (x : KetQuaStatx) (ev : FsEvent) (walk : Bool) (loc : FileLoc)
      → khong_ro x ≡ true
      → IsUnchanged k (them_theo x ctx k ev walk loc)
  them_theo-IsUnchanged da_di ev walk loc h = refl
  them_theo-IsUnchanged (file id) ev walk loc h = cc h
  them_theo-IsUnchanged khong_phai_file ev walk loc h = cc h
  them_theo-IsUnchanged hoi_lai ev walk loc h = refl
  them_theo-IsUnchanged bo_qua ev walk loc h = refl

  them_moi-IsUnchanged :
      (ev : FsEvent) (loc : FileLoc) → IsUnclear ctx loc → IsUnchanged k (them_moi ctx k ev loc)
  unfolding them_moi
  them_moi-IsUnchanged ev loc h =
      if-IsUnchanged k _ (ok [], k) _ refl
        (them_theo-IsUnchanged (statx_phan_nhanh ctx loc) ev (is_moved_in ev) loc
          (statx-khong_ro ctx loc h))

  day_theo-IsUnchanged :
      (x : KetQuaStatx) (loc : FileLoc) → khong_ro x ≡ true → IsUnchanged k (day_theo x ctx k loc)
  day_theo-IsUnchanged da_di loc h = refl
  day_theo-IsUnchanged (file id) loc h = cc h
  day_theo-IsUnchanged khong_phai_file loc h = refl
  day_theo-IsUnchanged hoi_lai loc h = refl
  day_theo-IsUnchanged bo_qua loc h = refl

  -- Where `statx` fails at the places of an event, with an error that does not say that the file is
  -- not found or that it is not a regular file, the handler changes neither the store nor the
  -- counter. This holds for every event but the removal of a file or of a directory and the rename
  -- of a directory, which are themselves the evidence.
  pub xu_ly-unclear :
      (ev : FsEvent)
      → is_evidence ev ≡ false
      → All (IsUnclear ctx) (places_of ev)
      → (xu_ly ctx k ev).1 ≡ k
  unfolding xu_ly day_ready_at
  xu_ly-unclear (closed loc) e h = them_moi-IsUnchanged (closed loc) loc h.0
  xu_ly-unclear (moved_in loc) e h = them_moi-IsUnchanged (moved_in loc) loc h.0
  xu_ly-unclear (modified loc) e h =
      day_theo-IsUnchanged (statx_phan_nhanh ctx loc) loc (statx-khong_ro ctx loc h.0)
  xu_ly-unclear (renamed src dst) e h = doi_ten-IsUnchanged src dst h.0 h.1.0
  xu_ly-unclear (renamed_dir src dst) e h = cc e
  xu_ly-unclear (removed_unknown loc) e h =
      danh_dau_da_xoa_cua-IsUnchanged loc (removed_unknown loc) h.0
  xu_ly-unclear (removed loc) e h = cc e
  xu_ly-unclear (removed_dir loc) e h = cc e
  xu_ly-unclear (created_dir loc) e h = refl
  xu_ly-unclear (needs_rescan reason) e h = refl

  kiem_khong_rong-root :
      (loc : FileLoc) (ten : String) (next : Run) (o : Option FileLoc) {l : FileLoc}
      → some loc ≡ o
      → o ≡ some l
      → is_root l.rel_path ≡ true
      → ((kiem_khong_rong loc ten k next).1 ≡ k)
        × (is_ok (kiem_khong_rong loc ten k next).0 ≡ false)
  kiem_khong_rong-root loc ten next o d e h =
      rw (subst (λ x. is_root x.rel_path ≡ true) (sym (ap (unwrap_or loc) (d ∙ e))) h) (refl, refl)

  -- The place over whose rows an event may range without a test of its own.
  abbrev pub range_of : FsEvent → Option FileLoc
  range_of (removed_unknown l) = some l
  range_of (renamed_dir src dst) = some src
  range_of _ = none

  -- An event that has lost its other half, or the rename of a directory, at the root itself is
  -- refused with an error, and nothing is changed: no such event ranges over a whole root.
  pub xu_ly-root :
      (ev : FsEvent) {l : FileLoc}
      → range_of ev ≡ some l
      → is_root l.rel_path ≡ true
      → ((xu_ly ctx k ev).1 ≡ k) × (is_ok (xu_ly ctx k ev).0 ≡ false)
  unfolding xu_ly danh_dau_da_xoa_cua doi_ten_thu_muc
  xu_ly-root (removed_unknown loc) {l} e h =
      kiem_khong_rong-root loc "RemovedUnknown" _ (some loc) {l = l} refl e h
  xu_ly-root (renamed_dir src dst) {l} e h =
      kiem_khong_rong-root src "RenamedDir" _ (some src) {l = l} refl e h
  xu_ly-root (closed l) e h = cc e
  xu_ly-root (modified l) e h = cc e
  xu_ly-root (renamed src dst) e h = cc e
  xu_ly-root (moved_in l) e h = cc e
  xu_ly-root (removed l) e h = cc e
  xu_ly-root (removed_dir l) e h = cc e
  xu_ly-root (created_dir l) e h = cc e
  xu_ly-root (needs_rescan r) e h = cc e
