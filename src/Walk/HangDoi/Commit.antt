-- ===== src/Walk/HangDoi/Commit.antt =====
-- The cursor of crates/core/src/walk/hangdoi.rs moves only once the batch is in the store.
use check_trung_video.Base.{
  ℕ, leb, ◌+◌, List, [], ◌∷◌, ◌++◌, Bool, true, false, is_some, Result, ok, err, length,
  if◌then◌else◌, In, here, there, ◌⊎◌, inl, inr, ◌≡◌, refl,
}
use check_trung_video.Model.Records.{FileLoc, Identity}
use check_trung_video.Model.Transition.{ScanRow}
use check_trung_video.Memory.{Store, RepoError}
use check_trung_video.Memory.Inv.{Inv}
use check_trung_video.Memory.Queue.{scan_insert}
use check_trung_video.Memory.Queue.Inserted.{HasKey, scan_insert-In, scan_insert-err}
use check_trung_video.Pipeline.Ctx.{FsError}
use check_trung_video.Filter.{check_path, check}
use check_trung_video.Scan.{khoi_dau}
use check_trung_video.Walk.{BoXuLy, WalkCall, file, xong_thu_muc, xong_root, bi_cat}
use check_trung_video.Walk.HangDoi.{
  ThemVaoHangDoi, Walked, committed, ghi_rows, ghi_lo, scan_row_of, ghi_neu_day, them_file,
  xu_ly_entry,
}

-- The cursor stays, or the batch is empty and the row is in the store.
abbrev pub IsSafe : ThemVaoHangDoi → ScanRow → Walked → Type 0
IsSafe h r (x, (h', s')) =
    (h'.con_tro.an_toan ≡ h.con_tro.an_toan) ⊎ ((h'.lo ≡ []) × HasKey r.id.key s')

-- The store and the cursor stay.
abbrev pub IsKept : ThemVaoHangDoi → Store → Walked → Type 0
IsKept h s (x, (h', s')) = (h'.con_tro.an_toan ≡ h.con_tro.an_toan) × (s' ≡ s)

committed-IsSafe :
    (h : ThemVaoHangDoi) (s : Store) (r : ScanRow) (x : Result RepoError ℕ × Store)
    → ((n : ℕ) → x.0 ≡ ok n → HasKey r.id.key x.1)
    → IsSafe h r (committed h x)
committed-IsSafe h s r (err e, s') k = inl refl
committed-IsSafe h s r (ok n, s') k = inr (refl, k n refl)

ghi_rows-IsSafe :
    (rows : List ScanRow) (b : BoXuLy) (h : ThemVaoHangDoi) (s : Store) {r : ScanRow}
    → Inv s
    → In r rows
    → IsSafe h r (ghi_rows rows b h s)
ghi_rows-IsSafe [] b h s i m = elim m [ ]
ghi_rows-IsSafe (x ∷ rows) b h s {r} i m =
    committed-IsSafe h s r (scan_insert s (x ∷ rows) b.now)
      (λ n e. scan_insert-In s (x ∷ rows) b.now {n = n} {r = r} i e m)

ghi_lo-IsSafe :
    (b : BoXuLy) (h : ThemVaoHangDoi) (s : Store) {r : ScanRow}
    → Inv s
    → In r h.lo
    → IsSafe h r (ghi_lo b h s)
unfolding ghi_lo
ghi_lo-IsSafe b h s {r} i m = ghi_rows-IsSafe h.lo b h s {r = r} i m

In-front : (xs ys : List ScanRow) {r : ScanRow} → In r xs → In r (xs ++ ys)
In-front [] ys m = elim m [ ]
In-front (x ∷ xs) ys here = here
In-front (x ∷ xs) ys (there m) = there (In-front xs ys m)

if-IsSafe :
    (h : ThemVaoHangDoi) (r : ScanRow) (c : Bool) (x y : Walked)
    → IsSafe h r x
    → IsSafe h r y
    → IsSafe h r (if c then x else y)
if-IsSafe h r true x y hx hy = hx
if-IsSafe h r false x y hx hy = hy

them_file-IsSafe :
    (a : Result FsError Identity) (b : BoXuLy) (h : ThemVaoHangDoi) (s : Store) (loc : FileLoc)
    {r : ScanRow}
    → Inv s
    → In r h.lo
    → IsSafe h r (them_file a b h s loc)
them_file-IsSafe (err e) b h s loc i m = inl refl
them_file-IsSafe (ok id) b h s loc {r} i m =
    let row = scan_row_of id loc (khoi_dau id b.now h.settle_delay_ms) in
    let h' : ThemVaoHangDoi = record h { lo = h.lo ++ (row ∷ []) } in
    if-IsSafe h r (is_some (check b.loc b.fs.has_optout_marker loc id.size))
      (ok tt, (record h { da_loai = h.da_loai + 1 }, s)) (ghi_neu_day b h' s) (inl refl)
      (if-IsSafe h r (leb h.lo_toi_da (length h'.lo)) (ghi_lo b h' s) (ok tt, (h', s))
        (ghi_lo-IsSafe b h' s {r = r} i (In-front h.lo (row ∷ []) m)) (inl refl))

-- Whatever the walk calls, from a store with the invariant: either the cursor stays where it is, or
-- the batch is empty afterwards and any row that had been gathered has a row of its key in the
-- store.
pub xu_ly_entry-IsSafe :
    (b : BoXuLy) (c : WalkCall) (h : ThemVaoHangDoi) (s : Store) {r : ScanRow}
    → Inv s
    → In r h.lo
    → IsSafe h r (xu_ly_entry b c h s)
unfolding xu_ly_entry
xu_ly_entry-IsSafe b (file loc so_bo) h s {r} i m =
    if-IsSafe h r (is_some (check_path b.loc loc.rel_path so_bo))
      (ok tt, (record h { da_loai = h.da_loai + 1 }, s)) (them_file (b.fs.statx loc) b h s loc)
      (inl refl) (them_file-IsSafe (b.fs.statx loc) b h s loc {r = r} i m)
xu_ly_entry-IsSafe b (xong_thu_muc []) h s i m = inl refl
xu_ly_entry-IsSafe b (xong_thu_muc (d ∷ dir)) h s i m = inl refl
xu_ly_entry-IsSafe b xong_root h s {r} i m = ghi_lo-IsSafe b h s {r = r} i m
xu_ly_entry-IsSafe b bi_cat h s {r} i m = ghi_lo-IsSafe b h s {r = r} i m

committed-IsKept :
    (h : ThemVaoHangDoi) (s : Store) (x : Result RepoError ℕ × Store) {e : RepoError}
    → (committed h x).0 ≡ err e
    → ((y : RepoError) → x.0 ≡ err y → x.1 ≡ s)
    → IsKept h s (committed h x)
committed-IsKept h s (err y, s') q k = (refl, k y refl)
committed-IsKept h s (ok n, s') q k = cc q

ghi_rows-IsKept :
    (rows : List ScanRow) (b : BoXuLy) (h : ThemVaoHangDoi) (s : Store) {e : RepoError}
    → (ghi_rows rows b h s).0 ≡ err e
    → IsKept h s (ghi_rows rows b h s)
ghi_rows-IsKept [] b h s q = cc q
ghi_rows-IsKept (x ∷ rows) b h s {e} q =
    committed-IsKept h s (scan_insert s (x ∷ rows) b.now) {e = e} q
      (λ y p. scan_insert-err s (x ∷ rows) b.now {x = y} p)

ghi_lo-IsKept :
    (b : BoXuLy) (h : ThemVaoHangDoi) (s : Store) {e : RepoError}
    → (ghi_lo b h s).0 ≡ err e
    → IsKept h s (ghi_lo b h s)
unfolding ghi_lo
ghi_lo-IsKept b h s {e} q = ghi_rows-IsKept h.lo b h s {e = e} q

if-IsKept :
    (h : ThemVaoHangDoi) (s : Store) (c : Bool) (x y : Walked) {e : RepoError}
    → (if c then x else y).0 ≡ err e
    → (x.0 ≡ err e → IsKept h s x)
    → (y.0 ≡ err e → IsKept h s y)
    → IsKept h s (if c then x else y)
if-IsKept h s true x y q hx hy = hx q
if-IsKept h s false x y q hx hy = hy q

them_file-IsKept :
    (a : Result FsError Identity) (b : BoXuLy) (h : ThemVaoHangDoi) (s : Store) (loc : FileLoc)
    {e : RepoError}
    → (them_file a b h s loc).0 ≡ err e
    → IsKept h s (them_file a b h s loc)
them_file-IsKept (err x) b h s loc q = cc q
them_file-IsKept (ok id) b h s loc {e} q =
    let row = scan_row_of id loc (khoi_dau id b.now h.settle_delay_ms) in
    let h' : ThemVaoHangDoi = record h { lo = h.lo ++ (row ∷ []) } in
    if-IsKept h s (is_some (check b.loc b.fs.has_optout_marker loc id.size))
      (ok tt, (record h { da_loai = h.da_loai + 1 }, s)) (ghi_neu_day b h' s) {e = e} q (λ p. cc p)
      (λ p.
        if-IsKept h s (leb h.lo_toi_da (length h'.lo)) (ghi_lo b h' s) (ok tt, (h', s)) {e = e} p
          (λ t. ghi_lo-IsKept b h' s {e = e} t) (λ t. cc t))

-- A call of the walk that fails leaves the store and the cursor as they were.
pub xu_ly_entry-err :
    (b : BoXuLy) (c : WalkCall) (h : ThemVaoHangDoi) (s : Store) {e : RepoError}
    → (xu_ly_entry b c h s).0 ≡ err e
    → IsKept h s (xu_ly_entry b c h s)
unfolding xu_ly_entry
xu_ly_entry-err b (file loc so_bo) h s {e} q =
    if-IsKept h s (is_some (check_path b.loc loc.rel_path so_bo))
      (ok tt, (record h { da_loai = h.da_loai + 1 }, s)) (them_file (b.fs.statx loc) b h s loc)
      {e = e} q (λ p. cc p) (λ p. them_file-IsKept (b.fs.statx loc) b h s loc {e = e} p)
xu_ly_entry-err b (xong_thu_muc dir) h s q = cc q
xu_ly_entry-err b xong_root h s {e} q = ghi_lo-IsKept b h s {e = e} q
xu_ly_entry-err b bi_cat h s {e} q = ghi_lo-IsKept b h s {e = e} q
