-- ===== src/Handler/Gom.antt =====
-- The coalescing of events by path: crates/core/src/handler/gom.rs.
--
-- The methods that change `self` return the changed value beside their result.
pub mod Keeps
pub mod Inv
pub mod Loss
pub mod First
use check_trung_video.Base.{
  ℕ, suc, ◌+◌, ◌==◌, leb, List, [], ◌∷◌, ◌++◌, Option, none, some, Bool, true, false, not, ◌||◌,
  ◌&&◌, if◌then◌else◌, length,
}
use check_trung_video.Base.Int
use check_trung_video.Base.Int.{ℤ}
use check_trung_video.Base.HashMap
use check_trung_video.Base.HashMap.{HashMap}
use check_trung_video.Base.HashMap.Ordered.{take_out}
use check_trung_video.Model.Records.{Ts, FileLoc, loc_eq, path_eq}
use check_trung_video.Events.{
  FsEvent, closed, modified, renamed, moved_in, removed, removed_unknown, removed_dir, renamed_dir,
  created_dir, needs_rescan, event_loc,
}

pub record Muc : Type 0 where
  pub evs : List FsEvent
  pub tu : Ts

pub record Gom : Type 0 where
  pub toi_da : ℕ
  pub chu_ky_ms : ℤ
  pub muc : HashMap FileLoc Muc
  pub thu_tu : List FileLoc
  pub khan : List FsEvent
  pub so_bo_qua : ℕ

abbrev pub tran_moi_duong_dan : ℕ
tran_moi_duong_dan = 8

pub data Cach : Type 0 where
  bo : Cach
  de : Cach
  them : Cach

abbrev pub moi : ℕ → ℤ → Gom
moi toi_da chu_ky_ms = record {
  toi_da = toi_da;
  chu_ky_ms = chu_ky_ms;
  muc = [];
  thu_tu = [];
  khan = [];
  so_bo_qua = 0;
}

abbrev pub la_yeu : FsEvent → Bool
la_yeu (modified l) = true
la_yeu _ = false

abbrev pub mang_thong_tin_rieng : FsEvent → Bool
mang_thong_tin_rieng (renamed src dst) = true
mang_thong_tin_rieng (renamed_dir src dst) = true
mang_thong_tin_rieng (removed_dir l) = true
mang_thong_tin_rieng _ = false

-- `std::mem::discriminant`
abbrev pub discriminant : FsEvent → ℕ
discriminant (closed l) = 0
discriminant (modified l) = 1
discriminant (renamed src dst) = 2
discriminant (moved_in l) = 3
discriminant (removed l) = 4
discriminant (removed_unknown l) = 5
discriminant (removed_dir l) = 6
discriminant (renamed_dir src dst) = 7
discriminant (created_dir l) = 8
discriminant (needs_rescan r) = 9

abbrev pub cung_loai : FsEvent → FsEvent → Bool
cung_loai a b = discriminant a == discriminant b

abbrev pub co_the_de : FsEvent → FsEvent → Bool
co_the_de cuoi moi = la_yeu cuoi || (cung_loai cuoi moi && not (mang_thong_tin_rieng cuoi))

-- `cu.last()`
abbrev pub last : List FsEvent → Option FsEvent
last [] = none
last (e ∷ []) = some e
last (e ∷ f ∷ es) = last (f ∷ es)

-- `if let Some(cuoi) = evs.last_mut() { *cuoi = ev }`
abbrev pub set_last : FsEvent → List FsEvent → List FsEvent
set_last ev [] = []
set_last ev (e ∷ []) = ev ∷ []
set_last ev (e ∷ f ∷ es) = e ∷ set_last ev (f ∷ es)

abbrev pub cach_sau : Option FsEvent → ℕ → FsEvent → Cach
cach_sau none n moi = them
cach_sau (some cuoi) n moi =
    if la_yeu moi && not (la_yeu cuoi)
    then bo
    else if co_the_de cuoi moi || leb tran_moi_duong_dan n
    then de
    else them

abbrev pub cach : List FsEvent → FsEvent → Cach
cach cu moi = cach_sau (last cu) (length cu) moi

abbrev pub gop_vao : Cach → List FsEvent → FsEvent → List FsEvent
gop_vao bo evs ev = evs
gop_vao de evs ev = set_last ev evs
gop_vao them evs ev = evs ++ (ev ∷ [])

abbrev pub la_gop : Cach → Bool
la_gop them = false
la_gop _ = true

abbrev pub is_empty : List FsEvent → Bool
is_empty [] = true
is_empty (e ∷ es) = false

abbrev pub day_du : Gom → Bool
day_du g = not (is_empty g.khan) || leb g.toi_da (length g.muc)

-- The event goes to the entry of its path, if there is one; otherwise it makes one.
unfoldable pub nhan_tai : Option Muc → Gom → FileLoc → FsEvent → Ts → Gom
unfolding path_eq HashMap.insert
nhan_tai (some cu) g loc ev now =
    let c = cach cu.evs ev in
    record g {
      muc = HashMap.insert loc_eq loc (record cu { evs = gop_vao c cu.evs ev }) g.muc;
      so_bo_qua = if la_gop c then g.so_bo_qua + 1 else g.so_bo_qua;
    }
nhan_tai none g loc ev now = record g {
  muc = HashMap.insert loc_eq loc (record { evs = ev ∷ []; tu = now }) g.muc;
  thu_tu = g.thu_tu ++ (loc ∷ []);
}

abbrev pub with_day_du : Gom → Bool × Gom
with_day_du g = (day_du g, g)

unfoldable pub nhan_theo : Option FileLoc → Gom → FsEvent → Ts → Bool × Gom
unfolding nhan_tai HashMap.get path_eq
nhan_theo none g ev now = (true, record g { khan = g.khan ++ (ev ∷ []) })
nhan_theo (some loc) g ev now = with_day_du (nhan_tai (HashMap.get loc_eq loc g.muc) g loc ev now)

unfoldable pub nhan : Gom → FsEvent → Ts → Bool × Gom
unfolding nhan_theo
nhan g ev now = nhan_theo (event_loc ev) g ev now

abbrev pub all_events : List Muc → List FsEvent
all_events [] = []
all_events (m ∷ ms) = m.evs ++ all_events ms

-- Whether an entry has been kept for the period.
unfoldable pub toi_ky : ℤ → Ts → Muc → Bool
unfolding Int.saturating_sub
toi_ky chu_ky now m = Int.le chu_ky (Int.saturating_sub now m.tu)

unfoldable pub den_han : Gom → Ts → List FsEvent × Gom
unfolding take_out toi_ky path_eq
den_han g now =
    let (giu, ra, muc) = take_out loc_eq (toi_ky g.chu_ky_ms now) g.thu_tu g.muc in
    (g.khan ++ all_events ra, record g { khan = []; thu_tu = giu; muc = muc })

unfoldable pub xa_het : Gom → List FsEvent × Gom
unfolding take_out path_eq
xa_het g =
    let (giu, ra, muc) = take_out loc_eq (λ (m : Muc). true) g.thu_tu g.muc in
    (g.khan ++ all_events ra, record g { khan = []; thu_tu = []; muc = [] })

abbrev pub so_muc : Gom → ℕ
so_muc g = length g.muc
