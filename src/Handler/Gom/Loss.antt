-- ===== src/Handler/Gom/Loss.antt =====
-- What an event does to the events that crates/core/src/handler/gom.rs already holds.
use check_trung_video.Base.{
  ◌≤◌, ◌<◌, List, [], ◌∷◌, Option, none, some, true, false, length, In, here, Bool-cases, inl, inr,
  ◌≡◌, refl, subst, sym, ◌∙◌, arith,
}
use check_trung_video.Base.HashMap
use check_trung_video.Base.HashMap.{HashMap, get-insert}
use check_trung_video.Model.Records.{Ts, FileLoc, loc_eq}
use check_trung_video.Model.Paths.{places, loc_eq_refl, loc_eq→≡}
use check_trung_video.Events.{FsEvent, event_loc}
use check_trung_video.Handler.Gom.{
  Muc, Gom, gop_vao, cach, nhan_tai, nhan_theo, nhan, mang_thong_tin_rieng, la_yeu,
}
use check_trung_video.Handler.Gom.Keeps.{gop_vao-keeps, gop_vao-In}
use check_trung_video.Handler.Gom.Inv.{IsGom, IsEntry}

-- The event waits in the entry of the path.
abbrev pub IsHeld : Gom → FileLoc → FsEvent → Type 0
IsHeld g loc x = (m : Muc) × (HashMap.get loc_eq loc g.muc ≡ some m) × In x m.evs

get-inserted :
    (k : FileLoc) (v : Muc) (m : HashMap FileLoc Muc)
    → HashMap.get loc_eq k (HashMap.insert loc_eq k v m) ≡ some v
get-inserted k v m = get-insert places k k v m ∙ rw (loc_eq_refl k) refl

get-other :
    (k l : FileLoc) (v : Muc) (m : HashMap FileLoc Muc)
    → loc_eq k l ≡ false
    → HashMap.get loc_eq l (HashMap.insert loc_eq k v m) ≡ HashMap.get loc_eq l m
get-other k l v m h = get-insert places k l v m ∙ rw h refl

nhan_tai-other :
    (o : Option Muc) (g : Gom) (loc l : FileLoc) (ev : FsEvent) (now : Ts)
    → loc_eq loc l ≡ false
    → HashMap.get loc_eq l (nhan_tai o g loc ev now).muc ≡ HashMap.get loc_eq l g.muc
unfolding nhan_tai
nhan_tai-other none g loc l ev now h = get-other loc l _ g.muc h
nhan_tai-other (some cu) g loc l ev now h = get-other loc l _ g.muc h

nhan_tai-keeps :
    (g : Gom) (loc : FileLoc) (ev : FsEvent) (now : Ts) (m : Muc) {x : FsEvent}
    → In x m.evs
    → length m.evs < 8
    → mang_thong_tin_rieng x ≡ true
    → IsHeld (nhan_tai (some m) g loc ev now) loc x
unfolding nhan_tai
nhan_tai-keeps g loc ev now m {x} n b hx = (
  record m { evs = gop_vao (cach m.evs ev) m.evs ev },
  get-inserted loc _ g.muc,
  gop_vao-keeps m.evs ev {x = x} n b hx,
)

nhan_theo-keeps :
    (o : Option FileLoc) (g : Gom) (ev : FsEvent) (now : Ts) (l : FileLoc) {m : Muc} {x : FsEvent}
    → HashMap.get loc_eq l g.muc ≡ some m
    → In x m.evs
    → length m.evs < 8
    → mang_thong_tin_rieng x ≡ true
    → IsHeld (nhan_theo o g ev now).1 l x
unfolding nhan_theo
nhan_theo-keeps none g ev now l {m} e n b hx = (m, e, n)
nhan_theo-keeps (some loc) g ev now l {m} {x} e n b hx = elim (Bool-cases (loc_eq loc l)) [
  | inl t ↦
      let q = loc_eq→≡ loc l t in
      subst (λ y. IsHeld (nhan_tai (HashMap.get loc_eq y g.muc) g y ev now) l x) (sym q)
        (subst (λ o. IsHeld (nhan_tai o g l ev now) l x) (sym e)
          (nhan_tai-keeps g l ev now m {x = x} n b hx))
  | inr f ↦ (m, nhan_tai-other (HashMap.get loc_eq loc g.muc) g loc l ev now f ∙ e, n)
]

-- A rename or the removal of a directory that waits in the entry of a path stays there, whatever
-- event comes next, as long as the entry has fewer than eight events.
pub nhan-keeps :
    (g : Gom) (ev : FsEvent) (now : Ts) (l : FileLoc) {m : Muc} {x : FsEvent}
    → HashMap.get loc_eq l g.muc ≡ some m
    → In x m.evs
    → length m.evs < 8
    → mang_thong_tin_rieng x ≡ true
    → IsHeld (nhan g ev now).1 l x
unfolding nhan
nhan-keeps g ev now l {m} {x} e n b hx =
    nhan_theo-keeps (event_loc ev) g ev now l {m = m} {x = x} e n b hx

gop_vao-strong :
    (es : List FsEvent) (ev : FsEvent)
    → 1 ≤ length es
    → la_yeu ev ≡ false
    → In ev (gop_vao (cach es ev) es ev)
gop_vao-strong [] ev b h = ground arith
gop_vao-strong (e ∷ es) ev b h = gop_vao-In e es ev h

nhan_tai-In :
    (o : Option Muc) (g : Gom) (loc : FileLoc) (ev : FsEvent) (now : Ts)
    → IsEntry o
    → la_yeu ev ≡ false
    → IsHeld (nhan_tai o g loc ev now) loc ev
unfolding nhan_tai
nhan_tai-In none g loc ev now b h = (_, get-inserted loc _ g.muc, here)
nhan_tai-In (some m) g loc ev now b h = (_, get-inserted loc _ g.muc, gop_vao-strong m.evs ev b.0 h)

-- An event at a path that is not a mere modification waits in the entry of its path afterwards.
pub nhan-In :
    (g : Gom) (ev : FsEvent) (now : Ts) {l : FileLoc}
    → IsGom g
    → event_loc ev ≡ some l
    → la_yeu ev ≡ false
    → IsHeld (nhan g ev now).1 l ev
unfolding nhan nhan_theo IsGom
nhan-In g ev now {l} (a, b) e h = rw e (nhan_tai-In (HashMap.get loc_eq l g.muc) g l ev now (b l) h)
