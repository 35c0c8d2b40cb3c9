-- ===== src/Handler/Gom/First.antt =====
-- The time from which the period of a path is counted in crates/core/src/handler/gom.rs.
use check_trung_video.Base.{
  ℕ, List, [], ◌∷◌, Option, none, some, Bool, true, false, opt_map, or_option, Bool-cases, inl, inr,
  if◌then◌else◌, ◌≡◌, refl, ap, subst, sym, ◌∙◌,
}
use check_trung_video.Base.HashMap
use check_trung_video.Base.HashMap.{HashMap, get-insert}
use check_trung_video.Base.Int.{ℤ}
use check_trung_video.Model.Records.{Ts, FileLoc, loc_eq}
use check_trung_video.Model.Paths.{places}
use check_trung_video.Events.{FsEvent, event_loc}
use check_trung_video.Handler.Gom.{Muc, Gom, moi, nhan, nhan_tai, nhan_theo}

unfoldable pub receive_all : Gom → List (FsEvent × Ts) → Gom
unfolding nhan
receive_all g [] = g
receive_all g ((ev, now) ∷ es) = receive_all (nhan g ev now).1 es

abbrev pub is_at : FileLoc → Option FileLoc → Bool
is_at l none = false
is_at l (some k) = loc_eq k l

-- The time of the first event at the path
abbrev pub first_at : FileLoc → List (FsEvent × Ts) → Option Ts
first_at l [] = none
first_at l ((ev, now) ∷ es) = if is_at l (event_loc ev) then some now else first_at l es

abbrev pub tu_of : FileLoc → Gom → Option Ts
tu_of l g = opt_map (λ (m : Muc). m.tu) (HashMap.get loc_eq l g.muc)

or_option-none : (o : Option Ts) → or_option o none ≡ o
or_option-none none = refl
or_option-none (some t) = refl

or_option_assoc : (a b c : Option Ts) → or_option (or_option a b) c ≡ or_option a (or_option b c)
or_option_assoc none b c = refl
or_option_assoc (some t) b c = refl

or_option-if :
    (b : Bool) (t : Ts) (c : Option Ts)
    → or_option (if b then some t else none) c ≡ (if b then some t else c)
or_option-if true t c = refl
or_option-if false t c = refl

tu_of-same :
    (k l : FileLoc) (m : HashMap FileLoc Muc) {o : Option Muc}
    → loc_eq k l ≡ true
    → HashMap.get loc_eq k m ≡ o
    → HashMap.get loc_eq l m ≡ o
tu_of-same k l m {o} t e = subst (λ x. HashMap.get loc_eq x m ≡ o) (places.same→≡ k l t) e

-- An event makes the entry of its path, or leaves the time of it; and it leaves the other entries.
nhan_tai-tu_of :
    (o : Option Muc) (g : Gom) (k l : FileLoc) (ev : FsEvent) (now : Ts)
    → HashMap.get loc_eq k g.muc ≡ o
    → tu_of l (nhan_tai o g k ev now)
      ≡ or_option (tu_of l g) (if loc_eq k l then some now else none)
unfolding nhan_tai
nhan_tai-tu_of none g k l ev now e = elim (Bool-cases (loc_eq k l)) [
  | inl t ↦ rw (get-insert places k l _ g.muc, t, tu_of-same k l g.muc {o = none} t e) refl
  | inr f ↦ rw (get-insert places k l _ g.muc, f) (sym (or_option-none (tu_of l g)))
]
nhan_tai-tu_of (some cu) g k l ev now e = elim (Bool-cases (loc_eq k l)) [
  | inl t ↦ rw (get-insert places k l _ g.muc, t, tu_of-same k l g.muc {o = some cu} t e) refl
  | inr f ↦ rw (get-insert places k l _ g.muc, f) (sym (or_option-none (tu_of l g)))
]

nhan_theo-tu_of :
    (o : Option FileLoc) (g : Gom) (l : FileLoc) (ev : FsEvent) (now : Ts)
    → tu_of l (nhan_theo o g ev now).1
      ≡ or_option (tu_of l g) (if is_at l o then some now else none)
unfolding nhan_theo
nhan_theo-tu_of none g l ev now = sym (or_option-none (tu_of l g))
nhan_theo-tu_of (some k) g l ev now = nhan_tai-tu_of (HashMap.get loc_eq k g.muc) g k l ev now refl

receive_all-tu_of :
    (es : List (FsEvent × Ts)) (g : Gom) (l : FileLoc)
    → tu_of l (receive_all g es) ≡ or_option (tu_of l g) (first_at l es)
unfolding receive_all nhan
receive_all-tu_of [] g l = sym (or_option-none (tu_of l g))
receive_all-tu_of ((ev, now) ∷ es) g l =
    receive_all-tu_of es (nhan g ev now).1 l
    ∙ ap (λ o. or_option o (first_at l es)) (nhan_theo-tu_of (event_loc ev) g l ev now)
    ∙ or_option_assoc (tu_of l g) _ (first_at l es)
    ∙ ap (or_option (tu_of l g)) (or_option-if (is_at l (event_loc ev)) now (first_at l es))

-- After whatever events come to a new value, and no flush, the time from which the period of a path
-- is counted is that of the first event at the path, however many followed it; and a path without an
-- event has no entry.
pub receive_all-first :
    (n : ℕ) (ms : ℤ) (es : List (FsEvent × Ts)) (l : FileLoc)
    → tu_of l (receive_all (moi n ms) es) ≡ first_at l es
unfolding HashMap.get
receive_all-first n ms es l = receive_all-tu_of es (moi n ms) l
