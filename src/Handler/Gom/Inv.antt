-- ===== src/Handler/Gom/Inv.antt =====
-- The invariant of crates/core/src/handler/gom.rs: the list of the paths agrees with the map, and
-- every path has between one and eight events.
use check_trung_video.Base.{
  ℕ, List, [], ◌∷◌, ◌++◌, Option, none, some, Bool, true, false, is_some, if◌then◌else◌, Bool-cases,
  inl, inr, ◌≡◌, refl, ap, subst, map, filter, not, arith,
}
use check_trung_video.Base.Int.{ℤ, le, saturating_sub}
use check_trung_video.Base.HashMap
use check_trung_video.Base.HashMap.{HashMap, get-insert}
use check_trung_video.Base.HashMap.Ordered.{Agree, NoDup, view}
use check_trung_video.Base.HashMap.TakeOut.{get-left_map, taken-view, take_out-view}
use check_trung_video.Base.HashMap.Agreed.{empty-Agree, push-Agree, update-Agree, take_out-Agree}
use check_trung_video.Model.Records.{Ts, FileLoc, loc_eq}
use check_trung_video.Model.Paths.{places}
use check_trung_video.Events.{FsEvent, event_loc}
use check_trung_video.Handler.Gom.{
  Muc, Gom, moi, nhan_tai, nhan_theo, nhan, toi_ky, den_han, xa_het, all_events,
}
use check_trung_video.Handler.Gom.Keeps.{InBounds, gop_vao-InBounds}

abbrev pub IsEntry : Option Muc → Type 0
IsEntry none = Unit
IsEntry (some m) = InBounds m.evs

unfoldable pub IsGom : Gom → Type 0
unfolding Agree HashMap.get
IsGom g = Agree loc_eq g.thu_tu g.muc × ((l : FileLoc) → IsEntry (HashMap.get loc_eq l g.muc))

IsEntry-insert :
    (k l : FileLoc) (v : Muc) (m : HashMap FileLoc Muc)
    → InBounds v.evs
    → IsEntry (HashMap.get loc_eq l m)
    → IsEntry (HashMap.get loc_eq l (HashMap.insert loc_eq k v m))
IsEntry-insert k l v m b h =
    rw (get-insert places k l v m)
      (elim (Bool-cases (loc_eq k l)) [ inl t ↦ rw t b | inr f ↦ rw f h ])

nhan_tai-IsGom :
    (o : Option Muc) (g : Gom) (loc : FileLoc) (ev : FsEvent) (now : Ts)
    → HashMap.get loc_eq loc g.muc ≡ o
    → IsGom g
    → IsGom (nhan_tai o g loc ev now)
unfolding IsGom nhan_tai
nhan_tai-IsGom none g loc ev now e (a, b) = (
  push-Agree places loc _ g.thu_tu g.muc a (ap is_some e),
  λ l. IsEntry-insert loc l _ g.muc (omega arith, omega arith) (b l),
)
nhan_tai-IsGom (some cu) g loc ev now e (a, b) = (
  update-Agree places loc _ g.thu_tu g.muc a (ap is_some e),
  λ l. IsEntry-insert loc l _ g.muc (gop_vao-InBounds cu.evs ev (subst IsEntry e (b loc))) (b l),
)

nhan_theo-IsGom :
    (l : Option FileLoc) (g : Gom) (ev : FsEvent) (now : Ts)
    → IsGom g
    → IsGom (nhan_theo l g ev now).1
unfolding IsGom nhan_theo
nhan_theo-IsGom none g ev now h = h
nhan_theo-IsGom (some loc) g ev now h =
    nhan_tai-IsGom (HashMap.get loc_eq loc g.muc) g loc ev now refl h

nhan-IsGom : (g : Gom) (ev : FsEvent) (now : Ts) → IsGom g → IsGom (nhan g ev now).1
unfolding nhan
nhan-IsGom g ev now h = nhan_theo-IsGom (event_loc ev) g ev now h

IsEntry-if : (b : Bool) (o : Option Muc) → IsEntry o → IsEntry (if b then none else o)
IsEntry-if true o h = tt
IsEntry-if false o h = h

den_han-IsGom : (g : Gom) (now : Ts) → IsGom g → IsGom (den_han g now).1
unfolding IsGom den_han
den_han-IsGom g now (a, b) = (
  take_out-Agree places (toi_ky g.chu_ky_ms now) g.thu_tu g.muc a,
  λ l. rw (get-left_map places (toi_ky g.chu_ky_ms now) l g.thu_tu g.muc) (IsEntry-if _ _ (b l)),
)

xa_het-IsGom : (g : Gom) → IsGom (xa_het g).1
unfolding IsGom xa_het HashMap.get
xa_het-IsGom g = (empty-Agree Muc places, λ l. tt)

-- The calls that change a `Gom`.
pub data GomCall : Type 0 where
  receive : FsEvent → Ts → GomCall
  due : Ts → GomCall
  flush : GomCall

unfoldable pub after_calls : Gom → List GomCall → Gom
unfolding nhan den_han xa_het
after_calls g [] = g
after_calls g (receive ev now ∷ cs) = after_calls (nhan g ev now).1 cs
after_calls g (due now ∷ cs) = after_calls (den_han g now).1 cs
after_calls g (flush ∷ cs) = after_calls (xa_het g).1 cs

calls-IsGom : (cs : List GomCall) (g : Gom) → IsGom g → IsGom (after_calls g cs)
unfolding after_calls
calls-IsGom [] g h = h
calls-IsGom (receive ev now ∷ cs) g h = calls-IsGom cs (nhan g ev now).1 (nhan-IsGom g ev now h)
calls-IsGom (due now ∷ cs) g h = calls-IsGom cs (den_han g now).1 (den_han-IsGom g now h)
calls-IsGom (flush ∷ cs) g h = calls-IsGom cs (xa_het g).1 (xa_het-IsGom g)

moi-IsGom : (n : ℕ) (ms : ℤ) → IsGom (moi n ms)
unfolding IsGom HashMap.get
moi-IsGom n ms = (empty-Agree Muc places, λ l. tt)

-- After any calls on a new value, the list of the paths names each path of the map once and no
-- other, and every path holds at least one event and at most eight.
pub after_calls-IsGom : (n : ℕ) (ms : ℤ) (cs : List GomCall) → IsGom (after_calls (moi n ms) cs)
after_calls-IsGom n ms cs = calls-IsGom cs (moi n ms) (moi-IsGom n ms)

pub IsGom-NoDup : (g : Gom) → IsGom g → NoDup loc_eq g.thu_tu
unfolding IsGom Agree
IsGom-NoDup g h = h.0.0

-- A flush for time answers the urgent events, which do not stay, and then those of the paths whose
-- entry was made the period ago or longer, path by path in the order in which the paths came and
-- within a path in the order in which its events stand; the other paths stay as they are, in their
-- order.
pub den_han-view :
    (g : Gom) (now : Ts)
    → IsGom g
    → ((den_han g now).0
        ≡ g.khan
          ++ all_events (
              map
                (λ p. p.1)
                (filter
                  (λ p. le g.chu_ky_ms (saturating_sub now p.1.tu))
                  (view loc_eq g.thu_tu g.muc))))
      × ((den_han g now).1.khan ≡ [])
      × (view loc_eq (den_han g now).1.thu_tu (den_han g now).1.muc
          ≡ filter
              (λ p. not (le g.chu_ky_ms (saturating_sub now p.1.tu)))
              (view loc_eq g.thu_tu g.muc))
unfolding den_han
den_han-view g now h = (
  ap (λ ms. g.khan ++ all_events ms)
      (taken-view places (toi_ky g.chu_ky_ms now) g.thu_tu g.muc (IsGom-NoDup g h)),
  refl,
  take_out-view places (toi_ky g.chu_ky_ms now) g.thu_tu g.muc (IsGom-NoDup g h),
)
