-- ===== src/Handler/Ghep.antt =====
-- The pairing of the two halves of a rename: crates/core/src/handler/ghep.rs.
--
-- The methods that change `self` return the changed value beside their result.
pub mod Queue
pub mod Refine
use check_trung_video.Base.{
  ℕ, ◌==◌, ==-refl, ==_iff, List, [], ◌∷◌, ◌++◌, Option, none, some, Bool, true, false, map,
  is_none, is_some, opt_map, if◌then◌else◌, length, ◌≡◌, arith,
}
use check_trung_video.Base.Int
use check_trung_video.Base.Int.{ℤ}
use check_trung_video.Base.HashMap
use check_trung_video.Base.HashMap.{HashMap, KeyTest}
use check_trung_video.Base.HashMap.Ordered.{without, take_out}
use check_trung_video.Model.Records.{Ts, FileLoc}
use check_trung_video.Events.{FsEvent, renamed, moved_in, removed_unknown}

pub record GhepRename : Type 0 where
  pub cua_so_ms : ℤ
  pub cho : HashMap ℕ (FileLoc × Ts)
  pub thu_tu : List ℕ
  pub da_ghep : HashMap ℕ Ts

abbrev pub moi : ℤ → GhepRename
moi cua_so_ms = record { cua_so_ms = cua_so_ms; cho = []; thu_tu = []; da_ghep = [] }

unfoldable pub nhan_from : GhepRename → ℕ → FileLoc → Ts → GhepRename
unfolding HashMap.get HashMap.insert
nhan_from g tracker loc now = record g {
  cho = HashMap.insert (◌==◌) tracker (loc, now) g.cho;
  thu_tu =
      if is_none (HashMap.get (◌==◌) tracker g.cho) then g.thu_tu ++ (tracker ∷ []) else g.thu_tu;
}

abbrev pub nhan_from_khong_tracker : GhepRename → FileLoc → FsEvent
nhan_from_khong_tracker g loc = removed_unknown loc

unfoldable pub bo_cho : GhepRename → ℕ → Option FileLoc × GhepRename
unfolding HashMap.get HashMap.remove
bo_cho g tracker = (
  opt_map (λ (p : FileLoc × Ts). p.0) (HashMap.get (◌==◌) tracker g.cho),
  record g { thu_tu = without (◌==◌) tracker g.thu_tu; cho = HashMap.remove (◌==◌) tracker g.cho },
)

-- Whether a half that was received at `luc` is out of the window.
unfoldable pub qua_han : ℤ → Ts → Ts → Bool
unfolding Int.saturating_sub
qua_han cua_so now luc = Int.lt cua_so (Int.saturating_sub now luc)

-- The half that waits is taken, if it is still in the window.
unfoldable pub lay_trong_han :
    Option (FileLoc × Ts) → GhepRename → ℕ → Ts → Option FileLoc × GhepRename
unfolding qua_han bo_cho
lay_trong_han none g tracker now = (none, g)
lay_trong_han (some p) g tracker now =
    if qua_han g.cua_so_ms now p.1 then (none, g) else bo_cho g tracker

unfoldable pub lay_cho : GhepRename → ℕ → Ts → Option FileLoc × GhepRename
unfolding HashMap.get lay_trong_han
lay_cho g tracker now = lay_trong_han (HashMap.get (◌==◌) tracker g.cho) g tracker now

-- What is made of the half `To`, once the half `From` has been looked for.
abbrev pub ghep_cap : Option FileLoc × GhepRename → ℕ → FileLoc → Ts → FsEvent × GhepRename
ghep_cap (some src, g) t loc now =
    (renamed src loc, record g { da_ghep = HashMap.insert (◌==◌) t now g.da_ghep })
ghep_cap (none, g) t loc now = (moved_in loc, g)

unfoldable pub nhan_to : GhepRename → Option ℕ → FileLoc → Ts → FsEvent × GhepRename
unfolding lay_cho HashMap.insert
nhan_to g none loc now = (moved_in loc, g)
nhan_to g (some t) loc now = ghep_cap (lay_cho g t now) t loc now

unfoldable pub nhan_both : GhepRename → Option ℕ → FileLoc → FileLoc → Option FsEvent × GhepRename
unfolding bo_cho HashMap.get
nhan_both g none src dst = (some (renamed src dst), g)
nhan_both g (some t) src dst =
    if is_some (HashMap.get (◌==◌) t g.da_ghep)
    then (none, g)
    else (some (renamed src dst), (bo_cho g t).1)

abbrev pub removed_half : FileLoc × Ts → FsEvent
removed_half p = removed_unknown p.0

unfoldable pub het_han : GhepRename → Ts → List FsEvent × GhepRename
unfolding qua_han take_out HashMap.retain
het_han g now =
    let (giu, ra, cho) =
      take_out (◌==◌) (λ (p : FileLoc × Ts). qua_han g.cua_so_ms now p.1) g.thu_tu g.cho in
    (
      map removed_half ra,
      record g {
        thu_tu = giu;
        cho = cho;
        da_ghep =
            HashMap.retain (◌==◌) (λ luc. Int.le (Int.saturating_sub now luc) g.cua_so_ms)
              g.da_ghep;
      },
    )

unfoldable pub xa_het : GhepRename → List FsEvent × GhepRename
unfolding take_out
xa_het g =
    let (giu, ra, cho) = take_out (◌==◌) (λ (p : FileLoc × Ts). true) g.thu_tu g.cho in
    (map removed_half ra, record g { thu_tu = []; cho = [] })

abbrev pub so_cho : GhepRename → ℕ
so_cho g = length g.cho
