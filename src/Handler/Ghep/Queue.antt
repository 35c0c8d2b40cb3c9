-- ===== src/Handler/Ghep/Queue.antt =====
-- The pairing of renames as one queue of waiting halves, in the order of their arrival; and that
-- crates/core/src/handler/ghep.rs, which keeps a map and a list of its keys, implements it.
use check_trung_video.Base.{
  ℕ, ◌==◌, List, [], ◌∷◌, ◌++◌, Option, none, some, Bool, not, map, filter, is_some, if◌then◌else◌,
  ◌≡◌,
}
use check_trung_video.Base.Int
use check_trung_video.Base.Int.{ℤ}
use check_trung_video.Base.HashMap
use check_trung_video.Base.HashMap.{HashMap, KeyTest}
use check_trung_video.Base.HashMap.Ordered.{view, Agree, replace, drop_key}
use check_trung_video.Model.Records.{Ts, FileLoc}
use check_trung_video.Events.{FsEvent, renamed, moved_in, removed_unknown}
use check_trung_video.Handler.Ghep.{
  GhepRename, nhan_from, qua_han, nhan_to, nhan_both, het_han, xa_het,
}

-- The calls that change a `GhepRename`.
pub data GhepCall : Type 0 where
  from_half : ℕ → FileLoc → Ts → GhepCall
  to_half : Option ℕ → FileLoc → Ts → GhepCall
  both_halves : Option ℕ → FileLoc → FileLoc → GhepCall
  expire : Ts → GhepCall
  flush : GhepCall

abbrev pub events_of : Option FsEvent × GhepRename → List FsEvent × GhepRename
events_of (none, g) = ([], g)
events_of (some e, g) = (e ∷ [], g)

abbrev pub to_event : FsEvent × GhepRename → List FsEvent × GhepRename
to_event (e, g) = (e ∷ [], g)

-- One call: the events that it answers, and the value that it leaves.
unfoldable pub perform : GhepRename → GhepCall → List FsEvent × GhepRename
unfolding nhan_from nhan_to nhan_both het_han xa_het
perform g (from_half t loc now) = ([], nhan_from g t loc now)
perform g (to_half t loc now) = to_event (nhan_to g t loc now)
perform g (both_halves t src dst) = events_of (nhan_both g t src dst)
perform g (expire now) = het_han g now
perform g flush = xa_het g

unfoldable pub perform_all : GhepRename → List GhepCall → List FsEvent
unfolding perform
perform_all g [] = []
perform_all g (c ∷ cs) = let (es, g') = perform g c in es ++ perform_all g' cs

-- The specification: the halves `From` that wait, in the order in which their trackers came.
pub record Waiting : Type 0 where
  pub window : ℤ
  pub halves : List (ℕ × (FileLoc × Ts))
  pub paired : HashMap ℕ Ts

unfoldable pub lookup : ℕ → List (ℕ × (FileLoc × Ts)) → Option (FileLoc × Ts)
lookup t [] = none
lookup t ((i, p) ∷ ps) = if i == t then some p else lookup t ps

abbrev pub forget : Waiting → ℕ → Waiting
forget w t = record w { halves = drop_key (◌==◌) t w.halves }

-- A half that waits is replaced where it stands; a new one goes to the end.
abbrev pub add_half : Waiting → ℕ → FileLoc × Ts → Waiting
add_half w t p = record w {
  halves =
      if is_some (lookup t w.halves)
      then replace (◌==◌) t p w.halves
      else w.halves ++ ((t, p) ∷ []);
}

-- A half `To` takes the waiting half of its tracker, if that is still in the window.
abbrev pub pair_with : Option (FileLoc × Ts) → Waiting → ℕ → FileLoc → Ts → List FsEvent × Waiting
pair_with none w t loc now = (moved_in loc ∷ [], w)
pair_with (some p) w t loc now = if qua_han w.window now p.1 then (moved_in loc ∷ [], w) else (
  renamed p.0 loc ∷ [],
  record (forget w t) { paired = HashMap.insert (◌==◌) t now w.paired },
)

abbrev pub stale_half : Waiting → Ts → ℕ × (FileLoc × Ts) → Bool
stale_half w now e = qua_han w.window now e.1.1

abbrev pub lost : ℕ × (FileLoc × Ts) → FsEvent
lost e = removed_unknown e.1.0

unfoldable pub wait : Waiting → GhepCall → List FsEvent × Waiting
unfolding lookup qua_han HashMap.get HashMap.insert HashMap.retain
wait w (from_half t loc now) = ([], add_half w t (loc, now))
wait w (to_half none loc now) = (moved_in loc ∷ [], w)
wait w (to_half (some t) loc now) = pair_with (lookup t w.halves) w t loc now
wait w (both_halves none src dst) = (renamed src dst ∷ [], w)
wait w (both_halves (some t) src dst) =
    if is_some (HashMap.get (◌==◌) t w.paired) then ([], w) else (renamed src dst ∷ [], forget w t)
wait w (expire now) = (
  map lost (filter (stale_half w now) w.halves),
  record w {
    halves = filter (λ e. not (stale_half w now e)) w.halves;
    paired = HashMap.retain (◌==◌) (λ luc. Int.le (Int.saturating_sub now luc) w.window) w.paired;
  },
)
wait w flush = (map lost w.halves, record w { halves = [] })

unfoldable pub wait_all : Waiting → List GhepCall → List FsEvent
unfolding wait
wait_all w [] = []
wait_all w (c ∷ cs) = let (es, w') = wait w c in es ++ wait_all w' cs

-- What the specification sees of a value.
unfoldable pub waiting : GhepRename → Waiting
unfolding view
waiting g = record { window = g.cua_so_ms; halves = view (◌==◌) g.thu_tu g.cho; paired = g.da_ghep }

abbrev pub IsQueue : GhepRename → Type 0
IsQueue g = Agree (◌==◌) g.thu_tu g.cho

abbrev pub Refines : GhepRename → GhepCall → Type 0
Refines g c =
    ((perform g c).0 ≡ (wait (waiting g) c).0)
    × (waiting (perform g c).1 ≡ (wait (waiting g) c).1)
    × IsQueue (perform g c).1
