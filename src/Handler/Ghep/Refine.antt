-- ===== src/Handler/Ghep/Refine.antt =====
-- The pairing of crates/core/src/handler/ghep.rs implements the queue of waiting halves.
use check_trung_video.Base.{
  ℕ, ◌==◌, ==-refl, ==_iff, List, [], ◌∷◌, ◌++◌, Option, none, some, Bool, true, map, filter,
  is_some, opt_map, Option-cases, Bool-cases, inl, inr, if◌then◌else◌, ◌≡◌, refl, ap, sym, ◌∙◌,
  arith,
}
use check_trung_video.Base.Int
use check_trung_video.Base.Int.{ℤ}
use check_trung_video.Base.HashMap
use check_trung_video.Base.HashMap.{HashMap, KeyTest, get-insert}
use check_trung_video.Base.HashMap.Ordered.{
  view, Agree, view-insert_old, view-push_insert, view-without, contains, NoDup,
}
use check_trung_video.Base.HashMap.TakeOut.{take_out-view, taken-view}
use check_trung_video.Base.HashMap.Agreed.{
  empty-Agree, push-Agree, update-Agree, without-Agree, take_out-Agree, Agree-get,
}
use check_trung_video.Model.Records.{Ts, FileLoc}
use check_trung_video.Handler.Ghep.{
  GhepRename, moi, nhan_from, bo_cho, qua_han, lay_trong_han, lay_cho, nhan_to, nhan_both,
  removed_half, het_han, xa_het,
}
use check_trung_video.Handler.Ghep.Queue.{
  GhepCall, from_half, to_half, both_halves, expire, flush, perform, perform_all, Waiting, lookup,
  stale_half, lost, wait, wait_all, waiting, IsQueue, Refines,
}

abbrev numbers : KeyTest ℕ
numbers = record { same = ◌==◌; same_refl = ==-refl; same→≡ = λ a b h. (==_iff a b).0 h }

abbrev with_halves : GhepRename → List (ℕ × (FileLoc × Ts)) → Waiting
with_halves g x = record { window = g.cua_so_ms; halves = x; paired = g.da_ghep }

lookup-get : (t : ℕ) (ps : HashMap ℕ (FileLoc × Ts)) → lookup t ps ≡ HashMap.get (◌==◌) t ps
unfolding lookup HashMap.get
lookup-get t [] = refl
lookup-get t ((i, p) ∷ ps) = ground (arith, lookup-get t ps)

waiting-lookup :
    (g : GhepRename) (t : ℕ)
    → IsQueue g
    → lookup t (view (◌==◌) g.thu_tu g.cho) ≡ HashMap.get (◌==◌) t g.cho
waiting-lookup g t h =
    lookup-get t (view (◌==◌) g.thu_tu g.cho) ∙ Agree-get numbers t g.thu_tu g.cho h

Agree-contains :
    (g : GhepRename) (t : ℕ)
    → IsQueue g
    → is_some (HashMap.get (◌==◌) t g.cho) ≡ contains (◌==◌) t g.thu_tu
unfolding Agree
Agree-contains g t (d, h) = h t

from_half-new :
    (g : GhepRename) (t : ℕ) (p : FileLoc × Ts)
    → IsQueue g
    → HashMap.get (◌==◌) t g.cho ≡ none
    → (view (◌==◌) (g.thu_tu ++ (t ∷ [])) (HashMap.insert (◌==◌) t p g.cho)
        ≡ view (◌==◌) g.thu_tu g.cho ++ ((t, p) ∷ []))
      × Agree (◌==◌) (g.thu_tu ++ (t ∷ [])) (HashMap.insert (◌==◌) t p g.cho)
from_half-new g t p h n = (
  view-push_insert numbers t p g.thu_tu g.cho (sym (Agree-contains g t h) ∙ ap is_some n),
  push-Agree numbers t p g.thu_tu g.cho h (ap is_some n),
)

from_half-Refines :
    (g : GhepRename) (t : ℕ) (loc : FileLoc) (now : Ts)
    → IsQueue g
    → Refines g (from_half t loc now)
unfolding perform wait waiting nhan_from
from_half-Refines g t loc now h = elim (Option-cases (HashMap.get (◌==◌) t g.cho)) [
  | inl n ↦
      let (v, a) = from_half-new g t (loc, now) h n in
      rw (n, waiting-lookup g t h, n) (refl, ap (with_halves g) v, a)
  | inr (v, n) ↦
      rw (n, waiting-lookup g t h, n)
        (
          refl,
          ap (with_halves g) (view-insert_old numbers t (loc, now) g.thu_tu g.cho (ap is_some n)),
          update-Agree numbers t (loc, now) g.thu_tu g.cho h (ap is_some n),
        )
]

lay_cho-none :
    (g : GhepRename) (t : ℕ) (now : Ts)
    → HashMap.get (◌==◌) t g.cho ≡ none
    → lay_cho g t now ≡ (none, g)
unfolding lay_cho lay_trong_han
lay_cho-none g t now n = ap (λ o. lay_trong_han o g t now) n

bo_cho-some :
    (g : GhepRename) (t : ℕ) {p : FileLoc × Ts}
    → HashMap.get (◌==◌) t g.cho ≡ some p
    → bo_cho g t ≡ (some p.0, (bo_cho g t).1)
unfolding bo_cho
bo_cho-some g t n = ap (λ o. (opt_map (λ (p : FileLoc × Ts). p.0) o, (bo_cho g t).1)) n

lay_cho-some :
    (g : GhepRename) (t : ℕ) (now : Ts) {p : FileLoc × Ts}
    → HashMap.get (◌==◌) t g.cho ≡ some p
    → lay_cho g t now
      ≡ (if qua_han g.cua_so_ms now p.1 then (none, g) else (some p.0, (bo_cho g t).1))
unfolding lay_cho lay_trong_han
lay_cho-some g t now {p} n =
    ap (λ o. lay_trong_han o g t now) n
    ∙ ap (λ x. if qua_han g.cua_so_ms now p.1 then (none, g) else x) (bo_cho-some g t {p = p} n)

to_half-Refines :
    (g : GhepRename) (t : Option ℕ) (loc : FileLoc) (now : Ts)
    → IsQueue g
    → Refines g (to_half t loc now)
unfolding perform wait waiting nhan_to bo_cho
to_half-Refines g none loc now h = (refl, refl, h)
to_half-Refines g (some t) loc now h = elim (Option-cases (HashMap.get (◌==◌) t g.cho)) [
  | inl n ↦ rw (lay_cho-none g t now n, waiting-lookup g t h, n) (refl, refl, h)
  | inr (p, n) ↦ elim (Bool-cases (qua_han g.cua_so_ms now p.1)) [
    | inl q ↦ rw (lay_cho-some g t now {p = p} n, waiting-lookup g t h, n, q) (refl, refl, h)
    | inr q ↦
        rw (lay_cho-some g t now {p = p} n, waiting-lookup g t h, n, q)
          (
            refl,
            ap (with_halves (record g { da_ghep = HashMap.insert (◌==◌) t now g.da_ghep }))
                (view-without numbers t g.thu_tu g.cho),
            without-Agree numbers t g.thu_tu g.cho h,
          )
  ]
]

both_halves-Refines :
    (g : GhepRename) (t : Option ℕ) (src dst : FileLoc)
    → IsQueue g
    → Refines g (both_halves t src dst)
unfolding perform wait waiting nhan_both bo_cho
both_halves-Refines g none src dst h = (refl, refl, h)
both_halves-Refines g (some t) src dst h =
    elim (Bool-cases (is_some (HashMap.get (◌==◌) t g.da_ghep))) [
      | inl q ↦ rw q (refl, refl, h)
      | inr q ↦ rw q (
        refl,
        ap (with_halves g) (view-without numbers t g.thu_tu g.cho),
        without-Agree numbers t g.thu_tu g.cho h,
      )
    ]

map-lost : (ps : List (ℕ × (FileLoc × Ts))) → map removed_half (map (λ p. p.1) ps) ≡ map lost ps
map-lost [] = refl
map-lost (p ∷ ps) = ap (λ x. lost p ∷ x) (map-lost ps)

filter-all : (ps : List (ℕ × (FileLoc × Ts))) → filter (λ p. true) ps ≡ ps
filter-all [] = refl
filter-all (p ∷ ps) = ap (λ x. p ∷ x) (filter-all ps)

IsQueue-NoDup : (g : GhepRename) → IsQueue g → NoDup (◌==◌) g.thu_tu
unfolding Agree
IsQueue-NoDup g h = h.0

expire-Refines : (g : GhepRename) (now : Ts) → IsQueue g → Refines g (expire now)
unfolding perform wait waiting het_han
expire-Refines g now h =
    let stale : FileLoc × Ts → Bool = λ (p : FileLoc × Ts). qua_han g.cua_so_ms now p.1 in
    let d = IsQueue-NoDup g h in
    (
      ap (map removed_half) (taken-view numbers stale g.thu_tu g.cho d)
          ∙ map-lost (filter (stale_half (waiting g) now) (view (◌==◌) g.thu_tu g.cho)),
      ap
          (with_halves (record g {
            da_ghep =
                HashMap.retain (◌==◌) (λ luc. Int.le (Int.saturating_sub now luc) g.cua_so_ms)
                  g.da_ghep;
          }))
          (take_out-view numbers stale g.thu_tu g.cho d),
      take_out-Agree numbers stale g.thu_tu g.cho h,
    )

flush-Refines : (g : GhepRename) → IsQueue g → Refines g flush
unfolding perform wait waiting xa_het
flush-Refines g h = (
  ap (map removed_half) (
        taken-view numbers (λ p. true) g.thu_tu g.cho (IsQueue-NoDup g h)
        ∙ ap (map (λ p. p.1)) (filter-all (view (◌==◌) g.thu_tu g.cho)))
      ∙ map-lost (view (◌==◌) g.thu_tu g.cho),
  refl,
  empty-Agree (FileLoc × Ts) numbers,
)

-- A call on a value whose list of trackers agrees with its map answers the events that the queue of
-- waiting halves answers, leaves the value that the queue leaves, and keeps the agreement.
pub perform-Refines : (g : GhepRename) (c : GhepCall) → IsQueue g → Refines g c
perform-Refines g (from_half t loc now) h = from_half-Refines g t loc now h
perform-Refines g (to_half t loc now) h = to_half-Refines g t loc now h
perform-Refines g (both_halves t src dst) h = both_halves-Refines g t src dst h
perform-Refines g (expire now) h = expire-Refines g now h
perform-Refines g flush h = flush-Refines g h

run_refines :
    (cs : List GhepCall) (g : GhepRename) → IsQueue g → perform_all g cs ≡ wait_all (waiting g) cs
unfolding perform_all wait_all
run_refines [] g h = refl
run_refines (c ∷ cs) g h =
    let (e, w, h') = perform-Refines g c h in
    ap (λ x. x ++ perform_all (perform g c).1 cs) e
    ∙ ap (λ x. (wait (waiting g) c).0 ++ x)
        (run_refines cs (perform g c).1 h' ∙ ap (λ x. wait_all x cs) w)

-- Whatever calls are made on a new value, it answers the events of the queue of waiting halves, in
-- which a half `To` takes the half `From` of its tracker if it comes within the window, a half that
-- is out of the window goes as a removal, each once and in the order of the queue, where a
-- tracker that is used again keeps its place, and `Both` is dropped for a pair that was made.
pub perform_all-Refines :
    (w : ℤ) (cs : List GhepCall)
    → perform_all (moi w) cs ≡ wait_all (record { window = w; halves = []; paired = [] }) cs
unfolding waiting
perform_all-Refines w cs = run_refines cs (moi w) (empty-Agree (FileLoc × Ts) numbers)
