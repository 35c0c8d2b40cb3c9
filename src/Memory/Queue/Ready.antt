-- ===== src/Memory/Queue/Ready.antt =====
-- When a row is ready: `is_ready` of crates/core/src/repo/rules.rs.
use check_trung_video.Base.{
  Option, Option, is_some_and, Bool, true, false, none, some, ◌≡◌, refl, arith, inl, inr, not, ◌&&◌,
  ◌||◌, ◌⊎◌,
}
use check_trung_video.Base.Int
use check_trung_video.Base.Int.{ℤ, ◌≤ℤ◌, ◌<ℤ◌, eq_of_parts}
use check_trung_video.Model.State
use check_trung_video.Model.State.{settling, sized}
use check_trung_video.Model.Records.{Ts, FileRecord}
use check_trung_video.Rules.{is_ready, is_light}

-- Why the row may be worked on now: heavy work is allowed, the row is before it, or it has waited for
-- long enough.
abbrev pub MayRun : FileRecord → Ts → Bool → ℤ → Type 0
MayRun r now allow_heavy max_wait_ms =
    (allow_heavy ≡ true)
    ⊎ ((r.state ≡ settling)
        ⊎ ((r.state ≡ sized)
            ⊎ ((t : Ts) × (r.heavy_wait_since ≡ some t)
                × (t ≤ℤ Int.saturating_sub now max_wait_ms))))

pub and_parts : (q g k : Bool) → (q && (g && k)) ≡ true → (g ≡ true) × (k ≡ true)
and_parts q g k h = ground arith

pub may_run :
    (a : Bool) (st : State.State) (w : Option Ts) (l : ℤ)
    → (a || is_light st || is_some_and (λ t. Int.le t l) w) ≡ true
    → (a ≡ true) ⊎ ((st ≡ settling) ⊎ ((st ≡ sized) ⊎ ((t : Ts) × (w ≡ some t) × (t ≤ℤ l))))
may_run true st w l h = inl refl
may_run false settling w l h = inr (inl refl)
may_run false sized w l h = inr (inr (inl refl))
may_run false _ none l h = ground arith
may_run false _ (some t) l h = inr (inr (inr (t, refl, ground arith)))

-- The parts of readiness
pub ready_parts :
    (q : Bool) (o : Option Ts) (now : Ts) (a : Bool) (st : State.State) (w : Option Ts) (l : ℤ)
    → (q
        && is_some_and
            (λ (t : Ts).
              not (Int.lt now t) && (a || is_light st || is_some_and (λ t. Int.le t l) w))
            o)
      ≡ true
    → ((t : Ts) × (o ≡ some t) × (t ≤ℤ now))
      × ((a ≡ true) ⊎ ((st ≡ settling) ⊎ ((st ≡ sized) ⊎ ((t : Ts) × (w ≡ some t) × (t ≤ℤ l)))))
ready_parts q none now a st w l h = ground arith
ready_parts q (some t) now a st w l h =
    let (g, k) =
      and_parts q (not (Int.lt now t)) (a || is_light st || is_some_and (λ t. Int.le t l) w) h in
    ((t, refl, ground arith), may_run a st w l k)

pub is_ready-parts :
    (r : FileRecord) (now : Ts) (allow_heavy : Bool) (max_wait_ms : ℤ)
    → is_ready r now allow_heavy max_wait_ms ≡ true
    → ((t : Ts) × (r.ready_at ≡ some t) × (t ≤ℤ now)) × MayRun r now allow_heavy max_wait_ms
unfolding is_ready
is_ready-parts r now allow_heavy max_wait_ms h =
    ready_parts (State.is_queued r.state) r.ready_at now allow_heavy r.state r.heavy_wait_since
      (Int.saturating_sub now max_wait_ms) h
