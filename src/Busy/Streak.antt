-- ===== src/Busy/Streak.antt =====
-- The detector of crates/core/src/busy.rs changes its state only after an unbroken run of samples.
use check_trung_video.Base.{
  List, [], ◌∷◌, Bool, true, Option, none, some, unwrap_or, inl, inr, ◌≡◌, refl, ap, sym, ◌∙◌,
  subst, ◌≢◌, ◌⊎◌, arith,
}
use check_trung_video.Base.Int.{◌≤ℤ◌, sub_i64}
use check_trung_video.Model.Records.{Ts}
use check_trung_video.Busy.{TrangThai, chay, tam_dung, Nguong, BoPhatHien, moi, PctTest, nap}

module _ {F : Type 0} (t : PctTest F) (n : Nguong) where
  -- The detector after the samples, of which the last comes first.
  unfoldable pub after_samples : List (F × Ts) → BoPhatHien
  unfolding nap
  after_samples [] = moi n
  after_samples ((u, now) ∷ older) = nap t (after_samples older) u now

  -- The sample speaks for leaving the state.
  abbrev pub speaks : TrangThai → F → Bool
  speaks chay u = t.at_least u n.ban_pct
  speaks tam_dung u = t.at_most u n.ranh_pct

  abbrev pub cua_so : TrangThai → Ts
  cua_so chay = n.cua_so_ban_ms
  cua_so tam_dung = n.cua_so_ranh_ms

  abbrev pub other_state : TrangThai → TrangThai
  other_state chay = tam_dung
  other_state tam_dung = chay

  -- The last samples, from one at `tu` on, all speak for leaving the state.
  pub data IsStreak (x : TrangThai) (tu : Ts) : List (F × Ts) → Type 0 where
    first : {u : F} {older : List (F × Ts)} → speaks x u ≡ true → IsStreak x tu ((u, tu) ∷ older)
    more :
        {u : F} {now : Ts} {older : List (F × Ts)}
        → speaks x u ≡ true
        → IsStreak x tu older
        → IsStreak x tu ((u, now) ∷ older)

  abbrev at : TrangThai → Option Ts → BoPhatHien
  at x o = record { nguong = n; trang_thai = x; tu_luc = o }

  -- The remembered time is the beginning of such a run.
  abbrev IsTracked : TrangThai → Option Ts → List (F × Ts) → Type 0
  IsTracked x o hist = (tu : Ts) → o ≡ some tu → IsStreak x tu hist

  abbrev Left : TrangThai → Ts → List (F × Ts) → Type 0
  Left x now hist = (tu : Ts) × IsStreak x tu hist × (cua_so x ≤ℤ sub_i64 now tu)

  abbrev Next : TrangThai → F → Ts → List (F × Ts) → BoPhatHien → Type 0
  Next x u now older b =
      (y : TrangThai) × (o : Option Ts) × (b ≡ at y o)
      × IsTracked y o ((u, now) ∷ older)
      × ((y ≡ x) ⊎ Left x now ((u, now) ∷ older))

  -- The three branches of a sample.
  nap-cases :
      (x : TrangThai) (o : Option Ts) (u : F) (now : Ts)
      → (nap t (at x o) u now ≡ at x none)
        ⊎ ((speaks x u ≡ true)
            × ((nap t (at x o) u now ≡ at x (some (unwrap_or now o)))
                ⊎ ((nap t (at x o) u now ≡ at (other_state x) none)
                    × (cua_so x ≤ℤ sub_i64 now (unwrap_or now o)))))
  unfolding nap
  nap-cases chay o u now = ground arith
  nap-cases tam_dung o u now = ground arith

  IsTracked-none : (x : TrangThai) (hist : List (F × Ts)) → IsTracked x none hist
  IsTracked-none x hist tu e = ground arith

  streak_start :
      (x : TrangThai) (o : Option Ts) (u : F) (now : Ts) (older : List (F × Ts))
      → speaks x u ≡ true
      → IsTracked x o older
      → IsStreak x (unwrap_or now o) ((u, now) ∷ older)
  streak_start x none u now older h k = first h
  streak_start x (some tu) u now older h k = more h (k tu refl)

  nap-Next :
      (x : TrangThai) (o : Option Ts) (u : F) (now : Ts) (older : List (F × Ts))
      → IsTracked x o older
      → Next x u now older (nap t (at x o) u now)
  nap-Next x o u now older k = elim (nap-cases x o u now) [
    | inl e ↦ (x, none, e, IsTracked-none x ((u, now) ∷ older), inl refl)
    | inr (h, inl e) ↦
        let s = streak_start x o u now older h k in
        (
          x,
          some (unwrap_or now o),
          e,
          λ tu q. subst (λ v. IsStreak x v ((u, now) ∷ older)) (ap (unwrap_or now) q) s,
          inl refl,
        )
    | inr (h, inr (e, w)) ↦ (
      other_state x,
      none,
      e,
      IsTracked-none (other_state x) ((u, now) ∷ older),
      inr (unwrap_or now o, streak_start x o u now older h k, w),
    )
  ]

  after-IsTracked :
      (hist : List (F × Ts))
      → (x : TrangThai) × (o : Option Ts) × (after_samples hist ≡ at x o) × IsTracked x o hist
  unfolding after_samples
  after-IsTracked [] = (chay, none, refl, IsTracked-none chay [])
  after-IsTracked ((u, now) ∷ older) =
      let (x, o, e, k) = after-IsTracked older in
      let (y, o', e', k', _) = nap-Next x o u now older k in
      (y, o', ap (λ b. nap t b u now) e ∙ e', k')

  -- From a new detector on, whatever samples come: where the last sample changes the state, it ends
  -- a run of samples without a break that all speak for leaving the old state, a load of at least
  -- `ban_pct` for a pause and of at most `ranh_pct` for its end, and the time from the first sample
  -- of the run to the last is at least the window of the old state.
  pub after_samples-changed :
      (older : List (F × Ts)) (u : F) (now : Ts)
      → (after_samples ((u, now) ∷ older)).trang_thai ≢ (after_samples older).trang_thai
      → (tu : Ts) × IsStreak (after_samples older).trang_thai tu ((u, now) ∷ older)
        × (cua_so (after_samples older).trang_thai ≤ℤ sub_i64 now tu)
  unfolding after_samples
  after_samples-changed older u now c =
      let (x, o, e, k) = after-IsTracked older in
      let (y, o', e', k', d) = nap-Next x o u now older k in
      let ex = ap (λ b. b.trang_thai) e in
      let ey = ap (λ b. (nap t b u now).trang_thai) e ∙ ap (λ b. b.trang_thai) e' in
      elim d [
        | inl q ↦ elim (c (ey ∙ q ∙ sym ex)) [ ]
        | inr l ↦ subst (λ v. Left v now ((u, now) ∷ older)) (sym ex) l
      ]
