-- ===== src/Window/Next.antt =====
-- The windows of crates/core/src/window.rs: which minutes they hold and which one opens next.
use check_trung_video.Base.{
  ℕ, ◌+◌, ◌-◌, ◌/◌, ◌%◌, ◌<◌, ltb, leb, List, [], ◌∷◌, Bool, true, false, if◌then◌else◌, Option,
  none, some, In, here, there, unwrap_or, Bool-cases, inl, inr, ◌⊎◌, ◌≡◌, refl, ap, sym, ◌∙◌, subst,
  arith,
}
use check_trung_video.Base.Int.{◌≤ℤ◌, ◌<ℤ◌, lt}
use check_trung_video.Model.Records.{Ts}
use check_trung_video.Window.{
  TimeWindow, contains, Jiff, som_hon, bat_dau, duyet_khung, bat_dau_ke_tiep,
}

-- With minutes of a day: a minute is in the window exactly when, counted around the clock from the
-- start of the window, it comes before the end.
pub contains-clock :
    (k : TimeWindow) (min : ℕ)
    → k.start_min < 1440
    → k.end_min < 1440
    → min < 1440
    → contains k min
      ≡ ltb ((min + 1440 - k.start_min) % 1440) ((k.end_min + 1440 - k.start_min) % 1440)
contains-clock k min hs he hm = ground arith

abbrev IsAll : (Ts → Type 0) → Option Ts → Type 0
IsAll P o = (ms : Ts) → o ≡ some ms → P ms

-- No later than `m`
abbrev pub IsBy : Ts → Option Ts → Type 0
IsBy m o = (ms : Ts) × (o ≡ some ms) × (ms ≤ℤ m)

-- The start is taken, or another one was as early, or it has passed.
som_hon-cases :
    (now x : Ts) (o : Option Ts)
    → ((som_hon now (some x) o ≡ some x) × (now <ℤ x) × ((y : Ts) → o ≡ some y → x ≤ℤ y))
      ⊎ ((som_hon now (some x) o ≡ o) × (now <ℤ x → IsBy x o))
som_hon-cases now x none = elim (Bool-cases (lt now x)) [
  | inl h ↦ inl (rw h refl, ground arith, λ y e. ground arith)
  | inr h ↦ inr (rw h refl, λ l. ground arith)
]
som_hon-cases now x (some y) = elim (Bool-cases (lt now x)) [
  | inr h ↦ inr (rw h refl, λ l. ground arith)
  | inl h ↦ elim (Bool-cases (lt x y)) [
    | inl g ↦ inl (rw (h, g) refl, ground arith, λ z e. ground arith)
    | inr g ↦ inr (rw (h, g) refl, λ l. (y, refl, ground arith))
  ]
]

IsBy-le : (m x : Ts) (o : Option Ts) → x ≤ℤ m → IsBy x o → IsBy m o
IsBy-le m x o h (ms, e, l) = (ms, e, omega arith)

som_hon-IsAll :
    (now : Ts) (P : Ts → Type 0) (a o : Option Ts)
    → ((m : Ts) → a ≡ some m → now <ℤ m → P m)
    → IsAll P o
    → IsAll P (som_hon now a o)
som_hon-IsAll now P none o p h ms e = h ms e
som_hon-IsAll now P (some x) o p h ms e = elim (som_hon-cases now x o) [
  | inl (q, l, _) ↦ subst P (ap (unwrap_or now) (sym q ∙ e)) (p x refl l)
  | inr (q, _) ↦ h ms (sym q ∙ e)
]

som_hon-IsBy : (now m : Ts) (o : Option Ts) → now <ℤ m → IsBy m (som_hon now (some m) o)
som_hon-IsBy now m o l = elim (som_hon-cases now m o) [
  | inl (q, _, _) ↦ (m, q, omega arith)
  | inr (q, k) ↦ subst (IsBy m) (sym q) (k l)
]

som_hon-keeps : (now m : Ts) (a o : Option Ts) → IsBy m o → IsBy m (som_hon now a o)
som_hon-keeps now m none o h = h
som_hon-keeps now m (some x) o (ms, e, l) = elim (som_hon-cases now x o) [
  | inl (q, _, k) ↦ (x, q, omega (arith, k ms e))
  | inr (q, _) ↦ (ms, q ∙ e, l)
]

fits_i8 : (n : ℕ) → n < 1440 → leb (n / 60) 127 ≡ true
fits_i8 n h = ground arith

if_some :
    {A : Type 0} (b : Bool) {x : Option A} {r : A} → (if b then x else none) ≡ some r → x ≡ some r
if_some true e = e
if_some false e = ground arith

module _ {Tz Timestamp Date : Type 0} (j : Jiff Tz Timestamp Date) (tz : Tz) (now : Ts) where
  -- A step of the loop that goes on.
  duyet_khung-next :
      (d : Date) (k : TimeWindow) (khung : List TimeWindow) (o : Option Ts) {r : Option Ts}
      → duyet_khung j tz d now (k ∷ khung) o ≡ some r
      → duyet_khung j tz d now khung (som_hon now (bat_dau j tz d k) o) ≡ some r
  unfolding duyet_khung
  duyet_khung-next d k khung o e = if_some (leb (k.start_min / 60) 127) e

  duyet_khung-IsAll :
      (P : Ts → Type 0) (d : Date) (khung : List TimeWindow) (o : Option Ts) {r : Option Ts}
      → duyet_khung j tz d now khung o ≡ some r
      → ((k : TimeWindow) → In k khung → (m : Ts) → bat_dau j tz d k ≡ some m → now <ℤ m → P m)
      → IsAll P o
      → IsAll P r
  unfolding duyet_khung
  duyet_khung-IsAll P d [] o e p h = subst (IsAll P) (ap (unwrap_or o) e) h
  duyet_khung-IsAll P d (k ∷ khung) o e p h =
      duyet_khung-IsAll P d khung (som_hon now (bat_dau j tz d k) o)
        (duyet_khung-next d k khung o e) (λ k' n. p k' (there n))
        (som_hon-IsAll now P (bat_dau j tz d k) o (p k here) h)

  duyet_khung-keeps :
      (d : Date) (khung : List TimeWindow) (o : Option Ts) {r : Option Ts} (m : Ts)
      → duyet_khung j tz d now khung o ≡ some r
      → IsBy m o
      → IsBy m r
  unfolding duyet_khung
  duyet_khung-keeps d [] o m e h = subst (IsBy m) (ap (unwrap_or o) e) h
  duyet_khung-keeps d (k ∷ khung) o m e h =
      duyet_khung-keeps d khung (som_hon now (bat_dau j tz d k) o) m
        (duyet_khung-next d k khung o e) (som_hon-keeps now m (bat_dau j tz d k) o h)

  -- Each window of the list that opens after `now` was looked at.
  duyet_khung-In :
      (d : Date) (khung : List TimeWindow) (o : Option Ts) {r : Option Ts} {k : TimeWindow} (m : Ts)
      → duyet_khung j tz d now khung o ≡ some r
      → In k khung
      → bat_dau j tz d k ≡ some m
      → now <ℤ m
      → IsBy m r
  duyet_khung-In d [] o m e n b l = elim n [ ]
  duyet_khung-In d (k ∷ khung) o m e here b l =
      duyet_khung-keeps d khung (som_hon now (bat_dau j tz d k) o) m
        (duyet_khung-next d k khung o e)
        (subst (λ a. IsBy m (som_hon now a o)) (sym b) (som_hon-IsBy now m o l))
  duyet_khung-In d (k ∷ khung) o m e (there n) b l =
      duyet_khung-In d khung (som_hon now (bat_dau j tz d k) o) m (duyet_khung-next d k khung o e) n
        b l

  -- With the hours of a day, the loop goes through the list.
  duyet_khung-ends :
      (d : Date) (khung : List TimeWindow) (o : Option Ts)
      → ((k : TimeWindow) → In k khung → k.start_min < 1440)
      → (r : Option Ts) × (duyet_khung j tz d now khung o ≡ some r)
  unfolding duyet_khung
  duyet_khung-ends d [] o h = (o, refl)
  duyet_khung-ends d (k ∷ khung) o h =
      let (r, e) =
        duyet_khung-ends d khung (som_hon now (bat_dau j tz d k) o) (λ k' n. h k' (there n)) in
      (r, rw (fits_i8 k.start_min (h k here)) e)

  -- The start of a window of the list after `now`, today or tomorrow
  abbrev pub IsStart : (hom_nay mai : Date) → List TimeWindow → Ts → Type 0
  IsStart hom_nay mai khung ms =
      (k : TimeWindow) × In k khung
      × ((bat_dau j tz hom_nay k ≡ some ms) ⊎ (bat_dau j tz mai k ≡ some ms))
      × (now <ℤ ms)

  -- Both days
  hai_ngay :
      (hom_nay mai : Date) (khung : List TimeWindow) (k : TimeWindow) (m : Ts)
      → ((k : TimeWindow) → In k khung → k.start_min < 1440)
      → In k khung
      → (bat_dau j tz hom_nay k ≡ some m) ⊎ (bat_dau j tz mai k ≡ some m)
      → now <ℤ m
      → (r : Option Ts) × (r' : Option Ts) × (duyet_khung j tz hom_nay now khung none ≡ some r)
        × (duyet_khung j tz mai now khung r ≡ some r')
        × IsAll (IsStart hom_nay mai khung) r'
        × IsBy m r'
  hai_ngay hom_nay mai khung k m h n b l =
      let (r, e) = duyet_khung-ends hom_nay khung none h in
      let (r', e') = duyet_khung-ends mai khung r h in
      let P = IsStart hom_nay mai khung in
      let all =
        duyet_khung-IsAll P hom_nay khung none e (λ k n m b l. (k, n, inl b, l))
          (λ ms q. ground arith) in
      (
        r,
        r',
        e,
        e',
        duyet_khung-IsAll P mai khung r e' (λ k n m b l. (k, n, inr b, l)) all,
        elim b [
          | inl b ↦ duyet_khung-keeps mai khung r m e' (duyet_khung-In hom_nay khung none m e n b l)
          | inr b ↦ duyet_khung-In mai khung r m e' n b l
        ],
      )

  -- With the times of the windows below 24:00, and two days that the calendar knows: if a window
  -- starts after `now` today or tomorrow, a time is found, it is the start of a window of the list
  -- after `now` on one of the two days, and it is no later than that start.
  pub bat_dau_ke_tiep-soonest :
      (khung : List TimeWindow) (ts : Timestamp) (hom_nay mai : Date) (k : TimeWindow) (m : Ts)
      → j.from_millisecond now ≡ some ts
      → j.checked_add (j.date tz ts) 0 ≡ some hom_nay
      → j.checked_add (j.date tz ts) 1 ≡ some mai
      → ((k : TimeWindow) → In k khung → k.start_min < 1440)
      → In k khung
      → (bat_dau j tz hom_nay k ≡ some m) ⊎ (bat_dau j tz mai k ≡ some m)
      → now <ℤ m
      → (ms : Ts) × (bat_dau_ke_tiep j khung tz now ≡ some ms)
        × IsStart hom_nay mai khung ms
        × (ms ≤ℤ m)
  unfolding bat_dau_ke_tiep
  bat_dau_ke_tiep-soonest khung ts hom_nay mai k m t d0 d1 h n b l =
      let (r, r', e, e', all, (ms, q, le)) = hai_ngay hom_nay mai khung k m h n b l in
      (ms, rw (t, d0, e, d1, e') q, all ms q, le)
