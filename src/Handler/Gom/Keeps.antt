-- ===== src/Handler/Gom/Keeps.antt =====
-- The list of the events of one path in crates/core/src/handler/gom.rs: what a new event overwrites,
-- and how long the list can be.
use check_trung_video.Base.{
  ℕ, suc, ◌≤◌, ◌<◌, leb, List, [], ◌∷◌, ◌++◌, Option, none, some, true, false, not, ◌||◌, ◌&&◌,
  is_some, unwrap_or, false≢true, length, In, here, there, Option-cases, Bool-cases, inl, inr, ◌⊎◌,
  ◌≡◌, refl, ap, sym, ◌∙◌, arith,
}
use check_trung_video.Events.{FsEvent}
use check_trung_video.Handler.Gom.{
  bo, de, them, la_yeu, mang_thong_tin_rieng, co_the_de, last, set_last, cach_sau, cach,
  tran_moi_duong_dan, gop_vao,
}

length-set_last : (ev : FsEvent) (es : List FsEvent) → length (set_last ev es) ≡ length es
length-set_last ev [] = refl
length-set_last ev (e ∷ []) = refl
length-set_last ev (e ∷ f ∷ es) = ap suc (length-set_last ev (f ∷ es))

length-push : (ev : FsEvent) (es : List FsEvent) → length (es ++ (ev ∷ [])) ≡ suc (length es)
length-push ev [] = refl
length-push ev (e ∷ es) = ap suc (length-push ev es)

In-push : (ev : FsEvent) (es : List FsEvent) → In ev (es ++ (ev ∷ []))
In-push ev [] = here
In-push ev (e ∷ es) = there (In-push ev es)

In-append : (ev : FsEvent) (es : List FsEvent) {x : FsEvent} → In x es → In x (es ++ (ev ∷ []))
In-append ev [] n = elim n [ ]
In-append ev (e ∷ es) here = here
In-append ev (e ∷ es) (there n) = there (In-append ev es n)

In-set_last : (ev e : FsEvent) (es : List FsEvent) → In ev (set_last ev (e ∷ es))
In-set_last ev e [] = here
In-set_last ev e (f ∷ es) = there (In-set_last ev f es)

-- Only the last event is overwritten.
set_last-keeps :
    (ev : FsEvent) (es : List FsEvent) {x c : FsEvent}
    → In x es
    → last es ≡ some c
    → mang_thong_tin_rieng c ≡ false
    → mang_thong_tin_rieng x ≡ true
    → In x (set_last ev es)
set_last-keeps ev [] n l hc hx = elim n [ ]
set_last-keeps ev (e ∷ []) here l hc hx =
    elim (false≢true (sym hc ∙ ap mang_thong_tin_rieng (sym (ap (unwrap_or e) l)) ∙ hx)) [ ]
set_last-keeps ev (e ∷ []) (there n) l hc hx = elim n [ ]
set_last-keeps ev (e ∷ f ∷ es) here l hc hx = here
set_last-keeps ev (e ∷ f ∷ es) {c = c} (there n) l hc hx =
    there (set_last-keeps ev (f ∷ es) {c = c} n l hc hx)

co_the_de-plain : (c ev : FsEvent) → co_the_de c ev ≡ true → mang_thong_tin_rieng c ≡ false
co_the_de-plain c ev h = ground arith

last-some : (e : FsEvent) (es : List FsEvent) → is_some (last (e ∷ es)) ≡ true
last-some e [] = refl
last-some e (f ∷ es) = last-some f es

abbrev pub InBounds : List FsEvent → Type 0
InBounds es = (1 ≤ length es) × (length es ≤ 8)

cach_sau-InBounds :
    (o : Option FsEvent) (es : List FsEvent) (ev : FsEvent)
    → is_some o ≡ true
    → InBounds es
    → InBounds (gop_vao (cach_sau o (length es) ev) es ev)
cach_sau-InBounds none es ev t h = cc t
cach_sau-InBounds (some c) es ev t h = ground (arith, length-set_last ev es, length-push ev es)

pub gop_vao-InBounds :
    (es : List FsEvent) (ev : FsEvent) → InBounds es → InBounds (gop_vao (cach es ev) es ev)
gop_vao-InBounds [] ev h = ground arith
gop_vao-InBounds (e ∷ es) ev h = cach_sau-InBounds (last (e ∷ es)) (e ∷ es) ev (last-some e es) h

-- The events in an entry with room are overwritten only if the last of them is plain.
cach_sau-cases :
    (c : FsEvent) (n : ℕ) (ev : FsEvent)
    → n < 8
    → (cach_sau (some c) n ev ≡ bo)
      ⊎ (((cach_sau (some c) n ev ≡ de) × (co_the_de c ev ≡ true))
          ⊎ (cach_sau (some c) n ev ≡ them))
cach_sau-cases c n ev h = elim (Bool-cases (la_yeu ev && not (la_yeu c))) [
  | inl t ↦ inl (rw t refl)
  | inr f ↦ elim (Bool-cases (co_the_de c ev)) [
    | inl t ↦ inr (inl (rw (f, t) refl, t))
    | inr g ↦ inr (inr (rw (f, g) (ground arith)))
  ]
]

-- A strong event is not dropped.
cach_sau-strong :
    (c : FsEvent) (n : ℕ) (ev : FsEvent)
    → la_yeu ev ≡ false
    → (cach_sau (some c) n ev ≡ de) ⊎ (cach_sau (some c) n ev ≡ them)
cach_sau-strong c n ev h = elim (Bool-cases (co_the_de c ev || leb tran_moi_duong_dan n)) [
  | inl t ↦ inl (rw (h, t) refl)
  | inr f ↦ inr (rw (h, f) refl)
]

pub gop_vao-keeps :
    (es : List FsEvent) (ev : FsEvent) {x : FsEvent}
    → In x es
    → length es < 8
    → mang_thong_tin_rieng x ≡ true
    → In x (gop_vao (cach es ev) es ev)
gop_vao-keeps es ev {x} n b hx = elim (Option-cases (last es)) [
  | inl l ↦ rw l (In-append ev es n)
  | inr (c, l) ↦ elim (cach_sau-cases c (length es) ev b) [
    | inl e ↦ rw (l, e) n
    | inr (inl (e, t)) ↦
        rw (l, e) (set_last-keeps ev es {x = x} {c = c} n l (co_the_de-plain c ev t) hx)
    | inr (inr e) ↦ rw (l, e) (In-append ev es n)
  ]
]

pub rieng-strong : (ev : FsEvent) → mang_thong_tin_rieng ev ≡ true → la_yeu ev ≡ false
rieng-strong ev h = ground arith

pub gop_vao-In :
    (e : FsEvent) (es : List FsEvent) (ev : FsEvent)
    → la_yeu ev ≡ false
    → In ev (gop_vao (cach (e ∷ es) ev) (e ∷ es) ev)
gop_vao-In e es ev h = elim (Option-cases (last (e ∷ es))) [
  | inl l ↦ rw l (In-push ev (e ∷ es))
  | inr (c, l) ↦ elim (cach_sau-strong c (length (e ∷ es)) ev h) [
    | inl q ↦ rw (l, q) (In-set_last ev e es)
    | inr q ↦ rw (l, q) (In-push ev (e ∷ es))
  ]
]
