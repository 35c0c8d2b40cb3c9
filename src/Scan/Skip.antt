-- ===== src/Scan/Skip.antt =====
-- Which directories a resumed scan skips: `nen_bo_qua` of crates/core/src/scan.rs.
use check_trung_video.Base.{
  String, str_eq, eq_iff, [], ◌∷◌, ◌++◌, Bool, true, false, false≢true, not, ◌&&◌, Bool-cases, inl,
  inr, ◌⊎◌, ◌↔◌, ◌≡◌, refl, ap, sym, ◌∙◌, arith,
}
use Prim.Native.Nat.{Ordering}
use Prim.Native.String.{compare}
use text.Mathlib.Text.{is_eq}
use check_trung_video.Model.Records.{FilePath, path_starts_with}
use check_trung_video.Scan.{so_duong_dan, is_less, nen_bo_qua}

and-both : (a b : Bool) → (a && b) ≡ true → (a ≡ true) × (b ≡ true)
and-both a b h = ground arith

less-apart : (o : Ordering) → is_less o ≡ true → is_eq o ≡ true → false ≡ true
less-apart o l e = ground arith

compare_self : (a : String) → is_eq (compare a a) ≡ true
compare_self a = (eq_iff a a).1 refl

lt-not_same : (a b : String) → is_less (compare a b) ≡ true → str_eq b a ≡ false
lt-not_same a b l = elim (Bool-cases (str_eq b a)) [
  | inr f ↦ f
  | inl t ↦
      let q = (eq_iff b a).0 t in
      elim (false≢true (
        less-apart (compare a a) (ap (λ x. is_less (compare a x)) (sym q) ∙ l)
          (compare_self a))) [ ]
]

eq-same : (a b : String) → is_eq (compare a b) ≡ true → str_eq b a ≡ true
eq-same a b e = (eq_iff b a).1 (sym ((eq_iff a b).0 e))

-- A directory that comes before the cursor and is not above it keeps that place with all that lies
-- under it.
before-under :
    (dir cursor rest : FilePath)
    → is_less (so_duong_dan dir cursor) ≡ true
    → path_starts_with cursor dir ≡ false
    → (is_less (so_duong_dan (dir ++ rest) cursor) ≡ true)
      × (path_starts_with cursor (dir ++ rest) ≡ false)
unfolding so_duong_dan path_starts_with
before-under [] [] rest l n = cc l
before-under [] (b ∷ q) rest l n = cc n
before-under (a ∷ p) [] rest l n = cc l
before-under (a ∷ p) (b ∷ q) rest l n =
    ground (arith, before-under p q rest, lt-not_same a b, eq-same a b)

-- What is under a directory that is skipped would be skipped too.
pub nen_bo_qua-under :
    (dir cursor rest : FilePath)
    → nen_bo_qua dir cursor ≡ true
    → nen_bo_qua (dir ++ rest) cursor ≡ true
unfolding nen_bo_qua
nen_bo_qua-under dir cursor rest h =
    let (l, n) =
      and-both (is_less (so_duong_dan dir cursor)) (not (path_starts_with cursor dir)) h in
    let (l', n') = before-under dir cursor rest l (ground arith) in rw (l', n') refl

-- The two paths part at some place, and there the name of the first is the lesser.
abbrev pub IsBefore : FilePath → FilePath → Type 0
IsBefore dir cursor =
    (common : FilePath) × (a b : String) × (x y : FilePath) × (dir ≡ common ++ (a ∷ x))
    × (cursor ≡ common ++ (b ∷ y))
    × (compare a b ≡ Ordering.lt)

Ordering-cases : (o : Ordering) → (o ≡ Ordering.lt) ⊎ ((is_eq o ≡ true) ⊎ (o ≡ Ordering.gt))
Ordering-cases Ordering.lt = inl refl
Ordering-cases Ordering.eq = inr (inl refl)
Ordering-cases Ordering.gt = inr (inr refl)

is_eq-≡ : (o : Ordering) → is_eq o ≡ true → o ≡ Ordering.eq
is_eq-≡ o h = ground arith

IsBefore-parts :
    (dir cursor : FilePath)
    → is_less (so_duong_dan dir cursor) ≡ true
    → path_starts_with cursor dir ≡ false
    → IsBefore dir cursor
unfolding so_duong_dan path_starts_with
IsBefore-parts [] [] l n = cc l
IsBefore-parts [] (b ∷ q) l n = cc n
IsBefore-parts (a ∷ p) [] l n = cc l
IsBefore-parts (a ∷ p) (b ∷ q) l n = elim (Ordering-cases (compare a b)) [
  | inl e ↦ ([], a, b, p, q, refl, refl, e)
  | inr (inr e) ↦ cc (rw e at l)
  | inr (inl e) ↦
      let same = (eq_iff a b).0 e in
      let (common, x, y, ps, qs, f, g, c) =
        IsBefore-parts p q (rw (is_eq-≡ (compare a b) e) at l) (rw (eq-same a b e) at n) in
      (a ∷ common, x, y, ps, qs, ap (λ t. a ∷ t) f, rw (← same) (ap (λ t. a ∷ t) g), c)
]

parted-before :
    (common : FilePath) (a b : String) (x y : FilePath)
    → compare a b ≡ Ordering.lt
    → nen_bo_qua (common ++ (a ∷ x)) (common ++ (b ∷ y)) ≡ true
unfolding nen_bo_qua
parted-before [] a b x y h = rw (h, lt-not_same a b (ap is_less h)) refl
parted-before (c ∷ common) a b x y h =
    rw (is_eq-≡ (compare c c) (compare_self c)) (parted-before common a b x y h)

-- A resumed scan skips a directory exactly when its path and that of the cursor part at some place,
-- and there the directory's name is the lesser: so it comes before the cursor, and is neither the
-- cursor nor a directory above it.
pub nen_bo_qua-IsBefore :
    (dir cursor : FilePath) → (nen_bo_qua dir cursor ≡ true) ↔ IsBefore dir cursor
unfolding nen_bo_qua
nen_bo_qua-IsBefore dir cursor = (
  λ h.
      let (l, n) =
        and-both (is_less (so_duong_dan dir cursor)) (not (path_starts_with cursor dir)) h in
      IsBefore-parts dir cursor l (ground arith),
  λ (common, a, b, x, y, d, c, h). rw (d, c) (parted-before common a b x y h),
)
