-- ===== src/Hash/Blocks.antt =====
-- The blocks of crates/core/src/hash.rs cover the beginning and the end of a file, lie within it, and
-- do not repeat.
use check_trung_video.Base.{
  ℕ, zero, suc, ◌+◌, ◌-◌, ◌*◌, ◌/◌, ◌^◌, ◌≤◌, ◌<◌, leb, ◌==◌, List, [], ◌∷◌, ◌++◌, true, false,
  length, Bool-cases, inl, inr, ◌≡◌, refl, ap, sym, ◌∙◌, subst, arith,
}
use native.Mathlib.Nat.{
  zero-div, mul-le-mul_right, le-div_iff_mul-le, div-mul-le_self, div-le_of_le-mul,
}
use check_trung_video.Hash.{
  HashParams, Doan, saturating_mul, can_le, offset_at, blocks_from, dedup_after, dedup_by_offset,
  cac_doan,
}

-- From the block `d` on, the offsets grow, every block ends within the file, and the last one ends
-- where the file does.
abbrev pub IsRun : ℕ → Doan → List Doan → Type 0
IsRun size d [] = d.offset + d.len ≡ size
IsRun size d (e ∷ ds) = (d.offset < e.offset) × (d.offset + d.len ≤ size) × IsRun size e ds

div_le : (a b c : ℕ) → a ≤ b → 1 ≤ c → a / c ≤ b / c
div_le a b c h p = (le-div_iff_mul-le {x = a / c} p).1 (omega (arith, div-mul-le_self a c))

mul_le : (i j s : ℕ) → i ≤ j → i * s ≤ j * s
mul_le i j s h = mul-le-mul_right s h

saturating_mul_le : (i j s : ℕ) → i ≤ j → saturating_mul i s ≤ saturating_mul j s
unfolding saturating_mul
saturating_mul_le i j s h = let m = mul_le i j s h in ground arith

saturating_mul-bound : (i s : ℕ) → saturating_mul i s ≤ i * s
unfolding saturating_mul
saturating_mul-bound i s = ground arith

can_le_le : (a b : ℕ) → a ≤ b → can_le a ≤ can_le b
unfolding can_le
can_le_le a b h = omega arith

can_le-bound : (a : ℕ) → can_le a ≤ a
unfolding can_le
can_le-bound a = omega arith

offset_at_le : (n span i j : ℕ) → 2 ≤ n → i ≤ j → offset_at n span i ≤ offset_at n span j
unfolding offset_at
offset_at_le n span i j p h =
    can_le_le (saturating_mul i span / (n - 1)) (saturating_mul j span / (n - 1)) (
      div_le (saturating_mul i span) (saturating_mul j span) (n - 1) (saturating_mul_le i j span h)
        (omega arith))

offset_at-bound : (n span i : ℕ) → i ≤ n - 1 → offset_at n span i ≤ span
unfolding offset_at
offset_at-bound n span i h =
    let x = saturating_mul i span in
    let q =
      div-le_of_le-mul (n - 1) {m = x} {n = span}
        (omega (arith, saturating_mul-bound i span, mul_le i (n - 1) span h)) in
    omega (arith, q, can_le-bound (x / (n - 1)))

saturating_mul-zero : (s : ℕ) → saturating_mul 0 s ≡ 0
unfolding saturating_mul
saturating_mul-zero s = ground arith

offset_at-first : (n span : ℕ) → offset_at n span 0 ≡ 0
unfolding offset_at can_le
offset_at-first n span =
    ap (λ x. x / (n - 1) / 4096 * 4096) (saturating_mul-zero span)
    ∙ ap (λ x. x / 4096 * 4096) (zero-div (n - 1))

dedup_after-same :
    (off : ℕ) (e : Doan) (ds : List Doan)
    → (e.offset == off) ≡ true
    → dedup_after off (e ∷ ds) ≡ dedup_after off ds
unfolding dedup_after
dedup_after-same off e ds h = rw (h, dedup_after) refl

dedup_after-new :
    (off : ℕ) (e : Doan) (ds : List Doan)
    → (e.offset == off) ≡ false
    → dedup_after off (e ∷ ds) ≡ e ∷ dedup_after e.offset ds
unfolding dedup_after
dedup_after-new off e ds h = rw (h, dedup_after) refl

-- What is required of the blocks of a file.
abbrev pub IsCover : ℕ → ℕ → List Doan → Type 0
IsCover n size ds =
    (d : Doan) × (es : List Doan) × (ds ≡ d ∷ es)
    × (d.offset ≡ 0)
    × IsRun size d es
    × (length ds ≤ n)

dedup-length : (off : ℕ) (ds : List Doan) → length (dedup_after off ds) ≤ length ds
unfolding dedup_after
dedup-length off [] = omega arith
dedup-length off (d ∷ ds) = elim (Bool-cases (d.offset == off)) [
  | inl t ↦
      subst (λ x. length x ≤ suc (length ds)) (sym (dedup_after-same off d ds t))
        (omega (arith, dedup-length off ds))
  | inr f ↦
      subst (λ x. length x ≤ suc (length ds)) (sym (dedup_after-new off d ds f))
        (omega (arith, dedup-length d.offset ds))
]

module _ (n span l : ℕ) (p : 2 ≤ n) where
  abbrev end_block : Doan
  end_block = record { offset = span; len = l }

  abbrev rest_from : ℕ → ℕ → List Doan
  rest_from i k = blocks_from n span l i k ++ (end_block ∷ [])

  end-IsRun :
      (d : Doan)
      → d.len ≡ l
      → d.offset ≤ span
      → IsRun (span + l) d (dedup_after d.offset (end_block ∷ []))
  unfolding dedup_after
  end-IsRun d q h = elim (Bool-cases (span == d.offset)) [
    | inl t ↦
        subst (IsRun (span + l) d) (sym (dedup_after-same d.offset end_block [] t)) (ground arith)
    | inr f ↦
        subst (IsRun (span + l) d) (sym (dedup_after-new d.offset end_block [] f))
          (ground arith, omega arith, refl)
  ]

  -- Blocks whose offsets do not fall, and the last block.
  dedup-IsRun :
      (k i : ℕ) (d : Doan)
      → i + k ≡ n - 1
      → d.len ≡ l
      → d.offset ≤ offset_at n span i
      → d.offset ≤ span
      → IsRun (span + l) d (dedup_after d.offset (rest_from i k))
  unfolding blocks_from
  dedup-IsRun zero i d e q h b = end-IsRun d q b
  dedup-IsRun (suc k) i d e q h b =
      let x : Doan = record { offset = offset_at n span i; len = l } in
      let le = offset_at_le n span i (i + 1) p (omega arith) in
      let inside = offset_at-bound n span i (omega arith) in
      elim (Bool-cases (offset_at n span i == d.offset)) [
        | inl t ↦
            subst (IsRun (span + l) d) (sym (dedup_after-same d.offset x (rest_from (i + 1) k) t))
              (dedup-IsRun k (i + 1) d (omega arith) q (omega arith) b)
        | inr f ↦
            subst (IsRun (span + l) d) (sym (dedup_after-new d.offset x (rest_from (i + 1) k) f))
              (ground arith, omega arith, dedup-IsRun k (i + 1) x (omega arith) refl le inside)
      ]

  length-rest_from : (i k : ℕ) → length (rest_from i k) ≡ k + 1
  unfolding blocks_from
  length-rest_from i zero = refl
  length-rest_from i (suc k) = omega (arith, length-rest_from (i + 1) k)

  -- Where there is at least one block before the last.
  blocks-IsCover :
      (k : ℕ) → n - 1 ≡ suc k → IsCover n (span + l) (dedup_by_offset (rest_from 0 (suc k)))
  unfolding blocks_from
  blocks-IsCover k e =
      let x : Doan = record { offset = offset_at n span 0; len = l } in
      (
        x,
        dedup_after x.offset (rest_from 1 k),
        refl,
        offset_at-first n span,
        dedup-IsRun k 1 x (omega arith) refl (offset_at_le n span 0 1 p (omega arith))
            (offset_at-bound n span 0 (omega arith)),
        omega (arith, dedup-length x.offset (rest_from 1 k), length-rest_from 1 k),
      )

  sampled-IsCover : IsCover n (span + l) (dedup_by_offset (rest_from 0 (n - 1)))
  sampled-IsCover =
      let e : n - 1 ≡ suc (n - 2) = omega arith in
      subst (λ y. IsCover n (span + l) (dedup_by_offset (rest_from 0 y))) (sym e)
        (blocks-IsCover (n - 2) e)

above_product :
    (n l size : ℕ) → 2 ≤ n → size < 2 ^ 64 → leb size (saturating_mul n l) ≡ false → l ≤ size
unfolding saturating_mul
above_product n l size p b h = let m = mul_le 1 n l (omega arith) in ground arith

-- With parameters that `new` accepts, and a size below 2^64, there is a first block at offset 0; from
-- it on the offsets grow, every block lies within the file and the last one ends where the file
-- does; and there are no more blocks than the parameter says.
pub cac_doan-IsCover :
    (p : HashParams) (size : ℕ)
    → 2 ≤ p.chunks
    → size < 2 ^ 64
    → IsCover p.chunks size (cac_doan p size)
unfolding cac_doan
cac_doan-IsCover p size h b = elim (Bool-cases (leb size (saturating_mul p.chunks p.chunk_len))) [
  | inl t ↦
      rw (t, cac_doan) (record { offset = 0; len = size }, [], refl, refl, omega arith, omega arith)
  | inr f ↦
      let le = above_product p.chunks p.chunk_len size h b f in
      let e : size - p.chunk_len + p.chunk_len ≡ size = omega arith in
      rw (f, cac_doan)
        (subst
          (λ y. IsCover p.chunks y (
            dedup_by_offset (
              blocks_from p.chunks (size - p.chunk_len) p.chunk_len 0 (p.chunks - 1)
              ++ (record { offset = size - p.chunk_len; len = p.chunk_len } ∷ []))))
          e (sampled-IsCover p.chunks (size - p.chunk_len) p.chunk_len h))
]
