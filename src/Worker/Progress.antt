-- ===== src/Worker/Progress.antt =====
-- What a round and a run of the worker do to the store: crates/core/src/worker.rs.
use check_trung_video.Base.{
  ℕ, zero, suc, ◌+◌, ◌≤◌, ◌<◌, ltb, leb, String, Bool, true, false, Option, none, some, Result, ok,
  err, ◌≡◌, refl, arith, Bool-cases, ◌⊎◌, inl, inr, if◌then◌else◌, subst,
}
use check_trung_video.Base.Int
use check_trung_video.Base.Int.{ℤ}
use check_trung_video.Base.BTreeMap
use check_trung_video.StateTable.{backoff_ms}
use check_trung_video.Model.State.{failed}
use check_trung_video.Model.Records.{FileRecord}
use check_trung_video.Memory.{Store, RepoError}
use check_trung_video.Memory.Queue.{next_ready}
use check_trung_video.Memory.Queue.Order.{next_ready-stored}
use check_trung_video.Memory.Apply
use check_trung_video.Memory.Apply.{move_row, apply_patch, check_all}
use check_trung_video.Memory.Apply.Moved.{apply-moved}
use check_trung_video.Memory.Inv.{Inv}
use check_trung_video.Memory.Inv.Apply.{apply-Inv}
use check_trung_video.Pipeline.{step}
use check_trung_video.Pipeline.Ctx.{StepCtx}
use check_trung_video.Worker.{
  KetQua, da_lam, hang_doi_rong, dung, mot_vong, round_of, done, after_round, chay, chay_from,
  that_bai, written,
}

done-Inv : (r : Result RepoError Bool × Store) → Inv r.1 → Inv (done r).1
done-Inv (err e, s) h = h
done-Inv (ok b, s) h = h

round_of-Inv : (ctx : StepCtx) (o : Option FileRecord) → Inv ctx.store → Inv (round_of ctx o).1
round_of-Inv ctx none h = h
round_of-Inv ctx (some rec) h =
    done-Inv (Apply.apply ctx.store (written ctx rec (step ctx rec)))
      (apply-Inv ctx.store (written ctx rec (step ctx rec)) h)

mot_vong-Inv : (ctx : StepCtx) (max_wait_ms : ℤ) → Inv ctx.store → Inv (mot_vong ctx max_wait_ms).1
unfolding mot_vong
mot_vong-Inv ctx max_wait_ms h =
    round_of-Inv ctx (next_ready ctx.store ctx.now ctx.allow_heavy max_wait_ms) h

-- The store of an answer satisfies the invariant.
abbrev HoldsInv : Option (Result RepoError ℕ × Store) → Type 0
HoldsInv none = Unit
HoldsInv (some r) = Inv r.1

after_round-HoldsInv :
    (r : Result RepoError KetQua × Store) (n : ℕ)
    (rest : Store → Option (Result RepoError ℕ × Store))
    → Inv r.1
    → ((s : Store) → Inv s → HoldsInv (rest s))
    → HoldsInv (after_round r n rest)
after_round-HoldsInv (err e, s) n rest i h = i
after_round-HoldsInv (ok da_lam, s) n rest i h = h s i
after_round-HoldsInv (ok hang_doi_rong, s) n rest i h = i
after_round-HoldsInv (ok dung, s) n rest i h = i

-- Why a run is over: an error of the store, the limit, the stop flag, or no row that is ready.
abbrev pub IsOver : (ℕ → StepCtx) → ℤ → (ℕ → Bool) → ℕ → Result RepoError ℕ × Store → Type 0
IsOver ctx max_wait_ms stop gioi_han (err e, s) = Unit
IsOver ctx max_wait_ms stop gioi_han (ok k, s) =
    (k ≤ gioi_han)
    × ((k ≡ gioi_han)
        ⊎ ((stop k ≡ true) ⊎ (next_ready s (ctx k).now (ctx k).allow_heavy max_wait_ms ≡ none)))

module _ (ctx : ℕ → StepCtx) (max_wait_ms : ℤ) (stop : ℕ → Bool) (gioi_han : ℕ) where
  if-HoldsInv :
      (a b : Bool) (x y : Option (Result RepoError ℕ × Store))
      → HoldsInv x
      → HoldsInv y
      → HoldsInv (if a then (if b then x else y) else x)
  if-HoldsInv true true x y h k = h
  if-HoldsInv true false x y h k = k
  if-HoldsInv false b x y h k = h

  chay_from-HoldsInv :
      (fuel n : ℕ) (s : Store) → Inv s → HoldsInv (chay_from ctx max_wait_ms stop gioi_han fuel n s)
  unfolding chay_from
  chay_from-HoldsInv zero n s i = tt
  chay_from-HoldsInv (suc fuel) n s i = if-HoldsInv (ltb n gioi_han) (stop n) (some (ok n, s)) _ i (
      after_round-HoldsInv (mot_vong (record (ctx n) { store = s }) max_wait_ms) n
        (chay_from ctx max_wait_ms stop gioi_han fuel (n + 1))
        (mot_vong-Inv (record (ctx n) { store = s }) max_wait_ms i)
        (chay_from-HoldsInv fuel (n + 1)))

  abbrev Ends : Option (Result RepoError ℕ × Store) → Type 0
  Ends o = (r : Result RepoError ℕ × Store) × (o ≡ some r) × IsOver ctx max_wait_ms stop gioi_han r

  done-Ends :
      (r : Result RepoError Bool × Store) (n : ℕ)
      (rest : Store → Option (Result RepoError ℕ × Store))
      → ((s : Store) → Ends (rest s))
      → Ends (after_round (done r) n rest)
  done-Ends (err e, s) n rest h = ((err e, s), refl, tt)
  done-Ends (ok b, s) n rest h = h s

  -- A round finds no row, or the loop goes on.
  round_of-Ends :
      (n : ℕ) (s : Store) (o : Option FileRecord)
      (rest : Store → Option (Result RepoError ℕ × Store))
      → n < gioi_han
      → next_ready s (ctx n).now (ctx n).allow_heavy max_wait_ms ≡ o
      → ((s : Store) → Ends (rest s))
      → Ends (after_round (round_of (record (ctx n) { store = s }) o) n rest)
  round_of-Ends n s none rest l e h = ((ok n, s), refl, (omega arith, inr (inr e)))
  round_of-Ends n s (some rec) rest l e h =
      let c : StepCtx = record (ctx n) { store = s } in
      done-Ends (Apply.apply s (written c rec (step c rec))) n rest h

  -- With as many turns as rounds are left, and one more, there is an answer.
  chay_from-Ends :
      (fuel n : ℕ) (s : Store)
      → n ≤ gioi_han
      → gioi_han < n + fuel
      → Ends (chay_from ctx max_wait_ms stop gioi_han fuel n s)
  unfolding chay_from mot_vong
  chay_from-Ends zero n s l f = ground arith
  chay_from-Ends (suc fuel) n s l f = elim (Bool-cases (ltb n gioi_han)) [
    | inr o ↦ rw o ((ok n, s), refl, (l, inl (ground arith)))
    | inl t ↦ elim (Bool-cases (stop n)) [
      | inl q ↦ rw (t, q) ((ok n, s), refl, (l, inr (inl q)))
      | inr q ↦
          rw (t, q)
            (round_of-Ends n s _ (chay_from ctx max_wait_ms stop gioi_han fuel (n + 1))
              (ground arith) refl
              (λ s'. chay_from-Ends fuel (n + 1) s' (ground arith) (omega arith)))
    ]
  ]

  -- A run of the worker always comes to an end: either an error of the store ended it, or it has done
  -- at most `gioi_han` rounds, and stopped because it had done that many, because the stop flag was
  -- raised, or because no row of the store that it leaves is ready.
  pub chay-ends :
      (s : Store)
      → (r : Result RepoError ℕ × Store) × (chay ctx max_wait_ms stop gioi_han s ≡ some r)
        × IsOver ctx max_wait_ms stop gioi_han r
  unfolding chay
  chay-ends s = chay_from-Ends (suc gioi_han) 0 s (omega arith) (omega arith)

  -- A run of the worker comes to an end, and preserves the invariant of the store, whatever the files
  -- and the deduper answer from round to round and whenever it is stopped.
  pub chay-Inv :
      (s : Store)
      → Inv s
      → (r : Result RepoError ℕ × Store) × (chay ctx max_wait_ms stop gioi_han s ≡ some r) × Inv r.1
  unfolding chay
  chay-Inv s i =
      let (r, e, _) = chay-ends s in
      (r, e, subst HoldsInv e (chay_from-HoldsInv (suc gioi_han) 0 s i))

done-store : (r : Result RepoError Bool × Store) → (done r).1 ≡ r.1
done-store (err e, s) = refl
done-store (ok b, s) = refl

-- When the step of the row that was picked fails, the round writes the failure to that very row: one
-- more attempt, the error, and below eight attempts the same state, due after the backoff; with the
-- eighth the state `failed`, and no further time.
pub mot_vong-error :
    (ctx : StepCtx) (max_wait_ms : ℤ) (rec : FileRecord) (e : String)
    → Inv ctx.store
    → next_ready ctx.store ctx.now ctx.allow_heavy max_wait_ms ≡ some rec
    → step ctx rec ≡ err e
    → (r : FileRecord) × (BTreeMap.get rec.id (mot_vong ctx max_wait_ms).1.files ≡ some r)
      × (r.attempts ≡ rec.attempts + 1)
      × (r.last_error ≡ some e)
      × (r.state ≡ (if leb 8 (rec.attempts + 1) then failed else rec.state))
      × (r.ready_at ≡ (
          if leb 8 (rec.attempts + 1)
          then none
          else some (Int.add_i64 ctx.now (backoff_ms (rec.attempts + 1)))))
unfolding mot_vong written move_row apply_patch
mot_vong-error ctx max_wait_ms rec e i p h =
    let t = that_bai ctx rec e in
    let g = next_ready-stored ctx.store ctx.now ctx.allow_heavy max_wait_ms rec i p in
    let a = (apply-moved ctx.store t rec (unfold check_all in refl) g refl tt).1 in
    rw (p, h)
      (
        Apply.set_group a.0 (move_row t.from t.to t.patch t.now rec),
        rw (done-store (Apply.apply ctx.store t)) a.1,
        refl,
        refl,
        refl,
        refl,
      )
