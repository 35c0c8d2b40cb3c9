-- ===== src/Scheduler/Due.antt =====
-- What the scheduler decides: crates/core/src/scheduler.rs.
use check_trung_video.Base.{
  List, [], ◌∷◌, In, here, there, any, true, Option, none, some, refl, ap, sym, unwrap_or, ◌⊎◌, ◌↔◌,
  inl, inr, Bool-cases, ltb, ◌&&◌, subst, ◌∙◌, ◌==◌, ◌++◌, Bool, false, ◌||◌, filter, ◌≡◌, arith,
  sort_by, if◌then◌else◌,
}
use check_trung_video.Base.Int
use check_trung_video.Base.Int.{ℤ, pos, ◌≤ℤ◌, ◌+ℤ◌, ◌-ℤ◌, InI64, add_i64_lem, sub_i64_lem}
use check_trung_video.Model.Records.{Ts}
use check_trung_video.Scheduler.{
  Viec, viec_rank, lay_mau_tai, checkpoint, don_dep, reconcile, presence, quet_remote, LanCuoi,
  ChuKy, toi_han, all_due, when, den_han, viec_less, allowed, least_left, ngu_bao_lau,
  chu_ky_checkpoint_ms, chu_ky_don_dep_ms,
}

sorted-already :
    (w a b c d e f : Bool)
    → sort_by viec_less (
        filter (allowed w) (
          when a lay_mau_tai
          ++ (when b checkpoint
              ++ (when c don_dep
                  ++ (when d reconcile ++ (when e presence ++ when f quet_remote))))))
      ≡ when a lay_mau_tai
        ++ (when b checkpoint
            ++ (when c don_dep
                ++ (when d reconcile
                    ++ (when (if w then e else false) presence ++ when f quet_remote))))
unfolding sort_by
sorted-already w a b c d e f = ground arith

den_han_lem :
    (t : ChuKy) (lan : LanCuoi) (now : Ts) (w : Bool) (ms : ℤ) (rescan : Bool)
    → den_han t lan now w ms rescan
      ≡ when (toi_han now lan.lay_mau ms) lay_mau_tai
        ++ (when (toi_han now lan.checkpoint chu_ky_checkpoint_ms) checkpoint
            ++ (when (toi_han now lan.don_dep chu_ky_don_dep_ms) don_dep
                ++ (when (rescan || toi_han now lan.reconcile t.reconcile_interval) reconcile
                    ++ (when
                          (if w then toi_han now lan.presence t.presence_interval else false)
                          presence
                        ++ when (toi_han now lan.quet_remote t.remote_scan_interval) quet_remote))))
unfolding den_han all_due
den_han_lem t lan now w ms rescan = sorted-already w _ _ _ _ _ _

-- The job never ran, or its period has passed since it last ran.
abbrev pub IsDue : Ts → Option Ts → ℤ → Type 0
IsDue now lan chu_ky = (lan ≡ none) ⊎ ((l : Ts) × (lan ≡ some l) × (chu_ky ≤ℤ Int.sub_i64 now l))

-- When a job is to be done
abbrev pub Wanted : ChuKy → LanCuoi → Ts → Bool → ℤ → Bool → Viec → Type 0
Wanted t lan now w ms rescan lay_mau_tai = IsDue now lan.lay_mau ms
Wanted t lan now w ms rescan checkpoint = IsDue now lan.checkpoint (pos 3_600_000)
Wanted t lan now w ms rescan don_dep = IsDue now lan.don_dep (pos 86_400_000)
Wanted t lan now w ms rescan reconcile =
    (rescan ≡ true) ⊎ IsDue now lan.reconcile t.reconcile_interval
Wanted t lan now w ms rescan presence = (w ≡ true) × IsDue now lan.presence t.presence_interval
Wanted t lan now w ms rescan quet_remote = IsDue now lan.quet_remote t.remote_scan_interval

le_intro : (a b : ℤ) → a ≤ℤ b → Int.le a b ≡ true
le_intro a b h = ground arith

toi_han-IsDue :
    (now : Ts) (lan : Option Ts) (chu_ky : ℤ)
    → (toi_han now lan chu_ky ≡ true) ↔ IsDue now lan chu_ky
unfolding toi_han
toi_han-IsDue now none chu_ky = (λ h. inl refl, λ h. refl)
toi_han-IsDue now (some l) chu_ky = (
  λ h. inr (l, refl, ground arith),
  λ h. elim h [
    | inl e ↦ cc e
    | inr (l', e, k) ↦
        le_intro chu_ky (Int.sub_i64 now l)
          (subst (λ x. chu_ky ≤ℤ Int.sub_i64 now x) (sym (ap (unwrap_or l) e)) k)
  ],
)

-- Which of the six tests is that of a job
abbrev pick : Bool → Bool → Bool → Bool → Bool → Bool → Viec → Bool
pick a b c d e f lay_mau_tai = a
pick a b c d e f checkpoint = b
pick a b c d e f don_dep = c
pick a b c d e f reconcile = d
pick a b c d e f presence = e
pick a b c d e f quet_remote = f

abbrev same_viec : Viec → Viec → Bool
same_viec a b = viec_rank a == viec_rank b

same_viec→≡ : (a b : Viec) → same_viec a b ≡ true → a ≡ b
same_viec→≡ a b h = ground arith

listed :
    (a b c d e f : Bool) (v : Viec)
    → any
        (λ x. same_viec x v)
        (when a lay_mau_tai
          ++ (when b checkpoint
              ++ (when c don_dep ++ (when d reconcile ++ (when e presence ++ when f quet_remote)))))
      ≡ pick a b c d e f v
listed a b c d e f v = ground arith

In-any : (v : Viec) (xs : List Viec) → In v xs → any (λ x. same_viec x v) xs ≡ true
In-any v [] n = elim n [ ]
In-any v (x ∷ xs) here = ground arith
In-any v (x ∷ xs) (there n) = ground (arith, In-any v xs n)

any-In : (v : Viec) (xs : List Viec) → any (λ x. same_viec x v) xs ≡ true → In v xs
any-In v [] h = ground arith
any-In v (x ∷ xs) h = elim (Bool-cases (same_viec x v)) [
  | inl e ↦ subst (λ y. In v (y ∷ xs)) (sym (same_viec→≡ x v e)) here
  | inr f ↦ there (any-In v xs (rw f at h))
]

or-IsDue : (b c : Bool) (P : Type 0) → (c ≡ true) ↔ P → ((b || c) ≡ true) ↔ ((b ≡ true) ⊎ P)
or-IsDue true c P h = (λ e. inl refl, λ e. refl)
or-IsDue false c P h = (λ e. inr (h.0 e), λ e. elim e [ inl x ↦ cc x | inr x ↦ h.1 x ])

if-IsDue :
    (b c : Bool) (P : Type 0)
    → (c ≡ true) ↔ P
    → ((if b then c else false) ≡ true) ↔ ((b ≡ true) × P)
if-IsDue true c P h = (λ e. (refl, h.0 e), λ e. h.1 e.1)
if-IsDue false c P h = (λ e. cc e, λ e. e.0)

picked-Wanted :
    (t : ChuKy) (lan : LanCuoi) (now : Ts) (w : Bool) (ms : ℤ) (rescan : Bool) (v : Viec)
    → (pick
          (toi_han now lan.lay_mau ms)
          (toi_han now lan.checkpoint chu_ky_checkpoint_ms)
          (toi_han now lan.don_dep chu_ky_don_dep_ms)
          (rescan || toi_han now lan.reconcile t.reconcile_interval)
          (if w then toi_han now lan.presence t.presence_interval else false)
          (toi_han now lan.quet_remote t.remote_scan_interval)
          v
        ≡ true)
      ↔ Wanted t lan now w ms rescan v
picked-Wanted t lan now w ms rescan lay_mau_tai = toi_han-IsDue now lan.lay_mau ms
picked-Wanted t lan now w ms rescan checkpoint = toi_han-IsDue now lan.checkpoint (pos 3_600_000)
picked-Wanted t lan now w ms rescan don_dep = toi_han-IsDue now lan.don_dep (pos 86_400_000)
picked-Wanted t lan now w ms rescan reconcile =
    or-IsDue rescan _ _ (toi_han-IsDue now lan.reconcile t.reconcile_interval)
picked-Wanted t lan now w ms rescan presence =
    if-IsDue w _ _ (toi_han-IsDue now lan.presence t.presence_interval)
picked-Wanted t lan now w ms rescan quet_remote =
    toi_han-IsDue now lan.quet_remote t.remote_scan_interval

-- Each job has a greater number than the one before.
abbrev pub ascending : List Viec → Bool
ascending [] = true
ascending (a ∷ []) = true
ascending (a ∷ b ∷ xs) = ltb (viec_rank a) (viec_rank b) && ascending (b ∷ xs)

listed-ascending :
    (a b c d e f : Bool)
    → ascending (
        when a lay_mau_tai
        ++ (when b checkpoint
            ++ (when c don_dep ++ (when d reconcile ++ (when e presence ++ when f quet_remote)))))
      ≡ true
listed-ascending a b c d e f = ground arith

-- A job is in the list exactly when it never ran or its period has passed since it last ran;
-- reconcile also when a rescan is asked for; and presence only inside the heavy window. The list has
-- the order of the enumeration, without repetition.
pub den_han-Wanted :
    (t : ChuKy) (lan : LanCuoi) (now : Ts) (w : Bool) (ms : ℤ) (rescan : Bool) (v : Viec)
    → (In v (den_han t lan now w ms rescan) ↔ Wanted t lan now w ms rescan v)
      × (ascending (den_han t lan now w ms rescan) ≡ true)
den_han-Wanted t lan now w ms rescan v =
    let q = den_han_lem t lan now w ms rescan in
    let l = listed _ _ _ _ _ _ v in
    let p = picked-Wanted t lan now w ms rescan v in
    (
      (
        λ n. p.0 (
            sym l
            ∙ ap (any (λ x. same_viec x v)) (sym q)
            ∙ In-any v (den_han t lan now w ms rescan) n),
        λ n. any-In v (den_han t lan now w ms rescan) (ap (any (λ x. same_viec x v)) q ∙ l ∙ p.1 n),
      ),
      ap ascending q ∙ listed-ascending _ _ _ _ _ _,
    )

clamp-bounds :
    (x : ℤ)
    → (pos 0 ≤ℤ Int.min_int (Int.max_int x (pos 0)) (pos 60_000))
      × (Int.min_int (Int.max_int x (pos 0)) (pos 60_000) ≤ℤ pos 60_000)
clamp-bounds x = ground arith

-- The scheduler sleeps for at least nothing and at most a minute.
pub ngu_bao_lau-bounds :
    (t : ChuKy) (lan : LanCuoi) (now : Ts) (ms : ℤ)
    → (pos 0 ≤ℤ ngu_bao_lau t lan now ms) × (ngu_bao_lau t lan now ms ≤ℤ pos 60_000)
unfolding ngu_bao_lau
ngu_bao_lau-bounds t lan now ms = clamp-bounds (least_left t lan now ms)
