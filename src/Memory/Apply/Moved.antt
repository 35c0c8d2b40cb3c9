-- ===== src/Memory/Apply/Moved.antt =====
-- The row of a transition that passes: crates/core/src/repo/memory/apply.rs.
use check_trung_video.Base.{
  ℕ, ◌+◌, ◌==◌, ==-refl, List, [], ◌∷◌, Bool, true, false, Option, none, some, ok, ◌≡◌, refl, All,
  inl, inr, Option-cases, Bool-cases, if◌then◌else◌, ◌∙◌, arith,
}
use check_trung_video.Base.BTreeMap
use check_trung_video.Base.BTreeMap.{BTreeMap, get-modify}
use check_trung_video.Model.State
use check_trung_video.Model.State.{State}
use check_trung_video.Model.JournalState.{JournalState}
use check_trung_video.Model.Records.{Ts, FileRecord}
use check_trung_video.Model.Transition.{
  GroupOp, create, join, set_canonical, leave, verified, DedupEvent, Other, Transition,
}
use check_trung_video.Memory.{Store}
use check_trung_video.Memory.Apply.{
  apply, apply_changes, apply_group, apply_group_op, apply_others, check_all, passes, close_journal,
  record_event, move_row, set_group,
}

pub close_journal-rows :
    (j : Option (ℕ × JournalState)) (now : Ts) (s : Store)
    → ((close_journal j now s).files ≡ s.files)
      × ((close_journal j now s).groups ≡ s.groups)
      × ((close_journal j now s).events ≡ s.events)
close_journal-rows none now s = (refl, refl, refl)
close_journal-rows (some (jid, st)) now s = (refl, refl, refl)

pub record_event-rows :
    (b : Bool) (ev : Option DedupEvent) (s : Store)
    → ((record_event b ev s).files ≡ s.files) × ((record_event b ev s).groups ≡ s.groups)
record_event-rows b none s = (refl, refl)
record_event-rows true (some ev) s = (refl, refl)
record_event-rows false (some ev) s = (refl, refl)

pub State-eq→≡ : (a b : State) → State.eq a b ≡ true → a ≡ b
State-eq→≡ a b h = ground arith

pub State-eq_refl : (a : State) → State.eq a a ≡ true
State-eq_refl a = ground arith

-- Each row of `files` is in `files'`, with at most another group.
abbrev pub Regrouped : BTreeMap FileRecord → BTreeMap FileRecord → Type 0
Regrouped files files' =
    (k : ℕ) (r : FileRecord)
    → BTreeMap.get k files ≡ some r
    → (g : Option ℕ) × (BTreeMap.get k files' ≡ some (set_group g r))

pub modify-Regrouped :
    (id : ℕ) (g : Option ℕ) (files : BTreeMap FileRecord)
    → Regrouped files (BTreeMap.modify id (set_group g) files)
modify-Regrouped id g files k r h = elim (Bool-cases (id == k)) [
  | inl t ↦ (g, rw (get-modify id k (set_group g) files, t, h))
  | inr f ↦ (r.group_id, rw (get-modify id k (set_group g) files, f, h))
]

pub Regrouped-trans : (a b c : BTreeMap FileRecord) → Regrouped a b → Regrouped b c → Regrouped a c
Regrouped-trans a b c p q k r h = let e = p k r h in let f = q k (set_group e.0 r) e.1 in (f.0, f.1)

pub apply_group_op-Regrouped :
    (s : Store) (id : ℕ) (op : GroupOp) (now : Ts)
    → Regrouped s.files (apply_group_op s id op now).files
unfolding apply_group_op
apply_group_op-Regrouped s id (create canonical h v) now =
    elim (Option-cases (BTreeMap.get id s.files)) [
      | inl e ↦ rw (e, apply_group_op) (λ k r x. (r.group_id, x))
      | inr (row, e) ↦
          rw (e, apply_group_op)
            (Regrouped-trans s.files (BTreeMap.modify id (set_group (some (s.next_id + 1))) s.files)
              (BTreeMap.modify canonical (set_group (some (s.next_id + 1)))
                (BTreeMap.modify id (set_group (some (s.next_id + 1))) s.files))
              (modify-Regrouped id (some (s.next_id + 1)) s.files)
              (modify-Regrouped canonical (some (s.next_id + 1))
                (BTreeMap.modify id (set_group (some (s.next_id + 1))) s.files)))
    ]
apply_group_op-Regrouped s id (join g) now = modify-Regrouped id (some g) s.files
apply_group_op-Regrouped s id (set_canonical group file) now =
    modify-Regrouped file (some group) s.files
apply_group_op-Regrouped s id (leave g) now = modify-Regrouped id none s.files
apply_group_op-Regrouped s id (verified group full_hash) now = λ k r h. (r.group_id, h)

pub apply_group-Regrouped :
    (op : Option GroupOp) (s : Store) (id : ℕ) (now : Ts)
    → Regrouped s.files (apply_group op id now s).files
apply_group-Regrouped none s id now = λ k r h. (r.group_id, h)
apply_group-Regrouped (some op) s id now = apply_group_op-Regrouped s id op now

pub apply_others-get :
    (os : List Other) (now : Ts) (s : Store) (k : ℕ)
    → All (λ (o : Other). (o.id == k) ≡ false) os
    → BTreeMap.get k (apply_others os now s).files ≡ BTreeMap.get k s.files
unfolding apply_others
apply_others-get [] now s k h = refl
apply_others-get (o ∷ os) now s k (h, hs) =
    apply_others-get os now
      (record s {
        files =
            BTreeMap.modify o.id
              (λ r. if State.eq r.state o.from then move_row o.from o.to o.patch now r else r)
              s.files;
      })
      k hs
    ∙ rw (
      get-modify o.id k
          (λ r. if State.eq r.state o.from then move_row o.from o.to o.patch now r else r) s.files,
      h,
    )

pub applied-files :
    (s : Store) (t : Transition)
    → check_all s t ≡ none
    → passes s t ≡ true
    → ((apply s t).0 ≡ ok true) × ((apply s t).1.files ≡ (apply_changes s t).files)
unfolding apply
applied-files s t c p =
    rw (c, p)
      (
        refl,
        (close_journal-rows t.journal t.now (record_event true t.event (apply_changes s t))).0
            ∙ (record_event-rows true t.event (apply_changes s t)).0,
      )

-- The row of a transition that passes, with at most another group.
pub apply-moved :
    (s : Store) (t : Transition) (r : FileRecord)
    → check_all s t ≡ none
    → BTreeMap.get t.id s.files ≡ some r
    → r.state ≡ t.from
    → All (λ (o : Other). (o.id == t.id) ≡ false) t.others
    → ((apply s t).0 ≡ ok true)
      × ((g : Option ℕ) × (BTreeMap.get t.id (apply s t).1.files
            ≡ some (set_group g (move_row t.from t.to t.patch t.now r))))
unfolding passes apply_changes
apply-moved s t r c e f h =
    let moved : BTreeMap FileRecord =
      BTreeMap.modify t.id (move_row t.from t.to t.patch t.now) s.files in
    let s' : Store = apply_others t.others t.now (record s { files = moved }) in
    let q = apply_others-get t.others t.now (record s { files = moved }) t.id h in
    let m : BTreeMap.get t.id moved ≡ some (move_row t.from t.to t.patch t.now r) =
      rw (get-modify t.id t.id (move_row t.from t.to t.patch t.now) s.files, ==-refl t.id, e) in
    let g =
      apply_group-Regrouped t.group s' t.id t.now t.id (move_row t.from t.to t.patch t.now r)
        (q ∙ m) in
    let p : passes s t ≡ true = rw (e, f) (State-eq_refl t.from) in
    let after = applied-files s t c p in (after.0, (g.0, rw after.1 g.1))
