-- ===== src/Memory/Inv/Apply.antt =====
-- A transition keeps the invariant of the store: crates/core/src/repo/memory/apply.rs.
use check_trung_video.Base.{
  ℕ, ◌⊎◌, ap, subst, ==-refl, All, ◌+◌, ◌≡◌, refl, arith, Bool, true, false, Option, none, some,
  List, [], ◌∷◌, Bool-cases, inl, inr, if◌then◌else◌, or_option, unwrap_or,
}
use check_trung_video.Base.BTreeMap
use check_trung_video.Base.BTreeMap.{get-modify, get-insert}
use check_trung_video.Model.State
use check_trung_video.Model.State.{State}
use check_trung_video.Model.JournalState.{JournalState}
use check_trung_video.Model.Records.{Ts, FileRecord, Group, Identity}
use check_trung_video.Model.Transition.{
  Patch, GroupOp, create, join, set_canonical, leave, verified, DedupEvent, Other, Transition,
}
use check_trung_video.Memory.{Store, RepoError, drop_canonical}
use check_trung_video.Memory.Apply.{
  apply, apply_checked, apply_changes, apply_others, apply_group_op, apply_group, patch_identity,
  move_row, check_all, check_patch, check_others, check_group, check_group_op, check_journal,
  passes, record_event, close_journal, create_group, set_group,
}
use check_trung_video.Memory.Inv.{Inv, IsUpdate, HasGroup}
use check_trung_video.Memory.Inv.Rules.{
  modify-Inv, other_fields-Inv, modify_group-Inv, insert_group-Inv, IsUpdate-refl,
}

-- The part of a passed check that speaks of the group of a patch.
abbrev GroupOk : Store → Patch → Type 0
GroupOk s p = (g : ℕ) → p.group_id ≡ some (some g) → HasGroup s.groups g

check_patch-GroupOk : (s : Store) (p : Patch) → check_patch s p ≡ none → GroupOk s p
unfolding check_patch
check_patch-GroupOk s p c g e = ground arith

id-patch_identity :
    (i : Option Identity) (r : FileRecord)
    → ((patch_identity i r).id ≡ r.id) × ((patch_identity i r).key ≡ r.key)
id-patch_identity none r = (refl, refl)
id-patch_identity (some id) r = (refl, refl)

moved_group :
    (new : Option (Option ℕ)) (old : Option ℕ) (g : ℕ)
    → unwrap_or old new ≡ some g
    → (new ≡ some (some g)) ⊎ (old ≡ some g)
moved_group none old g e = inr e
moved_group (some o) old g e = inl (ap some e)

module _ (s : Store) (h : Inv s) where
  move_row-IsUpdate :
      (k : ℕ) (r : FileRecord) (from to : State) (p : Patch) (now : Ts)
      → GroupOk s p
      → BTreeMap.get k s.files ≡ some r
      → IsUpdate s r (move_row from to p now r)
  unfolding move_row
  move_row-IsUpdate k r from to p now c at = record {
    same_id = (id-patch_identity p.identity r).0;
    same_key = (id-patch_identity p.identity r).1;
    grouped = λ g e. elim (moved_group p.group_id r.group_id g e) [
      | inl new ↦ c g new
      | inr old ↦ h.group_exists k r g at old
    ];
  }

  moved-Inv :
      (i : ℕ) (from to : State) (p : Patch) (now : Ts)
      → GroupOk s p
      → Inv (record s { files = BTreeMap.modify i (move_row from to p now) s.files })
  moved-Inv i from to p now c =
      modify-Inv s h i (move_row from to p now) λ r at. move_row-IsUpdate i r from to p now c at

abbrev OthersOk : Store → List Other → Type 0
OthersOk s os = All (λ (o : Other). GroupOk s o.patch) os

check_others-OthersOk : (s : Store) (os : List Other) → check_others s os ≡ none → OthersOk s os
unfolding check_others
check_others-OthersOk s [] c = tt
check_others-OthersOk s (o ∷ os) c =
    (check_patch-GroupOk s o.patch (ground arith), check_others-OthersOk s os (ground arith))

other_row-IsUpdate :
    (s : Store) (h : Inv s) (o : Other) (now : Ts) (r : FileRecord)
    → GroupOk s o.patch
    → BTreeMap.get o.id s.files ≡ some r
    → IsUpdate s r (if State.eq r.state o.from then move_row o.from o.to o.patch now r else r)
other_row-IsUpdate s h o now r c at = elim (Bool-cases (State.eq r.state o.from)) [
  | inl t ↦ rw t (move_row-IsUpdate s h o.id r o.from o.to o.patch now c at)
  | inr f ↦ rw f (IsUpdate-refl s h o.id r at)
]

apply_others-Inv :
    (os : List Other) (now : Ts) (s : Store) → Inv s → OthersOk s os → Inv (apply_others os now s)
unfolding apply_others
apply_others-Inv [] now s h c = h
apply_others-Inv (o ∷ os) now s h (c, cs) =
    apply_others-Inv os now _
      (modify-Inv s h o.id
        (λ r. if State.eq r.state o.from then move_row o.from o.to o.patch now r else r)
        λ r at. other_row-IsUpdate s h o now r c at)
      cs

groups-apply_others :
    (os : List Other) (now : Ts) (s : Store) → (apply_others os now s).groups ≡ s.groups
unfolding apply_others
groups-apply_others [] now s = refl
groups-apply_others (o ∷ os) now s = groups-apply_others os now _

-- What a passed check says of the groups that the operation points rows to.
abbrev OpOk : Store → GroupOp → Type 0
OpOk s (join g) = HasGroup s.groups g
OpOk s (set_canonical g file) = HasGroup s.groups g
OpOk s _ = Unit

check_group_op-OpOk :
    (s : Store) (row_id : ℕ) (op : GroupOp) → check_group_op s row_id op ≡ none → OpOk s op
unfolding check_group_op
check_group_op-OpOk s row_id (join g) c = ground arith
check_group_op-OpOk s row_id (set_canonical g file) c = ground arith
check_group_op-OpOk s row_id (create f h v) c = tt
check_group_op-OpOk s row_id (leave g) c = tt
check_group_op-OpOk s row_id (verified g f) c = tt

set_group-Inv :
    (s : Store) (i : ℕ) (g : Option ℕ)
    → Inv s
    → ((x : ℕ) → g ≡ some x → HasGroup s.groups x)
    → Inv (record s { files = BTreeMap.modify i (set_group g) s.files })
set_group-Inv s i g h c =
    modify-Inv s h i (set_group g) λ r at. record { same_id = refl; same_key = refl; grouped = c }

create_group-Inv :
    (found : Option FileRecord) (s : Store) (row_id canonical h v : ℕ) (now : Ts)
    → Inv s
    → Inv (create_group found s row_id canonical h v now)
create_group-Inv none s row_id canonical h v now i = i
create_group-Inv (some row) s row_id canonical h v now i =
    let gid : ℕ = s.next_id + 1 in
    let group : Group = record {
      id = gid;
      domain_id = row.domain_id;
      size = row.size;
      sparse_hash = h;
      hash_version = v;
      full_hash = none;
      canonical_file_id = some canonical;
      verified_at = none;
      created_at = now;
    } in
    let s1 : Store = record s { next_id = gid; groups = BTreeMap.insert gid group s.groups } in
    let has : HasGroup s1.groups gid = rw (get-insert gid gid group s.groups) (rw ==-refl) in
    let i1 : Inv s1 = insert_group-Inv s i group refl in
    let grouped : (x : ℕ) → some gid ≡ some x → HasGroup s1.groups x =
      λ x e. subst (HasGroup s1.groups) (ap (unwrap_or gid) e) has in
    let s2 : Store = record s1 { files = BTreeMap.modify row_id (set_group (some gid)) s1.files } in
    set_group-Inv s2 canonical (some gid) (set_group-Inv s1 row_id (some gid) i1 grouped) grouped

apply_group_op-Inv :
    (s : Store) (row_id : ℕ) (op : GroupOp) (now : Ts)
    → Inv s
    → OpOk s op
    → Inv (apply_group_op s row_id op now)
unfolding apply_group_op
apply_group_op-Inv s row_id (create canonical h v) now i c =
    create_group-Inv (BTreeMap.get row_id s.files) s row_id canonical h v now i
apply_group_op-Inv s row_id (join g) now i c = set_group-Inv s row_id (some g) i λ x e. ground arith
apply_group_op-Inv s row_id (set_canonical group file) now i c =
    let s1 : Store = record s { files = BTreeMap.modify file (set_group (some group)) s.files } in
    modify_group-Inv s1 (set_group-Inv s file (some group) i λ x e. ground arith) group
      (λ (g : Group). record g { canonical_file_id = some file }) (λ g. refl)
apply_group_op-Inv s row_id (leave g) now i c =
    let s1 : Store = record s { files = BTreeMap.modify row_id (set_group none) s.files } in
    modify_group-Inv s1 (set_group-Inv s row_id none i λ x e. cc e) g (drop_canonical row_id)
      (λ g. refl)
apply_group_op-Inv s row_id (verified group full_hash) now i c =
    modify_group-Inv s i group
      (λ (g : Group). record g {
        verified_at = or_option g.verified_at (some now);
        full_hash = or_option g.full_hash full_hash;
      })
      (λ g. refl)

OpOk-groups : (s s' : Store) (op : GroupOp) → s'.groups ≡ s.groups → OpOk s op → OpOk s' op
OpOk-groups s s' (join g) e c = rw e c
OpOk-groups s s' (set_canonical g file) e c = rw e c
OpOk-groups s s' (create f h v) e c = tt
OpOk-groups s s' (leave g) e c = tt
OpOk-groups s s' (verified g f) e c = tt

-- What a passed check of a transition gives.
pub record ChecksOk (s : Store) (t : Transition) : Type 0 where
  pub patch : GroupOk s t.patch
  pub others : OthersOk s t.others
  pub op : (o : GroupOp) → t.group ≡ some o → OpOk s o

or_option-none {ℓ} : {A : Type ℓ} (a b : Option A) → or_option a b ≡ none → (a ≡ none) × (b ≡ none)
or_option-none none b e = (refl, e)
or_option-none (some a) b e = cc e

group_checked :
    (s : Store) (id : ℕ) (group : Option GroupOp)
    → check_group s id group ≡ none
    → (o : GroupOp) → group ≡ some o
    → OpOk s o
group_checked s id none c o e = cc e
group_checked s id (some op) c o e =
    subst (OpOk s) (ap (unwrap_or op) e) (check_group_op-OpOk s id op c)

check_all-ChecksOk : (s : Store) (t : Transition) → check_all s t ≡ none → ChecksOk s t
unfolding check_all
check_all-ChecksOk s t c =
    let (_, c1) = or_option-none (check_journal s t.journal) _ c in
    let (cg, c2) = or_option-none (check_group s t.id t.group) _ c1 in
    let (cp, co) = or_option-none (check_patch s t.patch) _ c2 in
    record {
      patch = check_patch-GroupOk s t.patch cp;
      others = check_others-OthersOk s t.others co;
      op = group_checked s t.id t.group cg;
    }

apply_group-Inv :
    (group : Option GroupOp) (s : Store) (id : ℕ) (now : Ts)
    → Inv s
    → ((o : GroupOp) → group ≡ some o → OpOk s o)
    → Inv (apply_group group id now s)
apply_group-Inv none s id now h c = h
apply_group-Inv (some op) s id now h c = apply_group_op-Inv s id op now h (c op refl)

apply_changes-Inv : (s : Store) (t : Transition) → Inv s → ChecksOk s t → Inv (apply_changes s t)
unfolding apply_changes
apply_changes-Inv s t h c =
    let s1 : Store = record s {
      files = BTreeMap.modify t.id (move_row t.from t.to t.patch t.now) s.files;
    } in
    let s2 : Store = apply_others t.others t.now s1 in
    apply_group-Inv t.group s2 t.id t.now
      (apply_others-Inv t.others t.now s1 (moved-Inv s h t.id t.from t.to t.patch t.now c.patch)
        c.others)
      λ o e. OpOk-groups s1 s2 o (groups-apply_others t.others t.now s1) (c.op o e)

record_event-Inv :
    (b : Bool) (ev : Option DedupEvent) (s : Store) → Inv s → Inv (record_event b ev s)
record_event-Inv b none s h = h
record_event-Inv true (some ev) s h =
    other_fields-Inv s (record_event true (some ev) s) refl refl (omega arith) h
record_event-Inv false (some ev) s h =
    other_fields-Inv s (record_event false (some ev) s) refl refl (omega arith) h

close_journal-Inv :
    (j : Option (ℕ × JournalState)) (now : Ts) (s : Store) → Inv s → Inv (close_journal j now s)
close_journal-Inv none now s h = h
close_journal-Inv (some (jid, st)) now s h =
    other_fields-Inv s (close_journal (some (jid, st)) now s) refl refl (omega arith) h

changed-Inv :
    (b : Bool) (s : Store) (t : Transition)
    → Inv s
    → ChecksOk s t
    → Inv (if b then apply_changes s t else s)
changed-Inv true s t h c = apply_changes-Inv s t h c
changed-Inv false s t h c = h

apply_checked-Inv :
    (e : Option RepoError) (s : Store) (t : Transition)
    → Inv s
    → check_all s t ≡ e
    → Inv (apply_checked e s t).1
apply_checked-Inv (some e) s t h c = h
apply_checked-Inv none s t h c = close_journal-Inv t.journal t.now _ (
    record_event-Inv (passes s t) t.event _
      (changed-Inv (passes s t) s t h (check_all-ChecksOk s t c)))

pub apply-Inv : (s : Store) (t : Transition) → Inv s → Inv (apply s t).1
unfolding apply
apply-Inv s t h = apply_checked-Inv (check_all s t) s t h refl
