-- ===== src/Memory/Inv/Presence.antt =====
-- The operations of the presence scan keep the invariant of the store.
use check_trung_video.Base.{
  ℕ, ◌+◌, ◌≤◌, ◌≡◌, ◌∙◌, refl, arith, Option, none, some, List, [], ◌∷◌, Result, ok, err,
  Bool-cases, Result-cases, inl, inr, ◌==◌,
}
use check_trung_video.Base.BTreeMap
use check_trung_video.Model.State.{gone}
use check_trung_video.Model.RootKind.{RootKind}
use check_trung_video.Model.Records.{Ts, FileKey, FileLoc, FileRecord, Identity}
use check_trung_video.Rules.{decide_upsert, apply_upsert}
use check_trung_video.Memory.{Store, Phien, RepoError, file_by_key, root_kind, bo_goc_khi_roi_nhom}
use check_trung_video.Memory.Queue.{contains_file_key, upsert_existing}
use check_trung_video.Memory.Watch.{set_missing}
use check_trung_video.Memory.Presence.{
  Seen, presence_begin, presence_abort, add_seen, seen_identity, restore_seen, without_key,
  seen_loop, missing_keys, roll_back, seen_in_session, presence_seen, is_lost, presence_finish,
  is_expired, presence_expire, begin_session, finish_session,
}
use check_trung_video.Memory.Inv.{Inv}
use check_trung_video.Memory.Inv.Rules.{same-IsUpdate, update_where-Inv, other_fields-Inv}
use check_trung_video.Memory.Inv.Queue.{upsert_existing-Inv, file_by_key-some}
use check_trung_video.Memory.Inv.Watch.{set_missing-IsUpdate}

begin_session-Inv :
    (p : Option Phien) (s : Store) (root_id : ℕ) → Inv s → Inv (begin_session p s root_id).1
begin_session-Inv none s root_id h =
    other_fields-Inv s (begin_session none s root_id).1 refl refl (omega arith) h
begin_session-Inv (some p) s root_id h = h

pub presence_begin-Inv : (s : Store) (root_id : ℕ) → Inv s → Inv (presence_begin s root_id).1
unfolding presence_begin
presence_begin-Inv s root_id h = begin_session-Inv s.phien s root_id h

pub presence_abort-Inv : (s : Store) → Inv s → Inv (presence_abort s)
unfolding presence_abort
presence_abort-Inv s h = other_fields-Inv s (record s { phien = none }) refl refl (omega arith) h

add_seen-Inv : (s : Store) (key : FileKey) → Inv s → Inv (add_seen key s)
add_seen-Inv s key h = other_fields-Inv s (add_seen key s) refl refl (omega arith) h

restore_seen-Inv :
    (found : Option (ℕ × FileRecord)) (s : Store) (e : Seen) (kind : RootKind) (now : Ts)
    → Inv s
    → file_by_key s e.key ≡ found
    → Inv (restore_seen found s e kind now).1
restore_seen-Inv none s e kind now h eq = h
restore_seen-Inv (some (k, r)) s e kind now h eq =
    upsert_existing-Inv s k r (seen_identity e r) (some e.loc) kind now r.priority now h
      (file_by_key-some s e.key h eq).0

seen_loop-Inv :
    (s : Store) (keys : List FileKey) (n : ℕ) (now : Ts) (entries : List Seen)
    → Inv s
    → Inv (seen_loop s keys n now entries).1
unfolding seen_loop
seen_loop-Inv s keys n now [] h = h
seen_loop-Inv s keys n now (e ∷ entries) h = elim (Bool-cases (contains_file_key e.key keys)) [
  | inr f ↦
      rw (f, seen_loop)
        (seen_loop-Inv (add_seen e.key s) keys n now entries (add_seen-Inv s e.key h))
  | inl t ↦ elim (Result-cases (root_kind (add_seen e.key s) e.loc.root_id)) [
    | inl (x, bad) ↦ rw (t, bad, seen_loop) (add_seen-Inv s e.key h)
    | inr (kind, fine) ↦
        let s' : Store = add_seen e.key s in
        rw (t, fine, seen_loop)
          (seen_loop-Inv (restore_seen (file_by_key s' e.key) s' e kind now).1
            (without_key e.key keys) (n + (restore_seen (file_by_key s' e.key) s' e kind now).0) now
            entries
            (restore_seen-Inv (file_by_key s' e.key) s' e kind now (add_seen-Inv s e.key h) refl))
  ]
]

next_id-bo_goc :
    (row_id : ℕ) (truoc sau : Option ℕ) (s : Store)
    → (bo_goc_khi_roi_nhom row_id truoc sau s).next_id ≡ s.next_id
unfolding bo_goc_khi_roi_nhom
next_id-bo_goc row_id (some g) none s = refl
next_id-bo_goc row_id none none s = refl
next_id-bo_goc row_id none (some b) s = refl
next_id-bo_goc row_id (some a) (some b) s = refl

next_id-upsert_existing :
    (s : Store) (k : ℕ) (row : FileRecord) (id : Identity) (loc : Option FileLoc) (kind : RootKind)
    (ready_at : Ts) (priority : ℕ) (now : Ts)
    → (upsert_existing (s, k, row) id loc kind ready_at priority now).next_id ≡ s.next_id
unfolding upsert_existing
next_id-upsert_existing s k row id loc kind ready_at priority now =
    let row' : FileRecord =
      apply_upsert row (decide_upsert row id kind ready_at priority) id loc now in
    next_id-bo_goc row.id row.group_id row'.group_id
      (record s { files = BTreeMap.insert k row' s.files })

next_id-restore_seen :
    (found : Option (ℕ × FileRecord)) (s : Store) (e : Seen) (kind : RootKind) (now : Ts)
    → (restore_seen found s e kind now).1.next_id ≡ s.next_id
next_id-restore_seen none s e kind now = refl
next_id-restore_seen (some (k, r)) s e kind now =
    next_id-upsert_existing s k r (seen_identity e r) (some e.loc) kind now r.priority now

-- A scan allocates no id.
next_id-seen_loop :
    (s : Store) (keys : List FileKey) (n : ℕ) (now : Ts) (entries : List Seen)
    → (seen_loop s keys n now entries).1.next_id ≡ s.next_id
unfolding seen_loop
next_id-seen_loop s keys n now [] = refl
next_id-seen_loop s keys n now (e ∷ entries) = elim (Bool-cases (contains_file_key e.key keys)) [
  | inr f ↦ rw (f, seen_loop) (next_id-seen_loop (add_seen e.key s) keys n now entries)
  | inl t ↦ elim (Result-cases (root_kind (add_seen e.key s) e.loc.root_id)) [
    | inl (x, bad) ↦ rw (t, bad, seen_loop)
    | inr (kind, fine) ↦
        let s' : Store = add_seen e.key s in
        rw (t, fine, seen_loop)
          (next_id-seen_loop (restore_seen (file_by_key s' e.key) s' e kind now).1
              (without_key e.key keys) (n + (restore_seen (file_by_key s' e.key) s' e kind now).0)
              now entries
            ∙ next_id-restore_seen (file_by_key s' e.key) s' e kind now)
  ]
]

roll_back-Inv :
    (out : Result RepoError ℕ × Store) (s : Store) (p : Phien)
    → Inv s
    → Inv out.1
    → s.next_id ≤ out.1.next_id
    → Inv (roll_back out s p).1
roll_back-Inv (ok n, s') s p h h' g = h'
roll_back-Inv (err e, s') s p h h' g = other_fields-Inv s _ refl refl g h

seen_in_session-Inv :
    (p : Option Phien) (s : Store) (entries : List Seen) (now : Ts)
    → Inv s
    → Inv (seen_in_session p s entries now).1
seen_in_session-Inv none s entries now h = h
seen_in_session-Inv (some p) s entries now h =
    roll_back-Inv (seen_loop s (missing_keys s) 0 now entries) s p h
      (seen_loop-Inv s (missing_keys s) 0 now entries h)
      (omega (arith, next_id-seen_loop s (missing_keys s) 0 now entries))

pub presence_seen-Inv :
    (s : Store) (entries : List Seen) (now : Ts) → Inv s → Inv (presence_seen s entries now).1
unfolding presence_seen
presence_seen-Inv s entries now h = seen_in_session-Inv s.phien s entries now h

finish_session-Inv :
    (p : Option Phien) (s : Store) (root_id : ℕ) (scan_id : Ts)
    → Inv s
    → Inv (finish_session p s root_id scan_id).1
finish_session-Inv none s root_id scan_id h = h
finish_session-Inv (some p) s root_id scan_id h = elim (Bool-cases (p.root_id == root_id)) [
  | inl t ↦ rw t (
      other_fields-Inv _
        (record s {
          phien = none;
          files =
              BTreeMap.update_where (is_lost root_id p.seen scan_id) (set_missing scan_id) s.files;
        })
        refl refl (omega arith)
        (update_where-Inv s h (is_lost root_id p.seen scan_id) (set_missing scan_id)
          λ k r at t'. set_missing-IsUpdate s h k r scan_id at))
  | inr f ↦ rw f h
]

pub presence_finish-Inv :
    (s : Store) (root_id : ℕ) (scan_id : Ts) → Inv s → Inv (presence_finish s root_id scan_id).1
unfolding presence_finish
presence_finish-Inv s root_id scan_id h = finish_session-Inv s.phien s root_id scan_id h

pub presence_expire-Inv :
    (s : Store) (root_id : ℕ) (cutoff now : Ts)
    → Inv s
    → Inv (presence_expire s root_id cutoff now).1
unfolding presence_expire
presence_expire-Inv s root_id cutoff now h =
    update_where-Inv s h (is_expired root_id cutoff)
      (λ (r : FileRecord). record r { state = gone; updated_at = now })
      λ k r at t. same-IsUpdate s h k r _ at refl refl refl
