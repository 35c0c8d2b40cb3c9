-- ===== src/Memory/Inv/Misc.antt =====
-- The operations of crates/core/src/repo/memory/misc.rs keep the invariant of the store.
use check_trung_video.Base.{
  ℕ, ◌≤◌, ◌≡◌, ◌∙◌, refl, sym, arith, Bool, not, String, Option, none, some, List,
}
use check_trung_video.Base.Int
use check_trung_video.Base.Int.{ℤ}
use check_trung_video.Base.BTreeMap
use check_trung_video.Base.BTreeMap.{BTreeMap}
use check_trung_video.Model.State.{hashed}
use check_trung_video.Model.JournalState.{JournalState}
use check_trung_video.Model.Records.{Ts, DomainId, FileLoc, FileRecord, Volume, Root}
use check_trung_video.Model.Transition.{JournalRow}
use check_trung_video.Memory.{Store}
use check_trung_video.Memory.Misc.{
  journal_begin, journal_update, volume_upsert, volume_at, root_upsert, park_domain, unpark_domain,
  requeue_verified, is_parkable, is_parked, is_requeued, purge, het_han, purged_group,
}
use check_trung_video.Memory.Inv.{Inv, AreUpdates}
use check_trung_video.Memory.Inv.Rules.{
  update_where-Inv, map_group-Inv, files-Inv, other_fields-Inv, same-IsUpdate, IsUpdate-refl,
}

pub journal_begin-Inv : (s : Store) (j : JournalRow) → Inv s → Inv (journal_begin s j).1
unfolding journal_begin
journal_begin-Inv s j h = other_fields-Inv s (journal_begin s j).1 refl refl (omega arith) h

pub journal_update-Inv :
    (s : Store) (id : ℕ) (st : JournalState) (durable : Bool) (now : Ts)
    → Inv s
    → Inv (journal_update s id st durable now).1
unfolding journal_update
journal_update-Inv s id st durable now h =
    other_fields-Inv s (journal_update s id st durable now).1 (ground arith) (ground arith)
      (ground arith) h

volume_at-next :
    (found : Option (ℕ × Volume)) (s : Store) (v : Volume)
    → s.next_id ≤ (volume_at found s v).1.next_id
volume_at-next none s v = omega arith
volume_at-next (some (k, x)) s v = omega arith

pub volume_upsert-Inv : (s : Store) (v : Volume) → Inv s → Inv (volume_upsert s v).1
unfolding volume_upsert
volume_upsert-Inv s v h =
    other_fields-Inv s (volume_upsert s v).1 (ground arith) (ground arith) (ground arith) h

pub root_upsert-Inv : (s : Store) (r : Root) (now : Ts) → Inv s → Inv (root_upsert s r now).1
unfolding root_upsert
root_upsert-Inv s r now h =
    other_fields-Inv s (root_upsert s r now).1 (ground arith) (ground arith) (ground arith) h

module _ (s : Store) (h : Inv s) where
  pub park_domain-Inv :
      (domain : DomainId) (error : String) (now : Ts) → Inv (park_domain s domain error now).1
  unfolding park_domain
  park_domain-Inv domain error now =
      update_where-Inv s h (is_parkable domain)
        (λ (r : FileRecord). record r {
          ready_at = none;
          last_error = some error;
          updated_at = now;
        })
        λ k r at t. same-IsUpdate s h k r _ at refl refl refl

  pub unpark_domain-Inv : (domain : DomainId) (now : Ts) → Inv (unpark_domain s domain now).1
  unfolding unpark_domain
  unpark_domain-Inv domain now =
      update_where-Inv s h (is_parked domain)
        (λ (r : FileRecord). record r { ready_at = some now; updated_at = now })
        λ k r at t. same-IsUpdate s h k r _ at refl refl refl

  pub requeue_verified-Inv :
      (allow : List FileLoc) (now : Ts) → Inv (requeue_verified s allow now).1
  unfolding requeue_verified
  requeue_verified-Inv allow now =
      update_where-Inv s h (is_requeued allow)
        (λ (r : FileRecord). record r { state = hashed; ready_at = some now; updated_at = now })
        λ k r at t. same-IsUpdate s h k r _ at refl refl refl

  -- What is purged leaves the other rows as they were.
  AreUpdates-retain : (p : FileRecord → Bool) → AreUpdates s (BTreeMap.retain p s.files)
  AreUpdates-retain p k r' e =
      let at : BTreeMap.get k s.files ≡ some r' =
        kept (BTreeMap.get k s.files) (sym (BTreeMap.get-retain k p s.files h.files_sorted) ∙ e) in
      (r', at, IsUpdate-refl s h k r' at)
    where
      kept : (o : Option FileRecord) → BTreeMap.keep_if p o ≡ some r' → o ≡ some r'
      kept none e' = cc e'
      kept (some r) e' = ground arith

  pub purge-Inv : (now : Ts) (retention_ms : ℤ) → Inv (purge s now retention_ms).1
  unfolding purge
  purge-Inv now retention_ms =
      let p : FileRecord → Bool = λ r. not (het_han (Int.saturating_sub now retention_ms) r) in
      let s1 : Store = record s { files = BTreeMap.retain p s.files } in
      let h1 : Inv s1 =
        files-Inv s h (BTreeMap.retain p s.files)
          (BTreeMap.retain-IsSorted p s.files h.files_sorted) (AreUpdates-retain p) in
      let h2 =
        map_group-Inv s1 h1
          (purged_group (Int.saturating_sub now retention_ms) (BTreeMap.values s.files))
          (λ g. refl) in
      other_fields-Inv _ (purge s now retention_ms).1 refl refl (omega arith) h2
