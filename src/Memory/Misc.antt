-- ===== src/Memory/Misc.antt =====
-- Journal, volumes, roots, parking, ledger and purge: crates/core/src/repo/memory/misc.rs.
pub mod Purge
use check_trung_video.Base.{
  ℕ, zero, ◌+◌, ◌-◌, ◌==◌, ltb, max, String, List, [], ◌∷◌, ◌++◌, Bool, true, false, not, ◌&&◌,
  ◌||◌, Option, none, some, Result, ok, err, any, filter, take, map, is_none, is_some, is_none_or,
  is_some_and, opt_eq, sort_by, length, if◌then◌else◌,
}
use mathlib.Core.List.{reverse}
use check_trung_video.Base.Int
use check_trung_video.Base.Int.{ℤ}
use check_trung_video.Base.BTreeMap
use check_trung_video.Model.State
use check_trung_video.Model.State.{State, hashed, verified, gone}
use check_trung_video.Model.JournalState.{JournalState}
use check_trung_video.Model.Records.{
  Ts, DomainId, FileLoc, FileRecord, Group, Volume, Root, path_eq, path_starts_with,
}
use check_trung_video.Model.Transition.{JournalRow, DedupEvent, EventFilter}
use check_trung_video.Memory.{Store, RepoError, journal_unknown}

unfoldable pub journal_begin : Store → JournalRow → ℕ × Store
journal_begin s j =
    let id : ℕ = s.next_id + 1 in
    (
      id,
      record s { next_id = id; journal = BTreeMap.insert id (record j { id = some id }) s.journal },
    )

unfoldable pub journal_update :
    Store → ℕ → JournalState → Bool → Ts → Result RepoError (Unit {0}) × Store
journal_update s id st durable now =
    if BTreeMap.contains_key id s.journal
    then (
      ok tt,
      record s {
        journal =
            BTreeMap.modify id (λ (j : JournalRow). record j { state = st; updated_at = now })
              s.journal;
        durable_writes = if durable then s.durable_writes + 1 else s.durable_writes;
      },
    )
    else (err (journal_unknown id), s)

abbrev pub volume_at : Option (ℕ × Volume) → Store → Volume → ℕ × Store
volume_at (some (k, existing)) s v = (
  existing.id,
  record s { volumes = BTreeMap.insert k (record v { id = existing.id }) s.volumes },
)
volume_at none s v =
    let id : ℕ = s.next_id + 1 in
    (id, record s { next_id = id; volumes = BTreeMap.insert id (record v { id = id }) s.volumes })

unfoldable pub volume_upsert : Store → Volume → ℕ × Store
unfolding BTreeMap.find_entry BTreeMap.insert
volume_upsert s v =
    volume_at (BTreeMap.find_entry (λ (x : Volume). x.domain_id == v.domain_id) s.volumes) s v

abbrev pub root_at : Option (ℕ × Root) → Store → Root → Ts → ℕ × Store
root_at (some (k, existing)) s r now = (
  existing.id,
  record s {
    roots = BTreeMap.insert k (record r { id = existing.id; added_at = existing.added_at }) s.roots;
  },
)
root_at none s r now =
    let given : Bool = ltb 0 r.id && not (BTreeMap.contains_key r.id s.roots) in
    let id : ℕ = if given then r.id else s.next_id + 1 in
    let next_id : ℕ = if given then max s.next_id r.id else s.next_id + 1 in
    (
      id,
      record s {
        next_id = next_id;
        roots = BTreeMap.insert id (record r { id = id; added_at = now }) s.roots;
      },
    )

unfoldable pub root_upsert : Store → Root → Ts → ℕ × Store
unfolding path_eq BTreeMap.find_entry BTreeMap.insert BTreeMap.get
root_upsert s r now =
    root_at (BTreeMap.find_entry (λ (x : Root). path_eq x.path r.path) s.roots) s r now

unfoldable pub file_count : Store → ℕ → ℕ
unfolding BTreeMap.count_where
file_count s root_id =
    BTreeMap.count_where
      (λ (r : FileRecord). r.loc.root_id == root_id && not (State.eq r.state gone)) s.files

unfoldable pub is_parkable : DomainId → FileRecord → Bool
is_parkable domain r = r.domain_id == domain && (State.eq r.state hashed && is_some r.ready_at)

unfoldable pub park_domain : Store → DomainId → String → Ts → ℕ × Store
unfolding is_parkable BTreeMap.update_where BTreeMap.count_where
park_domain s domain error now = (
  BTreeMap.count_where (is_parkable domain) s.files,
  record s {
    files =
        BTreeMap.update_where (is_parkable domain)
          (λ (r : FileRecord). record r {
            ready_at = none;
            last_error = some error;
            updated_at = now;
          })
          s.files;
  },
)

unfoldable pub is_parked : DomainId → FileRecord → Bool
is_parked domain r = r.domain_id == domain && (State.eq r.state hashed && is_none r.ready_at)

unfoldable pub unpark_domain : Store → DomainId → Ts → ℕ × Store
unfolding is_parked BTreeMap.update_where BTreeMap.count_where
unpark_domain s domain now = (
  BTreeMap.count_where (is_parked domain) s.files,
  record s {
    files =
        BTreeMap.update_where (is_parked domain)
          (λ (r : FileRecord). record r { ready_at = some now; updated_at = now }) s.files;
  },
)

abbrev pub is_empty_path : List String → Bool
is_empty_path [] = true
is_empty_path _ = false

-- The empty path stands for the whole root.
unfoldable pub is_allowed : List FileLoc → FileRecord → Bool
unfolding path_starts_with
is_allowed allow r =
    any
      (λ (a : FileLoc).
        r.loc.root_id == a.root_id
        && (is_empty_path a.rel_path || path_starts_with r.loc.rel_path a.rel_path))
      allow

unfoldable pub is_requeued : List FileLoc → FileRecord → Bool
unfolding is_allowed
is_requeued allow r = State.eq r.state verified && is_allowed allow r

unfoldable pub requeue_verified : Store → List FileLoc → Ts → ℕ × Store
unfolding is_requeued BTreeMap.update_where BTreeMap.count_where
requeue_verified s allow now = (
  BTreeMap.count_where (is_requeued allow) s.files,
  record s {
    files =
        BTreeMap.update_where (is_requeued allow)
          (λ (r : FileRecord). record r { state = hashed; ready_at = some now; updated_at = now })
          s.files;
  },
)

unfoldable pub fits_filter : EventFilter → DedupEvent → Bool
fits_filter f e =
    is_none_or (λ u. opt_eq ◌==◌ e.src_uid (some u) || opt_eq ◌==◌ e.dst_uid (some u)) f.uid
    && is_none_or (λ t. Int.le t e.ts) f.since

abbrev pub truncate {ℓ} : {A : Type ℓ} → Option ℕ → List A → List A
truncate none xs = xs
truncate (some n) xs = take n xs

-- The newest first; of one moment, the one recorded last.
unfoldable pub events : Store → EventFilter → List DedupEvent
unfolding fits_filter sort_by
events s f = truncate f.limit (
    sort_by (λ (a : DedupEvent) (b : DedupEvent). Int.lt b.ts a.ts)
      (filter (fits_filter f) (reverse s.events)))

-- A row that has been `gone` since before the cutoff.
unfoldable pub het_han : Ts → FileRecord → Bool
het_han cutoff r = State.eq r.state gone && Int.lt r.updated_at cutoff

-- `xoa.contains(&id)`, where `xoa` holds the ids of the rows that go
unfoldable pub is_purged_id : Ts → List FileRecord → ℕ → Bool
unfolding het_han
is_purged_id cutoff rows id = any (λ (r : FileRecord). het_han cutoff r && r.id == id) rows

-- A group whose canonical row goes has none.
abbrev pub purged_group : Ts → List FileRecord → Group → Group
purged_group cutoff rows g = record g {
  canonical_file_id =
      if is_some_and (is_purged_id cutoff rows) g.canonical_file_id
      then none
      else g.canonical_file_id;
}

unfoldable pub purge : Store → Ts → ℤ → ℕ × Store
unfolding het_han is_purged_id BTreeMap.retain BTreeMap.map_values BTreeMap.values
purge s now retention_ms =
    let cutoff : ℤ = Int.saturating_sub now retention_ms in
    let files = BTreeMap.retain (λ r. not (het_han cutoff r)) s.files in
    let events = filter (λ (e : DedupEvent). Int.le cutoff e.ts) s.events in
    (
      length s.files - length files + (length s.events - length events),
      record s {
        files = files;
        groups = BTreeMap.map_values (purged_group cutoff (BTreeMap.values s.files)) s.groups;
        events = events;
      },
    )
