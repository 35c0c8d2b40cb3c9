-- ===== src/Memory/Lookup.antt =====
-- Candidates and groups: crates/core/src/repo/memory/lookup.rs, and the reads of
-- crates/core/src/repo/memory/mod.rs.
use check_trung_video.Base.{
  ℕ, ◌==◌, ltb, List, [], ◌∷◌, Bool, true, not, ◌&&◌, ◌||◌, Option, none, some, filter, take,
  sort_by, min_by, is_none, opt_eq, opt_map,
}
use check_trung_video.Base.Int
use check_trung_video.Base.Int.{ℤ}
use check_trung_video.Base.BTreeMap
use check_trung_video.Model.State
use check_trung_video.Model.State.{State, settling}
use check_trung_video.Model.JournalState
use check_trung_video.Model.Records.{
  Ts, DomainId, Digest, FileKey, FileLoc, FileRecord, Group, loc_eq, path_eq,
}
use check_trung_video.Model.Transition.{JournalRow}
use check_trung_video.Memory.{Store, file_by_key}
use check_trung_video.Memory.Queue.{is_dead}

pub data Scope : Type 0 where
  owner share same_domain : Scope

abbrev pub in_scope : Scope → FileRecord → FileRecord → Bool
in_scope owner me r = r.owner_uid == me.owner_uid
in_scope share me r = r.loc.root_id == me.loc.root_id
in_scope same_domain me r = true

-- A row with a hash comes before one without, then the older one.
unfoldable pub candidate_less : FileRecord → FileRecord → Bool
candidate_less a b =
    (not (is_none a.sparse_hash) && is_none b.sparse_hash)
    || ((is_none a.sparse_hash && is_none b.sparse_hash
          || not (is_none a.sparse_hash) && not (is_none b.sparse_hash))
        && (Int.lt a.mtime_ns b.mtime_ns
            || (Int.eq a.mtime_ns b.mtime_ns
                && (Int.lt a.first_seen_at b.first_seen_at
                    || (Int.eq a.first_seen_at b.first_seen_at && ltb a.id b.id)))))

unfoldable pub is_candidate_for : FileRecord → Scope → ℤ → FileRecord → Bool
is_candidate_for me scope settled_before_ns r =
    not (r.id == me.id)
    && (State.is_candidate r.state
        && (r.nlink == 1
            && ((r.domain_id == me.domain_id && r.size == me.size)
                && (Int.le r.mtime_ns settled_before_ns && in_scope scope me r))))

unfoldable pub candidates : Store → FileRecord → Scope → ℤ → ℕ → List FileRecord
unfolding candidate_less is_candidate_for sort_by BTreeMap.values
candidates s me scope settled_before_ns limit = take limit (
    sort_by candidate_less
      (filter (is_candidate_for me scope settled_before_ns) (BTreeMap.values s.files)))

unfoldable pub is_settling_peer : FileRecord → Scope → FileRecord → Bool
is_settling_peer me scope r =
    not (r.id == me.id)
    && (State.eq r.state settling
        && ((r.domain_id == me.domain_id && r.size == me.size) && in_scope scope me r))

abbrev pub max_opt : Option Ts → Option Ts → Option Ts
max_opt none b = b
max_opt (some a) none = some a
max_opt (some a) (some b) = some (Int.max_int a b)

-- The latest `ready_at` of the rows that have one.
unfoldable pub max_ready : List FileRecord → Option Ts
max_ready [] = none
max_ready (r ∷ rs) = max_opt r.ready_at (max_ready rs)

unfoldable pub pending_same_size : Store → FileRecord → Scope → Option Ts
unfolding is_settling_peer max_ready BTreeMap.values
pending_same_size s me scope =
    max_ready (filter (is_settling_peer me scope) (BTreeMap.values s.files))

unfoldable pub has_group_key : DomainId → ℕ → Digest → Group → Bool
has_group_key domain size h g = (g.domain_id == domain && g.size == size) && g.sparse_hash == h

-- In the order of the ids
unfoldable pub groups_by_key : Store → DomainId → ℕ → Digest → List Group
unfolding has_group_key BTreeMap.values
groups_by_key s domain size h = filter (has_group_key domain size h) (BTreeMap.values s.groups)

unfoldable pub group_get : Store → ℕ → Option Group
unfolding BTreeMap.get
group_get s g = BTreeMap.get g s.groups

unfoldable pub group_members : Store → ℕ → List FileRecord
unfolding BTreeMap.values
group_members s g =
    filter (λ (r : FileRecord). opt_eq ◌==◌ r.group_id (some g)) (BTreeMap.values s.files)

unfoldable pub find_by_key : Store → FileKey → Option FileRecord
unfolding BTreeMap.find_entry
find_by_key s key = opt_map (λ (e : ℕ × FileRecord). e.1) (file_by_key s key)

-- A living row comes before a dead one, then the smaller id.
unfoldable pub path_less : FileRecord → FileRecord → Bool
path_less a b =
    (not (is_dead a.state) && is_dead b.state)
    || ((is_dead a.state && is_dead b.state || not (is_dead a.state) && not (is_dead b.state))
        && ltb a.id b.id)

unfoldable pub find_by_path : Store → FileLoc → Option FileRecord
unfolding path_less path_eq min_by BTreeMap.values
find_by_path s loc =
    min_by path_less (filter (λ (f : FileRecord). loc_eq f.loc loc) (BTreeMap.values s.files))

unfoldable pub journal_open : Store → List JournalRow
unfolding BTreeMap.values
journal_open s =
    filter (λ (j : JournalRow). not (JournalState.is_closed j.state)) (BTreeMap.values s.journal)
