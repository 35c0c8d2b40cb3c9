-- ===== src/Memory/Presence.antt =====
-- The presence scan: the second half of crates/core/src/repo/memory/watch.rs, and the operations
-- of crates/core/src/repo/memory/mod.rs that open and drop a session.
pub mod Frame
pub mod Session
use check_trung_video.Base.{
  ℕ, suc, ◌+◌, ◌==◌, List, [], ◌∷◌, Bool, true, false, not, ◌&&◌, Option, none, some, Result, ok,
  err, filter, map, if◌then◌else◌, opt_map,
}
use check_trung_video.Base.Int
use check_trung_video.Base.BTreeMap
use check_trung_video.Base.BTreeMap.{BTreeMap}
use check_trung_video.Model.State
use check_trung_video.Model.State.{State, missing, gone}
use check_trung_video.Model.RootKind.{RootKind}
use check_trung_video.Model.Records.{
  Ts, FileKey, FileLoc, Fingerprint, FileRecord, Group, Identity, key_eq,
}
use check_trung_video.Memory.{
  Store, Phien, RepoError, session_open, session_missing, session_of_other_root, root_kind,
  file_by_key,
}
use check_trung_video.Memory.Queue.{is_dead, upsert_existing, contains_file_key}
use check_trung_video.Memory.Watch.{set_missing}

abbrev pub begin_session : Option Phien → Store → ℕ → Result RepoError (Unit {0}) × Store
begin_session (some p) s root_id = (err (session_open p.root_id), s)
begin_session none s root_id =
    (ok tt, record s { phien = some (record { root_id = root_id; seen = [] }) })

unfoldable pub presence_begin : Store → ℕ → Result RepoError (Unit {0}) × Store
presence_begin s root_id = begin_session s.phien s root_id

unfoldable pub presence_abort : Store → Store
presence_abort s = record s { phien = none }

pub record Seen : Type 0 where
  pub key : FileKey
  pub fp : Fingerprint
  pub loc : FileLoc

abbrev pub add_seen : FileKey → Store → Store
add_seen key s = record s {
  phien = opt_map (λ (p : Phien). record p { seen = key ∷ p.seen }) s.phien;
}

-- What the scan knows of a file, with the columns that it does not look at taken from the row.
abbrev pub seen_identity : Seen → FileRecord → Identity
seen_identity e r = record {
  key = e.key;
  domain_id = r.domain_id;
  size = e.fp.size;
  mtime_ns = e.fp.mtime_ns;
  ctime_ns = e.fp.ctime_ns;
  atime_ns = Int.pos 0;
  nlink = r.nlink;
  uid = r.owner_uid;
  mode = r.mode;
  blocks = 0;
  dev = 0;
}

abbrev pub restore_seen : Option (ℕ × FileRecord) → Store → Seen → RootKind → Ts → ℕ × Store
restore_seen none s e kind now = (0, s)
restore_seen (some (k, r)) s e kind now =
    (1, upsert_existing (s, k, r) (seen_identity e r) (some e.loc) kind now r.priority now)

abbrev pub without_key : FileKey → List FileKey → List FileKey
without_key key keys = filter (λ k. not (key_eq k key)) keys

-- The loop over the batch: the keys of missing rows, and how many rows were restored.
unfoldable pub seen_loop : Store → List FileKey → ℕ → Ts → List Seen → Result RepoError ℕ × Store
unfolding root_kind upsert_existing
seen_loop s dang_missing restored now [] = (ok restored, s)
seen_loop s dang_missing restored now (e ∷ entries) =
    let s' : Store = add_seen e.key s in
    elim (contains_file_key e.key dang_missing) [
      | false ↦ seen_loop s' dang_missing restored now entries
      | true ↦ elim (root_kind s' e.loc.root_id) [
        | err x ↦ (err x, s')
        | ok kind ↦
            seen_loop (restore_seen (file_by_key s' e.key) s' e kind now).1
              (without_key e.key dang_missing)
              (restored + (restore_seen (file_by_key s' e.key) s' e kind now).0) now entries
      ]
    ]

abbrev pub missing_keys : Store → List FileKey
missing_keys s =
    map (λ (f : FileRecord). f.key)
      (filter (λ (r : FileRecord). State.eq r.state missing) (BTreeMap.values s.files))

-- After an error files, groups and the keys seen are those from before the batch.
abbrev pub roll_back : Result RepoError ℕ × Store → Store → Phien → Result RepoError ℕ × Store
roll_back (ok n, s') s p = (ok n, s')
roll_back (err e, s') s p = (
  err e,
  record s' {
    files = s.files;
    groups = s.groups;
    phien = opt_map (λ (q : Phien). record q { seen = p.seen }) s'.phien;
  },
)

abbrev pub seen_in_session : Option Phien → Store → List Seen → Ts → Result RepoError ℕ × Store
seen_in_session none s entries now = (err session_missing, s)
seen_in_session (some p) s entries now = roll_back (seen_loop s (missing_keys s) 0 now entries) s p

unfoldable pub presence_seen : Store → List Seen → Ts → Result RepoError ℕ × Store
unfolding seen_loop BTreeMap.values
presence_seen s entries now = seen_in_session s.phien s entries now

-- A row of the root that was not seen and has not changed since the scan began.
unfoldable pub is_lost : ℕ → List FileKey → Ts → FileRecord → Bool
is_lost root_id seen scan_id r =
    (r.loc.root_id == root_id && not (contains_file_key r.key seen))
    && (not (is_dead r.state) && Int.lt r.updated_at scan_id)

abbrev pub finish_session : Option Phien → Store → ℕ → Ts → Result RepoError ℕ × Store
finish_session none s root_id scan_id = (err session_missing, s)
finish_session (some p) s root_id scan_id =
    if p.root_id == root_id
    then (
      ok (BTreeMap.count_where (is_lost root_id p.seen scan_id) s.files),
      record s {
        phien = none;
        files =
            BTreeMap.update_where (is_lost root_id p.seen scan_id) (set_missing scan_id) s.files;
      },
    )
    else (err (session_of_other_root root_id p.root_id), s)

unfoldable pub presence_finish : Store → ℕ → Ts → Result RepoError ℕ × Store
unfolding is_lost set_missing BTreeMap.update_where BTreeMap.count_where
presence_finish s root_id scan_id = finish_session s.phien s root_id scan_id

unfoldable pub is_expired : ℕ → Ts → FileRecord → Bool
is_expired root_id cutoff r =
    r.loc.root_id == root_id && (State.eq r.state missing && Int.lt r.updated_at cutoff)

unfoldable pub presence_expire : Store → ℕ → Ts → Ts → ℕ × Store
unfolding is_expired BTreeMap.update_where BTreeMap.count_where
presence_expire s root_id cutoff now = (
  BTreeMap.count_where (is_expired root_id cutoff) s.files,
  record s {
    files =
        BTreeMap.update_where (is_expired root_id cutoff)
          (λ (r : FileRecord). record r { state = gone; updated_at = now }) s.files;
  },
)
