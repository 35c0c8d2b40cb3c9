-- ===== src/Memory/Apply/Laws.antt =====
-- What `apply` does with a transition: crates/core/src/repo/memory/apply.rs.
use check_trung_video.Base.{
  List, [], ◌∷◌, ◌++◌, false, Option, none, some, ok, err, ◌≡◌, refl, inl, inr, Option-cases,
  Bool-cases, if◌then◌else◌, ◌∙◌, ◌≢◌, subst, sym, unwrap_or, opt_map,
}
use check_trung_video.Base.BTreeMap
use check_trung_video.Base.BTreeMap.{BTreeMap, get-modify}
use check_trung_video.Model.State
use check_trung_video.Model.State.{State}
use check_trung_video.Model.Records.{Ts, FileRecord, Identity}
use check_trung_video.Model.Transition.{DedupEvent, Patch, Transition}
use check_trung_video.Memory.{Store, RepoError}
use check_trung_video.Memory.Apply.{apply, check_all, passes, record_event, raced_note}
use check_trung_video.Memory.Apply.Moved.{close_journal-rows, record_event-rows, State-eq→≡}

-- A transition that is refused with an error changes nothing.
pub apply-refused :
    (s : Store) (t : Transition) (e : RepoError) → check_all s t ≡ some e → apply s t ≡ (err e, s)
unfolding apply
apply-refused s t e h = rw h

-- The ledger after an event, if there was one, that came too late.
abbrev pub Noted : Option DedupEvent → List DedupEvent → List DedupEvent → Type 0
Noted none before after = after ≡ before
Noted (some ev) before after = after ≡ before ++ record ev { note = raced_note ev.note } ∷ []

record_event-Noted :
    (o : Option DedupEvent) (s : Store) → Noted o s.events (record_event false o s).events
record_event-Noted none s = refl
record_event-Noted (some ev) s = refl

passes-left :
    (s : Store) (t : Transition)
    → ((r : FileRecord) → BTreeMap.get t.id s.files ≡ some r → r.state ≢ t.from)
    → passes s t ≡ false
unfolding passes
passes-left s t h = elim (Option-cases (BTreeMap.get t.id s.files)) [
  | inl e ↦ rw e refl
  | inr (r, e) ↦ elim (Bool-cases (State.eq r.state t.from)) [
    | inl q ↦ elim (h r e (State-eq→≡ r.state t.from q)) [ ]
    | inr q ↦ rw (e, q) refl
  ]
]

-- A transition that passes the checks, and whose row is gone or is in another state than `from`,
-- answers `false` and changes no row and no group; its event, if it has one, goes to the ledger all
-- the same, with the note that the state was raced.
pub apply-raced :
    (s : Store) (t : Transition)
    → check_all s t ≡ none
    → ((r : FileRecord) → BTreeMap.get t.id s.files ≡ some r → r.state ≢ t.from)
    → ((apply s t).0 ≡ ok false)
      × ((apply s t).1.files ≡ s.files)
      × ((apply s t).1.groups ≡ s.groups)
      × Noted t.event s.events (apply s t).1.events
unfolding apply
apply-raced s t c h =
    rw (c, passes-left s t h)
      (let j = close_journal-rows t.journal t.now (record_event false t.event s) in
        let r = record_event-rows false t.event s in
        (
          refl,
          j.0 ∙ r.0,
          j.1 ∙ r.1,
          subst (Noted t.event s.events) (sym j.2) (record_event-Noted t.event s),
        ))

-- What the patch `p` and the change to `to` make of the row `r`. A field that the patch does not set
-- is kept, but the time since which the row waits for heavy work is lost with a change of state.
abbrev pub Patched : Patch → State → State → Ts → FileRecord → FileRecord → Type 0
Patched p from to now r r' =
    (r'.state ≡ to)
    × (r'.updated_at ≡ now)
    × (r'.id ≡ r.id)
    × (r'.key ≡ r.key)
    × (r'.loc ≡ r.loc)
    × (r'.ready_at ≡ unwrap_or r.ready_at p.ready_at)
    × (r'.priority ≡ unwrap_or r.priority p.priority)
    × (r'.attempts ≡ unwrap_or r.attempts p.attempts)
    × (r'.last_error ≡ unwrap_or r.last_error p.last_error)
    × (r'.skip_reason ≡ unwrap_or r.skip_reason p.skip_reason)
    × (r'.prev_state ≡ unwrap_or r.prev_state p.prev_state)
    × (r'.sparse_hash ≡ unwrap_or r.sparse_hash p.sparse_hash)
    × (r'.full_hash ≡ unwrap_or r.full_hash p.full_hash)
    × (r'.heavy_wait_since
        ≡ unwrap_or (if State.eq from to then r.heavy_wait_since else none) p.heavy_wait_since)
    × (r'.size ≡ unwrap_or r.size (opt_map (λ (i : Identity). i.size) p.identity))
    × (r'.mtime_ns ≡ unwrap_or r.mtime_ns (opt_map (λ (i : Identity). i.mtime_ns) p.identity))
    × (r'.ctime_ns ≡ unwrap_or r.ctime_ns (opt_map (λ (i : Identity). i.ctime_ns) p.identity))
