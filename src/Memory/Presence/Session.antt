-- ===== src/Memory/Presence/Session.antt =====
-- The session of a presence scan: crates/core/src/repo/memory/watch.rs.
use check_trung_video.Base.{
  ℕ, ◌==◌, ==-refl, List, [], ◌∷◌, In, here, there, Bool, true, false, not, ◌&&◌, Option, none,
  some, Result, ok, err, Bool-cases, inl, inr, ◌⊎◌, ◌↔◌, ◌≢◌, ◌≡◌, refl, ap, sym, ◌∙◌, subst, arith,
}
use check_trung_video.Base.Int
use check_trung_video.Base.Int.{◌<ℤ◌}
use check_trung_video.Base.BTreeMap
use check_trung_video.Base.BTreeMap.{BTreeMap, get-update_where}
use check_trung_video.Model.State.{State, missing, gone}
use check_trung_video.Model.Records.{Ts, FileKey, FileRecord, key_eq}
use check_trung_video.Memory.{Store, Phien, RepoError}
use check_trung_video.Memory.Queue.{is_dead, contains_file_key}
use check_trung_video.Memory.Watch.{set_missing}
use check_trung_video.Memory.Presence.{
  Seen, presence_seen, presence_finish, roll_back, seen_in_session, seen_loop, missing_keys,
  is_lost,
}
use check_trung_video.Memory.Presence.Frame.{Framed, seen_loop-Framed}

roll_back-whole :
    (p : Phien) (s : Store) (r : Result RepoError ℕ × Store) (e : RepoError)
    → s.phien ≡ some p
    → Framed p s r.1
    → (roll_back r s p).0 ≡ err e
    → (roll_back r s p).1 ≡ s
roll_back-whole p s (ok n, s') e o f h = cc h
roll_back-whole p s (err x, s') e o (fs, gs, q, f) h =
    ap (λ (y : Store). (roll_back (err x, y) s p).1) f ∙ ap (λ o. record s { phien = o }) (sym o)

in_session-whole :
    (o : Option Phien) (s : Store) (entries : List Seen) (now : Ts) (e : RepoError)
    → s.phien ≡ o
    → (seen_in_session o s entries now).0 ≡ err e
    → (seen_in_session o s entries now).1 ≡ s
in_session-whole none s entries now e o h = refl
in_session-whole (some p) s entries now e o h =
    roll_back-whole p s (seen_loop s (missing_keys s) 0 now entries) e o
      (seen_loop-Framed p s now entries (missing_keys s) 0 s
        (s.files, s.groups, p.seen, ap (λ o. record s { phien = o }) o))
      h

-- A batch of the presence scan that ends in an error, at whatever entry, leaves the store as it was
-- before the batch: the rows, the groups, the keys seen so far and all the rest.
pub presence_seen-err :
    (s : Store) (entries : List Seen) (now : Ts) (e : RepoError)
    → (presence_seen s entries now).0 ≡ err e
    → (presence_seen s entries now).1 ≡ s
unfolding presence_seen
presence_seen-err s entries now e h = in_session-whole s.phien s entries now e refl h

key_eq→≡ : (a b : FileKey) → key_eq a b ≡ true → a ≡ b
key_eq→≡ a b h = ground arith

key_eq_refl : (a : FileKey) → key_eq a a ≡ true
key_eq_refl a = ground arith

contains-In : (k : FileKey) (seen : List FileKey) → contains_file_key k seen ≡ true → In k seen
contains-In k [] h = cc h
contains-In k (j ∷ seen) h = elim (Bool-cases (key_eq j k)) [
  | inl e ↦ subst (λ x. In k (x ∷ seen)) (sym (key_eq→≡ j k e)) here
  | inr f ↦ there (contains-In k seen (rw f at h))
]

In-contains : (k : FileKey) (seen : List FileKey) → In k seen → contains_file_key k seen ≡ true
In-contains k [] n = elim n [ ]
In-contains k (j ∷ seen) here = rw (key_eq_refl k) refl
In-contains k (j ∷ seen) (there n) = ground (arith, In-contains k seen n)

-- A living row of the root whose key was not seen and which has not changed since the scan began
abbrev pub IsLost : ℕ → List FileKey → Ts → FileRecord → Type 0
IsLost root_id seen scan_id r =
    (r.loc.root_id ≡ root_id)
    × (¬ In r.key seen)
    × (r.state ≢ missing)
    × (r.state ≢ gone)
    × (r.updated_at <ℤ scan_id)

-- The row `r'` is `r` gone missing at that time: its old state is kept, it waits for nothing, and the
-- rest is as it was.
abbrev pub WentMissing : Ts → FileRecord → FileRecord → Type 0
WentMissing now r r' =
    (r'.state ≡ missing)
    × (r'.prev_state ≡ some r.state)
    × (r'.ready_at ≡ none)
    × (r'.heavy_wait_since ≡ none)
    × (r'.updated_at ≡ now)
    × (r'.key ≡ r.key)
    × (r'.loc ≡ r.loc)
    × (r'.group_id ≡ r.group_id)
    × (r'.sparse_hash ≡ r.sparse_hash)

lost_parts :
    (m n : ℕ) (c d l : Bool)
    → ((m == n && not c) && (not d && l)) ≡ true
    → (m ≡ n) × (c ≡ false) × (d ≡ false) × (l ≡ true)
lost_parts m n c d l h = ground arith

living : (s : State) → is_dead s ≡ false → (s ≢ missing) × (s ≢ gone)
living s h = (λ e. cc (h, ap is_dead e), λ e. cc (h, ap is_dead e))

not_dead : (s : State) → s ≢ missing → s ≢ gone → is_dead s ≡ false
not_dead s m g = ground arith

lt_intro : (a b : Ts) → a <ℤ b → Int.lt a b ≡ true
lt_intro a b h = ground arith

lt_holds : (a b : Ts) → Int.lt a b ≡ true → a <ℤ b
lt_holds a b h = ground arith

is_lost-IsLost :
    (root_id : ℕ) (seen : List FileKey) (scan_id : Ts) (r : FileRecord)
    → (is_lost root_id seen scan_id r ≡ true) ↔ IsLost root_id seen scan_id r
unfolding is_lost
is_lost-IsLost root_id seen scan_id r = (
  λ h.
      let (m, c, d, l) = lost_parts r.loc.root_id root_id _ (is_dead r.state) _ h in
      (
        m,
        λ n. cc (c, In-contains r.key seen n),
        (living r.state d).0,
        (living r.state d).1,
        lt_holds r.updated_at scan_id l,
      ),
  λ (m, n, a, g, l). elim (Bool-cases (contains_file_key r.key seen)) [
    | inl c ↦ elim (n (contains-In r.key seen c)) [ ]
    | inr c ↦ rw (m, ==-refl root_id, c, not_dead r.state a g, lt_intro r.updated_at scan_id l) refl
  ],
)

set_missing-WentMissing :
    (now : Ts) (r : FileRecord)
    → r.state ≢ missing
    → r.state ≢ gone
    → WentMissing now r (set_missing now r)
unfolding set_missing
set_missing-WentMissing now r a g =
    rw (not_dead r.state a g) (refl, refl, refl, refl, refl, refl, refl, refl, refl)

-- The end of a session for its root closes the session. Every row of the store has a row at its
-- place afterwards: if it was a living row of that root whose key was not seen and which had not
-- changed since the scan began, that row gone missing; and otherwise the same row.
pub presence_finish-rows :
    (s : Store) (p : Phien) (scan_id : Ts) (k : ℕ) (r : FileRecord)
    → s.phien ≡ some p
    → BTreeMap.get k s.files ≡ some r
    → ((presence_finish s p.root_id scan_id).1.phien ≡ none)
      × ((r' : FileRecord) × (BTreeMap.get k (presence_finish s p.root_id scan_id).1.files
            ≡ some r')
          × ((IsLost p.root_id p.seen scan_id r × WentMissing scan_id r r')
              ⊎ ((¬ IsLost p.root_id p.seen scan_id r) × (r' ≡ r))))
unfolding presence_finish
presence_finish-rows s p scan_id k r h g =
    let u = get-update_where k (is_lost p.root_id p.seen scan_id) (set_missing scan_id) s.files in
    let (to, from) = is_lost-IsLost p.root_id p.seen scan_id r in
    rw (h, ==-refl p.root_id)
      (
        refl,
        elim (Bool-cases (is_lost p.root_id p.seen scan_id r)) [
          | inl t ↦
              let (m, n, a, b, l) = to t in
              (
                set_missing scan_id r,
                rw (u, g, t) refl,
                inl ((m, n, a, b, l), set_missing-WentMissing scan_id r a b),
              )
          | inr f ↦ (r, rw (u, g, f) refl, inr (λ l. cc (f, from l), refl))
        ],
      )
