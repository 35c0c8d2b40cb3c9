-- ===== src/Recovery/Safety.antt =====
-- What the decision at boot may do to a file: crates/core/src/recovery.rs.
use check_trung_video.Base.{
  ◌==◌, Bool, true, false, Option, none, some, ◌≡◌, ◌≢◌, refl, is_none, not, ◌&&◌, ◌⊎◌, inl, inr,
  arith,
}
use check_trung_video.Base.Int
use check_trung_video.Base.Int.{ℤ, pos}
use check_trung_video.Model.JournalState.{JournalState, cloned, done, aborted}
use check_trung_video.Model.Records.{FileKey, Identity, key_eq}
use check_trung_video.Model.Transition.{JournalRow}
use check_trung_video.Recovery.{
  restore_mtime, decide, decide_cloned, journal_state, ms_to_ns, vua_clone,
}

-- The file is the destination of a cloned entry, and looks as a clone leaves it.
pub JustCloned : JournalRow → Option Identity → ℤ → Type 0
JustCloned j none boot_ns = ⊥
JustCloned j (some id) boot_ns =
    (key_eq id.key j.dst ≡ true)
    × (Int.eq id.mtime_ns j.dst_mtime_ns ≡ false)
    × ((id.size == j.dst_size) ≡ true)
    × (Int.eq id.mtime_ns id.ctime_ns ≡ true)
    × (Int.le (ms_to_ns j.updated_at) id.mtime_ns ≡ true)
    × (Int.le id.mtime_ns boot_ns ≡ true)

restore_cloned-safe :
    (j : JournalRow) (observed : Option Identity) (boot_ns : ℤ) {a m : ℤ}
    → decide_cloned j observed boot_ns ≡ restore_mtime a m
    → (a ≡ j.dst_atime_ns) × (m ≡ j.dst_mtime_ns) × JustCloned j observed boot_ns
unfolding decide_cloned vua_clone JustCloned
restore_cloned-safe j none boot_ns h = ground arith
restore_cloned-safe j (some id) boot_ns h = ground arith

JournalState-cloned : (st : JournalState) → (st ≡ cloned) ⊎ (st ≢ cloned)
JournalState-cloned cloned = inl refl
JournalState-cloned _ = inr (λ e. cc e)

-- Times are restored only for an entry in `cloned`, to those that the entry recorded, and only if the
-- file was found under the recorded key with the recorded size, another `mtime`, and `mtime` equal to
-- `ctime` between the last update of the entry and the boot.
pub decide-restore :
    (j : JournalRow) (observed : Option Identity) (boot_ns : ℤ) {a m : ℤ}
    → decide j observed boot_ns ≡ restore_mtime a m
    → (j.state ≡ cloned)
      × (a ≡ j.dst_atime_ns)
      × (m ≡ j.dst_mtime_ns)
      × JustCloned j observed boot_ns
unfolding decide
decide-restore j observed boot_ns h = elim (JournalState-cloned j.state) [
  | inl e ↦ let r = restore_cloned-safe j observed boot_ns (rw e at h) in (e, r.0, r.1, r.2)
  | inr n ↦ ground arith
]

abbrev pub is_cloned : JournalState → Bool
is_cloned cloned = true
is_cloned _ = false

abbrev pub is_open : JournalState → Bool
is_open done = false
is_open aborted = false
is_open _ = true

abbrev pub is_same_inode : FileKey → Option Identity → Bool
is_same_inode key none = false
is_same_inode key (some id) = key_eq id.key key

keeps-decide_cloned :
    (j : JournalRow) (observed : Option Identity) (boot_ns : ℤ)
    → is_none (journal_state (decide_cloned j observed boot_ns))
      ≡ not (is_same_inode j.dst observed)
unfolding decide_cloned vua_clone
keeps-decide_cloned j none boot_ns = refl
keeps-decide_cloned j (some id) boot_ns = ground arith

-- An open entry is closed by the decision unless it is in `cloned` and its destination was not
-- found, or is another inode: then it stays as it is.
pub decide-keeps :
    (j : JournalRow) (observed : Option Identity) (boot_ns : ℤ)
    → is_open j.state ≡ true
    → is_none (journal_state (decide j observed boot_ns))
      ≡ (is_cloned j.state && not (is_same_inode j.dst observed))
unfolding decide
decide-keeps j observed boot_ns h = ground (arith, keeps-decide_cloned j observed boot_ns)
