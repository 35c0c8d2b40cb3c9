-- ===== src/Recovery.antt =====
-- What to do at boot with an entry of the journal that is still open: crates/core/src/recovery.rs.
pub mod Safety
use check_trung_video.Base.{
  ℕ, ◌==◌, Bool, true, false, not, ◌&&◌, Option, none, some, ◌≡◌, refl, if◌then◌else◌,
}
use check_trung_video.Base.Int
use check_trung_video.Base.Int.{ℤ}
use check_trung_video.Model.JournalState.{JournalState, planned, compared, cloned, done, aborted}
use check_trung_video.Model.Records.{Ts, Identity, key_eq}
use check_trung_video.Model.Transition.{JournalRow}

pub data RetryReason : Type 0 where
  khong_thay_file inode_khong_khop : RetryReason

pub data AbortReason : Type 0 where
  chua_clone_gi_xong dich_da_bi_ghi_de : AbortReason

pub data Recovery : Type 0 where
  closed : Recovery
  abort : AbortReason → Recovery
  retry : RetryReason → Recovery
  finished : Recovery
  restore_mtime : (atime_ns mtime_ns : ℤ) → Recovery

abbrev pub requeue_dst : Recovery → Bool
requeue_dst (restore_mtime a m) = true
requeue_dst (abort dich_da_bi_ghi_de) = true
requeue_dst _ = false

abbrev pub journal_state : Recovery → Option JournalState
journal_state (abort r) = some aborted
journal_state finished = some done
journal_state (restore_mtime a m) = some done
journal_state _ = none

unfoldable pub ms_to_ns : Ts → ℤ
ms_to_ns ms = Int.saturating_mul ms 1_000_000

-- The signature of a file cloned just now
unfoldable pub vua_clone : JournalRow → Identity → ℤ → Bool
unfolding ms_to_ns
vua_clone j id boot_ns =
    id.size == j.dst_size
    && (Int.eq id.mtime_ns id.ctime_ns
        && (Int.le (ms_to_ns j.updated_at) id.mtime_ns && Int.le id.mtime_ns boot_ns))

unfoldable pub decide_cloned : JournalRow → Option Identity → ℤ → Recovery
unfolding vua_clone
decide_cloned j none boot_ns = retry khong_thay_file
decide_cloned j (some id) boot_ns =
    if not (key_eq id.key j.dst)
    then retry inode_khong_khop
    else if Int.eq id.mtime_ns j.dst_mtime_ns
    then finished
    else if vua_clone j id boot_ns
    then restore_mtime j.dst_atime_ns j.dst_mtime_ns
    else abort dich_da_bi_ghi_de

abbrev pub decide_in : JournalState → JournalRow → Option Identity → ℤ → Recovery
decide_in planned j observed boot_ns = abort chua_clone_gi_xong
decide_in compared j observed boot_ns = abort chua_clone_gi_xong
decide_in done j observed boot_ns = closed
decide_in aborted j observed boot_ns = closed
decide_in cloned j observed boot_ns = decide_cloned j observed boot_ns

unfoldable pub decide : JournalRow → Option Identity → ℤ → Recovery
unfolding decide_cloned
decide j observed boot_ns = decide_in j.state j observed boot_ns
