-- ===== src/Scan.antt =====
-- The pure part of a scan: crates/core/src/scan.rs.
pub mod Skip
use check_trung_video.Base.{
  ℕ, String, List, [], ◌∷◌, Bool, true, false, not, ◌&&◌, Option, none, some, or_option, opt_map,
  unwrap_or, if◌then◌else◌,
}
use Prim.Native.Nat.{Ordering}
use Prim.Native.String.{compare}
use check_trung_video.Base.Int
use check_trung_video.Base.Int.{ℤ, pos}
use check_trung_video.Model.State
use check_trung_video.Model.State.{State, settling, sized}
use check_trung_video.Model.ScanPhase
use check_trung_video.Model.Records.{Ts, FilePath, Identity, ScanProgress, path_starts_with}

abbrev pub then_compare : Ordering → Ordering → Ordering
then_compare Ordering.lt o = Ordering.lt
then_compare Ordering.eq o = o
then_compare Ordering.gt o = Ordering.gt

-- Component by component.
unfoldable pub so_duong_dan : FilePath → FilePath → Ordering
so_duong_dan [] [] = Ordering.eq
so_duong_dan [] (b ∷ q) = Ordering.lt
so_duong_dan (a ∷ p) [] = Ordering.gt
so_duong_dan (a ∷ p) (b ∷ q) = then_compare (compare a b) (so_duong_dan p q)

abbrev pub is_less : Ordering → Bool
is_less Ordering.lt = true
is_less Ordering.eq = false
is_less Ordering.gt = false

unfoldable pub nen_bo_qua : FilePath → FilePath → Bool
unfolding so_duong_dan path_starts_with
nen_bo_qua dir cursor = is_less (so_duong_dan dir cursor) && not (path_starts_with cursor dir)

pub record KhoiDau : Type 0 where
  pub state : State
  pub ready_at : Option Ts
  pub priority : ℕ

abbrev pub priority_scan : ℕ
priority_scan = 2

abbrev pub priority_reconcile : ℕ
priority_reconcile = 1

abbrev pub lui_nguong_ms : ℤ
lui_nguong_ms = pos 3_600_000

unfoldable pub khoi_dau : Identity → Ts → ℤ → KhoiDau
unfolding Int.div_const Int.sub_i64 Int.add_i64
khoi_dau id now settle_delay_ms =
    let mtime_ms = Int.div_const id.mtime_ns 1_000_000 in
    if Int.le mtime_ms (Int.sub_i64 now settle_delay_ms)
    then record { state = sized; ready_at = none; priority = priority_scan }
    else record {
      state = settling;
      ready_at = some (Int.add_i64 mtime_ms settle_delay_ms);
      priority = priority_scan;
    }

unfoldable pub nguong_reconcile : Option Ts → Ts
unfolding Int.saturating_sub
nguong_reconcile none = pos 0
nguong_reconcile (some t) = Int.max_int (Int.saturating_sub t lui_nguong_ms) (pos 0)

unfoldable pub ctime_sau_nguong : Identity → Ts → Bool
unfolding Int.div_const
ctime_sau_nguong id nguong = Int.le nguong (Int.div_const id.ctime_ns 1_000_000)

pub record ConTro : Type 0 where
  pub cho_commit : Option FilePath
  pub an_toan : Option FilePath

abbrev pub con_tro_moi : ConTro
con_tro_moi = record { cho_commit = none; an_toan = none }

-- The root itself is no cursor.
abbrev pub xong_thu_muc : ConTro → FilePath → ConTro
xong_thu_muc c [] = c
xong_thu_muc c (d ∷ dir) = record c { cho_commit = some (d ∷ dir) }

abbrev pub sau_khi_commit : ConTro → ConTro
sau_khi_commit c = record { cho_commit = none; an_toan = or_option c.cho_commit c.an_toan }

abbrev pub tien_do_moi : Option ScanProgress → ℕ → ScanProgress
tien_do_moi cu root_id =
    unwrap_or
      (record {
        root_id = root_id;
        phase = ScanPhase.a;
        last_completed_dir = none;
        started_at = none;
        finished_at = none;
        last_reconcile_done = none;
        last_presence_scan = none;
      })
      cu
