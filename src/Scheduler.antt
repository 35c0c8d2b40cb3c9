-- ===== src/Scheduler.antt =====
-- The periodic work that is due: crates/core/src/scheduler.rs. Of the configuration of the times only
-- the three periods are read, and they are a record here.
pub mod Due
use check_trung_video.Base.{
  ℕ, ◌+◌, ltb, List, [], ◌∷◌, ◌++◌, Bool, true, false, not, ◌||◌, Option, none, some, filter,
  sort_by, is_none_or, if◌then◌else◌,
}
use check_trung_video.Base.Int
use check_trung_video.Base.Int.{ℤ, pos}
use check_trung_video.Model.Records.{Ts}

pub data Viec : Type 0 where
  lay_mau_tai checkpoint don_dep reconcile presence quet_remote : Viec

abbrev pub can_khung_nang : Viec → Bool
can_khung_nang presence = true
can_khung_nang _ = false

-- The derived order is that of the declaration.
abbrev pub viec_rank : Viec → ℕ
viec_rank lay_mau_tai = 0
viec_rank checkpoint = 1
viec_rank don_dep = 2
viec_rank reconcile = 3
viec_rank presence = 4
viec_rank quet_remote = 5

abbrev pub viec_less : Viec → Viec → Bool
viec_less a b = ltb (viec_rank a) (viec_rank b)

pub record LanCuoi : Type 0 where
  pub lay_mau : Option Ts
  pub checkpoint : Option Ts
  pub don_dep : Option Ts
  pub reconcile : Option Ts
  pub presence : Option Ts
  pub quet_remote : Option Ts

pub record ChuKy : Type 0 where
  pub reconcile_interval : ℤ
  pub presence_interval : ℤ
  pub remote_scan_interval : ℤ

abbrev pub chu_ky_checkpoint_ms : ℤ
chu_ky_checkpoint_ms = pos 3_600_000

abbrev pub chu_ky_don_dep_ms : ℤ
chu_ky_don_dep_ms = pos 86_400_000

unfoldable pub toi_han : Ts → Option Ts → ℤ → Bool
toi_han now lan chu_ky = is_none_or (λ l. Int.le chu_ky (Int.sub_i64 now l)) lan

abbrev pub when : Bool → Viec → List Viec
when b v = if b then v ∷ [] else []

-- The work that is due, in the order in which the source asks for it.
unfoldable pub all_due : ChuKy → LanCuoi → Ts → ℤ → Bool → List Viec
unfolding toi_han
all_due t lan now diskstats_interval_ms can_quet_lai =
    when (toi_han now lan.lay_mau diskstats_interval_ms) lay_mau_tai
    ++ (when (toi_han now lan.checkpoint chu_ky_checkpoint_ms) checkpoint
        ++ (when (toi_han now lan.don_dep chu_ky_don_dep_ms) don_dep
            ++ (when (can_quet_lai || toi_han now lan.reconcile t.reconcile_interval) reconcile
                ++ (when (toi_han now lan.presence t.presence_interval) presence
                    ++ when (toi_han now lan.quet_remote t.remote_scan_interval) quet_remote))))

abbrev pub allowed : Bool → Viec → Bool
allowed trong_khung_nang v = trong_khung_nang || not (can_khung_nang v)

unfoldable pub den_han : ChuKy → LanCuoi → Ts → Bool → ℤ → Bool → List Viec
unfolding all_due sort_by
den_han t lan now trong_khung_nang diskstats_interval_ms can_quet_lai =
    sort_by viec_less
      (filter (allowed trong_khung_nang) (all_due t lan now diskstats_interval_ms can_quet_lai))

unfoldable pub con_lai : Ts → Option Ts → ℤ → ℤ
con_lai now none chu_ky = pos 0
con_lai now (some l) chu_ky = Int.max_int (Int.sub_i64 (Int.add_i64 l chu_ky) now) (pos 0)

-- The least of the times left
unfoldable pub least_left : ChuKy → LanCuoi → Ts → ℤ → ℤ
unfolding con_lai
least_left t lan now diskstats_interval_ms =
    Int.min_int (con_lai now lan.lay_mau diskstats_interval_ms) (
      Int.min_int (con_lai now lan.checkpoint chu_ky_checkpoint_ms) (
        Int.min_int (con_lai now lan.don_dep chu_ky_don_dep_ms) (
          Int.min_int (con_lai now lan.reconcile t.reconcile_interval) (
            Int.min_int (con_lai now lan.presence t.presence_interval)
              (con_lai now lan.quet_remote t.remote_scan_interval)))))

-- At most a minute
unfoldable pub ngu_bao_lau : ChuKy → LanCuoi → Ts → ℤ → ℤ
unfolding least_left
ngu_bao_lau t lan now diskstats_interval_ms =
    Int.min_int (Int.max_int (least_left t lan now diskstats_interval_ms) (pos 0)) (pos 60_000)
