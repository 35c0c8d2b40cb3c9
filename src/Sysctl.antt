-- ===== src/Sysctl.antt =====
-- The limits of inotify: crates/core/src/sysctl.rs. Numbers are below 2^64.
pub mod Raise
use check_trung_video.Base.{
  ℕ, zero, suc, ◌*◌, ◌/◌, ◌^◌, ◌-◌, max, ltb, leb, ◌==◌, Bool, true, false, Option, none, some,
  opt_map, if◌then◌else◌,
}

pub record GioiHanWatch : Type 0 where
  pub max_user_watches : ℕ
  pub max_queued_events : ℕ
  pub max_user_instances : ℕ

abbrev pub queue_du_dung : ℕ
queue_du_dung = 65_536

abbrev pub watch_toi_thieu : ℕ
watch_toi_thieu = 8_192

abbrev pub u64_max : ℕ
u64_max = 2 ^ 64 - 1

-- `a.saturating_mul(k)`
unfoldable pub saturating_mul : ℕ → ℕ → ℕ
saturating_mul a k = if leb (a * k) u64_max then a * k else u64_max

unfoldable pub thieu_watch : ℕ → ℕ → Bool
unfolding saturating_mul
thieu_watch so_thu_muc gioi_han = ltb (saturating_mul gioi_han 10) (saturating_mul so_thu_muc 12)

-- The loop that doubles the proposal. The first argument bounds the number of rounds; without
-- enough of them there is no answer.
unfoldable pub gap_doi : ℕ → ℕ → ℕ → Option ℕ
unfolding saturating_mul
gap_doi zero de_xuat can = none
gap_doi (suc fuel) de_xuat can =
    let tiep = saturating_mul de_xuat 2 in
    let rest = gap_doi fuel tiep can in
    if ltb de_xuat can then (if tiep == de_xuat then some de_xuat else rest) else some de_xuat

-- From 2^13, 51 doublings reach 2^64, and one round more sees it.
unfoldable pub can_nang : ℕ → ℕ → Option ℕ
unfolding thieu_watch gap_doi
can_nang so_thu_muc gioi_han =
    if thieu_watch so_thu_muc gioi_han
    then opt_map (λ v. max v gioi_han)
        (gap_doi 52 watch_toi_thieu (saturating_mul so_thu_muc 12 / 10))
    else none

pub data KetLuanWatch : Type 0 where
  chua_biet : KetLuanWatch
  du : KetLuanWatch
  thieu : ℕ → KetLuanWatch

abbrev pub ket_luan : Option ℕ → KetLuanWatch
ket_luan none = du
ket_luan (some v) = thieu v

unfoldable pub kiem_watch : Option ℕ → ℕ → KetLuanWatch
unfolding can_nang
kiem_watch none gioi_han = chua_biet
kiem_watch (some n) gioi_han = ket_luan (can_nang n gioi_han)

unfoldable pub can_nang_khi_cham_tran : ℕ → ℕ
unfolding saturating_mul
can_nang_khi_cham_tran gioi_han = saturating_mul (max gioi_han watch_toi_thieu) 2

abbrev pub de_xuat_queue : ℕ → Option ℕ
de_xuat_queue hien_tai = if ltb hien_tai queue_du_dung then some queue_du_dung else none
