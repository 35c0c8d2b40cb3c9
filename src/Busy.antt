-- ===== src/Busy.antt =====
-- The detector of a busy disk: crates/core/src/busy.rs. A load is a number of floating point there;
-- here its type is a parameter, with the tests of the percentage that it is, cut to 0..100.
pub mod Streak
use check_trung_video.Base.{ℕ, Bool, true, false, Option, none, some, unwrap_or, if◌then◌else◌}
use check_trung_video.Base.Int
use check_trung_video.Base.Int.{sub_i64}
use check_trung_video.Model.Records.{Ts}

pub data TrangThai : Type 0 where
  chay : TrangThai
  tam_dung : TrangThai

pub record Nguong : Type 0 where
  pub ban_pct : ℕ
  pub cua_so_ban_ms : Ts
  pub ranh_pct : ℕ
  pub cua_so_ranh_ms : Ts

pub record BoPhatHien : Type 0 where
  pub nguong : Nguong
  pub trang_thai : TrangThai
  pub tu_luc : Option Ts

abbrev pub moi : Nguong → BoPhatHien
moi n = record { nguong = n; trang_thai = chay; tu_luc = none }

abbrev pub la_tam_dung : TrangThai → Bool
la_tam_dung chay = false
la_tam_dung tam_dung = true

abbrev pub dang_tam_dung : BoPhatHien → Bool
dang_tam_dung b = la_tam_dung b.trang_thai

-- `pct >= n` and `pct <= n`
pub record PctTest (F : Type 0) : Type 0 where
  pub at_least : F → ℕ → Bool
  pub at_most : F → ℕ → Bool

-- A sample that goes on with the run of samples which began at `tu`: the window is full, or not.
abbrev pub giu_chuoi : BoPhatHien → (cua_so : Ts) → TrangThai → (now tu : Ts) → BoPhatHien
giu_chuoi b cua_so ke now tu =
    if Int.le cua_so (sub_i64 now tu)
    then record b { trang_thai = ke; tu_luc = none }
    else record b { tu_luc = some tu }

unfoldable pub nap_chay : {F : Type 0} → PctTest F → BoPhatHien → F → Ts → BoPhatHien
unfolding sub_i64
nap_chay t b util_other now =
    if t.at_least util_other b.nguong.ban_pct
    then giu_chuoi b b.nguong.cua_so_ban_ms tam_dung now (unwrap_or now b.tu_luc)
    else record b { tu_luc = none }

unfoldable pub nap_tam_dung : {F : Type 0} → PctTest F → BoPhatHien → F → Ts → BoPhatHien
unfolding sub_i64
nap_tam_dung t b util_other now =
    if t.at_most util_other b.nguong.ranh_pct
    then giu_chuoi b b.nguong.cua_so_ranh_ms chay now (unwrap_or now b.tu_luc)
    else record b { tu_luc = none }

abbrev pub nap_at : {F : Type 0} → TrangThai → PctTest F → BoPhatHien → F → Ts → BoPhatHien
nap_at chay = nap_chay
nap_at tam_dung = nap_tam_dung

-- The detector after a sample; the answer of the code is its state.
unfoldable pub nap : {F : Type 0} → PctTest F → BoPhatHien → F → Ts → BoPhatHien
unfolding nap_chay nap_tam_dung
nap t b util_other now = nap_at b.trang_thai t b util_other now
