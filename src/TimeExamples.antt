-- ===== src/TimeExamples.antt =====
-- Concrete runs of the detector of a busy disk and of the windows.
use check_trung_video.Base.{
  ℕ, ◌+◌, ◌*◌, ◌/◌, ◌%◌, ◌-◌, ◌<◌, ltb, leb, List, [], ◌∷◌, In, here, there, false, some, none, inr,
  ok, ◌≡◌, refl, ap, sym, false≢true, arith, if◌then◌else◌,
}
use check_trung_video.Base.Int
use check_trung_video.Base.Int.{pos, pos_part, ◌≤ℤ◌, sub_i64}
use check_trung_video.Model.Records.{Ts}
use check_trung_video.Busy.{PctTest, Nguong, nap, chay, la_tam_dung}
use check_trung_video.Busy.Streak.{after_samples, after_samples-changed, IsStreak}
use check_trung_video.Window.{TimeWindow, contains, Jiff, bat_dau_ke_tiep, tra}
use check_trung_video.Window.Parse.{parse_window, serialize}
use check_trung_video.Window.Parse.RoundTrip.{parse_window-serialize}
use check_trung_video.Window.Next.{contains-clock, bat_dau_ke_tiep-soonest, IsStart}

-- Loads in whole percents
abbrev percents : PctTest ℕ
percents = record { at_least = λ u n. leb n u; at_most = leb }

abbrev nguong_one : Nguong
nguong_one = record {
  ban_pct = 50;
  cua_so_ban_ms = pos 3_000;
  ranh_pct = 20;
  cua_so_ranh_ms = pos 30_000;
}

abbrev samples_one : List (ℕ × Ts)
samples_one = (90, pos 2_000) ∷ (90, pos 1_000) ∷ []

after_samples-changed_example :
    (tu : Ts) × IsStreak percents nguong_one chay tu ((50, pos 4_000) ∷ samples_one)
    × (pos 3_000 ≤ℤ sub_i64 (pos 4_000) tu)
unfolding after_samples nap Int.◌-ℤ◌
after_samples-changed_example =
    after_samples-changed percents nguong_one samples_one 50 (pos 4_000)
      (λ e. false≢true (sym (ap la_tam_dung e)))

contains-clock_example :
    contains (record { start_min = 1380; end_min = 300 }) 120
    ≡ ltb ((120 + 1440 - 1380) % 1440) ((300 + 1440 - 1380) % 1440)
contains-clock_example =
    contains-clock (record { start_min = 1380; end_min = 300 }) 120 (omega arith) (omega arith)
      (omega arith)

-- A calendar without time zones, from 1970 on
abbrev utc : Jiff ℕ Ts ℕ
utc = record {
  get = λ ten. some 0;
  from_millisecond = some;
  hour = λ tz t. pos_part t / 3_600_000 % 24;
  minute = λ tz t. pos_part t / 60_000 % 60;
  date = λ tz t. pos_part t / 86_400_000;
  checked_add = λ d n. some (d + n);
  to_zoned = λ tz d gio phut.
      if ltb gio 24 then some (pos (d * 86_400_000 + gio * 3_600_000 + phut * 60_000)) else none;
}

abbrev khung_dem : TimeWindow
khung_dem = record { start_min = 60; end_min = 360 }

one_window : (k : TimeWindow) → In k (khung_dem ∷ []) → k.start_min < 1440
one_window k here = omega arith
one_window k (there n) = elim n [ ]

bat_dau_ke_tiep-soonest_example :
    (ms : Ts) × (bat_dau_ke_tiep utc (khung_dem ∷ []) 0 (pos 43_200_000) ≡ some ms)
    × IsStart utc 0 (pos 43_200_000) 0 1 (khung_dem ∷ []) ms
    × (ms ≤ℤ pos 90_000_000)
bat_dau_ke_tiep-soonest_example =
    bat_dau_ke_tiep-soonest utc 0 (pos 43_200_000) (khung_dem ∷ []) (pos 43_200_000) 0 1 khung_dem
      (pos 90_000_000) refl refl refl one_window here (inr refl) (omega arith)

parse_window-serialize_example : parse_window (serialize khung_dem) ≡ ok khung_dem
parse_window-serialize_example = parse_window-serialize khung_dem (omega arith) (omega arith) refl

-- At noon the window from 1:00 to 6:00 opens the next day.
tra_test :
    tra utc (khung_dem ∷ []) "UTC" (pos 43_200_000)
    ≡ record { trong_khung = false; khung_ke_tiep = some (pos 90_000_000) }
unfolding tra
tra_test = refl
