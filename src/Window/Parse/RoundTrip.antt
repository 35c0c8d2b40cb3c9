-- ===== src/Window/Parse/RoundTrip.antt =====
-- The text of a window is read back as that window: crates/core/src/config.rs and config/parse.rs.
use check_trung_video.Base.{
  ℕ, ◌+◌, ◌*◌, ◌/◌, ◌%◌, ◌≤◌, ◌<◌, ◌==◌, false, [], ◌∷◌, ◌++◌, some, ok, ◌≡◌, refl, ap, ◌∙◌, arith,
}
use check_trung_video.Filter.TempNames.{Text}
use check_trung_video.Window.{TimeWindow}
use check_trung_video.Window.Parse.{
  trim, split_once, parse_u16, minutes, parse_window, pad_two, hour_text, serialize,
}

-- The two digits of a number below 100
abbrev two_digits : ℕ → ℕ → Text
two_digits a b = (48 + a) ∷ (48 + b) ∷ []

pad_two_lem : (n : ℕ) → n < 100 → pad_two n ≡ two_digits (n / 10) (n % 10)
unfolding pad_two
pad_two_lem n h = ground arith

trim-two_digits : (a b : ℕ) → a < 10 → b < 10 → trim (two_digits a b) ≡ two_digits a b
unfolding trim
trim-two_digits a b ha hb = ground arith

parse_u16-two_digits : (a b : ℕ) → a < 10 → b < 10 → parse_u16 (two_digits a b) ≡ some (a * 10 + b)
unfolding parse_u16
parse_u16-two_digits a b ha hb = ground arith

-- `HH:MM`
abbrev clock : (a b c d : ℕ) → Text
clock a b c d = two_digits a b ++ (58 ∷ two_digits c d)

trim-clock :
    (a b c d : ℕ) → a < 10 → b < 10 → c < 10 → d < 10 → trim (clock a b c d) ≡ clock a b c d
unfolding trim
trim-clock a b c d ha hb hc hd = ground arith

split_once-clock :
    (a b c d : ℕ)
    → a < 10
    → b < 10
    → split_once (clock a b c d) 58 ≡ some (two_digits a b, two_digits c d)
unfolding split_once
split_once-clock a b c d ha hb = ground arith

split_once-dash :
    (a b c d : ℕ) (s : Text)
    → a < 10
    → b < 10
    → c < 10
    → d < 10
    → split_once (clock a b c d ++ (45 ∷ s)) 45 ≡ some (clock a b c d, s)
unfolding split_once
split_once-dash a b c d s ha hb hc hd = ground arith

minutes-clock :
    (a b c d : ℕ)
    → a < 10
    → b < 10
    → c < 10
    → d < 10
    → a * 10 + b ≤ 23
    → c * 10 + d ≤ 59
    → minutes (clock a b c d) ≡ some ((a * 10 + b) * 60 + (c * 10 + d))
unfolding minutes
minutes-clock a b c d ha hb hc hd hh hm =
    rw
      (
        trim-clock a b c d ha hb hc hd,
        split_once-clock a b c d ha hb,
        trim-two_digits a b ha hb,
        trim-two_digits c d hc hd,
        parse_u16-two_digits a b ha hb,
        parse_u16-two_digits c d hc hd,
      )
      (ground arith)

-- The text of a time of day
abbrev clock_of : ℕ → Text
clock_of m = clock (m / 60 / 10) (m / 60 % 10) (m % 60 / 10) (m % 60 % 10)

hour_text_lem : (m : ℕ) → m < 1440 → hour_text m ≡ clock_of m
hour_text_lem m h = rw (pad_two_lem (m / 60) (omega arith), pad_two_lem (m % 60) (omega arith)) refl

minutes-clock_of : (m : ℕ) → m < 1440 → minutes (clock_of m) ≡ some m
minutes-clock_of m h =
    minutes-clock (m / 60 / 10) (m / 60 % 10) (m % 60 / 10) (m % 60 % 10) (omega arith)
      (omega arith) (omega arith) (omega arith) (omega arith) (omega arith)
    ∙ ap some (omega arith)

-- A window whose two times are different times of a day is read back from its text.
pub parse_window-serialize :
    (k : TimeWindow)
    → k.start_min < 1440
    → k.end_min < 1440
    → (k.start_min == k.end_min) ≡ false
    → parse_window (serialize k) ≡ ok k
unfolding parse_window serialize
parse_window-serialize k hs he n =
    rw
      (
        hour_text_lem k.start_min hs,
        hour_text_lem k.end_min he,
        split_once-dash (k.start_min / 60 / 10) (k.start_min / 60 % 10) (k.start_min % 60 / 10)
            (k.start_min % 60 % 10) (clock_of k.end_min) (omega arith) (omega arith) (omega arith)
            (omega arith),
        minutes-clock_of k.start_min hs,
        minutes-clock_of k.end_min he,
        n,
      )
      refl
