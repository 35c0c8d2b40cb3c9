-- ===== src/Window/Parse.antt =====
-- The text of a window: `parse_window` of crates/core/src/config/parse.rs, and `serialize` of
-- crates/core/src/config.rs. A text is the list of the codes of its characters.
pub mod RoundTrip
use check_trung_video.Base.{
  ℕ, zero, suc, ◌+◌, ◌-◌, ◌*◌, ◌/◌, ◌%◌, ltb, leb, ◌==◌, List, [], ◌∷◌, ◌++◌, Bool, ◌||◌, Option,
  none, some, Result, ok, err, opt_map, if◌then◌else◌,
}
use check_trung_video.Filter.TempNames.{Text, is_between, is_ascii_digit}
use check_trung_video.Window.{TimeWindow}

pub data ParseError : Type 0 where
  empty : ParseError
  no_digits : Text → ParseError
  bad_number : Text → ParseError
  bad_unit : Text → ParseError
  overflow : Text → ParseError
  bad_window : Text → ParseError

-- `char::is_whitespace`
abbrev pub is_whitespace : ℕ → Bool
is_whitespace c =
    is_between 9 13 c
    || (c == 32
        || (c == 133
            || (c == 160
                || (c == 5760
                    || (is_between 8192 8202 c
                        || (c == 8232
                            || (c == 8233 || (c == 8239 || (c == 8287 || c == 12288)))))))))

unfoldable pub trim_start : Text → Text
trim_start [] = []
trim_start (c ∷ s) = let rest = trim_start s in if is_whitespace c then rest else c ∷ s

-- A character before what is left of the text after it
abbrev pub before_end : ℕ → Text → Text
before_end c [] = if is_whitespace c then [] else c ∷ []
before_end c (d ∷ s) = c ∷ d ∷ s

unfoldable pub trim_end : Text → Text
trim_end [] = []
trim_end (c ∷ s) = before_end c (trim_end s)

unfoldable pub trim : Text → Text
unfolding trim_start trim_end
trim s = trim_end (trim_start s)

unfoldable pub split_once : Text → ℕ → Option (Text × Text)
split_once [] sep = none
split_once (c ∷ s) sep =
    let rest = split_once s sep in
    if c == sep then some ([], s) else opt_map (λ p. (c ∷ p.0, p.1)) rest

-- The digits of a `u16`, after the value of those before
unfoldable pub parse_digits : Text → ℕ → Option ℕ
parse_digits [] acc = some acc
parse_digits (c ∷ s) acc =
    let rest = parse_digits s (acc * 10 + (c - 48)) in
    if is_ascii_digit c then (if leb (acc * 10 + (c - 48)) 65535 then rest else none) else none

-- `s.parse::<u16>()`: at least one digit, after a plus sign or none.
unfoldable pub parse_u16 : Text → Option ℕ
unfolding parse_digits
parse_u16 [] = none
parse_u16 (c ∷ []) = parse_digits (c ∷ []) 0
parse_u16 (c ∷ d ∷ s) = if c == 43 then parse_digits (d ∷ s) 0 else parse_digits (c ∷ d ∷ s) 0

abbrev pub hours_minutes : Option ℕ → Option ℕ → Option ℕ
hours_minutes (some h) (some m) = if ltb 23 h || ltb 59 m then none else some (h * 60 + m)
hours_minutes _ _ = none

abbrev pub both_parts : Option (Text × Text) → Option ℕ
both_parts none = none
both_parts (some (h, m)) = hours_minutes (parse_u16 (trim h)) (parse_u16 (trim m))

-- `none` where the closure answers `BadWindow`
unfoldable pub minutes : Text → Option ℕ
unfolding trim split_once parse_u16
minutes t = both_parts (split_once (trim t) 58)

abbrev pub window_of : Text → Option ℕ → Option ℕ → Result ParseError TimeWindow
window_of s (some start_min) (some end_min) =
    if start_min == end_min
    then err (bad_window s)
    else ok (record { start_min = start_min; end_min = end_min })
window_of s _ _ = err (bad_window s)

abbrev pub window_parts : Text → Option (Text × Text) → Result ParseError TimeWindow
window_parts s none = err (bad_window s)
window_parts s (some (a, b)) = window_of s (minutes a) (minutes b)

unfoldable pub parse_window : Text → Result ParseError TimeWindow
unfolding minutes split_once
parse_window s = window_parts s (split_once s 45)

-- The digits of a number below 10^(fuel + 1)
unfoldable pub digits : ℕ → ℕ → Text
digits zero n = (48 + n % 10) ∷ []
digits (suc fuel) n =
    let rest = digits fuel (n / 10) in
    if ltb n 10 then (48 + n) ∷ [] else rest ++ ((48 + n % 10) ∷ [])

-- `{:02}` of a `u16`
unfoldable pub pad_two : ℕ → Text
unfolding digits
pad_two n = if ltb n 10 then 48 ∷ (48 + n) ∷ [] else digits 4 n

abbrev pub hour_text : ℕ → Text
hour_text m = pad_two (m / 60) ++ (58 ∷ pad_two (m % 60))

unfoldable pub serialize : TimeWindow → Text
unfolding pad_two
serialize k = hour_text k.start_min ++ (45 ∷ hour_text k.end_min)
