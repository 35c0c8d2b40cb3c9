-- ===== src/Model/SkipReason.antt =====
-- Why a row is skipped: `SkipReason` of crates/core/src/model.rs.
use check_trung_video.Base.{ℕ, String, Bool, ◌==◌}

pub data SkipReason : Type 0 where
  not_video too_small bad_magic hardlink special_mode excluded unsupported user_undo unstable
        report_no_verify too_large suspect_partial :
      SkipReason

-- the value of the variant, by which `==` compares
abbrev pub discriminant : SkipReason → ℕ
discriminant not_video = 0
discriminant too_small = 1
discriminant bad_magic = 2
discriminant hardlink = 3
discriminant special_mode = 4
discriminant excluded = 5
discriminant unsupported = 6
discriminant user_undo = 7
discriminant unstable = 8
discriminant report_no_verify = 9
discriminant too_large = 10
discriminant suspect_partial = 11

abbrev pub eq : SkipReason → SkipReason → Bool
eq a b = discriminant a == discriminant b

unfoldable pub as_str : SkipReason → String
as_str not_video = "not_video"
as_str too_small = "too_small"
as_str bad_magic = "bad_magic"
as_str hardlink = "hardlink"
as_str special_mode = "special_mode"
as_str excluded = "excluded"
as_str unsupported = "unsupported"
as_str user_undo = "user_undo"
as_str unstable = "unstable"
as_str report_no_verify = "report_no_verify"
as_str too_large = "too_large"
as_str suspect_partial = "suspect_partial"
