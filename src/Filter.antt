-- ===== src/Filter.antt =====
-- The filter of files by name and size: crates/core/src/filter/prefilter.rs. The globs of the user
-- are matched by the library globset, whose answer is a field of the filter.
pub mod TempNames
pub mod Passed
use check_trung_video.Base.{
  ℕ, ltb, ◌==◌, String, str_eq, List, [], ◌∷◌, Bool, true, false, not, ◌&&◌, ◌||◌, Option, none,
  some, any, is_some, is_some_and, or_option, opt_map, if◌then◌else◌,
}
use check_trung_video.Model.Records.{FilePath, FileLoc}
use check_trung_video.Filter.TempNames
use check_trung_video.Filter.TempNames.{Text, codes, text_eq, starts_with, rest_after, lowercase}

pub data Reject : Type 0 where
  thu_muc_loai_tru : String → Reject
  file_tam : Reject
  khong_phai_video : Reject
  qua_nho : (size min : ℕ) → Reject
  khop_glob : Reject
  nguoi_dung_tat_dedup : Reject

abbrev pub as_str : Reject → String
as_str (thu_muc_loai_tru ten) = "thư mục loại trừ"
as_str file_tam = "file tạm của công cụ đồng bộ"
as_str khong_phai_video = "không phải phần mở rộng video"
as_str (qua_nho size min) = "nhỏ hơn min_size"
as_str khop_glob = "khớp exclude_globs"
as_str nguoi_dung_tat_dedup = "thư mục có marker tắt dedup"

pub record Prefilter : Type 0 where
  pub exclude_dirs : List String
  pub exclude_prefixes : List String
  pub video_extensions : List Text
  pub is_match : FilePath → Bool
  pub min_size : ℕ

unfoldable pub is_excluded : Prefilter → String → Bool
unfolding starts_with
is_excluded f ten =
    any (λ d. str_eq d ten) f.exclude_dirs
    || any (λ p. starts_with (codes ten) (codes p)) f.exclude_prefixes

-- The first component that is excluded.
unfoldable pub excluded_component : Prefilter → FilePath → Option String
unfolding is_excluded
excluded_component f [] = none
excluded_component f (c ∷ p) =
    let rest = excluded_component f p in if is_excluded f c then some c else rest

-- The last component, unless it is the root, `.` or `..`.
unfoldable pub file_name : FilePath → Option String
file_name [] = none
file_name (c ∷ []) = if str_eq c "/" || (str_eq c "." || str_eq c "..") then none else some c
file_name (c ∷ d ∷ p) = file_name (d ∷ p)

-- What follows the last dot, unless that is also the first character.
unfoldable pub extension_of : Text → Option Text
unfolding rest_after starts_with
extension_of [] = none
extension_of (c ∷ name) = rest_after (46 ∷ []) name

abbrev pub opt_codes : Option String → Text
opt_codes none = []
opt_codes (some s) = codes s

abbrev pub has_extension : Prefilter → Option Text → Bool
has_extension f none = false
has_extension f (some e) = any (λ x. text_eq x (lowercase e)) f.video_extensions

abbrev pub check_name : Prefilter → FilePath → ℕ → Option Reject
check_name f p size =
    let ten_file = opt_codes (file_name p) in
    if TempNames.la_ten_tam ten_file
    then some file_tam
    else if not (has_extension f (extension_of ten_file))
    then some khong_phai_video
    else if ltb size f.min_size
    then some (qua_nho size f.min_size)
    else if f.is_match p
    then some khop_glob
    else none

abbrev pub after_dirs : Option String → Prefilter → FilePath → ℕ → Option Reject
after_dirs (some ten) f p size = some (thu_muc_loai_tru ten)
after_dirs none f p size = check_name f p size

-- The rules in their order; `size` is the size of the file, or the greatest where it is not known.
unfoldable pub check_path : Prefilter → FilePath → ℕ → Option Reject
unfolding excluded_component file_name extension_of TempNames.la_ten_tam text_eq
check_path f p size = after_dirs (excluded_component f p) f p size

-- `p.parent().unwrap_or("")`
abbrev pub parent : FilePath → FilePath
parent [] = []
parent (c ∷ []) = []
parent (c ∷ d ∷ p) = c ∷ parent (d ∷ p)

-- All the rules, with the answer to whether a directory has the marker that opts out.
unfoldable pub check : Prefilter → (ℕ → FilePath → Bool) → FileLoc → ℕ → Option Reject
unfolding check_path
check f has_optout_marker loc size = or_option (check_path f loc.rel_path size) (
    if has_optout_marker loc.root_id (parent loc.rel_path) then some nguoi_dung_tat_dedup else none)
