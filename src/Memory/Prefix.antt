-- ===== src/Memory/Prefix.antt =====
-- The rename of a directory: `rename_prefix` of crates/core/src/repo/memory/watch.rs.
--
-- The new path is put together as text, in which `\` has become `/`, and is read back into
-- components: an empty component or `.` is dropped unless it comes first, where an empty one is the
-- root `/`.
use check_trung_video.Base.{
  ℕ, ◌==◌, String, str_eq, List, [], ◌∷◌, ◌++◌, Bool, not, ◌&&◌, Option, none, some, is_some,
  unwrap_or, filter, if◌then◌else◌, refl,
}
use Prim.Native.Char.{Char, code}
use check_trung_video.Base.BTreeMap
use check_trung_video.Model.Records.{Ts, FilePath, FileLoc, FileRecord, path_starts_with}
use check_trung_video.Memory.{Store}
use check_trung_video.Memory.Watch.{under_dir}
use check_trung_video.Memory.Inv.{Inv}
use check_trung_video.Memory.Inv.Rules.{same-IsUpdate, update_where-Inv}

-- `p.strip_prefix(dir)`
unfoldable pub strip_prefix : FilePath → FilePath → Option FilePath
strip_prefix p [] = some p
strip_prefix [] (b ∷ dir) = none
strip_prefix (a ∷ p) (b ∷ dir) = let rest = strip_prefix p dir in if str_eq a b then rest else none

unfoldable add_char : Char → List String → List String
add_char c [] = (String.◌∷◌ c String.[]) ∷ []
add_char c (w ∷ ws) = String.◌∷◌ c w ∷ ws

-- The pieces of a name between its `\`.
unfoldable pub pieces : String → List String
unfolding add_char
pieces String.[] = "" ∷ []
pieces (String.◌∷◌ c s) = let rest = pieces s in if code c == 92 then "" ∷ rest else add_char c rest

unfoldable pub path_pieces : FilePath → List String
unfolding pieces
path_pieces [] = []
path_pieces (a ∷ p) = pieces a ++ path_pieces p

abbrev pub is_name : String → Bool
is_name s = not (str_eq s "") && not (str_eq s ".")

-- The components of the text whose pieces between its `/` are given.
unfoldable pub components : List String → FilePath
components [] = []
components (s ∷ []) = if str_eq s "" then [] else s ∷ []
components (s ∷ t ∷ ss) =
    let rest = filter is_name (t ∷ ss) in if str_eq s "" then "/" ∷ rest else s ∷ rest

unfoldable pub noi_duong_dan : FilePath → FilePath → FilePath
unfolding path_pieces components
noi_duong_dan dir rest = components (path_pieces dir ++ path_pieces rest)

unfoldable pub is_moved : FileLoc → FileRecord → Bool
unfolding under_dir strip_prefix
is_moved old_dir r = under_dir old_dir r && is_some (strip_prefix r.loc.rel_path old_dir.rel_path)

unfoldable pub with_new_dir : FileLoc → FileLoc → Ts → FileRecord → FileRecord
unfolding strip_prefix noi_duong_dan
with_new_dir old_dir new_dir now r = record r {
  loc = record {
    root_id = new_dir.root_id;
    rel_path =
        noi_duong_dan new_dir.rel_path
          (unwrap_or [] (strip_prefix r.loc.rel_path old_dir.rel_path));
  };
  updated_at = now;
}

unfoldable pub rename_prefix : Store → FileLoc → FileLoc → Ts → ℕ × Store
unfolding is_moved with_new_dir BTreeMap.update_where BTreeMap.count_where path_starts_with
rename_prefix s old_dir new_dir now = (
  BTreeMap.count_where (is_moved old_dir) s.files,
  record s {
    files = BTreeMap.update_where (is_moved old_dir) (with_new_dir old_dir new_dir now) s.files;
  },
)

pub rename_prefix-Inv :
    (s : Store) (old_dir new_dir : FileLoc) (now : Ts)
    → Inv s
    → Inv (rename_prefix s old_dir new_dir now).1
unfolding rename_prefix with_new_dir
rename_prefix-Inv s old_dir new_dir now h =
    update_where-Inv s h (is_moved old_dir) (with_new_dir old_dir new_dir now)
      λ k r at t. same-IsUpdate s h k r (with_new_dir old_dir new_dir now r) at refl refl refl
