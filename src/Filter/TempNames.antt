-- ===== src/Filter/TempNames.antt =====
-- The names of temporary files: crates/core/src/filter/temp_names.rs. A name is the list of the
-- codes of its characters; what is tested is ASCII, so that bytes and characters agree.
use check_trung_video.Base.{
  ℕ, ◌+◌, leb, ◌==◌, String, List, [], ◌∷◌, Bool, true, false, not, ◌&&◌, ◌||◌, Option, none, some,
  any, is_some, is_some_and, or_option, opt_map, length, map, if◌then◌else◌,
}
use Prim.Native.Char.{code}

abbrev pub Text : Type 0
Text = List ℕ

abbrev pub codes : String → Text
codes String.[] = []
codes (String.◌∷◌ c s) = code c ∷ codes s

unfoldable pub text_eq : Text → Text → Bool
text_eq [] [] = true
text_eq (a ∷ s) (b ∷ t) = a == b && text_eq s t
text_eq _ _ = false

-- `s.strip_prefix(t)`
unfoldable pub strip_text : Text → Text → Option Text
strip_text s [] = some s
strip_text [] (b ∷ t) = none
strip_text (a ∷ s) (b ∷ t) = let rest = strip_text s t in if a == b then rest else none

unfoldable pub starts_with : Text → Text → Bool
unfolding strip_text
starts_with s t = is_some (strip_text s t)

unfoldable pub ends_with : Text → Text → Bool
unfolding text_eq
ends_with [] t = text_eq [] t
ends_with (a ∷ s) t = text_eq (a ∷ s) t || ends_with s t

-- `s.strip_suffix(t)`
unfoldable pub strip_suffix : Text → Text → Option Text
unfolding text_eq
strip_suffix [] t = if text_eq [] t then some [] else none
strip_suffix (a ∷ s) t =
    let rest = strip_suffix s t in if text_eq (a ∷ s) t then some [] else opt_map (λ r. a ∷ r) rest

-- What follows the last occurrence of `t` in `s`: `&s[s.rfind(t)? + t.len()..]`.
unfoldable pub rest_after : Text → Text → Option Text
unfolding strip_text
rest_after t [] = strip_text [] t
rest_after t (a ∷ s) = or_option (rest_after t s) (strip_text (a ∷ s) t)

abbrev pub is_between : ℕ → ℕ → ℕ → Bool
is_between a b c = leb a c && leb c b

abbrev pub is_ascii_digit : ℕ → Bool
is_ascii_digit c = is_between 48 57 c

abbrev pub is_ascii_alphanumeric : ℕ → Bool
is_ascii_alphanumeric c = is_ascii_digit c || (is_between 65 90 c || is_between 97 122 c)

abbrev pub all : (ℕ → Bool) → Text → Bool
all p [] = true
all p (c ∷ s) = p c && all p s

-- `s.to_ascii_lowercase()`
abbrev pub lowercase : Text → Text
lowercase s = map (λ c. if is_between 65 90 c then c + 32 else c) s

abbrev pub hau_to : List Text
hau_to =
    codes ".part"
    ∷ codes ".crdownload"
    ∷ codes ".filepart"
    ∷ codes ".partial"
    ∷ codes ".download"
    ∷ codes ".tmp"
    ∷ []

-- `.<name>.XXXXXX`
unfoldable pub rsync : Text → Bool
unfolding strip_text rest_after
rsync name =
    is_some_and
      (λ rest.
        is_some_and (λ duoi. length duoi == 6 && all is_ascii_alphanumeric duoi)
          (rest_after (codes ".") rest))
      (strip_text name (codes "."))

unfoldable pub oc_transfer : Text → Bool
unfolding strip_suffix rest_after
oc_transfer name =
    is_some_and
      (λ truoc.
        is_some_and (λ so. not (length so == 0) && all is_ascii_digit so)
          (rest_after (codes ".ocTransferId") truoc))
      (strip_suffix name (codes ".part"))

unfoldable pub hau_to_tam : Text → Bool
unfolding ends_with
hau_to_tam name = any (λ h. ends_with (lowercase name) h) hau_to

unfoldable pub syncthing : Text → Bool
unfolding starts_with ends_with
syncthing name = starts_with name (codes ".syncthing.") && ends_with name (codes ".tmp")

unfoldable pub macos_resource : Text → Bool
unfolding starts_with
macos_resource name = starts_with name (codes "._")

unfoldable pub office_lock : Text → Bool
unfolding starts_with
office_lock name = starts_with name (codes "~$")

unfoldable pub nasdedup : Text → Bool
unfolding starts_with ends_with
nasdedup name = starts_with name (codes ".nasdedup-") && ends_with name (codes ".tmp")

unfoldable pub la_ten_tam : Text → Bool
unfolding rsync oc_transfer hau_to_tam syncthing macos_resource office_lock nasdedup
la_ten_tam name =
    rsync name
    || (oc_transfer name
        || (hau_to_tam name
            || (syncthing name || (macos_resource name || (office_lock name || nasdedup name)))))
