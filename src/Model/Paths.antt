-- ===== src/Model/Paths.antt =====
-- Paths and places are equal exactly when `==` says so: crates/core/src/model.rs.
use check_trung_video.Base.{
  ◌==◌, ==_iff, String, str_eq, eq_iff, [], ◌∷◌, Bool, true, ◌&&◌, ◌≡◌, refl, arith,
}
use check_trung_video.Base.HashMap.{KeyTest}
use check_trung_video.Model.Records.{FilePath, FileLoc, path_eq, loc_eq}

str_eq_refl : (a : String) → str_eq a a ≡ true
str_eq_refl a = (eq_iff a a).1 refl

pub path_eq_refl : (p : FilePath) → path_eq p p ≡ true
unfolding path_eq
path_eq_refl [] = refl
path_eq_refl (a ∷ p) = rw (str_eq_refl a) (path_eq_refl p)

and-split : (a b : Bool) → (a && b) ≡ true → (a ≡ true) × (b ≡ true)
and-split a b h = ground arith

pub path_eq→≡ : (p q : FilePath) → path_eq p q ≡ true → p ≡ q
unfolding path_eq
path_eq→≡ [] [] h = refl
path_eq→≡ [] (b ∷ q) h = cc h
path_eq→≡ (a ∷ p) [] h = cc h
path_eq→≡ (a ∷ p) (b ∷ q) h =
    let (s, t) = and-split (str_eq a b) (path_eq p q) h in cc ((eq_iff a b).0 s, path_eq→≡ p q t)

pub loc_eq_refl : (a : FileLoc) → loc_eq a a ≡ true
loc_eq_refl a = ground (arith, path_eq_refl a.rel_path)

pub loc_eq→≡ : (a b : FileLoc) → loc_eq a b ≡ true → a ≡ b
loc_eq→≡ a b h =
    let (s, t) = and-split (a.root_id == b.root_id) (path_eq a.rel_path b.rel_path) h in
    cc ((==_iff a.root_id b.root_id).0 s, path_eq→≡ a.rel_path b.rel_path t)

abbrev pub places : KeyTest FileLoc
places = record { same = loc_eq; same_refl = loc_eq_refl; same→≡ = loc_eq→≡ }
