-- ===== src/Filter/Passed.antt =====
-- What the filter of crates/core/src/filter/prefilter.rs lets pass.
use check_trung_video.Base.{
  ℕ, ◌≤◌, [], ◌∷◌, true, false, none, Option-cases, inl, inr, ◌↔◌, ◌≡◌, refl, arith,
}
use check_trung_video.Model.Records.{FilePath}
use check_trung_video.Filter.{
  Prefilter, is_excluded, excluded_component, file_name, extension_of, opt_codes, has_extension,
  check_name, check_path,
}
use check_trung_video.Filter.TempNames.{la_ten_tam}

abbrev pub IsClean : Prefilter → FilePath → Type 0
IsClean f [] = Unit
IsClean f (c ∷ p) = (is_excluded f c ≡ false) × IsClean f p

-- Of a path that the rules on names and sizes let pass.
abbrev pub IsCandidate : Prefilter → FilePath → ℕ → Type 0
IsCandidate f p size =
    IsClean f p
    × (la_ten_tam (opt_codes (file_name p)) ≡ false)
    × (has_extension f (extension_of (opt_codes (file_name p))) ≡ true)
    × (f.min_size ≤ size)
    × (f.is_match p ≡ false)

excluded_component-none :
    (f : Prefilter) (p : FilePath) → excluded_component f p ≡ none → IsClean f p
unfolding excluded_component
excluded_component-none f [] h = tt
excluded_component-none f (c ∷ p) h = ground (arith, excluded_component-none f p)

IsClean-none : (f : Prefilter) (p : FilePath) → IsClean f p → excluded_component f p ≡ none
unfolding excluded_component
IsClean-none f [] h = refl
IsClean-none f (c ∷ p) (a, h) = rw a (IsClean-none f p h)

check_name-none :
    (f : Prefilter) (p : FilePath) (size : ℕ)
    → check_name f p size ≡ none
    → (la_ten_tam (opt_codes (file_name p)) ≡ false)
      × (has_extension f (extension_of (opt_codes (file_name p))) ≡ true)
      × (f.min_size ≤ size)
      × (f.is_match p ≡ false)
check_name-none f p size h = ground arith

check_name-passed :
    (f : Prefilter) (p : FilePath) (size : ℕ)
    → la_ten_tam (opt_codes (file_name p)) ≡ false
    → has_extension f (extension_of (opt_codes (file_name p))) ≡ true
    → f.min_size ≤ size
    → f.is_match p ≡ false
    → check_name f p size ≡ none
check_name-passed f p size a b c d = ground arith

to_candidate :
    (f : Prefilter) (p : FilePath) (size : ℕ) → check_path f p size ≡ none → IsCandidate f p size
unfolding check_path
to_candidate f p size h = elim (Option-cases (excluded_component f p)) [
  | inl e ↦
      let (a, b, c, d) = check_name-none f p size (rw e at h) in
      (excluded_component-none f p e, a, b, c, d)
  | inr (x, e) ↦ cc (rw e at h)
]

-- A path passes the rules exactly when no component of it is an excluded directory, its file name is
-- none of the names of temporary files, the name has an extension of the list, the size is not below
-- the least, and no glob of the user matches.
pub check_path-none :
    (f : Prefilter) (p : FilePath) (size : ℕ) → (check_path f p size ≡ none) ↔ IsCandidate f p size
unfolding check_path
check_path-none f p size = (
  to_candidate f p size,
  λ (c, a, b, d, e). rw (IsClean-none f p c) (check_name-passed f p size a b d e),
)
