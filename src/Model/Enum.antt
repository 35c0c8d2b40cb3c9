-- ===== src/Model/Enum.antt =====
-- Parsing an enumeration from its name in the database: the `FromStr` implementations of
-- crates/core/src/model.rs and crates/core/src/repo/types.rs, which differ in the type alone.
pub mod RoundTrip
use check_trung_video.Base.{
  String, List, Bool, true, false, Option, none, some, find, find-some, find-none, In, ◌≡◌, ◌≢◌,
  refl, ap, Result, ok, err, ok_or, str_eq, eq_iff, arith, if◌then◌else◌,
}

pub record ParseEnumError : Type 0 where
  pub kind : String
  pub value : String

module _ {A : Type 0} (kind : String) (all : List A) (as_str : A → String) where
  unfoldable pub from_str : String → Result ParseEnumError A
  from_str s = ok_or (find (λ a. str_eq (as_str a) s) all) (record { kind = kind; value = s })

  -- What parses is printed back as the text that was read.
  pub as_str-from_str : (s : String) (a : A) → from_str s ≡ ok a → as_str a ≡ s
  unfolding from_str
  as_str-from_str s a h =
      (eq_iff (as_str a) s).0 (find-some (λ b. str_eq (as_str b) s) all {a = a} (ground arith)).0
