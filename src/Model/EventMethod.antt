-- ===== src/Model/EventMethod.antt =====
-- The method of a ledger event: `EventMethod` of crates/core/src/repo/types.rs.
use check_trung_video.Base.{ℕ, String, List, [], ◌∷◌, Bool, ◌==◌, Result}
use check_trung_video.Model.Enum
use check_trung_video.Model.Enum.{ParseEnumError}

pub data EventMethod : Type 0 where
  fideduperange verified_clone dry_run fiemap undo : EventMethod

-- the value of the variant, by which `==` compares
abbrev pub discriminant : EventMethod → ℕ
discriminant fideduperange = 0
discriminant verified_clone = 1
discriminant dry_run = 2
discriminant fiemap = 3
discriminant undo = 4

abbrev pub eq : EventMethod → EventMethod → Bool
eq a b = discriminant a == discriminant b

unfoldable pub as_str : EventMethod → String
as_str fideduperange = "fideduperange"
as_str verified_clone = "verified_clone"
as_str dry_run = "dry_run"
as_str fiemap = "fiemap"
as_str undo = "undo"

abbrev pub all : List EventMethod
all = fideduperange ∷ verified_clone ∷ dry_run ∷ fiemap ∷ undo ∷ []

unfoldable pub from_str : String → Result ParseEnumError EventMethod
unfolding Enum.from_str as_str
from_str = Enum.from_str "EventMethod" all as_str
