-- ===== src/Model/EventResult.antt =====
-- The result of a ledger event: `EventResult` of crates/core/src/repo/types.rs.
use check_trung_video.Base.{ℕ, String, List, [], ◌∷◌, Bool, ◌==◌, Result}
use check_trung_video.Model.Enum
use check_trung_video.Model.Enum.{ParseEnumError}

pub data EventResult : Type 0 where
  same differs error skipped : EventResult

-- the value of the variant, by which `==` compares
abbrev pub discriminant : EventResult → ℕ
discriminant same = 0
discriminant differs = 1
discriminant error = 2
discriminant skipped = 3

abbrev pub eq : EventResult → EventResult → Bool
eq a b = discriminant a == discriminant b

unfoldable pub as_str : EventResult → String
as_str same = "same"
as_str differs = "differs"
as_str error = "error"
as_str skipped = "skipped"

abbrev pub all : List EventResult
all = same ∷ differs ∷ error ∷ skipped ∷ []

unfoldable pub from_str : String → Result ParseEnumError EventResult
unfolding Enum.from_str as_str
from_str = Enum.from_str "EventResult" all as_str
