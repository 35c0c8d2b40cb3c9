-- ===== src/Model/ScanPhase.antt =====
-- The phase of the initial scan: `ScanPhase` of crates/core/src/model.rs.
use check_trung_video.Base.{ℕ, String, List, [], ◌∷◌, Bool, ◌==◌, Result}
use check_trung_video.Model.Enum
use check_trung_video.Model.Enum.{ParseEnumError}

pub data ScanPhase : Type 0 where
  a b done : ScanPhase

-- the value of the variant, by which `==` compares
abbrev pub discriminant : ScanPhase → ℕ
discriminant a = 0
discriminant b = 1
discriminant done = 2

abbrev pub eq : ScanPhase → ScanPhase → Bool
eq x y = discriminant x == discriminant y

unfoldable pub as_str : ScanPhase → String
as_str a = "a"
as_str b = "b"
as_str done = "done"

abbrev pub all : List ScanPhase
all = a ∷ b ∷ done ∷ []

unfoldable pub from_str : String → Result ParseEnumError ScanPhase
unfolding Enum.from_str as_str
from_str = Enum.from_str "ScanPhase" all as_str
