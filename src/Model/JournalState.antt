-- ===== src/Model/JournalState.antt =====
-- The state of a journal row: `JournalState` of crates/core/src/model.rs.
use check_trung_video.Base.{ℕ, String, List, [], ◌∷◌, Bool, true, false, ◌==◌, Result}
use check_trung_video.Model.Enum
use check_trung_video.Model.Enum.{ParseEnumError}

pub data JournalState : Type 0 where
  planned compared cloned done aborted : JournalState

-- the value of the variant, by which `==` compares
abbrev pub discriminant : JournalState → ℕ
discriminant planned = 0
discriminant compared = 1
discriminant cloned = 2
discriminant done = 3
discriminant aborted = 4

abbrev pub eq : JournalState → JournalState → Bool
eq a b = discriminant a == discriminant b

unfoldable pub as_str : JournalState → String
as_str planned = "planned"
as_str compared = "compared"
as_str cloned = "cloned"
as_str done = "done"
as_str aborted = "aborted"

abbrev pub all : List JournalState
all = planned ∷ compared ∷ cloned ∷ done ∷ aborted ∷ []

unfoldable pub from_str : String → Result ParseEnumError JournalState
unfolding Enum.from_str as_str
from_str = Enum.from_str "JournalState" all as_str

-- needs no recovery at boot
abbrev pub is_closed : JournalState → Bool
is_closed done = true
is_closed aborted = true
is_closed _ = false
