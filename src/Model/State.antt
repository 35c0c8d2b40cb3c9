-- ===== src/Model/State.antt =====
-- The life cycle of a file: `State` of crates/core/src/model.rs.
use check_trung_video.Base.{ℕ, String, List, [], ◌∷◌, Bool, true, false, ◌==◌, Result}
use check_trung_video.Model.Enum
use check_trung_video.Model.Enum.{ParseEnumError}

pub data State : Type 0 where
  settling sized hashed verified deduped distinct canonical skipped failed missing gone : State

-- the value of the variant, by which `==` compares
abbrev pub discriminant : State → ℕ
discriminant settling = 0
discriminant sized = 1
discriminant hashed = 2
discriminant verified = 3
discriminant deduped = 4
discriminant distinct = 5
discriminant canonical = 6
discriminant skipped = 7
discriminant failed = 8
discriminant missing = 9
discriminant gone = 10

abbrev pub eq : State → State → Bool
eq a b = discriminant a == discriminant b

unfoldable pub as_str : State → String
as_str settling = "settling"
as_str sized = "sized"
as_str hashed = "hashed"
as_str verified = "verified"
as_str deduped = "deduped"
as_str distinct = "distinct"
as_str canonical = "canonical"
as_str skipped = "skipped"
as_str failed = "failed"
as_str missing = "missing"
as_str gone = "gone"

abbrev pub all : List State
all =
    settling ∷ sized ∷ hashed ∷ verified ∷ deduped ∷ distinct ∷ canonical ∷ skipped ∷ failed
    ∷ missing ∷ gone ∷ []

unfoldable pub from_str : String → Result ParseEnumError State
unfolding Enum.from_str as_str
from_str = Enum.from_str "State" all as_str

-- the rows of the work queue
abbrev pub is_queued : State → Bool
is_queued settling = true
is_queued sized = true
is_queued hashed = true
is_queued _ = false

-- the states that only an event or a scan leaves
abbrev pub is_terminal : State → Bool
is_terminal verified = true
is_terminal deduped = true
is_terminal distinct = true
is_terminal canonical = true
is_terminal skipped = true
is_terminal failed = true
is_terminal missing = true
is_terminal gone = true
is_terminal _ = false

-- the rows that may be a duplicate of another
abbrev pub is_candidate : State → Bool
is_candidate sized = true
is_candidate distinct = true
is_candidate _ = false

-- the members of a content group
abbrev pub in_group : State → Bool
in_group hashed = true
in_group verified = true
in_group deduped = true
in_group canonical = true
in_group _ = false
