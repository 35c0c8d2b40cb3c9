-- ===== src/Model/Backend.antt =====
-- The way extents are shared on a volume: `Backend` of crates/core/src/model.rs.
use check_trung_video.Base.{ℕ, String, List, [], ◌∷◌, Bool, true, false, ◌==◌, Result}
use check_trung_video.Model.Enum
use check_trung_video.Model.Enum.{ParseEnumError}

pub data Backend : Type 0 where
  kernel_dedupe verified_clone unsupported unknown unprobed : Backend

-- the value of the variant, by which `==` compares
abbrev pub discriminant : Backend → ℕ
discriminant kernel_dedupe = 0
discriminant verified_clone = 1
discriminant unsupported = 2
discriminant unknown = 3
discriminant unprobed = 4

abbrev pub eq : Backend → Backend → Bool
eq a b = discriminant a == discriminant b

unfoldable pub as_str : Backend → String
as_str kernel_dedupe = "kernel_dedupe"
as_str verified_clone = "verified_clone"
as_str unsupported = "unsupported"
as_str unknown = "unknown"
as_str unprobed = "unprobed"

abbrev pub all : List Backend
all = kernel_dedupe ∷ verified_clone ∷ unsupported ∷ unknown ∷ unprobed ∷ []

unfoldable pub from_str : String → Result ParseEnumError Backend
unfolding Enum.from_str as_str
from_str = Enum.from_str "Backend" all as_str

-- the backend really shares extents
abbrev pub is_supported : Backend → Bool
is_supported kernel_dedupe = true
is_supported verified_clone = true
is_supported _ = false
