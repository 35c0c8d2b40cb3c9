-- ===== src/Model/RootKind.antt =====
-- The kind of a root: `RootKind` of crates/core/src/model.rs.
use check_trung_video.Base.{ℕ, String, List, [], ◌∷◌, Bool, true, false, ◌==◌, Result}
use check_trung_video.Model.Enum
use check_trung_video.Model.Enum.{ParseEnumError}

pub data RootKind : Type 0 where
  local remote : RootKind

-- the value of the variant, by which `==` compares
abbrev pub discriminant : RootKind → ℕ
discriminant local = 0
discriminant remote = 1

abbrev pub eq : RootKind → RootKind → Bool
eq a b = discriminant a == discriminant b

unfoldable pub as_str : RootKind → String
as_str local = "local"
as_str remote = "remote"

abbrev pub all : List RootKind
all = local ∷ remote ∷ []

unfoldable pub from_str : String → Result ParseEnumError RootKind
unfolding Enum.from_str as_str
from_str = Enum.from_str "RootKind" all as_str

-- may be written to
abbrev pub is_writable : RootKind → Bool
is_writable local = true
is_writable _ = false

-- has inotify
abbrev pub supports_watch : RootKind → Bool
supports_watch local = true
supports_watch _ = false

-- its fingerprints count `ctime`
abbrev pub uses_ctime : RootKind → Bool
uses_ctime local = true
uses_ctime _ = false
