-- ===== src/Walk.antt =====
-- What the walks do with an entry: crates/core/src/walk. The walk itself reads directories in the
-- crate for Linux, and is a sequence of calls here.
pub mod HangDoi
pub mod Reconcile
use check_trung_video.Base.{ℕ, Result, ok, err, List, [], ◌∷◌}
use check_trung_video.Model.Records.{Ts, FilePath, FileLoc}
use check_trung_video.Memory.{Store, RepoError}
use check_trung_video.Pipeline.Ctx.{FileSystem}
use check_trung_video.Filter.{Prefilter}

-- What every handler of entries has beside the store.
pub record BoXuLy : Type 0 where
  pub fs : FileSystem
  pub loc : Prefilter
  pub root_id : ℕ
  pub now : Ts

-- The calls of a walk, `XuLyEntry`.
pub data WalkCall : Type 0 where
  file : (loc : FileLoc) (so_bo : ℕ) → WalkCall
  xong_thu_muc : (rel_dir : FilePath) → WalkCall
  xong_root : WalkCall
  bi_cat : WalkCall
