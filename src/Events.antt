-- ===== src/Events.antt =====
-- The events of a watched tree: crates/core/src/events.rs.
use check_trung_video.Base.{Option, none, some, String}
use check_trung_video.Model.Records.{FileLoc}

pub data RescanReason : Type 0 where
  queue_overflow : RescanReason
  watch_limit : RescanReason
  back_pressure : RescanReason

abbrev pub as_str : RescanReason → String
as_str queue_overflow = "queue_overflow"
as_str watch_limit = "watch_limit"
as_str back_pressure = "back_pressure"

pub data FsEvent : Type 0 where
  closed : FileLoc → FsEvent
  modified : FileLoc → FsEvent
  renamed : (src dst : FileLoc) → FsEvent
  moved_in : FileLoc → FsEvent
  removed : FileLoc → FsEvent
  removed_unknown : FileLoc → FsEvent
  removed_dir : FileLoc → FsEvent
  renamed_dir : (src dst : FileLoc) → FsEvent
  created_dir : FileLoc → FsEvent
  needs_rescan : RescanReason → FsEvent

-- Where the event has happened; for a rename, where the file has gone to.
abbrev pub event_loc : FsEvent → Option FileLoc
event_loc (closed l) = some l
event_loc (modified l) = some l
event_loc (renamed src dst) = some dst
event_loc (moved_in l) = some l
event_loc (removed l) = some l
event_loc (removed_unknown l) = some l
event_loc (removed_dir l) = some l
event_loc (renamed_dir src dst) = some dst
event_loc (created_dir l) = some l
event_loc (needs_rescan r) = none
