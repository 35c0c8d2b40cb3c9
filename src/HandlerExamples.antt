-- ===== src/HandlerExamples.antt =====
-- Concrete runs of the handler of events.
use check_trung_video.Base.{
  List, [], ◌∷◌, ◌++◌, false, not, none, some, ok, err, map, filter, here, ◌≡◌, refl, arith,
}
use check_trung_video.Base.Int
use check_trung_video.Base.Int.{ℤ, pos}
use check_trung_video.Base.HashMap
use check_trung_video.Base.HashMap.Ordered.{view}
use check_trung_video.Model.Records.{loc_eq}
use check_trung_video.Memory.Inv.{Inv}
use check_trung_video.Memory.Reach.{run-Inv}
use check_trung_video.Pipeline.Ctx.{other, os_error, not_found, FileSystem}
use check_trung_video.Filter.{Prefilter}
use check_trung_video.Filter.TempNames.{codes}
use check_trung_video.Events.{modified, renamed, removed, removed_unknown}
use check_trung_video.Handler.Ghep
use check_trung_video.Handler.Ghep.Queue.{
  GhepCall, from_half, to_half, both_halves, expire, perform_all, wait_all,
}
use check_trung_video.Handler.Ghep.Refine.{perform_all-Refines}
use check_trung_video.Handler.Gom
use check_trung_video.Handler.Gom.{Gom, Muc, nhan, den_han, all_events, toi_ky}
use check_trung_video.Handler.Gom.Inv.{
  IsGom, GomCall, receive, after_calls, after_calls-IsGom, den_han-view,
}
use check_trung_video.Handler.Gom.First.{tu_of, receive_all, first_at, receive_all-first}
use check_trung_video.Handler.Gom.Loss.{IsHeld, nhan-keeps}
use check_trung_video.Handler.Upsert.{HandlerCtx, Kho}
use check_trung_video.Handler.XuLy.{xu_ly}
use check_trung_video.Handler.Inv.Dispatch.{xu_ly-Inv}
use check_trung_video.Handler.Evidence.{is_ok, xu_ly-unclear, xu_ly-root}
use check_trung_video.Examples.{id_of, loc_of, calls, store_one}

abbrev pub filter_one : Prefilter
filter_one = record {
  exclude_dirs = "@eaDir" ∷ [];
  exclude_prefixes = ".Trash-" ∷ [];
  video_extensions = codes "mp4" ∷ [];
  is_match = λ p. false;
  min_size = 10;
}

-- Every look at a file fails with the number.
abbrev files_failing : ℤ → FileSystem
files_failing n = record {
  open_file = λ loc. err not_found;
  open_rw = λ loc. err not_found;
  statx = λ loc. err (other (os_error false (some n)) "os");
  has_optout_marker = λ root_id dir. false;
}

-- Every place has the file with the number of its root.
abbrev pub files_there : FileSystem
files_there = record {
  open_file = λ loc. err not_found;
  open_rw = λ loc. err not_found;
  statx = λ loc. ok (id_of loc.root_id (pos 7));
  has_optout_marker = λ root_id dir. false;
}

abbrev handler_in : FileSystem → HandlerCtx
handler_in fs = record {
  fs = fs;
  loc = filter_one;
  settle_delay = pos 900_000;
  max_pending = 100;
  max_pending_per_uid = 50;
  now = pos 1_000;
}

abbrev kho_one : Kho
kho_one = record { repo = store_one; dem = none }

xu_ly-Inv_example :
    Inv
      (xu_ly
        (handler_in files_there)
        kho_one
        (renamed (loc_of 2 "b.mp4") (loc_of 1 "c.mp4"))).1.repo
xu_ly-Inv_example =
    xu_ly-Inv (handler_in files_there) kho_one (renamed (loc_of 2 "b.mp4") (loc_of 1 "c.mp4"))
      (run-Inv calls)

xu_ly-unclear_example :
    (xu_ly (handler_in (files_failing (pos 5))) kho_one (removed_unknown (loc_of 1 "a.mp4"))).1
    ≡ kho_one
xu_ly-unclear_example =
    xu_ly-unclear (handler_in (files_failing (pos 5))) kho_one (removed_unknown (loc_of 1 "a.mp4"))
      refl (refl, tt)

xu_ly-root_example :
    ((xu_ly
        (handler_in files_there)
        kho_one
        (removed_unknown (record { root_id = 1; rel_path = [] }))).1
      ≡ kho_one)
    × (is_ok
          (xu_ly
            (handler_in files_there)
            kho_one
            (removed_unknown (record { root_id = 1; rel_path = [] }))).0
        ≡ false)
xu_ly-root_example =
    xu_ly-root (handler_in files_there) kho_one
      (removed_unknown (record { root_id = 1; rel_path = [] })) refl refl

-- Two renames whose halves interleave, and a half that is lost.
abbrev ghep_calls : List GhepCall
ghep_calls =
    from_half 1 (loc_of 1 ".a.tmp") (pos 0)
    ∷ from_half 2 (loc_of 1 ".b.tmp") (pos 1)
    ∷ from_half 3 (loc_of 1 "x.mp4") (pos 2)
    ∷ to_half (some 2) (loc_of 1 "b.mp4") (pos 3)
    ∷ to_half (some 1) (loc_of 1 "a.mp4") (pos 4)
    ∷ both_halves (some 1) (loc_of 1 ".a.tmp") (loc_of 1 "a.mp4")
    ∷ expire (pos 2_003)
    ∷ []

perform_all-Refines_example :
    perform_all (Ghep.moi (pos 2_000)) ghep_calls
    ≡ wait_all (record { window = pos 2_000; halves = []; paired = [] }) ghep_calls
perform_all-Refines_example = perform_all-Refines (pos 2_000) ghep_calls

ghep_calls_test :
    perform_all (Ghep.moi (pos 2_000)) ghep_calls
    ≡ renamed (loc_of 1 ".b.tmp") (loc_of 1 "b.mp4")
      ∷ renamed (loc_of 1 ".a.tmp") (loc_of 1 "a.mp4")
      ∷ removed_unknown (loc_of 1 "x.mp4")
      ∷ []
unfolding perform_all Int.◌-ℤ◌
ghep_calls_test = refl

abbrev gom_calls : List GomCall
gom_calls =
    receive (modified (loc_of 1 "a.mp4")) (pos 0)
    ∷ receive (renamed (loc_of 1 "x.mp4") (loc_of 1 "a.mp4")) (pos 1)
    ∷ receive (removed (loc_of 1 "b.mp4")) (pos 2)
    ∷ []

abbrev gom_one : Gom
gom_one = after_calls (Gom.moi 1_000 (pos 1_000)) gom_calls

after_calls-IsGom_example : IsGom (after_calls (Gom.moi 1_000 (pos 1_000)) gom_calls)
after_calls-IsGom_example = after_calls-IsGom 1_000 (pos 1_000) gom_calls

abbrev muc_one : Muc
muc_one = record { evs = renamed (loc_of 1 "x.mp4") (loc_of 1 "a.mp4") ∷ []; tu = pos 0 }

nhan-keeps_example :
    IsHeld
      (nhan gom_one (removed (loc_of 1 "a.mp4")) (pos 3)).1
      (loc_of 1 "a.mp4")
      (renamed (loc_of 1 "x.mp4") (loc_of 1 "a.mp4"))
unfolding HashMap.get after_calls
nhan-keeps_example =
    nhan-keeps gom_one (removed (loc_of 1 "a.mp4")) (pos 3) (loc_of 1 "a.mp4") {m = muc_one} refl
      here (omega arith) refl

receive_all-first_example :
    tu_of (loc_of 1 "a.mp4") (
      receive_all
        (Gom.moi 1_000 (pos 1_000))
        ((modified (loc_of 1 "a.mp4"), pos 1) ∷ (removed (loc_of 1 "a.mp4"), pos 2) ∷ []))
    ≡ first_at
        (loc_of 1 "a.mp4")
        ((modified (loc_of 1 "a.mp4"), pos 1) ∷ (removed (loc_of 1 "a.mp4"), pos 2) ∷ [])
receive_all-first_example =
    receive_all-first 1_000 (pos 1_000)
      ((modified (loc_of 1 "a.mp4"), pos 1) ∷ (removed (loc_of 1 "a.mp4"), pos 2) ∷ [])
      (loc_of 1 "a.mp4")

den_han-view_example :
    ((den_han gom_one (pos 1_001)).0
      ≡ gom_one.khan
        ++ all_events (
            map
              (λ p. p.1)
              (filter
                (λ p. Int.le gom_one.chu_ky_ms (Int.saturating_sub (pos 1_001) p.1.tu))
                (view loc_eq gom_one.thu_tu gom_one.muc))))
    × ((den_han gom_one (pos 1_001)).1.khan ≡ [])
    × (view loc_eq (den_han gom_one (pos 1_001)).1.thu_tu (den_han gom_one (pos 1_001)).1.muc
        ≡ filter
            (λ p. not (Int.le gom_one.chu_ky_ms (Int.saturating_sub (pos 1_001) p.1.tu)))
            (view loc_eq gom_one.thu_tu gom_one.muc))
den_han-view_example =
    den_han-view gom_one (pos 1_001) (after_calls-IsGom 1_000 (pos 1_000) gom_calls)
