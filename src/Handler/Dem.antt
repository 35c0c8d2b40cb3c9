-- ===== src/Handler/Dem.antt =====
-- The cached counter of the queue: crates/core/src/handler/dem.rs. The cell that holds the cache is
-- passed and returned.
use check_trung_video.Base.{
  ℕ, ◌+◌, ◌-◌, ◌^◌, ltb, ◌==◌, List, [], ◌∷◌, Option, none, some, Bool, ◌&&◌, is_some_and,
  if◌then◌else◌,
}
use check_trung_video.Base.Int
use check_trung_video.Base.Int.{ℤ, pos}
use check_trung_video.Model.Records.{Ts}
use check_trung_video.Memory.{Store}
use check_trung_video.Memory.Queue.{pending_counts}

abbrev pub cache_dem_ms : ℤ
cache_dem_ms = pos 1_000

pub record Trong : Type 0 where
  pub luc : Ts
  pub tong : ℕ
  pub theo_uid : List (ℕ × ℕ)

abbrev pub DemHangDoi : Type 0
DemHangDoi = Option Trong

abbrev pub moi : DemHangDoi
moi = none

-- Whether the cache still stands.
unfoldable pub con_han : DemHangDoi → Ts → Bool
unfolding Int.saturating_sub
con_han d now =
    is_some_and
      (λ (t : Trong). Int.le t.luc now && Int.lt (Int.saturating_sub now t.luc) cache_dem_ms) d

abbrev pub count_of : ℕ → List (ℕ × ℕ) → ℕ
count_of uid [] = 0
count_of uid ((u, n) ∷ ps) = if u == uid then n else count_of uid ps

abbrev pub read_cache : Option Trong → ℕ → (ℕ × ℕ) × DemHangDoi
read_cache none uid = ((0, 0), none)
read_cache (some t) uid = ((t.tong, count_of uid t.theo_uid), some t)

abbrev pub counted : ℕ × List (ℕ × ℕ) → Ts → Trong
counted (tong, theo_uid) now = record { luc = now; tong = tong; theo_uid = theo_uid }

-- The total, and the number of the user.
unfoldable pub doc : DemHangDoi → Store → Ts → ℕ → (ℕ × ℕ) × DemHangDoi
unfolding con_han pending_counts
doc d s now uid =
    if con_han d now
    then read_cache d uid
    else read_cache (some (counted (pending_counts s) now)) uid

-- `n.saturating_add(1)` on `u64`
abbrev pub saturating_suc : ℕ → ℕ
saturating_suc n = if ltb n (2 ^ 64 - 1) then n + 1 else 2 ^ 64 - 1

abbrev pub add_one : ℕ → List (ℕ × ℕ) → List (ℕ × ℕ)
add_one uid [] = (uid, 1) ∷ []
add_one uid ((u, n) ∷ ps) = if u == uid then (u, saturating_suc n) ∷ ps else (u, n) ∷ add_one uid ps

unfoldable pub them : DemHangDoi → ℕ → DemHangDoi
them none uid = none
them (some t) uid =
    some (record t { tong = saturating_suc t.tong; theo_uid = add_one uid t.theo_uid })
