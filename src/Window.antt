-- ===== src/Window.antt =====
-- The hours of heavy work: crates/core/src/window.rs and `TimeWindow` of crates/core/src/config.rs.
-- The calendar and the time zones are those of the library jiff, a record of functions here.
pub mod Next
pub mod Parse
use check_trung_video.Base.{
  ℕ, ◌+◌, ◌*◌, ◌/◌, ◌%◌, ltb, leb, String, List, [], ◌∷◌, Bool, true, false, ◌&&◌, ◌||◌, Option,
  none, some, any, if◌then◌else◌,
}
use check_trung_video.Base.Int
use check_trung_video.Model.Records.{Ts}

pub record TimeWindow : Type 0 where
  pub start_min : ℕ
  pub end_min : ℕ

-- Whether a minute of the day lies in the window, which can go over midnight.
abbrev pub contains : TimeWindow → ℕ → Bool
contains k min =
    if leb k.start_min k.end_min
    then leb k.start_min min && ltb min k.end_min
    else leb k.start_min min || ltb min k.end_min

-- The calls of jiff: a time zone by its name, a moment, its hour, minute and date in a zone, a date
-- so many days later, and the time at an hour and a minute of a date, if there is one. Hours and
-- minutes are never negative.
pub record Jiff (Tz Timestamp Date : Type 0) : Type 0 where
  pub get : String → Option Tz
  pub from_millisecond : Ts → Option Timestamp
  pub hour : Tz → Timestamp → ℕ
  pub minute : Tz → Timestamp → ℕ
  pub date : Tz → Timestamp → Date
  pub checked_add : Date → ℕ → Option Date
  pub to_zoned : Tz → Date → (gio phut : ℕ) → Option Ts

pub record TinhTrang : Type 0 where
  pub trong_khung : Bool
  pub khung_ke_tiep : Option Ts

abbrev pub moi_luc : TinhTrang
moi_luc = record { trong_khung = true; khung_ke_tiep = none }

abbrev pub is_sooner : Option Ts → Ts → Bool
is_sooner none ms = true
is_sooner (some x) ms = Int.lt ms x

-- One start of a window against the earliest one so far.
abbrev pub som_hon : Ts → Option Ts → Option Ts → Option Ts
som_hon now none som_nhat = som_nhat
som_hon now (some ms) som_nhat =
    if Int.lt now ms && is_sooner som_nhat ms then some ms else som_nhat

abbrev pub ket_qua : Option (Option Ts) → Option Ts
ket_qua none = none
ket_qua (some som_nhat) = som_nhat

module _ {Tz Timestamp Date : Type 0} (j : Jiff Tz Timestamp Date) where
  abbrev pub bat_dau : Tz → Date → TimeWindow → Option Ts
  bat_dau tz d k = j.to_zoned tz d (k.start_min / 60) (k.start_min % 60)

  -- The windows of one day; an hour that is no `i8` ends the function without an answer.
  unfoldable pub duyet_khung : Tz → Date → Ts → List TimeWindow → Option Ts → Option (Option Ts)
  duyet_khung tz d now [] som_nhat = some som_nhat
  duyet_khung tz d now (k ∷ khung) som_nhat =
      let rest = duyet_khung tz d now khung (som_hon now (bat_dau tz d k) som_nhat) in
      if leb (k.start_min / 60) 127 then rest else none

  abbrev pub duyet_mot_ngay :
      Tz → Option Date → Ts → List TimeWindow → Option Ts → Option (Option Ts)
  duyet_mot_ngay tz none now khung som_nhat = none
  duyet_mot_ngay tz (some d) now khung som_nhat = duyet_khung tz d now khung som_nhat

  abbrev pub ngay_mai : Tz → Date → Ts → List TimeWindow → Option (Option Ts) → Option Ts
  ngay_mai tz hom_nay now khung none = none
  ngay_mai tz hom_nay now khung (some som_nhat) =
      ket_qua (duyet_mot_ngay tz (j.checked_add hom_nay 1) now khung som_nhat)

  -- The two days
  abbrev pub tu_ngay : Tz → Date → Ts → List TimeWindow → Option Ts
  tu_ngay tz hom_nay now khung =
      ngay_mai tz hom_nay now khung (duyet_mot_ngay tz (j.checked_add hom_nay 0) now khung none)

  abbrev pub tu_luc : Tz → Option Timestamp → Ts → List TimeWindow → Option Ts
  tu_luc tz none now khung = none
  tu_luc tz (some ts) now khung = tu_ngay tz (j.date tz ts) now khung

  unfoldable pub bat_dau_ke_tiep : List TimeWindow → Tz → Ts → Option Ts
  unfolding duyet_khung
  bat_dau_ke_tiep khung tz now = tu_luc tz (j.from_millisecond now) now khung

  abbrev pub tra_luc : List TimeWindow → Option Tz → Option Timestamp → Ts → TinhTrang
  tra_luc khung none ts now = moi_luc
  tra_luc khung (some tz) none now = moi_luc
  tra_luc khung (some tz) (some ts) now =
      if any (λ k. contains k (j.hour tz ts * 60 + j.minute tz ts)) khung
      then moi_luc
      else record { trong_khung = false; khung_ke_tiep = bat_dau_ke_tiep khung tz now }

  unfoldable pub tra : List TimeWindow → String → Ts → TinhTrang
  unfolding bat_dau_ke_tiep
  tra [] tz_ten now = moi_luc
  tra (k ∷ khung) tz_ten now = tra_luc (k ∷ khung) (j.get tz_ten) (j.from_millisecond now) now
