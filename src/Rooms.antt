-- ===== src/Rooms.antt =====
-- apps/rooms/models.py: room types, rooms, rate plans and dated rates.
--
-- A date is its proleptic ordinal (`date.toordinal()`), a number. A row's key, and a text that is
-- only compared (a room's number, a type's name, in the collation of the database), is a number
-- too. Texts that are only shown, photographs and amenities are left out.
pub mod Weekdays
use fab_ai_smart_hotel_manag.Prelude.{
  ℕ, ◌+◌, ◌%◌, Bool, true, false, not, ◌&&◌, List, [], ◌∷◌, leb, ◌==◌, any, if◌then◌else◌,
}
use fab_ai_smart_hotel_manag.Prelude.Int.{ℤ}
use Weekdays.{Text, allowed_days}

pub data RoomStatus : Type 0 where
  vacant_clean vacant_dirty occupied out_of_order out_of_service : RoomStatus

pub record RoomType : Type 0 where
  pub pk : ℕ
  pub tenant : ℕ
  pub is_deleted : Bool
  pub is_active : Bool
  pub code : Text
  pub name : ℕ
  pub base_occupancy : ℕ
  pub max_occupancy : ℕ
  pub base_rate : ℤ  -- hundredths
  pub extra_person_rate : ℤ  -- hundredths
  pub sort_order : ℕ

pub record Room : Type 0 where
  pub pk : ℕ
  pub tenant : ℕ
  pub is_deleted : Bool
  pub is_active : Bool
  pub number : ℕ
  pub room_type : ℕ
  pub floor : ℤ
  pub status : RoomStatus
  pub status_changed_at : ℕ

-- One row of the status history.
pub record RoomStatusLog : Type 0 where
  pub pk : ℕ
  pub tenant : ℕ
  pub room : ℕ
  pub from_status : RoomStatus
  pub to_status : RoomStatus

pub record RatePlan : Type 0 where
  pub pk : ℕ
  pub tenant : ℕ
  pub is_deleted : Bool
  pub is_default : Bool
  pub discount_percent : ℤ  -- hundredths of a percent

pub record RoomRate : Type 0 where
  pub pk : ℕ
  pub is_deleted : Bool
  pub room_type : ℕ
  pub rate_plan : ℕ
  pub valid_from : ℕ
  pub valid_to : ℕ
  pub price : ℤ  -- hundredths
  pub priority : ℕ
  pub weekdays : Text

-- The statuses of `services.booking.availability.UNSELLABLE`, which `Room.is_sellable` repeats.
abbrev pub is_unsellable : RoomStatus → Bool
is_unsellable out_of_order = true
is_unsellable out_of_service = true
is_unsellable _ = false

-- `Room.is_sellable`
abbrev pub is_sellable : Room → Bool
is_sellable r = r.is_active && not (is_unsellable r.status)

-- `date.weekday()`, Monday is 0. The ordinal 1 is a Monday.
abbrev pub weekday : ℕ → ℕ
weekday day = (day + 6) % 7

-- `RoomRate.applies_on`
unfoldable pub applies_on : RoomRate → ℕ → Bool
unfolding allowed_days
applies_on r day =
    if not (leb r.valid_from day && leb day r.valid_to) then false else elim r.weekdays [
      | [] ↦ true
      | c ∷ cs ↦ any (λ d. d == weekday day) (allowed_days (c ∷ cs))
    ]
