-- ===== src/Booking/Models.antt =====
-- apps/booking/models.py and the fields of apps/guests/models.py that a stay reads or writes.
-- Notes, requests, signatures and user keys are left out.
use fab_ai_smart_hotel_manag.Prelude.{ℕ, Bool, true, false, Option, ◌&&◌, ltb}
use fab_ai_smart_hotel_manag.Prelude.Int.{ℤ}
use fab_ai_smart_hotel_manag.Rooms.Weekdays.{Text}

pub data ReservationStatus : Type 0 where
  pending confirmed checked_in checked_out cancelled no_show : ReservationStatus

pub data BookingSource : Type 0 where
  walk_in kiosk phone website ota corporate : BookingSource

pub data EventKind : Type 0 where
  check_in check_out room_move extend cancel no_show : EventKind

pub record Reservation : Type 0 where
  pub pk : ℕ
  pub tenant : ℕ
  pub is_deleted : Bool
  pub code : Text
  pub guest : ℕ
  pub status : ReservationStatus
  pub source : BookingSource
  pub check_in : ℕ
  pub check_out : ℕ
  pub adults : ℕ
  pub children : ℕ
  pub rate_plan : Option ℕ
  pub room_total : ℤ
  pub service_total : ℤ
  pub tax_total : ℤ
  pub grand_total : ℤ
  pub checked_in_at : Option ℕ
  pub checked_out_at : Option ℕ
  pub cancelled_at : Option ℕ

-- `ReservationRoom`; the stay is the range [lower, upper).
pub record Allocation : Type 0 where
  pub pk : ℕ
  pub tenant : ℕ
  pub is_deleted : Bool
  pub reservation : ℕ
  pub room_type : ℕ
  pub room : Option ℕ
  pub lower : ℕ
  pub upper : ℕ
  pub blocks_inventory : Bool
  pub adults : ℕ
  pub children : ℕ
  pub rate_snapshot : ℤ
  pub subtotal : ℤ

pub record StayEvent : Type 0 where
  pub pk : ℕ
  pub tenant : ℕ
  pub reservation : ℕ
  pub kind : EventKind
  pub room : Option ℕ

pub record Guest : Type 0 where
  pub pk : ℕ
  pub tenant : ℕ
  pub is_deleted : Bool
  pub is_blacklisted : Bool
  pub phone : Text
  pub total_stays : ℕ
  pub total_spend : ℤ
  pub last_stay_at : Option ℕ

-- `BLOCKING_STATUSES`, `Reservation.holds_inventory`
abbrev pub holds_inventory : ReservationStatus → Bool
holds_inventory pending = true
holds_inventory confirmed = true
holds_inventory checked_in = true
holds_inventory _ = false

-- `Reservation.can_check_in`
abbrev pub can_check_in : ReservationStatus → Bool
can_check_in pending = true
can_check_in confirmed = true
can_check_in _ = false

-- `Reservation.is_in_house`
abbrev pub is_in_house : ReservationStatus → Bool
is_in_house checked_in = true
is_in_house _ = false

-- Two ranges [l, u) overlap (`&&` of the range types): each begins before the other ends, and
-- neither is empty.
abbrev pub overlaps : ℕ → ℕ → ℕ → ℕ → Bool
overlaps l u l' u' = ltb l u && ltb l' u' && ltb l u' && ltb l' u
