-- ===== src/Examples.antt =====
-- A small hotel, and the theorems at it: one stay in the house with an open folio, one to arrive.
mod Stays
mod Bills
mod Online
mod Drafts
mod Groups
mod Gateway
mod Assistant
use fab_ai_smart_hotel_manag.Prelude.{
  ℕ, ◌≡◌, ◌≤◌, ◌<◌, refl, true, false, none, some, List, [], ◌∷◌, arith, find?, any, take, length,
}
use fab_ai_smart_hotel_manag.Prelude.Int.{ℤ, pos, negsuc, ◌+ℤ◌, ◌-ℤ◌, leb_ℤ}
use fab_ai_smart_hotel_manag.Prelude.Exec.{ok, err}
use fab_ai_smart_hotel_manag.Money.{Decimal, of_cents, money}
use fab_ai_smart_hotel_manag.Rooms.{Room, RoomType, RoomStatus, RatePlan, RoomRate}
use fab_ai_smart_hotel_manag.Rooms.Weekdays.{Text}
use fab_ai_smart_hotel_manag.Pricing.{Hotel, quote, nightly_rate}
use fab_ai_smart_hotel_manag.Billing.Models.{
  Folio, FolioLine, FolioStatus, ChargeType, Payment, PaymentMethod, PaymentStatus,
}
use fab_ai_smart_hotel_manag.Billing.Folio.{Charge}
use fab_ai_smart_hotel_manag.Booking.Models.{
  Reservation, ReservationStatus, BookingSource, Allocation, Guest,
}
use fab_ai_smart_hotel_manag.Booking.Inventory.{double_booked}
use fab_ai_smart_hotel_manag.Booking.Reservations.Create.{Booking}
use fab_ai_smart_hotel_manag.Booking.Reservations.Status.{IsSound}
use fab_ai_smart_hotel_manag.Database.{Db}

abbrev pub deluxe : RoomType
deluxe = record {
  pk = 2;
  tenant = 1;
  is_deleted = false;
  is_active = true;
  code = b'D' ∷ [];
  name = 1;
  base_occupancy = 2;
  max_occupancy = 3;
  base_rate = pos 800000;
  extra_person_rate = pos 100000;
  sort_order = 0;
}

abbrev pub room_101 : Room
room_101 = record {
  pk = 3;
  tenant = 1;
  is_deleted = false;
  is_active = true;
  number = 101;
  room_type = 2;
  floor = pos 1;
  status = RoomStatus.occupied;
  status_changed_at = 0;
}

abbrev pub room_102 : Room
room_102 = record room_101 { pk = 13; number = 102; status = RoomStatus.vacant_clean }

abbrev pub visitor : Guest
visitor = record {
  pk = 4;
  tenant = 1;
  is_deleted = false;
  is_blacklisted = false;
  phone = [];
  total_stays = 0;
  total_spend = pos 0;
  last_stay_at = none;
}

abbrev pub arriving : Reservation
arriving = record {
  pk = 5;
  tenant = 1;
  is_deleted = false;
  code = b'A' ∷ [];
  guest = 4;
  status = ReservationStatus.confirmed;
  source = BookingSource.phone;
  check_in = 101;
  check_out = 102;
  adults = 2;
  children = 0;
  rate_plan = none;
  room_total = pos 800000;
  service_total = pos 0;
  tax_total = pos 0;
  grand_total = pos 800000;
  checked_in_at = none;
  checked_out_at = none;
  cancelled_at = none;
}

abbrev pub staying : Reservation
staying = record arriving {
  pk = 8;
  code = b'B' ∷ [];
  status = ReservationStatus.checked_in;
  check_in = 100;
  check_out = 103;
  checked_in_at = some 1;
}

abbrev pub to_assign : Allocation
to_assign = record {
  pk = 6;
  tenant = 1;
  is_deleted = false;
  reservation = 5;
  room_type = 2;
  room = none;
  lower = 101;
  upper = 102;
  blocks_inventory = true;
  adults = 2;
  children = 0;
  rate_snapshot = pos 800000;
  subtotal = pos 800000;
}

abbrev pub assigned : Allocation
assigned = record to_assign { pk = 9; reservation = 8; room = some 3; lower = 100; upper = 103 }

abbrev pub open_stay : Folio
open_stay = record {
  pk = 10;
  tenant = 1;
  is_deleted = false;
  reservation = 8;
  guest = 4;
  status = FolioStatus.opened;
  charges_total = pos 12000;
  payments_total = pos 2000;
  balance = pos 10000;
  settled_at = none;
}

abbrev pub dinner : FolioLine
dinner = record {
  pk = 11;
  tenant = 1;
  is_deleted = false;
  folio = 10;
  charge_type = ChargeType.restaurant;
  business_date = 100;
  quantity = pos 1;
  unit_price = pos 12000;
  amount = pos 12000;
  source_ref = none;
  is_voided = false;
  voided_by_line = none;
  ai_suggested = false;
}

abbrev pub deposit : Payment
deposit = record {
  pk = 12;
  tenant = 1;
  is_deleted = false;
  folio = 10;
  method = PaymentMethod.cash;
  status = PaymentStatus.captured;
  amount = pos 2000;
  idempotency_key = b'k' ∷ [];
}

abbrev pub weekend : RoomRate
weekend = record {
  pk = 15;
  is_deleted = false;
  room_type = 2;
  rate_plan = 14;
  valid_from = 100;
  valid_to = 103;
  price = pos 950000;
  priority = 1;
  weekdays = [];
}

abbrev pub small_hotel : Db
small_hotel = record {
  now = 5;
  today = 100;
  year = 2026;
  next_pk = 20;
  room_types = deluxe ∷ [];
  rooms = room_101 ∷ room_102 ∷ [];
  status_logs = [];
  rate_plans = [];
  room_rates = weekend ∷ [];
  guests = visitor ∷ [];
  reservations = arriving ∷ staying ∷ [];
  allocations = to_assign ∷ assigned ∷ [];
  events = [];
  folios = open_stay ∷ [];
  lines = dinner ∷ [];
  payments = deposit ∷ [];
  invoices = [];
  business_dates = [];
  audits = [];
}
