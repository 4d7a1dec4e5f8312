-- ===== src/Booking/Reservations/Create.antt =====
-- services/booking/reservations.py, `create` and `_allocate`; apps/booking/models.py,
-- `Reservation.save` and `_unique_code`.
--
-- `short_code(8)` is random: the argument `codes` gives the text of each attempt.
use fab_ai_smart_hotel_manag.Prelude.{
  ℕ, zero, suc, ◌+◌, ◌*◌, Bool, true, false, not, ◌&&◌, Option, none, some, List, [], ◌∷◌, ◌++◌,
  ltb, leb, ◌==◌, find?, any, take, length, get_elem?, if◌then◌else◌,
}
use fab_ai_smart_hotel_manag.Prelude.Int.{ℤ, pos}
use fab_ai_smart_hotel_manag.Prelude.Exec.{
  Result, ok, err, Unit₀, ◌>>=◌, ◌>>◌, pure, raise_if, gets, modify, atomic,
}
use fab_ai_smart_hotel_manag.Money.{money_div}
use fab_ai_smart_hotel_manag.Rooms.{Room, RoomType, RatePlan}
use fab_ai_smart_hotel_manag.Rooms.Weekdays.{Text}
use fab_ai_smart_hotel_manag.Pricing.{Hotel, Quote, QuoteError, quote, average_nightly}
use fab_ai_smart_hotel_manag.Billing.Folio.{open_folio, same_text}
use fab_ai_smart_hotel_manag.Booking.Models.{
  Reservation, ReservationStatus, Allocation, BookingSource, Guest,
}
use fab_ai_smart_hotel_manag.Booking.Availability.{available_rooms}
use fab_ai_smart_hotel_manag.Booking.Inventory.{write_allocations}
use fab_ai_smart_hotel_manag.Database.{
  Db, Error, Act, conflict, validation, value_error, runtime_error, AuditAction, audit,
}

-- The keyword arguments of `create`.
pub record Booking : Type 0 where
  pub hotel : Hotel
  pub guest : Guest
  pub check_in : ℕ
  pub check_out : ℕ
  pub room_type : RoomType
  pub rooms : ℕ
  pub adults : ℕ
  pub children : ℕ
  pub rate_plan : Option RatePlan
  pub source : BookingSource
  pub assign_rooms : Bool
  pub allow_past : Bool

abbrev default_plan : ℕ → Db → Option RatePlan
default_plan hotel db =
    find? (λ (p : RatePlan). p.tenant == hotel && p.is_default && not p.is_deleted) db.rate_plans

-- `if rate_plan is None: ...`
abbrev pub plan_or_default : Option RatePlan → ℕ → Db → Option RatePlan
plan_or_default (some plan) hotel db = some plan
plan_or_default none hotel db = default_plan hotel db

abbrev pub lift_quote : Result QuoteError Quote → Act Quote
lift_quote (ok q) db = (ok q, db)
lift_quote (err _) db = (err value_error, db)

abbrev pub lift_rooms : Result Error (List Room) → Act (List Room)
lift_rooms r db = (r, db)

-- `_unique_code()`: the first of the attempts left that no reservation of the hotel has
unfoldable pub unique_code : ℕ → ℕ → (ℕ → Text) → ℕ → Db → Option Text
unique_code zero attempt codes hotel db = none
unique_code (suc left) attempt codes hotel db =
    let rest = unique_code left (attempt + 1) codes hotel db in
    if any (λ (r : Reservation). r.tenant == hotel && same_text r.code (codes attempt))
      db.reservations
    then rest
    else some (codes attempt)

abbrev pub new_reservation : Booking → Option RatePlan → Quote → Text → ℕ → Reservation
new_reservation b plan estimate code pk = record {
  pk = pk;
  tenant = b.hotel.pk;
  is_deleted = false;
  code = code;
  guest = b.guest.pk;
  status = ReservationStatus.confirmed;
  source = b.source;
  check_in = b.check_in;
  check_out = b.check_out;
  adults = b.adults;
  children = b.children;
  rate_plan = elim plan [ some p ↦ some p.pk | none ↦ none ];
  room_total = estimate.room_total;
  service_total = estimate.service_amount;
  tax_total = estimate.tax_amount;
  grand_total = estimate.grand_total;
  checked_in_at = none;
  checked_out_at = none;
  cancelled_at = none;
}

abbrev pub insert_coded : (Text → ℕ → Reservation) → Option Text → Act Reservation
insert_coded row none db = (err runtime_error, db)
insert_coded row (some code) db =
    let r = row code db.next_pk in
    (ok r, record db { reservations = db.reservations ++ r ∷ []; next_pk = suc db.next_pk })

-- `Reservation.objects.create(...)`
unfoldable pub insert_reservation : (Text → ℕ → Reservation) → ℕ → (ℕ → Text) → Act Reservation
unfolding unique_code
insert_reservation row hotel codes db = insert_coded row (unique_code 10 0 codes hotel db) db

abbrev pub new_allocation : Booking → Reservation → Option Room → ℤ → ℤ → ℕ → Allocation
new_allocation b reservation room rate subtotal pk = record {
  pk = pk;
  tenant = reservation.tenant;
  is_deleted = false;
  reservation = reservation.pk;
  room_type = b.room_type.pk;
  room = elim room [ some r ↦ some r.pk | none ↦ none ];
  lower = b.check_in;
  upper = b.check_out;
  blocks_inventory = true;
  adults = b.adults;
  children = b.children;
  rate_snapshot = rate;
  subtotal = subtotal;
}

-- `_allocate(...)`; the row takes a key.
unfoldable pub allocate : (ℕ → Allocation) → Act Unit₀
unfolding write_allocations
allocate row = do
  rows ← gets (λ (db : Db). db.allocations ++ row db.next_pk ∷ [])
  write_allocations rows
  modify (λ (db : Db). record db { next_pk = suc db.next_pk })

abbrev pub room_at : Bool → List Room → ℕ → Option Room
room_at true free index = get_elem? free index
room_at false free index = none

-- `for index in range(rooms)`, on the number of rooms left
unfoldable pub allocate_rooms :
    (Option Room → ℕ → Allocation) → Bool → List Room → ℕ → ℕ → Act Unit₀
unfolding allocate
allocate_rooms row assign free zero index = pure tt
allocate_rooms row assign free (suc left) index =
    allocate (row (room_at assign free index)) >> allocate_rooms row assign free left (index + 1)

abbrev pub per_room : Quote → ℕ → ℤ
per_room estimate rooms = if rooms == 0 then pos 0 else money_div estimate.room_total rooms

-- The rooms, the folio and the audit row of a reservation that has been written.
unfoldable pub hold_rooms : Booking → List Room → Quote → Reservation → Act Reservation
unfolding allocate_rooms
hold_rooms b free estimate reservation = do
  allocate_rooms
      (λ room.
        new_allocation b reservation room (average_nightly estimate) (per_room estimate b.rooms))
      b.assign_rooms free b.rooms 0
  open_folio reservation
  audit AuditAction.create reservation.pk
  pure reservation

-- The rest of `create`, when the stay is priced and the rooms are found.
unfoldable pub write_booking :
    Booking → (ℕ → Text) → Option RatePlan → List Room → Quote → Act Reservation
unfolding insert_reservation hold_rooms
write_booking b codes plan free estimate = do
  reservation ← insert_reservation (new_reservation b plan estimate) b.hotel.pk codes
  hold_rooms b free estimate reservation

-- The price of the stay, and the booking of the rooms.
unfoldable pub price_and_book : Booking → (ℕ → Text) → Option RatePlan → List Room → Act Reservation
unfolding write_booking quote
price_and_book b codes plan free = do
  priced ← gets (λ (db : Db).
      quote db.room_rates b.hotel b.room_type b.check_in b.check_out plan b.adults b.rooms)
  estimate ← lift_quote priced
  write_booking b codes plan free estimate

unfoldable pub create : Booking → (ℕ → Text) → Act Reservation
unfolding price_and_book available_rooms
create b codes = atomic (do
  raise_if (leb b.check_out b.check_in) validation
  today ← gets (λ (db : Db). db.today)
  raise_if (ltb b.check_in today && not b.allow_past) validation
  raise_if b.guest.is_blacklisted conflict
  raise_if (ltb (b.room_type.max_occupancy * b.rooms) (b.adults + b.children)) validation
  plan ← gets (plan_or_default b.rate_plan b.hotel.pk)
  available ← gets (available_rooms b.hotel.pk b.check_in b.check_out (some b.room_type.pk) none)
  rooms ← lift_rooms available
  let free = take b.rooms rooms
  raise_if (b.assign_rooms && ltb (length free) b.rooms) conflict
  price_and_book b codes plan free)
