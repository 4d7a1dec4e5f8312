-- ===== src/Booking/Reservations.antt =====
-- services/booking/reservations.py: creating, changing and completing a stay.
pub mod Create
pub mod Status
pub mod Creating
pub mod Arriving
pub mod Ending
pub mod Freeing
pub mod Days
pub mod Made
pub mod Diagram
use fab_ai_smart_hotel_manag.Prelude.{
  ℕ, zero, suc, ◌+◌, Bool, true, false, not, ◌&&◌, Option, none, some, List, [], ◌∷◌, ◌++◌, ltb,
  leb, ◌==◌, filter, find?, sort_by, update_where, is_some, if◌then◌else◌,
}
use fab_ai_smart_hotel_manag.Prelude.Int.{ℤ, pos, ◌+ℤ◌, ltb_ℤ, leb_ℤ}
use fab_ai_smart_hotel_manag.Prelude.Exec.{
  Result, ok, err, Unit₀, ◌>>=◌, ◌>>◌, pure, raise_if, gets, modify, atomic, or_raise, for_each,
}
use fab_ai_smart_hotel_manag.Money.{of_cents, money}
use fab_ai_smart_hotel_manag.Rooms.{Room, RoomStatus}
use fab_ai_smart_hotel_manag.Rooms.Weekdays.{Text}
use fab_ai_smart_hotel_manag.Billing.Models.{Folio, Invoice}
use fab_ai_smart_hotel_manag.Billing.Folio.{open_folio, recalculate}
use fab_ai_smart_hotel_manag.Billing.Invoice.{issue_invoice, mark_settled}
use fab_ai_smart_hotel_manag.Booking.Models.{
  Reservation, ReservationStatus, Allocation, EventKind, Guest, can_check_in, is_in_house,
}
use fab_ai_smart_hotel_manag.Booking.Availability.{available_rooms}
use fab_ai_smart_hotel_manag.Booking.Inventory.{
  of_reservation, release, add_event, set_rooms, assign_room,
}
use fab_ai_smart_hotel_manag.Database.{
  Db, Error, Act, conflict, not_found, AuditAction, get_reservation, get_folio, get_guest,
  update_reservation, update_folio, audit,
}

abbrev first : {A : Type 0} → Result Error (List A) → Option A
first (ok (x ∷ _)) = some x
first _ = none

abbrev pub is_unassigned : ℕ → Allocation → Bool
is_unassigned pk a = of_reservation pk a && not (is_some a.room)

-- The free room that check-in picks for an allocation with none.
unfoldable pub free_room : Reservation → Allocation → Db → Option Room
unfolding available_rooms
free_room r a db =
    first (available_rooms r.tenant r.check_in r.check_out (some a.room_type) (some r.pk) db)

pub assign_free : Reservation → Allocation → Act Unit₀
unfolding free_room
assign_free r a = do
  free ← gets (free_room r a)
  room ← or_raise free conflict
  assign_room r a room

abbrev pub arrived : ℕ → Reservation → Reservation
arrived now r = record r { status = ReservationStatus.checked_in; checked_in_at = some now }

pub begin_stay : ℕ → Act Unit₀
begin_stay pk = do now ← gets (λ (db : Db). db.now); update_reservation pk (arrived now)

-- The rest of `check_in`, when each allocation has its room.
pub write_check_in : Reservation → Act Reservation
unfolding begin_stay
write_check_in reservation = do
  begin_stay reservation.pk
  set_rooms reservation.pk RoomStatus.occupied
  open_folio reservation
  add_event reservation EventKind.check_in none
  audit AuditAction.update reservation.pk
  get_reservation reservation.pk

unfoldable pub check_in : ℕ → Act Reservation
unfolding write_check_in assign_free
check_in pk = atomic (do
  reservation ← get_reservation pk
  raise_if (not (can_check_in reservation.status)) conflict
  unassigned ← gets (λ (db : Db). filter (is_unassigned pk) db.allocations)
  for_each (assign_free reservation) unassigned
  write_check_in reservation)

abbrev pub departed : ℕ → Reservation → Reservation
departed now r = record r { status = ReservationStatus.checked_out; checked_out_at = some now }

abbrev pub stayed : ℕ → ℤ → Guest → Guest
stayed today charges g = record g {
  total_stays = g.total_stays + 1;
  total_spend = money (of_cents (g.total_spend +ℤ charges));
  last_stay_at = some today;
}

-- `if folio.balance <= 0: ...`
pub settle_if_paid : Folio → Act Unit₀
settle_if_paid folio db =
    if leb_ℤ folio.balance (pos 0)
    then update_folio folio.pk (mark_settled db.now) db
    else (ok tt, db)

-- The reservation's status and its inventory, together.
pub end_stay : ℕ → Act Unit₀
unfolding release
end_stay pk = do now ← gets (λ (db : Db). db.now); update_reservation pk (departed now); release pk

-- The guest's history.
pub count_stay : ℕ → ℤ → Act Unit₀
count_stay guest charges = modify λ db. record db {
  guests = update_where (λ (g : Guest). g.pk == guest) (stayed db.today charges) db.guests;
}

-- The rest of `check_out`, when the invoice is issued.
pub write_check_out : Reservation → Folio → Invoice → Act Invoice
unfolding settle_if_paid end_stay count_stay
write_check_out reservation folio invoice = do
  settle_if_paid folio
  end_stay reservation.pk
  set_rooms reservation.pk RoomStatus.vacant_dirty
  count_stay reservation.guest folio.charges_total
  add_event reservation EventKind.check_out none
  audit AuditAction.update reservation.pk
  pure invoice

-- The rest of `check_out`, for a reservation that is in the house.
unfoldable pub leave_house : Bool → Reservation → Act Invoice
unfolding write_check_out
leave_house force reservation = do
  opened ← open_folio reservation
  recalculate opened.pk
  folio ← get_folio opened.pk
  raise_if (ltb_ℤ (pos 0) folio.balance && not force) conflict
  invoice ← issue_invoice folio.pk
  write_check_out reservation folio invoice

unfoldable pub check_out : ℕ → Bool → Act Invoice
unfolding leave_house
check_out pk force = atomic (do
  reservation ← get_reservation pk
  raise_if (not (is_in_house reservation.status)) conflict
  leave_house force reservation)

-- A stay that is over, or in the house, is not cancelled.
abbrev pub not_cancellable : ReservationStatus → Bool
not_cancellable ReservationStatus.checked_out = true
not_cancellable ReservationStatus.cancelled = true
not_cancellable ReservationStatus.checked_in = true
not_cancellable _ = false

abbrev pub called_off : ℕ → Reservation → Reservation
called_off now r = record r { status = ReservationStatus.cancelled; cancelled_at = some now }

unfoldable pub cancel : ℕ → Act Reservation
unfolding release add_event
cancel pk = atomic (do
  reservation ← get_reservation pk
  raise_if (not_cancellable reservation.status) conflict
  now ← gets (λ (db : Db). db.now)
  update_reservation pk (called_off now)
  release pk
  add_event reservation EventKind.cancel none
  audit AuditAction.update pk
  pure (called_off now reservation))

abbrev pub missed : Reservation → Reservation
missed r = record r { status = ReservationStatus.no_show }

unfoldable pub mark_no_show : ℕ → Act Reservation
unfolding release add_event
mark_no_show pk = atomic (do
  reservation ← get_reservation pk
  raise_if (not (can_check_in reservation.status)) conflict
  update_reservation pk missed
  release pk
  add_event reservation EventKind.no_show none
  pure (missed reservation))

-- `arrivals(hotel, on_date)`, by creation
unfoldable pub arrivals : ℕ → ℕ → Db → List Reservation
arrivals hotel day db =
    filter
      (λ (r : Reservation).
        r.tenant == hotel && not r.is_deleted && r.check_in == day && can_check_in r.status)
      db.reservations

-- `departures(hotel, on_date)`, by creation
unfoldable pub departures : ℕ → ℕ → Db → List Reservation
departures hotel day db =
    filter
      (λ (r : Reservation).
        r.tenant == hotel && not r.is_deleted && r.check_out == day && is_in_house r.status)
      db.reservations

-- `in_house(hotel)`, by departure
unfoldable pub in_house : ℕ → Db → List Reservation
in_house hotel db =
    sort_by (λ (a b : Reservation). leb a.check_out b.check_out)
      (filter (λ (r : Reservation). r.tenant == hotel && not r.is_deleted && is_in_house r.status)
        db.reservations)
