-- ===== src/Booking/Reservations/Days.antt =====
-- services/booking/reservations.py: the inventory across many calls.
use fab_ai_smart_hotel_manag.Prelude.{ℕ, Bool}
use fab_ai_smart_hotel_manag.Booking.Reservations.{check_in, check_out, cancel, mark_no_show}
use fab_ai_smart_hotel_manag.Booking.Reservations.Status.{IsSound}
use fab_ai_smart_hotel_manag.Booking.Reservations.Arriving.{check_in-IsSound}
use fab_ai_smart_hotel_manag.Booking.Reservations.Ending.{
  check_out-IsSound, cancel-IsSound, mark_no_show-IsSound,
}
use fab_ai_smart_hotel_manag.Database.{Db}

-- What the desk does with the reservations that there are, done or refused.
pub data Worked : Db → Db → Type 0 where
  opens : {db : Db} → Worked db db
  lets_in : {db db' : Db} (pk : ℕ) → Worked db db' → Worked db (check_in pk db').1
  lets_out :
      {db db' : Db} (pk : ℕ) (force : Bool) → Worked db db' → Worked db (check_out pk force db').1
  releases : {db db' : Db} (pk : ℕ) → Worked db db' → Worked db (cancel pk db').1
  gives_up : {db db' : Db} (pk : ℕ) → Worked db db' → Worked db (mark_no_show pk db').1

-- However check-ins, check-outs, cancellations and no-shows follow each other, done or refused, the
-- inventory stays in agreement with the reservations, and no room is booked twice, where that is so
-- at the start.
pub Worked-IsSound : {db db' : Db} → Worked db db' → IsSound db → IsSound db'
Worked-IsSound opens h = h
Worked-IsSound (lets_in {db' = d} pk run) h = check_in-IsSound pk d (Worked-IsSound run h)
Worked-IsSound (lets_out {db' = d} pk force run) h =
    check_out-IsSound pk force d (Worked-IsSound run h)
Worked-IsSound (releases {db' = d} pk run) h = cancel-IsSound pk d (Worked-IsSound run h)
Worked-IsSound (gives_up {db' = d} pk run) h = mark_no_show-IsSound pk d (Worked-IsSound run h)
