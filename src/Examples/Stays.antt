-- ===== src/Examples/Stays.antt =====
-- The theorems on stays at the small hotel of the parent.
use fab_ai_smart_hotel_manag.Prelude.{
  some, none, ◌≡◌, ℕ, refl, true, false, none, [], ◌∷◌, ◌++◌, not, arith,
}
use fab_ai_smart_hotel_manag.Booking.Models.{BookingSource, Allocation, can_check_in}
use fab_ai_smart_hotel_manag.Rooms.Weekdays.{Text}
use fab_ai_smart_hotel_manag.Booking.Inventory.{double_booked, write_allocations}
use fab_ai_smart_hotel_manag.Booking.Reservations.{
  check_in, check_out, cancel, mark_no_show, not_cancellable,
}
use fab_ai_smart_hotel_manag.Booking.Reservations.Create.{Booking, create}
use fab_ai_smart_hotel_manag.Booking.Reservations.Status.{IsSound}
use fab_ai_smart_hotel_manag.Booking.Reservations.Creating.{IsFresh, create-IsSound}
use fab_ai_smart_hotel_manag.Booking.Reservations.Arriving.{check_in-IsSound}
use fab_ai_smart_hotel_manag.Booking.Reservations.Ending.{check_out-IsSound}
use fab_ai_smart_hotel_manag.Booking.Reservations.Freeing.{Freed, cancel-Freed, mark_no_show-Freed}
use fab_ai_smart_hotel_manag.Booking.Reservations.Diagram.Lives.{
  Became, begun, checks_out, calls_off, misses, Lived-Became,
}
use fab_ai_smart_hotel_manag.Booking.Bookable.{available_rooms_bookable}
use fab_ai_smart_hotel_manag.Booking.Availability.{available_rooms}
use fab_ai_smart_hotel_manag.Prelude.Exec.{ok}
use fab_ai_smart_hotel_manag.Pricing.{Hotel}
use fab_ai_smart_hotel_manag.Prelude.Int.{pos}
use fab_ai_smart_hotel_manag.Examples.{small_hotel, deluxe, visitor, assigned, room_102}
use fab_ai_smart_hotel_manag.Booking.Reservations.Days.{
  opens, lets_in, lets_out, releases, Worked-IsSound,
}

pub small_hotel-IsSound : IsSound small_hotel
unfolding double_booked
small_hotel-IsSound = record {
  flags_agree = (((λ _. refl), ((λ _. refl), tt)), (((λ _. refl), ((λ _. refl), tt)), tt));
  booked_once = refl;
  keyed = ((refl, tt), (tt, tt));
}

pub small_hotel-IsFresh : IsFresh small_hotel
small_hotel-IsFresh = ((omega arith, (omega arith, tt)), (omega arith, (omega arith, tt)))

abbrev pub seaside : Hotel
seaside = record { pk = 1; tax_rate = pos 1500; service_charge_rate = pos 1000 }

abbrev weekend_stay : Booking
weekend_stay = record {
  hotel = seaside;
  guest = visitor;
  check_in = 103;
  check_out = 105;
  room_type = deluxe;
  rooms = 2;
  adults = 3;
  children = 1;
  rate_plan = none;
  source = BookingSource.website;
  assign_rooms = true;
  allow_past = false;
}

abbrev pub numbered_code : ℕ → Text
numbered_code attempt = attempt ∷ []

create-IsSound_example : IsSound (create weekend_stay numbered_code small_hotel).1
create-IsSound_example =
    create-IsSound weekend_stay numbered_code small_hotel small_hotel-IsSound small_hotel-IsFresh

check_in-IsSound_example : IsSound (check_in 5 small_hotel).1
check_in-IsSound_example = check_in-IsSound 5 small_hotel small_hotel-IsSound

check_out-IsSound_example : IsSound (check_out 8 true small_hotel).1
check_out-IsSound_example = check_out-IsSound 8 true small_hotel small_hotel-IsSound

Worked-IsSound_example : IsSound (check_out 8 true (cancel 5 (check_in 5 small_hotel).1).1).1
Worked-IsSound_example =
    Worked-IsSound {db = small_hotel} (lets_out 8 true (releases 5 (lets_in 5 opens)))
      small_hotel-IsSound

cancel-Freed_example : Freed 5 not_cancellable small_hotel (cancel 5 small_hotel)
cancel-Freed_example = cancel-Freed 5 small_hotel

mark_no_show-Freed_example :
    Freed 5 (λ s. not (can_check_in s)) small_hotel (mark_no_show 5 small_hotel)
mark_no_show-Freed_example = mark_no_show-Freed 5 small_hotel

abbrev next_guest : Allocation
next_guest = record assigned { pk = 20; reservation = 5; room = some 13; lower = 101; upper = 102 }

free_at_101 : available_rooms 1 101 102 (some 2) none small_hotel ≡ ok (room_102 ∷ [])
unfolding available_rooms
free_at_101 = refl

small_hotel_once : double_booked small_hotel.allocations ≡ false
unfolding double_booked
small_hotel_once = refl

available_rooms_bookable_example :
    write_allocations (small_hotel.allocations ++ next_guest ∷ []) small_hotel
    ≡ (ok tt, record small_hotel { allocations = small_hotel.allocations ++ next_guest ∷ [] })
available_rooms_bookable_example =
    available_rooms_bookable 1 (some 2) small_hotel next_guest (room_102 ∷ []) 0 {room = room_102}
      small_hotel_once free_at_101 refl refl ((λ _. refl), ((λ _. refl), tt))

Lived-Became_example :
    Became small_hotel.reservations
      (check_out 8 true (cancel 5 (mark_no_show 5 small_hotel).1).1).1.reservations
Lived-Became_example =
    Lived-Became {db = small_hotel} (checks_out 8 true (calls_off 5 (misses 5 begun)))
      small_hotel-IsSound.keyed
