-- ===== src/Examples/Groups.antt =====
-- A group booking at the small hotel of the parent: two rooms of one type, none assigned yet.
use fab_ai_smart_hotel_manag.Prelude.{◌≡◌, refl, some, [], ◌∷◌}
use fab_ai_smart_hotel_manag.Prelude.Exec.{ok, err, for_each}
use fab_ai_smart_hotel_manag.Booking.Inventory.{assign_room, double_booked}
use fab_ai_smart_hotel_manag.Booking.Availability.{available_rooms}
use fab_ai_smart_hotel_manag.Booking.Reservations.{check_in}
use fab_ai_smart_hotel_manag.Database.{Db, conflict}
use fab_ai_smart_hotel_manag.Examples.{small_hotel, to_assign, room_102}

abbrev group_hotel : Db
group_hotel = record small_hotel {
  rooms = room_102 ∷ record room_102 { pk = 16; number = 103 } ∷ [];
  allocations = to_assign ∷ record to_assign { pk = 17 } ∷ [];
}

-- Both rooms are free for the stay.
both_free :
    available_rooms 1 101 102 (some 2) (some 5) group_hotel
    ≡ ok (room_102 ∷ record room_102 { pk = 16; number = 103 } ∷ [])
unfolding available_rooms
both_free = refl

-- The arrival is refused all the same: the second search offers the first room again.
group_refused : check_in 5 group_hotel ≡ (err conflict, group_hotel)
unfolding check_in for_each assign_room double_booked
group_refused = refl
