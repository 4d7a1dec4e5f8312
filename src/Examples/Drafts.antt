-- ===== src/Examples/Drafts.antt =====
-- The theorems on the assistant's bookings at the small hotel of the parent.
use fab_ai_smart_hotel_manag.Prelude.{◌≡◌, refl, some, true, [], ◌∷◌, arith}
use fab_ai_smart_hotel_manag.Prelude.Int.{pos}
use fab_ai_smart_hotel_manag.Rooms.Weekdays.{Text}
use fab_ai_smart_hotel_manag.Billing.Folio.{is_empty}
use fab_ai_smart_hotel_manag.Booking.Availability.{available_rooms}
use fab_ai_smart_hotel_manag.Reception.Offers.{RoomOffer, by_code, free_count}
use fab_ai_smart_hotel_manag.Reception.Offers.Listed.{Listed}
use fab_ai_smart_hotel_manag.Reception.Agent.{
  Values, Raw, Booked, blank, settle_room, merged, drafted, finalize,
}
use fab_ai_smart_hotel_manag.Reception.Agent.Ready.{Agreed, finalize-Agreed}
use fab_ai_smart_hotel_manag.Reception.Agent.Unsaid.{SameStay, finalize-unsaid}
use fab_ai_smart_hotel_manag.Examples.{small_hotel}
use fab_ai_smart_hotel_manag.Examples.Stays.{seaside}
use fab_ai_smart_hotel_manag.Examples.Online.{read_day, read_number, caller}

-- JSON whose values are texts; the empty one is `None`.
abbrev texts : Values Text
texts = record { is_unsaid = is_empty; is_false = is_empty; str = λ t. t; int = read_number }

abbrev deluxe_offer : RoomOffer
deluxe_offer = record {
  code = b'd' ∷ [];
  max_occupancy = 3;
  available = 2;
  total_price = pos 800000;
  nightly = pos 800000;
  room_type_id = 2;
}

-- "D from day 103 for 2 nights, for Ann"; "yes"
abbrev agreeing : Raw Text
agreeing = record {
  check_in = b'1' ∷ b'0' ∷ b'3' ∷ [];
  nights = b'2' ∷ [];
  room_code = b'D' ∷ [];
  rooms = [];
  adults = b'2' ∷ [];
  children = [];
  guest_name = b'A' ∷ b'n' ∷ b'n' ∷ [];
  guest_phone = caller;
  reply = [];
  needs_more_info = [];
  ready_to_confirm = b'y' ∷ [];
  cancelled = [];
}

agreeing_ready :
    (finalize texts read_day agreeing seaside
      (deluxe_offer ∷ [])
      blank
      small_hotel).ready_to_confirm
    ≡ true
unfolding finalize drafted merged settle_room by_code free_count available_rooms
agreeing_ready = refl

finalize-Agreed_example :
    let d = finalize texts read_day agreeing seaside (deluxe_offer ∷ []) blank small_hotel in
    (d.issues ≡ []) × Agreed 1 (deluxe_offer ∷ []) d.booking small_hotel
finalize-Agreed_example =
    finalize-Agreed texts read_day agreeing seaside (deluxe_offer ∷ []) blank small_hotel
      agreeing_ready

abbrev agreed : Booked
agreed = record {
  check_in = some 103;
  nights = some 2;
  room_code = b'D' ∷ [];
  rooms = 1;
  adults = 2;
  children = 0;
  guest_name = [];
  guest_phone = [];
}

agreed-Agreed : Agreed 1 (deluxe_offer ∷ []) agreed small_hotel
unfolding by_code free_count available_rooms
agreed-Agreed = (
  ((omega arith, omega arith), (omega arith, omega arith)),
  (omega arith, omega arith),
  (omega arith, omega arith),
)

-- "Ann"
abbrev naming : Raw Text
naming = record agreeing { check_in = []; nights = []; room_code = []; adults = [] }

finalize-unsaid_example :
    let d = finalize texts read_day naming seaside (deluxe_offer ∷ []) agreed small_hotel in
    SameStay d.booking agreed × (d.issues ≡ [])
finalize-unsaid_example =
    finalize-unsaid texts read_day naming seaside (deluxe_offer ∷ []) agreed small_hotel
      agreed-Agreed (omega arith)
      (record {
        check_in = refl;
        nights = refl;
        room_code = refl;
        rooms = refl;
        adults = refl;
        children = refl;
      })

abbrev named : Booked
named = record agreed { guest_name = b'A' ∷ []; guest_phone = caller }
