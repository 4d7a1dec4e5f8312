-- ===== src/Examples/Online.antt =====
-- The theorems on the site's bookings at the small hotel of the parent.
use fab_ai_smart_hotel_manag.Prelude.{ℕ, Option, none, some, [], ◌∷◌, arith}
use fab_ai_smart_hotel_manag.Prelude.Int.{ℤ, pos}
use fab_ai_smart_hotel_manag.Rooms.Weekdays.{Text, int_from}
use fab_ai_smart_hotel_manag.Booking.Online.{Stay, Query, parse_stay, offers, book}
use fab_ai_smart_hotel_manag.Booking.Online.Bounds.{Parsed, parse_stay-Parsed}
use fab_ai_smart_hotel_manag.Booking.Online.Offered.{Served, offers-Served}
use fab_ai_smart_hotel_manag.Booking.Online.Taking.{Taken, book-Taken}
use fab_ai_smart_hotel_manag.Examples.{small_hotel}
use fab_ai_smart_hotel_manag.Examples.Stays.{seaside, numbered_code}

abbrev pub read_day : Text → Option ℕ
read_day [] = none
read_day (c ∷ cs) = some (int_from 0 (c ∷ cs))

abbrev pub read_number : Text → Option ℤ
read_number [] = none
read_number (c ∷ cs) = some (pos (int_from 0 (c ∷ cs)))

abbrev too_long : Query
too_long = record {
  check_in = b'1' ∷ b'0' ∷ b'3' ∷ [];
  nights = b'9' ∷ b'9' ∷ [];
  adults = [];
  children = [];
  rooms = b'2' ∷ [];
}

abbrev two_nights : Stay
two_nights = record { check_in = 103; nights = 2; adults = 3; children = 1; rooms = 2 }

parse_stay-Parsed_example :
    Parsed small_hotel (parse_stay read_day read_number too_long small_hotel)
parse_stay-Parsed_example = parse_stay-Parsed read_day read_number too_long small_hotel

offers-Served_example :
    Served seaside two_nights small_hotel (offers seaside two_nights small_hotel)
offers-Served_example = offers-Served seaside two_nights small_hotel (omega arith)

abbrev pub caller : Text
caller = b'0' ∷ b'1' ∷ b'7' ∷ b'1' ∷ b'2' ∷ b'3' ∷ []

book-Taken_example :
    Taken seaside two_nights
      (b'd' ∷ [])
      (b'A' ∷ b'n' ∷ [])
      caller
      small_hotel
      (book seaside two_nights (b'd' ∷ []) (b'A' ∷ b'n' ∷ []) caller numbered_code small_hotel)
book-Taken_example =
    book-Taken seaside two_nights (b'd' ∷ []) (b'A' ∷ b'n' ∷ []) caller numbered_code small_hotel
