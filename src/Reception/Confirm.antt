-- ===== src/Reception/Confirm.antt =====
-- services/reception/booking_agent.py, `confirm`: the booking of an agreed draft. The guest is found,
-- or created, as on the site.
pub mod Taking
use fab_ai_smart_hotel_manag.Prelude.{
  sort_by, ℕ, ◌+◌, ◌*◌, ◌-◌, Bool, true, false, not, ◌&&◌, ◌||◌, Option, none, some, List, [], ◌∷◌,
  ◌++◌, ltb, leb, ◌==◌, filter, find?, take, length, is_some, map, if◌then◌else◌,
}
use fab_ai_smart_hotel_manag.Prelude.Int.{ℤ, pos, negsuc}
use fab_ai_smart_hotel_manag.Prelude.Exec.{
  Result, ok, err, ◌>>=◌, ◌>>◌, pure, raise, raise_if, or_raise,
}
use fab_ai_smart_hotel_manag.Rooms.{Room, RoomType, RoomRate}
use fab_ai_smart_hotel_manag.Rooms.Weekdays.{Text, is_digit, strip}
use fab_ai_smart_hotel_manag.Pricing.{Hotel, Quote, QuoteError, quote, average_nightly}
use fab_ai_smart_hotel_manag.Billing.Folio.{same_text, is_empty}
use fab_ai_smart_hotel_manag.Booking.Models.{Reservation, BookingSource, Guest}
use fab_ai_smart_hotel_manag.Booking.Availability.{
  TypeAvailability, available_rooms, by_type, type_before,
}
use fab_ai_smart_hotel_manag.Booking.Online.{
  max_nights, max_advance_days, max_rooms, clamp, upper, latin, guest_for,
}
use fab_ai_smart_hotel_manag.Booking.Reservations.Create.{Booking, create}
use fab_ai_smart_hotel_manag.Database.{Db, Error, Act, validation, overflow_error, max_date}
use fab_ai_smart_hotel_manag.Reception.Models.{Channel, kiosk, web, website, pwa, whatsapp, phone}
use fab_ai_smart_hotel_manag.Reception.Agent.{
  Issue, Booked, blank, Values, Raw, Drafted, as_pos, at_least, rooms_kept, date_kept, in_range,
  nights_kept, text_of, said_text, said_int, said_date, digits_only, plus_of, kept_phone,
  free_rooms_of, Settled, settle_offer, settle_room, repriced, has_nights, is_complete, no_issues,
  merged, finalize,
}
use fab_ai_smart_hotel_manag.Reception.Offers.{
  RoomOffer, priced_offer, at_least_one, start_of, offers_of, room_snapshot, by_code, offered_type,
  count_or_zero, free_of_type, free_count, total_of, requoted, repricing,
}

-- `_source_for(conversation)`
abbrev pub source_for : Channel → BookingSource
source_for kiosk = BookingSource.kiosk
source_for website = BookingSource.website
source_for pwa = BookingSource.website
source_for phone = BookingSource.phone
source_for web = BookingSource.walk_in
source_for whatsapp = BookingSource.walk_in

abbrev pub agreed_booking : Hotel → Booked → ℕ → ℕ → RoomType → BookingSource → Guest → Booking
agreed_booking hotel b check_in nights t source guest = record {
  hotel = hotel;
  guest = guest;
  check_in = check_in;
  check_out = check_in + nights;
  room_type = t;
  rooms = at_least_one b.rooms;
  adults = at_least_one b.adults;
  children = b.children;
  rate_plan = none;
  source = source;
  assign_rooms = true;
  allow_past = false;
}

abbrev pub type_of_code : ℕ → Text → Db → Option RoomType
type_of_code hotel code db =
    find?
      (λ (t : RoomType).
        t.tenant == hotel && same_text (upper t.code) (upper code) && not t.is_deleted)
      (sort_by type_before db.room_types)

-- `conversation.booking_draft = {}`
abbrev pub emptied : Reservation → Reservation × Booked
emptied reservation = (reservation, blank)

-- The guest, the date of departure, the reservation, and the draft emptied.
unfoldable pub confirm_for :
    Hotel
    → Booked
    → Text
    → ℕ
    → ℕ
    → BookingSource
    → (ℕ → Text)
    → RoomType
    → Act (Reservation × Booked)
unfolding guest_for create
confirm_for hotel b number check_in nights source codes t = do
  guest ← guest_for hotel.pk number
  raise_if (ltb max_date (check_in + nights)) overflow_error
  reservation ← create (agreed_booking hotel b check_in nights t source guest) codes
  pure (emptied reservation)

-- With a date of arrival and a number of nights
unfoldable pub confirm_dated :
    Hotel → Booked → ℕ → ℕ → BookingSource → (ℕ → Text) → Act (Reservation × Booked)
unfolding confirm_for
confirm_dated hotel b check_in nights source codes db =
    let code = strip b.room_code in
    let number = kept_phone b.guest_phone in
    (raise_if (nights == 0 || is_empty code || is_empty (strip b.guest_name) || is_empty number)
          validation
        >>= λ _.
            or_raise (type_of_code hotel.pk code db) validation
            >>= confirm_for hotel b number check_in nights source codes)
      db

abbrev pub confirm_stay :
    Option ℕ → Option ℕ → Hotel → Booked → BookingSource → (ℕ → Text) → Act (Reservation × Booked)
confirm_stay (some check_in) (some nights) hotel b source codes =
    confirm_dated hotel b check_in nights source codes
confirm_stay (some _) none hotel b source codes = raise validation
confirm_stay none nights hotel b source codes = raise validation

-- `confirm(conversation)`, for the conversation's hotel, draft and channel
unfoldable pub confirm : Option Hotel → Booked → Channel → (ℕ → Text) → Act (Reservation × Booked)
confirm none b channel codes = raise validation
confirm (some hotel) b channel codes =
    confirm_stay b.check_in b.nights hotel b (source_for channel) codes
