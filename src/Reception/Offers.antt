-- ===== src/Reception/Offers.antt =====
-- services/reception/booking_agent.py: the room types that a turn is offered (`room_snapshot`), and
-- their count and price for the dates of a draft. Texts are read as ASCII.
pub mod Listed
use fab_ai_smart_hotel_manag.Prelude.{
  ltb, ℕ, ◌+◌, not, ◌&&◌, Option, none, some, List, [], ◌∷◌, ◌==◌, find?, length, map,
  if◌then◌else◌,
}
use fab_ai_smart_hotel_manag.Prelude.Int.{ℤ}
use fab_ai_smart_hotel_manag.Prelude.Exec.{Result, ok, err}
use fab_ai_smart_hotel_manag.Rooms.{Room, RoomType}
use fab_ai_smart_hotel_manag.Rooms.Weekdays.{Text}
use fab_ai_smart_hotel_manag.Pricing.{Hotel, Quote, QuoteError, quote, average_nightly}
use fab_ai_smart_hotel_manag.Billing.Folio.{same_text}
use fab_ai_smart_hotel_manag.Booking.Availability.{TypeAvailability, available_rooms, by_type}
use fab_ai_smart_hotel_manag.Booking.Online.{upper}
use fab_ai_smart_hotel_manag.Database.{Db, Error, overflow_error, max_date}

pub record RoomOffer : Type 0 where
  pub code : Text
  pub max_occupancy : ℕ
  pub available : ℕ
  pub total_price : ℤ
  pub nightly : ℤ
  pub room_type_id : ℕ

-- The prices of an offer: those of the quote, or the base rate where there is none.
abbrev pub priced_offer : TypeAvailability → Result QuoteError Quote → RoomOffer
priced_offer row (ok q) = record {
  code = row.room_type.code;
  max_occupancy = row.room_type.max_occupancy;
  available = row.available;
  total_price = q.grand_total;
  nightly = average_nightly q;
  room_type_id = row.room_type.pk;
}
priced_offer row (err _) = record {
  code = row.room_type.code;
  max_occupancy = row.room_type.max_occupancy;
  available = row.available;
  total_price = row.room_type.base_rate;
  nightly = row.room_type.base_rate;
  room_type_id = row.room_type.pk;
}

-- `max(1, n)`
abbrev pub at_least_one : ℕ → ℕ
at_least_one n = if n == 0 then 1 else n

abbrev pub start_of : Option ℕ → Db → ℕ
start_of none db = db.today
start_of (some d) db = d

abbrev pub offers_of :
    Hotel → ℕ → ℕ → ℕ → Db → Result Error (List TypeAvailability) → Result Error (List RoomOffer)
unfolding quote
offers_of hotel start end rooms db (ok rows) = ok (
    map
      (λ (row : TypeAvailability). priced_offer row (
        quote db.room_rates hotel row.room_type start end none row.room_type.base_occupancy
          (at_least_one rooms)))
      rows)
offers_of hotel start end rooms db (err e) = err e

-- `room_snapshot(hotel, check_in, nights, rooms)`
unfoldable pub room_snapshot : Hotel → Option ℕ → ℕ → ℕ → Db → Result Error (List RoomOffer)
unfolding by_type
room_snapshot hotel check_in nights rooms db =
    let start = start_of check_in db in
    let end = start + at_least_one nights in
    if ltb max_date end
    then err overflow_error
    else offers_of hotel start end rooms db (by_type hotel.pk start end 1 db)

-- `{o.code.upper(): o for o in offers}.get(code)`
unfoldable pub by_code : Text → List RoomOffer → Option RoomOffer
by_code code [] = none
by_code code (o ∷ offers) =
    let later = by_code code offers in
    elim later [ some p ↦ some p | none ↦ if same_text (upper o.code) code then some o else none ]

abbrev pub offered_type : RoomOffer → Db → Option RoomType
offered_type o db =
    find? (λ (t : RoomType). t.pk == o.room_type_id && not t.is_deleted) db.room_types

abbrev pub count_or_zero : Result Error (List Room) → ℕ
count_or_zero (ok rooms) = length rooms
count_or_zero (err _) = 0

abbrev pub free_of_type : Option RoomType → ℕ → ℕ → ℕ → Db → ℕ
unfolding available_rooms
free_of_type none hotel check_in nights db = 0
free_of_type (some t) hotel check_in nights db =
    count_or_zero (available_rooms hotel check_in (check_in + nights) (some t.pk) none db)

-- `_free_count(hotel, offer, check_in, nights)`
unfoldable pub free_count : ℕ → RoomOffer → ℕ → ℕ → Db → ℕ
free_count hotel o check_in nights db = free_of_type (offered_type o db) hotel check_in nights db

abbrev pub total_of : Result QuoteError Quote → Option ℤ
total_of (ok q) = some q.grand_total
total_of (err _) = none

abbrev pub requoted : Option RoomType → Hotel → ℕ → ℕ → ℕ → ℕ → Db → Option ℤ
unfolding quote
requoted none hotel check_in nights adults rooms db = none
requoted (some t) hotel check_in nights adults rooms db =
    total_of (quote db.room_rates hotel t check_in (check_in + nights) none adults rooms)

-- `_repricing(hotel, offer, check_in, nights, merged)`
unfoldable pub repricing : Hotel → RoomOffer → ℕ → ℕ → ℕ → ℕ → Db → Option ℤ
repricing hotel o check_in nights adults rooms db =
    requoted (offered_type o db) hotel check_in nights adults rooms db
