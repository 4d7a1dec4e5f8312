-- ===== src/Booking/Online.antt =====
-- services/booking/online.py: the search and the booking of a guest on the hotel's own site.
--
-- `date.fromisoformat` and `int` are arguments. Texts are read as ASCII, but for the Bengali digits
-- of a phone number. Photographs, names, e-mails and requests are not kept; of the guests with
-- one phone number the first row is taken for the first by name.
pub mod Bounds
pub mod Offered
pub mod Taking
use fab_ai_smart_hotel_manag.Prelude.{
  ℕ, suc, ◌+◌, ◌-◌, ◌*◌, Bool, true, false, not, ◌&&◌, ◌||◌, Option, none, some, List, [], ◌∷◌,
  ◌++◌, ltb, leb, ◌==◌, filter, find?, length, map, if◌then◌else◌,
}
use fab_ai_smart_hotel_manag.Prelude.Int.{ℤ, pos, negsuc}
use fab_ai_smart_hotel_manag.Prelude.Exec.{
  Result, ok, err, ◌>>=◌, ◌>>◌, pure, raise, raise_if, gets, or_raise,
}
use fab_ai_smart_hotel_manag.Rooms.{RoomType, RoomRate}
use fab_ai_smart_hotel_manag.Rooms.Weekdays.{Text, is_space, is_digit, strip}
use fab_ai_smart_hotel_manag.Pricing.{Hotel, Quote, QuoteError, quote}
use fab_ai_smart_hotel_manag.Billing.Folio.{same_text, is_empty}
use fab_ai_smart_hotel_manag.Booking.Models.{Reservation, BookingSource, Guest}
use fab_ai_smart_hotel_manag.Booking.Availability.{TypeAvailability, by_type}
use fab_ai_smart_hotel_manag.Booking.Reservations.Create.{Booking, create}
use fab_ai_smart_hotel_manag.Database.{
  Db, Error, Act, validation, value_error, overflow_error, max_date,
}

abbrev pub max_nights : ℕ
max_nights = 30

abbrev pub max_advance_days : ℕ
max_advance_days = 365

abbrev pub max_rooms : ℕ
max_rooms = 5

abbrev pub max_guests : ℕ
max_guests = 12

pub record Stay : Type 0 where
  pub check_in : ℕ
  pub nights : ℕ
  pub adults : ℕ
  pub children : ℕ
  pub rooms : ℕ

-- `Stay.check_out`, where that is a date: `offers` is the first to ask for it, and raises otherwise.
abbrev pub leaves : Stay → ℕ
leaves s = s.check_in + s.nights

-- The query parameters; one that is missing is the empty text.
pub record Query : Type 0 where
  pub check_in : Text
  pub nights : Text
  pub adults : Text
  pub children : Text
  pub rooms : Text

-- `max(low, min(high, value))`
abbrev pub clamp : ℕ → ℕ → ℤ → ℕ
clamp low high (pos n) = if ltb n low then low else if ltb high n then high else n
clamp low high (negsuc n) = low

abbrev pub clamped : ℕ → ℕ → Option ℤ → Act ℕ
clamped low high none = raise validation
clamped low high (some v) = pure (clamp low high v)

-- `number(field, default, low, high)`
unfoldable pub number : (Text → Option ℤ) → Text → ℕ → ℕ → ℕ → Act ℕ
number read_int raw default low high =
    if is_empty (strip raw) then pure default else clamped low high (read_int (strip raw))

abbrev pub arrival : (Text → Option ℕ) → Text → Act ℕ
arrival read_date raw =
    if is_empty raw then gets (λ (db : Db). db.today + 1) else or_raise (read_date raw) validation

-- The stay, for the date of arrival.
unfoldable pub parse_numbers : (Text → Option ℤ) → Query → ℕ → Act Stay
unfolding number
parse_numbers read_int q check_in = do
  nights ← number read_int q.nights 1 1 max_nights
  adults ← number read_int q.adults 2 1 max_guests
  children ← number read_int q.children 0 0 max_guests
  rooms ← number read_int q.rooms 1 1 max_rooms
  pure (record {
    check_in = check_in;
    nights = nights;
    adults = adults;
    children = children;
    rooms = rooms;
  })

-- `parse_stay(data)`
unfoldable pub parse_stay : (Text → Option ℕ) → (Text → Option ℤ) → Query → Act Stay
unfolding parse_numbers
parse_stay read_date read_int q = do
  today ← gets (λ (db : Db). db.today)
  check_in ← arrival read_date (strip q.check_in)
  raise_if (ltb check_in today) validation
  raise_if (ltb (today + max_advance_days) check_in) validation
  parse_numbers read_int q check_in

pub record Offer : Type 0 where
  pub room_type : RoomType
  pub available : ℕ
  pub quote : Quote

-- A room type that can take the stay.
abbrev pub serves : Stay → TypeAvailability → Bool
serves s row =
    leb s.rooms row.available && leb (s.adults + s.children) (row.room_type.max_occupancy * s.rooms)

abbrev pub quote_of : List RoomRate → Hotel → Stay → RoomType → Result QuoteError Quote
quote_of rates hotel s t = quote rates hotel t s.check_in (leaves s) none s.adults s.rooms

abbrev pub and_offer :
    TypeAvailability
    → Result QuoteError Quote
    → Result Error (List Offer)
    → Result Error (List Offer)
and_offer row (ok q) (ok rest) =
    ok (record { room_type = row.room_type; available = row.available; quote = q } ∷ rest)
and_offer row (ok q) (err e) = err e
and_offer row (err _) rest = err value_error

abbrev pub priced : List RoomRate → Hotel → Stay → List TypeAvailability → Result Error (List Offer)
priced rates hotel s [] = ok []
priced rates hotel s (row ∷ rows) =
    and_offer row (quote_of rates hotel s row.room_type) (priced rates hotel s rows)

abbrev pub priced_rows :
    List RoomRate → Hotel → Stay → Result Error (List TypeAvailability) → Result Error (List Offer)
priced_rows rates hotel s (ok rows) = priced rates hotel s (filter (serves s) rows)
priced_rows rates hotel s (err e) = err e

-- `offers(hotel, stay)`; `by_type` is asked for one guest, its default
unfoldable pub offers : Hotel → Stay → Db → Result Error (List Offer)
unfolding by_type
offers hotel s db =
    if ltb max_date (leaves s)
    then err overflow_error
    else priced_rows db.room_rates hotel s (by_type hotel.pk s.check_in (leaves s) 1 db)

-- `str.upper`
abbrev pub upper : Text → Text
upper [] = []
upper (c ∷ cs) = (if leb 97 c && leb c 122 then c - 32 else c) ∷ upper cs

abbrev pub pick_offer : Text → Result Error (List Offer) → Result Error (Option Offer)
pick_offer wanted (ok found) =
    ok (find? (λ (o : Offer). same_text (upper o.room_type.code) wanted) found)
pick_offer wanted (err e) = err e

-- `find_offer(hotel, stay, code)`
unfoldable pub find_offer : Hotel → Stay → Text → Db → Result Error (Option Offer)
unfolding offers
find_offer hotel s code db =
    if is_empty (upper (strip code))
    then ok none
    else pick_offer (upper (strip code)) (offers hotel s db)

-- `" ".join(name.split())`: whether a word has been written, and whether a gap follows it
abbrev pub joined : Bool → Bool → Text → Text
joined started gap [] = []
joined started gap (c ∷ cs) =
    if is_space c
    then joined started started cs
    else if gap
    then 32 ∷ c ∷ joined true false cs
    else c ∷ joined true false cs

-- One character of `_BENGALI`
abbrev pub latin : ℕ → ℕ
latin c = if leb 2534 c && leb c 2543 then c - 2486 else c

-- `_clean_phone(value)`
abbrev pub clean_phone : Text → Text
clean_phone [] = []
clean_phone (c ∷ cs) =
    if is_digit (latin c) || latin c == b'+' then latin c ∷ clean_phone cs else clean_phone cs

abbrev pub new_guest : ℕ → Text → ℕ → Guest
new_guest hotel phone pk = record {
  pk = pk;
  tenant = hotel;
  is_deleted = false;
  is_blacklisted = false;
  phone = phone;
  total_stays = 0;
  total_spend = pos 0;
  last_stay_at = none;
}

abbrev pub known_guest : ℕ → Text → Db → Option Guest
known_guest hotel phone db =
    find? (λ (g : Guest). g.tenant == hotel && same_text g.phone phone && not g.is_deleted)
      db.guests

abbrev pub guest_or_new : Option Guest → ℕ → Text → Act Guest
guest_or_new (some g) hotel phone db = (ok g, db)
guest_or_new none hotel phone db =
    let g = new_guest hotel phone db.next_pk in
    (ok g, record db { guests = db.guests ++ g ∷ []; next_pk = suc db.next_pk })

-- `_guest_for(...)`
unfoldable pub guest_for : ℕ → Text → Act Guest
guest_for hotel phone db = guest_or_new (known_guest hotel phone db) hotel phone db

abbrev pub online_booking : Hotel → Stay → Guest → RoomType → Booking
online_booking hotel s guest t = record {
  hotel = hotel;
  guest = guest;
  check_in = s.check_in;
  check_out = leaves s;
  room_type = t;
  rooms = s.rooms;
  adults = s.adults;
  children = s.children;
  rate_plan = none;
  source = BookingSource.website;
  assign_rooms = true;
  allow_past = false;
}

abbrev pub lift_offer : Result Error (Option Offer) → Act (Option Offer)
lift_offer r db = (r, db)

-- The guest and the reservation.
unfoldable pub book_for : Hotel → Stay → Text → (ℕ → Text) → Offer → Act Reservation
unfolding guest_for create
book_for hotel s phone codes offer = guest_for hotel.pk phone >>= λ guest.
    create (online_booking hotel s guest offer.room_type) codes

-- `book(hotel, stay, ...)`, which is no transaction of its own
unfoldable pub book : Hotel → Stay → Text → Text → Text → (ℕ → Text) → Act Reservation
unfolding find_offer book_for
book hotel s code name guest_phone codes = do
  let phone = clean_phone guest_phone
  raise_if (ltb (length (joined false false name)) 2) validation
  raise_if (ltb (length phone) 6) validation
  looked ← gets (find_offer hotel s code)
  found ← lift_offer looked
  offer ← or_raise found validation
  book_for hotel s phone codes offer
