-- ===== src/Reception/Agent.antt =====
-- services/reception/booking_agent.py, `_finalize`: what becomes of the answer of the model.
--
-- The values of the model's JSON, and Python's readings of them, are the arguments `Values` and
-- `read_date`. A draft is a record: a text that is missing is the empty one, and a number that is
-- missing the one that the code falls back on. Of the texts, only the Bengali digits are read as more
-- than ASCII.
pub mod Ready
pub mod Unsaid
use fab_ai_smart_hotel_manag.Prelude.{
  ℕ, ◌+◌, ◌*◌, ◌-◌, Bool, true, false, not, ◌&&◌, ◌||◌, Option, none, some, List, [], ◌∷◌, ◌++◌,
  ltb, leb, ◌==◌, filter, find?, take, length, is_some, map, if◌then◌else◌,
}
use fab_ai_smart_hotel_manag.Prelude.Int.{ℤ, pos, negsuc}
use fab_ai_smart_hotel_manag.Prelude.Exec.{Result, ok, err, ◌>>=◌, pure, raise, raise_if, or_raise}
use fab_ai_smart_hotel_manag.Rooms.{Room, RoomType, RoomRate}
use fab_ai_smart_hotel_manag.Rooms.Weekdays.{Text, is_digit, strip}
use fab_ai_smart_hotel_manag.Pricing.{Hotel, Quote, QuoteError, quote, average_nightly}
use fab_ai_smart_hotel_manag.Billing.Folio.{same_text, is_empty}
use fab_ai_smart_hotel_manag.Booking.Models.{Reservation, BookingSource, Guest}
use fab_ai_smart_hotel_manag.Booking.Availability.{TypeAvailability, available_rooms, by_type}
use fab_ai_smart_hotel_manag.Booking.Online.{
  max_nights, max_advance_days, max_rooms, clamp, upper, latin, guest_for,
}
use fab_ai_smart_hotel_manag.Booking.Reservations.Create.{Booking, create}
use fab_ai_smart_hotel_manag.Database.{Db, Error, Act, validation}
use fab_ai_smart_hotel_manag.Reception.Models.{Channel, kiosk, web, website, pwa, whatsapp, phone}
use fab_ai_smart_hotel_manag.Reception.Offers.{
  RoomOffer, priced_offer, at_least_one, start_of, offers_of, room_snapshot, by_code, offered_type,
  count_or_zero, free_of_type, free_count, total_of, requoted, repricing,
}

-- What an issue is about.
pub data Issue : Type 0 where
  past too_far nights_limit unknown_type sleeps free_rooms : Issue

-- `booking` of a `Draft`
pub record Booked : Type 0 where
  pub check_in : Option ℕ
  pub nights : Option ℕ
  pub room_code : Text
  pub rooms : ℕ
  pub adults : ℕ
  pub children : ℕ
  pub guest_name : Text
  pub guest_phone : Text

-- The draft `{}`
abbrev pub blank : Booked
blank = record {
  check_in = none;
  nights = none;
  room_code = [];
  rooms = 1;
  adults = 1;
  children = 0;
  guest_name = [];
  guest_phone = [];
}

-- What Python makes of the values of the model's JSON: `value in (None, "", [])`, `not value`,
-- `str(value)`, and `int(value)` where that raises neither TypeError nor ValueError.
pub record Values (V : Type 0) : Type 0 where
  pub is_unsaid : V → Bool
  pub is_false : V → Bool
  pub str : V → Text
  pub int : V → Option ℤ

-- The JSON of the model
pub record Raw (V : Type 0) : Type 0 where
  pub check_in : V
  pub nights : V
  pub room_code : V
  pub rooms : V
  pub adults : V
  pub children : V
  pub guest_name : V
  pub guest_phone : V
  pub reply : V
  pub needs_more_info : V
  pub ready_to_confirm : V
  pub cancelled : V

-- `Draft`
pub record Drafted : Type 0 where
  pub reply : Text
  pub booking : Booked
  pub quote_total : Option ℤ
  pub needs_more_info : Bool
  pub ready_to_confirm : Bool
  pub cancelled : Bool
  pub issues : List Issue

abbrev pub as_pos : Option ℕ → Option ℤ
as_pos none = none
as_pos (some n) = some (pos n)

-- `max(_as_int(value) or default, default)`
abbrev pub at_least : ℕ → Option ℤ → ℕ
at_least low none = low
at_least low (some (pos n)) = if leb low n then n else low
at_least low (some (negsuc n)) = low

-- `min(max(_as_int(value) or 1, 1), MAX_ROOMS)`
abbrev pub rooms_kept : Option ℤ → ℕ
rooms_kept none = 1
rooms_kept (some v) = clamp 1 max_rooms v

-- The date of arrival, for today.
abbrev pub date_kept : ℕ → Option ℕ → Option ℕ × List Issue
date_kept today none = (none, [])
date_kept today (some d) =
    if ltb d today
    then (none, past ∷ [])
    else if ltb (today + max_advance_days) d
    then (none, too_far ∷ [])
    else (some d, [])

abbrev pub in_range : ℤ → Bool
in_range (pos n) = leb 1 n && leb n max_nights
in_range (negsuc n) = false

abbrev pub nights_kept : Option ℤ → Option ℕ × List Issue
nights_kept none = (none, [])
nights_kept (some v) = (some (clamp 1 max_nights v), if in_range v then [] else nights_limit ∷ [])

-- One key of the merge: what was said, where something was.
module _ {V : Type 0} (p : Values V) where
  abbrev pub text_of : V → Text
  text_of v = if p.is_false v then [] else p.str v

  abbrev pub said_text : V → Text → Text
  said_text v previous = if p.is_unsaid v then previous else text_of v

  abbrev pub said_int : V → Option ℤ → Option ℤ
  said_int v previous = if p.is_unsaid v then previous else p.int v

  -- `_as_date`: a date that was kept is read back as itself
  abbrev pub said_date : (Text → Option ℕ) → V → Option ℕ → Option ℕ
  said_date read_date v previous =
      if p.is_unsaid v
      then previous
      else if p.is_false v
      then none
      else read_date (take 10 (strip (p.str v)))

-- `re.sub(r"\D", "", raw)` after the translation of the Bengali digits
abbrev pub digits_only : Text → Text
digits_only [] = []
digits_only (c ∷ cs) = if is_digit (latin c) then latin c ∷ digits_only cs else digits_only cs

abbrev pub plus_of : Text → Text
plus_of [] = []
plus_of (c ∷ cs) = if c == b'+' then b'+' ∷ [] else []

-- `_clean_phone(value)`
abbrev pub kept_phone : Text → Text
kept_phone value = take 32 (plus_of (strip value) ++ digits_only (strip value))

-- `_free_count(...) if check_in and nights else offer.available`
abbrev pub free_rooms_of : ℕ → RoomOffer → Option ℕ → Option ℕ → Db → ℕ
unfolding free_count
free_rooms_of hotel o (some check_in) (some nights) db = free_count hotel o check_in nights db
free_rooms_of hotel o (some _) none db = o.available
free_rooms_of hotel o none nights db = o.available

abbrev pub Settled : Type 0
Settled = (Text × Option RoomOffer) × List Issue

-- The room type of the draft: it must exist, be free, and fit the party.
abbrev pub settle_offer : ℕ → Text → Text → Booked → Option RoomOffer → Db → Settled
settle_offer hotel raw code b none db =
    if is_empty code then ((raw, none), []) else (([], none), unknown_type ∷ [])
settle_offer hotel raw code b (some o) db =
    if ltb (o.max_occupancy * b.rooms) (b.adults + b.children)
    then (([], none), sleeps ∷ [])
    else if ltb (free_rooms_of hotel o b.check_in b.nights db) b.rooms
    then (([], none), free_rooms ∷ [])
    else ((raw, some o), [])

unfoldable pub settle_room : ℕ → Booked → List RoomOffer → Db → Settled
unfolding by_code
settle_room hotel b offers db =
    let code = upper (strip b.room_code) in
    settle_offer hotel b.room_code code b (by_code code offers) db

abbrev pub repriced : Option RoomOffer → Option ℕ → Option ℕ → Booked → Hotel → Db → Option ℤ
unfolding repricing
repriced (some o) (some check_in) (some nights) b hotel db =
    repricing hotel o check_in nights b.adults b.rooms db
repriced (some o) (some _) none b hotel db = none
repriced (some o) none nights b hotel db = none
repriced none check_in nights b hotel db = none

abbrev pub has_nights : Option ℕ → Bool
has_nights none = false
has_nights (some n) = not (n == 0)

-- `Draft.is_complete`
abbrev pub is_complete : Booked → Bool
is_complete b =
    is_some b.check_in
    && has_nights b.nights
    && not (is_empty b.room_code)
    && not (is_empty b.guest_name)
    && not (is_empty b.guest_phone)

abbrev pub no_issues : List Issue → Bool
no_issues [] = true
no_issues (_ ∷ _) = false

-- The merged booking, before its room type is looked at, and the issues so far.
module _ {V : Type 0} (p : Values V) (read_date : Text → Option ℕ) where
  unfoldable pub merged : Raw V → Booked → ℕ → Booked × List Issue
  merged raw previous today =
      let date = date_kept today (said_date p read_date raw.check_in previous.check_in) in
      let nights = nights_kept (said_int p raw.nights (as_pos previous.nights)) in
      (
        record {
          check_in = date.0;
          nights = nights.0;
          room_code = said_text p raw.room_code previous.room_code;
          rooms = rooms_kept (said_int p raw.rooms (some (pos previous.rooms)));
          adults = at_least 1 (said_int p raw.adults (some (pos previous.adults)));
          children = at_least 0 (said_int p raw.children (some (pos previous.children)));
          guest_name = take 150 (strip (said_text p raw.guest_name previous.guest_name));
          guest_phone = kept_phone (said_text p raw.guest_phone previous.guest_phone);
        },
        date.1 ++ nights.1,
      )

  -- What follows the merge.
  unfoldable pub drafted : Raw V → Hotel → List RoomOffer → Db → Booked × List Issue → Drafted
  unfolding settle_room
  drafted raw hotel offers db m =
      let room = settle_room hotel.pk m.0 offers db in
      let b = record m.0 { room_code = room.0.0 } in
      let issues = m.1 ++ room.1 in
      record {
        reply = strip (text_of p raw.reply);
        booking = b;
        quote_total = repriced room.0.1 b.check_in b.nights b hotel db;
        needs_more_info = not (p.is_false raw.needs_more_info) || not (is_complete b);
        ready_to_confirm =
            not (p.is_false raw.ready_to_confirm) && is_complete b && no_issues issues;
        cancelled = not (p.is_false raw.cancelled);
        issues = issues;
      }

  -- `_finalize(raw, ...)`
  unfoldable pub finalize : Raw V → Hotel → List RoomOffer → Booked → Db → Drafted
  unfolding merged drafted
  finalize raw hotel offers previous db = drafted raw hotel offers db (merged raw previous db.today)
