-- ===== src/Reception/Confirm/Taking.antt =====
-- services/reception/booking_agent.py, `confirm`: what the booking of a draft writes.
use fab_ai_smart_hotel_manag.Prelude.{
  ℕ, ◌+◌, ◌≤◌, ◌≡◌, true, false, not, ◌&&◌, ◌==◌, Option, some, ◌++◌, ◌∷◌, [],
}
use fab_ai_smart_hotel_manag.Prelude.Exec.{Result, ok, err}
use fab_ai_smart_hotel_manag.Rooms.{RoomType}
use fab_ai_smart_hotel_manag.Rooms.Weekdays.{Text, strip}
use fab_ai_smart_hotel_manag.Pricing.{Hotel}
use fab_ai_smart_hotel_manag.Billing.Folio.{is_empty, same_text}
use fab_ai_smart_hotel_manag.Booking.Models.{Reservation, Guest, BookingSource}
use fab_ai_smart_hotel_manag.Booking.Reservations.Made.{Adds, Holds, Stays}
use fab_ai_smart_hotel_manag.Booking.Online.{upper}
use fab_ai_smart_hotel_manag.Booking.Online.Taking.{IsGuestFor}
use fab_ai_smart_hotel_manag.Reception.Models.{Channel}
use fab_ai_smart_hotel_manag.Reception.Offers.{at_least_one}
use fab_ai_smart_hotel_manag.Reception.Agent.{Booked, blank, kept_phone}
use fab_ai_smart_hotel_manag.Reception.Confirm.{source_for}
use fab_ai_smart_hotel_manag.Database.{Db, Error, max_date}

-- The two tables as they were.
abbrev pub IsUnbooked : Db → Db → Type 0
IsUnbooked db db' = (db'.reservations ≡ db.reservations) × (db'.allocations ≡ db.allocations)

-- The draft says all that a booking takes: the nights, a room type, a name and a phone number that are
-- not blank, and a stay that ends on a date that there is.
abbrev pub IsComplete : Booked → ℕ → ℕ → Type 0
IsComplete b check_in nights =
    (1 ≤ nights)
    × (is_empty (strip b.room_code) ≡ false)
    × (is_empty (strip b.guest_name) ≡ false)
    × (is_empty (kept_phone b.guest_phone) ≡ false)
    × (check_in + nights ≤ max_date)

-- A live room type of the hotel that has the code, in whatever case.
abbrev pub HasCode : ℕ → Text → RoomType → Type 0
HasCode hotel code t =
    (t.tenant == hotel && same_text (upper t.code) (upper code) && not t.is_deleted) ≡ true

-- What the booking of a draft with these dates leaves at a hotel.
abbrev pub Entered :
    Hotel → Booked → ℕ → ℕ → BookingSource → Db → Result Error (Reservation × Booked) × Db → Type 0
Entered hotel b check_in nights source db (ok (r, draft), db') =
    (draft ≡ blank)
    × IsComplete b check_in nights
    × ((t : RoomType) × HasCode hotel.pk (strip b.room_code) t
        × ((g : Guest) × IsGuestFor hotel.pk (kept_phone b.guest_phone) db g
            × Stays hotel.pk g source check_in (check_in + nights) (at_least_one b.adults)
                b.children r
            × Adds (Holds r.pk t.pk check_in (check_in + nights)) (at_least_one b.rooms)
                (db.reservations ++ r ∷ []) db.allocations db'))
Entered hotel b check_in nights source db (err _, db') = IsUnbooked db db'

-- What `confirm` leaves.
abbrev pub Confirmed :
    Option Hotel → Booked → Channel → Db → Result Error (Reservation × Booked) × Db → Type 0
Confirmed given b channel db (ok x, db') =
    (hotel : Hotel) × (given ≡ some hotel)
    × ((check_in : ℕ) × (b.check_in ≡ some check_in)
        × ((nights : ℕ) × (b.nights ≡ some nights)
            × Entered hotel b check_in nights (source_for channel) db (ok x, db')))
Confirmed given b channel db (err _, db') = IsUnbooked db db'

module _ (hotel : Hotel) (b : Booked) (check_in nights : ℕ) (source : BookingSource)
    (codes : ℕ → Text) (db : Db) where
  abbrev Q : Result Error (Reservation × Booked) × Db → Type 0
  Q = Entered hotel b check_in nights source db
