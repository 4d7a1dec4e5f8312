-- ===== src/Reception/Offers/Listed.antt =====
-- services/reception/booking_agent.py, `room_snapshot`: the prices of what is offered.
use fab_ai_smart_hotel_manag.Prelude.{ℕ, ◌≡◌, none, List, All, ◌≤◌, ◌<◌}
use fab_ai_smart_hotel_manag.Prelude.Exec.{Result, ok, err}
use fab_ai_smart_hotel_manag.Rooms.{RoomRate, RoomType}
use fab_ai_smart_hotel_manag.Pricing.{Hotel, Quote, quote, average_nightly}
use fab_ai_smart_hotel_manag.Reception.Offers.{RoomOffer, at_least_one}
use fab_ai_smart_hotel_manag.Database.{Error, overflow_error, max_date}

-- The offer of a room type at the price of its quote.
abbrev pub IsQuoted : List RoomRate → Hotel → ℕ → ℕ → ℕ → RoomOffer → Type 0
IsQuoted rates hotel start end rooms o =
    (t : RoomType) × (q : Quote) × (quote rates hotel t start end none t.base_occupancy
        (at_least_one rooms)
      ≡ ok q)
    × (o.room_type_id ≡ t.pk)
    × (o.code ≡ t.code)
    × (o.max_occupancy ≡ t.max_occupancy)
    × (o.total_price ≡ q.grand_total)
    × (o.nightly ≡ average_nightly q)

-- What a turn is shown: offers at their quoted prices, or an error where the stay ends past the last
-- date that there is.
abbrev pub Listed : List RoomRate → Hotel → ℕ → ℕ → ℕ → Result Error (List RoomOffer) → Type 0
Listed rates hotel start end rooms (ok offers) =
    (end ≤ max_date) × All (IsQuoted rates hotel start end rooms) offers
Listed rates hotel start end rooms (err e) = (max_date < end) × (e ≡ overflow_error)
