-- ===== src/Booking/Online/Offered.antt =====
-- services/booking/online.py, `offers`: what is offered for a stay.
use fab_ai_smart_hotel_manag.Prelude.{
  none, some, ◌-◌, ◌<◌, ◌==◌, ◌∙◌, ap, sym, refl, length, filter, map, sort_by, ltb, All-filter,
  Bool-cases, inl, inr, ◌+◌, ◌*◌, ◌≤◌, ◌≡◌, true, false, List, [], ◌∷◌, arith, leb, All,
}
use fab_ai_smart_hotel_manag.Prelude.Sorting.{
  filter-kept, filter-filter, length-filter-sort_by, length-sort_by,
}
use fab_ai_smart_hotel_manag.Prelude.Exec.{Result, ok, err}
use fab_ai_smart_hotel_manag.Rooms.{Room, RoomType}
use fab_ai_smart_hotel_manag.Pricing.{Hotel, Quote, quote, assemble, nights_loop}
use fab_ai_smart_hotel_manag.Booking.Availability.{
  TypeAvailability, by_type, available_rooms, type_row, type_before, room_before, is_free, fits,
}
use fab_ai_smart_hotel_manag.Booking.Online.{
  Stay, Offer, leaves, serves, quote_of, and_offer, priced, offers,
}
use fab_ai_smart_hotel_manag.Database.{Db, Error, overflow_error, max_date}

-- An offer has rooms enough for the stay: as many as the search of its type finds, and no fewer than
-- the guests want; they sleep the guests; and the price is the quote of the stay.
abbrev pub IsServed : Hotel → Stay → Db → Offer → Type 0
IsServed hotel s db o =
    ((rooms : List Room) × (available_rooms hotel.pk s.check_in (s.check_in + s.nights)
          (some o.room_type.pk) none db
        ≡ ok rooms)
      × (o.available ≡ length rooms)
      × (s.rooms ≤ length rooms))
    × (s.adults + s.children ≤ o.room_type.max_occupancy * s.rooms)
    × (quote db.room_rates hotel o.room_type s.check_in (s.check_in + s.nights) none s.adults
          s.rooms
        ≡ ok o.quote)

-- What is offered, or an error where the stay ends past the last date that there is.
abbrev pub Served : Hotel → Stay → Db → Result Error (List Offer) → Type 0
Served hotel s db (ok found) = (s.check_in + s.nights ≤ max_date) × All (IsServed hotel s db) found
Served hotel s db (err e) = (max_date < s.check_in + s.nights) × (e ≡ overflow_error)

-- The rows of the table of the types count the rooms that the search of the type finds.
abbrev Counted : Hotel → Stay → Db → TypeAvailability → Type 0
Counted hotel s db row =
    (rooms : List Room) × (available_rooms hotel.pk s.check_in (s.check_in + s.nights)
        (some row.room_type.pk) none db
      ≡ ok rooms)
    × (row.available ≡ length rooms)

module _ (hotel : Hotel) (s : Stay) (db : Db) (long : 1 ≤ s.nights) where
  order : leb (leaves s) s.check_in ≡ false
  order = ground arith

  quote_of-ok : (t : RoomType) → (q : Quote) × (quote_of db.room_rates hotel s t ≡ ok q)
  unfolding quote
  quote_of-ok t = (
    assemble hotel t (nights_loop db.room_rates t none (leaves s - s.check_in) s.check_in) s.adults
        s.rooms,
    rw order refl,
  )

  -- The free rooms of the hotel that are of a type are those that the search of the type finds.
  type_row-Counted :
      (t : RoomType)
      → Counted hotel s db (
          type_row db
            (sort_by room_before
              (filter (is_free db hotel.pk s.check_in (leaves s) none none) db.rooms))
            t)
  unfolding available_rooms
  type_row-Counted t =
      let any_type = is_free db hotel.pk s.check_in (leaves s) none none in
      let this_type = is_free db hotel.pk s.check_in (leaves s) (some t.pk) none in
      (
        sort_by room_before (filter this_type db.rooms),
        rw order refl,
        length-filter-sort_by room_before (λ (r : Room). r.room_type == t.pk)
              (filter any_type db.rooms)
            ∙ ap length (
                filter-filter (λ (r : Room). r.room_type == t.pk) any_type this_type db.rooms
                  (λ r. ground arith))
            ∙ sym (length-sort_by room_before (filter this_type db.rooms)),
      )

  and_offer-Served :
      (row : TypeAvailability) (q : Quote) (rest : Result Error (List Offer))
      → s.check_in + s.nights ≤ max_date
      → serves s row ≡ true
      → Counted hotel s db row
      → quote_of db.room_rates hotel s row.room_type ≡ ok q
      → Served hotel s db rest
      → Served hotel s db (and_offer row (ok q) rest)
  and_offer-Served row q (ok found) near enough (rooms, searched, counted) e h =
      (near, (((rooms, searched, counted, ground (arith, counted)), ground arith, e), h.1))
  and_offer-Served row q (err _) near enough counted e h = h

  priced-Served :
      (rows : List TypeAvailability)
      → s.check_in + s.nights ≤ max_date
      → All (λ row. serves s row ≡ true) rows
      → All (Counted hotel s db) rows
      → Served hotel s db (priced db.room_rates hotel s rows)
  priced-Served [] near enough counted = (near, tt)
  priced-Served (row ∷ rows) near enough counted =
      let (q, e) = quote_of-ok row.room_type in
      rw e (
        and_offer-Served row q (priced db.room_rates hotel s rows) near enough.0 counted.0 e
          (priced-Served rows near enough.1 counted.1))

  rows-Counted :
      (free : List Room) (types : List RoomType)
      → ((t : RoomType) → Counted hotel s db (type_row db free t))
      → All (Counted hotel s db) (map (type_row db free) types)
  rows-Counted free [] each = tt
  rows-Counted free (t ∷ types) each = (each t, rows-Counted free types each)

-- For a stay of at least one night `offers` raises exactly where the stay would end past the last
-- date, with OverflowError. Otherwise each offer states as available just the rooms that the search
-- of its type finds for the dates, at least as many as are wanted; it sleeps the guests in those that
-- are wanted, and states the quote of the stay.
pub offers-Served :
    (hotel : Hotel) (s : Stay) (db : Db) → 1 ≤ s.nights → Served hotel s db (offers hotel s db)
unfolding offers by_type available_rooms
offers-Served hotel s db long =
    let free =
      sort_by room_before (filter (is_free db hotel.pk s.check_in (leaves s) none none) db.rooms) in
    let types = sort_by type_before (filter (fits hotel.pk 1) db.room_types) in
    let rows = map (type_row db free) types in
    elim (Bool-cases (ltb max_date (leaves s))) [
      | inl late ↦ rw late (ground (arith, late), refl)
      | inr near ↦
          rw (near, order hotel s db long)
            (priced-Served hotel s db long (filter (serves s) rows) (ground (arith, near))
              (filter-kept (serves s) rows)
              (All-filter (Counted hotel s db) (serves s) rows
                (rows-Counted hotel s db long free types (type_row-Counted hotel s db long))))
    ]
