-- ===== src/Booking/Online/Taking.antt =====
-- services/booking/online.py, `book`: what a booking on the site writes.
use fab_ai_smart_hotel_manag.Prelude.{
  ℕ, suc, ◌+◌, ◌≤◌, ◌≡◌, refl, ◌⊎◌, inl, inr, true, false, not, ◌&&◌, ◌==◌, Option, none, some,
  ◌++◌, ◌∷◌, [], arith, ltb, length, find?_holds, Option-cases,
}
use fab_ai_smart_hotel_manag.Prelude.Exec.{
  Result, ok, err, ◌>>=◌, continue, raise_if-case, or_raise,
}
use fab_ai_smart_hotel_manag.Rooms.Weekdays.{Text}
use fab_ai_smart_hotel_manag.Pricing.{Hotel}
use fab_ai_smart_hotel_manag.Billing.Folio.{same_text}
use fab_ai_smart_hotel_manag.Billing.Folio.Retry.{same_text_refl}
use fab_ai_smart_hotel_manag.Booking.Models.{Reservation, Guest, BookingSource}
use fab_ai_smart_hotel_manag.Booking.Reservations.Create.{Booking, create}
use fab_ai_smart_hotel_manag.Booking.Reservations.Made.{
  Adds, Holds, Stays, IsRow, IsHeld, Made, create-Made,
}
use fab_ai_smart_hotel_manag.Booking.Online.{
  Stay, Offer, joined, clean_phone, find_offer, lift_offer, known_guest, guest_for, new_guest,
  online_booking, book_for, book,
}
use fab_ai_smart_hotel_manag.Database.{Db, Error, validation}

-- The guest of a phone number at a hotel: one that is not deleted, the one that the hotel has already
-- where there is one, and a new row otherwise.
abbrev pub IsGuestFor : ℕ → Text → Db → Guest → Type 0
IsGuestFor hotel phone db g =
    ((g.tenant == hotel && same_text g.phone phone && not g.is_deleted) ≡ true)
    × ((known_guest hotel phone db ≡ some g)
        ⊎ ((known_guest hotel phone db ≡ none) × (g ≡ new_guest hotel phone db.next_pk)))

-- A booking for the guest of a phone number.
abbrev pub MadeFor : ℕ → Text → Db → (Guest → Booking) → Result Error Reservation × Db → Type 0
MadeFor hotel phone db request (ok r, db') =
    (g : Guest) × IsGuestFor hotel phone db g
    × IsRow (request g) r
    × Adds (IsHeld (request g) r.pk) (request g).rooms (db.reservations ++ r ∷ []) db.allocations
        db'
MadeFor hotel phone db request (err _, db') =
    (db'.reservations ≡ db.reservations) × (db'.allocations ≡ db.allocations)

module _ (hotel : ℕ) (phone : Text) (db : Db) (request : Guest → Booking) where
  Made-for :
      (g : Guest) (out : Result Error Reservation × Db)
      → IsGuestFor hotel phone db g
      → Made (request g) db.reservations db.allocations out
      → MadeFor hotel phone db request out
  Made-for g (ok r, db') guest made = (g, guest, made.0, made.1)
  Made-for g (err _, db') guest made = made

  pub guest_for-MadeFor :
      (codes : ℕ → Text)
      → MadeFor hotel phone db request
          ((guest_for hotel phone >>= λ g. create (request g) codes) db)
  unfolding guest_for
  guest_for-MadeFor codes = elim (Option-cases (known_guest hotel phone db)) [
    | inr (g, e) ↦ rw e (
        Made-for g (create (request g) codes db) (find?_holds _ db.guests e, inl e)
          (create-Made (request g) codes db))
    | inl e ↦
        let g = new_guest hotel phone db.next_pk in
        let db' = record db { guests = db.guests ++ g ∷ []; next_pk = suc db.next_pk } in
        rw e (
          Made-for g (create (request g) codes db')
            (rw (same_text_refl phone) (ground arith), inr (e, refl))
            (create-Made (request g) codes db'))
  ]

-- What a booking on the site leaves.
abbrev pub Taken : Hotel → Stay → Text → Text → Text → Db → Result Error Reservation × Db → Type 0
Taken hotel s code name guest_phone db (ok r, db') =
    (2 ≤ length (joined false false name))
    × (6 ≤ length (clean_phone guest_phone))
    × ((offer : Offer) × (find_offer hotel s code db ≡ ok (some offer))
        × ((g : Guest) × IsGuestFor hotel.pk (clean_phone guest_phone) db g
            × Stays hotel.pk g BookingSource.website s.check_in (s.check_in + s.nights) s.adults
                s.children r
            × Adds (Holds r.pk offer.room_type.pk s.check_in (s.check_in + s.nights)) s.rooms
                (db.reservations ++ r ∷ []) db.allocations db'))
Taken hotel s code name guest_phone db (err _, db') =
    (db'.reservations ≡ db.reservations) × (db'.allocations ≡ db.allocations)

module _ (hotel : Hotel) (s : Stay) (code name guest_phone : Text) (codes : ℕ → Text) (db : Db)
    (named : 2 ≤ length (joined false false name))
    (called : 6 ≤ length (clean_phone guest_phone)) where
  abbrev phone : Text
  phone = clean_phone guest_phone

  offer-Taken :
      (offer : Offer)
      → find_offer hotel s code db ≡ ok (some offer)
      → (out : Result Error Reservation × Db)
      → MadeFor hotel.pk phone db (λ g. online_booking hotel s g offer.room_type) out
      → Taken hotel s code name guest_phone db out
  offer-Taken offer found (ok r, db') h = (named, called, (offer, found, h))
  offer-Taken offer found (err _, db') h = h

  offered-Taken :
      (looked : Result Error (Option Offer))
      → find_offer hotel s code db ≡ looked
      → Taken hotel s code name guest_phone db (
          continue
            (lift_offer looked db)
            (λ found. or_raise found validation >>= book_for hotel s phone codes))
  unfolding book_for
  offered-Taken (ok none) found = (refl, refl)
  offered-Taken (ok (some offer)) found =
      offer-Taken offer found _
        (guest_for-MadeFor hotel.pk phone db (λ g. online_booking hotel s g offer.room_type) codes)
  offered-Taken (err _) found = (refl, refl)

-- A booking on the site that is made has a name of at least two characters and a phone number of at
-- least six; its code is one that `offers` has for the stay. It adds one confirmed reservation from
-- the website, for the guest with that phone number (the row that the hotel has, else a new one), from
-- the arrival for the nights of the stay, with its adults and children, and one allocation of the
-- offered type for each of its rooms. One that is refused adds neither.
pub book-Taken :
    (hotel : Hotel) (s : Stay) (code name guest_phone : Text) (codes : ℕ → Text) (db : Db)
    → Taken hotel s code name guest_phone db (book hotel s code name guest_phone codes db)
unfolding book
book-Taken hotel s code name guest_phone codes db =
    let P = Taken hotel s code name guest_phone db in
    raise_if-case P (ltb (length (joined false false name)) 2) validation _ db
      (λ named.
        raise_if-case P (ltb (length (clean_phone guest_phone)) 6) validation _ db
          (λ called.
            offered-Taken hotel s code name guest_phone codes db (ground (arith, named))
              (ground (arith, called)) (find_offer hotel s code db) refl)
          (λ _. (refl, refl)))
      (λ _. (refl, refl))
