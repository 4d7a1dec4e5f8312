-- ===== src/Booking/Reservations/Made.antt =====
-- services/booking/reservations.py, `create`: the rows that a booking writes.
use fab_ai_smart_hotel_manag.Prelude.{
  ℕ, zero, suc, ◌+◌, ◌*◌, ◌≡◌, refl, ◌∙◌, ap, inl, inr, Bool, true, not, ◌&&◌, Option, none, some,
  List, [], ◌∷◌, ◌++◌, ltb, leb, take, length, All, Bool-cases,
}
use fab_ai_smart_hotel_manag.Prelude.Exec.{
  Result, ok, err, roll_back, continue, raise_if, raise_if-case, ◌>>=◌, pure, Unit₀,
}
use fab_ai_smart_hotel_manag.Prelude.Keeps.{Keeps, Keeps-bind, Keeps-pure}
use fab_ai_smart_hotel_manag.Rooms.{Room, RatePlan}
use fab_ai_smart_hotel_manag.Rooms.Weekdays.{Text}
use fab_ai_smart_hotel_manag.Pricing.{Quote, QuoteError, quote, average_nightly}
use fab_ai_smart_hotel_manag.Booking.Models.{
  Reservation, ReservationStatus, Allocation, BookingSource, Guest,
}
use fab_ai_smart_hotel_manag.Booking.Availability.{available_rooms}
use fab_ai_smart_hotel_manag.Booking.Inventory.{double_booked, write_allocations}
use fab_ai_smart_hotel_manag.Booking.Frame.{open_folio-Keeps, audit-Keeps}
use fab_ai_smart_hotel_manag.Booking.Reservations.Create.{
  Booking, create, write_booking, price_and_book, insert_reservation, new_reservation,
  new_allocation, allocate, allocate_rooms, unique_code, insert_coded, hold_rooms, room_at,
  per_room, plan_or_default, lift_quote, lift_rooms,
}
use fab_ai_smart_hotel_manag.Database.{Act, Db, Error, AuditAction, audit, validation, conflict}
use fab_ai_smart_hotel_manag.Billing.Folio.{open_folio}

-- The reservations as they were, and `n` new allocations for which `P` holds.
abbrev pub Adds : (Allocation → Type 0) → ℕ → List Reservation → List Allocation → Db → Type 0
Adds P n rs old db =
    (db.reservations ≡ rs)
    × ((new : List Allocation) × (db.allocations ≡ old ++ new) × (length new ≡ n) × All P new)

-- The same where an action returns; `Q` holds of what it returns.
abbrev Added :
    {A : Type 0}
    → (A → Type 0)
    → (Allocation → Type 0)
    → ℕ
    → List Reservation
    → List Allocation
    → Result Error A × Db
    → Type 0
Added Q P n rs old (ok a, db) = Q a × Adds P n rs old db
Added Q P n rs old (err _, db) = Unit

-- What an action returns, where it returns.
abbrev Gives : {A : Type 0} → A → Result Error A × Db → Type 0
Gives b (ok x, db) = x ≡ b
Gives b (err _, db) = Unit

Gives-continue :
    {A B : Type 0} (b : B) (out : Result Error A × Db) (f : A → Act B)
    → ((a : A) (db : Db) → Gives b (f a db))
    → Gives b (continue out f)
Gives-continue b (ok a, db) f given = given a db
Gives-continue b (err e, db) f given = tt

append_one :
    (old : List Allocation) (a : Allocation) (new : List Allocation)
    → (old ++ a ∷ []) ++ new ≡ old ++ a ∷ new
append_one [] a new = refl
append_one (x ∷ xs) a new = ap (λ ys. x ∷ ys) (append_one xs a new)

append_none : (old : List Allocation) → old ≡ old ++ []
append_none [] = refl
append_none (x ∷ xs) = ap (λ ys. x ∷ ys) (append_none xs)

module _ (P : Allocation → Type 0) where
  Added-cons :
      {A : Type 0} (Q : A → Type 0) (n : ℕ) (rs : List Reservation) (old : List Allocation)
      (a : Allocation) (out : Result Error A × Db)
      → P a
      → Added Q P n rs (old ++ a ∷ []) out
      → Added Q P (suc n) rs old out
  Added-cons Q n rs old a (ok x, db) pa (q, (same, (new, split, many, all))) =
      (q, (same, (a ∷ new, split ∙ append_one old a new, ap suc many, (pa, all))))
  Added-cons Q n rs old a (err e, db) pa h = tt

  allocate_rooms-Added :
      (row : Option Room → ℕ → Allocation)
      → ((room : Option Room) (pk : ℕ) → P (row room pk))
      → (assign : Bool) (free : List Room) (left index : ℕ) (db : Db)
      → Added
          (λ _. Unit)
          P
          left
          db.reservations
          db.allocations
          (allocate_rooms row assign free left index db)
  unfolding allocate_rooms allocate write_allocations
  allocate_rooms-Added row each assign free zero index db =
      (tt, (refl, ([], append_none db.allocations, refl, tt)))
  allocate_rooms-Added row each assign free (suc left) index db =
      let a = row (room_at assign free index) db.next_pk in
      elim (Bool-cases (double_booked (db.allocations ++ a ∷ []))) [
        | inl e ↦ rw e tt
        | inr e ↦ rw e (
            Added-cons (λ _. Unit) left db.reservations db.allocations a _
              (each (room_at assign free index) db.next_pk)
              (allocate_rooms-Added row each assign free left (index + 1)
                (record db { allocations = db.allocations ++ a ∷ []; next_pk = suc db.next_pk })))
      ]

  module _ (n : ℕ) (rs : List Reservation) (old : List Allocation) where
    moved :
        {B : Type 0} (b : B) (out : Result Error B × Db)
        → Adds P n rs old out.1
        → Gives b out
        → Added (λ x. x ≡ b) P n rs old out
    moved b (ok x, db) h given = (given, h)
    moved b (err e, db) h given = tt

    Added-then :
        {A B : Type 0} (b : B) (out : Result Error A × Db) (f : A → Act B)
        → Added (λ _. Unit) P n rs old out
        → ((a : A) → Keeps (Adds P n rs old) (f a))
        → ((a : A) (db : Db) → Gives b (f a db))
        → Added (λ x. x ≡ b) P n rs old (continue out f)
    Added-then b (ok a, db) f h kf given = moved b (f a db) ((kf a).at db h.1) (given a db)
    Added-then b (err e, db) f h kf given = tt

-- A row of a stay, that blocks the inventory.
abbrev pub Holds : ℕ → ℕ → ℕ → ℕ → Allocation → Type 0
Holds pk room_type check_in check_out a =
    (a.reservation ≡ pk)
    × (a.room_type ≡ room_type)
    × (a.lower ≡ check_in)
    × (a.upper ≡ check_out)
    × (a.blocks_inventory ≡ true)

abbrev pub IsHeld : Booking → ℕ → Allocation → Type 0
IsHeld b pk = Holds pk b.room_type.pk b.check_in b.check_out

-- The confirmed reservation of a stay.
abbrev pub Stays : ℕ → Guest → BookingSource → ℕ → ℕ → ℕ → ℕ → Reservation → Type 0
Stays hotel g source check_in check_out adults children r =
    (r.tenant ≡ hotel)
    × (r.guest ≡ g.pk)
    × (r.status ≡ ReservationStatus.confirmed)
    × (r.source ≡ source)
    × (r.check_in ≡ check_in)
    × (r.check_out ≡ check_out)
    × (r.adults ≡ adults)
    × (r.children ≡ children)

abbrev pub IsRow : Booking → Reservation → Type 0
IsRow b = Stays b.hotel.pk b.guest b.source b.check_in b.check_out b.adults b.children

-- What a call leaves: the new reservation, the last of its table, and an allocation for each of its
-- rooms; or, where it raises, the two tables as they were.
abbrev pub Made :
    Booking → List Reservation → List Allocation → Result Error Reservation × Db → Type 0
Made b rs old (ok r, db) = IsRow b r × Adds (IsHeld b r.pk) b.rooms (rs ++ r ∷ []) old db
Made b rs old (err _, db) = (db.reservations ≡ rs) × (db.allocations ≡ old)

hold_rooms-Added :
    (b : Booking) (free : List Room) (estimate : Quote) (r : Reservation) (db : Db)
    → Added
        (λ x. x ≡ r)
        (IsHeld b r.pk)
        b.rooms
        db.reservations
        db.allocations
        (hold_rooms b free estimate r db)
unfolding hold_rooms
hold_rooms-Added b free estimate r db =
    let P = IsHeld b r.pk in
    let row = λ (room : Option Room).
      new_allocation b r room (average_nightly estimate) (per_room estimate b.rooms) in
    let R = λ (rs : List Reservation) (as' : List Allocation).
      (rs ≡ db.reservations)
      × ((new : List Allocation) × (as' ≡ db.allocations ++ new)
          × (length new ≡ b.rooms)
          × All P new) in
    let held =
      allocate_rooms-Added P row (λ room pk. (refl, refl, refl, refl, refl)) b.assign_rooms free
        b.rooms 0 db in
    let noted = λ (_ : Unit₀). pure {S = Db} {E = Error} r in
    Added-then P b.rooms db.reservations db.allocations r
      (allocate_rooms row b.assign_rooms free b.rooms 0 db) _ held
      (λ _.
        Keeps-bind _ _ (open_folio-Keeps R r)
          λ _. Keeps-bind _ _ (audit-Keeps R AuditAction.create r.pk) λ _. Keeps-pure r)
      (λ _ d.
        Gives-continue r (open_folio r d) _
          (λ _ d'. Gives-continue r (audit AuditAction.create r.pk d') noted (λ _ _. refl)))

held-Made :
    (b : Booking) (r : Reservation) (db db' : Db) (out : Result Error Reservation × Db)
    → IsRow b r
    → db'.reservations ≡ db.reservations ++ r ∷ []
    → db'.allocations ≡ db.allocations
    → Added (λ x. x ≡ r) (IsHeld b r.pk) b.rooms db'.reservations db'.allocations out
    → Made b db.reservations db.allocations (roll_back db out)
held-Made b r db db' (ok x, after) row rs as' h = rw (h.0, ← rs, ← as') (row, h.1)
held-Made b r db db' (err e, after) row rs as' h = (refl, refl)

write_booking-Made :
    (b : Booking) (plan : Option RatePlan) (free : List Room) (estimate : Quote) (codes : ℕ → Text)
    (db : Db)
    → (found : Option Text)
    → Made b db.reservations db.allocations (
        roll_back db (
          continue
            (insert_coded (new_reservation b plan estimate) found db)
            (hold_rooms b free estimate)))
write_booking-Made b plan free estimate codes db none = (refl, refl)
write_booking-Made b plan free estimate codes db (some code) =
    let r = new_reservation b plan estimate code db.next_pk in
    let db' = record db { reservations = db.reservations ++ r ∷ []; next_pk = suc db.next_pk } in
    held-Made b r db db' (hold_rooms b free estimate r db')
      (refl, refl, refl, refl, refl, refl, refl, refl) refl refl
      (hold_rooms-Added b free estimate r db')

module _ (b : Booking) (codes : ℕ → Text) (plan : Option RatePlan) (db : Db) where
  abbrev Outcome : Result Error Reservation × Db → Type 0
  Outcome r = Made b db.reservations db.allocations (roll_back db r)

  priced-Made :
      (free : List Room) (priced : Result QuoteError Quote)
      → Outcome (continue (lift_quote priced db) (write_booking b codes plan free))
  unfolding write_booking insert_reservation
  priced-Made free (err _) = (refl, refl)
  priced-Made free (ok estimate) =
      write_booking-Made b plan free estimate codes db (unique_code 10 0 codes b.hotel.pk db)

  chosen-Made :
      (available : Result Error (List Room))
      → Outcome (
          continue (lift_rooms available db) (λ rooms.
            raise_if (b.assign_rooms && ltb (length (take b.rooms rooms)) b.rooms) conflict >>= λ _.
            price_and_book b codes plan (take b.rooms rooms)))
  unfolding price_and_book
  chosen-Made (err _) = (refl, refl)
  chosen-Made (ok rooms) =
      raise_if-case Outcome (b.assign_rooms && ltb (length (take b.rooms rooms)) b.rooms) conflict _
        db
        (λ _.
          priced-Made (take b.rooms rooms)
            (quote db.room_rates b.hotel b.room_type b.check_in b.check_out plan b.adults b.rooms))
        (λ _. (refl, refl))

-- A booking that is made adds one confirmed reservation, with the hotel, the guest, the dates and the
-- party that were asked for, and one allocation for each room, of the type and for the dates; one
-- that is refused adds neither.
pub create-Made :
    (b : Booking) (codes : ℕ → Text) (db : Db)
    → Made b db.reservations db.allocations (create b codes db)
unfolding create
create-Made b codes db =
    let plan = plan_or_default b.rate_plan b.hotel.pk db in
    let P = Outcome b codes plan db in
    raise_if-case P (leb b.check_out b.check_in) validation _ db
      (λ _.
        raise_if-case P (ltb b.check_in db.today && not b.allow_past) validation _ db
          (λ _.
            raise_if-case P b.guest.is_blacklisted conflict _ db
              (λ _.
                raise_if-case P (ltb (b.room_type.max_occupancy * b.rooms) (b.adults + b.children))
                  validation _ db
                  (λ _. chosen-Made b codes plan db (
                    available_rooms b.hotel.pk b.check_in b.check_out (some b.room_type.pk) none
                      db))
                  (λ _. (refl, refl)))
              (λ _. (refl, refl)))
          (λ _. (refl, refl)))
      (λ _. (refl, refl))
