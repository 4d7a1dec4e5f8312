-- ===== src/Booking/Reservations/Creating.antt =====
-- services/booking/reservations.py, `create`: what a new booking does to the inventory.
use fab_ai_smart_hotel_manag.Prelude.{
  ℕ, zero, suc, ◌+◌, ◌*◌, ◌<◌, ◌≡◌, refl, Bool, true, false, not, ◌&&◌, Option, none, some, List,
  [], ◌∷◌, ◌++◌, arith, ◌==◌, ltb, leb, take, length, All, All-map, All-append, inl, inr,
  Bool-cases, sym, ◌∙◌,
}
use fab_ai_smart_hotel_manag.Prelude.Exec.{
  Result, ok, err, roll_back, continue, raise_if, raise_if-case, ◌>>=◌,
}
use fab_ai_smart_hotel_manag.Prelude.Keeps.{Keeps, Keeps-bind, Keeps-pure, after_atomic}
use fab_ai_smart_hotel_manag.Rooms.{Room, RatePlan}
use fab_ai_smart_hotel_manag.Rooms.Weekdays.{Text}
use fab_ai_smart_hotel_manag.Pricing.{Quote, QuoteError, quote, average_nightly}
use fab_ai_smart_hotel_manag.Booking.Models.{Reservation, Allocation, holds_inventory}
use fab_ai_smart_hotel_manag.Booking.Availability.{available_rooms}
use fab_ai_smart_hotel_manag.Booking.Inventory.{double_booked}
use fab_ai_smart_hotel_manag.Booking.Frame.{open_folio-Keeps, audit-Keeps}
use fab_ai_smart_hotel_manag.Booking.Reservations.Create.{
  Booking, create, write_booking, price_and_book, insert_reservation, new_reservation,
  new_allocation, allocate, allocate_rooms, unique_code, insert_coded, hold_rooms, room_at,
  per_room, plan_or_default, lift_quote, lift_rooms,
}
use fab_ai_smart_hotel_manag.Booking.Reservations.Status.{
  IsConsistent, IsSound, Agree, FlagOf, Keyed,
}
use fab_ai_smart_hotel_manag.Database.{Db, Error, AuditAction, validation, conflict}

-- No reservation has, and no allocation names, a key that is yet to be given out.
abbrev pub IsFresh : Db → Type 0
IsFresh db =
    All (λ r. r.pk < db.next_pk) db.reservations
    × All (λ a. a.reservation < db.next_pk) db.allocations

-- The reservations with the key `k` hold inventory.
abbrev Holding : ℕ → List Reservation → List Allocation → Type 0
Holding k reservations allocations =
    IsConsistent reservations allocations
    × All (λ r. (r.pk == k) ≡ true → holds_inventory r.status ≡ true) reservations

flag_new :
    (k : ℕ) (a : Allocation) (r : Reservation)
    → a.reservation ≡ k
    → a.blocks_inventory ≡ true
    → ((r.pk == k) ≡ true → holds_inventory r.status ≡ true)
    → FlagOf r a
flag_new k a r names blocks holds own = blocks ∙ sym (holds (ground arith))

Agree-append_allocation :
    (k : ℕ) (a : Allocation) (reservations : List Reservation) (allocations : List Allocation)
    → a.reservation ≡ k
    → a.blocks_inventory ≡ true
    → Agree reservations allocations
    → All (λ r. (r.pk == k) ≡ true → holds_inventory r.status ≡ true) reservations
    → Agree reservations (allocations ++ a ∷ [])
Agree-append_allocation k a [] allocations names blocks h holds = tt
Agree-append_allocation k a (r ∷ rs) allocations names blocks h holds = (
  All-append (FlagOf r) allocations (a ∷ []) h.0 (flag_new k a r names blocks holds.0, tt),
  Agree-append_allocation k a rs allocations names blocks h.1 holds.1,
)

module _ (k : ℕ) (row : ℕ → Allocation) (names : (pk : ℕ) → (row pk).reservation ≡ k)
    (blocks : (pk : ℕ) → (row pk).blocks_inventory ≡ true) where
  allocate-at :
      (db : Db)
      → Holding k db.reservations db.allocations
      → let db' = (allocate row db).1 in Holding k db'.reservations db'.allocations
  unfolding allocate
  allocate-at db h =
      let rows = db.allocations ++ row db.next_pk ∷ [] in
      elim (Bool-cases (double_booked rows)) [
        | inl e ↦ rw e h
        | inr e ↦ rw e (
          record {
            flags_agree =
                Agree-append_allocation k (row db.next_pk) db.reservations db.allocations
                  (names db.next_pk) (blocks db.next_pk) h.0.flags_agree h.1;
            booked_once = e;
            keyed = h.0.keyed;
          },
          h.1,
        )
      ]

  pub allocate-Keeps : Keeps (λ (db : Db). Holding k db.reservations db.allocations) (allocate row)
  allocate-Keeps = record { at = allocate-at }

allocate_rooms-Keeps :
    (k : ℕ) (row : Option Room → ℕ → Allocation)
    → ((room : Option Room) (pk : ℕ) → (row room pk).reservation ≡ k)
    → ((room : Option Room) (pk : ℕ) → (row room pk).blocks_inventory ≡ true)
    → (assign : Bool) (free : List Room) (left index : ℕ)
    → Keeps
        (λ (db : Db). Holding k db.reservations db.allocations)
        (allocate_rooms row assign free left index)
unfolding allocate_rooms
allocate_rooms-Keeps k row names blocks assign free zero index = Keeps-pure tt
allocate_rooms-Keeps k row names blocks assign free (suc left) index =
    let rest = allocate_rooms-Keeps k row names blocks assign free left (index + 1) in
    let room = room_at assign free index in
    Keeps-bind _ _ (allocate-Keeps k (row room) (names room) (blocks room)) (λ _. rest)

hold_rooms-Keeps :
    (b : Booking) (free : List Room) (estimate : Quote) (r : Reservation)
    → Keeps
        (λ (db : Db). Holding r.pk db.reservations db.allocations)
        (hold_rooms b free estimate r)
unfolding hold_rooms
hold_rooms-Keeps b free estimate r =
    Keeps-bind _ _
      (allocate_rooms-Keeps r.pk
        (λ room. new_allocation b r room (average_nightly estimate) (per_room estimate b.rooms))
        (λ room pk. refl) (λ room pk. refl) b.assign_rooms free b.rooms 0)
      λ _.
        Keeps-bind _ _ (open_folio-Keeps (Holding r.pk) r)
          λ _. Keeps-bind _ _ (audit-Keeps (Holding r.pk) AuditAction.create r.pk) λ _. Keeps-pure r

flags_fresh :
    (r : Reservation) (n : ℕ) (allocations : List Allocation)
    → r.pk ≡ n
    → All (λ a. a.reservation < n) allocations
    → All (FlagOf r) allocations
flags_fresh r n allocations new h =
    All-map _ (FlagOf r) allocations (λ a old own. absurd (ground arith)) h

Keyed-append :
    (rs : List Reservation) (r : Reservation)
    → Keyed rs
    → All (λ s. s.pk < r.pk) rs
    → Keyed (rs ++ r ∷ [])
Keyed-append [] r h old = (tt, tt)
Keyed-append (s ∷ rs) r h old = (
  All-append (λ t. (t.pk == s.pk) ≡ false) rs (r ∷ []) h.0 (ground arith, tt),
  Keyed-append rs r h.1 old.1,
)

-- The state in which a reservation has been written and no room is held yet.
reserved-Holding :
    (db : Db) (r : Reservation)
    → IsSound db
    → IsFresh db
    → r.pk ≡ db.next_pk
    → holds_inventory r.status ≡ true
    → Holding r.pk (db.reservations ++ r ∷ []) db.allocations
reserved-Holding db r h fresh new holds = (
  record {
    flags_agree =
        All-append _ db.reservations (r ∷ []) h.flags_agree
          (flags_fresh r db.next_pk db.allocations new fresh.1, tt);
    booked_once = h.booked_once;
    keyed =
        Keyed-append db.reservations r h.keyed
          (All-map _ _ db.reservations (λ s old. omega arith) fresh.0);
  },
  All-append (λ s. (s.pk == r.pk) ≡ true → holds_inventory s.status ≡ true) db.reservations (r ∷ [])
      (All-map _ _ db.reservations (λ s old own. absurd (ground arith)) fresh.0) ((λ _. holds), tt),
)

module _ (b : Booking) (plan : Option RatePlan) (free : List Room) (estimate : Quote) (db : Db)
    (h : IsSound db) (fresh : IsFresh db) where
  write_coded :
      (code : Option Text)
      → IsSound
          (continue
            (insert_coded (new_reservation b plan estimate) code db)
            (hold_rooms b free estimate)).1
  write_coded none = h
  write_coded (some code) =
      let r = new_reservation b plan estimate code db.next_pk in
      ((hold_rooms-Keeps b free estimate r).at
        (record db { reservations = db.reservations ++ r ∷ []; next_pk = suc db.next_pk })
        (reserved-Holding db r h fresh refl refl)).0

  write_booking-IsSound :
      (codes : ℕ → Text) → IsSound (write_booking b codes plan free estimate db).1
  unfolding write_booking insert_reservation
  write_booking-IsSound codes = write_coded (unique_code 10 0 codes b.hotel.pk db)

-- The choice of the rooms and the price, and the booking.
module _ (b : Booking) (codes : ℕ → Text) (plan : Option RatePlan) (db : Db) (h : IsSound db)
    (fresh : IsFresh db) where
  priced-IsSound :
      (free : List Room) (priced : Result QuoteError Quote)
      → IsSound (roll_back db (continue (lift_quote priced db) (write_booking b codes plan free))).1
  priced-IsSound free (err _) = h
  priced-IsSound free (ok estimate) =
      after_atomic IsSound db _ h (write_booking-IsSound b plan free estimate db h fresh codes)

  chosen-IsSound :
      (available : Result Error (List Room))
      → IsSound
          (roll_back db (
            continue (lift_rooms available db) (λ rooms.
              raise_if (b.assign_rooms && ltb (length (take b.rooms rooms)) b.rooms) conflict
              >>= λ _. price_and_book b codes plan (take b.rooms rooms)))).1
  unfolding price_and_book
  chosen-IsSound (err _) = h
  chosen-IsSound (ok rooms) =
      raise_if-case (λ r. IsSound (roll_back db r).1)
        (b.assign_rooms && ltb (length (take b.rooms rooms)) b.rooms) conflict _ db
        (λ _.
          priced-IsSound (take b.rooms rooms)
            (quote db.room_rates b.hotel b.room_type b.check_in b.check_out plan b.adults b.rooms))
        (λ _. h)

-- A booking, made or refused, keeps the inventory consistent with the reservations: the new
-- allocations hold their rooms as the confirmed reservation does, and book no room twice. It is
-- enough that no row has, or names, a key that is yet to be given out.
pub create-IsSound :
    (b : Booking) (codes : ℕ → Text) (db : Db)
    → IsSound db
    → IsFresh db
    → IsSound (create b codes db).1
unfolding create
create-IsSound b codes db h fresh =
    let P = λ (r : Result Error Reservation × Db). IsSound (roll_back db r).1 in
    let plan = plan_or_default b.rate_plan b.hotel.pk db in
    raise_if-case P (leb b.check_out b.check_in) validation _ db
      (λ _.
        raise_if-case P (ltb b.check_in db.today && not b.allow_past) validation _ db
          (λ _.
            raise_if-case P b.guest.is_blacklisted conflict _ db
              (λ _.
                raise_if-case P (ltb (b.room_type.max_occupancy * b.rooms) (b.adults + b.children))
                  validation _ db
                  (λ _. chosen-IsSound b codes plan db h fresh (
                    available_rooms b.hotel.pk b.check_in b.check_out (some b.room_type.pk) none
                      db))
                  (λ _. h))
              (λ _. h))
          (λ _. h))
      (λ _. h)
