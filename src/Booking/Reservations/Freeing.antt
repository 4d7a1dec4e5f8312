-- ===== src/Booking/Reservations/Freeing.antt =====
-- services/booking/reservations.py, `cancel` and `mark_no_show`, seen through the search of
-- services/booking/availability.py: the rooms that they give back.
use fab_ai_smart_hotel_manag.Prelude.{
  ℕ, ◌≡◌, refl, ◌⊎◌, inl, inr, Bool, true, false, not, Option, none, some, List, [], ◌∷◌, arith,
  ◌==◌, filter, find?, update_where, Bool-cases, if◌then◌else◌,
}
use fab_ai_smart_hotel_manag.Prelude.Exec.{Result, ok, err, roll_back, or_raise-case, raise_if-case}
use fab_ai_smart_hotel_manag.Rooms.{Room}
use fab_ai_smart_hotel_manag.Booking.Models.{
  Reservation, ReservationStatus, Allocation, can_check_in,
}
use fab_ai_smart_hotel_manag.Booking.Availability.{is_busy, room_is_busy, is_free, available_rooms}
use fab_ai_smart_hotel_manag.Booking.Inventory.{of_reservation, unblock}
use fab_ai_smart_hotel_manag.Booking.Reservations.{cancel, mark_no_show, not_cancellable}
use fab_ai_smart_hotel_manag.Database.{Db, Error, conflict, does_not_exist}

-- Of the allocations of one reservation, the released ones block a room as little as none.
is_busy-unblock :
    (pk hotel check_in check_out : ℕ) (a : Allocation)
    → is_busy hotel check_in check_out none (if of_reservation pk a then unblock a else a)
      ≡ is_busy hotel check_in check_out (some pk) a
is_busy-unblock pk hotel check_in check_out a = elim (Bool-cases (of_reservation pk a)) [
  | inl t ↦ rw t (ground arith)
  | inr n ↦ rw n (ground arith)
]

room-unblock :
    (pk : ℕ) (a : Allocation) → (if of_reservation pk a then unblock a else a).room ≡ a.room
room-unblock pk a = elim (Bool-cases (of_reservation pk a)) [ inl t ↦ rw t | inr n ↦ rw n ]

room_is_busy-unblock :
    (pk hotel check_in check_out room : ℕ) (allocations : List Allocation)
    → room_is_busy
        (update_where (of_reservation pk) unblock allocations)
        hotel
        check_in
        check_out
        none
        room
      ≡ room_is_busy allocations hotel check_in check_out (some pk) room
room_is_busy-unblock pk hotel check_in check_out room [] = refl
room_is_busy-unblock pk hotel check_in check_out room (a ∷ as') = rw (
  is_busy-unblock pk hotel check_in check_out a,
  room-unblock pk a,
  room_is_busy-unblock pk hotel check_in check_out room as',
)

filter_agree :
    (p q : Room → Bool) (rooms : List Room)
    → ((r : Room) → p r ≡ q r)
    → filter p rooms ≡ filter q rooms
filter_agree p q [] same = refl
filter_agree p q (r ∷ rs) same = rw (same r, filter_agree p q rs same)

-- What the search offers once the reservation `pk` is released is what it offers when it is told
-- to leave that reservation aside.
available_rooms-release :
    (pk : ℕ) (db db' : Db)
    → db'.rooms ≡ db.rooms
    → db'.allocations ≡ update_where (of_reservation pk) unblock db.allocations
    → (hotel check_in check_out : ℕ) (room_type : Option ℕ)
    → available_rooms hotel check_in check_out room_type none db'
      ≡ available_rooms hotel check_in check_out room_type (some pk) db
unfolding available_rooms
available_rooms-release pk db db' same released hotel check_in check_out room_type = rw (
  same,
  filter_agree (is_free db' hotel check_in check_out room_type none)
      (is_free db hotel check_in check_out room_type (some pk)) db.rooms
      (λ r. rw (released, room_is_busy-unblock pk hotel check_in check_out r.pk db.allocations)),
)

-- How giving up a reservation ends, for the statuses that refuse it.
abbrev pub Freed : ℕ → (ReservationStatus → Bool) → Db → Result Error Reservation × Db → Type 0
Freed pk refuses db (ok _, db') =
    ((r : Reservation) × (find? (λ (r : Reservation). r.pk == pk) db.reservations ≡ some r)
      × (refuses r.status ≡ false))
    × ((hotel check_in check_out : ℕ) (room_type : Option ℕ)
        → available_rooms hotel check_in check_out room_type none db'
          ≡ available_rooms hotel check_in check_out room_type (some pk) db)
Freed pk refuses db (err e, db') =
    (db' ≡ db)
    × (((r : Reservation) × (find? (λ (r : Reservation). r.pk == pk) db.reservations ≡ some r)
          × (refuses r.status ≡ true)
          × (e ≡ conflict))
        ⊎ ((find? (λ (r : Reservation). r.pk == pk) db.reservations ≡ none) × (e ≡ does_not_exist)))

-- A cancellation gives the rooms back: from then on the search offers for any dates exactly what it
-- offered with the reservation left aside. It is refused, and changes nothing, exactly when there
-- is no such reservation or its status is checked in, checked out or cancelled.
pub cancel-Freed : (pk : ℕ) (db : Db) → Freed pk not_cancellable db (cancel pk db)
unfolding cancel
cancel-Freed pk db =
    or_raise-case (λ r. Freed pk not_cancellable db (roll_back db r))
      (find? (λ (r : Reservation). r.pk == pk) db.reservations) does_not_exist _ db
      (λ x found.
        raise_if-case (λ r. Freed pk not_cancellable db (roll_back db r)) (not_cancellable x.status)
          conflict _ db (λ may. ((x, found, may), available_rooms-release pk db _ refl refl))
          (λ no. (refl, inl (x, found, no, refl))))
      (λ missing. (refl, inr (missing, refl)))

-- A no-show gives the rooms back: from then on the search offers for any dates exactly what it
-- offered with the reservation left aside. It is refused, and changes nothing, exactly when there
-- is no such reservation or its status is neither pending nor confirmed.
pub mark_no_show-Freed :
    (pk : ℕ) (db : Db) → Freed pk (λ s. not (can_check_in s)) db (mark_no_show pk db)
unfolding mark_no_show
mark_no_show-Freed pk db =
    or_raise-case (λ r. Freed pk (λ s. not (can_check_in s)) db (roll_back db r))
      (find? (λ (r : Reservation). r.pk == pk) db.reservations) does_not_exist _ db
      (λ x found.
        raise_if-case (λ r. Freed pk (λ s. not (can_check_in s)) db (roll_back db r))
          (not (can_check_in x.status)) conflict _ db
          (λ may. ((x, found, may), available_rooms-release pk db _ refl refl))
          (λ no. (refl, inl (x, found, no, refl))))
      (λ missing. (refl, inr (missing, refl)))
