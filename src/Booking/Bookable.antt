-- ===== src/Booking/Bookable.antt =====
-- services/booking/availability.py, `available_rooms`, against the constraint of
-- apps/booking/models.py: a room that is offered can be booked.
use fab_ai_smart_hotel_manag.Prelude.{
  ℕ, zero, suc, ◌≡◌, refl, sym, inl, inr, true, false, ◌&&◌, ◌||◌, Option, none, some, List, [],
  ◌∷◌, ◌++◌, arith, leb, refers, any, any-append, get_elem?, Bool-cases, Option-cases, All, subst,
}
use fab_ai_smart_hotel_manag.Prelude.Sorting.{filter-kept, All-sort_by}
use mathlib.Core.Option.{some-injective}
use fab_ai_smart_hotel_manag.Prelude.Exec.{Result, ok, err}
use fab_ai_smart_hotel_manag.Rooms.{Room}
use fab_ai_smart_hotel_manag.Booking.Models.{Allocation}
use fab_ai_smart_hotel_manag.Booking.Availability.{
  is_busy, room_is_busy, is_free, room_before, available_rooms,
}
use fab_ai_smart_hotel_manag.Booking.Inventory.{clashes, double_booked, write_allocations}
use fab_ai_smart_hotel_manag.Database.{Db, Error}

pub double_booked-append :
    (rows : List Allocation) (a : Allocation)
    → double_booked (rows ++ a ∷ []) ≡ (double_booked rows || any (λ x. clashes x a) rows)
unfolding double_booked
double_booked-append [] a = refl
double_booked-append (x ∷ xs) a =
    rw (any-append (clashes x) xs (a ∷ []), double_booked-append xs a) (ground arith)

-- A row that clashes with a new row makes the room of the new row busy.
clash-is_busy :
    (x a : Allocation) (room : ℕ)
    → a.room ≡ some room
    → (is_busy x.tenant a.lower a.upper none x && refers x.room room) ≡ false
    → clashes x a ≡ false
clash-is_busy x a room here free = elim (Option-cases x.room) [
  | inl e ↦ rw e (ground arith)
  | inr (k, e) ↦ rw (e, here) (ground (arith, free, e))
]

-- The rows of a room are those of its hotel.
abbrev pub OfHotel : ℕ → ℕ → Allocation → Type 0
OfHotel hotel room x = refers x.room room ≡ true → x.tenant ≡ hotel

free-clash :
    (hotel room : ℕ) (a x : Allocation)
    → a.room ≡ some room
    → OfHotel hotel room x
    → (is_busy hotel a.lower a.upper none x && refers x.room room) ≡ false
    → clashes x a ≡ false
free-clash hotel room a x here own free =
    clash-is_busy x a room here (elim (Bool-cases (refers x.room room)) [
      | inl t ↦
          subst (λ (h : ℕ). (is_busy h a.lower a.upper none x && refers x.room room) ≡ false)
            (sym (own t)) free
      | inr n ↦ rw n (ground arith)
    ])

any-clash :
    (hotel room : ℕ) (a : Allocation) (rows : List Allocation)
    → a.room ≡ some room
    → All (OfHotel hotel room) rows
    → room_is_busy rows hotel a.lower a.upper none room ≡ false
    → any (λ x. clashes x a) rows ≡ false
any-clash hotel room a [] here own free = refl
any-clash hotel room a (x ∷ xs) here own free =
    let p = is_busy hotel a.lower a.upper none x && refers x.room room in
    let rest = room_is_busy xs hotel a.lower a.upper none room in
    let head : p ≡ false = ground (arith, free) in
    let tail : rest ≡ false = ground (arith, free) in
    rw (free-clash hotel room a x here own.0 head, any-clash hotel room a xs here own.1 tail)

-- What the search promises of each room that it offers.
abbrev Promised : (Room → Type 0) → Result Error (List Room) → Type 0
Promised P (ok rooms) = All P rooms
Promised P (err _) = Unit

available_rooms-Promised :
    (hotel check_in check_out : ℕ) (room_type : Option ℕ) (db : Db)
    → Promised
        (λ r. is_free db hotel check_in check_out room_type none r ≡ true)
        (available_rooms hotel check_in check_out room_type none db)
unfolding available_rooms
available_rooms-Promised hotel check_in check_out room_type db =
    elim (Bool-cases (leb check_out check_in)) [
      | inl e ↦ rw e tt
      | inr e ↦ rw e (
          All-sort_by room_before _ _
            (filter-kept (is_free db hotel check_in check_out room_type none) db.rooms))
    ]

All-get_elem? :
    (P : Room → Type 0) (rooms : List Room) (i : ℕ) {r : Room}
    → All P rooms
    → get_elem? rooms i ≡ some r
    → P r
All-get_elem? P [] i h e = absurd (ground (arith, e))
All-get_elem? P (x ∷ xs) zero h e = subst P (some-injective x _ e) h.0
All-get_elem? P (x ∷ xs) (suc i) h e = All-get_elem? P xs i h.1 e

-- A room that the search offers can be booked for the dates of the search: where no room is booked
-- twice and the rows of that room are those of its hotel, the constraint lets a new row with the
-- room and those dates in, whatever else the row says.
pub available_rooms_bookable :
    (hotel : ℕ) (room_type : Option ℕ) (db : Db) (a : Allocation) (rooms : List Room) (i : ℕ)
    {room : Room}
    → double_booked db.allocations ≡ false
    → available_rooms hotel a.lower a.upper room_type none db ≡ ok rooms
    → get_elem? rooms i ≡ some room
    → a.room ≡ some room.pk
    → All (OfHotel hotel room.pk) db.allocations
    → write_allocations (db.allocations ++ a ∷ []) db
      ≡ (ok tt, record db { allocations = db.allocations ++ a ∷ [] })
unfolding write_allocations
available_rooms_bookable hotel room_type db a rooms i {room} once offered chosen here own =
    let P = λ (r : Room). is_free db hotel a.lower a.upper room_type none r ≡ true in
    let all_free =
      subst (Promised P) offered (available_rooms-Promised hotel a.lower a.upper room_type db) in
    let free : P room = All-get_elem? P rooms i all_free chosen in
    let idle : room_is_busy db.allocations hotel a.lower a.upper none room.pk ≡ false =
      ground (arith, free) in
    rw (
      double_booked-append db.allocations a,
      once,
      any-clash hotel room.pk a db.allocations here own idle,
    )
