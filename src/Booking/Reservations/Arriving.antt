-- ===== src/Booking/Reservations/Arriving.antt =====
-- services/booking/reservations.py, `check_in` and `assign_room`: the rooms of an arriving guest.
use fab_ai_smart_hotel_manag.Prelude.{
  ℕ, ◌≡◌, refl, true, false, not, none, some, List, [], ◌∷◌, arith, ◌==◌, ==_iff, find?,
  find?_holds, filter, update_where, All, All-map, All-update, ◌⊎◌, inl, inr, Bool-cases,
  if◌then◌else◌, subst, sym, ◌∙◌, ap,
}
use fab_ai_smart_hotel_manag.Prelude.Exec.{
  Result, ok, err, Unit₀, roll_back, continue, for_each, or_raise-case, raise_if-case,
}
use fab_ai_smart_hotel_manag.Prelude.Keeps.{
  Keeps, Keeps-bind, Keeps-gets, Keeps-atomic, Keeps-or_raise, Keeps-raise_if, Keeps-for_each,
  after_atomic,
}
use fab_ai_smart_hotel_manag.Rooms.{Room, RoomStatus, is_sellable}
use fab_ai_smart_hotel_manag.Booking.Models.{
  Reservation, ReservationStatus, Allocation, EventKind, can_check_in, holds_inventory,
}
use fab_ai_smart_hotel_manag.Booking.Inventory.{put_room, save_room, assign_room, double_booked}
use fab_ai_smart_hotel_manag.Booking.Frame.{
  get_reservation-Keeps, audit-Keeps, add_event-Keeps, open_folio-Keeps, set_rooms-Keeps,
}
use fab_ai_smart_hotel_manag.Booking.Reservations.{
  check_in, write_check_in, begin_stay, arrived, assign_free, free_room, is_unassigned,
}
use fab_ai_smart_hotel_manag.Booking.Reservations.Status.{
  IsConsistent, IsSound, Agree, FlagOf, Keyed-update, found_only,
}
use fab_ai_smart_hotel_manag.Database.{Db, Error, AuditAction, conflict, validation, does_not_exist}

-- The reservations with one key are in a status.
abbrev InStatus : ℕ → ReservationStatus → List Reservation → Type 0
InStatus pk status = All (λ r. (r.pk == pk) ≡ true → r.status ≡ status)

abbrev Arriving : ℕ → ReservationStatus → List Reservation → List Allocation → Type 0
Arriving pk status reservations allocations =
    IsConsistent reservations allocations × InStatus pk status reservations

Agree-put_room :
    (pk room : ℕ) (reservations : List Reservation) (allocations : List Allocation)
    → Agree reservations allocations
    → Agree reservations (update_where (λ (a : Allocation). a.pk == pk) (put_room room) allocations)
Agree-put_room pk room reservations allocations h =
    All-map _ _ reservations
      (λ r agrees.
        All-update (FlagOf r) (FlagOf r) (λ (a : Allocation). a.pk == pk) (put_room room)
          allocations (λ a flag _. flag) (λ a flag _. flag) agrees)
      h

module _ (pk : ℕ) (status : ReservationStatus) where
  abbrev Waiting : Db → Type 0
  Waiting db = Arriving pk status db.reservations db.allocations

  save_room-at : (key room : ℕ) (db : Db) → Waiting db → Waiting (save_room key room db).1
  unfolding save_room
  save_room-at key room db h =
      let rows = update_where (λ (a : Allocation). a.pk == key) (put_room room) db.allocations in
      elim (Bool-cases (double_booked rows)) [
        | inl e ↦ rw e h
        | inr e ↦ rw e (
          record {
            flags_agree = Agree-put_room key room db.reservations db.allocations h.0.flags_agree;
            booked_once = e;
            keyed = h.0.keyed;
          },
          h.1,
        )
      ]

  save_room-Keeps : (key room : ℕ) → Keeps Waiting (save_room key room)
  save_room-Keeps key room = record { at = save_room-at key room }

  assign_room-Keeps :
      (r : Reservation) (a : Allocation) (room : Room) → Keeps Waiting (assign_room r a room)
  unfolding assign_room
  assign_room-Keeps r a room = Keeps-atomic _ (
      Keeps-bind _ _ (Keeps-raise_if (not (room.room_type == a.room_type)) validation) λ _.
        Keeps-bind _ _ (Keeps-raise_if (not (is_sellable room)) conflict) λ _.
          Keeps-bind _ _ (save_room-Keeps a.pk room.pk)
            λ _. add_event-Keeps (Arriving pk status) r EventKind.room_move (some room.pk))

  assign_free-Keeps : (r : Reservation) (a : Allocation) → Keeps Waiting (assign_free r a)
  unfolding assign_free
  assign_free-Keeps r a =
      Keeps-bind _ _ (Keeps-gets (free_room r a))
        λ free. Keeps-bind _ _ (Keeps-or_raise free conflict) λ room. assign_room-Keeps r a room

-- A reservation that may check in holds inventory, before and after.
can_check_in-holds : (s : ReservationStatus) → can_check_in s ≡ true → holds_inventory s ≡ true
can_check_in-holds s h = ground arith

arrived-FlagOf :
    (now : ℕ) (r : Reservation) (allocations : List Allocation)
    → can_check_in r.status ≡ true
    → All (FlagOf r) allocations
    → All (FlagOf (arrived now r)) allocations
arrived-FlagOf now r allocations may h =
    All-map (FlagOf r) (FlagOf (arrived now r)) allocations
      (λ a flag own. flag own ∙ can_check_in-holds r.status may) h

Agree-arrived :
    (pk : ℕ) (status : ReservationStatus) (now : ℕ) (reservations : List Reservation)
    (allocations : List Allocation)
    → can_check_in status ≡ true
    → Agree reservations allocations
    → InStatus pk status reservations
    → Agree (update_where (λ (r : Reservation). r.pk == pk) (arrived now) reservations) allocations
Agree-arrived pk status now [] allocations may h k = tt
Agree-arrived pk status now (r ∷ rs) allocations may h k =
    (head (Bool-cases (r.pk == pk)), Agree-arrived pk status now rs allocations may h.1 k.1)
  where
    head :
        ((r.pk == pk) ≡ true) ⊎ ((r.pk == pk) ≡ false)
        → All (FlagOf (if r.pk == pk then arrived now r else r)) allocations
    head (inl t) = rw t (arrived-FlagOf now r allocations (ap can_check_in (k.0 t) ∙ may) h.0)
    head (inr n) = rw n h.0

begin_stay-IsSound :
    (pk : ℕ) (status : ReservationStatus) (db : Db)
    → can_check_in status ≡ true
    → Arriving pk status db.reservations db.allocations
    → IsSound (begin_stay pk db).1
unfolding begin_stay
begin_stay-IsSound pk status db may h = record {
  flags_agree =
      Agree-arrived pk status db.now db.reservations db.allocations may h.0.flags_agree h.1;
  booked_once = h.0.booked_once;
  keyed =
      Keyed-update (λ (r : Reservation). r.pk == pk) (arrived db.now) db.reservations (λ r. refl)
        h.0.keyed;
}

-- The rest of a check-in, from the state in which every allocation has its room.
module _ (reservation : Reservation) (may : can_check_in reservation.status ≡ true) where
  settling_in :
      (db : Db)
      → Arriving reservation.pk reservation.status db.reservations db.allocations
      → IsSound (write_check_in reservation db).1
  unfolding write_check_in
  settling_in db h =
      (Keeps-bind _ _ (set_rooms-Keeps IsConsistent reservation.pk RoomStatus.occupied) λ _.
          Keeps-bind _ _ (open_folio-Keeps IsConsistent reservation) λ _.
            Keeps-bind _ _ (add_event-Keeps IsConsistent reservation EventKind.check_in none) λ _.
              Keeps-bind _ _ (audit-Keeps IsConsistent AuditAction.update reservation.pk)
                λ _. get_reservation-Keeps reservation.pk).at
        (begin_stay reservation.pk db).1
        (begin_stay-IsSound reservation.pk reservation.status db may h)

  finish :
      (r : Result Error Unit₀ × Db)
      → Arriving reservation.pk reservation.status r.1.reservations r.1.allocations
      → IsSound (continue r (λ _. write_check_in reservation)).1
  finish (ok _, db) h = settling_in db h
  finish (err _, db) h = h.0

  assigned :
      (unassigned : List Allocation) (db : Db)
      → Arriving reservation.pk reservation.status db.reservations db.allocations
      → IsSound
          (continue
            (for_each (assign_free reservation) unassigned db)
            (λ _. write_check_in reservation)).1
  assigned unassigned db h = finish (for_each (assign_free reservation) unassigned db) (
      (Keeps-for_each (assign_free reservation) unassigned
          (assign_free-Keeps reservation.pk reservation.status reservation)).at
        db h)

-- A check-in, done or refused, keeps the inventory consistent with the reservations: the rooms
-- that it assigns are not booked twice, and the flags agree with the new status.
pub check_in-IsSound : (pk : ℕ) (db : Db) → IsSound db → IsSound (check_in pk db).1
unfolding check_in
check_in-IsSound pk db h =
    or_raise-case (λ r. IsSound (roll_back db r).1)
      (find? (λ (r : Reservation). r.pk == pk) db.reservations) does_not_exist _ db
      (λ x found.
        raise_if-case (λ r. IsSound (roll_back db r).1) (not (can_check_in x.status)) conflict _ db
          (λ may.
            let own : x.pk ≡ pk =
              (==_iff x.pk pk).0
                (find?_holds (λ (r : Reservation). r.pk == pk) db.reservations found) in
            after_atomic IsSound db _ h (
              assigned x (ground arith) (filter (is_unassigned pk) db.allocations) db (
                h,
                subst (λ (k : ℕ). InStatus k x.status db.reservations) (sym own)
                    (found_only pk db.reservations h.keyed found),
              )))
          (λ _. h))
      (λ _. h)
