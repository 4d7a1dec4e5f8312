-- ===== src/Booking/Reservations/Diagram/InHouse.antt =====
-- services/booking/reservations.py: how `check_in` and `check_out` move the status of a reservation.
use fab_ai_smart_hotel_manag.Prelude.{
  ℕ, ◌≡◌, refl, inl, inr, Bool, true, not, some, none, filter, List, ◌==◌, find?, All, update_where,
  Bool-cases,
}
use fab_ai_smart_hotel_manag.Prelude.Exec.{Result, roll_back, or_raise-case, raise_if-case}
use fab_ai_smart_hotel_manag.Prelude.Keeps.{
  Keeps, Keeps-bind, Keeps-gets, Keeps-or_raise, Keeps-raise_if, Keeps-atomic, Keeps-for_each,
  after_atomic,
}
use fab_ai_smart_hotel_manag.Billing.Models.{Invoice}
use fab_ai_smart_hotel_manag.Booking.Inventory.{
  release, save_room, put_room, assign_room, double_booked,
}
use fab_ai_smart_hotel_manag.Booking.Frame.{
  add_event-Keeps, set_rooms-Keeps, open_folio-Keeps, audit-Keeps, get_reservation-Keeps,
}
use fab_ai_smart_hotel_manag.Rooms.{RoomStatus, is_sellable}
use fab_ai_smart_hotel_manag.Booking.Reservations.Ending.{leave_house-Keeps}
use fab_ai_smart_hotel_manag.Booking.Models.{
  Reservation, Allocation, EventKind, checked_in, checked_out, can_check_in, is_in_house,
}
use fab_ai_smart_hotel_manag.Booking.Reservations.{
  check_in, write_check_in, begin_stay, arrived, assign_free, free_room, is_unassigned, check_out,
  end_stay, departed,
}
use fab_ai_smart_hotel_manag.Booking.Reservations.Status.{Keyed}
use fab_ai_smart_hotel_manag.Database.{Db, Error, AuditAction, validation, conflict, does_not_exist}
use fab_ai_smart_hotel_manag.Booking.Reservations.Diagram.{
  Moved, Move, Moved-refl, Moved-step, own_moves, leave-Move, arrive-Move,
}

end_stay-Moved :
    (pk : ℕ) (rs : List Reservation)
    → All (λ r. (r.pk == pk) ≡ true → Move r.status checked_out) rs
    → Keeps (λ (db : Db). Moved rs db.reservations) (end_stay pk)
unfolding end_stay release
end_stay-Moved pk rs h = record {
  at = λ db m.
      Moved-step pk (departed db.now) checked_out rs db.reservations (λ r. refl) (λ r. refl) h m;
}

-- A check-out, done or refused, keeps every reservation and moves its status along the diagram by at
-- most one step, where no two reservations have the same key.
pub check_out-Moved :
    (pk : ℕ) (force : Bool) (db : Db)
    → Keyed db.reservations
    → Moved db.reservations (check_out pk force db).1.reservations
unfolding check_out
check_out-Moved pk force db h =
    let rs = db.reservations in
    let P = λ (r : Result Error Invoice × Db). Moved rs (roll_back db r).1.reservations in
    or_raise-case P (find? (λ (r : Reservation). r.pk == pk) rs) does_not_exist _ db
      (λ x found.
        raise_if-case P (not (is_in_house x.status)) conflict _ db
          (λ may.
            after_atomic (λ (db' : Db). Moved rs db'.reservations) db _ (Moved-refl rs)
              ((leave_house-Keeps (λ ss _. Moved rs ss) x force
                  (end_stay-Moved x.pk rs
                    (own_moves pk checked_out rs h found (leave-Move x.status may)))).at
                db (Moved-refl rs)))
          (λ _. Moved-refl rs))
      (λ _. Moved-refl rs)

module _ (rs : List Reservation) where
  abbrev From : Db → Type 0
  From db = Moved rs db.reservations

  save_room-Moved : (pk room : ℕ) → Keeps From (save_room pk room)
  unfolding save_room
  save_room-Moved pk room = record {
    at = λ db m.
        elim (Bool-cases (
          double_booked
            (update_where (λ (a : Allocation). a.pk == pk) (put_room room) db.allocations))) [
              | inl e ↦ rw e m
              | inr e ↦ rw e m
            ];
  }

  assign_free-Moved : (r : Reservation) (a : Allocation) → Keeps From (assign_free r a)
  unfolding assign_free assign_room
  assign_free-Moved r a = Keeps-bind _ _ (Keeps-gets (free_room r a)) λ free.
      Keeps-bind _ _ (Keeps-or_raise free conflict) λ room. Keeps-atomic _ (
        Keeps-bind _ _ (Keeps-raise_if (not (room.room_type == a.room_type)) validation) λ _.
          Keeps-bind _ _ (Keeps-raise_if (not (is_sellable room)) conflict) λ _.
            Keeps-bind _ _ (save_room-Moved a.pk room.pk)
              λ _. add_event-Keeps (λ ss _. Moved rs ss) r EventKind.room_move (some room.pk))

  write_check_in-Moved :
      (r : Reservation) → Keeps From (begin_stay r.pk) → Keeps From (write_check_in r)
  unfolding write_check_in
  write_check_in-Moved r begins =
      let R = λ (ss : List Reservation) (_ : List Allocation). Moved rs ss in
      Keeps-bind _ _ begins λ _. Keeps-bind _ _ (set_rooms-Keeps R r.pk RoomStatus.occupied) λ _.
        Keeps-bind _ _ (open_folio-Keeps R r) λ _.
          Keeps-bind _ _ (add_event-Keeps R r EventKind.check_in none) λ _.
            Keeps-bind _ _ (audit-Keeps R AuditAction.update r.pk) λ _. get_reservation-Keeps r.pk

begin_stay-Moved :
    (pk : ℕ) (rs : List Reservation)
    → All (λ r. (r.pk == pk) ≡ true → Move r.status checked_in) rs
    → Keeps (λ (db : Db). Moved rs db.reservations) (begin_stay pk)
unfolding begin_stay
begin_stay-Moved pk rs h = record {
  at = λ db m.
      Moved-step pk (arrived db.now) checked_in rs db.reservations (λ r. refl) (λ r. refl) h m;
}

-- A check-in, done or refused, keeps every reservation and moves its status along the diagram by at
-- most one step, where no two reservations have the same key.
pub check_in-Moved :
    (pk : ℕ) (db : Db)
    → Keyed db.reservations
    → Moved db.reservations (check_in pk db).1.reservations
unfolding check_in
check_in-Moved pk db h =
    let rs = db.reservations in
    let P = λ (r : Result Error Reservation × Db). Moved rs (roll_back db r).1.reservations in
    or_raise-case P (find? (λ (r : Reservation). r.pk == pk) rs) does_not_exist _ db
      (λ x found.
        raise_if-case P (not (can_check_in x.status)) conflict _ db
          (λ may.
            after_atomic (λ (db' : Db). Moved rs db'.reservations) db _ (Moved-refl rs)
              ((Keeps-bind _ _
                  (Keeps-for_each (assign_free x) (filter (is_unassigned pk) db.allocations)
                    (assign_free-Moved rs x))
                  λ _. write_check_in-Moved rs x (
                    begin_stay-Moved x.pk rs
                      (own_moves pk checked_in rs h found (arrive-Move x.status may)))).at
                db (Moved-refl rs)))
          (λ _. Moved-refl rs))
      (λ _. Moved-refl rs)
