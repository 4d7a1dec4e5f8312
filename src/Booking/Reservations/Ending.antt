-- ===== src/Booking/Reservations/Ending.antt =====
-- services/booking/reservations.py, `cancel`, `mark_no_show` and `check_out`: they let go of the
-- rooms of the reservation.
use fab_ai_smart_hotel_manag.Prelude.{
  ℕ, ◌≡◌, refl, Bool, false, not, ◌&&◌, none, List, ◌==◌, find?, update_where, inl, inr, Bool-cases,
}
use fab_ai_smart_hotel_manag.Prelude.Int.{ℤ, pos, ltb_ℤ, leb_ℤ}
use fab_ai_smart_hotel_manag.Prelude.Exec.{roll_back, or_raise-case, raise_if-case}
use fab_ai_smart_hotel_manag.Prelude.Keeps.{
  Keeps, Keeps-bind, Keeps-pure, Keeps-atomic, Keeps-raise_if,
}
use fab_ai_smart_hotel_manag.Rooms.{RoomStatus}
use fab_ai_smart_hotel_manag.Billing.Models.{Folio, Invoice}
use fab_ai_smart_hotel_manag.Booking.Models.{
  Reservation, Allocation, EventKind, can_check_in, is_in_house, holds_inventory,
}
use fab_ai_smart_hotel_manag.Booking.Inventory.{of_reservation, unblock}
use fab_ai_smart_hotel_manag.Booking.Frame.{
  audit-Keeps, get_reservation-Keeps, get_folio-Keeps, recalculate-Keeps, add_event-Keeps,
  open_folio-Keeps, set_rooms-Keeps, issue_invoice-Keeps,
}
use fab_ai_smart_hotel_manag.Booking.Reservations.{
  cancel, mark_no_show, check_out, write_check_out, leave_house, settle_if_paid, end_stay,
  count_stay, not_cancellable, called_off, missed, departed,
}
use fab_ai_smart_hotel_manag.Booking.Reservations.Status.{
  IsConsistent, IsSound, Agree-release, Keyed-update, double_booked-release,
}
use fab_ai_smart_hotel_manag.Database.{Db, AuditAction, conflict, does_not_exist}

-- The two writes that end a stay, together.
released :
    (pk : ℕ) (f : Reservation → Reservation) (reservations : List Reservation)
    (allocations : List Allocation)
    → ((r : Reservation) → (f r).pk ≡ r.pk)
    → ((r : Reservation) → holds_inventory (f r).status ≡ false)
    → IsConsistent reservations allocations
    → IsConsistent
        (update_where (λ (r : Reservation). r.pk == pk) f reservations)
        (update_where (of_reservation pk) unblock allocations)
released pk f reservations allocations same_pk lets_go h = record {
  flags_agree = Agree-release pk f reservations allocations same_pk lets_go h.flags_agree;
  booked_once = double_booked-release (of_reservation pk) allocations h.booked_once;
  keyed = Keyed-update (λ (r : Reservation). r.pk == pk) f reservations same_pk h.keyed;
}

-- A cancellation, done or refused, keeps the inventory consistent with the reservations.
pub cancel-IsSound : (pk : ℕ) (db : Db) → IsSound db → IsSound (cancel pk db).1
unfolding cancel
cancel-IsSound pk db h =
    or_raise-case (λ r. IsSound (roll_back db r).1)
      (find? (λ (r : Reservation). r.pk == pk) db.reservations) does_not_exist _ db
      (λ x found.
        raise_if-case (λ r. IsSound (roll_back db r).1) (not_cancellable x.status) conflict _ db
          (λ _.
            released pk (called_off db.now) db.reservations db.allocations (λ r. refl) (λ r. refl)
              h)
          (λ _. h))
      (λ _. h)

-- A no-show, done or refused, keeps the inventory consistent with the reservations.
pub mark_no_show-IsSound : (pk : ℕ) (db : Db) → IsSound db → IsSound (mark_no_show pk db).1
unfolding mark_no_show
mark_no_show-IsSound pk db h =
    or_raise-case (λ r. IsSound (roll_back db r).1)
      (find? (λ (r : Reservation). r.pk == pk) db.reservations) does_not_exist _ db
      (λ x found.
        raise_if-case (λ r. IsSound (roll_back db r).1) (not (can_check_in x.status)) conflict _ db
          (λ _. released pk missed db.reservations db.allocations (λ r. refl) (λ r. refl) h)
          (λ _. h))
      (λ _. h)

-- What a check-out keeps of the stays, if the end of the stay keeps it.
module _ (R : List Reservation → List Allocation → Type 0) where
  abbrev Stays : Db → Type 0
  Stays db = R db.reservations db.allocations

  settle_if_paid-Keeps : (folio : Folio) → Keeps Stays (settle_if_paid folio)
  unfolding settle_if_paid
  settle_if_paid-Keeps folio = record {
    at =
        λ db h. elim (Bool-cases (leb_ℤ folio.balance (pos 0))) [ inl e ↦ rw e h | inr e ↦ rw e h ];
  }

  count_stay-Keeps : (guest : ℕ) (charges : ℤ) → Keeps Stays (count_stay guest charges)
  unfolding count_stay
  count_stay-Keeps guest charges = record { at = λ db h. h }

  write_check_out-Keeps :
      (reservation : Reservation) (folio : Folio) (invoice : Invoice)
      → Keeps Stays (end_stay reservation.pk)
      → Keeps Stays (write_check_out reservation folio invoice)
  unfolding write_check_out
  write_check_out-Keeps reservation folio invoice ends =
      Keeps-bind _ _ (settle_if_paid-Keeps folio) λ _. Keeps-bind _ _ ends λ _.
        Keeps-bind _ _ (set_rooms-Keeps R reservation.pk RoomStatus.vacant_dirty) λ _.
          Keeps-bind _ _ (count_stay-Keeps reservation.guest folio.charges_total) λ _.
            Keeps-bind _ _ (add_event-Keeps R reservation EventKind.check_out none) λ _.
              Keeps-bind _ _ (audit-Keeps R AuditAction.update reservation.pk)
                λ _. Keeps-pure invoice

  pub leave_house-Keeps :
      (reservation : Reservation) (force : Bool)
      → Keeps Stays (end_stay reservation.pk)
      → Keeps Stays (leave_house force reservation)
  unfolding leave_house
  leave_house-Keeps reservation force ends =
      Keeps-bind _ _ (open_folio-Keeps R reservation) λ opened.
        Keeps-bind _ _ (recalculate-Keeps R opened.pk) λ _.
          Keeps-bind _ _ (get_folio-Keeps opened.pk) λ folio.
            Keeps-bind _ _ (Keeps-raise_if (ltb_ℤ (pos 0) folio.balance && not force) conflict) λ _.
              Keeps-bind _ _ (issue_invoice-Keeps R folio.pk)
                λ invoice. write_check_out-Keeps reservation folio invoice ends

end_stay-Keeps : (pk : ℕ) → Keeps IsSound (end_stay pk)
unfolding end_stay
end_stay-Keeps pk = record {
  at = λ db h.
      released pk (departed db.now) db.reservations db.allocations (λ r. refl) (λ r. refl) h;
}

check_out-Keeps : (pk : ℕ) (force : Bool) → Keeps IsSound (check_out pk force)
unfolding check_out
check_out-Keeps pk force = Keeps-atomic _ (
    Keeps-bind _ _ (get_reservation-Keeps pk) λ reservation.
      Keeps-bind _ _ (Keeps-raise_if (not (is_in_house reservation.status)) conflict)
        λ _. leave_house-Keeps IsConsistent reservation force (end_stay-Keeps reservation.pk))

-- A check-out, done or refused, keeps the inventory consistent with the reservations.
pub check_out-IsSound :
    (pk : ℕ) (force : Bool) (db : Db) → IsSound db → IsSound (check_out pk force db).1
check_out-IsSound pk force = (check_out-Keeps pk force).at
