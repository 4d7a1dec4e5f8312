-- ===== src/Booking/Reservations/Diagram.antt =====
-- services/booking/reservations.py: how the services move the status of a reservation.
pub mod InHouse
pub mod Lives
use fab_ai_smart_hotel_manag.Prelude.{
  ℕ, ◌≡◌, refl, sym, ◌∙◌, ◌⊎◌, inl, inr, Bool, true, false, not, some, none, filter, List, [], ◌∷◌,
  ◌==◌, ==_iff, find?, find?_holds, All, All-map, update_where, Bool-cases, subst,
}
use mathlib.Core.Bool.{false≢true}
use fab_ai_smart_hotel_manag.Prelude.Exec.{Result, roll_back, or_raise-case, raise_if-case}
use fab_ai_smart_hotel_manag.Prelude.Keeps.{
  Keeps, Keeps-bind, Keeps-gets, Keeps-or_raise, Keeps-raise_if, Keeps-atomic, Keeps-for_each,
  after_atomic,
}
use fab_ai_smart_hotel_manag.Billing.Models.{Invoice}
use fab_ai_smart_hotel_manag.Booking.Inventory.{
  release, save_room, put_room, assign_room, double_booked,
}
use fab_ai_smart_hotel_manag.Booking.Frame.{
  add_event-Keeps, set_rooms-Keeps, open_folio-Keeps, audit-Keeps, get_reservation-Keeps,
}
use fab_ai_smart_hotel_manag.Rooms.{RoomStatus, is_sellable}
use fab_ai_smart_hotel_manag.Booking.Reservations.Ending.{leave_house-Keeps}
use fab_ai_smart_hotel_manag.Booking.Models.{
  Reservation, Allocation, EventKind, ReservationStatus, pending, confirmed, checked_in,
  checked_out, cancelled, no_show, can_check_in, is_in_house,
}
use fab_ai_smart_hotel_manag.Booking.Reservations.{
  check_in, write_check_in, begin_stay, arrived, assign_free, free_room, is_unassigned, check_out,
  end_stay, departed, cancel, mark_no_show, called_off, missed, not_cancellable,
}
use fab_ai_smart_hotel_manag.Booking.Reservations.Status.{Keyed, found_only}
use fab_ai_smart_hotel_manag.Database.{Db, Error, AuditAction, validation, conflict, does_not_exist}

-- The diagram of the statuses.
pub data Move : ReservationStatus → ReservationStatus → Type 0 where
  arrive_unconfirmed : Move pending checked_in
  arrive : Move confirmed checked_in
  leave : Move checked_in checked_out
  call_off_unconfirmed : Move pending cancelled
  call_off : Move confirmed cancelled
  excuse : Move no_show cancelled
  miss_unconfirmed : Move pending no_show
  miss : Move confirmed no_show

-- The same reservations, each with its status or one move further.
abbrev pub Moved : List Reservation → List Reservation → Type 0
Moved [] [] = Unit
Moved (r ∷ rs) (s ∷ ss) =
    ((s.pk ≡ r.pk) × ((s.status ≡ r.status) ⊎ Move r.status s.status)) × Moved rs ss
Moved _ _ = ⊥

pub Moved-refl : (rs : List Reservation) → Moved rs rs
Moved-refl [] = tt
Moved-refl (r ∷ rs) = ((refl, inl refl), Moved-refl rs)

pub Moved-update :
    (pk : ℕ) (f : Reservation → Reservation) (status : ReservationStatus) (rs : List Reservation)
    → ((r : Reservation) → (f r).pk ≡ r.pk)
    → ((r : Reservation) → Move status (f r).status)
    → All (λ r. (r.pk == pk) ≡ true → r.status ≡ status) rs
    → Moved rs (update_where (λ (r : Reservation). r.pk == pk) f rs)
Moved-update pk f status [] same move h = tt
Moved-update pk f status (r ∷ rs) same move h = elim (Bool-cases (r.pk == pk)) [
  | inl t ↦ rw t (
    (same r, inr (subst (λ (s : ReservationStatus). Move s (f r).status) (sym (h.0 t)) (move r))),
    Moved-update pk f status rs same move h.1,
  )
  | inr n ↦ rw n ((refl, inl refl), Moved-update pk f status rs same move h.1)
]

-- What the found reservation may do, every reservation with its key may.
pub own_moves :
    (pk : ℕ) (to : ReservationStatus) (rs : List Reservation) {x : Reservation}
    → Keyed rs
    → find? (λ (r : Reservation). r.pk == pk) rs ≡ some x
    → Move x.status to
    → All (λ r. (r.pk == x.pk) ≡ true → Move r.status to) rs
own_moves pk to rs {x} h found move =
    let own : x.pk ≡ pk =
      (==_iff x.pk pk).0 (find?_holds (λ (r : Reservation). r.pk == pk) rs found) in
    All-map _ _ rs
      (λ r same t.
        subst (λ (s : ReservationStatus). Move s to)
          (sym (same (subst (λ (k : ℕ). (r.pk == k) ≡ true) own t))) move)
      (found_only pk rs h found)

-- One more step of the reservations with one key, all of which it may take to `to`.
pub Moved-step :
    (pk : ℕ) (f : Reservation → Reservation) (to : ReservationStatus) (rs ss : List Reservation)
    → ((r : Reservation) → (f r).pk ≡ r.pk)
    → ((r : Reservation) → (f r).status ≡ to)
    → All (λ r. (r.pk == pk) ≡ true → Move r.status to) rs
    → Moved rs ss
    → Moved rs (update_where (λ (r : Reservation). r.pk == pk) f ss)
Moved-step pk f to [] [] same ends h m = tt
Moved-step pk f to [] (s ∷ ss) same ends h m = m
Moved-step pk f to (r ∷ rs) [] same ends h m = m
Moved-step pk f to (r ∷ rs) (s ∷ ss) same ends h m = elim (Bool-cases (s.pk == pk)) [
  | inl t ↦
      let own : (r.pk == pk) ≡ true = subst (λ (k : ℕ). (k == pk) ≡ true) m.0.0 t in
      rw t (
        (
          same s ∙ m.0.0,
          inr (subst (λ (k : ReservationStatus). Move r.status k) (sym (ends s)) (h.0 own)),
        ),
        Moved-step pk f to rs ss same ends h.1 m.1,
      )
  | inr n ↦ rw n (m.0, Moved-step pk f to rs ss same ends h.1 m.1)
]

call_off-Move : (s : ReservationStatus) → not_cancellable s ≡ false → Move s cancelled
call_off-Move pending h = call_off_unconfirmed
call_off-Move confirmed h = call_off
call_off-Move no_show h = excuse
call_off-Move checked_in h = absurd (false≢true (sym h))
call_off-Move checked_out h = absurd (false≢true (sym h))
call_off-Move cancelled h = absurd (false≢true (sym h))

miss-Move : (s : ReservationStatus) → not (can_check_in s) ≡ false → Move s no_show
miss-Move pending h = miss_unconfirmed
miss-Move confirmed h = miss
miss-Move no_show h = absurd (false≢true (sym h))
miss-Move checked_in h = absurd (false≢true (sym h))
miss-Move checked_out h = absurd (false≢true (sym h))
miss-Move cancelled h = absurd (false≢true (sym h))

-- A cancellation, done or refused, keeps every reservation and moves its status along the diagram by at
-- most one step, where no two reservations have the same key.
pub cancel-Moved :
    (pk : ℕ) (db : Db) → Keyed db.reservations → Moved db.reservations (cancel pk db).1.reservations
unfolding cancel
cancel-Moved pk db h =
    let P = λ (r : Result Error Reservation × Db).
      Moved db.reservations (roll_back db r).1.reservations in
    or_raise-case P (find? (λ (r : Reservation). r.pk == pk) db.reservations) does_not_exist _ db
      (λ x found.
        raise_if-case P (not_cancellable x.status) conflict _ db
          (λ may.
            Moved-update pk (called_off db.now) x.status db.reservations (λ r. refl)
              (λ r. call_off-Move x.status may) (found_only pk db.reservations h found))
          (λ _. Moved-refl db.reservations))
      (λ _. Moved-refl db.reservations)

-- A no-show, done or refused, keeps every reservation and moves its status along the diagram by at
-- most one step, where no two reservations have the same key.
pub mark_no_show-Moved :
    (pk : ℕ) (db : Db)
    → Keyed db.reservations
    → Moved db.reservations (mark_no_show pk db).1.reservations
unfolding mark_no_show
mark_no_show-Moved pk db h =
    let P = λ (r : Result Error Reservation × Db).
      Moved db.reservations (roll_back db r).1.reservations in
    or_raise-case P (find? (λ (r : Reservation). r.pk == pk) db.reservations) does_not_exist _ db
      (λ x found.
        raise_if-case P (not (can_check_in x.status)) conflict _ db
          (λ may.
            Moved-update pk missed x.status db.reservations (λ r. refl)
              (λ r. miss-Move x.status may) (found_only pk db.reservations h found))
          (λ _. Moved-refl db.reservations))
      (λ _. Moved-refl db.reservations)

pub leave-Move : (s : ReservationStatus) → not (is_in_house s) ≡ false → Move s checked_out
leave-Move checked_in h = leave
leave-Move pending h = absurd (false≢true (sym h))
leave-Move confirmed h = absurd (false≢true (sym h))
leave-Move no_show h = absurd (false≢true (sym h))
leave-Move checked_out h = absurd (false≢true (sym h))
leave-Move cancelled h = absurd (false≢true (sym h))

pub arrive-Move : (s : ReservationStatus) → not (can_check_in s) ≡ false → Move s checked_in
arrive-Move pending h = arrive_unconfirmed
arrive-Move confirmed h = arrive
arrive-Move no_show h = absurd (false≢true (sym h))
arrive-Move checked_in h = absurd (false≢true (sym h))
arrive-Move checked_out h = absurd (false≢true (sym h))
arrive-Move cancelled h = absurd (false≢true (sym h))
