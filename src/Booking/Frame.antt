-- ===== src/Booking/Frame.antt =====
-- The actions of billing and of the room board that leave the reservations and the allocations
-- alone: services/billing/folio.py, `open_folio`, `recalculate`, `issue_invoice`, and
-- apps/rooms/models.py, `Room.set_status`.
use fab_ai_smart_hotel_manag.Prelude.{
  ℕ, Option, none, some, List, Bool-cases, inl, inr, any, ◌==◌, find?, Option-cases,
}
use fab_ai_smart_hotel_manag.Prelude.Exec.{gets}
use fab_ai_smart_hotel_manag.Prelude.Keeps.{
  Keeps, Keeps-bind, Keeps-gets, Keeps-for_each, Keeps-pure, Keeps-or_raise,
}
use fab_ai_smart_hotel_manag.Rooms.{Room, RoomStatus}
use fab_ai_smart_hotel_manag.Billing.Models.{Folio}
use fab_ai_smart_hotel_manag.Billing.Folio.{folio_of, insert_folio, open_folio, recalculate}
use fab_ai_smart_hotel_manag.Billing.Invoice.{issue_invoice}
use fab_ai_smart_hotel_manag.Billing.Invoice.Parts.{issue_invoice-Issuing}
use fab_ai_smart_hotel_manag.Booking.Models.{Reservation, Allocation, EventKind}
use fab_ai_smart_hotel_manag.Booking.Inventory.{add_event, set_status, set_room_status, set_rooms}
use fab_ai_smart_hotel_manag.Database.{
  AuditAction, audit, Db, does_not_exist, get_reservation, get_folio,
}

module _ (R : List Reservation → List Allocation → Type 0) where
  abbrev OnStays : Db → Type 0
  OnStays db = R db.reservations db.allocations

  pub recalculate-Keeps : (pk : ℕ) → Keeps OnStays (recalculate pk)
  unfolding recalculate
  recalculate-Keeps pk = record { at = λ db h. h }

  pub add_event-Keeps :
      (r : Reservation) (kind : EventKind) (room : Option ℕ) → Keeps OnStays (add_event r kind room)
  unfolding add_event
  add_event-Keeps r kind room = record { at = λ db h. h }

  insert_folio-at : (r : Reservation) (db : Db) → OnStays db → OnStays (insert_folio r db).1
  insert_folio-at r db h =
      elim (Bool-cases (any (λ (g : Folio). g.reservation == r.pk) db.folios)) [
        | inl e ↦ rw e h
        | inr e ↦ rw e h
      ]

  open_folio-at : (r : Reservation) (db : Db) → OnStays db → OnStays (open_folio r db).1
  unfolding open_folio
  open_folio-at r db h = elim (Option-cases (folio_of r db)) [
    | inl none_yet ↦ rw none_yet (insert_folio-at r db h)
    | inr (f, e) ↦ rw e h
  ]

  pub open_folio-Keeps : (r : Reservation) → Keeps OnStays (open_folio r)
  open_folio-Keeps r = record { at = open_folio-at r }

  set_status-Keeps : (r : Room) (status : RoomStatus) → Keeps OnStays (set_status r status)
  unfolding set_status
  set_status-Keeps r status = record { at = λ db h. h }

  set_room_status-Keeps :
      (status : RoomStatus) (room : Option ℕ) → Keeps OnStays (set_room_status status room)
  set_room_status-Keeps status none = Keeps-pure tt
  set_room_status-Keeps status (some room) = Keeps-bind _ _ (Keeps-gets _) (λ r.
      Keeps-bind _ _ (Keeps-or_raise r does_not_exist) (λ found. set_status-Keeps found status))

  pub set_rooms-Keeps : (pk : ℕ) (status : RoomStatus) → Keeps OnStays (set_rooms pk status)
  unfolding set_rooms
  set_rooms-Keeps pk status = Keeps-bind _ _ (Keeps-gets _) (λ allocations.
      Keeps-for_each _ allocations (λ (a : Allocation). set_room_status-Keeps status a.room))

  pub audit-Keeps : (action : AuditAction) (pk : ℕ) → Keeps OnStays (audit action pk)
  audit-Keeps action pk = record { at = λ db h. h }

  issue_invoice-at : (pk : ℕ) (db : Db) → OnStays db → OnStays (issue_invoice pk db).1
  issue_invoice-at pk db h = elim (issue_invoice-Issuing pk db) [
    | inl (f, _, _, e) ↦ rw e ((recalculate-Keeps pk).at db h)
    | inr (inl (_, _, _, e)) ↦ rw e h
    | inr (inr (_, e)) ↦ rw e h
  ]

  pub issue_invoice-Keeps : (pk : ℕ) → Keeps OnStays (issue_invoice pk)
  issue_invoice-Keeps pk = record { at = issue_invoice-at pk }

-- Reading a row changes nothing.
module _ {P : Db → Type 0} where
  pub get_reservation-Keeps : (pk : ℕ) → Keeps P (get_reservation pk)
  get_reservation-Keeps pk =
      Keeps-bind (gets (λ (db : Db). find? (λ (r : Reservation). r.pk == pk) db.reservations)) _
        (Keeps-gets _) (λ found. Keeps-or_raise found does_not_exist)

  pub get_folio-Keeps : (pk : ℕ) → Keeps P (get_folio pk)
  get_folio-Keeps pk =
      Keeps-bind (gets (λ (db : Db). find? (λ (f : Folio). f.pk == pk) db.folios)) _ (Keeps-gets _)
        (λ found. Keeps-or_raise found does_not_exist)
