-- ===== src/Booking/Inventory.antt =====
-- The rows of an allocation under the exclusion constraint of apps/booking/models.py, and the
-- writes that services/booking/reservations.py and apps/rooms/models.py make on allocations,
-- rooms and stay events.
use fab_ai_smart_hotel_manag.Prelude.{
  ℕ, suc, Bool, false, not, ◌&&◌, ◌||◌, Option, none, some, List, [], ◌∷◌, ◌++◌, ◌==◌, is_some,
  refers, any, find?, filter, update_where, if◌then◌else◌,
}
use fab_ai_smart_hotel_manag.Prelude.Exec.{
  ok, err, Unit₀, ◌>>=◌, ◌>>◌, pure, raise_if, gets, modify, atomic, or_raise, for_each,
}
use fab_ai_smart_hotel_manag.Rooms.{Room, RoomStatus, RoomStatusLog, is_sellable}
use fab_ai_smart_hotel_manag.Booking.Models.{
  Allocation, Reservation, StayEvent, EventKind, overlaps,
}
use fab_ai_smart_hotel_manag.Database.{Db, Act, conflict, validation, does_not_exist}

-- The condition of `no_double_booked_room`.
abbrev pub is_held : Allocation → Bool
is_held a = is_some a.room && not a.is_deleted && a.blocks_inventory

abbrev pub same_room : Option ℕ → Option ℕ → Bool
same_room none _ = false
same_room (some r) other = refers other r

-- Two held rows of one room whose stays overlap.
abbrev pub clashes : Allocation → Allocation → Bool
clashes a b =
    is_held a && is_held b && same_room a.room b.room && overlaps a.lower a.upper b.lower b.upper

-- The table breaks the exclusion constraint `no_double_booked_room`.
unfoldable pub double_booked : List Allocation → Bool
double_booked [] = false
double_booked (a ∷ as') = any (clashes a) as' || double_booked as'

-- A write of the table of allocations. The statement that breaks the constraint raises
-- `IntegrityError`, which both callers turn into a `Conflict`.
unfoldable pub write_allocations : List Allocation → Act Unit₀
write_allocations rows db =
    if double_booked rows then (err conflict, db) else (ok tt, record db { allocations = rows })

-- The live rows of `reservation.allocations`.
abbrev pub of_reservation : ℕ → Allocation → Bool
of_reservation pk a = a.reservation == pk && not a.is_deleted

-- `reservation.allocations.update(blocks_inventory=False)`
abbrev pub unblock : Allocation → Allocation
unblock a = record a { blocks_inventory = false }

unfoldable pub release : ℕ → Act Unit₀
release pk =
    modify λ db. record db { allocations = update_where (of_reservation pk) unblock db.allocations }

-- `StayEvent.objects.create(...)`
unfoldable pub add_event : Reservation → EventKind → Option ℕ → Act Unit₀
add_event r kind room db =
    let e : StayEvent = record {
      pk = db.next_pk;
      tenant = r.tenant;
      reservation = r.pk;
      kind = kind;
      room = room;
    } in
    (ok tt, record db { events = db.events ++ e ∷ []; next_pk = suc db.next_pk })

abbrev with_status : ℕ → RoomStatus → Room → Room
with_status now status r = record r { status = status; status_changed_at = now }

abbrev status_log : Room → RoomStatus → ℕ → RoomStatusLog
status_log r status pk = record {
  pk = pk;
  tenant = r.tenant;
  room = r.pk;
  from_status = r.status;
  to_status = status;
}

-- `Room.set_status`
unfoldable pub set_status : Room → RoomStatus → Act Unit₀
set_status r status db = (
  ok tt,
  record db {
    rooms = update_where (λ (x : Room). x.pk == r.pk) (with_status db.now status) db.rooms;
    status_logs = db.status_logs ++ status_log r status db.next_pk ∷ [];
    next_pk = suc db.next_pk;
  },
)

abbrev pub set_room_status : RoomStatus → Option ℕ → Act Unit₀
set_room_status status none = pure tt
set_room_status status (some room) = do
  r ← gets (λ (db : Db). find? (λ (r : Room). r.pk == room) db.rooms)
  found ← or_raise r does_not_exist
  set_status found status

-- `for allocation in reservation.allocations: if allocation.room: allocation.room.set_status(...)`
unfoldable pub set_rooms : ℕ → RoomStatus → Act Unit₀
unfolding set_status
set_rooms pk status = do
  allocations ← gets (λ (db : Db). filter (of_reservation pk) db.allocations)
  for_each (λ (a : Allocation). set_room_status status a.room) allocations

abbrev pub put_room : ℕ → Allocation → Allocation
put_room room a = record a { room = some room }

-- The save of one allocation with its room.
unfoldable pub save_room : ℕ → ℕ → Act Unit₀
unfolding write_allocations
save_room pk room db =
    write_allocations (update_where (λ (a : Allocation). a.pk == pk) (put_room room) db.allocations)
      db

-- `assign_room(allocation, room)`
unfoldable pub assign_room : Reservation → Allocation → Room → Act Unit₀
unfolding add_event save_room
assign_room reservation allocation room = atomic (do
  raise_if (not (room.room_type == allocation.room_type)) validation
  raise_if (not (is_sellable room)) conflict
  save_room allocation.pk room.pk
  add_event reservation EventKind.room_move (some room.pk))
