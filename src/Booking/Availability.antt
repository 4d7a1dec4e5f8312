-- ===== src/Booking/Availability.antt =====
-- services/booking/availability.py: what is free, and when.
use fab_ai_smart_hotel_manag.Prelude.{
  ℕ, ◌-◌, ◌+◌, Bool, true, false, not, ◌&&◌, ◌||◌, Option, none, some, List, [], ◌∷◌, ltb, leb,
  ◌==◌, is_some, refers, length, filter, any, map, sort_by, if◌then◌else◌,
}
use fab_ai_smart_hotel_manag.Prelude.Int.{leb_ℤ, ltb_ℤ}
use fab_ai_smart_hotel_manag.Prelude.Exec.{Result, ok, err}
use fab_ai_smart_hotel_manag.Rooms.{RoomType, Room, is_unsellable}
use fab_ai_smart_hotel_manag.Booking.Models.{Allocation, overlaps}
use fab_ai_smart_hotel_manag.Database.{Db, Error, value_error}

-- `booked.exclude(reservation=exclude_reservation)`
abbrev pub excluded : Option ℕ → Allocation → Bool
excluded none a = false
excluded (some reservation) a = a.reservation == reservation

-- The filters of `busy_room_ids`.
abbrev pub is_busy : ℕ → ℕ → ℕ → Option ℕ → Allocation → Bool
is_busy hotel check_in check_out exclude a =
    a.tenant == hotel
    && not a.is_deleted
    && a.blocks_inventory
    && is_some a.room
    && overlaps a.lower a.upper check_in check_out
    && not (excluded exclude a)

-- `id in busy_room_ids(...)`
abbrev pub room_is_busy : List Allocation → ℕ → ℕ → ℕ → Option ℕ → ℕ → Bool
room_is_busy allocations hotel check_in check_out exclude room =
    any (λ a. is_busy hotel check_in check_out exclude a && refers a.room room) allocations

-- The rooms of a hotel that can be sold at all.
abbrev pub is_sold : ℕ → Room → Bool
is_sold hotel r =
    r.tenant == hotel && not r.is_deleted && r.is_active && not (is_unsellable r.status)

abbrev pub of_type : Option ℕ → Room → Bool
of_type none r = true
of_type (some t) r = r.room_type == t

abbrev pub is_free : Db → ℕ → ℕ → ℕ → Option ℕ → Option ℕ → Room → Bool
is_free db hotel check_in check_out room_type exclude r =
    is_sold hotel r
    && of_type room_type r
    && not (room_is_busy db.allocations hotel check_in check_out exclude r.pk)

-- `.order_by("floor", "number")`
abbrev pub room_before : Room → Room → Bool
room_before a b = ltb_ℤ a.floor b.floor || (leb_ℤ a.floor b.floor && leb a.number b.number)

-- `available_rooms(hotel, check_in, check_out, room_type=..., exclude_reservation=...)`
unfoldable pub available_rooms : ℕ → ℕ → ℕ → Option ℕ → Option ℕ → Db → Result Error (List Room)
available_rooms hotel check_in check_out room_type exclude db =
    if leb check_out check_in
    then err value_error
    else ok (
        sort_by room_before
          (filter (is_free db hotel check_in check_out room_type exclude) db.rooms))

pub record TypeAvailability : Type 0 where
  pub room_type : RoomType
  pub total : ℕ
  pub available : ℕ
  pub rooms : List Room

-- `TypeAvailability.is_available`
abbrev pub is_available : TypeAvailability → Bool
is_available t = ltb 0 t.available

-- The live rooms of a type: `Count("rooms", filter=Q(rooms__is_deleted=False))`
abbrev pub room_count : Db → RoomType → ℕ
room_count db t = length (filter (λ (r : Room). r.room_type == t.pk && not r.is_deleted) db.rooms)

abbrev pub fits : ℕ → ℕ → RoomType → Bool
fits hotel guests t =
    t.tenant == hotel && not t.is_deleted && t.is_active && leb guests t.max_occupancy

-- `.order_by("sort_order", "name")`
abbrev pub type_before : RoomType → RoomType → Bool
type_before a b =
    ltb a.sort_order b.sort_order || (a.sort_order == b.sort_order && leb a.name b.name)

-- `free_by_type.get(room_type.id, [])`: the rooms of a type, in the order of the free rooms
abbrev pub grouped : List Room → RoomType → List Room
grouped free t = filter (λ (r : Room). r.room_type == t.pk) free

abbrev pub type_row : Db → List Room → RoomType → TypeAvailability
type_row db free t = record {
  room_type = t;
  total = room_count db t;
  available = length (grouped free t);
  rooms = grouped free t;
}

abbrev rows : ℕ → ℕ → Db → Result Error (List Room) → Result Error (List TypeAvailability)
rows hotel guests db (ok free) =
    ok (map (type_row db free) (sort_by type_before (filter (fits hotel guests) db.room_types)))
rows hotel guests db (err e) = err e

-- `by_type(hotel, check_in, check_out, guests=...)`
unfoldable pub by_type : ℕ → ℕ → ℕ → ℕ → Db → Result Error (List TypeAvailability)
unfolding available_rooms
by_type hotel check_in check_out guests db =
    rows hotel guests db (available_rooms hotel check_in check_out none none db)

pub record Occupancy : Type 0 where
  pub date : ℕ
  pub total_rooms : ℕ
  pub occupied : ℕ
  pub available : ℕ

abbrev is_night_of : ℕ → ℕ → Allocation → Bool
is_night_of hotel day a =
    a.tenant == hotel
    && not a.is_deleted
    && a.blocks_inventory
    && is_some a.room
    && leb a.lower day
    && ltb day a.upper

-- `.values("room_id").distinct().count()`: the keys that are not seen again later in the table
abbrev pub distinct_rooms : List Allocation → ℕ
distinct_rooms [] = 0
distinct_rooms (a ∷ as') =
    let rest = distinct_rooms as' in
    elim a.room [
      | none ↦ rest
      | some r ↦ if any (λ (b : Allocation). refers b.room r) as' then rest else rest + 1
    ]

-- `occupancy(hotel, on_date)`, without the rate, which is `occupied / total * 100`. The
-- subtraction of natural numbers stops at 0, as `max(0, total - occupied)` does.
unfoldable pub occupancy : ℕ → ℕ → Db → Occupancy
occupancy hotel day db =
    let total = length (filter (is_sold hotel) db.rooms) in
    let occupied = distinct_rooms (filter (is_night_of hotel day) db.allocations) in
    record { date = day; total_rooms = total; occupied = occupied; available = total - occupied }
