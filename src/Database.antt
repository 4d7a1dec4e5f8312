-- ===== src/Database.antt =====
-- The tables that the booking and billing services share, the exceptions that they raise
-- (apps/core/exceptions.py and those of the database), and how a row is read, inserted and saved.
--
-- `Db` is one transaction's view of the database. A new row gets a key that no row has, and is
-- the last of its table, which is then in the order of creation. `now`, `today` and `year` are the
-- wall clock, `timezone.now()` and `timezone.localdate()`, which stands still during a call.
-- The ambient tenant of the default managers is the tenant of the rows that a call is about.
use fab_ai_smart_hotel_manag.Prelude.{ℕ, suc, List, [], ◌∷◌, ◌++◌, ◌==◌, find?, update_where}
use fab_ai_smart_hotel_manag.Prelude.Exec.{Exec, ok, Unit₀, modify, or_raise, gets, ◌>>=◌}
use fab_ai_smart_hotel_manag.Rooms.{RoomType, Room, RoomStatusLog, RatePlan, RoomRate}
use fab_ai_smart_hotel_manag.Billing.Models.{Folio, FolioLine, Invoice, Payment, BusinessDate}
use fab_ai_smart_hotel_manag.Booking.Models.{Reservation, Allocation, StayEvent, Guest}

-- `does_not_exist` is a key that no row has, which foreign keys rule out.
pub data Error : Type 0 where
  validation conflict not_found value_error integrity_error does_not_exist runtime_error
        overflow_error :
      Error

-- `date.max.toordinal()`: a date past it is an `OverflowError`.
abbrev pub max_date : ℕ
max_date = 3652059

pub data AuditAction : Type 0 where
  create update payment : AuditAction

-- A row of apps/accounts/audit.py, `record`: the action and the object.
pub record AuditEntry : Type 0 where
  pub action : AuditAction
  pub object_id : ℕ

pub record Db : Type 0 where
  pub now : ℕ
  pub today : ℕ
  pub year : ℕ
  pub next_pk : ℕ
  pub room_types : List RoomType
  pub rooms : List Room
  pub status_logs : List RoomStatusLog
  pub rate_plans : List RatePlan
  pub room_rates : List RoomRate
  pub guests : List Guest
  pub reservations : List Reservation
  pub allocations : List Allocation
  pub events : List StayEvent
  pub folios : List Folio
  pub lines : List FolioLine
  pub payments : List Payment
  pub invoices : List Invoice
  pub business_dates : List BusinessDate
  pub audits : List AuditEntry

abbrev pub Act : Type 0 → Type 0
Act A = Exec Db Error A

abbrev pub get_folio : ℕ → Act Folio
get_folio pk = gets (λ (db : Db). find? (λ (f : Folio). f.pk == pk) db.folios) >>= λ f.
    or_raise f does_not_exist

abbrev pub get_line : ℕ → Act FolioLine
get_line pk = gets (λ (db : Db). find? (λ (l : FolioLine). l.pk == pk) db.lines) >>= λ l.
    or_raise l does_not_exist

abbrev pub get_reservation : ℕ → Act Reservation
get_reservation pk =
    gets (λ (db : Db). find? (λ (r : Reservation). r.pk == pk) db.reservations) >>= λ r.
    or_raise r does_not_exist

abbrev pub get_room_type : ℕ → Act RoomType
get_room_type pk = gets (λ (db : Db). find? (λ (t : RoomType). t.pk == pk) db.room_types) >>= λ t.
    or_raise t does_not_exist

abbrev pub get_guest : ℕ → Act Guest
get_guest pk = gets (λ (db : Db). find? (λ (g : Guest). g.pk == pk) db.guests) >>= λ g.
    or_raise g does_not_exist

abbrev pub insert_line : (ℕ → FolioLine) → Act FolioLine
insert_line row db =
    let l = row db.next_pk in
    (ok l, record db { lines = db.lines ++ l ∷ []; next_pk = suc db.next_pk })

abbrev pub update_folio : ℕ → (Folio → Folio) → Act Unit₀
update_folio pk f = modify λ db. record db { folios = update_where (λ r. r.pk == pk) f db.folios }

abbrev pub update_reservation : ℕ → (Reservation → Reservation) → Act Unit₀
update_reservation pk f =
    modify λ db. record db { reservations = update_where (λ r. r.pk == pk) f db.reservations }

abbrev pub audit : AuditAction → ℕ → Act Unit₀
audit action pk =
    modify λ db. record db { audits = db.audits ++ record { action = action; object_id = pk } ∷ [] }
