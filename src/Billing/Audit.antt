-- ===== src/Billing/Audit.antt =====
-- services/billing/folio.py: the night audit. The hotel's percentages are those of `Hotel`.
mod Charging
pub mod Rolling
pub mod Days
pub mod Ledger
use fab_ai_smart_hotel_manag.Prelude.{
  ℕ, suc, ◌+◌, Bool, true, false, not, ◌&&◌, ◌||◌, Option, none, some, List, [], ◌∷◌, ◌++◌, ltb,
  leb, ◌==◌, filter, find?, any, sort_by, update_where, if◌then◌else◌,
}
use fab_ai_smart_hotel_manag.Prelude.Int.{ℤ, pos, ◌+ℤ◌, is_zero_ℤ}
use fab_ai_smart_hotel_manag.Prelude.Exec.{ok, Unit₀, ◌>>=◌, ◌>>◌, pure, gets, modify, atomic}
use fab_ai_smart_hotel_manag.Money.{of_cents, money}
use fab_ai_smart_hotel_manag.Rooms.{RatePlan}
use fab_ai_smart_hotel_manag.Pricing.{Hotel, nightly_rate, percent_of}
use fab_ai_smart_hotel_manag.Billing.Models.{FolioLine, BusinessDate, ChargeType, is_room_charge}
use fab_ai_smart_hotel_manag.Billing.Folio.{date_row, of_folio, open_folio, Charge, post_charge}
use fab_ai_smart_hotel_manag.Booking.Models.{Reservation, Allocation, is_in_house}
use fab_ai_smart_hotel_manag.Booking.Inventory.{of_reservation}
use fab_ai_smart_hotel_manag.Database.{Db, Act, get_room_type}

abbrev pub new_date : ℕ → Db → BusinessDate
new_date hotel db = record {
  pk = db.next_pk;
  tenant = hotel;
  is_deleted = false;
  current_date = db.today;
  last_audit_at = none;
  rooms_charged = 0;
  revenue_posted = pos 0;
}

abbrev pub date_or_new : Option BusinessDate → ℕ → Act BusinessDate
date_or_new (some row) hotel db = (ok row, db)
date_or_new none hotel db =
    let row = new_date hotel db in
    (ok row, record db { business_dates = db.business_dates ++ row ∷ []; next_pk = suc db.next_pk })

-- `ensure_business_date(hotel)`
unfoldable pub ensure_business_date : ℕ → Act BusinessDate
ensure_business_date hotel db = date_or_new (date_row db hotel) hotel db

-- What the loop counts.
pub record Charged : Type 0 where
  pub rooms : ℕ
  pub revenue : ℤ

abbrev pub with_night : Charged → ℤ → Charged
with_night sums amount = record { rooms = sums.rooms + 1; revenue = sums.revenue +ℤ amount }

abbrev pub night_charge : ChargeType → ℤ → ℕ → Option ℕ → Charge
night_charge charge_type amount day source = record {
  charge_type = charge_type;
  amount = of_cents amount;
  quantity = pos 1;
  unit_price = none;
  on_date = some day;
  source_ref = source;
  ai_suggested = false;
}

-- `if service: post_charge(...)`
abbrev pub post_if : Bool → ℕ → Charge → Act Unit₀
post_if true folio c = post_charge folio c >> pure tt
post_if false folio c = pure tt

-- One allocation of a stay: the night, the service charge and the tax.
unfoldable pub charge_night : Hotel → ℕ → Option RatePlan → ℕ → Allocation → Charged → Act Charged
unfolding nightly_rate percent_of post_charge
charge_night hotel day plan folio a sums = do
  room_type ← get_room_type a.room_type
  priced ← gets (λ (db : Db). nightly_rate db.room_rates room_type plan day)
  let rate = priced.0
  post_charge folio (night_charge ChargeType.room rate day (some a.pk))
  let service = percent_of rate hotel.service_charge_rate
  post_if (not (is_zero_ℤ service)) folio (night_charge ChargeType.service service day none)
  let tax = percent_of (rate +ℤ service) hotel.tax_rate
  post_if (not (is_zero_ℤ tax)) folio (night_charge ChargeType.tax tax day none)
  pure (with_night sums (rate +ℤ service +ℤ tax))

-- `for allocation in reservation.allocations.all()`
unfoldable pub charge_rooms :
    Hotel → ℕ → Option RatePlan → ℕ → List Allocation → Charged → Act Charged
unfolding charge_night
charge_rooms hotel day plan folio [] sums = pure sums
charge_rooms hotel day plan folio (a ∷ as') sums =
    charge_night hotel day plan folio a sums >>= charge_rooms hotel day plan folio as'

-- A room line for the date, voided or not
abbrev pub is_night : ℕ → ℕ → FolioLine → Bool
is_night folio day l = of_folio folio l && is_room_charge l.charge_type && l.business_date == day

abbrev pub plan_of : Reservation → Db → Option RatePlan
plan_of r db = elim r.rate_plan [
  | none ↦ none
  | some pk ↦ find? (λ (p : RatePlan). p.pk == pk) db.rate_plans
]

-- The body of the loop over the stays, for a stay that lasts beyond the date.
unfoldable pub charge_folio : Hotel → ℕ → Reservation → Charged → Act Charged
unfolding open_folio charge_rooms
charge_folio hotel day r sums = do
  folio ← open_folio r
  already ← gets (λ (db : Db). any (is_night folio.pk day) db.lines)
  plan ← gets (plan_of r)
  allocations ← gets (λ (db : Db). filter (of_reservation r.pk) db.allocations)
  if already then pure sums else charge_rooms hotel day plan folio.pk allocations sums

unfoldable pub charge_stay : Hotel → ℕ → Reservation → Charged → Act Charged
unfolding charge_folio
charge_stay hotel day r sums =
    if leb r.check_out day then pure sums else charge_folio hotel day r sums

unfoldable pub charge_stays : Hotel → ℕ → List Reservation → Charged → Act Charged
unfolding charge_stay
charge_stays hotel day [] sums = pure sums
charge_stays hotel day (r ∷ rs) sums = charge_stay hotel day r sums >>= charge_stays hotel day rs

-- The default order of reservations, `("-check_in", "-created_at")`
abbrev pub stay_before : Reservation → Reservation → Bool
stay_before a b = ltb b.check_in a.check_in || (a.check_in == b.check_in && leb b.pk a.pk)

abbrev pub audited_stays : ℕ → Db → List Reservation
audited_stays hotel db = sort_by stay_before (
    filter (λ (r : Reservation). r.tenant == hotel && is_in_house r.status && not r.is_deleted)
      db.reservations)

abbrev pub rolled : ℕ → ℕ → Charged → BusinessDate → BusinessDate
rolled day now sums row = record row {
  current_date = day + 1;
  last_audit_at = some now;
  rooms_charged = sums.rooms;
  revenue_posted = money (of_cents sums.revenue);
}

-- `state.save()`
abbrev pub save_date : BusinessDate → Charged → Db → Db
save_date state sums db = record db {
  business_dates =
      update_where (λ (row : BusinessDate). row.pk == state.pk)
        (λ _. rolled state.current_date db.now sums state) db.business_dates;
}

-- The result of the audit.
pub record Report : Type 0 where
  pub business_date : ℕ
  pub next_business_date : ℕ
  pub rooms_charged : ℕ
  pub revenue_posted : ℤ

abbrev pub report : BusinessDate → Charged → Report
report state sums = record {
  business_date = state.current_date;
  next_business_date = state.current_date + 1;
  rooms_charged = sums.rooms;
  revenue_posted = money (of_cents sums.revenue);
}

unfoldable pub run_night_audit : Hotel → Act Report
unfolding ensure_business_date charge_stays
run_night_audit hotel = atomic (do
  state ← ensure_business_date hotel.pk
  stays ← gets (audited_stays hotel.pk)
  sums ← charge_stays hotel state.current_date stays (record { rooms = 0; revenue = pos 0 })
  modify (save_date state sums)
  pure (report state sums))
