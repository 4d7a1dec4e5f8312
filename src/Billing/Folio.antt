-- ===== src/Billing/Folio.antt =====
-- services/billing/folio.py: opening a folio, posting and voiding charges, taking payments; and
-- apps/billing/models.py, `Folio.recalculate`.
--
-- A service takes the key of a row in place of the object that the caller has just read.
pub mod Totals
pub mod Balanced
pub mod Payments
pub mod Reversal
pub mod Retry
use fab_ai_smart_hotel_manag.Prelude.{
  ℕ, suc, Bool, true, false, not, ◌&&◌, Option, none, some, List, [], ◌∷◌, ◌++◌, ◌==◌, filter,
  find?, any, take, update_where, if◌then◌else◌,
}
use fab_ai_smart_hotel_manag.Prelude.Int.{ℤ, pos, ◌+ℤ◌, ◌-ℤ◌, neg_ℤ, leb_ℤ, ltb_ℤ, is_zero_ℤ}
use fab_ai_smart_hotel_manag.Prelude.Exec.{
  ok, err, Unit₀, ◌>>=◌, ◌>>◌, pure, raise_if, gets, modify, atomic,
}
use fab_ai_smart_hotel_manag.Money.{Decimal, of_cents, money}
use fab_ai_smart_hotel_manag.Rooms.Weekdays.{Text}
use fab_ai_smart_hotel_manag.Billing.Models.{
  Folio, FolioLine, Payment, BusinessDate, FolioStatus, opened, ChargeType, PaymentMethod,
  PaymentStatus, is_opened, is_captured, is_judgement,
}
use fab_ai_smart_hotel_manag.Booking.Models.{Reservation}
use fab_ai_smart_hotel_manag.Database.{
  Db, Act, conflict, validation, integrity_error, AuditAction, get_folio, get_line, insert_line,
  update_folio, audit,
}

-- The live business-date row of a hotel.
abbrev pub date_row : Db → ℕ → Option BusinessDate
date_row db hotel = find? (λ r. r.tenant == hotel && not r.is_deleted) db.business_dates

-- `business_date(hotel)`
unfoldable pub business_date : ℕ → Db → ℕ
business_date hotel db = elim (date_row db hotel) [ some r ↦ r.current_date | none ↦ db.today ]

-- `folio.lines` and the captured part of `folio.payments`, through their default managers.
abbrev pub of_folio : ℕ → FolioLine → Bool
of_folio pk l = l.folio == pk && not l.is_deleted

abbrev pub captured_for : ℕ → Payment → Bool
captured_for pk p = p.folio == pk && not p.is_deleted && is_captured p.status

abbrev pub sum_lines : List FolioLine → ℤ
sum_lines [] = pos 0
sum_lines (l ∷ ls) = l.amount +ℤ sum_lines ls

abbrev pub sum_payments : List Payment → ℤ
sum_payments [] = pos 0
sum_payments (p ∷ ps) = p.amount +ℤ sum_payments ps

-- `Folio.recalculate`
unfoldable pub recalculate : ℕ → Act Unit₀
recalculate pk db =
    let charges = sum_lines (filter (of_folio pk) db.lines) in
    let payments = sum_payments (filter (captured_for pk) db.payments) in
    update_folio pk
      (λ f. record f {
        charges_total = money (of_cents charges);
        payments_total = money (of_cents payments);
        balance = money (of_cents (charges -ℤ payments));
      })
      db

-- `Folio.objects.create(...)` under the one-to-one constraint on the reservation
abbrev pub insert_folio : Reservation → Act Folio
insert_folio r db =
    let f : Folio = record {
      pk = db.next_pk;
      tenant = r.tenant;
      is_deleted = false;
      reservation = r.pk;
      guest = r.guest;
      status = opened;
      charges_total = pos 0;
      payments_total = pos 0;
      balance = pos 0;
      settled_at = none;
    } in
    if any (λ (g : Folio). g.reservation == r.pk) db.folios
    then (err integrity_error, db)
    else (ok f, record db { folios = db.folios ++ f ∷ []; next_pk = suc db.next_pk })

abbrev pub folio_of : Reservation → Db → Option Folio
folio_of r db = find? (λ (f : Folio). f.reservation == r.pk && not f.is_deleted) db.folios

abbrev pub folio_or_new : Option Folio → Reservation → Act Folio
folio_or_new (some f) r = pure f
folio_or_new none r = insert_folio r

-- `open_folio(reservation)`
unfoldable pub open_folio : Reservation → Act Folio
open_folio r = do existing ← gets (folio_of r); folio_or_new existing r

-- The keyword arguments of `post_charge`.
pub record Charge : Type 0 where
  pub charge_type : ChargeType
  pub amount : Decimal
  pub quantity : ℤ
  pub unit_price : Option Decimal
  pub on_date : Option ℕ
  pub source_ref : Option ℕ
  pub ai_suggested : Bool

abbrev pub charge_line : Folio → Charge → ℤ → ℕ → ℕ → FolioLine
charge_line folio c value date pk = record {
  pk = pk;
  tenant = folio.tenant;
  is_deleted = false;
  folio = folio.pk;
  charge_type = c.charge_type;
  business_date = date;
  quantity = c.quantity;
  unit_price = elim c.unit_price [ some price ↦ money price | none ↦ money (of_cents value) ];
  amount = value;
  source_ref = c.source_ref;
  is_voided = false;
  voided_by_line = none;
  ai_suggested = c.ai_suggested;
}

abbrev pub date_or_business : Option ℕ → ℕ → Db → ℕ
date_or_business (some day) hotel db = day
date_or_business none hotel db = business_date hotel db

-- What is left to do when the charge is accepted.
pub write_charge : Folio → Charge → ℤ → Act FolioLine
unfolding business_date
write_charge folio c value = do
  date ← gets (date_or_business c.on_date folio.tenant)
  line ← insert_line (charge_line folio c value date)
  recalculate folio.pk
  if is_judgement c.charge_type then audit AuditAction.update line.pk else pure tt
  pure line

unfoldable pub post_charge : ℕ → Charge → Act FolioLine
unfolding write_charge
post_charge pk c = atomic (do
  folio ← get_folio pk
  raise_if (not (is_opened folio.status)) conflict
  let value = money c.amount
  raise_if (is_zero_ℤ value) validation
  write_charge folio c value)

abbrev pub reversal_line : FolioLine → ℕ → ℕ → FolioLine
reversal_line line date pk = record {
  pk = pk;
  tenant = line.tenant;
  is_deleted = false;
  folio = line.folio;
  charge_type = line.charge_type;
  business_date = date;
  quantity = line.quantity;
  unit_price = neg_ℤ line.unit_price;
  amount = neg_ℤ line.amount;
  source_ref = some line.pk;
  is_voided = false;
  voided_by_line = none;
  ai_suggested = false;
}

abbrev pub mark_voided : ℕ → FolioLine → FolioLine
mark_voided reversal l = record l { is_voided = true; voided_by_line = some reversal }

-- What is left to do when the line is not voided yet.
pub write_reversal : FolioLine → Act FolioLine
unfolding business_date
write_reversal line = do
  date ← gets (business_date line.tenant)
  reversal ← insert_line (reversal_line line date)
  modify (λ (db : Db). record db {
    lines = update_where (λ l. l.pk == line.pk) (mark_voided reversal.pk) db.lines;
  })
  recalculate line.folio
  audit AuditAction.update line.pk
  pure reversal

unfoldable pub void_line : ℕ → Act FolioLine
unfolding write_reversal
void_line pk = atomic (do line ← get_line pk; raise_if line.is_voided conflict; write_reversal line)

abbrev pub same_text : Text → Text → Bool
same_text [] [] = true
same_text (c ∷ cs) (d ∷ ds) = c == d && same_text cs ds
same_text _ _ = false

abbrev pub is_empty : Text → Bool
is_empty [] = true
is_empty _ = false

-- The live payment of a hotel under an idempotency key.
abbrev pub keyed : ℕ → Text → Payment → Bool
keyed hotel key p = p.tenant == hotel && same_text p.idempotency_key key && not p.is_deleted

-- `Payment.objects.create(...)`, which keeps 64 characters of the key, under the constraint
-- `uniq_payment_idempotency_key`
abbrev pub insert_payment : Folio → PaymentMethod → ℤ → Text → Act Payment
insert_payment folio method value key db =
    let stored = take 64 key in
    let p : Payment = record {
      pk = db.next_pk;
      tenant = folio.tenant;
      is_deleted = false;
      folio = folio.pk;
      method = method;
      status = PaymentStatus.captured;
      amount = value;
      idempotency_key = stored;
    } in
    if not (is_empty stored) && any (keyed folio.tenant stored) db.payments
    then (err integrity_error, db)
    else (ok p, record db { payments = db.payments ++ p ∷ []; next_pk = suc db.next_pk })

-- What is left to do when no payment has the key.
pub take_payment : Folio → PaymentMethod → ℤ → Text → Act Payment
unfolding recalculate
take_payment folio method value key = do
  payment ← insert_payment folio method value key
  recalculate folio.pk
  audit AuditAction.payment payment.pk
  pure payment

abbrev pub existing_payment : ℕ → Text → Db → Option Payment
existing_payment hotel key db = if is_empty key then none else find? (keyed hotel key) db.payments

-- Not an error when the key is known: the client retried, and gets what was taken.
abbrev pub reuse_or_take : Option Payment → Folio → PaymentMethod → ℤ → Text → Act Payment
reuse_or_take (some p) folio method value key = pure p
reuse_or_take none folio method value key = take_payment folio method value key

unfoldable pub post_payment : ℕ → PaymentMethod → Decimal → Text → Act Payment
unfolding take_payment
post_payment pk method amount key = atomic (do
  folio ← get_folio pk
  let value = money amount
  raise_if (leb_ℤ value (pos 0)) validation
  existing ← gets (existing_payment folio.tenant key)
  reuse_or_take existing folio method value key)
