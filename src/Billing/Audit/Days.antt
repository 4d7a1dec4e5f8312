-- ===== src/Billing/Audit/Days.antt =====
-- services/billing/folio.py: the folios across many calls.
use fab_ai_smart_hotel_manag.Prelude.{ℕ}
use fab_ai_smart_hotel_manag.Money.{Decimal}
use fab_ai_smart_hotel_manag.Rooms.Weekdays.{Text}
use fab_ai_smart_hotel_manag.Pricing.{Hotel}
use fab_ai_smart_hotel_manag.Billing.Models.{PaymentMethod}
use fab_ai_smart_hotel_manag.Billing.Folio.{Charge, post_charge, void_line, post_payment}
use fab_ai_smart_hotel_manag.Billing.Folio.Balanced.{IsBalanced, post_charge-IsBalanced}
use fab_ai_smart_hotel_manag.Billing.Folio.Payments.{post_payment-IsBalanced}
use fab_ai_smart_hotel_manag.Billing.Folio.Reversal.{void_line-IsBalanced}
use fab_ai_smart_hotel_manag.Billing.Audit.{run_night_audit}
use fab_ai_smart_hotel_manag.Billing.Audit.Ledger.{run_night_audit-IsBalanced}
use fab_ai_smart_hotel_manag.Database.{Db}

-- What the cashier and the night do with the folios, done or refused.
pub data Kept : Db → Db → Type 0 where
  opens : {db : Db} → Kept db db
  charges : {db db' : Db} (pk : ℕ) (c : Charge) → Kept db db' → Kept db (post_charge pk c db').1
  voids : {db db' : Db} (pk : ℕ) → Kept db db' → Kept db (void_line pk db').1
  takes :
      {db db' : Db} (pk : ℕ) (method : PaymentMethod) (amount : Decimal) (key : Text)
      → Kept db db'
      → Kept db (post_payment pk method amount key db').1
  audits : {db db' : Db} (hotel : Hotel) → Kept db db' → Kept db (run_night_audit hotel db').1

-- However charges, voids, payments and night audits follow each other, done or refused, every folio
-- states the sums of its lines and of its captured payments and their difference, where that is so at
-- the start and every folio that a row names is older than the next key.
pub Kept-IsBalanced : {db db' : Db} → Kept db db' → IsBalanced db → IsBalanced db'
Kept-IsBalanced opens h = h
Kept-IsBalanced (charges {db' = d} pk c run) h =
    post_charge-IsBalanced pk c d (Kept-IsBalanced run h)
Kept-IsBalanced (voids {db' = d} pk run) h = void_line-IsBalanced pk d (Kept-IsBalanced run h)
Kept-IsBalanced (takes {db' = d} pk method amount key run) h =
    post_payment-IsBalanced pk method amount key d (Kept-IsBalanced run h)
Kept-IsBalanced (audits {db' = d} hotel run) h =
    run_night_audit-IsBalanced hotel d (Kept-IsBalanced run h)
