-- ===== src/Billing/Audit/Ledger.antt =====
-- services/billing/folio.py, `run_night_audit` and `open_folio`: the totals of the folios.
use fab_ai_smart_hotel_manag.Prelude.{
  ℕ, ◌<◌, ◌≡◌, refl, false, Option, none, some, List, [], ◌∷◌, arith, ◌==◌, any, All, All-append,
  inl, inr, Bool-cases,
}
use fab_ai_smart_hotel_manag.Prelude.Int.{pos, ◌-ℤ◌}
use fab_ai_smart_hotel_manag.Prelude.Keeps.{
  Keeps, Keeps-bind, Keeps-gets, Keeps-pure, Keeps-modify, Keeps-atomic,
}
use fab_ai_smart_hotel_manag.Pricing.{Hotel}
use fab_ai_smart_hotel_manag.Billing.Models.{Folio, FolioLine, Payment, BusinessDate}
use fab_ai_smart_hotel_manag.Billing.Folio.{
  Charge, post_charge, folio_of, folio_or_new, insert_folio, open_folio, date_row,
}
use fab_ai_smart_hotel_manag.Billing.Folio.Totals.{charges, received}
use fab_ai_smart_hotel_manag.Billing.Folio.Balanced.{IsBalanced, later, post_charge-IsBalanced}
use fab_ai_smart_hotel_manag.Billing.Audit.{
  ensure_business_date, date_or_new, audited_stays, save_date, report, run_night_audit,
}
use fab_ai_smart_hotel_manag.Billing.Audit.Charging.{charge_stays-Keeps}
use fab_ai_smart_hotel_manag.Booking.Models.{Reservation}
use fab_ai_smart_hotel_manag.Database.{Db}

-- A folio that no row names has nothing on it.
charges_none :
    (lines : List FolioLine) (n : ℕ) → All (λ l. l.folio < n) lines → charges lines n ≡ pos 0
charges_none [] n h = refl
charges_none (l ∷ ls) n h =
    let other : (l.folio == n) ≡ false = ground arith in rw other (charges_none ls n h.1)

received_none :
    (payments : List Payment) (n : ℕ)
    → All (λ p. p.folio < n) payments
    → received payments n ≡ pos 0
received_none [] n h = refl
received_none (p ∷ ps) n h =
    let other : (p.folio == n) ≡ false = ground arith in rw other (received_none ps n h.1)

zero_due : pos 0 -ℤ pos 0 ≡ pos 0
unfolding ◌-ℤ◌
zero_due = refl

insert_folio-IsBalanced :
    (r : Reservation) (db : Db) → IsBalanced db → IsBalanced (insert_folio r db).1
insert_folio-IsBalanced r db h =
    elim (Bool-cases (any (λ (g : Folio). g.reservation == r.pk) db.folios)) [
      | inl e ↦ rw e h
      | inr e ↦
          let c = charges_none db.lines db.next_pk h.lines_old in
          let p = received_none db.payments db.next_pk h.payments_old in
          rw e (record {
            exact =
                All-append _ db.folios _ h.exact
                  (record { charged = rw c; paid = rw p; due = rw (c, p, zero_due) }, tt);
            folios_old =
                All-append _ db.folios _ (later (λ f. f.pk) db.next_pk db.folios h.folios_old)
                  (omega arith, tt);
            lines_old = later (λ l. l.folio) db.next_pk db.lines h.lines_old;
            payments_old = later (λ p. p.folio) db.next_pk db.payments h.payments_old;
          })
    ]

folio_or_new-Keeps : (f : Option Folio) (r : Reservation) → Keeps IsBalanced (folio_or_new f r)
folio_or_new-Keeps (some f) r = Keeps-pure f
folio_or_new-Keeps none r = record { at = insert_folio-IsBalanced r }

open_folio-Keeps : (r : Reservation) → Keeps IsBalanced (open_folio r)
unfolding open_folio
open_folio-Keeps r = Keeps-bind _ _ (Keeps-gets (folio_of r)) λ f. folio_or_new-Keeps f r

post_charge-Keeps : (pk : ℕ) (c : Charge) → Keeps IsBalanced (post_charge pk c)
post_charge-Keeps pk c = record { at = post_charge-IsBalanced pk c }

date_or_new-Keeps :
    (row : Option BusinessDate) (hotel : ℕ) → Keeps IsBalanced (date_or_new row hotel)
date_or_new-Keeps (some row) hotel = record { at = λ db h. h }
date_or_new-Keeps none hotel = record {
  at = λ db h. record {
    exact = h.exact;
    folios_old = later (λ f. f.pk) db.next_pk db.folios h.folios_old;
    lines_old = later (λ l. l.folio) db.next_pk db.lines h.lines_old;
    payments_old = later (λ p. p.folio) db.next_pk db.payments h.payments_old;
  };
}

ensure_business_date-Keeps : (hotel : ℕ) → Keeps IsBalanced (ensure_business_date hotel)
unfolding ensure_business_date
ensure_business_date-Keeps hotel = record {
  at = λ db h. (date_or_new-Keeps (date_row db hotel) hotel).at db h;
}

-- The night audit, done or given up, keeps the ledger balanced.
pub run_night_audit-IsBalanced :
    (hotel : Hotel) (db : Db) → IsBalanced db → IsBalanced (run_night_audit hotel db).1
unfolding run_night_audit
run_night_audit-IsBalanced hotel =
    (Keeps-atomic _ (
      Keeps-bind _ _ (ensure_business_date-Keeps hotel.pk) λ state.
        Keeps-bind _ _ (Keeps-gets (audited_stays hotel.pk)) λ stays.
          Keeps-bind _ _
            (charge_stays-Keeps IsBalanced post_charge-Keeps open_folio-Keeps hotel
              state.current_date stays (record { rooms = 0; revenue = pos 0 }))
            λ sums.
              Keeps-bind _ _ (Keeps-modify (save_date state sums) (λ db h. h))
                λ _. Keeps-pure (report state sums))).at
