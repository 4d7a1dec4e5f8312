-- ===== src/Examples/Bills.antt =====
-- The theorems on prices, folios and invoices at the small hotel of the parent.
use fab_ai_smart_hotel_manag.Prelude.{
  ◌+◌, ◌≤◌, inr, length, ℕ, zero, suc, ◌≡◌, ◌==◌, refl, true, ◌*◌, ◌^◌, false, none, [], ◌∷◌, arith,
}
use fab_ai_smart_hotel_manag.Prelude.Int.{pos, negsuc, ◌+ℤ◌, ◌-ℤ◌, ◌*ℤ◌, pos_part, neg_part, leb_ℤ}
use fab_ai_smart_hotel_manag.Prelude.Exec.{ok, err}
use fab_ai_smart_hotel_manag.Money.{Decimal, money, round_half_up}
use fab_ai_smart_hotel_manag.Money.Rounding.{IsNearest, money-IsNearest}
use fab_ai_smart_hotel_manag.Rooms.Weekdays.{Text}
use fab_ai_smart_hotel_manag.Pricing.{quote, Hotel}
use fab_ai_smart_hotel_manag.Pricing.Totals.{QuoteOutcome, quote-Outcome}
use fab_ai_smart_hotel_manag.Billing.Models.{Invoice, ChargeType, Payment, PaymentMethod}
use fab_ai_smart_hotel_manag.Billing.Folio.{
  recalculate, Charge, post_charge, post_payment, void_line,
}
use fab_ai_smart_hotel_manag.Billing.Folio.Totals.{charges}
use fab_ai_smart_hotel_manag.Billing.Folio.Balanced.{IsBalanced}
use fab_ai_smart_hotel_manag.Billing.Folio.Reversal.{void_line_reverses}
use fab_ai_smart_hotel_manag.Billing.Folio.Payments.{new_payment}
use fab_ai_smart_hotel_manag.Billing.Folio.Retry.{post_payment_retry, post_payment_long_key}
use fab_ai_smart_hotel_manag.Billing.Invoice.{
  serial_text, prefix_of, number_text, starts_with, serial_number, next_invoice_number,
  issue_invoice,
}
use fab_ai_smart_hotel_manag.Billing.Invoice.Numbers.{number_text_read_back}
use fab_ai_smart_hotel_manag.Billing.Invoice.Sequence.{IsUnbroken, next_invoice_number-unbroken}
use fab_ai_smart_hotel_manag.Billing.Invoice.Parts.{Stated, issue_invoice-Stated}
use fab_ai_smart_hotel_manag.Billing.Audit.{run_night_audit}
use fab_ai_smart_hotel_manag.Billing.Audit.Rolling.{Rolled, run_night_audit-Rolled}
use fab_ai_smart_hotel_manag.Database.{Db, conflict, integrity_error}
use fab_ai_smart_hotel_manag.Examples.{small_hotel, deluxe, weekend, open_stay, dinner}
use fab_ai_smart_hotel_manag.Billing.Audit.Days.{opens, voids, takes, audits, Kept-IsBalanced}
use fab_ai_smart_hotel_manag.Billing.Audit.Days

small_hotel-IsBalanced : IsBalanced small_hotel
unfolding ◌+ℤ◌ ◌-ℤ◌
small_hotel-IsBalanced = record {
  exact = (record { charged = refl; paid = refl; due = refl }, tt);
  folios_old = (omega arith, tt);
  lines_old = (omega arith, tt);
  payments_old = (omega arith, tt);
}

abbrev laundry : Charge
laundry = record {
  charge_type = ChargeType.laundry;
  amount = record { unscaled = pos 45005; places = 3 };
  quantity = pos 2;
  unit_price = none;
  on_date = none;
  source_ref = none;
  ai_suggested = false;
}

abbrev taka_50 : Decimal
taka_50 = record { unscaled = pos 50; places = 0 }

abbrev short_key : Text
short_key = b'a' ∷ b'b' ∷ []

void_line_reverses_example :
    let db' = (void_line 11 small_hotel).1 in
    (charges db'.lines 10 ≡ charges small_hotel.lines 10 -ℤ pos 12000)
    × ((k : ℕ) → (10 == k) ≡ false → charges db'.lines k ≡ charges small_hotel.lines k)
    × (void_line 11 db' ≡ (err conflict, db'))
void_line_reverses_example = void_line_reverses 11 small_hotel {l = dinner} refl refl

-- The payment that is taken, and the hotel with it.
abbrev second_payment : Payment
second_payment = new_payment open_stay PaymentMethod.card (pos 5000) short_key small_hotel

abbrev paid_hotel : Db
paid_hotel = (post_payment 10 PaymentMethod.card taka_50 short_key small_hotel).1

post_payment_succeeds :
    post_payment 10 PaymentMethod.card taka_50 short_key small_hotel
    ≡ (ok second_payment, paid_hotel)
unfolding post_payment money ◌*ℤ◌
post_payment_succeeds = refl

post_payment_retry_example :
    post_payment 10 PaymentMethod.online taka_50 short_key paid_hotel
    ≡ (ok second_payment, paid_hotel)
post_payment_retry_example =
    post_payment_retry 10 PaymentMethod.card PaymentMethod.online taka_50 short_key small_hotel
      {p = second_payment} {db' = paid_hotel} refl (omega arith) post_payment_succeeds

abbrev repeated : ℕ → Text
repeated zero = []
repeated (suc n) = b'x' ∷ repeated n

abbrev long_key : Text
long_key = repeated 65

abbrev paid_long : Db
paid_long = (post_payment 10 PaymentMethod.card taka_50 long_key small_hotel).1

positive_50 : leb_ℤ (money taka_50) (pos 0) ≡ false
unfolding money round_half_up ◌*ℤ◌
positive_50 = refl

post_payment_long_key_example :
    (post_payment 10 PaymentMethod.card taka_50 long_key small_hotel ≡ (
      ok (new_payment open_stay PaymentMethod.card (money taka_50) long_key small_hotel),
      paid_long,
    ))
    × (post_payment 10 PaymentMethod.card taka_50 long_key paid_long
        ≡ (err integrity_error, paid_long))
post_payment_long_key_example =
    post_payment_long_key 10 PaymentMethod.card PaymentMethod.card taka_50 long_key small_hotel
      {f = open_stay} (omega arith) refl positive_50 refl refl

issue_invoice-Stated_example : Stated 10 small_hotel (issue_invoice 10 small_hotel)
issue_invoice-Stated_example = issue_invoice-Stated 10 small_hotel

abbrev city_inn : Hotel
city_inn = record { pk = 1; tax_rate = pos 1500; service_charge_rate = pos 1000 }

quote-Outcome_example :
    QuoteOutcome
      (weekend ∷ [])
      city_inn
      deluxe
      102
      105
      none
      5
      2
      (quote (weekend ∷ []) city_inn deluxe 102 105 none 5 2)
quote-Outcome_example = quote-Outcome (weekend ∷ []) city_inn deluxe 102 105 none 5 2

abbrev minus_half_cent : Decimal
minus_half_cent = record { unscaled = negsuc 1004; places = 3 }

money-IsNearest_example :
    IsNearest (pos_part minus_half_cent.unscaled * 100) (10 ^ 3) (pos_part (money minus_half_cent))
    × IsNearest
        (neg_part minus_half_cent.unscaled * 100)
        (10 ^ 3)
        (neg_part (money minus_half_cent))
money-IsNearest_example = money-IsNearest minus_half_cent

Kept-IsBalanced_example :
    IsBalanced
      (run_night_audit city_inn
        (post_payment 10 PaymentMethod.card taka_50 short_key
          (void_line 11 (post_charge 10 laundry small_hotel).1).1).1).1
Kept-IsBalanced_example =
    Kept-IsBalanced {db = small_hotel}
      (audits city_inn
        (takes 10 PaymentMethod.card taka_50 short_key (voids 11 (Days.charges 10 laundry opens))))
      small_hotel-IsBalanced

run_night_audit-Rolled_example : Rolled city_inn small_hotel (run_night_audit city_inn small_hotel)
run_night_audit-Rolled_example = run_night_audit-Rolled city_inn small_hotel

-- The guest in the house is charged for the night of the 100th day.
audited_lines : length (run_night_audit city_inn small_hotel).1.lines ≡ 4
unfolding run_night_audit recalculate money round_half_up ◌*ℤ◌ ◌+ℤ◌ ◌-ℤ◌
audited_lines = refl

abbrev last_bill : Invoice
last_bill = record {
  pk = 16;
  tenant = 1;
  is_deleted = false;
  number = number_text 2026 41;
  folio = 10;
  guest = 4;
  subtotal = pos 0;
  tax_amount = pos 0;
  service_amount = pos 0;
  discount_amount = pos 0;
  total = pos 0;
  amount_paid = pos 0;
  is_paid = true;
  snapshot = [];
}

abbrev billed_hotel : Db
billed_hotel = record small_hotel { invoices = last_bill ∷ [] }

number_text_read_back_example :
    (serial_number (number_text 2026 123) ≡ 123)
    × (starts_with (prefix_of 2026) (number_text 2026 123) ≡ true)
    × (length (prefix_of 2026) + 6 ≤ length (number_text 2026 123))
number_text_read_back_example = number_text_read_back 2026 123

billed_hotel-IsUnbroken : IsUnbroken 1 41 billed_hotel
unfolding number_text prefix_of serial_text
billed_hotel-IsUnbroken = record {
  among = ((λ own. (41, omega arith, omega arith, refl)), tt);
  reached = inr ([], last_bill, [], refl, refl, refl);
}

next_invoice_number-unbroken_example : next_invoice_number 1 billed_hotel ≡ number_text 2026 42
next_invoice_number-unbroken_example =
    next_invoice_number-unbroken 1 41 billed_hotel billed_hotel-IsUnbroken (omega arith)
