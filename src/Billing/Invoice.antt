-- ===== src/Billing/Invoice.antt =====
-- services/billing/folio.py: issuing an invoice, its number, and settling a folio.
--
-- The snapshot keeps the lines. The hotel's and the guest's texts in it are left out.
pub mod Parts
pub mod Numbers
pub mod Sequence
use fab_ai_smart_hotel_manag.Prelude.{
  ℕ, zero, suc, ◌+◌, ◌-◌, ◌/◌, ◌%◌, Bool, true, false, not, ◌&&◌, ◌||◌, Option, none, some, List,
  [], ◌∷◌, ◌++◌, ltb, leb, ◌==◌, length, filter, find?, any, sort_by, if◌then◌else◌,
}
use fab_ai_smart_hotel_manag.Prelude.Int.{ℤ, pos, ◌+ℤ◌, leb_ℤ, ltb_ℤ}
use fab_ai_smart_hotel_manag.Prelude.Exec.{
  ok, err, Unit₀, ◌>>=◌, ◌>>◌, pure, raise_if, gets, modify, atomic,
}
use fab_ai_smart_hotel_manag.Money.{of_cents, money}
use fab_ai_smart_hotel_manag.Rooms.Weekdays.{Text, int_from}
use fab_ai_smart_hotel_manag.Billing.Models.{
  Folio, FolioLine, FolioStatus, settled, Invoice, ChargeType, room, tax, service, discount,
}
use fab_ai_smart_hotel_manag.Billing.Folio.{of_folio, recalculate, same_text}
use fab_ai_smart_hotel_manag.Database.{
  Db, Act, conflict, integrity_error, AuditAction, get_folio, update_folio, audit,
}

-- The order of texts by code points, which orders the digits of a number's text.
abbrev pub text_before : Text → Text → Bool
text_before [] [] = false
text_before [] (d ∷ ds) = true
text_before (c ∷ cs) [] = false
text_before (c ∷ cs) (d ∷ ds) = ltb c d || (c == d && text_before cs ds)

-- The decimal digits of `n`, on enough fuel, before those already written.
pub digits_from : ℕ → ℕ → Text → Text
digits_from zero n written = written
digits_from (suc fuel) n written =
    let rest = digits_from fuel (n / 10) ((48 + n % 10) ∷ written) in
    if ltb n 10 then (48 + n) ∷ written else rest

abbrev pub zeros : ℕ → Text → Text
zeros zero t = t
zeros (suc n) t = 48 ∷ zeros n t

-- `f"{n:06d}"`; a number has at most as many digits as its value, so `n + 1` is fuel enough.
unfoldable pub serial_text : ℕ → Text
unfolding digits_from
serial_text n = let t = digits_from (n + 1) n [] in zeros (6 - length t) t

-- `f"INV-{year}-"`
unfoldable pub prefix_of : ℕ → Text
unfolding digits_from
prefix_of year = b'I' ∷ b'N' ∷ b'V' ∷ b'-' ∷ (digits_from (year + 1) year [] ++ b'-' ∷ [])

-- `f"{prefix}{nxt:06d}"`
unfoldable pub number_text : ℕ → ℕ → Text
unfolding prefix_of serial_text
number_text year serial = prefix_of year ++ serial_text serial

-- `text.startswith(prefix)`
abbrev pub starts_with : Text → Text → Bool
starts_with [] t = true
starts_with (c ∷ cs) [] = false
starts_with (c ∷ cs) (d ∷ ds) = c == d && starts_with cs ds

abbrev pub of_year : ℕ → ℕ → Invoice → Bool
unfolding prefix_of
of_year hotel year i = i.tenant == hotel && starts_with (prefix_of year) i.number

-- What follows the last dash of a text that has one.
abbrev pub after_dash : Text → Option Text
after_dash [] = none
after_dash (c ∷ cs) = elim (after_dash cs) [
  | some t ↦ some t
  | none ↦ if c == b'-' then some cs else none
]

abbrev pub read_digits : Option Text → ℕ
read_digits none = 0
read_digits (some t) = int_from 0 t

-- `int(last.rsplit("-", 1)[1])`. The text has the dash of the prefix; only the numbers that are
-- printed here have the prefix, so what follows is digits.
abbrev pub serial_number : Text → ℕ
serial_number t = read_digits (after_dash t)

-- `.order_by("-number")`
abbrev pub number_before : Invoice → Invoice → Bool
number_before a b = not (text_before a.number b.number)

-- `.order_by("-number").first()` among the invoices of the year
unfoldable pub last_invoice : ℕ → Db → Option Invoice
unfolding of_year
last_invoice hotel db =
    find? (λ _. true) (sort_by number_before (filter (of_year hotel db.year) db.invoices))

abbrev pub next_serial : Option Invoice → ℕ
next_serial (some i) = serial_number i.number + 1
next_serial none = 1

-- `_next_invoice_number(hotel)`
unfoldable pub next_invoice_number : ℕ → Db → Text
unfolding number_text last_invoice
next_invoice_number hotel db = number_text db.year (next_serial (last_invoice hotel db))

-- The running sums of the loop over the lines.
pub record Sums : Type 0 where
  pub subtotal : ℤ
  pub tax_sum : ℤ
  pub service_sum : ℤ
  pub discount_sum : ℤ

abbrev pub tally : Sums → ChargeType → ℤ → Sums
tally s tax amount = record s { tax_sum = s.tax_sum +ℤ amount }
tally s service amount = record s { service_sum = s.service_sum +ℤ amount }
tally s discount amount = record s { discount_sum = s.discount_sum +ℤ amount }
tally s _ amount = record s { subtotal = s.subtotal +ℤ amount }

abbrev pub tally_lines : Sums → List FolioLine → Sums
tally_lines s [] = s
tally_lines s (l ∷ ls) = tally_lines (tally s l.charge_type l.amount) ls

abbrev pub no_sums : Sums
no_sums = record { subtotal = pos 0; tax_sum = pos 0; service_sum = pos 0; discount_sum = pos 0 }

-- `folio.lines.order_by("business_date", "created_at")`
abbrev pub line_before : FolioLine → FolioLine → Bool
line_before a b =
    ltb a.business_date b.business_date || (a.business_date == b.business_date && leb a.pk b.pk)

abbrev pub ordered_lines : ℕ → Db → List FolioLine
ordered_lines pk db = sort_by line_before (filter (of_folio pk) db.lines)

abbrev pub invoice_for : Folio → List FolioLine → Text → ℕ → Invoice
invoice_for folio lines number pk =
    let sums = tally_lines no_sums lines in
    record {
      pk = pk;
      tenant = folio.tenant;
      is_deleted = false;
      number = number;
      folio = folio.pk;
      guest = folio.guest;
      subtotal = money (of_cents sums.subtotal);
      tax_amount = money (of_cents sums.tax_sum);
      service_amount = money (of_cents sums.service_sum);
      discount_amount = money (of_cents sums.discount_sum);
      total = money (of_cents folio.charges_total);
      amount_paid = money (of_cents folio.payments_total);
      is_paid = leb_ℤ folio.balance (pos 0);
      snapshot = lines;
    }

-- `uniq_invoice_number_per_hotel`
abbrev pub numbered : ℕ → Text → Invoice → Bool
numbered hotel number i = i.tenant == hotel && not i.is_deleted && same_text i.number number

-- `Invoice.objects.create(...)`
abbrev pub insert_invoice : (ℕ → Invoice) → Act Invoice
insert_invoice row db =
    let i = row db.next_pk in
    if any (numbered i.tenant i.number) db.invoices
    then (err integrity_error, db)
    else (ok i, record db { invoices = db.invoices ++ i ∷ []; next_pk = suc db.next_pk })

unfoldable pub issue_invoice : ℕ → Act Invoice
unfolding recalculate next_invoice_number
issue_invoice pk = atomic (do
  recalculate pk
  folio ← get_folio pk
  lines ← gets (ordered_lines pk)
  number ← gets (next_invoice_number folio.tenant)
  invoice ← insert_invoice (invoice_for folio lines number)
  audit AuditAction.create invoice.pk
  pure invoice)

abbrev pub mark_settled : ℕ → Folio → Folio
mark_settled now f = record f { status = settled; settled_at = some now }

-- `settle(folio)`, which is no transaction of its own
unfoldable pub settle : ℕ → Act Invoice
unfolding issue_invoice
settle pk = do
  recalculate pk
  folio ← get_folio pk
  raise_if (ltb_ℤ (pos 0) folio.balance) conflict
  invoice ← issue_invoice pk
  now ← gets (λ (db : Db). db.now)
  update_folio pk (mark_settled now)
  pure invoice
