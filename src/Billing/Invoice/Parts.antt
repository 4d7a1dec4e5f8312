-- ===== src/Billing/Invoice/Parts.antt =====
-- services/billing/folio.py, `issue_invoice`: the amounts that an invoice states.
use fab_ai_smart_hotel_manag.Prelude.{
  ℕ, suc, ◌≡◌, refl, ◌∙◌, ◌⊎◌, inl, inr, Bool, true, false, none, some, List, [], ◌∷◌, ◌++◌, ◌==◌,
  find?, filter, not, ◌||◌, if◌then◌else◌, any, sort_by, insert_by, Bool-cases,
}
use fab_ai_smart_hotel_manag.Prelude.Int.{ℤ, pos, ◌+ℤ◌, ◌-ℤ◌, leb_ℤ, int_laws}
use fab_ai_smart_hotel_manag.Prelude.Exec.{Result, ok, err, roll_back, or_raise-case}
use fab_ai_smart_hotel_manag.Money.Rounding.{money-of_cents}
use fab_ai_smart_hotel_manag.Rooms.Weekdays.{Text}
use fab_ai_smart_hotel_manag.Billing.Models.{
  Folio, FolioLine, Invoice, ChargeType, room, tax, service, discount,
}
use fab_ai_smart_hotel_manag.Database.{
  Db, Error, AuditAction, audit, does_not_exist, integrity_error,
}
use fab_ai_smart_hotel_manag.Billing.Folio.{of_folio, sum_lines, recalculate}
use fab_ai_smart_hotel_manag.Billing.Folio.Totals.{charges, received, IsExact, found-IsExact}
use fab_ai_smart_hotel_manag.Billing.Folio.Balanced.{recalculate_frame}
use fab_ai_smart_hotel_manag.Billing.Invoice.{
  Sums, tally, tally_lines, no_sums, line_before, ordered_lines, invoice_for, numbered,
  next_invoice_number, issue_invoice,
}

abbrev whole : Sums → ℤ
whole s = s.subtotal +ℤ s.tax_sum +ℤ s.service_sum +ℤ s.discount_sum

whole-tally :
    (s : Sums) (t : ChargeType) (amount : ℤ) → whole (tally s t amount) ≡ whole s +ℤ amount
whole-tally s room amount = omega int_laws
whole-tally s tax amount = omega int_laws
whole-tally s _ amount = omega int_laws

whole-tally_lines :
    (s : Sums) (lines : List FolioLine) → whole (tally_lines s lines) ≡ whole s +ℤ sum_lines lines
whole-tally_lines s [] = omega int_laws
whole-tally_lines s (l ∷ ls) =
    rw (whole-tally_lines (tally s l.charge_type l.amount) ls, whole-tally s l.charge_type l.amount)
      (omega int_laws)

sum_lines-insert_by :
    (l : FolioLine) (ls : List FolioLine)
    → sum_lines (insert_by line_before l ls) ≡ l.amount +ℤ sum_lines ls
sum_lines-insert_by l [] = refl
sum_lines-insert_by l (k ∷ ks) = elim (Bool-cases (line_before l k)) [
  | inl e ↦ rw e
  | inr e ↦ rw e (rw (sum_lines-insert_by l ks) (omega int_laws))
]

sum_lines-sort_by : (ls : List FolioLine) → sum_lines (sort_by line_before ls) ≡ sum_lines ls
sum_lines-sort_by [] = refl
sum_lines-sort_by (l ∷ ls) =
    rw (sum_lines-insert_by l (sort_by line_before ls), sum_lines-sort_by ls)

-- The charges of a folio of some types.
abbrev pub share : (ChargeType → Bool) → List FolioLine → ℕ → ℤ
share p lines pk =
    sum_lines (filter (λ (l : FolioLine). p l.charge_type) (filter (of_folio pk) lines))

abbrev pub is_tax : ChargeType → Bool
is_tax tax = true
is_tax _ = false

abbrev pub is_service : ChargeType → Bool
is_service service = true
is_service _ = false

abbrev pub is_discount : ChargeType → Bool
is_discount discount = true
is_discount _ = false

abbrev pub is_other : ChargeType → Bool
is_other t = not (is_tax t || is_service t || is_discount t)

module _ (p : ChargeType → Bool) where
  abbrev typed : List FolioLine → List FolioLine
  typed = filter (λ (l : FolioLine). p l.charge_type)

  -- A running sum that only takes the lines of those types.
  field-tally_lines :
      (f : Sums → ℤ)
      → ((s : Sums) (t : ChargeType) (amount : ℤ)
          → f (tally s t amount) ≡ (if p t then f s +ℤ amount else f s))
      → (s : Sums) (ls : List FolioLine) → f (tally_lines s ls) ≡ f s +ℤ sum_lines (typed ls)
  field-tally_lines f step s [] = omega int_laws
  field-tally_lines f step s (l ∷ ls) = elim (Bool-cases (p l.charge_type)) [
    | inl e ↦
        rw
          (
            field-tally_lines f step (tally s l.charge_type l.amount) ls,
            step s l.charge_type l.amount,
            e,
          )
          (omega int_laws)
    | inr e ↦
        rw
          (
            field-tally_lines f step (tally s l.charge_type l.amount) ls,
            step s l.charge_type l.amount,
            e,
          )
          refl
  ]

  typed-insert_by :
      (l : FolioLine) (ls : List FolioLine)
      → sum_lines (typed (insert_by line_before l ls)) ≡ sum_lines (typed (l ∷ ls))
  typed-insert_by l [] = refl
  typed-insert_by l (k ∷ ks) = elim (Bool-cases (line_before l k)) [
    | inl e ↦ rw e refl
    | inr e ↦ elim (Bool-cases (p l.charge_type)) [
      | inl t ↦ elim (Bool-cases (p k.charge_type)) [
        | inl u ↦ rw (e, t, u) (rw (typed-insert_by l ks, t) (omega int_laws))
        | inr u ↦ rw (e, t, u) (rw (typed-insert_by l ks, t) refl)
      ]
      | inr t ↦ elim (Bool-cases (p k.charge_type)) [
        | inl u ↦ rw (e, t, u) (rw (typed-insert_by l ks, t) refl)
        | inr u ↦ rw (e, t, u) (rw (typed-insert_by l ks, t) refl)
      ]
    ]
  ]

  typed-sort_by :
      (ls : List FolioLine) → sum_lines (typed (sort_by line_before ls)) ≡ sum_lines (typed ls)
  typed-sort_by [] = refl
  typed-sort_by (l ∷ ls) = elim (Bool-cases (p l.charge_type)) [
    | inl e ↦ typed-insert_by l (sort_by line_before ls) ∙ rw (e, typed-sort_by ls) refl
    | inr e ↦ typed-insert_by l (sort_by line_before ls) ∙ rw (e, typed-sort_by ls) refl
  ]

  -- What the loop sums up in one of its sums.
  tally-share :
      (f : Sums → ℤ)
      → ((s : Sums) (t : ChargeType) (amount : ℤ)
          → f (tally s t amount) ≡ (if p t then f s +ℤ amount else f s))
      → f no_sums ≡ pos 0
      → (pk : ℕ) (db : Db) → f (tally_lines no_sums (ordered_lines pk db)) ≡ share p db.lines pk
  tally-share f step zero pk db =
      field-tally_lines f step no_sums (ordered_lines pk db)
      ∙ rw (zero, typed-sort_by (filter (of_folio pk) db.lines)) (omega int_laws)

tax_sum-tally :
    (s : Sums) (t : ChargeType) (amount : ℤ)
    → (tally s t amount).tax_sum ≡ (if is_tax t then s.tax_sum +ℤ amount else s.tax_sum)
tax_sum-tally s tax amount = refl
tax_sum-tally s _ amount = refl

service_sum-tally :
    (s : Sums) (t : ChargeType) (amount : ℤ)
    → (tally s t amount).service_sum
      ≡ (if is_service t then s.service_sum +ℤ amount else s.service_sum)
service_sum-tally s service amount = refl
service_sum-tally s _ amount = refl

discount_sum-tally :
    (s : Sums) (t : ChargeType) (amount : ℤ)
    → (tally s t amount).discount_sum
      ≡ (if is_discount t then s.discount_sum +ℤ amount else s.discount_sum)
discount_sum-tally s discount amount = refl
discount_sum-tally s _ amount = refl

subtotal-tally :
    (s : Sums) (t : ChargeType) (amount : ℤ)
    → (tally s t amount).subtotal ≡ (if is_other t then s.subtotal +ℤ amount else s.subtotal)
subtotal-tally s room amount = refl
subtotal-tally s _ amount = refl

-- An invoice states the charges and payments of its folio, split without remainder.
pub record States (db : Db) (pk : ℕ) (i : Invoice) : Type 0 where
  pub of_folio_pk : i.folio ≡ pk
  pub parts : i.subtotal +ℤ i.tax_amount +ℤ i.service_amount +ℤ i.discount_amount ≡ i.total
  pub other_part : i.subtotal ≡ share is_other db.lines pk
  pub tax_part : i.tax_amount ≡ share is_tax db.lines pk
  pub service_part : i.service_amount ≡ share is_service db.lines pk
  pub discount_part : i.discount_amount ≡ share is_discount db.lines pk
  pub total_charged : i.total ≡ charges db.lines pk
  pub all_received : i.amount_paid ≡ received db.payments pk
  pub paid_iff : i.is_paid ≡ leb_ℤ (charges db.lines pk -ℤ received db.payments pk) (pos 0)

invoice_for-States :
    (pk : ℕ) (db : Db) (f : Folio) (number : Text) (k : ℕ)
    → f.pk ≡ pk
    → IsExact db.lines db.payments f
    → States db pk (invoice_for f (ordered_lines pk db) number k)
invoice_for-States pk db f number k own exact = record {
  of_folio_pk = own;
  parts = simp money-of_cents (
      whole-tally_lines no_sums (ordered_lines pk db)
      ∙ rw (sum_lines-sort_by (filter (of_folio pk) db.lines), exact.charged, own)
          (omega int_laws));
  other_part = money-of_cents _ ∙ tally-share is_other (λ s. s.subtotal) subtotal-tally refl pk db;
  tax_part = money-of_cents _ ∙ tally-share is_tax (λ s. s.tax_sum) tax_sum-tally refl pk db;
  service_part =
      money-of_cents _ ∙ tally-share is_service (λ s. s.service_sum) service_sum-tally refl pk db;
  discount_part =
      money-of_cents _
      ∙ tally-share is_discount (λ s. s.discount_sum) discount_sum-tally refl pk db;
  total_charged = money-of_cents _ ∙ exact.charged ∙ rw own;
  all_received = money-of_cents _ ∙ exact.paid ∙ rw own;
  paid_iff = rw (exact.due, own);
}

abbrev pub refreshed : ℕ → Db → Db
refreshed pk db = (recalculate pk db).1

-- The invoice that is written for a folio, and the database after it.
abbrev pub issued : ℕ → Folio → Db → Invoice
issued pk f db =
    invoice_for f (ordered_lines pk db) (next_invoice_number f.tenant (refreshed pk db))
      (refreshed pk db).next_pk

abbrev pub with_invoice : Invoice → Db → Db
with_invoice i db = record db { invoices = db.invoices ++ i ∷ []; next_pk = suc db.next_pk }

abbrev pub invoiced : ℕ → Folio → Db → Db
invoiced pk f db =
    (audit AuditAction.create (issued pk f db).pk
      (with_invoice (issued pk f db) (refreshed pk db))).1

-- Another live invoice of the hotel has the number.
abbrev pub number_taken : ℕ → Folio → Db → Bool
number_taken pk f db = any (numbered f.tenant (issued pk f db).number) (refreshed pk db).invoices

-- How issuing ends: an invoice is written, or nothing is changed, because the folio is not there
-- or the number is taken.
abbrev pub Issuing : ℕ → Db → Result Error Invoice × Db → Type 0
Issuing pk db r =
    ((f : Folio) × (find? (λ (f : Folio). f.pk == pk) (refreshed pk db).folios ≡ some f)
      × (number_taken pk f db ≡ false)
      × (r ≡ (ok (issued pk f db), invoiced pk f db)))
    ⊎ ((f : Folio) × (find? (λ (f : Folio). f.pk == pk) (refreshed pk db).folios ≡ some f)
        × (number_taken pk f db ≡ true)
        × (r ≡ (err integrity_error, db)))
    ⊎ ((find? (λ (f : Folio). f.pk == pk) (refreshed pk db).folios ≡ none)
        × (r ≡ (err does_not_exist, db)))

pub issue_invoice-Issuing : (pk : ℕ) (db : Db) → Issuing pk db (issue_invoice pk db)
unfolding issue_invoice
issue_invoice-Issuing pk db =
    or_raise-case (λ r. Issuing pk db (roll_back db r))
      (find? (λ (f : Folio). f.pk == pk) (refreshed pk db).folios) does_not_exist _
      (refreshed pk db)
      (λ f found. elim (Bool-cases (number_taken pk f db)) [
        | inl t ↦ rw t (inr (inl (f, found, t, refl)))
        | inr n ↦ rw n (inl (f, found, n, refl))
      ])
      (λ missing. inr (inr (missing, refl)))

-- What a call leaves: an invoice that states the folio as it was, or the database as it was.
abbrev pub Stated : ℕ → Db → Result Error Invoice × Db → Type 0
Stated pk db (ok i, db') = States db pk i × (db'.lines ≡ db.lines) × (db'.payments ≡ db.payments)
Stated pk db (err _, db') = db' ≡ db

-- An issued invoice states as tax, service and discount the sums of the folio's lines of these types,
-- and as subtotal that of its other lines; these four make up the total, which is the sum of all its
-- lines, voided ones and their reversals included. The amount paid is the sum of its captured payments, and it is marked paid exactly when nothing is due. No
-- line and no payment is changed, and a refused call changes nothing at all.
pub issue_invoice-Stated : (pk : ℕ) (db : Db) → Stated pk db (issue_invoice pk db)
issue_invoice-Stated pk db = elim (issue_invoice-Issuing pk db) [
  | inl (f, found, _, e) ↦
      let (own, exact) = found-IsExact pk db found in
      let (same_lines, same_payments, _) = recalculate_frame pk db in
      rw e (invoice_for-States pk db f _ _ own exact, same_lines, same_payments)
  | inr (inl (f, _, _, e)) ↦ rw e refl
  | inr (inr (_, e)) ↦ rw e refl
]
