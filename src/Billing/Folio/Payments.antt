-- ===== src/Billing/Folio/Payments.antt =====
-- services/billing/folio.py, `post_payment`: how it ends, and its idempotency key.
use fab_ai_smart_hotel_manag.Prelude.{
  ℕ, suc, ◌≡◌, refl, ◌⊎◌, inl, inr, Bool, true, false, not, ◌&&◌, Option, none, some, [], ◌∷◌, ◌++◌,
  arith, ◌==◌, find?, take, any, All-append, All-map, Bool-cases,
}
use fab_ai_smart_hotel_manag.Prelude.Int.{ℤ, pos, leb_ℤ}
use fab_ai_smart_hotel_manag.Prelude.Exec.{Result, ok, err, roll_back, or_raise-case, raise_if-case}
use fab_ai_smart_hotel_manag.Money.{Decimal, money}
use fab_ai_smart_hotel_manag.Rooms.Weekdays.{Text}
use fab_ai_smart_hotel_manag.Billing.Models.{Folio, Payment, PaymentMethod, PaymentStatus}
use fab_ai_smart_hotel_manag.Database.{
  Db, Error, AuditAction, audit, validation, integrity_error, does_not_exist,
}
use fab_ai_smart_hotel_manag.Billing.Folio.{
  keyed, existing_payment, is_empty, reuse_or_take, take_payment, post_payment, recalculate,
}
use fab_ai_smart_hotel_manag.Billing.Folio.Totals.{received-append_other}
use fab_ai_smart_hotel_manag.Billing.Folio.Balanced.{
  IsBalanced, recalculate-IsBalanced, later, found_old,
}

-- The payment that is taken, and the database after it.
abbrev pub new_payment : Folio → PaymentMethod → ℤ → Text → Db → Payment
new_payment f method value key db = record {
  pk = db.next_pk;
  tenant = f.tenant;
  is_deleted = false;
  folio = f.pk;
  method = method;
  status = PaymentStatus.captured;
  amount = value;
  idempotency_key = take 64 key;
}

abbrev pub with_payment : Payment → Db → Db
with_payment p db = record db { payments = db.payments ++ p ∷ []; next_pk = suc db.next_pk }

abbrev pub paid : Payment → Db → Db
paid p db = (audit AuditAction.payment p.pk (recalculate p.folio (with_payment p db)).1).1

abbrev pub taken : Folio → Text → Db → Bool
taken f key db = not (is_empty (take 64 key)) && any (keyed f.tenant (take 64 key)) db.payments

pub take_payment_new :
    (f : Folio) (method : PaymentMethod) (value : ℤ) (key : Text) (db : Db)
    → taken f key db ≡ false
    → let p = new_payment f method value key db in
      take_payment f method value key db ≡ (ok p, paid p db)
unfolding take_payment recalculate
take_payment_new f method value key db h = rw h

pub take_payment-taken :
    (f : Folio) (method : PaymentMethod) (value : ℤ) (key : Text) (db : Db)
    → taken f key db ≡ true
    → take_payment f method value key db ≡ (err integrity_error, db)
unfolding take_payment
take_payment-taken f method value key db h = rw h

-- How a payment ends: an earlier one under the key is returned, or a new one is written, or
-- nothing is changed.
abbrev pub Paying : ℕ → PaymentMethod → Decimal → Text → Db → Result Error Payment × Db → Type 0
Paying pk method amount key db r =
    ((f : Folio) × (p : Payment) × (find? (λ (f : Folio). f.pk == pk) db.folios ≡ some f)
      × (leb_ℤ (money amount) (pos 0) ≡ false)
      × (existing_payment f.tenant key db ≡ some p)
      × (r ≡ (ok p, db)))
    ⊎ ((f : Folio) × (find? (λ (f : Folio). f.pk == pk) db.folios ≡ some f)
        × (leb_ℤ (money amount) (pos 0) ≡ false)
        × (existing_payment f.tenant key db ≡ none)
        × (r ≡ (
          ok (new_payment f method (money amount) key db),
          paid (new_payment f method (money amount) key db) db,
        )))
    ⊎ ((e : Error) × (r ≡ (err e, db)))

module _ (pk : ℕ) (method : PaymentMethod) (amount : Decimal) (key : Text) (db : Db) where
  payment_step :
      (f : Folio) (o : Option Payment)
      → find? (λ (f : Folio). f.pk == pk) db.folios ≡ some f
      → leb_ℤ (money amount) (pos 0) ≡ false
      → existing_payment f.tenant key db ≡ o
      → Paying pk method amount key db
          (roll_back db (reuse_or_take o f method (money amount) key db))
  payment_step f (some p) found positive e = inl (f, p, found, positive, e, refl)
  payment_step f none found positive e = elim (Bool-cases (taken f key db)) [
    | inl t ↦
        rw (take_payment-taken f method (money amount) key db t) (inr (inr (integrity_error, refl)))
    | inr t ↦
        rw (take_payment_new f method (money amount) key db t)
          (inr (inl (f, found, positive, e, refl)))
  ]

  pub post_payment-Paying : Paying pk method amount key db (post_payment pk method amount key db)
  unfolding post_payment
  post_payment-Paying =
      or_raise-case (λ r. Paying pk method amount key db (roll_back db r))
        (find? (λ (f : Folio). f.pk == pk) db.folios) does_not_exist _ db
        (λ f found.
          raise_if-case (λ r. Paying pk method amount key db (roll_back db r))
            (leb_ℤ (money amount) (pos 0)) validation _ db
            (λ positive. payment_step f (existing_payment f.tenant key db) found positive refl)
            (λ _. inr (inr (validation, refl))))
        (λ _. inr (inr (does_not_exist, refl)))

-- A payment, taken, repeated or refused, keeps the ledger balanced.
pub post_payment-IsBalanced :
    (pk : ℕ) (method : PaymentMethod) (amount : Decimal) (key : Text) (db : Db)
    → IsBalanced db
    → IsBalanced (post_payment pk method amount key db).1
post_payment-IsBalanced pk method amount key db h =
    elim (post_payment-Paying pk method amount key db) [
      | inl (_, _, _, _, _, e) ↦ rw e h
      | inr (inl (f, found, _, _, e)) ↦
          let p = new_payment f method (money amount) key db in
          let old = found_old pk db h found in
          rw e (
            recalculate-IsBalanced f.pk (with_payment p db)
              (All-map _ _ db.folios
                (λ g exact differs.
                  let same = received-append_other db.payments p g.pk (ground arith) in
                  record {
                    charged = exact.charged;
                    paid = rw same exact.paid;
                    due = rw same exact.due;
                  })
                h.exact)
              (later (λ f. f.pk) db.next_pk db.folios h.folios_old)
              (later (λ l. l.folio) db.next_pk db.lines h.lines_old)
              (All-append _ db.payments (p ∷ [])
                (later (λ p. p.folio) db.next_pk db.payments h.payments_old) (omega arith, tt)))
      | inr (inr (x, e)) ↦ rw e h
    ]
