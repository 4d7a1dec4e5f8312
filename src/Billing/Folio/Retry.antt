-- ===== src/Billing/Folio/Retry.antt =====
-- services/billing/folio.py, `post_payment`: a retried request and its idempotency key.
use fab_ai_smart_hotel_manag.Prelude.{
  ℕ, zero, suc, ◌<◌, ◌≤◌, ◌≡◌, refl, ap, ◌∙◌, inl, inr, Bool, true, false, ◌||◌, Option, none, some,
  [], ◌∷◌, ◌++◌, arith, ◌==◌, find?, take, length, any, any-append, ==_self, find?-update_where,
  find?-append_missing, subst,
}
use fab_ai_smart_hotel_manag.Prelude.Int.{pos, leb_ℤ}
use fab_ai_smart_hotel_manag.Prelude.Exec.{Result, ok, err, roll_back}
use fab_ai_smart_hotel_manag.Money.{Decimal, money}
use fab_ai_smart_hotel_manag.Rooms.Weekdays.{Text}
use fab_ai_smart_hotel_manag.Billing.Models.{Folio, Payment, PaymentMethod}
use fab_ai_smart_hotel_manag.Database.{Db, Error, integrity_error}
use fab_ai_smart_hotel_manag.Billing.Folio.{
  keyed, existing_payment, same_text, is_empty, reuse_or_take, post_payment, recalculate,
}
use fab_ai_smart_hotel_manag.Billing.Folio.Balanced.{recalculate_frame}
use fab_ai_smart_hotel_manag.Billing.Folio.Payments.{
  new_payment, with_payment, paid, taken, take_payment-taken, take_payment_new, post_payment-Paying,
}

pub same_text_refl : (t : Text) → same_text t t ≡ true
same_text_refl [] = refl
same_text_refl (c ∷ cs) = ground (arith, same_text_refl cs)

take-all : (n : ℕ) (t : Text) → length t ≤ n → take n t ≡ t
take-all zero [] h = refl
take-all zero (c ∷ cs) h = absurd (omega arith)
take-all (suc n) [] h = refl
take-all (suc n) (c ∷ cs) h = ap (λ (x : Text). c ∷ x) (take-all n cs (omega arith))

-- A key that is cut short is another text.
same_text-take : (n : ℕ) (t : Text) → n < length t → same_text (take n t) t ≡ false
same_text-take zero [] h = absurd (omega arith)
same_text-take zero (c ∷ cs) h = refl
same_text-take (suc n) [] h = absurd (omega arith)
same_text-take (suc n) (c ∷ cs) h = ground (arith, same_text-take n cs)

post_payment-reuse :
    (pk : ℕ) (method : PaymentMethod) (amount : Decimal) (key : Text) (db : Db) {f : Folio}
    (o : Option Payment)
    → find? (λ (f : Folio). f.pk == pk) db.folios ≡ some f
    → leb_ℤ (money amount) (pos 0) ≡ false
    → existing_payment f.tenant key db ≡ o
    → post_payment pk method amount key db
      ≡ roll_back db (reuse_or_take o f method (money amount) key db)
unfolding post_payment
post_payment-reuse pk method amount key db {f} o found positive e = rw (found, positive, e)

-- The folio is still there after a payment, under the same hotel.
found-paid :
    (pk : ℕ) (db : Db) (p : Payment) {f : Folio}
    → find? (λ (f : Folio). f.pk == pk) db.folios ≡ some f
    → (g : Folio) × (find? (λ (f : Folio). f.pk == pk) (paid p db).folios ≡ some g)
      × (g.tenant ≡ f.tenant)
unfolding recalculate
found-paid pk db p {f} found = (
  _,
  find?-update_where (λ (f : Folio). f.pk == pk) (λ (f : Folio). f.pk == p.folio) _ db.folios
      (λ x. refl) found,
  ground arith,
)

paid-payments : (p : Payment) (db : Db) → (paid p db).payments ≡ db.payments ++ p ∷ []
paid-payments p db = (recalculate_frame p.folio (with_payment p db)).1

module _ (pk : ℕ) (method again : PaymentMethod) (amount : Decimal) (key : Text) where
  -- What the retry does after a first call that ended so.
  Repeats : Result Error Payment × Db → Type 0
  Repeats (ok p, db) = post_payment pk again amount key db ≡ (ok p, db)
  Repeats (err _, db) = Unit

  existing-paid :
      (f : Folio) (db : Db)
      → is_empty key ≡ false
      → length key ≤ 64
      → existing_payment f.tenant key db ≡ none
      → let p = new_payment f method (money amount) key db in
        existing_payment f.tenant key (paid p db) ≡ some p
  existing-paid f db used short e =
      let p = new_payment f method (money amount) key db in
      let none_yet : find? (keyed f.tenant key) db.payments ≡ none = rw used at e in
      rw
        (
          used,
          paid-payments p db,
          find?-append_missing (keyed f.tenant key) db.payments (p ∷ []) none_yet,
        )
        (rw (take-all 64 key short, ==_self f.tenant, same_text_refl key))

  retry-Repeats :
      (db : Db)
      → is_empty key ≡ false
      → length key ≤ 64
      → Repeats (post_payment pk method amount key db)
  unfolding Repeats
  retry-Repeats db used short = elim (post_payment-Paying pk method amount key db) [
    | inl (f, p, found, positive, e, r) ↦
        rw r (post_payment-reuse pk again amount key db (some p) found positive e)
    | inr (inl (f, found, positive, e, r)) ↦
        let p = new_payment f method (money amount) key db in
        let (g, found', same) = found-paid pk db p found in
        rw r (
          post_payment-reuse pk again amount key (paid p db) (some p) found' positive
            (rw same (existing-paid f db used short e)))
    | inr (inr (x, r)) ↦ rw r tt
  ]

-- A payment with a key of 1 to 64 characters that succeeded is not taken twice: a retry with the
-- same key and amount, by whatever method, returns the same payment and changes nothing.
pub post_payment_retry :
    (pk : ℕ) (method again : PaymentMethod) (amount : Decimal) (key : Text) (db : Db) {p : Payment}
    {db' : Db}
    → is_empty key ≡ false
    → length key ≤ 64
    → post_payment pk method amount key db ≡ (ok p, db')
    → post_payment pk again amount key db' ≡ (ok p, db')
unfolding Repeats
post_payment_retry pk method again amount key db used short e =
    subst (Repeats pk method again amount key) e
      (retry-Repeats pk method again amount key db used short)

not-empty-take : (key : Text) → 64 < length key → is_empty (take 64 key) ≡ false
not-empty-take [] h = absurd (omega arith)
not-empty-take (c ∷ cs) h = refl

or_true : (b : Bool) → (b || true) ≡ true
or_true true = refl
or_true false = refl

not-empty-long : (key : Text) → 64 < length key → is_empty key ≡ false
not-empty-long [] h = absurd (omega arith)
not-empty-long (c ∷ cs) h = refl

-- A payment whose key is longer than the 64 characters that are kept is not found by its retry,
-- which the database then refuses: the same request, sent again after it succeeded, ends in an
-- integrity error in place of the payment.
pub post_payment_long_key :
    (pk : ℕ) (method again : PaymentMethod) (amount : Decimal) (key : Text) (db : Db) {f : Folio}
    → 64 < length key
    → find? (λ (f : Folio). f.pk == pk) db.folios ≡ some f
    → leb_ℤ (money amount) (pos 0) ≡ false
    → find? (keyed f.tenant key) db.payments ≡ none
    → any (keyed f.tenant (take 64 key)) db.payments ≡ false
    → let db' = (post_payment pk method amount key db).1 in
      (post_payment pk method amount key db
        ≡ (ok (new_payment f method (money amount) key db), db'))
      × (post_payment pk again amount key db' ≡ (err integrity_error, db'))
post_payment_long_key pk method again amount key db {f} long found positive none_yet free =
    let p = new_payment f method (money amount) key db in
    let empty = not-empty-take key long in
    let first : post_payment pk method amount key db ≡ (ok p, paid p db) =
      post_payment-reuse pk method amount key db none found positive
        (rw (not-empty-long key long) none_yet)
      ∙ rw (take_payment_new f method (money amount) key db (rw (empty, free))) in
    let (g, found', same) = found-paid pk db p found in
    let unseen : existing_payment g.tenant key (paid p db) ≡ none =
      rw
        (
          not-empty-long key long,
          same,
          paid-payments p db,
          find?-append_missing (keyed f.tenant key) db.payments (p ∷ []) none_yet,
        )
        (rw (==_self f.tenant, same_text-take 64 key long)) in
    let clash : taken g key (paid p db) ≡ true =
      rw (same, paid-payments p db, any-append (keyed f.tenant (take 64 key)) db.payments (p ∷ []))
        (rw (==_self f.tenant, same_text_refl (take 64 key), empty) (or_true _)) in
    rw first (
      refl,
      post_payment-reuse pk again amount key (paid p db) none found' positive unseen
          ∙ rw (take_payment-taken g again (money amount) key (paid p db) clash),
    )
