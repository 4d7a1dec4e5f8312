-- ===== src/Billing/Folio/Balanced.antt =====
-- services/billing/folio.py: the ledger invariant, kept by every operation on a folio.
use fab_ai_smart_hotel_manag.Prelude.{
  ℕ, suc, ◌<◌, ◌≡◌, refl, ◌⊎◌, inl, inr, false, not, some, List, [], ◌∷◌, ◌++◌, arith, ◌==◌, find?,
  find?_holds, All, All-append, All-update, All-map, ==_iff, Bool-cases, find?-All, if◌then◌else◌,
}
use fab_ai_smart_hotel_manag.Prelude.Int.{ℤ, is_zero_ℤ}
use fab_ai_smart_hotel_manag.Prelude.Exec.{Result, ok, err, roll_back, or_raise-case, raise_if-case}
use fab_ai_smart_hotel_manag.Money.{money}
use fab_ai_smart_hotel_manag.Billing.Models.{Folio, FolioLine, Payment, is_judgement, is_opened}
use fab_ai_smart_hotel_manag.Database.{
  Db, Error, AuditAction, audit, conflict, validation, does_not_exist,
}
use fab_ai_smart_hotel_manag.Billing.Folio.{
  Charge, charge_line, date_or_business, write_charge, recalculate, post_charge,
}
use fab_ai_smart_hotel_manag.Billing.Folio.Totals.{
  IsExact, charges-append_other, recalculate-IsExact,
}

-- Every folio's totals are those of its lines and captured payments, and no row has or names a
-- key that is yet to be given out.
pub record IsLedger (lines : List FolioLine) (payments : List Payment) (folios : List Folio)
    (next : ℕ) : Type 0 where
  pub exact : All (IsExact lines payments) folios
  pub folios_old : All (λ f. f.pk < next) folios
  pub lines_old : All (λ l. l.folio < next) lines
  pub payments_old : All (λ p. p.folio < next) payments

abbrev pub IsBalanced : Db → Type 0
IsBalanced db = IsLedger db.lines db.payments db.folios db.next_pk

pub recalculate-folios_old :
    (pk : ℕ) (db : Db) (n : ℕ)
    → All (λ f. f.pk < n) db.folios
    → All (λ f. f.pk < n) (recalculate pk db).1.folios
unfolding recalculate
recalculate-folios_old pk db n h =
    All-update _ _ (λ f. f.pk == pk) _ db.folios (λ f old _. old) (λ f old _. old) h

-- The tables that `recalculate` leaves alone.
pub recalculate_frame :
    (pk : ℕ) (db : Db)
    → ((recalculate pk db).1.lines ≡ db.lines)
      × ((recalculate pk db).1.payments ≡ db.payments)
      × ((recalculate pk db).1.next_pk ≡ db.next_pk)
unfolding recalculate
recalculate_frame pk db = (refl, refl, refl)

-- One more line or payment of the folio `pk`, then `recalculate pk`.
pub recalculate-IsBalanced :
    (pk : ℕ) (db : Db)
    → All (λ f. (f.pk == pk) ≡ false → IsExact db.lines db.payments f) db.folios
    → All (λ f. f.pk < db.next_pk) db.folios
    → All (λ l. l.folio < db.next_pk) db.lines
    → All (λ p. p.folio < db.next_pk) db.payments
    → IsBalanced (recalculate pk db).1
recalculate-IsBalanced pk db e f l p =
    let (el, ep, en) = recalculate_frame pk db in
    record {
      exact = rw (el, ep) (recalculate-IsExact pk db e);
      folios_old = rw en (recalculate-folios_old pk db db.next_pk f);
      lines_old = rw (el, en) l;
      payments_old = rw (ep, en) p;
    }

pub later {ℓ} :
    {A : Type ℓ} (key : A → ℕ) (n : ℕ) (xs : List A)
    → All (λ x. key x < n) xs
    → All (λ x. key x < suc n) xs
later key n xs h = All-map _ _ xs (λ x old. omega arith) h

module _ (db : Db) (h : IsBalanced db) where
  abbrev with_line : FolioLine → Db
  with_line l = record db { lines = db.lines ++ l ∷ []; next_pk = suc db.next_pk }

  with_line-IsBalanced :
      (l : FolioLine) → l.folio < db.next_pk → IsBalanced (recalculate l.folio (with_line l)).1
  with_line-IsBalanced l old =
      recalculate-IsBalanced l.folio (with_line l)
        (All-map _ _ db.folios
          (λ f exact differs.
            let e = charges-append_other db.lines l f.pk (ground arith) in
            record { charged = rw e exact.charged; paid = exact.paid; due = rw e exact.due })
          h.exact)
        (later (λ f. f.pk) db.next_pk db.folios h.folios_old)
        (All-append _ db.lines (l ∷ []) (later (λ l. l.folio) db.next_pk db.lines h.lines_old)
          (omega arith, tt))
        (later (λ p. p.folio) db.next_pk db.payments h.payments_old)

-- The line that an accepted charge writes, and the database after it.
abbrev pub posted_line : Folio → Charge → ℤ → Db → FolioLine
posted_line f c value db = charge_line f c value (date_or_business c.on_date f.tenant db) db.next_pk

abbrev pub posted : Folio → Charge → ℤ → Db → Db
posted f c value db =
    let db' =
      (recalculate f.pk (record db {
        lines = db.lines ++ posted_line f c value db ∷ [];
        next_pk = suc db.next_pk;
      })).1 in
    if is_judgement c.charge_type
    then (audit AuditAction.update (posted_line f c value db).pk db').1
    else db'

write_charge_lem :
    (f : Folio) (c : Charge) (value : ℤ) (db : Db)
    → write_charge f c value db ≡ (ok (posted_line f c value db), posted f c value db)
unfolding write_charge recalculate
write_charge_lem f c value db = elim (Bool-cases (is_judgement c.charge_type)) [
  | inl e ↦ rw e
  | inr e ↦ rw e
]

-- How a charge ends: it is written on an open folio when its amount is not zero, or nothing is
-- changed.
abbrev pub Posting : ℕ → Charge → Db → Result Error FolioLine × Db → Type 0
Posting pk c db r =
    ((f : Folio) × (find? (λ (f : Folio). f.pk == pk) db.folios ≡ some f)
      × (not (is_opened f.status) ≡ false)
      × (is_zero_ℤ (money c.amount) ≡ false)
      × (r ≡ (ok (posted_line f c (money c.amount) db), posted f c (money c.amount) db)))
    ⊎ ((e : Error) × (r ≡ (err e, db)))

pub post_charge-Posting : (pk : ℕ) (c : Charge) (db : Db) → Posting pk c db (post_charge pk c db)
unfolding post_charge
post_charge-Posting pk c db =
    or_raise-case (λ r. Posting pk c db (roll_back db r))
      (find? (λ (f : Folio). f.pk == pk) db.folios) does_not_exist _ db
      (λ f found.
        raise_if-case (λ r. Posting pk c db (roll_back db r)) (not (is_opened f.status)) conflict _
          db
          (λ is_open.
            raise_if-case (λ r. Posting pk c db (roll_back db r)) (is_zero_ℤ (money c.amount))
              validation _ db
              (λ nonzero.
                inl (f, found, is_open, nonzero, rw (write_charge_lem f c (money c.amount) db)))
              (λ _. inr (validation, refl)))
          (λ _. inr (conflict, refl)))
      (λ _. inr (does_not_exist, refl))

posted-IsBalanced :
    (f : Folio) (c : Charge) (value : ℤ) (db : Db)
    → IsBalanced db
    → f.pk < db.next_pk
    → IsBalanced (posted f c value db)
posted-IsBalanced f c value db h old = elim (Bool-cases (is_judgement c.charge_type)) [
  | inl e ↦ rw e (with_line-IsBalanced db h (posted_line f c value db) old)
  | inr e ↦ rw e (with_line-IsBalanced db h (posted_line f c value db) old)
]

pub found-pk :
    (pk : ℕ) (db : Db) {f : Folio}
    → find? (λ (f : Folio). f.pk == pk) db.folios ≡ some f
    → f.pk ≡ pk
found-pk pk db {f} e = (==_iff f.pk pk).0 (find?_holds (λ (f : Folio). f.pk == pk) db.folios e)

pub found_old :
    (pk : ℕ) (db : Db) {f : Folio}
    → IsBalanced db
    → find? (λ (f : Folio). f.pk == pk) db.folios ≡ some f
    → f.pk < db.next_pk
found_old pk db h e = find?-All _ _ db.folios h.folios_old e

-- A charge keeps the ledger balanced, whether it is posted or refused.
pub post_charge-IsBalanced :
    (pk : ℕ) (c : Charge) (db : Db) → IsBalanced db → IsBalanced (post_charge pk c db).1
post_charge-IsBalanced pk c db h = elim (post_charge-Posting pk c db) [
  | inl (f, found, _, _, e) ↦
      rw e (posted-IsBalanced f c (money c.amount) db h (found_old pk db h found))
  | inr (x, e) ↦ rw e h
]
