-- ===== src/Billing/Folio/Totals.antt =====
-- apps/billing/models.py, `Folio.recalculate`: the sums that a folio's totals are derived from.
use fab_ai_smart_hotel_manag.Prelude.{
  ℕ, ◌≡◌, refl, inl, inr, Bool, true, false, some, List, [], ◌∷◌, ◌++◌, arith, ◌==◌, filter, find?,
  find?_holds, find?-All, update_where, All, All-update, ==_iff, Bool-cases, filter-append,
}
use fab_ai_smart_hotel_manag.Prelude.Int.{ℤ, ◌+ℤ◌, ◌-ℤ◌, int_laws, +ℤ_zero}
use fab_ai_smart_hotel_manag.Money.Rounding.{money-of_cents}
use fab_ai_smart_hotel_manag.Billing.Models.{Folio, FolioLine, Payment}
use fab_ai_smart_hotel_manag.Database.{Db}
use fab_ai_smart_hotel_manag.Billing.Folio.{
  of_folio, captured_for, sum_lines, sum_payments, recalculate, mark_voided,
}

-- The charges and the captured payments of a folio.
abbrev pub charges : List FolioLine → ℕ → ℤ
charges lines pk = sum_lines (filter (of_folio pk) lines)

abbrev pub received : List Payment → ℕ → ℤ
received payments pk = sum_payments (filter (captured_for pk) payments)

-- The totals of a folio are those of its lines and payments.
pub record IsExact (lines : List FolioLine) (payments : List Payment) (f : Folio) : Type 0 where
  pub charged : f.charges_total ≡ charges lines f.pk
  pub paid : f.payments_total ≡ received payments f.pk
  pub due : f.balance ≡ charges lines f.pk -ℤ received payments f.pk

sum_lines-append : (xs ys : List FolioLine) → sum_lines (xs ++ ys) ≡ sum_lines xs +ℤ sum_lines ys
sum_lines-append [] ys = omega int_laws
sum_lines-append (x ∷ xs) ys = rw (sum_lines-append xs ys) (omega int_laws)

sum_payments-append :
    (xs ys : List Payment) → sum_payments (xs ++ ys) ≡ sum_payments xs +ℤ sum_payments ys
sum_payments-append [] ys = omega int_laws
sum_payments-append (x ∷ xs) ys = rw (sum_payments-append xs ys) (omega int_laws)

pub charges-append_line :
    (lines : List FolioLine) (l : FolioLine) (pk : ℕ)
    → charges (lines ++ l ∷ []) pk ≡ charges lines pk +ℤ charges (l ∷ []) pk
charges-append_line lines l pk =
    rw (filter-append (of_folio pk) lines (l ∷ [])) (sum_lines-append _ _)

pub charges-append_other :
    (lines : List FolioLine) (l : FolioLine) (pk : ℕ)
    → (l.folio == pk) ≡ false
    → charges (lines ++ l ∷ []) pk ≡ charges lines pk
charges-append_other lines l pk h =
    rw (charges-append_line lines l pk) (rw h (+ℤ_zero (charges lines pk)))

pub received-append_payment :
    (payments : List Payment) (p : Payment) (pk : ℕ)
    → received (payments ++ p ∷ []) pk ≡ received payments pk +ℤ received (p ∷ []) pk
received-append_payment payments p pk =
    rw (filter-append (captured_for pk) payments (p ∷ [])) (sum_payments-append _ _)

pub received-append_other :
    (payments : List Payment) (p : Payment) (pk : ℕ)
    → (p.folio == pk) ≡ false
    → received (payments ++ p ∷ []) pk ≡ received payments pk
received-append_other payments p pk h =
    rw (received-append_payment payments p pk) (rw h (+ℤ_zero (received payments pk)))

-- Marking a line as voided changes no sum.
pub charges-mark_voided :
    (lines : List FolioLine) (test : FolioLine → Bool) (reversal pk : ℕ)
    → charges (update_where test (mark_voided reversal) lines) pk ≡ charges lines pk
charges-mark_voided [] test reversal pk = refl
charges-mark_voided (l ∷ ls) test reversal pk =
    ground (arith, charges-mark_voided ls test reversal pk)

-- `recalculate` makes the totals of its folio exact, whatever they were, and changes no other.
pub recalculate-IsExact :
    (pk : ℕ) (db : Db)
    → All (λ f. (f.pk == pk) ≡ false → IsExact db.lines db.payments f) db.folios
    → All (IsExact db.lines db.payments) (recalculate pk db).1.folios
unfolding recalculate
recalculate-IsExact pk db h =
    All-update _ _ (λ f. f.pk == pk) _ db.folios
      (λ f _ same.
        let e : f.pk ≡ pk = (==_iff f.pk pk).0 same in
        record {
          charged = rw (e, money-of_cents) refl;
          paid = rw (e, money-of_cents) refl;
          due = rw (e, money-of_cents) refl;
        })
      (λ f exact differs. exact differs) h

-- Whatever the totals were, those of the folio itself are exact afterwards.
pub recalculate_own :
    (pk : ℕ) (db : Db) (fs : List Folio)
    → All
        (λ f. (f.pk == pk) ≡ true → IsExact db.lines db.payments f)
        (recalculate pk (record db { folios = fs })).1.folios
unfolding recalculate
recalculate_own pk db [] = tt
recalculate_own pk db (f ∷ fs) = elim (Bool-cases (f.pk == pk)) [
  | inl t ↦
      let e : f.pk ≡ pk = (==_iff f.pk pk).0 t in
      rw t (
        (λ _. record {
          charged = rw (e, money-of_cents) refl;
          paid = rw (e, money-of_cents) refl;
          due = rw (e, money-of_cents) refl;
        }),
        recalculate_own pk db fs,
      )
  | inr n ↦ rw n ((λ t. cc), recalculate_own pk db fs)
]

-- A folio that is found after `recalculate` has exact totals.
pub found-IsExact :
    (pk : ℕ) (db : Db) {f : Folio}
    → find? (λ (f : Folio). f.pk == pk) (recalculate pk db).1.folios ≡ some f
    → (f.pk ≡ pk) × IsExact db.lines db.payments f
found-IsExact pk db {f} found =
    let own = find?_holds (λ (f : Folio). f.pk == pk) _ found in
    (
      (==_iff f.pk pk).0 own,
      find?-All (λ f. (f.pk == pk) ≡ true → IsExact db.lines db.payments f) _ _
          (recalculate_own pk db db.folios) found own,
    )
