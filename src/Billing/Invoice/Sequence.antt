-- ===== src/Billing/Invoice/Sequence.antt =====
-- services/billing/folio.py, `_next_invoice_number`: the numbers of a hotel's year are unbroken.
use fab_ai_smart_hotel_manag.Prelude.{
  Bool, Bool-cases, All-filter, ltb, ◌++◌, ℕ, ◌+◌, ◌<◌, ◌≤◌, ◌≡◌, refl, sym, ◌∙◌, ap, inl, inr,
  true, false, not, ◌⊎◌, none, some, List, [], ◌∷◌, arith, All, filter, find?-All, sort_by,
  Option-cases, subst,
}
use mathlib.Core.Bool.{false≢true, true≢false}
use fab_ai_smart_hotel_manag.Prelude.Sorting.{
  find?-sort_by_least, find?-none, filter-All, All-sort_by, sort_by-All, filter-kept, IsTrans,
  IsTotal,
}
use fab_ai_smart_hotel_manag.Rooms.Weekdays.{Text}
use fab_ai_smart_hotel_manag.Billing.Models.{Invoice}
use fab_ai_smart_hotel_manag.Billing.Invoice.{
  number_text, text_before, number_before, of_year, last_invoice, next_invoice_number,
}
use fab_ai_smart_hotel_manag.Billing.Invoice.Numbers.{serial_number-number_text, number_text-before}
use fab_ai_smart_hotel_manag.Database.{Db}

before_asym : (x y : Text) → text_before x y ≡ true → text_before y x ≡ false
before_asym [] [] h = refl
before_asym [] (d ∷ ds) h = refl
before_asym (c ∷ cs) [] h = absurd (false≢true h)
before_asym (c ∷ cs) (d ∷ ds) h = ground (arith, before_asym cs ds)

-- `x` is not before `y`, nor `y` before `z`.
after_trans :
    (x y z : Text) → text_before x y ≡ false → text_before y z ≡ false → text_before x z ≡ false
after_trans [] [] z h g = g
after_trans [] (d ∷ ds) z h g = absurd (true≢false h)
after_trans (c ∷ cs) y [] h g = refl
after_trans (c ∷ cs) [] (e ∷ es) h g = absurd (true≢false g)
after_trans (c ∷ cs) (d ∷ ds) (e ∷ es) h g = ground (arith, after_trans cs ds es)

number_before-IsTrans : IsTrans number_before
number_before-IsTrans a b c h g =
    ap not (after_trans a.number b.number c.number (ground (arith, h)) (ground (arith, g)))

number_before-IsTotal : IsTotal number_before
number_before-IsTotal a b h = ap not (before_asym a.number b.number (ground (arith, h)))

-- An invoice of the hotel has the `n`th number of this year.
abbrev pub HasNumber : ℕ → ℕ → Db → Type 0
HasNumber hotel n db =
    (before : List Invoice) × (i : Invoice) × (after : List Invoice) × (db.invoices
      ≡ before ++ i ∷ after)
    × (of_year hotel db.year i ≡ true)
    × (i.number ≡ number_text db.year n)

-- The numbers of the hotel's invoices of this year are among the first `n`, and one has the `n`th.
pub record IsUnbroken (hotel n : ℕ) (db : Db) : Type 0 where
  pub among :
      All
        (λ (i : Invoice).
          of_year hotel db.year i ≡ true
          → (k : ℕ) × (1 ≤ k) × (k ≤ n) × (i.number ≡ number_text db.year k))
        db.invoices
  pub reached : (n ≡ 0) ⊎ HasNumber hotel n db

all_at :
    (P : Invoice → Type 0) (xs : List Invoice) (i : Invoice) (ys : List Invoice)
    → All P (xs ++ i ∷ ys)
    → P i
all_at P [] i ys h = h.0
all_at P (x ∷ xs) i ys h = all_at P xs i ys h.1

module _ (hotel n : ℕ) (db : Db) (h : IsUnbroken hotel n db) (small : n < 1000000) where
  abbrev of_hotel : Invoice → Bool
  of_hotel = of_year hotel db.year

  abbrev issued : List Invoice
  issued = filter of_hotel db.invoices

  abbrev IsNth : Invoice → Type 0
  IsNth i = (k : ℕ) × (1 ≤ k) × (k ≤ n) × (i.number ≡ number_text db.year k)

  none_issued : last_invoice hotel db ≡ none → n ≡ 0
  unfolding last_invoice
  none_issued e = elim h.reached [
    | inl q ↦ q
    | inr (before, i, after, split, own, number) ↦
        let empty =
          filter-All (λ _. true ≡ false) of_hotel db.invoices
            (sort_by-All number_before _ _
              (find?-none (λ _. true) (sort_by number_before issued) e)) in
        absurd (true≢false (all_at _ before i after (subst (All _) split empty) own))
  ]

  last_issued : {i : Invoice} → last_invoice hotel db ≡ some i → i.number ≡ number_text db.year n
  unfolding last_invoice
  last_issued {i} e =
      let nth =
        find?-All (λ x. of_hotel x ≡ true → IsNth x) (λ _. true) (sort_by number_before issued)
          (All-sort_by number_before _ _ (All-filter _ of_hotel db.invoices h.among)) e in
      let own =
        find?-All (λ x. of_hotel x ≡ true) (λ _. true) (sort_by number_before issued)
          (All-sort_by number_before _ _ (filter-kept of_hotel db.invoices)) e in
      let least = filter-All _ of_hotel db.invoices (
        find?-sort_by_least number_before number_before-IsTrans number_before-IsTotal (λ _. true)
          issued e) in
      let (k, positive, most, number) = nth own in
      elim h.reached [
        | inl zero_yet ↦ absurd (omega (arith, positive, most, zero_yet))
        | inr (before, j, after, split, mine, last) ↦
            let first : not (text_before i.number j.number) ≡ true =
              all_at _ before j after (subst (All _) split least) mine refl in
            elim (Bool-cases (ltb k n)) [
              | inl lower ↦
                  let second = number_text-before db.year k n (ground (arith, lower)) small in
                  absurd (true≢false (sym (rw (number, last, second) at first)))
              | inr same ↦ number ∙ ap (number_text db.year) (ground (arith, most, same))
            ]
      ]

-- Auditors' unbroken sequence: where the numbers of a hotel's invoices of this year are among the
-- first `n`, and the `n`th is there, the next is the one after it, up to the millionth. The last one is
-- found by the order of the texts.
pub next_invoice_number-unbroken :
    (hotel n : ℕ) (db : Db)
    → IsUnbroken hotel n db
    → n < 1000000
    → next_invoice_number hotel db ≡ number_text db.year (n + 1)
unfolding next_invoice_number
next_invoice_number-unbroken hotel n db h small = elim (Option-cases (last_invoice hotel db)) [
  | inl e ↦ rw (e, none_issued hotel n db h small e) refl
  | inr (i, e) ↦ rw (e, last_issued hotel n db h small e, serial_number-number_text db.year n) refl
]
