-- ===== src/Billing/Invoice/Numbers.antt =====
-- services/billing/folio.py, `_next_invoice_number`: the serial that is printed is the one that is read.
use fab_ai_smart_hotel_manag.Prelude.{
  length-append, ℕ, zero, suc, ◌+◌, ◌-◌, ◌/◌, ◌%◌, ◌<◌, ◌≤◌, ◌≡◌, refl, ap, ◌∙◌, inl, inr, [], ◌∷◌,
  arith, ltb, some, none, true, sym, subst, ◌==◌, Bool-cases, length, All, ◌++◌, ◌*◌,
}
use fab_ai_smart_hotel_manag.Rooms.Weekdays.{Text, int_from}
use fab_ai_smart_hotel_manag.Billing.Invoice.{
  digits_from, zeros, serial_text, prefix_of, number_text, starts_with, after_dash, read_digits,
  serial_number, text_before,
}

int_from-digits_from :
    (fuel n : ℕ) (written : Text)
    → n < fuel
    → int_from 0 (digits_from fuel n written) ≡ int_from n written
unfolding digits_from
int_from-digits_from zero n written enough = absurd (omega arith)
int_from-digits_from (suc fuel) n written enough = elim (Bool-cases (ltb n 10)) [
  | inl digit ↦ rw digit (ap (λ k. int_from k written) (omega arith))
  | inr longer ↦
      let ten : 10 ≤ n = ground (arith, longer) in
      rw longer (
        int_from-digits_from fuel (n / 10) ((48 + n % 10) ∷ written) (omega arith)
        ∙ ap (λ k. int_from k written) (omega arith))
]

int_from-zeros : (k : ℕ) (t : Text) → int_from 0 (zeros k t) ≡ int_from 0 t
int_from-zeros zero t = refl
int_from-zeros (suc k) t = int_from-zeros k t

int_from-serial_text : (n : ℕ) → int_from 0 (serial_text n) ≡ n
unfolding serial_text
int_from-serial_text n =
    int_from-zeros (6 - length (digits_from (n + 1) n [])) (digits_from (n + 1) n [])
    ∙ int_from-digits_from (n + 1) n [] (omega arith)

-- A text of decimal digits.
abbrev IsDigits : Text → Type 0
IsDigits = All (λ c. (48 ≤ c) × (c ≤ 57))

digits_from-IsDigits : (fuel n : ℕ) (t : Text) → IsDigits t → IsDigits (digits_from fuel n t)
unfolding digits_from
digits_from-IsDigits zero n t h = h
digits_from-IsDigits (suc fuel) n t h = elim (Bool-cases (ltb n 10)) [
  | inl digit ↦ rw digit ((omega arith, ground (arith, digit)), h)
  | inr longer ↦
      rw longer
        (digits_from-IsDigits fuel (n / 10) ((48 + n % 10) ∷ t) ((omega arith, omega arith), h))
]

zeros-IsDigits : (k : ℕ) (t : Text) → IsDigits t → IsDigits (zeros k t)
zeros-IsDigits zero t h = h
zeros-IsDigits (suc k) t h = ((omega arith, omega arith), zeros-IsDigits k t h)

serial_text-IsDigits : (n : ℕ) → IsDigits (serial_text n)
unfolding serial_text
serial_text-IsDigits n = zeros-IsDigits _ _ (digits_from-IsDigits (n + 1) n [] tt)

after_dash-digits : (t : Text) → IsDigits t → after_dash t ≡ none
after_dash-digits [] h = refl
after_dash-digits (c ∷ cs) h = rw (after_dash-digits cs h.1) (ground arith)

after_dash-append : (xs t : Text) → IsDigits t → after_dash ((xs ++ b'-' ∷ []) ++ t) ≡ some t
after_dash-append [] t h = rw (after_dash-digits t h) refl
after_dash-append (x ∷ xs) t h = rw (after_dash-append xs t h) refl

pub serial_number-number_text : (year n : ℕ) → serial_number (number_text year n) ≡ n
unfolding number_text prefix_of
serial_number-number_text year n =
    ap read_digits (
      after_dash-append (b'I' ∷ b'N' ∷ b'V' ∷ b'-' ∷ digits_from (year + 1) year []) (serial_text n)
        (serial_text-IsDigits n))
    ∙ int_from-serial_text n

-- 10 to the power of `m + 1`
abbrev tens : ℕ → ℕ
tens zero = 10
tens (suc m) = 10 * tens m

length-digits_from :
    (m fuel n : ℕ) (t : Text) → n < tens m → length (digits_from fuel n t) ≤ suc m + length t
unfolding digits_from
length-digits_from m zero n t h = omega arith
length-digits_from zero (suc fuel) n t h =
    let digit : ltb n 10 ≡ true = ground arith in rw digit (omega arith)
length-digits_from (suc m) (suc fuel) n t h = elim (Bool-cases (ltb n 10)) [
  | inl digit ↦ rw digit (omega arith)
  | inr longer ↦
      let rest = length-digits_from m fuel (n / 10) ((48 + n % 10) ∷ t) (omega arith) in
      rw longer (omega arith)
]

length-zeros : (k : ℕ) (t : Text) → length (zeros k t) ≡ k + length t
length-zeros zero t = omega arith
length-zeros (suc k) t = omega (arith, length-zeros k t)

length-serial_text : (n : ℕ) → n < 1000000 → length (serial_text n) ≡ 6
unfolding serial_text
length-serial_text n h =
    let short = length-digits_from 5 (n + 1) n [] h in
    length-zeros (6 - length (digits_from (n + 1) n [])) (digits_from (n + 1) n []) ∙ omega arith

int_from-below :
    (a b : ℕ) (x y : Text)
    → length x ≡ length y
    → IsDigits x
    → IsDigits y
    → a < b
    → int_from a x < int_from b y
int_from-below a b [] [] same dx dy h = h
int_from-below a b (c ∷ cs) (d ∷ ds) same dx dy h =
    let low = dx.0.0 in
    let high = dx.0.1 in
    int_from-below (a * 10 + (c - 48)) (b * 10 + (d - 48)) cs ds (omega arith) dx.1 dy.1
      (omega arith)
int_from-below a b [] (d ∷ ds) same dx dy h = absurd (omega arith)
int_from-below a b (c ∷ cs) [] same dx dy h = absurd (omega arith)

-- Of two texts with as many digits the one of the smaller number comes first.
text_before-digits :
    (a : ℕ) (x y : Text)
    → length x ≡ length y
    → IsDigits x
    → IsDigits y
    → int_from a x < int_from a y
    → text_before x y ≡ true
text_before-digits a [] [] same dx dy h = absurd (omega arith)
text_before-digits a (c ∷ cs) (d ∷ ds) same dx dy h = elim (Bool-cases (ltb c d)) [
  | inl less ↦ rw less refl
  | inr more ↦ elim (Bool-cases (c == d)) [
    | inl equal ↦
        let own : c ≡ d = ground (arith, equal) in
        let rest = text_before-digits (a * 10 + (c - 48)) cs ds (omega arith) dx.1 dy.1 (
          subst (λ k. int_from (a * 10 + (c - 48)) cs < int_from (a * 10 + (k - 48)) ds) (sym own)
            h) in
        rw (more, equal, rest) refl
    | inr apart ↦
        let below : d < c = ground (arith, more, apart) in
        let low = dy.0.0 in
        let wrong =
          int_from-below (a * 10 + (d - 48)) (a * 10 + (c - 48)) ds cs (omega arith) dy.1 dx.1
            (omega arith) in
        absurd (omega (arith, h, wrong))
  ]
]
text_before-digits a [] (d ∷ ds) same dx dy h = absurd (omega arith)
text_before-digits a (c ∷ cs) [] same dx dy h = absurd (omega arith)

text_before-append : (p x y : Text) → text_before (p ++ x) (p ++ y) ≡ text_before x y
text_before-append [] x y = refl
text_before-append (c ∷ cs) x y = ground (arith, text_before-append cs x y)

-- Of two numbers of a year, with serials of at most six digits, the one of the smaller serial comes
-- first.
pub number_text-before :
    (year k n : ℕ)
    → k < n
    → n < 1000000
    → text_before (number_text year k) (number_text year n) ≡ true
unfolding number_text
number_text-before year k n h small =
    text_before-append (prefix_of year) (serial_text k) (serial_text n)
    ∙ text_before-digits 0 (serial_text k) (serial_text n)
        (length-serial_text k (omega arith) ∙ sym (length-serial_text n small))
        (serial_text-IsDigits k) (serial_text-IsDigits n)
        (rw (int_from-serial_text k, int_from-serial_text n) h)

starts_with-append : (p t : Text) → starts_with p (p ++ t) ≡ true
starts_with-append [] t = refl
starts_with-append (c ∷ cs) t = ground (arith, starts_with-append cs t)

-- A number that is printed is found and read back: whatever the year and the serial, its text has the
-- prefix by which the numbers of the year are looked up, at least six more characters, and after its
-- last dash the serial that it was printed from.
pub number_text_read_back :
    (year n : ℕ)
    → (serial_number (number_text year n) ≡ n)
      × (starts_with (prefix_of year) (number_text year n) ≡ true)
      × (length (prefix_of year) + 6 ≤ length (number_text year n))
unfolding number_text serial_text
number_text_read_back year n =
    let t = digits_from (n + 1) n [] in
    let padded = length-zeros (6 - length t) t in
    let whole = length-append (prefix_of year) (zeros (6 - length t) t) in
    (
      serial_number-number_text year n,
      starts_with-append (prefix_of year) (serial_text n),
      omega (arith, padded, whole),
    )
