-- ===== src/Booking/Online/Bounds.antt =====
-- services/booking/online.py, `parse_stay`: the bounds of the stay that it reads.
use fab_ai_smart_hotel_manag.Prelude.{
  ℕ, ◌+◌, ◌≤◌, ◌≡◌, refl, ◌⊎◌, inl, inr, Option, none, some, arith, ltb, Bool-cases, Option-cases,
}
use fab_ai_smart_hotel_manag.Prelude.Int.{ℤ, pos, negsuc}
use fab_ai_smart_hotel_manag.Prelude.Exec.{Result, ok, err, raise_if-case, ◌>>=◌}
use fab_ai_smart_hotel_manag.Rooms.Weekdays.{Text, strip}
use fab_ai_smart_hotel_manag.Billing.Folio.{is_empty}
use fab_ai_smart_hotel_manag.Booking.Online.{
  Stay, Query, clamp, clamped, number, arrival, parse_stay, parse_numbers, max_nights,
  max_advance_days, max_rooms, max_guests,
}
use fab_ai_smart_hotel_manag.Database.{Db, Error, Act, validation}

-- A method that reads a value for which `P` holds, or raises a validation error.
Reads : (ℕ → Type 0) → Db → Result Error ℕ × Db → Type 0
Reads P db r = ((n : ℕ) × (r ≡ (ok n, db)) × P n) ⊎ (r ≡ (err validation, db))

Reads-case :
    {B : Type 0} {P : ℕ → Type 0} (Q : Result Error B × Db → Type 0) (m : Act ℕ) (f : ℕ → Act B)
    (db : Db)
    → Reads P db (m db)
    → ((n : ℕ) → P n → Q (f n db))
    → Q (err validation, db)
    → Q ((m >>= f) db)
unfolding Reads
Reads-case Q m f db (inl (n, e, p)) done failed = rw e (done n p)
Reads-case Q m f db (inr e) done failed = rw e failed

pub clamp-within :
    (low high : ℕ) (v : ℤ) → low ≤ high → (low ≤ clamp low high v) × (clamp low high v ≤ high)
clamp-within low high (pos n) h = ground arith
clamp-within low high (negsuc n) h = (omega arith, h)

clamped-Reads :
    (low high : ℕ) (v : Option ℤ) (db : Db)
    → low ≤ high
    → Reads (λ n. (low ≤ n) × (n ≤ high)) db (clamped low high v db)
unfolding Reads
clamped-Reads low high none db h = inr refl
clamped-Reads low high (some v) db h = inl (clamp low high v, refl, clamp-within low high v h)

number-Reads :
    (read_int : Text → Option ℤ) (raw : Text) (start low high : ℕ) (db : Db)
    → low ≤ start
    → start ≤ high
    → Reads (λ n. (low ≤ n) × (n ≤ high)) db (number read_int raw start low high db)
unfolding number Reads
number-Reads read_int raw start low high db least most = elim (Bool-cases (is_empty (strip raw))) [
  | inl e ↦ rw e (inl (start, refl, (least, most)))
  | inr e ↦ rw e (clamped-Reads low high (read_int (strip raw)) db (omega arith))
]

arrival-Reads :
    (read_date : Text → Option ℕ) (raw : Text) (db : Db)
    → Reads (λ _. Unit) db (arrival read_date raw db)
unfolding Reads
arrival-Reads read_date raw db = elim (Bool-cases (is_empty raw)) [
  | inl e ↦ rw e (inl (db.today + 1, refl, tt))
  | inr e ↦ rw e (elim (Option-cases (read_date raw)) [
    | inl none_read ↦ rw none_read (inr refl)
    | inr (d, read) ↦ rw read (inl (d, refl, tt))
  ])
]

-- What is read of a query.
abbrev pub Parsed : Db → Result Error Stay × Db → Type 0
Parsed db (ok s, db') =
    (db' ≡ db)
    × ((db.today ≤ s.check_in) × (s.check_in ≤ db.today + max_advance_days))
    × ((1 ≤ s.nights) × (s.nights ≤ max_nights))
    × ((1 ≤ s.adults) × (s.adults ≤ max_guests))
    × (s.children ≤ max_guests)
    × ((1 ≤ s.rooms) × (s.rooms ≤ max_rooms))
Parsed db (err e, db') = (db' ≡ db) × (e ≡ validation)

-- The numbers of a query, once its date has been accepted.
module _ (read_int : Text → Option ℤ) (q : Query) (day : ℕ) (db : Db) (early : db.today ≤ day)
    (near : day ≤ db.today + max_advance_days) where
  parse_numbers-Parsed : Parsed db (parse_numbers read_int q day db)
  unfolding parse_numbers
  parse_numbers-Parsed =
      let P = Parsed db in
      let failed : P (err validation, db) = (refl, refl) in
      let within =
        λ (raw : Text) (start low high : ℕ). number-Reads read_int raw start low high db in
      Reads-case P (number read_int q.nights 1 1 max_nights) _ db
        (within q.nights 1 1 max_nights (omega arith) (omega arith))
        (λ nights n.
          Reads-case P (number read_int q.adults 2 1 max_guests) _ db
            (within q.adults 2 1 max_guests (omega arith) (omega arith))
            (λ adults a.
              Reads-case P (number read_int q.children 0 0 max_guests) _ db
                (within q.children 0 0 max_guests (omega arith) (omega arith))
                (λ children c.
                  Reads-case P (number read_int q.rooms 1 1 max_rooms) _ db
                    (within q.rooms 1 1 max_rooms (omega arith) (omega arith))
                    (λ rooms r. (refl, (early, near), n, a, c.1, r)) failed)
                failed)
            failed)
        failed

-- However the texts are read, a stay that is parsed begins between today and 365 days from now, and
-- has 1 to 30 nights, 1 to 12 adults, at most 12 children and 1 to 5 rooms; anything else is a
-- validation error. Nothing is written.
pub parse_stay-Parsed :
    (read_date : Text → Option ℕ) (read_int : Text → Option ℤ) (q : Query) (db : Db)
    → Parsed db (parse_stay read_date read_int q db)
unfolding parse_stay Reads
parse_stay-Parsed read_date read_int q db =
    let P = Parsed db in
    let failed : P (err validation, db) = (refl, refl) in
    Reads-case P (arrival read_date (strip q.check_in)) _ db
      (arrival-Reads read_date (strip q.check_in) db)
      (λ day _.
        raise_if-case P (ltb day db.today) validation _ db
          (λ late.
            raise_if-case P (ltb (db.today + max_advance_days) day) validation _ db
              (λ near. parse_numbers-Parsed read_int q day db (ground arith) (ground arith))
              (λ _. failed))
          (λ _. failed))
      failed
