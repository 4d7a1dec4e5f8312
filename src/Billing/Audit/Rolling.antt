-- ===== src/Billing/Audit/Rolling.antt =====
-- services/billing/folio.py, `run_night_audit`: how it rolls the hotel's date.
use fab_ai_smart_hotel_manag.Prelude.{
  ℕ, ◌+◌, ◌≡◌, refl, sym, ◌∙◌, Bool, true, not, ◌&&◌, Option, none, some, List, [], ◌∷◌, arith,
  ◌==◌, ==_self, any, find?, find?-append_missing, find?-head, find?-tail, find?_holds,
  update_where, inl, inr, Bool-cases, Option-cases, ap,
}
use mathlib.Core.Bool.{false≢true}
use fab_ai_smart_hotel_manag.Prelude.Int.{ℤ, pos}
use fab_ai_smart_hotel_manag.Prelude.Exec.{Result, ok, err, roll_back, continue, modify, pure, ◌>>◌}
use fab_ai_smart_hotel_manag.Prelude.Keeps.{Keeps, Keeps-bind, Keeps-gets, Keeps-pure}
use fab_ai_smart_hotel_manag.Money.{money}
use fab_ai_smart_hotel_manag.Pricing.{Hotel}
use fab_ai_smart_hotel_manag.Billing.Models.{Folio, BusinessDate, is_judgement}
use fab_ai_smart_hotel_manag.Billing.Folio.{
  Charge, post_charge, folio_of, folio_or_new, insert_folio, open_folio, date_row, business_date,
  recalculate,
}
use fab_ai_smart_hotel_manag.Billing.Folio.Balanced.{posted, post_charge-Posting}
use fab_ai_smart_hotel_manag.Billing.Audit.{
  ensure_business_date, date_or_new, new_date, Charged, charge_stays, audited_stays, save_date,
  rolled, Report, report, run_night_audit,
}
use fab_ai_smart_hotel_manag.Billing.Audit.Charging.{charge_stays-Keeps}
use fab_ai_smart_hotel_manag.Booking.Models.{Reservation}
use fab_ai_smart_hotel_manag.Database.{Db, Error}

-- The rows that are replaced by one row: the first that a test accepts is that row, if it was
-- among the replaced.
find?-replaced :
    (p q : BusinessDate → Bool) (c : BusinessDate) (rows : List BusinessDate) {x : BusinessDate}
    → q c ≡ true
    → p x ≡ true
    → find? q rows ≡ some x
    → find? q (update_where p (λ _. c) rows) ≡ some c
find?-replaced p q c [] accepts hit e = absurd (ground (arith, e))
find?-replaced p q c (r ∷ rs) {x} accepts hit e = elim (Bool-cases (p r)) [
  | inl t ↦ rw (t, accepts)
  | inr n ↦ elim (Bool-cases (q r)) [
    | inl first ↦
        let same : r ≡ x = find?-head q r rs first e in
        absurd (false≢true (sym n ∙ ap p same ∙ hit))
    | inr later ↦ rw (n, later) (find?-replaced p q c rs accepts hit (find?-tail q r rs later e))
  ]
]

module _ (dates : List BusinessDate) where
  abbrev SameDates : Db → Type 0
  SameDates db = db.business_dates ≡ dates

  posted-SameDates :
      (f : Folio) (c : Charge) (value : ℤ) (db : Db)
      → SameDates db
      → SameDates (posted f c value db)
  unfolding recalculate
  posted-SameDates f c value db h = elim (Bool-cases (is_judgement c.charge_type)) [
    | inl e ↦ rw e h
    | inr e ↦ rw e h
  ]

  post_charge-SameDates : (pk : ℕ) (c : Charge) → Keeps SameDates (post_charge pk c)
  post_charge-SameDates pk c = record {
    at = λ db h. elim (post_charge-Posting pk c db) [
      | inl (f, _, _, _, e) ↦ rw e (posted-SameDates f c (money c.amount) db h)
      | inr (x, e) ↦ rw e h
    ];
  }

  insert_folio-SameDates :
      (r : Reservation) (db : Db) → SameDates db → SameDates (insert_folio r db).1
  insert_folio-SameDates r db h =
      elim (Bool-cases (any (λ (g : Folio). g.reservation == r.pk) db.folios)) [
        | inl e ↦ rw e h
        | inr e ↦ rw e h
      ]

  folio_or_new-SameDates : (f : Option Folio) (r : Reservation) → Keeps SameDates (folio_or_new f r)
  folio_or_new-SameDates (some f) r = Keeps-pure f
  folio_or_new-SameDates none r = record { at = insert_folio-SameDates r }

  open_folio-SameDates : (r : Reservation) → Keeps SameDates (open_folio r)
  unfolding open_folio
  open_folio-SameDates r = Keeps-bind _ _ (Keeps-gets (folio_of r)) λ f. folio_or_new-SameDates f r

-- The row that the audit works on: the hotel's row, or a new one for today.
Opened : ℕ → Db → Type 0
Opened hotel db =
    (row : BusinessDate) × (db' : Db) × (ensure_business_date hotel db ≡ (ok row, db'))
    × (date_row db' hotel ≡ some row)
    × (row.current_date ≡ business_date hotel db)

ensure_business_date-Opened : (hotel : ℕ) (db : Db) → Opened hotel db
unfolding ensure_business_date business_date Opened
ensure_business_date-Opened hotel db = elim (Option-cases (date_row db hotel)) [
  | inl e ↦ (
    new_date hotel db,
    (date_or_new none hotel db).1,
    rw e,
    find?-append_missing _ db.business_dates (new_date hotel db ∷ []) e ∙ rw (==_self hotel),
    rw (business_date, e),
  )
  | inr (row, e) ↦ (row, db, rw e, e, rw (business_date, e))
]

-- The date of a hotel after its audit, and what the audit says of it.
abbrev pub Rolled : Hotel → Db → Result Error Report × Db → Type 0
Rolled hotel db (ok r, db') =
    (r.business_date ≡ business_date hotel.pk db)
    × (r.next_business_date ≡ r.business_date + 1)
    × (business_date hotel.pk db' ≡ r.next_business_date)
Rolled hotel db (err _, db') = db' ≡ db

saved-date :
    (hotel : ℕ) (state : BusinessDate) (sums : Charged) (db : Db)
    → date_row db hotel ≡ some state
    → business_date hotel (save_date state sums db) ≡ state.current_date + 1
unfolding business_date
saved-date hotel state sums db e = rw (
  business_date,
  find?-replaced (λ (row : BusinessDate). row.pk == state.pk)
      (λ row. row.tenant == hotel && not row.is_deleted)
      (rolled state.current_date db.now sums state) db.business_dates
      (find?_holds (λ row. row.tenant == hotel && not row.is_deleted) db.business_dates e)
      (==_self state.pk) e,
)

module _ (hotel : Hotel) (db : Db) (state : BusinessDate)
    (current : state.current_date ≡ business_date hotel.pk db) where
  closing :
      (r : Result Error Charged × Db)
      → date_row r.1 hotel.pk ≡ some state
      → Rolled hotel db (
          roll_back db
            (continue r (λ sums. modify (save_date state sums) >> pure (report state sums))))
  closing (ok sums, db') found = (current, refl, saved-date hotel.pk state sums db' found)
  closing (err _, db') found = refl

-- An audit that succeeds reports the date that the hotel had, and leaves the hotel at the next
-- day; one that fails changes nothing.
pub run_night_audit-Rolled : (hotel : Hotel) (db : Db) → Rolled hotel db (run_night_audit hotel db)
unfolding run_night_audit Opened
run_night_audit-Rolled hotel db =
    let (state, db', opens, found, current) = ensure_business_date-Opened hotel.pk db in
    let zero_sums : Charged = record { rooms = 0; revenue = pos 0 } in
    let stays = audited_stays hotel.pk db' in
    let charges = charge_stays hotel state.current_date stays zero_sums db' in
    let same : charges.1.business_dates ≡ db'.business_dates =
      (charge_stays-Keeps (SameDates db'.business_dates) (post_charge-SameDates db'.business_dates)
          (open_folio-SameDates db'.business_dates) hotel state.current_date stays zero_sums).at
        db' refl in
    rw opens (
      closing hotel db state current charges (
        ap
          (λ (dates : List BusinessDate).
            find? (λ row. row.tenant == hotel.pk && not row.is_deleted) dates)
          same
        ∙ found))
