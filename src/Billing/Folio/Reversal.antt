-- ===== src/Billing/Folio/Reversal.antt =====
-- services/billing/folio.py, `void_line`: the reversing line.
use fab_ai_smart_hotel_manag.Prelude.{
  ℕ, suc, ◌<◌, ◌≡◌, refl, ◌⊎◌, inl, inr, true, false, some, [], ◌∷◌, ◌++◌, arith, ◌==◌, find?,
  update_where, All-append, All-update, All-map, find?-All, find?-update_where, find?-append_found,
  ==_self,
}
use fab_ai_smart_hotel_manag.Prelude.Int.{◌-ℤ◌, int_laws}
use fab_ai_smart_hotel_manag.Prelude.Exec.{Result, ok, err, roll_back, or_raise-case, raise_if-case}
use fab_ai_smart_hotel_manag.Billing.Models.{FolioLine}
use fab_ai_smart_hotel_manag.Database.{Db, Error, AuditAction, audit, conflict, does_not_exist}
use fab_ai_smart_hotel_manag.Billing.Folio.{
  business_date, reversal_line, mark_voided, write_reversal, void_line, recalculate,
}
use fab_ai_smart_hotel_manag.Billing.Folio.Totals.{
  charges, charges-append_line, charges-append_other, charges-mark_voided,
}
use fab_ai_smart_hotel_manag.Billing.Folio.Balanced.{
  IsBalanced, recalculate-IsBalanced, recalculate_frame, later,
}

-- The reversing line of a line, and the database after it is written.
abbrev pub reversal : FolioLine → Db → FolioLine
reversal l db = reversal_line l (business_date l.tenant db) db.next_pk

abbrev pub with_reversal : FolioLine → Db → Db
with_reversal l db = record db {
  lines =
      update_where (λ (x : FolioLine). x.pk == l.pk) (mark_voided db.next_pk)
        (db.lines ++ reversal l db ∷ []);
  next_pk = suc db.next_pk;
}

abbrev pub reversed : FolioLine → Db → Db
reversed l db = (audit AuditAction.update l.pk (recalculate l.folio (with_reversal l db)).1).1

-- How a void ends: a line that was not voided gets its reversal, or nothing is changed.
abbrev pub Voiding : ℕ → Db → Result Error FolioLine × Db → Type 0
Voiding pk db r =
    ((l : FolioLine) × (find? (λ (l : FolioLine). l.pk == pk) db.lines ≡ some l)
      × (l.is_voided ≡ false)
      × (r ≡ (ok (reversal l db), reversed l db)))
    ⊎ ((e : Error) × (r ≡ (err e, db)))

write_reversal_lem :
    (l : FolioLine) (db : Db) → write_reversal l db ≡ (ok (reversal l db), reversed l db)
unfolding write_reversal recalculate
write_reversal_lem l db = refl

pub void_line-Voiding : (pk : ℕ) (db : Db) → Voiding pk db (void_line pk db)
unfolding void_line
void_line-Voiding pk db =
    or_raise-case (λ r. Voiding pk db (roll_back db r))
      (find? (λ (l : FolioLine). l.pk == pk) db.lines) does_not_exist _ db
      (λ l found.
        raise_if-case (λ r. Voiding pk db (roll_back db r)) l.is_voided conflict _ db
          (λ live. inl (l, found, live, rw (write_reversal_lem l db))) (λ _. inr (conflict, refl)))
      (λ _. inr (does_not_exist, refl))

with_reversal-charges_other :
    (l : FolioLine) (db : Db) (k : ℕ)
    → (l.folio == k) ≡ false
    → charges (with_reversal l db).lines k ≡ charges db.lines k
with_reversal-charges_other l db k h =
    rw (charges-mark_voided (db.lines ++ reversal l db ∷ []) _ db.next_pk k)
      (charges-append_other db.lines (reversal l db) k h)

-- A void, done or refused, keeps the ledger balanced.
pub void_line-IsBalanced : (pk : ℕ) (db : Db) → IsBalanced db → IsBalanced (void_line pk db).1
void_line-IsBalanced pk db h = elim (void_line-Voiding pk db) [
  | inl (l, found, _, e) ↦
      let old : l.folio < db.next_pk = find?-All _ _ db.lines h.lines_old found in
      rw e (
        recalculate-IsBalanced l.folio (with_reversal l db)
          (All-map _ _ db.folios
            (λ f exact differs.
              let same = with_reversal-charges_other l db f.pk (ground arith) in
              record {
                charged = rw same exact.charged;
                paid = exact.paid;
                due = rw same exact.due;
              })
            h.exact)
          (later (λ f. f.pk) db.next_pk db.folios h.folios_old)
          (All-update (λ l. l.folio < suc db.next_pk) _ (λ (x : FolioLine). x.pk == l.pk)
            (mark_voided db.next_pk) _ (λ x o _. o) (λ x o _. o)
            (All-append _ db.lines (reversal l db ∷ [])
              (later (λ l. l.folio) db.next_pk db.lines h.lines_old) (omega arith, tt)))
          (later (λ p. p.folio) db.next_pk db.payments h.payments_old))
  | inr (x, e) ↦ rw e h
]

charges-with_reversal :
    (l : FolioLine) (db : Db)
    → charges (with_reversal l db).lines l.folio ≡ charges db.lines l.folio -ℤ l.amount
charges-with_reversal l db =
    rw (charges-mark_voided (db.lines ++ reversal l db ∷ []) _ db.next_pk l.folio) (
      rw (charges-append_line db.lines (reversal l db) l.folio)
        (rw (==_self l.folio) (omega int_laws)))

reversed-lines : (l : FolioLine) (db : Db) → (reversed l db).lines ≡ (with_reversal l db).lines
reversed-lines l db = (recalculate_frame l.folio (with_reversal l db)).0

void_line-conflict :
    (pk : ℕ) (db : Db) {l : FolioLine}
    → find? (λ (l : FolioLine). l.pk == pk) db.lines ≡ some l
    → l.is_voided ≡ true
    → void_line pk db ≡ (err conflict, db)
unfolding void_line
void_line-conflict pk db {l} found done = rw (found, done)

void_line-reversed :
    (pk : ℕ) (db : Db) {l : FolioLine}
    → find? (λ (l : FolioLine). l.pk == pk) db.lines ≡ some l
    → l.is_voided ≡ false
    → void_line pk db ≡ (ok (reversal l db), reversed l db)
unfolding void_line
void_line-reversed pk db {l} found live = rw (found, live) (rw (write_reversal_lem l db))

found_voided :
    (pk : ℕ) (db : Db) {l : FolioLine}
    → find? (λ (l : FolioLine). l.pk == pk) db.lines ≡ some l
    → find? (λ (l : FolioLine). l.pk == pk) (reversed l db).lines ≡ some (mark_voided db.next_pk l)
found_voided pk db {l} found =
    let e =
      find?-update_where (λ (l : FolioLine). l.pk == pk) (λ (x : FolioLine). x.pk == l.pk)
        (mark_voided db.next_pk) (db.lines ++ reversal l db ∷ []) (λ x. refl)
        (find?-append_found _ db.lines _ found) in
    rw (reversed-lines l db) (rw (==_self l.pk) at e)

-- Voiding a line that is not voided takes its amount off the charges of its folio and keeps the
-- charges of every other folio, and a second void of the same line is refused.
pub void_line_reverses :
    (pk : ℕ) (db : Db) {l : FolioLine}
    → find? (λ (l : FolioLine). l.pk == pk) db.lines ≡ some l
    → l.is_voided ≡ false
    → let db' = (void_line pk db).1 in
      (charges db'.lines l.folio ≡ charges db.lines l.folio -ℤ l.amount)
      × ((k : ℕ) → (l.folio == k) ≡ false → charges db'.lines k ≡ charges db.lines k)
      × (void_line pk db' ≡ (err conflict, db'))
void_line_reverses pk db {l} found live = rw (void_line-reversed pk db found live) (
  rw (reversed-lines l db) (charges-with_reversal l db),
  (λ k other. rw (reversed-lines l db) (with_reversal-charges_other l db k other)),
  void_line-conflict pk (reversed l db) (found_voided pk db found) refl,
)
