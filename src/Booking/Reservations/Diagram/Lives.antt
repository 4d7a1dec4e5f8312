-- ===== src/Booking/Reservations/Diagram/Lives.antt =====
-- services/booking/reservations.py: the statuses of the reservations across many calls.
use fab_ai_smart_hotel_manag.Prelude.{
  ℕ, ◌≡◌, refl, sym, ◌∙◌, ◌⊎◌, inl, inr, Bool, true, false, List, [], ◌∷◌, ◌==◌, All, arith, subst,
}
use fab_ai_smart_hotel_manag.Booking.Models.{
  Reservation, ReservationStatus, pending, confirmed, checked_in, checked_out, cancelled, no_show,
}
use fab_ai_smart_hotel_manag.Booking.Reservations.{check_in, check_out, cancel, mark_no_show}
use fab_ai_smart_hotel_manag.Booking.Reservations.Status.{Keyed}
use fab_ai_smart_hotel_manag.Booking.Reservations.Diagram.{
  Move, arrive_unconfirmed, arrive, leave, call_off_unconfirmed, call_off, excuse, miss_unconfirmed,
  miss, Moved, cancel-Moved, mark_no_show-Moved,
}
use fab_ai_smart_hotel_manag.Booking.Reservations.Diagram.InHouse.{check_in-Moved, check_out-Moved}
use fab_ai_smart_hotel_manag.Database.{Db}

-- What a status may turn into, in however many calls.
abbrev pub becomes : ReservationStatus → ReservationStatus → Bool
becomes pending confirmed = false
becomes pending _ = true
becomes confirmed pending = false
becomes confirmed _ = true
becomes checked_in checked_in = true
becomes checked_in checked_out = true
becomes no_show no_show = true
becomes no_show cancelled = true
becomes cancelled cancelled = true
becomes checked_out checked_out = true
becomes _ _ = false

becomes_self : (a : ReservationStatus) → becomes a a ≡ true
becomes_self pending = refl
becomes_self confirmed = refl
becomes_self checked_in = refl
becomes_self checked_out = refl
becomes_self cancelled = refl
becomes_self no_show = refl

becomes-Move :
    (a : ReservationStatus) {b c : ReservationStatus}
    → becomes a b ≡ true
    → Move b c
    → becomes a c ≡ true
becomes-Move a h arrive_unconfirmed = ground arith
becomes-Move a h arrive = ground arith
becomes-Move a h leave = ground arith
becomes-Move a h call_off_unconfirmed = ground arith
becomes-Move a h call_off = ground arith
becomes-Move a h excuse = ground arith
becomes-Move a h miss_unconfirmed = ground arith
becomes-Move a h miss = ground arith

-- The same reservations, each with a status that its own may turn into.
abbrev pub Became : List Reservation → List Reservation → Type 0
Became [] [] = Unit
Became (r ∷ rs) (s ∷ ss) = ((s.pk ≡ r.pk) × (becomes r.status s.status ≡ true)) × Became rs ss
Became _ _ = ⊥

Became-refl : (rs : List Reservation) → Became rs rs
Became-refl [] = tt
Became-refl (r ∷ rs) = ((refl, becomes_self r.status), Became-refl rs)

becomes_further :
    (a b c : ReservationStatus) → becomes a b ≡ true → (c ≡ b) ⊎ Move b c → becomes a c ≡ true
becomes_further a b c h (inl same) = rw same h
becomes_further a b c h (inr move) = becomes-Move a h move

Became-Moved : (rs ss ts : List Reservation) → Became rs ss → Moved ss ts → Became rs ts
Became-Moved [] [] [] b m = tt
Became-Moved (r ∷ rs) (s ∷ ss) (t ∷ ts) b m = (
  (m.0.0 ∙ b.0.0, becomes_further r.status s.status t.status b.0.1 m.0.1),
  Became-Moved rs ss ts b.1 m.1,
)
Became-Moved [] [] (t ∷ ts) b m = absurd m
Became-Moved [] (s ∷ ss) ts b m = absurd b
Became-Moved (r ∷ rs) [] ts b m = absurd b
Became-Moved (r ∷ rs) (s ∷ ss) [] b m = absurd m

All-Became :
    (k : ℕ) (rs ss : List Reservation)
    → Became rs ss
    → All (λ s. (s.pk == k) ≡ false) rs
    → All (λ s. (s.pk == k) ≡ false) ss
All-Became k [] [] b h = tt
All-Became k (r ∷ rs) (s ∷ ss) b h =
    (subst (λ i. (i == k) ≡ false) (sym b.0.0) h.0, All-Became k rs ss b.1 h.1)
All-Became k [] (s ∷ ss) b h = absurd b
All-Became k (r ∷ rs) [] b h = absurd b

Keyed-Became : (rs ss : List Reservation) → Became rs ss → Keyed rs → Keyed ss
Keyed-Became [] [] b h = tt
Keyed-Became (r ∷ rs) (s ∷ ss) b h = (
  subst (λ k. All (λ x. (x.pk == k) ≡ false) ss) (sym b.0.0) (All-Became r.pk rs ss b.1 h.0),
  Keyed-Became rs ss b.1 h.1,
)
Keyed-Became [] (s ∷ ss) b h = absurd b
Keyed-Became (r ∷ rs) [] b h = absurd b

-- What happens to the reservations of a database: the services that move a status, done or refused,
-- and whatever leaves the reservations alone.
pub data Lived : Db → Db → Type 0 where
  begun : {db : Db} → Lived db db
  checks_in : {db db' : Db} (pk : ℕ) → Lived db db' → Lived db (check_in pk db').1
  checks_out :
      {db db' : Db} (pk : ℕ) (force : Bool) → Lived db db' → Lived db (check_out pk force db').1
  calls_off : {db db' : Db} (pk : ℕ) → Lived db db' → Lived db (cancel pk db').1
  misses : {db db' : Db} (pk : ℕ) → Lived db db' → Lived db (mark_no_show pk db').1
  meanwhile :
      {db db' db'' : Db} → db''.reservations ≡ db'.reservations → Lived db db' → Lived db db''

-- However check-ins, check-outs, cancellations and no-shows follow each other, done or refused, the
-- reservations stay the same ones, and each status turns only into one that it may: a guest who has
-- left, and a booking that is cancelled, stay so; a guest in the house can only leave; a no-show can
-- only be cancelled; and none turns back into a pending or confirmed one. No two reservations have
-- one key at the start.
pub Lived-Became :
    {db db' : Db} → Lived db db' → Keyed db.reservations → Became db.reservations db'.reservations
Lived-Became {db} begun h = Became-refl db.reservations
Lived-Became {db} (checks_in {db' = d} pk run) h =
    let b = Lived-Became run h in
    Became-Moved db.reservations d.reservations _ b
      (check_in-Moved pk d (Keyed-Became db.reservations d.reservations b h))
Lived-Became {db} (checks_out {db' = d} pk force run) h =
    let b = Lived-Became run h in
    Became-Moved db.reservations d.reservations _ b
      (check_out-Moved pk force d (Keyed-Became db.reservations d.reservations b h))
Lived-Became {db} (calls_off {db' = d} pk run) h =
    let b = Lived-Became run h in
    Became-Moved db.reservations d.reservations _ b
      (cancel-Moved pk d (Keyed-Became db.reservations d.reservations b h))
Lived-Became {db} (misses {db' = d} pk run) h =
    let b = Lived-Became run h in
    Became-Moved db.reservations d.reservations _ b
      (mark_no_show-Moved pk d (Keyed-Became db.reservations d.reservations b h))
Lived-Became {db} (meanwhile same run) h = rw same (Lived-Became run h)
