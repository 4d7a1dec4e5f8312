-- ===== src/Pricing/Totals.antt =====
-- services/rooms/pricing.py, `quote`: the nights it lists and the sum it states.
use fab_ai_smart_hotel_manag.Prelude.{
  ℕ, zero, suc, ◌+◌, ◌-◌, ◌≤◌, ◌<◌, ◌≡◌, refl, ap, inl, inr, Option, some, List, ◌∷◌, arith, length,
  leb, get_elem?, Bool-cases, leb→le,
}
use fab_ai_smart_hotel_manag.Prelude.Int.{pos, ◌+ℤ◌, ◌*ℤ◌}
use fab_ai_smart_hotel_manag.Prelude.Exec.{Result, ok, err}
use fab_ai_smart_hotel_manag.Money.Rounding.{money-of_cents}
use fab_ai_smart_hotel_manag.Rooms.{RoomType, RatePlan, RoomRate}
use fab_ai_smart_hotel_manag.Pricing.{
  Hotel, Quote, QuoteError, night, nightly_rate, nights_loop, sum_nights, percent_of, assemble,
  quote,
}

module _ (rates : List RoomRate) (t : RoomType) (plan : Option RatePlan) where
  length-nights_loop : (left day : ℕ) → length (nights_loop rates t plan left day) ≡ left
  unfolding nights_loop
  length-nights_loop zero day = refl
  length-nights_loop (suc left) day = ap suc (length-nights_loop left (day + 1))

  nights_loop-suc :
      (left day : ℕ)
      → nights_loop rates t plan (suc left) day
        ≡ night day (nightly_rate rates t plan day) ∷ nights_loop rates t plan left (day + 1)
  unfolding nights_loop
  nights_loop-suc left day = refl

  get_elem?-nights_loop :
      (left day i : ℕ)
      → i < left
      → get_elem? (nights_loop rates t plan left day) i
        ≡ some (night (day + i) (nightly_rate rates t plan (day + i)))
  get_elem?-nights_loop zero day i h = elim h [ ]
  get_elem?-nights_loop (suc left) day zero h =
      let e : day + 0 ≡ day = omega arith in rw (nights_loop-suc left day, e)
  get_elem?-nights_loop (suc left) day (suc i) h =
      let e : day + suc i ≡ day + 1 + i = omega arith in
      rw (nights_loop-suc left day, e) (get_elem?-nights_loop left (day + 1) i (omega arith))

-- What a quote promises for a stay of `nights` nights from `check_in`.
pub record IsQuoteFor (rates : List RoomRate) (hotel : Hotel) (t : RoomType) (check_in nights : ℕ)
    (plan : Option RatePlan) (adults rooms : ℕ) (q : Quote) : Type 0 where
  pub counted : q.nights ≡ nights
  pub listed : length q.per_night ≡ nights
  pub each_night :
      (i : ℕ)
      → i < nights
      → get_elem? q.per_night i
        ≡ some (night (check_in + i) (nightly_rate rates t plan (check_in + i)))
  pub rooms_summed : q.room_total ≡ sum_nights q.per_night *ℤ pos rooms
  pub extra_heads :
      q.extra_person_total
      ≡ pos (adults - t.base_occupancy) *ℤ t.extra_person_rate *ℤ pos nights *ℤ pos rooms
  pub service :
      q.service_amount ≡ percent_of (q.room_total +ℤ q.extra_person_total) hotel.service_charge_rate
  pub taxed :
      q.tax_amount
      ≡ percent_of (q.room_total +ℤ q.extra_person_total +ℤ q.service_amount) hotel.tax_rate
  pub adds_up :
      q.grand_total ≡ q.room_total +ℤ q.extra_person_total +ℤ q.service_amount +ℤ q.tax_amount

pub assemble-IsQuoteFor :
    (rates : List RoomRate) (hotel : Hotel) (t : RoomType) (check_in nights : ℕ)
    (plan : Option RatePlan) (adults rooms : ℕ)
    → IsQuoteFor rates hotel t check_in nights plan adults rooms
        (assemble hotel t (nights_loop rates t plan nights check_in) adults rooms)
unfolding assemble
assemble-IsQuoteFor rates hotel t check_in nights plan adults rooms = record {
  counted = length-nights_loop rates t plan nights check_in;
  listed = length-nights_loop rates t plan nights check_in;
  each_night = λ i h. get_elem?-nights_loop rates t plan nights check_in i h;
  rooms_summed = money-of_cents _;
  extra_heads = rw (length-nights_loop rates t plan nights check_in) (money-of_cents _);
  service = simp money-of_cents;
  taxed = simp money-of_cents;
  adds_up = simp money-of_cents;
}

-- The two outcomes of `quote`: an error, or a quote for the nights between the two dates.
abbrev pub QuoteOutcome :
    List RoomRate
    → Hotel
    → RoomType
    → ℕ
    → ℕ
    → Option RatePlan
    → ℕ
    → ℕ
    → Result QuoteError Quote
    → Type 0
QuoteOutcome rates hotel t check_in check_out plan adults rooms (ok q) =
    (check_in < check_out)
    × IsQuoteFor rates hotel t check_in (check_out - check_in) plan adults rooms q
QuoteOutcome rates hotel t check_in check_out plan adults rooms (err _) = check_out ≤ check_in

-- `quote` raises exactly when the check-out is not after the check-in. Otherwise it lists one
-- night for each date from the check-in to the day before the check-out, in order, each at its
-- nightly rate; the room total is their sum times the rooms, and the guests beyond the base
-- occupancy pay the extra rate a head, night and room. The service charge is the hotel's rounded
-- percentage of those two, the tax is its rounded percentage of the three, and the grand total is
-- exactly the sum of the four parts.
pub quote-Outcome :
    (rates : List RoomRate) (hotel : Hotel) (t : RoomType) (check_in check_out : ℕ)
    (plan : Option RatePlan) (adults rooms : ℕ)
    → QuoteOutcome rates hotel t check_in check_out plan adults rooms
        (quote rates hotel t check_in check_out plan adults rooms)
unfolding quote
quote-Outcome rates hotel t check_in check_out plan adults rooms =
    elim (Bool-cases (leb check_out check_in)) [
      | inl e ↦ rw e (leb→le check_out check_in e)
      | inr e ↦ rw e (
        ground arith,
        assemble-IsQuoteFor rates hotel t check_in (check_out - check_in) plan adults rooms,
      )
    ]
