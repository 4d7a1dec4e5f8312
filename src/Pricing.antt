-- ===== src/Pricing.antt =====
-- services/rooms/pricing.py: the price of a night, and the quote for a stay.
--
-- The text that says where a price came from is the datum `Source`.
pub mod Nightly
pub mod Totals
use fab_ai_smart_hotel_manag.Prelude.{
  ℕ, zero, suc, ◌+◌, ◌-◌, ◌^◌, Bool, true, false, ◌&&◌, ◌||◌, Option, none, some, List, [], ◌∷◌,
  leb, ltb, ◌==◌, length, filter, sort_by, find?, if◌then◌else◌, not,
}
use fab_ai_smart_hotel_manag.Prelude.Int.{ℤ, pos, ◌+ℤ◌, ◌-ℤ◌, ◌*ℤ◌, is_zero_ℤ}
use fab_ai_smart_hotel_manag.Prelude.Exec.{Result, ok, err}
use fab_ai_smart_hotel_manag.Money.{of_cents, money, money_div}
use fab_ai_smart_hotel_manag.Rooms.{RoomType, RatePlan, RoomRate, applies_on}

-- The fields of `apps.tenants.models.Hotel` that a price needs: its percentages, in hundredths.
pub record Hotel : Type 0 where
  pub pk : ℕ
  pub tax_rate : ℤ
  pub service_charge_rate : ℤ

pub data Source : Type 0 where
  dated_rate plan_discount : ℕ → Source
  base : Source

pub record NightRate : Type 0 where
  pub day : ℕ
  pub amount : ℤ
  pub source : Source

pub record Quote : Type 0 where
  pub nights : ℕ
  pub per_night : List NightRate
  pub room_total : ℤ
  pub extra_person_total : ℤ
  pub service_amount : ℤ
  pub tax_amount : ℤ
  pub grand_total : ℤ

-- `Quote.average_nightly`
unfoldable pub average_nightly : Quote → ℤ
unfolding money_div
average_nightly q = if q.nights == 0 then pos 0 else money_div q.room_total q.nights

-- `.order_by("-priority", "valid_from")`
abbrev pub rate_before : RoomRate → RoomRate → Bool
rate_before a b =
    ltb b.priority a.priority || (a.priority == b.priority && leb a.valid_from b.valid_from)

abbrev pub of_plan : Option RatePlan → RoomRate → Bool
of_plan none r = true
of_plan (some plan) r = r.rate_plan == plan.pk

-- The filters on the dated rates of a type, with the one on the plan.
abbrev pub is_candidate : RoomType → Option RatePlan → ℕ → RoomRate → Bool
is_candidate t plan day r =
    r.room_type == t.pk
    && leb r.valid_from day
    && leb day r.valid_to
    && not r.is_deleted
    && of_plan plan r

unfoldable pub candidates : List RoomRate → RoomType → Option RatePlan → ℕ → List RoomRate
candidates rates t plan day = sort_by rate_before (filter (is_candidate t plan day) rates)

-- The price when no dated rate applies. The discount is in hundredths of a percent, so the
-- product has four places and the division by 100 gives six.
unfoldable pub base_price : RoomType → Option RatePlan → ℤ × Source
unfolding money
base_price t none = (money (of_cents t.base_rate), base)
base_price t (some plan) =
    if is_zero_ℤ plan.discount_percent then (money (of_cents t.base_rate), base) else (
      money (record { unscaled = t.base_rate *ℤ (pos 10000 -ℤ plan.discount_percent); places = 6 }),
      plan_discount plan.pk,
    )

abbrev choose : Option RoomRate → ℤ × Source → ℤ × Source
choose (some r) _ = (money (of_cents r.price), dated_rate r.pk)
choose none fallback = fallback

unfoldable pub nightly_rate : List RoomRate → RoomType → Option RatePlan → ℕ → ℤ × Source
unfolding candidates base_price applies_on
nightly_rate rates t plan day =
    choose (find? (λ r. applies_on r day) (candidates rates t plan day)) (base_price t plan)

abbrev night : ℕ → ℤ × Source → NightRate
night day (amount, source) = record { day = day; amount = amount; source = source }

-- `while day < check_out`, on the number of days left
unfoldable pub nights_loop : List RoomRate → RoomType → Option RatePlan → ℕ → ℕ → List NightRate
unfolding nightly_rate
nights_loop rates t plan zero day = []
nights_loop rates t plan (suc left) day =
    night day (nightly_rate rates t plan day) ∷ nights_loop rates t plan left (day + 1)

-- `sum(night.amount for night in nights)`
abbrev pub sum_nights : List NightRate → ℤ
sum_nights [] = pos 0
sum_nights (n ∷ ns) = n.amount +ℤ sum_nights ns

-- A percentage, in hundredths, of an amount in hundredths.
unfoldable pub percent_of : ℤ → ℤ → ℤ
unfolding money
percent_of amount rate = money (record { unscaled = amount *ℤ rate; places = 6 })

-- The charges on top of the nights.
unfoldable pub assemble : Hotel → RoomType → List NightRate → ℕ → ℕ → Quote
unfolding percent_of
assemble hotel t nights adults rooms =
    let room_total = money (of_cents (sum_nights nights *ℤ pos rooms)) in
    let extra_heads = adults - t.base_occupancy in
    let extra_total =
      money
        (of_cents (pos extra_heads *ℤ t.extra_person_rate *ℤ pos (length nights) *ℤ pos rooms)) in
    let subtotal = money (of_cents (room_total +ℤ extra_total)) in
    let service = percent_of subtotal hotel.service_charge_rate in
    let tax = percent_of (subtotal +ℤ service) hotel.tax_rate in
    record {
      nights = length nights;
      per_night = nights;
      room_total = room_total;
      extra_person_total = extra_total;
      service_amount = service;
      tax_amount = tax;
      grand_total = money (of_cents (subtotal +ℤ service +ℤ tax));
    }

pub data QuoteError : Type 0 where
  value_error : QuoteError

unfoldable pub quote :
    List RoomRate → Hotel → RoomType → ℕ → ℕ → Option RatePlan → ℕ → ℕ → Result QuoteError Quote
unfolding nights_loop assemble
quote rates hotel t check_in check_out plan adults rooms =
    if leb check_out check_in
    then err value_error
    else ok
        (assemble hotel t (nights_loop rates t plan (check_out - check_in) check_in) adults rooms)
