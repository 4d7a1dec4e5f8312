-- ===== src/Pricing/Nightly.antt =====
-- services/rooms/pricing.py, `nightly_rate`: which price wins.
use fab_ai_smart_hotel_manag.Prelude.{ℕ, ◌≡◌, ◌⊎◌, true, Option, List, All, find?}
use fab_ai_smart_hotel_manag.Prelude.Int.{ℤ}
use fab_ai_smart_hotel_manag.Rooms.{RoomType, RatePlan, RoomRate, applies_on}
use fab_ai_smart_hotel_manag.Pricing.{
  Source, dated_rate, rate_before, is_candidate, candidates, base_price,
}

-- The test that a dated rate passes to be in force for a night.
abbrev pub InForce : RoomType → Option RatePlan → ℕ → RoomRate → Type 0
InForce t plan day r = (is_candidate t plan day r ≡ true) × (applies_on r day ≡ true)

-- The price is that of a dated rate in force with no other in force before it, or there is none.
abbrev pub Resolves : List RoomRate → RoomType → Option RatePlan → ℕ → ℤ × Source → Type 0
Resolves rates t plan day price =
    ((r : RoomRate) × (price ≡ (r.price, dated_rate r.pk))
      × InForce t plan day r
      × All (λ y. InForce t plan day y → rate_before r y ≡ true) rates)
    ⊎ ((price ≡ base_price t plan) × All (λ y. ¬ InForce t plan day y) rates)

module _ (rates : List RoomRate) (t : RoomType) (plan : Option RatePlan) (day : ℕ) where
  pick : Option RoomRate
  pick = find? (λ r. applies_on r day) (candidates rates t plan day)
