-- ===== src/Ai/Metering/Cost.antt =====
-- services/ai/metering.py, `compute_cost`: what rounding does to a cost.
use fab_ai_smart_hotel_manag.Prelude.{ℕ, ◌+◌, ◌*◌, ◌%◌, ◌≤◌, ◌≡◌, arith}
use fab_ai_smart_hotel_manag.Ai.Models.{Usage, ResolvedModel, chosen}
use fab_ai_smart_hotel_manag.Ai.Metering.{round_half_even, compute_cost}

-- The natural number `k` is a nearest one to `n / d`, and the even one where two are as near.
abbrev pub IsNearestEven : ℕ → ℕ → ℕ → Type 0
IsNearestEven n d k =
    (2 * (d * k) ≤ 2 * n + d)
    × (2 * n ≤ 2 * (d * k) + d)
    × (2 * (d * k) ≡ 2 * n + d → k % 2 ≡ 0)
    × (2 * n ≡ 2 * (d * k) + d → k % 2 ≡ 0)

round_half_even-IsNearestEven : (n : ℕ) → IsNearestEven n 1000 (round_half_even n 1000)
unfolding round_half_even
round_half_even-IsNearestEven n = ground arith

-- The cost of a call is the exact price of its tokens to the nearest millionth of a dollar, the
-- even one where two are as near: the price per thousand times the tokens, for the input and for
-- the output, over a thousand.
pub compute_cost-IsNearestEven :
    (usage : Usage) (model : ResolvedModel)
    → IsNearestEven
        (usage.input_tokens * (chosen model).cost_per_1k_input
          + usage.output_tokens * (chosen model).cost_per_1k_output)
        1000
        (compute_cost usage model)
unfolding compute_cost
compute_cost-IsNearestEven usage model = round_half_even-IsNearestEven _
