-- ===== src/Money/Rounding.antt =====
-- apps/core/utils.py, `money`: what rounding to hundredths does to an amount.
use fab_ai_smart_hotel_manag.Prelude.{ℕ, zero, suc, ◌+◌, ◌*◌, ◌/◌, ◌^◌, ◌≤◌, ◌<◌, ◌≡◌, arith}
use fab_ai_smart_hotel_manag.Prelude.Int.{ℤ, pos, negsuc, ◌*ℤ◌, pos_part, neg_part}
use fab_ai_smart_hotel_manag.Money.{Decimal, of_cents, round_half_up, money, money_div}
use native.Mathlib.Nat.{pow-suc, pow-zero}

-- An amount that is already in hundredths is unchanged.
pub money-of_cents : (c : ℤ) → money (of_cents c) ≡ c
unfolding money ◌*ℤ◌
money-of_cents (pos n) = ground arith
money-of_cents (negsuc n) = ground arith

-- The natural number `k` is the nearest to `n / d`, the larger one on a tie.
abbrev pub IsNearest : ℕ → ℕ → ℕ → Type 0
IsNearest n d k = (2 * d * k ≤ 2 * n + d) × (2 * n < 2 * d * k + d)

div-IsNearest : (n d : ℕ) → 0 < d → IsNearest n d ((2 * n + d) / (2 * d))
div-IsNearest n d h = grind arith

zero-IsNearest : (d : ℕ) → 0 < d → IsNearest 0 d 0
zero-IsNearest d h = grind arith

-- The integer `r` is the nearest to `a / d`, the one farther from zero on a tie.
abbrev pub Rounds : ℤ → ℕ → ℤ → Type 0
Rounds a d r = IsNearest (pos_part a) d (pos_part r) × IsNearest (neg_part a) d (neg_part r)

pub round_half_up-Rounds : (a : ℤ) (d : ℕ) → 0 < d → Rounds a d (round_half_up a d)
unfolding round_half_up
round_half_up-Rounds (pos n) d h = (div-IsNearest n d h, zero-IsNearest d h)
round_half_up-Rounds (negsuc n) d h = ground (arith, div-IsNearest (n + 1) d h, zero-IsNearest d h)

pow-pos : (p : ℕ) → 0 < 10 ^ p
pow-pos zero = rw pow-zero (omega arith)
pow-pos (suc p) = rw pow-suc (omega (arith, pow-pos p))

pub *ℤ_pos :
    (a : ℤ) (k : ℕ)
    → (pos_part (a *ℤ pos k) ≡ pos_part a * k) × (neg_part (a *ℤ pos k) ≡ neg_part a * k)
unfolding ◌*ℤ◌
*ℤ_pos (pos n) k = (ground arith, ground arith)
*ℤ_pos (negsuc n) k = (ground arith, ground arith)

-- `money` takes every decimal to the nearest hundredth, ties away from zero: the magnitude of the
-- result, in hundredths, is the nearest integer to the magnitude of the argument times 100, and
-- the sign is kept.
pub money-IsNearest :
    (v : Decimal)
    → IsNearest (pos_part v.unscaled * 100) (10 ^ v.places) (pos_part (money v))
      × IsNearest (neg_part v.unscaled * 100) (10 ^ v.places) (neg_part (money v))
unfolding money
money-IsNearest v =
    let (p, n) = *ℤ_pos v.unscaled 100 in
    rw (← p, ← n) (round_half_up-Rounds (v.unscaled *ℤ pos 100) (10 ^ v.places) (pow-pos v.places))

pub money_div-Rounds :
    (amount : ℤ) (parts : ℕ) → 0 < parts → Rounds amount parts (money_div amount parts)
unfolding money_div
money_div-Rounds amount parts h = round_half_up-Rounds amount parts h
