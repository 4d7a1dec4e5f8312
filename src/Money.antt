-- ===== src/Money.antt =====
-- apps/core/utils.py, `money`, and the decimals it quantises.
--
-- A `Decimal` is an integer and a number of decimal places. A column with two decimal places is
-- held as its integer number of hundredths. A quotient is a fraction, rounded once: the division
-- of Python keeps 28 digits, which is enough to round the amounts of a column of 14 digits alike.
pub mod Rounding
use fab_ai_smart_hotel_manag.Prelude.{ℕ, ◌+◌, ◌*◌, ◌/◌, ◌^◌}
use fab_ai_smart_hotel_manag.Prelude.Int.{ℤ, pos, negsuc, ◌*ℤ◌, neg_ℕ}

pub record Decimal : Type 0 where
  pub unscaled : ℤ
  pub places : ℕ

-- A value of a column with two places.
abbrev pub of_cents : ℤ → Decimal
of_cents c = record { unscaled = c; places = 2 }

-- `ROUND_HALF_UP` of the module `decimal`: to the nearest integer, ties away from zero.
unfoldable pub round_half_up : ℤ → ℕ → ℤ
round_half_up (pos n) d = pos ((2 * n + d) / (2 * d))
round_half_up (negsuc n) d = neg_ℕ ((2 * (n + 1) + d) / (2 * d))

-- `money(value)`: the number of hundredths.
unfoldable pub money : Decimal → ℤ
unfolding round_half_up
money v = round_half_up (v.unscaled *ℤ pos 100) (10 ^ v.places)

-- `money(amount / parts)` for an amount of a column.
unfoldable pub money_div : ℤ → ℕ → ℤ
unfolding round_half_up
money_div amount parts = round_half_up amount parts
