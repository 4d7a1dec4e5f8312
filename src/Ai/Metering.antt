-- ===== src/Ai/Metering.antt =====
-- services/ai/metering.py: what a call costs, the rows of the usage log, and the day's spend.
--
-- Writes that fail are not modelled: the source logs them and goes on.
pub mod Cost
use fab_ai_smart_hotel_manag.Prelude.{
  ℕ, zero, suc, ◌+◌, ◌-◌, ◌*◌, ◌/◌, ◌%◌, Bool, true, false, not, ◌&&◌, Option, none, some, List, [],
  ◌∷◌, ◌++◌, leb, ltb, ◌==◌, refers, find?, if◌then◌else◌,
}
use fab_ai_smart_hotel_manag.Prelude.Exec.{ok, Unit₀}
use fab_ai_smart_hotel_manag.Ai.Models.{Usage, ResolvedModel, chosen, UsageLog, Spend, Desk, Call}

-- `ROUND_HALF_EVEN` of the module `decimal`, its default.
unfoldable pub round_half_even : ℕ → ℕ → ℕ
round_half_even n d =
    let q = n / d in
    let r = n % d in if ltb (2 * r) d then q else if ltb d (2 * r) then q + 1 else q + q % 2

-- `compute_cost(usage, model)`, in millionths of a dollar
unfoldable pub compute_cost : Usage → ResolvedModel → ℕ
unfolding round_half_even
compute_cost usage model =
    round_half_even
      (usage.input_tokens * (chosen model).cost_per_1k_input
        + usage.output_tokens * (chosen model).cost_per_1k_output)
      1000

-- The day of `_spend_key(tenant_id)`
abbrev pub spend_day : Desk → ℕ
spend_day s = s.now / 86400

abbrev pub is_spend : ℕ → ℕ → Spend → Bool
is_spend tenant day e = e.tenant == tenant && e.day == day

abbrev pub cached_spend : ℕ → Desk → Option Spend
cached_spend tenant s = find? (is_spend tenant (spend_day s)) s.spends

abbrev pub keep_spend : ℕ → ℕ → Desk → Desk
keep_spend tenant amount s = record s {
  spends = record { tenant = tenant; day = spend_day s; amount = amount } ∷ s.spends;
}

abbrev pub amount_or_zero : Option Spend → ℕ
amount_or_zero none = 0
amount_or_zero (some e) = e.amount

-- `_bump_spend(tenant_id, cost)`
unfoldable pub bump_spend : ℕ → ℕ → Desk → Desk
bump_spend tenant cost s = keep_spend tenant (amount_or_zero (cached_spend tenant s) + cost) s

-- The sum of the rows of the last 24 hours
abbrev pub usage_since : ℕ → ℕ → List UsageLog → ℕ
usage_since tenant since [] = 0
usage_since tenant since (u ∷ us) =
    let rest = usage_since tenant since us in
    if refers u.tenant tenant && leb since u.created_at then u.cost_usd + rest else rest

abbrev pub spent_or : Option Spend → ℕ → Desk → ℕ
spent_or (some e) tenant s = e.amount
spent_or none tenant s = usage_since tenant (s.now - 86400) s.usage

abbrev pub spend_or_sum : Option Spend → ℕ → Call ℕ
spend_or_sum (some e) tenant s = (ok e.amount, s)
spend_or_sum none tenant s =
    let total = usage_since tenant (s.now - 86400) s.usage in (ok total, keep_spend tenant total s)

-- What `spend_today(tenant_id)` returns.
abbrev pub spent : ℕ → Desk → ℕ
spent tenant s = spent_or (cached_spend tenant s) tenant s

-- `spend_today(tenant_id)`
unfoldable pub spend_today : ℕ → Call ℕ
spend_today tenant s = spend_or_sum (cached_spend tenant s) tenant s

abbrev pub bump_if : Option ℕ → ℕ → Desk → Desk
bump_if none cost s = s
bump_if (some t) zero s = s
bump_if (some t) (suc c) s = bump_spend t (suc c) s

-- `UsageLog.objects.create(...)`, for the ambient tenant
abbrev pub log_usage : ResolvedModel → Usage → ℕ → Bool → Bool → Desk → Desk
log_usage model usage cost success fallback_used s = record s {
  usage =
      s.usage
      ++ record {
        created_at = s.now;
        tenant = s.tenant;
        kind = (chosen model).kind;
        provider = (chosen model).provider;
        input_tokens = usage.input_tokens;
        output_tokens = usage.output_tokens;
        cost_usd = cost;
        success = success;
        fallback_used = fallback_used;
      }
        ∷ [];
}

-- `record(...)`: the row and the spend go to the ambient tenant.
unfoldable pub record_usage : ResolvedModel → Usage → ℕ → Bool → Bool → Desk → Desk
record_usage model usage cost success fallback_used s =
    bump_if s.tenant cost (log_usage model usage cost success fallback_used s)
