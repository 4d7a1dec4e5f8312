-- ===== src/Ai/Gateway/Budget.antt =====
-- services/ai/gateway.py and services/ai/metering.py: the day's spend of a hotel across its chats.
use fab_ai_smart_hotel_manag.Prelude.{
  ℕ, zero, suc, ◌+◌, ◌≡◌, ◌<◌, ◌≤◌, refl, sym, ◌∙◌, ap, inl, inr, Bool, true, false, Option, none,
  some, List, arith, Bool-cases, subst, ==_self,
}
use mathlib.Core.Option.{some-injective}
use fab_ai_smart_hotel_manag.Ai.Gateway.Guard.{
  Looks, assert_available-Looks, assert_available-Admits,
}
use fab_ai_smart_hotel_manag.Prelude.Exec.{Result, ok, err, Unit₀, continue}
use fab_ai_smart_hotel_manag.Ai.Models.{
  ResolvedModel, llm, AiHotel, Desk, Spend, Usage, AiError, ModelKind, Resolution, is_transient,
}
use fab_ai_smart_hotel_manag.Ai.Registry.{
  or_ambient, resolve, cached_or, keep_resolved, from_db, cached,
}
use fab_ai_smart_hotel_manag.Ai.Metering.{
  spend_today, spend_or_sum, cached_spend, spent, spent_or, keep_spend, record_usage, bump_spend,
  spend_day, amount_or_zero, bump_if, log_usage,
}
use fab_ai_smart_hotel_manag.Ai.Gateway.{
  Retry, ChatResult, chat, finish_chat, empty_usage, call_with_fallback, mark_fallback, find_hotel,
  assert_available,
}
use fab_ai_smart_hotel_manag.Ai.Gateway.Routing.{call_with_fallback-Routed}

-- The ambient hotel, and its spend of the day in the cache.
abbrev IsWarm : ℕ → ℕ → Desk → Type 0
IsWarm t n s = (e : Spend) × (s.tenant ≡ some t) × (cached_spend t s ≡ some e) × (e.amount ≡ n)

IsWarm-spent : (t n : ℕ) (s : Desk) → IsWarm t n s → spent t s ≡ n
IsWarm-spent t n s (e, own, there, amount) = rw there amount

keep_spend-IsWarm : (t n : ℕ) (s : Desk) → s.tenant ≡ some t → IsWarm t n (keep_spend t n s)
keep_spend-IsWarm t n s own =
    let e : Spend = record { tenant = t; day = spend_day s; amount = n } in
    (e, own, rw (==_self t, ==_self (spend_day s)) refl, refl)

spend_today-IsWarm :
    (t : ℕ) (s : Desk) → s.tenant ≡ some t → IsWarm t (spent t s) (spend_today t s).1
unfolding spend_today
spend_today-IsWarm t s own = by (cached_spend t s) refl
  where
    by :
        (o : Option Spend) → cached_spend t s ≡ o → IsWarm t (spent_or o t s) (spend_or_sum o t s).1
    by (some e) there = (e, own, there, refl)
    by none there = keep_spend-IsWarm t _ s own

bump_if-IsWarm :
    (t n cost : ℕ) (s : Desk) → IsWarm t n s → IsWarm t (n + cost) (bump_if (some t) cost s)
unfolding bump_spend
bump_if-IsWarm t n zero s (e, own, there, amount) = (e, own, there, omega (arith, amount))
bump_if-IsWarm t n (suc c) s (e, own, there, amount) =
    let total : amount_or_zero (cached_spend t s) + suc c ≡ n + suc c =
      rw there (omega (arith, amount)) in
    subst (λ k. IsWarm t k (bump_spend t (suc c) s)) total (keep_spend-IsWarm t _ s own)

record_usage-IsWarm :
    (t n : ℕ) (m : ResolvedModel) (u : Usage) (cost : ℕ) (success fallback : Bool) (s : Desk)
    → IsWarm t n s
    → IsWarm t (n + cost) (record_usage m u cost success fallback s)
unfolding record_usage
record_usage-IsWarm t n m u cost success fallback s (e, own, there, amount) =
    let s' : Desk = log_usage m u cost success fallback s in
    subst (λ o. IsWarm t (n + cost) (bump_if o cost s')) (sym own)
      (bump_if-IsWarm t n cost s' (e, own, there, amount))

resolve_state :
    (frames : ℕ) (kind : ModelKind) (tenant : Option ℕ) (s : Desk)
    → (r : List Resolution) × ((resolve frames kind tenant s).1 ≡ record s { resolutions = r })
unfolding resolve from_db
resolve_state frames kind tenant s = by_entry (cached kind (or_ambient tenant s.tenant) s)
  where
    by_result :
        (scope : Option ℕ) (out : Result AiError ResolvedModel)
        → (r : List Resolution) × ((keep_resolved kind scope out s).1
            ≡ record s { resolutions = r })
    by_result scope (ok m) = (_, refl)
    by_result scope (err e) = (_, refl)

    by_entry :
        (o : Option Resolution)
        → (r : List Resolution) × ((cached_or kind (or_ambient tenant s.tenant) o frames s).1
            ≡ record s { resolutions = r })
    by_entry (some e) = (_, refl)
    by_entry none = by_result (or_ambient tenant s.tenant) _

looked_spent :
    (tenant : Option ℕ) (t : ℕ) (s s' : Desk)
    → s.tenant ≡ some t
    → or_ambient tenant s.tenant ≡ some t
    → Looks tenant s s'
    → spent t s' ≡ spent t s
looked_spent tenant t s s' ambient own (inl same) = ap (spent t) same
looked_spent tenant t s s' ambient own (inr (t', own', looked)) =
    let who : t' ≡ t = some-injective t' t (sym own' ∙ own) in
    let seen : s' ≡ (spend_today t s).1 = subst (λ u. s' ≡ (spend_today u s).1) who looked in
    subst (λ d. spent t d ≡ spent t s) (sym seen)
      (IsWarm-spent t _ _ (spend_today-IsWarm t s ambient))

-- What a chat does to the spend of the day.
abbrev pub Spends : ℕ → ℕ → ℕ → Result AiError ChatResult × Desk → Type 0
Spends t limit n (ok a, s') = (n < limit) × (spent t s' ≡ n + a.cost_usd)
Spends t limit n (err e, s') = spent t s' ≡ n

module _ (retry : Retry ChatResult)
    (reply : List ResolvedModel → ResolvedModel → Result AiError ChatResult) (frames : ℕ) where
  finish_chat-Spends :
      (t limit n : ℕ) (m : ResolvedModel)
      → n < limit
      → (out : Result AiError ChatResult × Desk) → IsWarm t n out.1
      → Spends t limit n (finish_chat m out)
  finish_chat-Spends t limit n m under (ok a, s) warm =
      (under, IsWarm-spent t _ _ (record_usage-IsWarm t n m a.usage _ true a.fallback_used s warm))
  finish_chat-Spends t limit n m under (err e, s) warm = elim (Bool-cases (is_transient e)) [
    | inl passing ↦
        let s' : Desk = record_usage m empty_usage 0 false false s in
        let same : n + 0 ≡ n = omega arith in
        rw passing (
          IsWarm-spent t n s' (
            subst (λ k. IsWarm t k s') same
              (record_usage-IsWarm t n m empty_usage 0 false false s warm)))
    | inr lasting ↦ rw lasting (IsWarm-spent t n s warm)
  ]

  resolved-Spends :
      (t limit n : ℕ)
      → n < limit
      → (out : Result AiError ResolvedModel × Desk) → IsWarm t n out.1
      → Spends t limit n
          (continue out (λ m s. finish_chat m (call_with_fallback retry reply mark_fallback m s)))
  resolved-Spends t limit n under (err e, s) warm = IsWarm-spent t n s warm
  resolved-Spends t limit n under (ok m, s) warm =
      let (h, same, routed) = call_with_fallback-Routed reply retry mark_fallback m s in
      finish_chat-Spends t limit n m under (call_with_fallback retry reply mark_fallback m s)
        (subst (IsWarm t n) (sym same) warm)

  guarded-Spends :
      (t limit n : ℕ) (tenant : Option ℕ) (out : Result AiError Unit₀ × Desk)
      → spent t out.1 ≡ n
      → (out.0 ≡ ok tt → (n < limit) × IsWarm t n out.1)
      → Spends t limit n (
          continue
            (continue out (λ _. resolve frames llm tenant))
            (λ m s. finish_chat m (call_with_fallback retry reply mark_fallback m s)))
  guarded-Spends t limit n tenant (err e, s) same admits = same
  guarded-Spends t limit n tenant (ok tt, s) same admits =
      let (under, warm) = admits refl in
      let (r, kept) = resolve_state frames llm tenant s in
      resolved-Spends t limit n under (resolve frames llm tenant s)
        (subst (IsWarm t n) (sym kept) warm)

  -- A chat for the ambient hotel, where that has a cap, is answered only while the hotel's spend of
  -- the day is below the cap, and adds exactly the answer's cost to it; one that raises adds
  -- nothing.
  pub chat-Spends :
      (tenant : Option ℕ) (t : ℕ) (s : Desk) {h : AiHotel}
      → s.tenant ≡ some t
      → or_ambient tenant s.tenant ≡ some t
      → find_hotel t s ≡ some h
      → 0 < h.ai_daily_cost_cap
      → Spends t h.ai_daily_cost_cap (spent t s) (chat retry reply frames tenant s)
  unfolding chat
  chat-Spends tenant t s {h} ambient own found some_cap =
      guarded-Spends t h.ai_daily_cost_cap (spent t s) tenant (assert_available tenant s)
        (looked_spent tenant t s _ ambient own (assert_available-Looks tenant s))
        (λ q.
          let (under, same) = assert_available-Admits tenant t s own found some_cap q in
          (under, subst (IsWarm t (spent t s)) (sym same) (spend_today-IsWarm t s ambient)))

-- What happens to a hotel in a day: chats that its cap guards and whose answers cost at most
-- `dearest`, and whatever leaves its spend alone.
pub data Day (t limit dearest : ℕ) : Desk → Desk → Type 0 where
  morning : {s : Desk} → Day t limit dearest s s
  chatted :
      {s s' : Desk} {h : AiHotel} (retry : Retry ChatResult)
      (reply : List ResolvedModel → ResolvedModel → Result AiError ChatResult) (frames : ℕ)
      (tenant : Option ℕ)
      → s'.tenant ≡ some t
      → or_ambient tenant s'.tenant ≡ some t
      → find_hotel t s' ≡ some h
      → h.ai_daily_cost_cap ≡ limit
      → ((a : ChatResult) → (chat retry reply frames tenant s').0 ≡ ok a → a.cost_usd ≤ dearest)
      → Day t limit dearest s s'
      → Day t limit dearest s (chat retry reply frames tenant s').1
  elsewhere :
      {s s' s'' : Desk}
      → spent t s'' ≡ spent t s'
      → Day t limit dearest s s'
      → Day t limit dearest s s''

Spends-bound :
    (t limit dearest n : ℕ) (out : Result AiError ChatResult × Desk)
    → Spends t limit n out
    → ((a : ChatResult) → out.0 ≡ ok a → a.cost_usd ≤ dearest)
    → n < limit + dearest
    → spent t out.1 < limit + dearest
Spends-bound t limit dearest n (ok a, s) (under, added) cheap below =
    omega (arith, under, added, cheap a refl)
Spends-bound t limit dearest n (err e, s) same cheap below = omega (arith, same)

-- The cap holds to within one answer: on a day that starts with less than the cap and one answer's
-- price spent, a hotel with a cap never spends as much as the cap and the dearest answer.
pub Day-bound :
    (t limit dearest : ℕ) {s s' : Desk}
    → 0 < limit
    → Day t limit dearest s s'
    → spent t s < limit + dearest
    → spent t s' < limit + dearest
Day-bound t limit dearest some_cap morning below = below
Day-bound t limit dearest some_cap
      (chatted {s' = s'} {h = h} retry reply frames tenant ambient own found same cheap before)
      below =
    Spends-bound t limit dearest (spent t s') (chat retry reply frames tenant s')
      (subst (λ k. Spends t k (spent t s') (chat retry reply frames tenant s')) same
        (chat-Spends retry reply frames tenant t s' ambient own found (rw same some_cap)))
      cheap (Day-bound t limit dearest some_cap before below)
Day-bound t limit dearest some_cap (elsewhere same before) below =
    omega (arith, same, Day-bound t limit dearest some_cap before below)
