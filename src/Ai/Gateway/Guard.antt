-- ===== src/Ai/Gateway/Guard.antt =====
-- services/ai/gateway.py, `_assert_available`: what a refusal leaves alone.
use fab_ai_smart_hotel_manag.Prelude.{
  ℕ, zero, suc, ◌≡◌, ◌<◌, ◌≤◌, refl, sym, inl, inr, ◌⊎◌, Bool, true, false, not, ◌||◌, Option, none,
  some, List, arith, leb, Bool-cases, Option-cases, subst,
}
use fab_ai_smart_hotel_manag.Prelude.Exec.{
  Result, ok, err, raise_if, continue, Unit₀, continue-err, ok_not_err,
}
use fab_ai_smart_hotel_manag.Ai.Models.{
  ResolvedModel, llm, AiHotel, ai_available, Desk, Spend, AiError, ai_disabled, ai_budget_exceeded,
}
use fab_ai_smart_hotel_manag.Ai.Registry.{or_ambient, resolve}
use fab_ai_smart_hotel_manag.Ai.Metering.{spend_today, spend_or_sum, cached_spend, spent, spent_or}
use fab_ai_smart_hotel_manag.Ai.Gateway.{
  Retry, ChatResult, chat, find_hotel, assert_available, assert_hotel, assert_budget, is_available,
  or_disabled,
}

-- The guard on the budget, by what the day's spend is.
assert_budget-spent :
    (c t : ℕ) (s : Desk)
    → assert_budget (suc c) t s
      ≡ raise_if (leb (suc c) (spent t s)) ai_budget_exceeded (spend_today t s).1
unfolding spend_today
assert_budget-spent c t s = by (cached_spend t s)
  where
    by :
        (o : Option Spend)
        → continue (spend_or_sum o t s) (λ n. raise_if (leb (suc c) n) ai_budget_exceeded)
          ≡ raise_if (leb (suc c) (spent_or o t s)) ai_budget_exceeded (spend_or_sum o t s).1
    by (some e) = refl
    by none = refl

le→leb : (a b : ℕ) → a ≤ b → leb a b ≡ true
le→leb a b h = ground arith

leb→gt : (a b : ℕ) → leb a b ≡ false → b < a
leb→gt a b h = ground arith

assert_budget_over :
    (cap t : ℕ) (s : Desk)
    → 0 < cap
    → cap ≤ spent t s
    → (assert_budget cap t s).0 ≡ err ai_budget_exceeded
assert_budget_over zero t s some_cap over = absurd (omega arith)
assert_budget_over (suc c) t s some_cap over =
    rw (assert_budget-spent c t s, le→leb (suc c) (spent t s) over) refl

-- The hotel's AI is switched off, or its spend of the day has reached the cap.
abbrev pub IsRefused : AiHotel → ℕ → Type 0
IsRefused h amount =
    (ai_available h ≡ false) ⊎ ((0 < h.ai_daily_cost_cap) × (h.ai_daily_cost_cap ≤ amount))

assert_hotel-IsRefused :
    (h : AiHotel) (t : ℕ) (s : Desk)
    → IsRefused h (spent t s)
    → (e : AiError) × ((assert_hotel (some h) t s).0 ≡ err e)
assert_hotel-IsRefused h t s (inl off) = (ai_disabled, rw off refl)
assert_hotel-IsRefused h t s (inr (some_cap, over)) = elim (Bool-cases (ai_available h)) [
  | inl on ↦ (ai_budget_exceeded, rw on (assert_budget_over h.ai_daily_cost_cap t s some_cap over))
  | inr off ↦ (ai_disabled, rw off refl)
]

assert_available-IsRefused :
    (tenant : Option ℕ) (t : ℕ) (s : Desk) {h : AiHotel}
    → or_ambient tenant s.tenant ≡ some t
    → find_hotel t s ≡ some h
    → IsRefused h (spent t s)
    → (e : AiError) × ((assert_available tenant s).0 ≡ err e)
unfolding assert_available
assert_available-IsRefused tenant t s {h} own found refused =
    elim (Bool-cases (not s.enabled || s.kill_switch)) [
      | inl off ↦ (ai_disabled, rw off refl)
      | inr on ↦ let (e, q) = assert_hotel-IsRefused h t s refused in (e, rw (on, own, found) q)
    ]

-- What it takes to pass: the spend of the day is below the cap, and is in the cache from then on.
abbrev pub Admits : ℕ → ℕ → Desk → Result AiError Unit₀ × Desk → Type 0
Admits limit t s out = out.0 ≡ ok tt → (spent t s < limit) × (out.1 ≡ (spend_today t s).1)

assert_budget-Admits :
    (limit t : ℕ) (s : Desk) → 0 < limit → Admits limit t s (assert_budget limit t s)
assert_budget-Admits zero t s some_cap = absurd (omega arith)
assert_budget-Admits (suc c) t s some_cap = elim (Bool-cases (leb (suc c) (spent t s))) [
  | inl over ↦ rw (assert_budget-spent c t s, over) (λ q. absurd (ok_not_err (sym q)))
  | inr under ↦ rw (assert_budget-spent c t s, under) (λ q. (leb→gt _ _ under, refl))
]

pub assert_available-Admits :
    (tenant : Option ℕ) (t : ℕ) (s : Desk) {h : AiHotel}
    → or_ambient tenant s.tenant ≡ some t
    → find_hotel t s ≡ some h
    → 0 < h.ai_daily_cost_cap
    → Admits h.ai_daily_cost_cap t s (assert_available tenant s)
unfolding assert_available
assert_available-Admits tenant t s {h} own found some_cap =
    elim (Bool-cases (not s.enabled || s.kill_switch)) [
      | inl off ↦ rw off (λ q. absurd (ok_not_err (sym q)))
      | inr on ↦ elim (Bool-cases (ai_available h)) [
        | inl available ↦
            rw (on, own, found, available) (assert_budget-Admits h.ai_daily_cost_cap t s some_cap)
        | inr switched_off ↦ rw (on, own, found, switched_off) (λ q. absurd (ok_not_err (sym q)))
      ]
    ]

-- What the guards do to the state: nothing, or a reading of the day's spend.
abbrev pub Looks : Option ℕ → Desk → Desk → Type 0
Looks tenant s s' =
    (s' ≡ s) ⊎ ((t : ℕ) × (or_ambient tenant s.tenant ≡ some t) × (s' ≡ (spend_today t s).1))

raise_if-state : (b : Bool) (e : AiError) (s : Desk) → (raise_if b e s).1 ≡ s
raise_if-state true e s = refl
raise_if-state false e s = refl

assert_budget-Looks :
    (cap t : ℕ) (s : Desk)
    → ((assert_budget cap t s).1 ≡ s) ⊎ ((assert_budget cap t s).1 ≡ (spend_today t s).1)
assert_budget-Looks zero t s = inl refl
assert_budget-Looks (suc c) t s =
    inr (rw (assert_budget-spent c t s) (raise_if-state _ ai_budget_exceeded (spend_today t s).1))

assert_hotel-Looks :
    (o : Option AiHotel) (t : ℕ) (s : Desk)
    → ((assert_hotel o t s).1 ≡ s) ⊎ ((assert_hotel o t s).1 ≡ (spend_today t s).1)
assert_hotel-Looks none t s = inl refl
assert_hotel-Looks (some h) t s = elim (Bool-cases (ai_available h)) [
  | inl on ↦ rw on (assert_budget-Looks h.ai_daily_cost_cap t s)
  | inr off ↦ inl (rw off refl)
]

pub assert_available-Looks :
    (tenant : Option ℕ) (s : Desk) → Looks tenant s (assert_available tenant s).1
unfolding assert_available
assert_available-Looks tenant s = elim (Bool-cases (not s.enabled || s.kill_switch)) [
  | inl off ↦ inl (rw off refl)
  | inr on ↦ elim (Option-cases (or_ambient tenant s.tenant)) [
    | inl nobody ↦ inl (rw (on, nobody) refl)
    | inr (t, own) ↦ elim (assert_hotel-Looks (find_hotel t s) t s) [
      | inl q ↦ inl (rw (on, own) q)
      | inr q ↦ inr (t, own, rw (on, own) q)
    ]
  ]
]

-- The usage log and the calls are as they were.
abbrev pub IsQuiet : Desk → Desk → Type 0
IsQuiet s s' = (s'.calls ≡ s.calls) × (s'.usage ≡ s.usage)

spend_today-IsQuiet : (t : ℕ) (s : Desk) → IsQuiet s (spend_today t s).1
unfolding spend_today
spend_today-IsQuiet t s = by (cached_spend t s)
  where
    by : (o : Option Spend) → IsQuiet s (spend_or_sum o t s).1
    by (some e) = (refl, refl)
    by none = (refl, refl)

Looks-IsQuiet : (tenant : Option ℕ) (s s' : Desk) → Looks tenant s s' → IsQuiet s s'
Looks-IsQuiet tenant s s' (inl same) = subst (IsQuiet s) (sym same) (refl, refl)
Looks-IsQuiet tenant s s' (inr (t, own, looked)) =
    subst (IsQuiet s) (sym looked) (spend_today-IsQuiet t s)

-- No money is spent on a hotel whose AI is switched off or whose spend of the day has reached its
-- cap: a chat for it raises an error, calls no provider and logs no usage.
pub chat_refused :
    (retry : Retry ChatResult)
    (reply : List ResolvedModel → ResolvedModel → Result AiError ChatResult) (frames : ℕ)
    (tenant : Option ℕ) (t : ℕ) (s : Desk) {h : AiHotel}
    → or_ambient tenant s.tenant ≡ some t
    → find_hotel t s ≡ some h
    → IsRefused h (spent t s)
    → ((e : AiError) × ((chat retry reply frames tenant s).0 ≡ err e))
      × IsQuiet s (chat retry reply frames tenant s).1
unfolding chat
chat_refused retry reply frames tenant t s own found refused =
    let (e, q) = assert_available-IsRefused tenant t s own found refused in
    rw (continue-err (assert_available tenant s) (λ _. resolve frames llm tenant) q)
      ((e, refl), Looks-IsQuiet tenant s _ (assert_available-Looks tenant s))

assert_available_over :
    (tenant : Option ℕ) (t : ℕ) (s : Desk) {h : AiHotel}
    → (not s.enabled || s.kill_switch) ≡ false
    → or_ambient tenant s.tenant ≡ some t
    → find_hotel t s ≡ some h
    → ai_available h ≡ true
    → 0 < h.ai_daily_cost_cap
    → h.ai_daily_cost_cap ≤ spent t s
    → (assert_available tenant s).0 ≡ err ai_budget_exceeded
unfolding assert_available
assert_available_over tenant t s {h} on own found available some_cap over =
    rw (on, own, found, available) (assert_budget_over h.ai_daily_cost_cap t s some_cap over)

or_disabled_over :
    (out : Result AiError Unit₀ × Desk)
    → out.0 ≡ err ai_budget_exceeded
    → (or_disabled out).0 ≡ err ai_budget_exceeded
or_disabled_over (r, s) q = rw q refl

-- `is_available` is no plain test: over the cap of an available hotel it raises, and gives no answer.
pub is_available_over_budget :
    (tenant : Option ℕ) (t : ℕ) (s : Desk) {h : AiHotel}
    → (not s.enabled || s.kill_switch) ≡ false
    → or_ambient tenant s.tenant ≡ some t
    → find_hotel t s ≡ some h
    → ai_available h ≡ true
    → 0 < h.ai_daily_cost_cap
    → h.ai_daily_cost_cap ≤ spent t s
    → (is_available tenant s).0 ≡ err ai_budget_exceeded
unfolding is_available
is_available_over_budget tenant t s {h} on own found available some_cap over =
    or_disabled_over (assert_available tenant s)
      (assert_available_over tenant t s on own found available some_cap over)

or_disabled-state : (out : Result AiError Unit₀ × Desk) → (or_disabled out).1 ≡ out.1
or_disabled-state (ok _, s) = refl
or_disabled-state (err ai_disabled, s) = refl
or_disabled-state (err _, s) = refl

-- Asking whether the AI is there calls no provider and logs no usage.
pub is_available-IsQuiet : (tenant : Option ℕ) (s : Desk) → IsQuiet s (is_available tenant s).1
unfolding is_available
is_available-IsQuiet tenant s =
    subst (IsQuiet s) (sym (or_disabled-state (assert_available tenant s)))
      (Looks-IsQuiet tenant s _ (assert_available-Looks tenant s))
