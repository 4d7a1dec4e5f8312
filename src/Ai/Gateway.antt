-- ===== src/Ai/Gateway.antt =====
-- services/ai/gateway.py: the guards in front of every call of a model, and the calls.
--
-- A provider is code outside the model: `reply` is what it answers to a model, given the calls that
-- came before. The retries are those of the library tenacity, taken by what it documents. The
-- overrides of a call reach only fields that are left out of a model here.
pub mod Guard
pub mod Routing
pub mod Answers
pub mod Budget
pub mod Direct
use fab_ai_smart_hotel_manag.Prelude.{
  ℕ, zero, suc, ◌≡◌, Bool, true, false, not, ◌&&◌, ◌||◌, Option, none, some, List, [], ◌∷◌, ◌++◌,
  leb, ltb, ◌==◌, find?, if◌then◌else◌,
}
use fab_ai_smart_hotel_manag.Prelude.Exec.{
  Result, ok, err, pure, raise, continue, ◌>>=◌, ◌>>◌, Unit₀, raise_if,
}
use fab_ai_smart_hotel_manag.Rooms.Weekdays.{Text}
use fab_ai_smart_hotel_manag.Billing.Folio.{is_empty}
use fab_ai_smart_hotel_manag.Ai.Models.{
  ModelKind, llm, embedding, Usage, ResolvedModel, Choice, chosen, fallback_of, AiHotel,
  ai_available, ModelConfig, Desk, Call, AiError, ai_error, ai_disabled, ai_budget_exceeded,
  value_error, is_transient, is_keyless, same_kind, ai_budget_exceeded,
}
use fab_ai_smart_hotel_manag.Ai.Registry.{
  resolve, or_ambient, adapter_of, Adapter, same_tenant, config_before,
}
use fab_ai_smart_hotel_manag.Ai.Metering.{spend_today, compute_cost, record_usage}

abbrev pub find_hotel : ℕ → Desk → Option AiHotel
find_hotel t s = find? (λ (h : AiHotel). h.pk == t) s.hotels

-- `cap > 0 and metering.spend_today(tenant_id) >= cap`
abbrev pub assert_budget : ℕ → ℕ → Call Unit₀
assert_budget zero tenant s = (ok tt, s)
assert_budget (suc c) tenant s =
    (spend_today tenant >>= λ spent. raise_if (leb (suc c) spent) ai_budget_exceeded) s

abbrev pub assert_hotel : Option AiHotel → ℕ → Call Unit₀
assert_hotel none tenant s = (ok tt, s)
assert_hotel (some h) tenant s =
    (raise_if (not (ai_available h)) ai_disabled >> assert_budget h.ai_daily_cost_cap tenant) s

abbrev pub assert_tenant : Option ℕ → Call Unit₀
assert_tenant none s = (ok tt, s)
assert_tenant (some t) s = assert_hotel (find_hotel t s) t s

-- `_assert_available(tenant_id)`
unfoldable pub assert_available : Option ℕ → Call Unit₀
assert_available tenant s =
    (raise_if (not s.enabled || s.kill_switch) ai_disabled
        >> assert_tenant (or_ambient tenant s.tenant))
      s

-- `except AIDisabled: return False`, which lets the other errors through.
abbrev pub or_disabled : Result AiError Unit₀ × Desk → Result AiError Bool × Desk
or_disabled (ok _, s) = (ok true, s)
or_disabled (err ai_disabled, s) = (ok false, s)
or_disabled (err e, s) = (err e, s)

-- `is_available(tenant_id)`
unfoldable pub is_available : Option ℕ → Call Bool
unfolding assert_available
is_available tenant s = or_disabled (assert_available tenant s)

abbrev pub has_credential : ResolvedModel → Bool
has_credential m = not (is_empty (chosen m).api_key) || is_keyless (chosen m).provider

-- `is_configured(tenant_id)`
unfoldable pub is_configured : ℕ → Option ℕ → Call Bool
unfolding resolve
is_configured frames tenant = resolve frames llm tenant >>= λ m. pure (has_credential m)

pub data Posture : Type 0 where
  disabled unconfigured degraded online : Posture

-- At most one row passes, by a constraint of the table.
abbrev pub is_main_llm : ℕ → ModelConfig → Bool
is_main_llm t c =
    same_tenant c.tenant (some t) && same_kind c.kind llm && c.is_default && not c.is_deleted

abbrev pub error_of : Option ModelConfig → Text
error_of none = []
error_of (some c) = c.last_error

-- `last_provider_error(tenant_id)`
abbrev pub last_provider_error : Option ℕ → Desk → Text
last_provider_error none s = []
last_provider_error (some t) s = error_of (find? (is_main_llm t) s.configs)

-- `status(tenant_id)`
unfoldable pub status : ℕ → Option ℕ → Call Posture
unfolding is_available is_configured
status frames tenant = is_available tenant >>= λ available.
    if not available
    then pure disabled
    else (is_configured frames tenant >>= λ configured.
        if not configured then pure unconfigured else λ s. (
          ok (
              if is_empty (last_provider_error (or_ambient tenant s.tenant) s)
              then online
              else degraded),
          s,
        ))

-- `except (KeyError, ValueError): return False`
abbrev pub value_or_false : Result AiError Bool × Desk → Result AiError Bool × Desk
value_or_false (err value_error, s) = (ok false, s)
value_or_false r = r

-- `capability_ready(kind, tenant_id)`
unfoldable pub capability_ready : ℕ → ModelKind → Option ℕ → Call Bool
unfolding is_available resolve
capability_ready frames kind tenant = is_available tenant >>= λ available.
    if not available then pure false else λ s. value_or_false (
      (resolve frames kind tenant >>= λ m.
      pure (not (is_empty (chosen m).model_name) && has_credential m))
        s)

-- What one more try does with the outcome of a try: tenacity's `retry_if_exception_type`.
abbrev pub retried : {A : Type 0} → Result AiError A × Desk → Call A → Result AiError A × Desk
retried (ok a, s) again = (ok a, s)
retried (err e, s) again = if is_transient e then again s else (err e, s)

-- `@retry(retry=retry_if_exception_type(_TRANSIENT), stop=stop_after_attempt(n), reraise=True)`: what
-- tenacity documents. The waits between the tries are left out.
pub record Retry (A : Type 0) : Type 0 where
  pub attempts : ℕ → Call A → Call A
  pub once : (m : Call A) (s : Desk) → attempts 1 m s ≡ m s
  pub again :
      (n : ℕ) (m : Call A) (s : Desk)
      → attempts (suc (suc n)) m s ≡ retried (m s) (attempts (suc n) m)

-- The fields of a `ChatResult` that the gateway reads or writes.
pub record ChatResult : Type 0 where
  pub text : Text
  pub usage : Usage
  pub cost_usd : ℕ
  pub fallback_used : Bool

pub record EmbeddingResult : Type 0 where
  pub vectors : List Text
  pub dimension : ℕ
  pub usage : Usage
  pub cost_usd : ℕ

module _ {A : Type 0} (retry : Retry A)
    (reply : List ResolvedModel → ResolvedModel → Result AiError A) where
  abbrev pub ask_adapter : Option Adapter → ResolvedModel → Call A
  ask_adapter none m s = (err value_error, s)
  ask_adapter (some a) m s = (reply s.calls m, record s { calls = s.calls ++ m ∷ [] })

  -- `registry.get_provider(m.provider).chat(messages, m)`, and the like
  abbrev pub ask : ResolvedModel → Call A
  ask m s = ask_adapter (adapter_of (chosen m).provider) m s

  -- `_attempt(model, call)`
  unfoldable pub attempt : ResolvedModel → Call A
  attempt m = retry.attempts 3 (ask m)

  -- What follows a first try that failed: `if hasattr(result, "fallback_used")` is `mark`.
  abbrev pub or_fallback :
      (A → A) → Result AiError A × Desk → Option ResolvedModel → Result AiError A × Desk
  or_fallback mark (ok a, s) f = (ok a, s)
  or_fallback mark (err e, s) none = (err e, s)
  or_fallback mark (err e, s) (some f) =
      if is_transient e then (attempt f >>= λ a. pure (mark a)) s else (err e, s)

  -- `_call_with_fallback(model, call)`
  unfoldable pub call_with_fallback : (A → A) → ResolvedModel → Call A
  unfolding attempt
  call_with_fallback mark m s = or_fallback mark (attempt m s) (fallback_of m)

abbrev pub empty_usage : Usage
empty_usage = record { input_tokens = 0; output_tokens = 0 }

abbrev pub mark_fallback : ChatResult → ChatResult
mark_fallback a = record a { fallback_used = true }

-- The two ends of `chat`: a transient error leaves a row without a cost, an answer is costed.
abbrev pub finish_chat :
    ResolvedModel → Result AiError ChatResult × Desk → Result AiError ChatResult × Desk
finish_chat m (err e, s) =
    (err e, if is_transient e then record_usage m empty_usage 0 false false s else s)
finish_chat m (ok a, s) =
    let cost = compute_cost a.usage m in
    (ok (record a { cost_usd = cost }), record_usage m a.usage cost true a.fallback_used s)

-- `result.dimension and expected and result.dimension != expected`
abbrev pub is_mismatch : ℕ → ℕ → Bool
is_mismatch got expected = not (got == 0) && not (expected == 0) && not (got == expected)

abbrev pub or_number : Option ℕ → ℕ → ℕ
or_number none n = n
or_number (some zero) n = n
or_number (some (suc k)) n = suc k

abbrev pub finish_embed : ResolvedModel → ℕ → EmbeddingResult → Call EmbeddingResult
finish_embed m expected a s = if is_mismatch a.dimension expected then (err ai_error, s) else (
  ok (record a { cost_usd = compute_cost a.usage m }),
  record_usage m a.usage (compute_cost a.usage m) true false s,
)

module _ (retry : Retry ChatResult)
    (reply : List ResolvedModel → ResolvedModel → Result AiError ChatResult) (frames : ℕ) where
  -- `chat(messages, tenant_id=...)`
  unfoldable pub chat : Option ℕ → Call ChatResult
  unfolding assert_available resolve call_with_fallback
  chat tenant = assert_available tenant >> resolve frames llm tenant >>= λ m s.
      finish_chat m (call_with_fallback retry reply mark_fallback m s)

module _ (retry : Retry EmbeddingResult)
    (reply : List ResolvedModel → ResolvedModel → Result AiError EmbeddingResult) (frames : ℕ)
    (text_dimension : ℕ) where
  -- `embed(texts, tenant_id=..., expect_dimension=...)`; the last parameter is the settings'
  -- `VECTOR_DIMENSIONS["text"]`.
  unfoldable pub embed : Option ℕ → Option ℕ → Call EmbeddingResult
  unfolding assert_available resolve call_with_fallback
  embed tenant expect = assert_available tenant >> resolve frames embedding tenant >>= λ m.
      call_with_fallback retry reply (λ a. a) m >>= λ a.
      finish_embed m (or_number expect (or_number (chosen m).dimension text_dimension)) a
