-- ===== src/Examples/Gateway.antt =====
-- The theorems on the AI services, at a hotel with two models and a cap on its day.
use fab_ai_smart_hotel_manag.Prelude.{
  ℕ, zero, suc, ◌+◌, ◌-◌, ◌*◌, ◌≡◌, ◌≤◌, ◌<◌, refl, sym, ap, subst, ◌∙◌, inr, true, false, none,
  some, List, [], ◌∷◌, arith, length,
}
use fab_ai_smart_hotel_manag.Prelude.Exec.{Result, ok, err}
use fab_ai_smart_hotel_manag.Ai.Models.{
  llm, Provider, openai, anthropic, ResolvedModel, alone, backed, chosen, AiHotel, ModelConfig,
  Desk, Call, AiError, ai_timeout, recursion_error,
}
use fab_ai_smart_hotel_manag.Ai.Registry.{resolve, invalidate, from_db, to_resolved, choice_of}
use fab_ai_smart_hotel_manag.Ai.Registry.Coherent.{resolve-invalidate}
use fab_ai_smart_hotel_manag.Ai.Registry.Fallbacks.{to_resolved-total, from_db_looped}
use fab_ai_smart_hotel_manag.Ai.Metering.{round_half_even, compute_cost, spend_today, spent}
use fab_ai_smart_hotel_manag.Ai.Metering.Cost.{IsNearestEven, compute_cost-IsNearestEven}
use fab_ai_smart_hotel_manag.Ai.Gateway.{
  assert_available, attempt, Retry, retried, ChatResult, call_with_fallback, mark_fallback, chat,
}
use fab_ai_smart_hotel_manag.Ai.Gateway.Routing.{Ends, Routed, call_with_fallback-Routed}
use fab_ai_smart_hotel_manag.Ai.Gateway.Answers.{call_with_fallback_answers}
use fab_ai_smart_hotel_manag.Ai.Gateway.Guard.{IsQuiet, chat_refused}
use fab_ai_smart_hotel_manag.Ai.Gateway.Budget.{morning, chatted, Day-bound, Spends, chat-Spends}

abbrev pub tries : {A : Type 0} → ℕ → Call A → Call A
tries zero m s = m s
tries (suc zero) m s = m s
tries (suc (suc n)) m s = retried (m s) (tries (suc n) m)

abbrev pub retrying : {A : Type 0} → Retry A
retrying = record { attempts = tries; once = λ m s. refl; again = λ n m s. refl }

abbrev pub large : ModelConfig
large = record {
  pk = 1;
  tenant = some 7;
  is_deleted = false;
  is_active = true;
  kind = llm;
  provider = openai;
  api_key = b'k' ∷ [];
  model_name = b'L' ∷ [];
  dimension = none;
  fallback = some 2;
  is_default = true;
  cost_per_1k_input_usd = 25;
  cost_per_1k_output_usd = 100;
  last_verified_at = none;
  last_error = [];
}

abbrev pub small : ModelConfig
small = record large {
  pk = 2;
  provider = anthropic;
  model_name = b'S' ∷ [];
  fallback = none;
  is_default = false;
}

abbrev pub own_fallback : ModelConfig
own_fallback = record large { fallback = some 1 }

abbrev pub large_model : ResolvedModel
large_model = backed (choice_of large) (alone (choice_of small))

abbrev pub seaside_ai : AiHotel
seaside_ai = record {
  pk = 7;
  is_active = true;
  ai_enabled = true;
  ai_kill_switch = false;
  ai_daily_cost_cap = 100;
}

-- The hotel has spent 60 of its 100.
abbrev pub desk : Desk
desk = record {
  enabled = true;
  kill_switch = false;
  tenant = some 7;
  now = 5;
  defaults = λ kind. alone (choice_of small);
  hotels = seaside_ai ∷ [];
  configs = large ∷ small ∷ [];
  resolutions = record { kind = llm; tenant = some 7; model = alone (choice_of small) } ∷ [];
  spends = record { tenant = 7; day = 0; amount = 60 } ∷ [];
  usage = [];
  calls = [];
}

abbrev pub spent_desk : Desk
spent_desk = record desk { spends = record { tenant = 7; day = 0; amount = 100 } ∷ [] }

abbrev pub looped_desk : Desk
looped_desk = record desk { configs = own_fallback ∷ [] }

abbrev pub hello : ChatResult
hello = record {
  text = b'H' ∷ [];
  usage = record { input_tokens = 100; output_tokens = 20 };
  cost_usd = 0;
  fallback_used = false;
}

abbrev pub by_provider : Provider → Result AiError ChatResult
by_provider anthropic = ok hello
by_provider _ = err ai_timeout

-- The larger model times out.
abbrev pub reply : List ResolvedModel → ResolvedModel → Result AiError ChatResult
reply h m = by_provider (chosen m).provider

compute_cost-IsNearestEven_example :
    IsNearestEven (100 * 25 + 20 * 100) 1000 (compute_cost hello.usage large_model)
compute_cost-IsNearestEven_example = compute_cost-IsNearestEven hello.usage large_model

to_resolved-total_example : (m : ResolvedModel) × (to_resolved 1000 desk.configs large ≡ some m)
to_resolved-total_example =
    to_resolved-total (λ pk. 2 - pk) desk.configs 1000 1 (refl, (refl, tt)) refl (omega arith)

from_db_looped_example : from_db 1000 llm (some 7) looped_desk ≡ err recursion_error
from_db_looped_example = from_db_looped 1000 llm (some 7) looped_desk refl refl refl

resolve-invalidate_example :
    (resolve 1000 llm none (invalidate (some llm) (some 7) (7 ∷ []) desk)).0
    ≡ from_db 1000 llm (some 7) desk
resolve-invalidate_example =
    resolve-invalidate 1000 (some llm) (some 7) (7 ∷ []) llm none desk refl refl

call_with_fallback-Routed_example :
    Ends reply
      (Routed reply mark_fallback large_model [])
      desk
      (call_with_fallback retrying reply mark_fallback large_model desk)
call_with_fallback-Routed_example =
    call_with_fallback-Routed reply retrying mark_fallback large_model desk

call_with_fallback_answers_example :
    ((a : ChatResult) × ((call_with_fallback retrying reply mark_fallback large_model desk).0
        ≡ ok a))
    × (length (call_with_fallback retrying reply mark_fallback large_model desk).1.calls ≤ 6)
call_with_fallback_answers_example =
    call_with_fallback_answers reply retrying mark_fallback large_model (alone (choice_of small))
      desk (refl, λ h e q. ground (arith, q)) (refl, λ h. (hello, refl)) refl

chat_refused_example :
    ((e : AiError) × ((chat retrying reply 1000 none spent_desk).0 ≡ err e))
    × IsQuiet spent_desk (chat retrying reply 1000 none spent_desk).1
chat_refused_example =
    chat_refused retrying reply 1000 none 7 spent_desk refl refl (inr (omega arith, omega arith))

abbrev cost_of : Result AiError ChatResult → ℕ
cost_of (ok a) = a.cost_usd
cost_of (err e) = 0

-- The answer costs 4.5 millionths, rounded to the even 4.
answer_cost : cost_of (chat retrying reply 1000 none desk).0 ≡ 4
unfolding chat assert_available spend_today resolve call_with_fallback attempt compute_cost
    round_half_even
answer_cost = refl

cheap_answer : (a : ChatResult) → (chat retrying reply 1000 none desk).0 ≡ ok a → a.cost_usd ≤ 5
cheap_answer a q = subst (λ n. n ≤ 5) (sym answer_cost ∙ ap cost_of q) (omega arith)

Day-bound_example : spent 7 (chat retrying reply 1000 none desk).1 < 100 + 5
Day-bound_example =
    Day-bound 7 100 5 (omega arith)
      (chatted retrying reply 1000 none refl refl refl refl cheap_answer morning) (omega arith)

chat-Spends_example : Spends 7 100 (spent 7 desk) (chat retrying reply 1000 none desk)
chat-Spends_example = chat-Spends retrying reply 1000 none 7 desk refl refl refl (omega arith)
