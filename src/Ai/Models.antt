-- ===== src/Ai/Models.antt =====
-- services/ai/base.py, the rows of apps/ai_center/models.py that choose and meter a model, the AI
-- exceptions of apps/core/exceptions.py, and the state that the AI services read and write.
--
-- Prices and costs are in millionths of a dollar. What a provider is only handed on (the URL, the
-- temperature, the token limit, the time-out, the options) and the texts of a call are left out.
use fab_ai_smart_hotel_manag.Prelude.{
  ℕ, ◌+◌, Bool, true, false, not, ◌&&◌, ◌||◌, Option, none, some, List, ◌==◌,
}
use fab_ai_smart_hotel_manag.Prelude.Exec.{Exec}
use fab_ai_smart_hotel_manag.Rooms.Weekdays.{Text}
use fab_ai_smart_hotel_manag.Billing.Folio.{is_empty}

pub data ModelKind : Type 0 where
  llm embedding image_embedding face stt tts ocr : ModelKind

pub data Provider : Type 0 where
  openai anthropic gemini google azure_openai azure_speech moonshot zai groq openrouter : Provider
  local edge_tts openai_compatible local_clip local_insightface paddleocr fake other : Provider

-- `ai_error` is the base class `AIError`; `value_error` is raised where a provider has no adapter,
-- `recursion_error` by Python; `crash` is what else a provider's library may raise.
pub data AiError : Type 0 where
  ai_error ai_disabled ai_budget_exceeded ai_timeout low_confidence : AiError
  value_error recursion_error crash : AiError

-- `_TRANSIENT`, `(AITimeout, AIError)`: `AIError` and its subclasses.
abbrev pub is_transient : AiError → Bool
is_transient value_error = false
is_transient recursion_error = false
is_transient crash = false
is_transient _ = true

-- `KEYLESS_PROVIDERS`
abbrev pub is_keyless : Provider → Bool
is_keyless fake = true
is_keyless local = true
is_keyless local_clip = true
is_keyless local_insightface = true
is_keyless paddleocr = true
is_keyless edge_tts = true
is_keyless _ = false

-- `TextChoices` compare as the texts they are; their place in the list serves for the text.
abbrev pub kind_number : ModelKind → ℕ
kind_number llm = 0
kind_number embedding = 1
kind_number image_embedding = 2
kind_number face = 3
kind_number stt = 4
kind_number tts = 5
kind_number ocr = 6

abbrev pub same_kind : ModelKind → ModelKind → Bool
same_kind a b = kind_number a == kind_number b

pub record Usage : Type 0 where
  pub input_tokens : ℕ
  pub output_tokens : ℕ

-- `Usage.total`
abbrev pub total_tokens : Usage → ℕ
total_tokens u = u.input_tokens + u.output_tokens

-- The fields of a `ResolvedModel` but its fallback.
pub record Choice : Type 0 where
  pub kind : ModelKind
  pub provider : Provider
  pub model_name : Text
  pub api_key : Text
  pub dimension : Option ℕ
  pub cost_per_1k_input : ℕ
  pub cost_per_1k_output : ℕ
  pub config_id : Option ℕ

-- `ResolvedModel`
pub data ResolvedModel : Type 0 where
  alone : Choice → ResolvedModel
  backed : Choice → ResolvedModel → ResolvedModel

abbrev pub chosen : ResolvedModel → Choice
chosen (alone c) = c
chosen (backed c f) = c

abbrev pub fallback_of : ResolvedModel → Option ResolvedModel
fallback_of (alone c) = none
fallback_of (backed c f) = some f

-- The fields of `apps.tenants.models.Hotel` that govern its AI; the cap is in millionths too.
pub record AiHotel : Type 0 where
  pub pk : ℕ
  pub is_active : Bool
  pub ai_enabled : Bool
  pub ai_kill_switch : Bool
  pub ai_daily_cost_cap : ℕ

-- `Hotel.ai_available`
abbrev pub ai_available : AiHotel → Bool
ai_available h = h.is_active && h.ai_enabled && not h.ai_kill_switch

pub record ModelConfig : Type 0 where
  pub pk : ℕ
  pub tenant : Option ℕ
  pub is_deleted : Bool
  pub is_active : Bool
  pub kind : ModelKind
  pub provider : Provider
  pub api_key : Text
  pub model_name : Text
  pub dimension : Option ℕ
  pub fallback : Option ℕ
  pub is_default : Bool
  pub cost_per_1k_input_usd : ℕ
  pub cost_per_1k_output_usd : ℕ
  pub last_verified_at : Option ℕ
  pub last_error : Text

-- `ModelConfig.is_usable`
abbrev pub is_usable : ModelConfig → Bool
is_usable c =
    c.is_active
    && not c.is_deleted
    && not (is_empty c.model_name)
    && (not (is_empty c.api_key) || is_keyless c.provider)

pub record UsageLog : Type 0 where
  pub created_at : ℕ
  pub tenant : Option ℕ
  pub kind : ModelKind
  pub provider : Provider
  pub input_tokens : ℕ
  pub output_tokens : ℕ
  pub cost_usd : ℕ
  pub success : Bool
  pub fallback_used : Bool

-- An entry of the cache of resolved models: `aicfg:{kind}:{tenant}`.
pub record Resolution : Type 0 where
  pub kind : ModelKind
  pub tenant : Option ℕ
  pub model : ResolvedModel

-- An entry of the cache of the day's spend: `aispend:{tenant}:{day}`.
pub record Spend : Type 0 where
  pub tenant : ℕ
  pub day : ℕ
  pub amount : ℕ

-- The settings, the tables and the caches. `tenant` is the ambient tenant, `now` counts seconds, and
-- `calls` lists the models that providers have been called for, the last one last.
pub record Desk : Type 0 where
  pub enabled : Bool
  pub kill_switch : Bool
  pub tenant : Option ℕ
  pub now : ℕ
  pub defaults : ModelKind → ResolvedModel
  pub hotels : List AiHotel
  pub configs : List ModelConfig
  pub resolutions : List Resolution
  pub spends : List Spend
  pub usage : List UsageLog
  pub calls : List ResolvedModel

abbrev pub Call : Type 0 → Type 0
Call A = Exec Desk AiError A
