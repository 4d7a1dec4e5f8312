-- ===== src/Ai/Gateway/Direct.antt =====
-- services/ai/gateway.py: the calls of a model that are made once, without retries or a fallback.
--
-- `stream` is read to its end; its text and that of the messages are counted in characters.
use fab_ai_smart_hotel_manag.Prelude.{ℕ, ◌/◌, true, false, Option, List}
use fab_ai_smart_hotel_manag.Prelude.Exec.{Result, ok, ◌>>=◌, ◌>>◌}
use fab_ai_smart_hotel_manag.Ai.Models.{
  ModelKind, llm, image_embedding, stt, tts, Usage, ResolvedModel, Call, AiError,
}
use fab_ai_smart_hotel_manag.Ai.Registry.{resolve}
use fab_ai_smart_hotel_manag.Ai.Metering.{compute_cost, record_usage}
use fab_ai_smart_hotel_manag.Ai.Gateway.{Retry, EmbeddingResult, assert_available, ask, empty_usage}

-- The row of an answer: its usage, and what it costs.
abbrev pub metered : {A : Type 0} → (ResolvedModel → A → Usage × ℕ) → ResolvedModel → A → Call A
metered meter m a s =
    let (usage, cost) = meter m a in (ok a, record_usage m usage cost true false s)

module _ {A : Type 0} (retry : Retry A)
    (reply : List ResolvedModel → ResolvedModel → Result AiError A) (frames : ℕ) where
  abbrev pub direct_call : ModelKind → (ResolvedModel → A → Usage × ℕ) → Option ℕ → Call A
  direct_call kind meter tenant = assert_available tenant >> resolve frames kind tenant >>= λ m.
      ask retry reply m >>= λ a. metered meter m a

  -- `transcribe(audio)`
  abbrev pub transcribe : Option ℕ → Call A
  transcribe = direct_call stt (λ m a. (empty_usage, 0))

  -- `speak(text)`
  abbrev pub speak : Option ℕ → Call A
  speak = direct_call tts (λ m a. (empty_usage, 0))

-- `embed_image(images)` and `embed_image_text(texts)`
abbrev pub embed_image :
    Retry EmbeddingResult
    → (List ResolvedModel → ResolvedModel → Result AiError EmbeddingResult)
    → ℕ
    → Option ℕ
    → Call EmbeddingResult
embed_image retry reply frames =
    direct_call retry reply frames image_embedding (λ m (a : EmbeddingResult). (a.usage, 0))

-- The estimate of `stream`: four characters to a token.
abbrev pub streamed : ℕ → ResolvedModel → ℕ → Usage × ℕ
streamed asked m chars =
    let usage : Usage = record { input_tokens = asked / 4; output_tokens = chars / 4 } in
    (usage, compute_cost usage m)

-- `stream(messages)`; an answer is its number of characters.
abbrev pub stream :
    Retry ℕ → (List ResolvedModel → ResolvedModel → Result AiError ℕ) → ℕ → ℕ → Option ℕ → Call ℕ
stream retry reply frames asked = direct_call retry reply frames llm (streamed asked)
