-- ===== src/Reception/Guardrails.antt =====
-- services/reception/guardrails.py: the checks around a turn.
use fab_ai_smart_hotel_manag.Prelude.{
  ℕ, zero, suc, ◌+◌, ◌*◌, Bool, true, false, not, ◌&&◌, Option, none, some, List, [], ◌∷◌, ltb, leb,
  any, filter, length, if◌then◌else◌,
}
use fab_ai_smart_hotel_manag.Rooms.Weekdays.{Text}
use fab_ai_smart_hotel_manag.Billing.Folio.{same_text, is_empty}
use fab_ai_smart_hotel_manag.Reception.Models.{
  Conversation, Message, SafetyPolicy, AiSettings, HandoffReason, blocked_topic, turn_limit,
  guest_request, error, low_confidence, is_guest,
}

-- The keys of `MESSAGES`.
pub data Notice : Type 0 where
  empty_message too_long human blocked turns_over token_cap repeats broken ai_offline handing_over :
      Notice

pub record Verdict : Type 0 where
  pub allowed : Bool
  pub hands_off : Bool
  pub reason : Option HandoffReason
  pub message : Option Notice

-- The methods of `str` and the regular expressions of the module, taken as they are
pub record Screens : Type 0 where
  pub strip : Text → Text
  pub lower : Text → Text
  pub contains : Text → Text → Bool
  pub human_request : Text → Bool
  pub non_answer : Text → Bool
  pub promises_a_human : Text → Bool
  pub normalise : Text → Text

abbrev pub passed : Verdict
passed = record { allowed = true; hands_off = false; reason = none; message = none }

abbrev pub turned_away : Notice → Verdict
turned_away n = record { allowed = false; hands_off = false; reason = none; message = some n }

abbrev pub escalated : HandoffReason → Notice → Verdict
escalated r n = record { allowed = false; hands_off = true; reason = some r; message = some n }

-- `_limit(policy, attr, fallback_key)`
abbrev pub max_turns : Option SafetyPolicy → AiSettings → ℕ
max_turns none s = s.max_conversation_turns
max_turns (some p) s = p.max_conversation_turns

abbrev pub token_limit : Option SafetyPolicy → AiSettings → ℕ
token_limit none s = s.session_token_cap
token_limit (some p) s = p.session_token_cap

abbrev pub topics : Option SafetyPolicy → List Text
topics none = []
topics (some p) = p.blocked_topics

abbrev pub last_six : List Message → List Message
last_six [] = []
last_six (m ∷ ms) = let rest = last_six ms in if ltb (length ms) 6 then m ∷ ms else rest

module _ (w : Screens) where
  -- `check_inbound(conversation, text, policy)`
  unfoldable pub check_inbound : Conversation → Text → Option SafetyPolicy → AiSettings → Verdict
  check_inbound c text policy settings =
      let cleaned = w.strip text in
      if is_empty cleaned
      then turned_away empty_message
      else if ltb 2000 (length cleaned)
      then turned_away too_long
      else if w.human_request cleaned
      then escalated guest_request human
      else if any (λ t. w.contains (w.lower t) (w.lower cleaned)) (topics policy)
      then escalated blocked_topic blocked
      else if leb (max_turns policy settings) c.turn_count
      then escalated turn_limit turns_over
      else if leb (token_limit policy settings) c.total_tokens
      then escalated turn_limit token_cap
      else passed

  -- `repeated_question(conversation, text)`: the guest's last six messages.
  unfoldable pub repeated_question : List Message → Text → Bool
  repeated_question messages text =
      let norm = w.normalise text in
      let previous = last_six (filter (λ (m : Message). is_guest m.role) messages) in
      not (is_empty norm)
      && leb 2 (length (filter (λ (m : Message). same_text (w.normalise m.content) norm) previous))

  -- `check_outbound(answer, language)`
  unfoldable pub check_outbound : Text → Verdict
  check_outbound answer =
      if is_empty (w.strip answer)
      then escalated error broken
      else if w.non_answer answer
      then record { allowed = true; hands_off = true; reason = some low_confidence; message = none }
      else passed

  -- `confidence_of(answer, citations)`, by the number of the citations
  unfoldable pub confidence_of : Text → ℕ → ℕ
  confidence_of answer zero = if w.non_answer answer then 200 else 500
  confidence_of answer (suc n) =
      if w.non_answer answer
      then 200
      else if leb 1000 (700 + 100 * suc n)
      then 1000
      else 700 + 100 * suc n
