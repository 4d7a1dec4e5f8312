-- ===== src/Reception/Respond.antt =====
-- services/reception/orchestrator.py: `respond`, one turn of a conversation from end to end.
pub mod Closure
pub mod Escalation
pub mod Cost
use fab_ai_smart_hotel_manag.Prelude.{
  ℕ, zero, suc, ◌+◌, Bool, true, false, not, ◌&&◌, ◌||◌, Option, none, some, List, [], ◌∷◌, ◌++◌,
  ltb, leb, ◌==◌, is_some, filter, if◌then◌else◌,
}
use fab_ai_smart_hotel_manag.Prelude.Exec.{
  Exec, Result, ok, err, pure, modify, continue, ◌>>=◌, ◌>>◌, atomic,
}
use fab_ai_smart_hotel_manag.Rooms.Weekdays.{Text}
use fab_ai_smart_hotel_manag.Billing.Folio.{is_empty, same_text}
use fab_ai_smart_hotel_manag.Ai.Models.{
  ResolvedModel, Desk, Call, AiError, ai_disabled, ai_budget_exceeded, is_transient,
}
use fab_ai_smart_hotel_manag.Ai.Gateway.{Retry, ChatResult, chat, is_available, is_configured}
use fab_ai_smart_hotel_manag.Reception.Models.{
  Conversation, ConversationMode, chatting, booking, guest, assistant, HandoffReason,
  low_confidence, repeated, ai_unavailable, error, DraftEntry, room_code, key_number, Lobby, Turn,
  Property, SafetyPolicy, AiSettings,
}
use fab_ai_smart_hotel_manag.Reception.Language.{Patterns, en, choose, detect, normalise}
use fab_ai_smart_hotel_manag.Reception.Guardrails.{
  Notice, Screens, Verdict, check_inbound, check_outbound, repeated_question, confidence_of, broken,
  repeats, ai_offline, token_cap, empty_message,
}
use fab_ai_smart_hotel_manag.Reception.Guidance.{is_self_serve}
use fab_ai_smart_hotel_manag.Reception.Words.{
  Words, Draft, Confirmation, confirmed, conflict, invalid,
}
use fab_ai_smart_hotel_manag.Reception.Turns.{
  Doing, record_message, no_usage, say, count_turn, charge, queue_handoff, plain_turn,
  mark_provider_failure, self_serve, hand_off, offline, leave_booking,
}
use fab_ai_smart_hotel_manag.Reception.BookingTurn.{
  lifted, within, tenant_of, or_tenant, or_text, kiosk_language, is_booking, or_reason,
  set_conversation, some_turn, without_room, has_model, booking_reply, finish_booking, take_draft,
  booking_failed, agent_answered, booking_exchange, booking_turn,
}

-- What an exception leaves of the AI services: the rows are those of the entry, while the caches (no
-- tables) and the calls that providers have answered stay.
abbrev pub kept_outside : Desk → Desk → Desk
kept_outside before after = record before {
  resolutions = after.resolutions;
  spends = after.spends;
  calls = after.calls;
}

abbrev pub roll_back_rows : Lobby → Result AiError Turn × Lobby → Result AiError Turn × Lobby
roll_back_rows l (ok t, l') = (ok t, l')
roll_back_rows l (err e, l') = (err e, record l { desk = kept_outside l.desk l'.desk })

abbrev pub threshold : Option SafetyPolicy → AiSettings → ℕ
threshold none s = s.confidence_threshold
threshold (some p) s = p.confidence_threshold

module _ (w : Words) (retry : Retry ChatResult)
    (reply : List ResolvedModel → ResolvedModel → Result AiError ChatResult) (frames : ℕ) where
  -- The model's answer, checked and kept.
  unfoldable pub deliver : ChatResult → Text → Text → Doing Turn
  deliver a text language l =
      let answer = w.screens.strip a.text in
      let confidence = confidence_of w.screens answer (w.citations text answer) in
      let outbound = check_outbound w.screens answer in
      let reason = or_reason outbound.reason low_confidence in
      let needs_human = outbound.hands_off || ltb confidence (threshold l.policy l.settings) in
      let alone = is_self_serve l.conversation in
      let kept = charge a (record_message assistant answer (some confidence) a.usage l) in
      let turn : Turn = record (plain_turn answer confidence language) { ai_used = true } in
      if not outbound.allowed
      then hand_off w (or_reason outbound.reason error) (w.notice broken language) l
      else if alone && (outbound.hands_off || w.screens.promises_a_human answer)
      then self_serve w reason (charge a l)
      else if needs_human && not alone
      then (
        ok (record turn { hands_off = true; handoff_reason = outbound.reason }),
        queue_handoff reason kept,
      )
      else (ok turn, kept)

  -- `except AIDisabled`, `except AIBudgetExceeded` and `except AIError`
  abbrev pub model_failed : AiError → Option Property → Text → Text → Doing Turn
  model_failed ai_disabled hotel text language l =
      hand_off w ai_unavailable (w.notice ai_offline language) l
  model_failed ai_budget_exceeded hotel text language l =
      hand_off w ai_unavailable (w.notice token_cap language) l
  model_failed e hotel text language l =
      if is_transient e
      then offline w text language true (mark_provider_failure hotel (w.error_text e) l)
      else (err e, l)

  abbrev pub model_answered :
      Result AiError ChatResult × Lobby
      → Option Property
      → Text
      → Text
      → Result AiError Turn × Lobby
  model_answered (err e, l) hotel text language = model_failed e hotel text language l
  model_answered (ok a, l) hotel text language = deliver a text language l

  -- From "context + prompt" on: the model where there is one, else the hotel's record.
  unfoldable pub model_turn : Option Property → Text → Text → Doing Turn
  model_turn hotel text language =
      within (has_model w retry reply frames (tenant_of hotel)) >>= λ there.
      if there
      then (λ l.
          model_answered (within (chat retry reply frames (tenant_of hotel)) l) hotel text language)
      else offline w text language false

  abbrev pub or_model : Option Property → Text → Text → Option Turn → Doing Turn
  or_model hotel text language (some t) l = (ok t, l)
  or_model hotel text language none l = model_turn hotel text language l

  -- What a text that passed the checks comes to.
  unfoldable pub answer_turn : Option Property → Text → Text → Doing Turn
  answer_turn hotel text language l =
      if is_booking l.conversation.mode || w.wants_booking text
      then (booking_turn w retry reply frames hotel text language >>= or_model hotel text language)
          l
      else model_turn hotel text language l

  abbrev pub verdict_reply : Option Notice → Text → Text
  verdict_reply none language = []
  verdict_reply (some n) language = w.notice n language

  -- The checks, and what follows them.
  unfoldable pub checked_turn : Option Property → Text → Text → Doing Turn
  checked_turn hotel text language l =
      let verdict = check_inbound w.screens l.conversation text l.policy l.settings in
      if not verdict.allowed
      then (if verdict.hands_off
          then hand_off w (or_reason verdict.reason error) (verdict_reply verdict.message language)
              l
          else (ok (plain_turn (verdict_reply verdict.message language) 0 language), l))
      else if repeated_question w.screens l.messages text
      then hand_off w repeated (w.notice repeats language) l
      else answer_turn hotel text language l

  -- The language of the turn: one that is picked, or one that is heard.
  abbrev pub turn_language : Option Property → Text → Text → Conversation → Text
  turn_language hotel text picked c =
      let previous = or_text c.language (kiosk_language hotel) in
      let pinned = if is_empty picked then [] else normalise picked [] in
      or_text pinned (detect w.patterns text previous)

  -- What is written before a turn is answered: the language, and the guest's text.
  abbrev pub hear : Option Property → Text → Text → Lobby → Lobby
  hear hotel text language l =
      let previous = or_text l.conversation.language (kiosk_language hotel) in
      record_message guest text none no_usage (
        set_conversation
          (λ c. record c {
            language = if same_text language previous then c.language else language;
            language_confirmed = true;
          })
          l)

  abbrev pub greet : Text → Doing Turn
  greet language l =
      let text = w.greeting l.conversation language in
      (ok (plain_turn text 1000 language), count_turn (say text none l))

  -- `respond(conversation, text, hotel=..., language=...)`, its transaction apart
  unfoldable pub respond_in : Option Property → Text → Text → Doing Turn
  respond_in given text picked l =
      let hotel = or_tenant given l.conversation in
      let language = turn_language hotel text picked l.conversation in
      if not l.conversation.language_confirmed && is_some (choose w.patterns text)
      then greet language (hear hotel text language l)
      else checked_turn hotel text language (hear hotel text language l)

  -- `respond(conversation, text, hotel=..., language=...)`, with its `transaction.atomic`
  unfoldable pub respond : Option Property → Text → Text → Doing Turn
  respond given text picked l = roll_back_rows l (respond_in given text picked l)
