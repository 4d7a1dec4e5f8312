-- ===== src/Reception/BookingTurn.antt =====
-- services/reception/orchestrator.py: `_booking_turn`, a turn that the booking agent takes.
pub mod Invariants
use fab_ai_smart_hotel_manag.Prelude.{
  ℕ, zero, suc, ◌+◌, Bool, true, false, not, ◌&&◌, ◌||◌, Option, none, some, List, [], ◌∷◌, ◌++◌,
  ltb, leb, ◌==◌, is_some, filter, if◌then◌else◌,
}
use fab_ai_smart_hotel_manag.Prelude.Exec.{
  Exec, Result, ok, err, pure, modify, continue, ◌>>=◌, ◌>>◌, atomic,
}
use fab_ai_smart_hotel_manag.Rooms.Weekdays.{Text}
use fab_ai_smart_hotel_manag.Billing.Folio.{is_empty, same_text}
use fab_ai_smart_hotel_manag.Ai.Models.{
  ResolvedModel, Desk, Call, AiError, ai_disabled, ai_budget_exceeded, is_transient,
}
use fab_ai_smart_hotel_manag.Ai.Gateway.{Retry, ChatResult, chat, is_available, is_configured}
use fab_ai_smart_hotel_manag.Reception.Models.{
  Conversation, ConversationMode, chatting, booking, guest, assistant, HandoffReason,
  low_confidence, repeated, ai_unavailable, error, DraftEntry, room_code, key_number, Lobby, Turn,
  Property, SafetyPolicy, AiSettings,
}
use fab_ai_smart_hotel_manag.Reception.Language.{Patterns, en, choose, detect, normalise}
use fab_ai_smart_hotel_manag.Reception.Guardrails.{
  Notice, Screens, Verdict, check_inbound, check_outbound, repeated_question, confidence_of, broken,
  repeats, ai_offline, token_cap, empty_message,
}
use fab_ai_smart_hotel_manag.Reception.Guidance.{is_self_serve}
use fab_ai_smart_hotel_manag.Reception.Words.{
  Words, Draft, Confirmation, confirmed, conflict, invalid,
}
use fab_ai_smart_hotel_manag.Reception.Turns.{
  Doing, record_message, no_usage, say, count_turn, charge, queue_handoff, plain_turn,
  mark_provider_failure, self_serve, hand_off, offline, leave_booking,
}

-- A call of the AI services within a turn.
abbrev pub lifted : {A : Type 0} → Result AiError A × Desk → Lobby → Result AiError A × Lobby
lifted (r, d) l = (r, record l { desk = d })

abbrev pub within : {A : Type 0} → Call A → Doing A
within m l = lifted (m l.desk) l

abbrev pub tenant_of : Option Property → Option ℕ
tenant_of none = none
tenant_of (some h) = some h.pk

-- `hotel or conversation.tenant`
abbrev pub or_tenant : Option Property → Conversation → Option Property
or_tenant (some h) c = some h
or_tenant none c = c.tenant

abbrev pub or_text : Text → Text → Text
or_text [] other = other
or_text (c ∷ cs) other = c ∷ cs

abbrev pub kiosk_language : Option Property → Text
kiosk_language none = en
kiosk_language (some h) = h.kiosk_language

abbrev pub is_booking : ConversationMode → Bool
is_booking chatting = false
is_booking booking = true

abbrev pub or_reason : Option HandoffReason → HandoffReason → HandoffReason
or_reason none r = r
or_reason (some r) _ = r

abbrev pub set_conversation : (Conversation → Conversation) → Lobby → Lobby
set_conversation f l = record l { conversation = f l.conversation }

abbrev pub some_turn : Result AiError Turn × Lobby → Result AiError (Option Turn) × Lobby
some_turn (ok t, l) = (ok (some t), l)
some_turn (err e, l) = (err e, l)

-- `{k: v for k, v in booking.items() if k != "room_code"}`
abbrev pub without_room : List DraftEntry → List DraftEntry
without_room = filter (λ (e : DraftEntry). not (key_number e.key == key_number room_code))

module _ (w : Words) (retry : Retry ChatResult)
    (reply : List ResolvedModel → ResolvedModel → Result AiError ChatResult) (frames : ℕ) where
  -- `gateway.is_available(tenant_id) and gateway.is_configured(tenant_id)`
  abbrev pub has_model : Option ℕ → Call Bool
  has_model tenant = is_available tenant >>= λ available.
      if available then is_configured frames tenant else pure false

  -- `_booking_reply(conversation, draft, language, override=...)`
  abbrev pub booking_reply : Text → Draft → Text → Doing (Option Turn)
  booking_reply override draft language l =
      let text = or_text override (or_text draft.reply (w.failed language)) in
      (ok (some (record (plain_turn text 900 language) { ai_used = true })), say text (some 900) l)

  -- What `booking_agent.confirm` came to.
  abbrev pub finish_booking : Confirmation → Draft → Text → Doing (Option Turn)
  finish_booking conflict draft language l =
      booking_reply (w.taken language) draft language
        (set_conversation (λ c. record c { booking_draft = without_room draft.booking }) l)
  finish_booking invalid draft language l = some_turn (hand_off w error (w.failed language) l)
  finish_booking (confirmed code) draft language l =
      let text = w.confirmed_reply draft language code in
      (
        ok (
            some (record (plain_turn text 1000 language) {
              ai_used = true;
              reservation_code = some code;
            })),
        say text (some 1000) (
            set_conversation
              (λ c. record c {
                mode = chatting;
                booking_draft = [];
                reservations = code ∷ c.reservations;
              })
              l),
      )

  -- What follows the agent's answer; `none` is an answer that cannot be read.
  abbrev pub take_draft : Option Draft → Text → Doing (Option Turn)
  take_draft none language l = (ok none, l)
  take_draft (some draft) language before =
      if draft.cancelled
      then some_turn (leave_booking w (or_text draft.reply (w.dropped language)) before)
      else (let l =
            set_conversation
              (λ c. record c {
                mode = booking;
                booking_draft = draft.booking;
                turn_count = c.turn_count + 1;
              })
              before in
          if draft.ready_to_confirm
          then finish_booking (w.confirm l.conversation) draft language l
          else booking_reply [] draft language l)

  -- `except (AIDisabled, AIBudgetExceeded)` and `except AIError`
  abbrev pub booking_failed : AiError → Option Property → Doing (Option Turn)
  booking_failed ai_disabled hotel l = (ok none, l)
  booking_failed ai_budget_exceeded hotel l = (ok none, l)
  booking_failed e hotel l =
      if is_transient e
      then (ok none, mark_provider_failure hotel (w.error_text e) l)
      else (err e, l)

  abbrev pub agent_answered :
      Result AiError ChatResult × Lobby
      → Option Property
      → Text
      → Result AiError (Option Turn) × Lobby
  agent_answered (err e, l) hotel language = booking_failed e hotel l
  agent_answered (ok a, l) hotel language =
      take_draft (w.finalize a.text l.conversation.booking_draft) language l

  -- `_booking_turn(conversation, text)`, of a hotel that has a model
  abbrev pub booking_exchange : Option Property → Text → Text → Doing (Option Turn)
  booking_exchange hotel text language l =
      if is_booking l.conversation.mode && w.wants_out text
      then some_turn (leave_booking w (w.dropped language) l)
      else agent_answered (within (chat retry reply frames (tenant_of hotel)) l) hotel language

  -- `_booking_turn(conversation, text)`
  unfoldable pub booking_turn : Option Property → Text → Text → Doing (Option Turn)
  booking_turn none text language l = (ok none, l)
  booking_turn (some h) text language l =
      (within (has_model (some h.pk)) >>= λ there.
      if there then booking_exchange (some h) text language else pure none)
        l
