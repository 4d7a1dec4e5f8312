-- ===== src/Reception/Turns.antt =====
-- services/reception/orchestrator.py: the parts of a turn, and the calls of staff.
pub mod Queue
use fab_ai_smart_hotel_manag.Prelude.{
  ℕ, zero, suc, ◌+◌, Bool, true, false, not, ◌&&◌, ◌||◌, Option, none, some, List, [], ◌∷◌, ◌++◌,
  ltb, leb, ◌==◌, any, length, update_where, is_some, if◌then◌else◌,
}
use fab_ai_smart_hotel_manag.Prelude.Exec.{Exec, Result, ok, err}
use fab_ai_smart_hotel_manag.Rooms.Weekdays.{Text}
use fab_ai_smart_hotel_manag.Billing.Folio.{is_empty}
use fab_ai_smart_hotel_manag.Ai.Models.{Usage, total_tokens, ModelConfig, Desk, Call, AiError}
use fab_ai_smart_hotel_manag.Ai.Gateway.{ChatResult, is_main_llm}
use fab_ai_smart_hotel_manag.Reception.Models.{
  Conversation, ConversationStatus, resolved, handoff, MessageRole, guest, assistant, Message,
  Handoff, HandoffReason, guest_request, ai_unavailable, error, chatting, BookingDraft, Lobby, Turn,
  Property, is_open, is_guest,
}
use fab_ai_smart_hotel_manag.Reception.Language.{Patterns}
use fab_ai_smart_hotel_manag.Reception.Guardrails.{Notice, handing_over, Screens}
use fab_ai_smart_hotel_manag.Reception.Guidance.{Step, is_self_serve, next_step}
use fab_ai_smart_hotel_manag.Reception.Words.{
  OfflineAnswer, Draft, Confirmation, confirmed, conflict, invalid, Words,
}

abbrev pub Doing : Type 0 → Type 0
Doing A = Exec Lobby AiError A

-- `_record(conversation, role, content, ...)`
abbrev pub record_message : MessageRole → Text → Option ℕ → Usage → Lobby → Lobby
record_message role content confidence usage l = record l {
  messages =
      l.messages
      ++ record {
        role = role;
        content = content;
        confidence = confidence;
        input_tokens = usage.input_tokens;
        output_tokens = usage.output_tokens;
      }
        ∷ [];
}

abbrev pub no_usage : Usage
no_usage = record { input_tokens = 0; output_tokens = 0 }

-- `_record` of a sentence that no model wrote
abbrev pub say : Text → Option ℕ → Lobby → Lobby
say content confidence l = record_message assistant content confidence no_usage l

abbrev pub count_turn : Lobby → Lobby
count_turn l = record l {
  conversation = record l.conversation { turn_count = l.conversation.turn_count + 1 };
}

-- `_charge(conversation, result)`
abbrev pub charge : ChatResult → Lobby → Lobby
charge a l = record l {
  conversation = record l.conversation {
    turn_count = l.conversation.turn_count + 1;
    total_tokens = l.conversation.total_tokens + total_tokens a.usage;
    total_cost_usd = l.conversation.total_cost_usd + a.cost_usd;
  };
}

-- A row of the queue that waits for the conversation.
abbrev pub is_waiting : ℕ → Handoff → Bool
is_waiting c h = h.conversation == c && not (is_some h.resolved_at)

-- `_queue_handoff(conversation, reason)`
unfoldable pub queue_handoff : HandoffReason → Lobby → Lobby
queue_handoff reason l = record l {
  conversation = record l.conversation { status = handoff; handoff_reason = some reason };
  handoffs =
      if any (is_waiting l.conversation.pk) l.handoffs
      then l.handoffs
      else l.handoffs
        ++ record {
          pk = length l.handoffs;
          conversation = l.conversation.pk;
          reason = reason;
          claimed_by = none;
          claimed_at = none;
          resolved_at = none;
        }
          ∷ [];
}

-- A turn that no model took part in.
abbrev pub plain_turn : Text → ℕ → Text → Turn
plain_turn reply confidence language = record {
  reply = reply;
  confidence = confidence;
  hands_off = false;
  handoff_reason = none;
  ai_used = false;
  reservation_code = none;
  language = language;
}

-- `claim(handoff, user)`, on the row of the given key
abbrev pub claim : ℕ → ℕ → Lobby → Lobby
claim pk user l = record l {
  handoffs =
      update_where (λ (h : Handoff). h.pk == pk)
        (λ (h : Handoff). record h { claimed_by = some user; claimed_at = some l.desk.now })
        l.handoffs;
}

-- `HandoffQueueView.post` of apps/reception/api.py, action "resolve", on a row of the conversation:
-- the row is resolved and the conversation is closed.
unfoldable pub resolve_handoff : ℕ → Lobby → Lobby
resolve_handoff pk l = record l {
  handoffs =
      update_where (λ (h : Handoff). h.pk == pk)
        (λ (h : Handoff). record h { resolved_at = some l.desk.now }) l.handoffs;
  conversation = record l.conversation {
    status = resolved;
    handoff_reason = none;
    ended_at = some l.desk.now;
  };
}

abbrev pub rate : Option ℕ → Lobby → Lobby
rate none l = l
rate (some n) l = record l {
  conversation = record l.conversation {
    satisfaction = some (if leb n 1 then 1 else if leb 5 n then 5 else n);
  };
}

-- `close(conversation, satisfaction)`
unfoldable pub close : Option ℕ → Lobby → Lobby
close satisfaction before =
    let l = rate satisfaction before in
    if is_open l.conversation
    then record l {
      conversation = record l.conversation {
        status = resolved;
        handoff_reason = none;
        ended_at = some l.desk.now;
      };
    }
    else l

-- `_mark_provider_failure(hotel, detail)`
abbrev pub mark_provider_failure : Option Property → Text → Lobby → Lobby
mark_provider_failure none detail l = l
mark_provider_failure (some h) detail l = record l {
  desk = record l.desk {
    configs =
        update_where (is_main_llm h.pk) (λ (c : ModelConfig). record c { last_error = detail })
          l.desk.configs;
  };
}

module _ (w : Words) where
  -- `_self_serve(conversation, reason)`
  unfoldable pub self_serve : HandoffReason → Doing Turn
  self_serve reason l =
      let reply = w.instead_of_a_human l.conversation reason in
      (ok (plain_turn reply 600 l.conversation.language), say reply (some 600) l)

  -- `_hand_off(conversation, reason, message)`
  unfoldable pub hand_off : HandoffReason → Text → Doing Turn
  unfolding self_serve queue_handoff
  hand_off reason message l = if is_self_serve l.conversation then self_serve reason l else (
    ok (record (plain_turn message 0 l.conversation.language) {
      hands_off = true;
      handoff_reason = some reason;
    }),
    queue_handoff reason (say message (some 0) l),
  )

  -- `request_human(conversation)`
  unfoldable pub request_human : Doing Turn
  unfolding hand_off
  request_human l = hand_off guest_request (w.notice handing_over l.conversation.language) l

  abbrev pub offline_turn : Option OfflineAnswer → HandoffReason → Text → Doing Turn
  offline_turn none reason language l = hand_off reason (w.unavailable_notice language) l
  offline_turn (some a) reason language l =
      (ok (plain_turn a.text a.confidence language), count_turn (say a.text (some a.confidence) l))

  -- `_offline(conversation, facts, text, degraded=...)`
  unfoldable pub offline : Text → Text → Bool → Doing Turn
  unfolding hand_off
  offline text language degraded l =
      offline_turn (w.offline_answer text language) (if degraded then error else ai_unavailable)
        language l

  -- `_leave_booking(conversation, reply)`
  abbrev pub leave_booking : Text → Doing Turn
  leave_booking reply l = (
    ok (plain_turn reply 0 l.conversation.language),
    say reply none (record l {
      conversation = record l.conversation {
        mode = chatting;
        booking_draft = [];
        turn_count = l.conversation.turn_count + 1;
      };
    }),
  )

  -- `nudge(conversation)`; the questions are never empty.
  unfoldable pub nudge : Doing (Option Turn)
  unfolding next_step
  nudge l =
      if not (is_open l.conversation) || not (any (λ (m : Message). is_guest m.role) l.messages)
      then (ok none, l)
      else (let reply = w.question l.conversation (next_step l.conversation) in
          if is_empty reply
          then (ok none, l)
          else (ok (some (plain_turn reply 1000 l.conversation.language)), say reply (some 1000) l))
