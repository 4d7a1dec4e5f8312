-- ===== src/Reception/BookingTurn/Invariants.antt =====
-- services/reception/orchestrator.py: a rule for the invariants of the parts of a turn, and of the
-- turns that the booking agent takes.
use fab_ai_smart_hotel_manag.Prelude.{
  ℕ, Bool, true, false, not, ◌&&◌, Option, none, some, List, ◌≡◌, refl, inl, inr, Bool-cases,
  if◌then◌else◌,
}
use mathlib.Core.Bool.{false≢true}
use fab_ai_smart_hotel_manag.Prelude.Exec.{Result, ok, err}
use fab_ai_smart_hotel_manag.Prelude.Keeps.{Keeps, Keeps-bind, Keeps-pure, Keeps-if}
use fab_ai_smart_hotel_manag.Rooms.Weekdays.{Text}
use fab_ai_smart_hotel_manag.Ai.Models.{
  ResolvedModel, Usage, Desk, Call, AiError, ai_error, low_confidence, ai_disabled,
  ai_budget_exceeded, ai_timeout, value_error, recursion_error, crash,
}
use fab_ai_smart_hotel_manag.Ai.Gateway.{Retry, ChatResult, chat}
use fab_ai_smart_hotel_manag.Reception.Models.{
  Conversation, MessageRole, HandoffReason, Lobby, Turn, Property, error,
}
use fab_ai_smart_hotel_manag.Reception.Guidance.{is_self_serve}
use fab_ai_smart_hotel_manag.Reception.Words.{
  Words, Draft, OfflineAnswer, Confirmation, confirmed, conflict, invalid,
}
use fab_ai_smart_hotel_manag.Reception.Turns.{
  record_message, queue_handoff, hand_off, self_serve, offline, offline_turn, mark_provider_failure,
}
use fab_ai_smart_hotel_manag.Reception.BookingTurn.{
  within, is_booking, has_model, tenant_of, some_turn, finish_booking, take_draft, booking_failed,
  agent_answered, booking_exchange, booking_turn,
}

-- What a turn may do to a conversation that it does not escalate.
abbrev pub IsSameCase : Conversation → Conversation → Type 0
IsSameCase c c' = (c'.pk ≡ c.pk) × (c'.channel ≡ c.channel) × (c'.status ≡ c.status)

-- A property that the steps of a turn preserve.
pub record Closed (P : Lobby → Type 0) : Type 0 where
  pub said :
      (role : MessageRole) (text : Text) (confidence : Option ℕ) (usage : Usage) (l : Lobby)
      → P l
      → P (record_message role text confidence usage l)
  pub written :
      (c : Conversation) (l : Lobby)
      → IsSameCase l.conversation c
      → P l
      → P (record l { conversation = c })
  pub consulted : (d : Desk) (l : Lobby) → P l → P (record l { desk = d })
  pub queued :
      (reason : HandoffReason) (l : Lobby)
      → is_self_serve l.conversation ≡ false
      → P l
      → P (queue_handoff reason l)

-- Either branch of a test, each knowing the test's outcome.
pub if_case :
    {A : Type 0} (P : Lobby → Type 0) (b : Bool) (x y : Result AiError A × Lobby)
    → (b ≡ true → P x.1)
    → (b ≡ false → P y.1)
    → P (if b then x else y).1
if_case P true x y t f = t refl
if_case P false x y t f = f refl

pub and_not : (a b : Bool) → (a && not b) ≡ true → b ≡ false
and_not true false h = refl
and_not true true h = absurd (false≢true h)
and_not false b h = absurd (false≢true h)

module _ {P : Lobby → Type 0} (cl : Closed P) where
  pub within-Keeps : {A : Type 0} (m : Call A) → Keeps P (within m)
  within-Keeps m = record { at = λ l h. cl.consulted _ l h }

  pub mark_provider_failure-closed :
      (hotel : Option Property) (t : Text) (l : Lobby) → P l → P (mark_provider_failure hotel t l)
  mark_provider_failure-closed none t l h = h
  mark_provider_failure-closed (some p) t l h = cl.consulted _ l h

  module _ (w : Words) where
    pub hand_off-Keeps : (reason : HandoffReason) (text : Text) → Keeps P (hand_off w reason text)
    unfolding hand_off self_serve
    hand_off-Keeps reason text = record {
      at = λ l h. elim (Bool-cases (is_self_serve l.conversation)) [
        | inl alone ↦ rw alone (cl.said _ _ _ _ l h)
        | inr staffed ↦ rw staffed (cl.queued reason _ staffed (cl.said _ _ _ _ l h))
      ];
    }

    pub self_serve-closed : (reason : HandoffReason) (l : Lobby) → P l → P (self_serve w reason l).1
    unfolding self_serve
    self_serve-closed reason l h = cl.said _ _ _ _ l h

    offline_turn-closed :
        (o : Option OfflineAnswer) (reason : HandoffReason) (language : Text) (l : Lobby)
        → P l
        → P (offline_turn w o reason language l).1
    offline_turn-closed none reason language l h = (hand_off-Keeps reason _).at l h
    offline_turn-closed (some a) reason language l h =
        cl.written _ _ (refl, refl, refl) (cl.said _ _ _ _ l h)

    pub offline-closed :
        (text language : Text) (degraded : Bool) (l : Lobby)
        → P l
        → P (offline w text language degraded l).1
    unfolding offline
    offline-closed text language degraded l h =
        offline_turn-closed (w.offline_answer text language) _ language l h

    some_turn-closed : (out : Result AiError Turn × Lobby) → P out.1 → P (some_turn out).1
    some_turn-closed (ok t, l) h = h
    some_turn-closed (err e, l) h = h

    module _ (retry : Retry ChatResult)
        (reply : List ResolvedModel → ResolvedModel → Result AiError ChatResult) (frames : ℕ) where
      finish_booking-closed :
          (c : Confirmation) (d : Draft) (language : Text) (l : Lobby)
          → P l
          → P (finish_booking w retry reply frames c d language l).1
      finish_booking-closed conflict d language l h =
          cl.said _ _ _ _ _ (cl.written _ l (refl, refl, refl) h)
      finish_booking-closed invalid d language l h =
          some_turn-closed _ ((hand_off-Keeps error _).at l h)
      finish_booking-closed (confirmed code) d language l h =
          cl.said _ _ _ _ _ (cl.written _ l (refl, refl, refl) h)

      take_draft-closed :
          (o : Option Draft) (language : Text) (l : Lobby)
          → P l
          → P (take_draft w retry reply frames o language l).1
      take_draft-closed none language l h = h
      take_draft-closed (some d) language l h =
          if_case P d.cancelled _ _
            (λ gone. cl.said _ _ _ _ _ (cl.written _ l (refl, refl, refl) h))
            (λ kept.
              if_case P d.ready_to_confirm _ _
                (λ ready.
                  finish_booking-closed _ d language _ (cl.written _ l (refl, refl, refl) h))
                (λ unready. cl.said _ _ _ _ _ (cl.written _ l (refl, refl, refl) h)))

      booking_failed-closed :
          (e : AiError) (hotel : Option Property) (l : Lobby)
          → P l
          → P (booking_failed w retry reply frames e hotel l).1
      booking_failed-closed ai_disabled hotel l h = h
      booking_failed-closed ai_budget_exceeded hotel l h = h
      booking_failed-closed ai_error hotel l h = mark_provider_failure-closed hotel _ l h
      booking_failed-closed ai_timeout hotel l h = mark_provider_failure-closed hotel _ l h
      booking_failed-closed low_confidence hotel l h = mark_provider_failure-closed hotel _ l h
      booking_failed-closed value_error hotel l h = h
      booking_failed-closed recursion_error hotel l h = h
      booking_failed-closed crash hotel l h = h

      agent_answered-closed :
          (out : Result AiError ChatResult × Lobby) (hotel : Option Property) (language : Text)
          → P out.1
          → P (agent_answered w retry reply frames out hotel language).1
      agent_answered-closed (ok a, l) hotel language h = take_draft-closed _ language l h
      agent_answered-closed (err e, l) hotel language h = booking_failed-closed e hotel l h

      booking_exchange-Keeps :
          (hotel : Option Property) (text language : Text)
          → Keeps P (booking_exchange w retry reply frames hotel text language)
      booking_exchange-Keeps hotel text language = record {
        at = λ l h.
            if_case P (is_booking l.conversation.mode && w.wants_out text) _ _
              (λ out. cl.said _ _ _ _ _ (cl.written _ l (refl, refl, refl) h))
              (λ on.
                agent_answered-closed (within (chat retry reply frames (tenant_of hotel)) l) hotel
                  language ((within-Keeps (chat retry reply frames (tenant_of hotel))).at l h));
      }

      pub booking_turn-closed :
          (hotel : Option Property) (text language : Text) (l : Lobby)
          → P l
          → P (booking_turn w retry reply frames hotel text language l).1
      unfolding booking_turn
      booking_turn-closed none text language l h = h
      booking_turn-closed (some p) text language l h =
          (Keeps-bind _ _ (within-Keeps (has_model w retry reply frames (some p.pk))) (λ there.
              Keeps-if there _ _ (booking_exchange-Keeps (some p) text language)
                (Keeps-pure none))).at
            l h
