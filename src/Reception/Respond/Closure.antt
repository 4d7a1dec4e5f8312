-- ===== src/Reception/Respond/Closure.antt =====
-- services/reception/orchestrator.py, `respond`: a rule for the invariants of a turn.
use fab_ai_smart_hotel_manag.Prelude.{
  ℕ, true, false, not, ◌&&◌, ◌||◌, Option, none, some, List, refl, is_some, ltb,
}
use fab_ai_smart_hotel_manag.Prelude.Exec.{Result, ok, err}
use fab_ai_smart_hotel_manag.Prelude.Keeps.{Keeps, Keeps-bind, Keeps-if}
use fab_ai_smart_hotel_manag.Rooms.Weekdays.{Text}
use fab_ai_smart_hotel_manag.Ai.Models.{
  ResolvedModel, AiError, ai_error, low_confidence, ai_disabled, ai_budget_exceeded, ai_timeout,
  value_error, recursion_error, crash,
}
use fab_ai_smart_hotel_manag.Ai.Gateway.{Retry, ChatResult, chat}
use fab_ai_smart_hotel_manag.Reception.Models.{Lobby, Turn, Property, assistant}
use fab_ai_smart_hotel_manag.Reception.Language.{choose}
use fab_ai_smart_hotel_manag.Reception.Guardrails.{
  check_inbound, check_outbound, confidence_of, repeated_question,
}
use fab_ai_smart_hotel_manag.Reception.Guidance.{is_self_serve}
use fab_ai_smart_hotel_manag.Reception.Words.{Words}
use fab_ai_smart_hotel_manag.Reception.Turns.{record_message, charge}
use fab_ai_smart_hotel_manag.Reception.BookingTurn.{
  within, is_booking, has_model, tenant_of, booking_turn,
}
use fab_ai_smart_hotel_manag.Reception.Respond.{
  roll_back_rows, threshold, deliver, model_failed, model_answered, model_turn, or_model,
  answer_turn, checked_turn, respond_in, respond,
}
use fab_ai_smart_hotel_manag.Reception.BookingTurn.Invariants.{
  Closed, if_case, and_not, within-Keeps, mark_provider_failure-closed, hand_off-Keeps,
  self_serve-closed, offline-closed, booking_turn-closed,
}

module _ {P : Lobby → Type 0} (cl : Closed P) where
  after_rows :
      (l : Lobby) (out : Result AiError Turn × Lobby) → P l → P out.1 → P (roll_back_rows l out).1
  after_rows l (ok t, l') h h' = h'
  after_rows l (err e, l') h h' = cl.consulted _ l h

  module _ (w : Words) where
    module _ (retry : Retry ChatResult)
        (reply : List ResolvedModel → ResolvedModel → Result AiError ChatResult) (frames : ℕ) where
      deliver-closed :
          (a : ChatResult) (text language : Text) (l : Lobby)
          → P l
          → P (deliver w retry reply frames a text language l).1
      unfolding deliver
      deliver-closed a text language l h =
          let answer = w.screens.strip a.text in
          let confidence = confidence_of w.screens answer (w.citations text answer) in
          let outbound = check_outbound w.screens answer in
          let alone = is_self_serve l.conversation in
          if_case P (not outbound.allowed) _ _ (λ empty. (hand_off-Keeps cl w _ _).at l h)
            (λ written.
              if_case P (alone && (outbound.hands_off || w.screens.promises_a_human answer)) _ _
                (λ promised. self_serve-closed cl w _ _ (charged l h))
                (λ fine.
                  if_case P
                    ((outbound.hands_off || ltb confidence (threshold l.policy l.settings))
                      && not alone)
                    _ _
                    (λ thin.
                      cl.queued _ _ (and_not _ (is_self_serve l.conversation) thin) (kept _ _))
                    (λ sure. kept _ _)))
        where
          charged : (l' : Lobby) → P l' → P (charge a l')
          charged l' h' = cl.written _ l' (refl, refl, refl) h'

          kept :
              (answer : Text) (confidence : Option ℕ)
              → P (charge a (record_message assistant answer confidence a.usage l))
          kept answer confidence = charged _ (cl.said _ _ _ _ l h)

      model_failed-closed :
          (e : AiError) (hotel : Option Property) (text language : Text) (l : Lobby)
          → P l
          → P (model_failed w retry reply frames e hotel text language l).1
      model_failed-closed ai_disabled hotel text language l h = (hand_off-Keeps cl w _ _).at l h
      model_failed-closed ai_budget_exceeded hotel text language l h =
          (hand_off-Keeps cl w _ _).at l h
      model_failed-closed ai_error hotel text language l h =
          offline-closed cl w text language true _ (mark_provider_failure-closed cl hotel _ l h)
      model_failed-closed ai_timeout hotel text language l h =
          offline-closed cl w text language true _ (mark_provider_failure-closed cl hotel _ l h)
      model_failed-closed low_confidence hotel text language l h =
          offline-closed cl w text language true _ (mark_provider_failure-closed cl hotel _ l h)
      model_failed-closed value_error hotel text language l h = h
      model_failed-closed recursion_error hotel text language l h = h
      model_failed-closed crash hotel text language l h = h

      model_answered-closed :
          (out : Result AiError ChatResult × Lobby) (hotel : Option Property) (text language : Text)
          → P out.1
          → P (model_answered w retry reply frames out hotel text language).1
      model_answered-closed (ok a, l) hotel text language h = deliver-closed a text language l h
      model_answered-closed (err e, l) hotel text language h =
          model_failed-closed e hotel text language l h

      model_turn-closed :
          (hotel : Option Property) (text language : Text) (l : Lobby)
          → P l
          → P (model_turn w retry reply frames hotel text language l).1
      unfolding model_turn
      model_turn-closed hotel text language l h =
          let m = within (has_model w retry reply frames (tenant_of hotel)) in
          (Keeps-bind m _ (within-Keeps cl (has_model w retry reply frames (tenant_of hotel)))
              (λ there.
                Keeps-if there _ _
                  (record {
                    at = λ l' h'.
                        model_answered-closed
                          (within (chat retry reply frames (tenant_of hotel)) l') hotel text
                          language
                          ((within-Keeps cl (chat retry reply frames (tenant_of hotel))).at l' h');
                  })
                  (record { at = offline-closed cl w text language false }))).at
            l h

      or_model-Keeps :
          (hotel : Option Property) (text language : Text) (o : Option Turn)
          → Keeps P (or_model w retry reply frames hotel text language o)
      or_model-Keeps hotel text language (some t) = record { at = λ l h. h }
      or_model-Keeps hotel text language none = record {
        at = model_turn-closed hotel text language;
      }

      answer_turn-closed :
          (hotel : Option Property) (text language : Text) (l : Lobby)
          → P l
          → P (answer_turn w retry reply frames hotel text language l).1
      unfolding answer_turn
      answer_turn-closed hotel text language l h =
          if_case P (is_booking l.conversation.mode || w.wants_booking text) _ _
            (λ on.
              (Keeps-bind (booking_turn w retry reply frames hotel text language) _
                  (record { at = booking_turn-closed cl w retry reply frames hotel text language })
                  (or_model-Keeps hotel text language)).at
                l h)
            (λ off. model_turn-closed hotel text language l h)

      checked_turn-closed :
          (hotel : Option Property) (text language : Text) (l : Lobby)
          → P l
          → P (checked_turn w retry reply frames hotel text language l).1
      unfolding checked_turn
      checked_turn-closed hotel text language l h =
          let verdict = check_inbound w.screens l.conversation text l.policy l.settings in
          if_case P (not verdict.allowed) _ _
            (λ stopped.
              if_case P verdict.hands_off _ _ (λ escalates. (hand_off-Keeps cl w _ _).at l h)
                (λ told. h))
            (λ allowed.
              if_case P (repeated_question w.screens l.messages text) _ _
                (λ again. (hand_off-Keeps cl w _ _).at l h)
                (λ fresh. answer_turn-closed hotel text language l h))

      -- A turn preserves whatever its steps preserve.
      pub respond-Keeps :
          (given : Option Property) (text picked : Text)
          → Keeps P (respond w retry reply frames given text picked)
      unfolding respond respond_in
      respond-Keeps given text picked = record {
        at = λ l h.
            let heard = cl.said _ _ _ _ _ (cl.written _ l (refl, refl, refl) h) in
            after_rows l (respond_in w retry reply frames given text picked l) h (
              if_case P (not l.conversation.language_confirmed && is_some (choose w.patterns text))
                _ _ (λ named. cl.written _ _ (refl, refl, refl) (cl.said _ _ _ _ _ heard))
                (λ asked. checked_turn-closed _ text _ _ heard));
      }
