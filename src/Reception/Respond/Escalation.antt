-- ===== src/Reception/Respond/Escalation.antt =====
-- services/reception/orchestrator.py: when staff are called.
use fab_ai_smart_hotel_manag.Prelude.{
  ℕ, ◌≡◌, refl, sym, ◌∙◌, inl, inr, true, not, ◌||◌, Option, some, List, any, find?, ◌==◌,
  Bool-cases,
}
use mathlib.Core.Bool.{false≢true}
use fab_ai_smart_hotel_manag.Prelude.Exec.{Result}
use fab_ai_smart_hotel_manag.Rooms.Weekdays.{Text}
use fab_ai_smart_hotel_manag.Billing.Folio.{is_empty}
use fab_ai_smart_hotel_manag.Ai.Models.{ResolvedModel, AiError}
use fab_ai_smart_hotel_manag.Ai.Gateway.{Retry, ChatResult}
use fab_ai_smart_hotel_manag.Reception.Models.{
  Channel, ConversationStatus, Handoff, Message, Lobby, Property, guest_request, is_open, is_guest,
}
use fab_ai_smart_hotel_manag.Reception.Guidance.{has_no_staff, next_step}
use fab_ai_smart_hotel_manag.Reception.Words.{Words}
use fab_ai_smart_hotel_manag.Reception.Turns.{
  claim, close, resolve_handoff, request_human, nudge, is_waiting,
}
use fab_ai_smart_hotel_manag.Reception.Turns.Queue.{
  IsOrderly, queue_handoff-IsOrderly, claim-IsOrderly, close-IsOrderly, resolve_handoff-IsOrderly,
}
use fab_ai_smart_hotel_manag.Reception.Respond.{respond}
use fab_ai_smart_hotel_manag.Reception.BookingTurn.Invariants.{Closed, hand_off-Keeps}
use fab_ai_smart_hotel_manag.Reception.Respond.Closure.{respond-Keeps}

-- The queue and the status as they were, on a channel without staff.
abbrev pub IsUncalled : Channel → ConversationStatus → List Handoff → Lobby → Type 0
IsUncalled ch status rows l =
    (l.conversation.channel ≡ ch) × (l.conversation.status ≡ status) × (l.handoffs ≡ rows)

IsUncalled-Closed :
    (ch : Channel) (status : ConversationStatus) (rows : List Handoff)
    → has_no_staff ch ≡ true
    → Closed (IsUncalled ch status rows)
IsUncalled-Closed ch status rows alone = record {
  said = λ role text confidence usage l h. h;
  written = λ c l same h. (same.1 ∙ h.0, same.2 ∙ h.1, h.2);
  consulted = λ d l h. h;
  queued = λ reason l staffed h. absurd (false≢true (sym staffed ∙ (rw h.0 alone)));
}

IsOrderly-Closed : Closed IsOrderly
IsOrderly-Closed = record {
  said = λ role text confidence usage l h. h;
  written = λ c l same h. rw (same.0, same.2) h;
  consulted = λ d l h. h;
  queued = λ reason l staffed h. queue_handoff-IsOrderly reason l h;
}

module _ (w : Words) (retry : Retry ChatResult)
    (reply : List ResolvedModel → ResolvedModel → Result AiError ChatResult) (frames : ℕ) where
  -- Nobody is called on a channel that no member of staff reads: whatever the guest writes there,
  -- and however the model, the provider and the booking agent behave, a turn leaves the queue and the
  -- conversation's status as they were; so does the request for a person.
  pub respond-IsUncalled :
      (given : Option Property) (text picked : Text) (l : Lobby)
      → has_no_staff l.conversation.channel ≡ true
      → IsUncalled l.conversation.channel l.conversation.status l.handoffs
          (respond w retry reply frames given text picked l).1
        × IsUncalled l.conversation.channel l.conversation.status l.handoffs (request_human w l).1
  unfolding request_human
  respond-IsUncalled given text picked l alone =
      let closed =
        IsUncalled-Closed l.conversation.channel l.conversation.status l.handoffs alone in
      (
        (respond-Keeps closed w retry reply frames given text picked).at l (refl, refl, refl),
        (hand_off-Keeps closed w guest_request _).at l (refl, refl, refl),
      )

  -- What happens to a conversation: turns, requests for a person, nudges, its closing, and what staff
  -- do with the row that waits for it.
  pub data Served : Lobby → Lobby → Type 0 where
    opened : {l : Lobby} → Served l l
    responded :
        {l l' : Lobby} (given : Option Property) (text picked : Text)
        → Served l l'
        → Served l (respond w retry reply frames given text picked l').1
    requested : {l l' : Lobby} → Served l l' → Served l (request_human w l').1
    nudged : {l l' : Lobby} → Served l l' → Served l (nudge w l').1
    claimed : {l l' : Lobby} (pk user : ℕ) → Served l l' → Served l (claim pk user l')
    closed :
        {l l' : Lobby} (satisfaction : Option ℕ) → Served l l' → Served l (close satisfaction l')
    settled :
        {l l' : Lobby} {h : Handoff} (pk : ℕ)
        → find? (λ (x : Handoff). x.pk == pk) l'.handoffs ≡ some h
        → is_waiting l'.conversation.pk h ≡ true
        → Served l l'
        → Served l (resolve_handoff pk l')

  request_human-IsOrderly : (l : Lobby) → IsOrderly l → IsOrderly (request_human w l).1
  unfolding request_human
  request_human-IsOrderly l h = (hand_off-Keeps IsOrderly-Closed w guest_request _).at l h

  nudge-IsOrderly : (l : Lobby) → IsOrderly l → IsOrderly (nudge w l).1
  unfolding nudge
  nudge-IsOrderly l h =
      elim (Bool-cases
        (not (is_open l.conversation) || not (any (λ (m : Message). is_guest m.role) l.messages))) [
          | inl silent ↦ rw silent h
          | inr due ↦
              elim (Bool-cases (is_empty (w.question l.conversation (next_step l.conversation)))) [
                | inl nothing ↦ rw (due, nothing) h
                | inr something ↦ rw (due, something) h
              ]
        ]

  -- However a conversation goes, the queue stays orderly: at most one row waits for it at any time,
  -- and while one does the conversation is marked as handed over.
  pub Served-IsOrderly : {l l' : Lobby} → Served l l' → IsOrderly l → IsOrderly l'
  Served-IsOrderly opened h = h
  Served-IsOrderly (responded given text picked s) h =
      (respond-Keeps IsOrderly-Closed w retry reply frames given text picked).at _
        (Served-IsOrderly s h)
  Served-IsOrderly (requested s) h = request_human-IsOrderly _ (Served-IsOrderly s h)
  Served-IsOrderly (nudged s) h = nudge-IsOrderly _ (Served-IsOrderly s h)
  Served-IsOrderly (claimed {l' = before} pk user s) h =
      claim-IsOrderly pk user before (Served-IsOrderly s h)
  Served-IsOrderly (closed {l' = before} n s) h = close-IsOrderly n before (Served-IsOrderly s h)
  Served-IsOrderly (settled {l' = before} pk found waits s) h =
      resolve_handoff-IsOrderly pk before found waits (Served-IsOrderly s h)
