-- ===== src/Reception/Respond/Cost.antt =====
-- services/reception/orchestrator.py, `respond`: the turns that no model is called for.
use fab_ai_smart_hotel_manag.Prelude.{
  ℕ, ◌≡◌, ◌<◌, ◌≤◌, refl, sym, subst, ◌∙◌, ap, inl, inr, ◌⊎◌, Bool, true, false, not, ◌&&◌, ◌||◌,
  Option, some, List, is_some, if◌then◌else◌,
}
use mathlib.Core.Bool.{true≢false}
use fab_ai_smart_hotel_manag.Prelude.Exec.{Result, ok, err, continue, continue-err, ok_not_err}
use fab_ai_smart_hotel_manag.Rooms.Weekdays.{Text}
use fab_ai_smart_hotel_manag.Ai.Models.{
  ResolvedModel, Desk, AiError, AiHotel, ai_available, ai_budget_exceeded,
}
use fab_ai_smart_hotel_manag.Ai.Metering.{spent}
use fab_ai_smart_hotel_manag.Ai.Gateway.{Retry, ChatResult, find_hotel, is_available}
use fab_ai_smart_hotel_manag.Ai.Gateway.Guard.{
  IsQuiet, is_available_over_budget, is_available-IsQuiet,
}
use fab_ai_smart_hotel_manag.Reception.Models.{HandoffReason, Lobby, Turn, Property}
use fab_ai_smart_hotel_manag.Reception.Language.{choose}
use fab_ai_smart_hotel_manag.Reception.Guardrails.{check_inbound, repeated_question}
use fab_ai_smart_hotel_manag.Reception.Guidance.{is_self_serve}
use fab_ai_smart_hotel_manag.Reception.Words.{Words}
use fab_ai_smart_hotel_manag.Reception.Turns.{hand_off, self_serve, queue_handoff}
use fab_ai_smart_hotel_manag.Reception.BookingTurn.{
  within, has_model, or_tenant, is_booking, booking_turn,
}
use fab_ai_smart_hotel_manag.Reception.Respond.{
  roll_back_rows, turn_language, hear, model_turn, answer_turn, checked_turn, respond_in, respond,
}

-- An answer that no model took part in: it leaves the AI services, and what the conversation has used
-- of them, as they were.
abbrev pub IsUnspent : Lobby → Result AiError Turn × Lobby → Type 0
IsUnspent l out =
    ((t : Turn) × (out.0 ≡ ok t) × (t.ai_used ≡ false))
    × (out.1.desk ≡ l.desk)
    × (out.1.conversation.total_tokens ≡ l.conversation.total_tokens)
    × (out.1.conversation.total_cost_usd ≡ l.conversation.total_cost_usd)

-- A turn that ends in `AIBudgetExceeded`: no provider is called, and no row is left of it.
abbrev pub IsRefusedTurn : Lobby → Result AiError Turn × Lobby → Type 0
IsRefusedTurn l out =
    (out.0 ≡ err ai_budget_exceeded)
    × (out.1.conversation ≡ l.conversation)
    × (out.1.messages ≡ l.messages)
    × (out.1.handoffs ≡ l.handoffs)
    × IsQuiet l.desk out.1.desk
    × (out.1.desk.configs ≡ l.desk.configs)

-- What raises so, before any call of a provider.
abbrev Raises : {A : Type 0} → Desk → Result AiError A × Lobby → Type 0
Raises d out = (out.0 ≡ err ai_budget_exceeded) × (out.1.desk.calls ≡ d.calls)

branch :
    {X : Type 0} (Q : X → Type 0) (b : Bool) (x y : X)
    → (b ≡ true → Q x)
    → (b ≡ false → Q y)
    → Q (if b then x else y)
branch Q true x y t f = t refl
branch Q false x y t f = f refl

else_case :
    {X : Type 0} (Q : X → Type 0) (b : Bool) (x y : X) → b ≡ false → Q y → Q (if b then x else y)
else_case Q b x y f q = rw f q

module _ (w : Words) (retry : Retry ChatResult)
    (reply : List ResolvedModel → ResolvedModel → Result AiError ChatResult) (frames : ℕ) where
  -- The conversation as `respond` has it when it checks the text.
  abbrev pub heard : Option Property → Text → Text → Lobby → Lobby
  heard given text picked l =
      let hotel = or_tenant given l.conversation in
      hear w retry reply frames hotel text
        (turn_language w retry reply frames hotel text picked l.conversation) l

  -- A text that the checks stop, and one that the guest has repeated, cost nothing.
  abbrev pub IsStopped : Text → Lobby → Type 0
  IsStopped text l =
      ((check_inbound w.screens l.conversation text l.policy l.settings).allowed ≡ false)
      ⊎ (repeated_question w.screens l.messages text ≡ true)

  hand_off-IsUnspent :
      (reason : HandoffReason) (text : Text) (l : Lobby) → IsUnspent l (hand_off w reason text l)
  unfolding hand_off self_serve queue_handoff
  hand_off-IsUnspent reason text l =
      branch (IsUnspent l) (is_self_serve l.conversation) _ _
        (λ alone. ((_, refl, refl), refl, refl, refl))
        (λ staffed. ((_, refl, refl), refl, refl, refl))

  checked_turn-IsUnspent :
      (hotel : Option Property) (text language : Text) (l : Lobby)
      → IsStopped text l
      → IsUnspent l (checked_turn w retry reply frames hotel text language l)
  unfolding checked_turn
  checked_turn-IsUnspent hotel text language l stopped =
      let verdict = check_inbound w.screens l.conversation text l.policy l.settings in
      branch (IsUnspent l) (not verdict.allowed) _ _
        (λ away.
          branch (IsUnspent l) verdict.hands_off _ _ (λ e. hand_off-IsUnspent _ _ l)
            (λ e. ((_, refl, refl), refl, refl, refl)))
        (λ let_in.
          branch (IsUnspent l) (repeated_question w.screens l.messages text) _ _
            (λ again. hand_off-IsUnspent _ _ l)
            (λ fresh. elim stopped [
              | inl closed ↦ absurd (true≢false (rw closed at let_in))
              | inr again ↦ absurd (true≢false (sym again ∙ fresh))
            ]))

  roll_back_rows-IsUnspent :
      (l : Lobby) (out : Result AiError Turn × Lobby)
      → IsUnspent l out
      → IsUnspent l (roll_back_rows l out)
  roll_back_rows-IsUnspent l (ok t, l') h = h
  roll_back_rows-IsUnspent l (err e, l') h = absurd (ok_not_err (sym h.0.1))

  -- No tokens are spent on a blocked turn: a text that the inbound checks do not let through, or that
  -- the guest has repeated, is answered, never with an exception, without a look at the AI services:
  -- these stay as they were, and so do the tokens and the cost of the conversation.
  pub respond_stopped :
      (given : Option Property) (text picked : Text) (l : Lobby)
      → IsStopped text (heard given text picked l)
      → IsUnspent l (respond w retry reply frames given text picked l)
  unfolding respond respond_in
  respond_stopped given text picked l stopped =
      roll_back_rows-IsUnspent l (respond_in w retry reply frames given text picked l) (
        branch (IsUnspent l)
          (not l.conversation.language_confirmed && is_some (choose w.patterns text)) _ _
          (λ named. ((_, refl, refl), refl, refl, refl))
          (λ asked. checked_turn-IsUnspent _ text _ (heard given text picked l) stopped))

  over_budget :
      (h : Property) (l : Lobby) {a : AiHotel}
      → (not l.desk.enabled || l.desk.kill_switch) ≡ false
      → find_hotel h.pk l.desk ≡ some a
      → ai_available a ≡ true
      → 0 < a.ai_daily_cost_cap
      → a.ai_daily_cost_cap ≤ spent h.pk l.desk
      → Raises l.desk (within (has_model w retry reply frames (some h.pk)) l)
  over_budget h l on found available some_cap over =
      let q =
        is_available_over_budget (some h.pk) h.pk l.desk on refl found available some_cap over in
      rw (continue-err (is_available (some h.pk) l.desk) _ q)
        (refl, (is_available-IsQuiet (some h.pk) l.desk).0)

  continue-Raises :
      {A B : Type 0} (d : Desk) (out : Result AiError A × Lobby)
      (f : A → Lobby → Result AiError B × Lobby)
      → Raises d out
      → Raises d (continue out f)
  continue-Raises d out f h = rw (continue-err out f h.0) (refl, h.1)

  answer_turn-Raises :
      (h : Property) (text language : Text) (l : Lobby)
      → Raises l.desk (within (has_model w retry reply frames (some h.pk)) l)
      → Raises l.desk (answer_turn w retry reply frames (some h) text language l)
  unfolding answer_turn booking_turn model_turn
  answer_turn-Raises h text language l over =
      branch (Raises l.desk) (is_booking l.conversation.mode || w.wants_booking text) _ _
        (λ on. continue-Raises l.desk _ _ (continue-Raises l.desk _ _ over))
        (λ off. continue-Raises l.desk _ _ over)

  roll_back_rows-Raises :
      (l : Lobby) (out : Result AiError Turn × Lobby)
      → Raises l.desk out
      → IsRefusedTurn l (roll_back_rows l out)
  roll_back_rows-Raises l (ok t, l') h = absurd (ok_not_err h.0)
  roll_back_rows-Raises l (err e, l') h = (h.0, refl, refl, refl, (h.1, refl), refl)

  -- A guest of a hotel whose day's spend has reached its cap gets no reply and no member of staff:
  -- where its AI is on, a turn whose text passes the checks, and is no bare choice of a language,
  -- raises `AIBudgetExceeded`; no provider is called, and no row of it is kept, the guest's text
  -- included.
  pub respond_over_budget :
      (given : Option Property) (text picked : Text) (l : Lobby) {h : Property} {a : AiHotel}
      → or_tenant given l.conversation ≡ some h
      → (not l.conversation.language_confirmed && is_some (choose w.patterns text)) ≡ false
      → (check_inbound w.screens
          (heard given text picked l).conversation
          text
          l.policy
          l.settings).allowed
        ≡ true
      → repeated_question w.screens (heard given text picked l).messages text ≡ false
      → (not l.desk.enabled || l.desk.kill_switch) ≡ false
      → find_hotel h.pk l.desk ≡ some a
      → ai_available a ≡ true
      → 0 < a.ai_daily_cost_cap
      → a.ai_daily_cost_cap ≤ spent h.pk l.desk
      → IsRefusedTurn l (respond w retry reply frames given text picked l)
  unfolding respond respond_in checked_turn
  respond_over_budget given text picked l {h} {a} own asked let_in fresh on found available some_cap
        over =
      let hotel = or_tenant given l.conversation in
      let language = turn_language w retry reply frames hotel text picked l.conversation in
      let before = heard given text picked l in
      let P = Raises {A = Turn} l.desk in
      let raised =
        answer_turn-Raises h text language before
          (over_budget h before on found available some_cap over) in
      roll_back_rows-Raises l (respond_in w retry reply frames given text picked l) (
        else_case P (not l.conversation.language_confirmed && is_some (choose w.patterns text)) _ _
          asked
          (else_case P
            (not
              (check_inbound w.screens before.conversation text before.policy
                before.settings).allowed)
            _ _ (ap not let_in)
            (else_case P (repeated_question w.screens before.messages text) _ _ fresh (
              subst (λ o. P (answer_turn w retry reply frames o text language before)) (sym own)
                raised))))
