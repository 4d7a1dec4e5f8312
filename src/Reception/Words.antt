-- ===== src/Reception/Words.antt =====
-- services/reception: what a turn takes from the texts: sentences, tests, and the answers that are
-- read out of them.
use fab_ai_smart_hotel_manag.Prelude.{ℕ, Bool, Option}
use fab_ai_smart_hotel_manag.Rooms.Weekdays.{Text}
use fab_ai_smart_hotel_manag.Ai.Models.{AiError}
use fab_ai_smart_hotel_manag.Reception.Models.{Conversation, HandoffReason, BookingDraft}
use fab_ai_smart_hotel_manag.Reception.Language.{Patterns}
use fab_ai_smart_hotel_manag.Reception.Guardrails.{Notice, Screens}
use fab_ai_smart_hotel_manag.Reception.Guidance.{Step}

pub record OfflineAnswer : Type 0 where
  pub text : Text
  pub confidence : ℕ

-- `Draft`
pub record Draft : Type 0 where
  pub reply : Text
  pub booking : BookingDraft
  pub ready_to_confirm : Bool
  pub cancelled : Bool

-- How `booking_agent.confirm` ends: with a reservation's code, `Conflict` or `ValidationError`.
pub data Confirmation : Type 0 where
  confirmed : Text → Confirmation
  conflict invalid : Confirmation

-- The texts of a turn and the tests of a text: the regular expressions, the fixed sentences, the
-- answers from the hotel's record, and what the booking agent makes of a model's answer.
pub record Words : Type 0 where
  pub patterns : Patterns
  pub screens : Screens
  pub wants_booking : Text → Bool
  pub wants_out : Text → Bool
  pub notice : Notice → Text → Text
  pub unavailable_notice : Text → Text
  pub greeting : Conversation → Text → Text
  pub instead_of_a_human : Conversation → HandoffReason → Text
  pub question : Conversation → Step → Text
  pub offline_answer : Text → Text → Option OfflineAnswer
  pub citations : Text → Text → ℕ
  pub error_text : AiError → Text
  pub dropped : Text → Text
  pub failed : Text → Text
  pub taken : Text → Text
  pub confirmed_reply : Draft → Text → Text → Text
  pub finalize : Text → BookingDraft → Option Draft
  pub confirm : Conversation → Confirmation
