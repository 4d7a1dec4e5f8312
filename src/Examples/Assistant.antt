-- ===== src/Examples/Assistant.antt =====
-- The theorems on the digital receptionist, in a conversation at the hotel of the gateway's examples.
use fab_ai_smart_hotel_manag.Prelude.{refl, inl, true, false, none, some, [], ◌∷◌, arith, length}
use fab_ai_smart_hotel_manag.Rooms.Weekdays.{Text}
use fab_ai_smart_hotel_manag.Billing.Folio.{same_text}
use fab_ai_smart_hotel_manag.Reception.Models.{
  Conversation, kiosk, website, active, chatting, Lobby, Property,
}
use fab_ai_smart_hotel_manag.Reception.Language.{Patterns, en}
use fab_ai_smart_hotel_manag.Reception.Guardrails.{Screens, check_inbound, repeated_question}
use fab_ai_smart_hotel_manag.Reception.Words.{Words, invalid}
use fab_ai_smart_hotel_manag.Reception.Turns.{request_human}
use fab_ai_smart_hotel_manag.Reception.Turns.Queue.{IsOrderly}
use fab_ai_smart_hotel_manag.Reception.Respond.{respond}
use fab_ai_smart_hotel_manag.Reception.Respond.Escalation.{
  IsUncalled, respond-IsUncalled, opened, responded, requested, Served-IsOrderly,
}
use fab_ai_smart_hotel_manag.Reception.Respond.Cost.{
  IsUnspent, IsRefusedTurn, respond_stopped, respond_over_budget,
}
use fab_ai_smart_hotel_manag.Examples.Gateway.{retrying, reply, desk, spent_desk}

-- "?" asks for a person.
abbrev person : Text
person = b'?' ∷ []

abbrev question : Text
question = b'w' ∷ b'i' ∷ b'f' ∷ b'i' ∷ []

abbrev patterns : Patterns
patterns = record {
  strip = λ t. t;
  wants_bangla = λ t. false;
  wants_english = λ t. same_text t en;
  request_shape = λ t. false;
  word_count = λ t. 1;
  bangla_letters = λ t. 0;
  latin_letters = length;
}

abbrev screens : Screens
screens = record {
  strip = λ t. t;
  lower = λ t. t;
  contains = λ t u. false;
  human_request = same_text person;
  non_answer = λ t. false;
  promises_a_human = λ t. false;
  normalise = λ t. t;
}

abbrev words : Words
words = record {
  patterns = patterns;
  screens = screens;
  wants_booking = λ t. false;
  wants_out = λ t. false;
  notice = λ n language. [];
  unavailable_notice = λ language. [];
  greeting = λ c language. [];
  instead_of_a_human = λ c reason. [];
  question = λ c step. [];
  offline_answer = λ t language. none;
  citations = λ t answer. 1;
  error_text = λ e. [];
  dropped = λ language. [];
  failed = λ language. [];
  taken = λ language. [];
  confirmed_reply = λ d language code. [];
  finalize = λ t draft. none;
  confirm = λ c. invalid;
}

abbrev seaside : Property
seaside = record { pk = 7; kiosk_language = en }

abbrev at_the_kiosk : Conversation
at_the_kiosk = record {
  pk = 1;
  tenant = some seaside;
  channel = kiosk;
  status = active;
  language = en;
  language_confirmed = true;
  ended_at = none;
  turn_count = 3;
  total_tokens = 400;
  total_cost_usd = 20;
  handoff_reason = none;
  satisfaction = none;
  mode = chatting;
  booking_draft = [];
  reservations = [];
}

abbrev lobby : Lobby
lobby = record {
  conversation = at_the_kiosk;
  messages = [];
  handoffs = [];
  policy = none;
  settings = record {
    max_conversation_turns = 30;
    session_token_cap = 20000;
    confidence_threshold = 550;
  };
  desk = desk;
}

abbrev on_the_site : Lobby
on_the_site = record lobby { conversation = record at_the_kiosk { channel = website } }

abbrev over_the_cap : Lobby
over_the_cap = record lobby { desk = spent_desk }

respond-IsUncalled_example :
    IsUncalled website active [] (respond words retrying reply 1000 none person [] on_the_site).1
    × IsUncalled website active [] (request_human words on_the_site).1
respond-IsUncalled_example =
    respond-IsUncalled words retrying reply 1000 none person [] on_the_site refl

Served-IsOrderly_example :
    IsOrderly (request_human words (respond words retrying reply 1000 none person [] lobby).1).1
Served-IsOrderly_example =
    Served-IsOrderly words retrying reply 1000 (requested (responded none person [] opened))
      (omega arith, inl refl)

respond_stopped_example : IsUnspent lobby (respond words retrying reply 1000 none person [] lobby)
unfolding check_inbound
respond_stopped_example = respond_stopped words retrying reply 1000 none person [] lobby (inl refl)

respond_over_budget_example :
    IsRefusedTurn over_the_cap (respond words retrying reply 1000 none question [] over_the_cap)
unfolding check_inbound repeated_question
respond_over_budget_example =
    respond_over_budget words retrying reply 1000 none question [] over_the_cap refl refl refl refl
      refl refl refl (omega arith) (omega arith)
