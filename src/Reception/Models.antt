-- ===== src/Reception/Models.antt =====
-- apps/reception/models.py, `SafetyPolicy` of apps/ai_center/models.py, and what a turn of a
-- conversation reads and writes.
--
-- Confidences and thresholds are in thousandths: the floats of the source are read as the decimals
-- they are written as.
use fab_ai_smart_hotel_manag.Prelude.{ℕ, Bool, true, false, Option, List}
use fab_ai_smart_hotel_manag.Rooms.Weekdays.{Text}
use fab_ai_smart_hotel_manag.Ai.Models.{Desk}

pub data Channel : Type 0 where
  kiosk web website pwa whatsapp phone : Channel

pub data ConversationStatus : Type 0 where
  active resolved handoff abandoned : ConversationStatus

pub data MessageRole : Type 0 where
  system guest assistant staff : MessageRole

pub data ConversationMode : Type 0 where
  chatting booking : ConversationMode

pub data HandoffReason : Type 0 where
  low_confidence repeated blocked_topic turn_limit guest_request ai_unavailable error :
      HandoffReason

-- The keys of a booking draft.
pub data DraftKey : Type 0 where
  check_in nights room_code guest_name guest_phone rooms adults children other : DraftKey

abbrev pub key_number : DraftKey → ℕ
key_number check_in = 0
key_number nights = 1
key_number room_code = 2
key_number guest_name = 3
key_number guest_phone = 4
key_number rooms = 5
key_number adults = 6
key_number children = 7
key_number other = 8

pub record DraftEntry : Type 0 where
  pub key : DraftKey
  pub value : Text

-- `booking_draft`: a value that Python takes for false is the empty text.
abbrev pub BookingDraft : Type 0
BookingDraft = List DraftEntry

-- `apps.tenants.models.Hotel`, as reception reads it
pub record Property : Type 0 where
  pub pk : ℕ
  pub kiosk_language : Text

pub record Conversation : Type 0 where
  pub pk : ℕ
  pub tenant : Option Property
  pub channel : Channel
  pub status : ConversationStatus
  pub language : Text
  pub language_confirmed : Bool
  pub ended_at : Option ℕ
  pub turn_count : ℕ
  pub total_tokens : ℕ
  pub total_cost_usd : ℕ
  pub handoff_reason : Option HandoffReason
  pub satisfaction : Option ℕ
  pub mode : ConversationMode
  pub booking_draft : BookingDraft
  pub reservations : List Text

-- `Conversation.is_open`
abbrev pub is_active : ConversationStatus → Bool
is_active active = true
is_active _ = false

abbrev pub is_open : Conversation → Bool
is_open c = is_active c.status

pub record Message : Type 0 where
  pub role : MessageRole
  pub content : Text
  pub confidence : Option ℕ
  pub input_tokens : ℕ
  pub output_tokens : ℕ

abbrev pub is_guest : MessageRole → Bool
is_guest guest = true
is_guest _ = false

pub record Handoff : Type 0 where
  pub pk : ℕ
  pub conversation : ℕ
  pub reason : HandoffReason
  pub claimed_by : Option ℕ
  pub claimed_at : Option ℕ
  pub resolved_at : Option ℕ

-- The fields of `SafetyPolicy` that reception reads.
pub record SafetyPolicy : Type 0 where
  pub confidence_threshold : ℕ
  pub max_conversation_turns : ℕ
  pub session_token_cap : ℕ
  pub blocked_topics : List Text

-- `settings.AI`: `MAX_CONVERSATION_TURNS`, `SESSION_TOKEN_CAP` and `CONFIDENCE_THRESHOLD`
pub record AiSettings : Type 0 where
  pub max_conversation_turns : ℕ
  pub session_token_cap : ℕ
  pub confidence_threshold : ℕ

-- One conversation with its messages, the oldest first, the queue of handoffs, the hotel's policy,
-- and the state of the AI services.
pub record Lobby : Type 0 where
  pub conversation : Conversation
  pub messages : List Message
  pub handoffs : List Handoff
  pub policy : Option SafetyPolicy
  pub settings : AiSettings
  pub desk : Desk

-- `Turn`
pub record Turn : Type 0 where
  pub reply : Text
  pub confidence : ℕ
  pub hands_off : Bool
  pub handoff_reason : Option HandoffReason
  pub ai_used : Bool
  pub reservation_code : Option Text
  pub language : Text
