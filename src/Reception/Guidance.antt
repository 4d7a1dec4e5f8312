-- ===== src/Reception/Guidance.antt =====
-- services/reception/guidance.py: what to ask next, and the channels without staff.
use fab_ai_smart_hotel_manag.Prelude.{
  Bool, true, false, Option, none, some, List, [], ◌∷◌, ◌==◌, find?, if◌then◌else◌,
}
use fab_ai_smart_hotel_manag.Rooms.Weekdays.{Text}
use fab_ai_smart_hotel_manag.Billing.Folio.{is_empty}
use fab_ai_smart_hotel_manag.Reception.Models.{
  Channel, website, Conversation, DraftKey, DraftEntry, BookingDraft, key_number, check_in, nights,
  room_code, guest_name, guest_phone,
}

-- `channel in SELF_SERVE_CHANNELS`
abbrev pub has_no_staff : Channel → Bool
has_no_staff website = true
has_no_staff _ = false

-- `is_self_serve(conversation)`
abbrev pub is_self_serve : Conversation → Bool
is_self_serve c = has_no_staff c.channel

pub data Step : Type 0 where
  start booked confirm : Step
  ask : DraftKey → Step

abbrev pub value_of : Option DraftEntry → Text
value_of none = []
value_of (some e) = e.value

-- `draft.get(key)`
abbrev pub draft_get : BookingDraft → DraftKey → Text
draft_get draft key =
    value_of (find? (λ (e : DraftEntry). key_number e.key == key_number key) draft)

-- `_REQUIRED_STEPS`
abbrev pub required_steps : List DraftKey
required_steps = check_in ∷ nights ∷ room_code ∷ guest_name ∷ guest_phone ∷ []

abbrev pub first_missing : List DraftKey → BookingDraft → Step
first_missing [] draft = confirm
first_missing (k ∷ ks) draft =
    let rest = first_missing ks draft in if is_empty (draft_get draft k) then ask k else rest

abbrev pub step_of : BookingDraft → List Text → Step
step_of [] [] = start
step_of [] (r ∷ rs) = booked
step_of (e ∷ es) reservations = first_missing required_steps (e ∷ es)

-- `next_step(conversation)`
unfoldable pub next_step : Conversation → Step
next_step c = step_of c.booking_draft c.reservations
