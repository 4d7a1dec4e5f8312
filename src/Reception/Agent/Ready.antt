-- ===== src/Reception/Agent/Ready.antt =====
-- services/reception/booking_agent.py, `_finalize`: what a draft that is ready comes to.
use fab_ai_smart_hotel_manag.Prelude.{
  ℕ, ◌+◌, ◌*◌, ◌≤◌, ◌≡◌, refl, sym, inl, inr, Bool, true, false, not, ◌&&◌, Option, none, some,
  is_some, List, [], ◌∷◌, ◌++◌, arith, Bool-cases, subst,
}
use fab_ai_smart_hotel_manag.Prelude.Int.{ℤ, pos}
use fab_ai_smart_hotel_manag.Rooms.Weekdays.{Text, strip}
use fab_ai_smart_hotel_manag.Billing.Folio.{is_empty}
use fab_ai_smart_hotel_manag.Pricing.{Hotel}
use fab_ai_smart_hotel_manag.Booking.Online.{upper, max_nights, max_advance_days, max_rooms}
use fab_ai_smart_hotel_manag.Booking.Online.Bounds.{clamp-within}
use fab_ai_smart_hotel_manag.Reception.Offers.{RoomOffer, by_code}
use fab_ai_smart_hotel_manag.Reception.Agent.{
  Values, Raw, Booked, Issue, date_kept, nights_kept, rooms_kept, said_date, said_int, as_pos,
  has_nights, is_complete, no_issues, free_rooms_of, settle_offer, settle_room, merged, drafted,
  finalize,
}
use fab_ai_smart_hotel_manag.Database.{Db}

-- The dates of a draft: an arrival between today and a year from now, and 1 to 30 nights.
abbrev pub Dated : ℕ → Option ℕ → Option ℕ → Type 0
Dated today (some d) (some n) =
    ((today ≤ d) × (d ≤ today + max_advance_days)) × ((1 ≤ n) × (n ≤ max_nights))
Dated today (some d) none = ⊥
Dated today none n = ⊥

-- An offer that sleeps the guests of the draft and has its rooms free on its dates.
abbrev pub Serves : ℕ → Booked → RoomOffer → Db → Type 0
Serves hotel b o db =
    (b.adults + b.children ≤ o.max_occupancy * b.rooms)
    × (b.rooms ≤ free_rooms_of hotel o b.check_in b.nights db)

-- The room type of a draft: one of the offers, which serves it; or a code of blanks.
abbrev pub Placed : ℕ → Booked → Option RoomOffer → Db → Type 0
Placed hotel b none db = is_empty (strip b.room_code) ≡ true
Placed hotel b (some o) db = Serves hotel b o db

-- What a draft comes to that the guest may confirm.
abbrev pub Agreed : ℕ → List RoomOffer → Booked → Db → Type 0
Agreed hotel offers b db =
    Dated db.today b.check_in b.nights
    × ((1 ≤ b.rooms) × (b.rooms ≤ max_rooms))
    × Placed hotel b (by_code (upper (strip b.room_code)) offers) db

upper-empty : (t : Text) → is_empty (upper t) ≡ true → is_empty t ≡ true
upper-empty [] h = refl
upper-empty (c ∷ cs) h = ground arith

kept-Dated :
    (today : ℕ) (d : Option ℕ) (n : Option ℤ)
    → is_some (date_kept today d).0 ≡ true
    → has_nights (nights_kept n).0 ≡ true
    → Dated today (date_kept today d).0 (nights_kept n).0
kept-Dated today none n h g = ground arith
kept-Dated today (some d) none h g = ground arith
kept-Dated today (some d) (some v) h g =
    let within = clamp-within 1 max_nights v (omega arith) in ground arith

rooms_kept-within : (v : Option ℤ) → (1 ≤ rooms_kept v) × (rooms_kept v ≤ max_rooms)
rooms_kept-within none = (omega arith, omega arith)
rooms_kept-within (some v) = clamp-within 1 max_rooms v (omega arith)

settled-Placed :
    (hotel : ℕ) (b : Booked) (o : Option RoomOffer) (db : Db)
    → is_empty (settle_offer hotel b.room_code (upper (strip b.room_code)) b o db).0.0 ≡ false
    → (Placed hotel b o db)
      × ((settle_offer hotel b.room_code (upper (strip b.room_code)) b o db).0.0 ≡ b.room_code)
settled-Placed hotel b none db h = elim (Bool-cases (is_empty (upper (strip b.room_code)))) [
  | inl e ↦ (upper-empty (strip b.room_code) e, rw e refl)
  | inr e ↦ ground arith
]
settled-Placed hotel b (some o) db h = ground arith

is_complete-parts :
    (b : Booked)
    → is_complete b ≡ true
    → (is_some b.check_in ≡ true) × (has_nights b.nights ≡ true) × (is_empty b.room_code ≡ false)
is_complete-parts b h = ground arith

no_issues-none : (issues : List Issue) → no_issues issues ≡ true → issues ≡ []
no_issues-none [] h = refl
no_issues-none (i ∷ issues) h = ground arith

ready-parts :
    (unasked complete clear : Bool)
    → not unasked && complete && clear ≡ true
    → (unasked ≡ false) × (complete ≡ true) × (clear ≡ true)
ready-parts unasked complete clear h = ground arith

settled-Agreed :
    (hotel : ℕ) (offers : List RoomOffer) (b : Booked) (db : Db)
    → (is_some b.check_in ≡ true → has_nights b.nights ≡ true → Dated db.today b.check_in b.nights)
    → (1 ≤ b.rooms) × (b.rooms ≤ max_rooms)
    → is_complete (record b { room_code = (settle_room hotel b offers db).0.0 }) ≡ true
    → Agreed hotel offers (record b { room_code = (settle_room hotel b offers db).0.0 }) db
unfolding settle_room
settled-Agreed hotel offers b db dated rooms h =
    let text = (settle_room hotel b offers db).0.0 in
    let (there, nights, code) = is_complete-parts (record b { room_code = text }) h in
    let (placed, same) =
      settled-Placed hotel b (by_code (upper (strip b.room_code)) offers) db code in
    subst (λ (t : Text). Agreed hotel offers (record b { room_code = t }) db) (sym same)
      (dated there nights, rooms, placed)

-- A draft that is ready to be confirmed, whatever the model and the guest have said: it has no issue,
-- an arrival between today and 365 days from now, 1 to 30 nights and 1 to 5 rooms; and its room type
-- is one of the offers, which sleeps the guests in that many rooms and has that many free on the
-- dates, unless its code is made of blanks.
pub finalize-Agreed :
    {V : Type 0} (p : Values V) (read_date : Text → Option ℕ) (raw : Raw V) (hotel : Hotel)
    (offers : List RoomOffer) (previous : Booked) (db : Db)
    → (finalize p read_date raw hotel offers previous db).ready_to_confirm ≡ true
    → ((finalize p read_date raw hotel offers previous db).issues ≡ [])
      × Agreed hotel.pk offers (finalize p read_date raw hotel offers previous db).booking db
unfolding finalize drafted merged
finalize-Agreed p read_date raw hotel offers previous db h =
    let m = merged p read_date raw previous db.today in
    let room = settle_room hotel.pk m.0 offers db in
    let (asked, complete, clear) =
      ready-parts (p.is_false raw.ready_to_confirm)
        (is_complete (record m.0 { room_code = room.0.0 })) (no_issues (m.1 ++ room.1)) h in
    (
      no_issues-none (m.1 ++ room.1) clear,
      settled-Agreed hotel.pk offers m.0 db
          (kept-Dated db.today (said_date p read_date raw.check_in previous.check_in)
            (said_int p raw.nights (as_pos previous.nights)))
          (rooms_kept-within (said_int p raw.rooms (some (pos previous.rooms)))) complete,
    )
