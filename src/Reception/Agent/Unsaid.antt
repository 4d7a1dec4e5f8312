-- ===== src/Reception/Agent/Unsaid.antt =====
-- services/reception/booking_agent.py, `_finalize`: a turn that says nothing of the booking.
use fab_ai_smart_hotel_manag.Prelude.{
  subst, sym, take, ℕ, ◌≤◌, ◌≡◌, refl, true, Option, none, some, List, [], ◌∷◌, arith,
}
use fab_ai_smart_hotel_manag.Prelude.Int.{pos}
use fab_ai_smart_hotel_manag.Rooms.Weekdays.{Text, strip}
use fab_ai_smart_hotel_manag.Billing.Folio.{is_empty}
use fab_ai_smart_hotel_manag.Pricing.{Hotel}
use fab_ai_smart_hotel_manag.Booking.Online.{upper, max_rooms}
use fab_ai_smart_hotel_manag.Reception.Offers.{RoomOffer, by_code}
use fab_ai_smart_hotel_manag.Reception.Agent.{
  Values, Raw, Booked, as_pos, date_kept, nights_kept, rooms_kept, at_least, said_text, kept_phone,
  settle_offer, settle_room, merged, drafted, finalize, drafted,
}
use fab_ai_smart_hotel_manag.Reception.Agent.Ready.{Dated, Placed, Agreed}
use fab_ai_smart_hotel_manag.Database.{Db}

-- The model leaves out the stay, the room type and the party.
pub record IsUnsaid {V : Type 0} (p : Values V) (raw : Raw V) : Type 0 where
  pub check_in : p.is_unsaid raw.check_in ≡ true
  pub nights : p.is_unsaid raw.nights ≡ true
  pub room_code : p.is_unsaid raw.room_code ≡ true
  pub rooms : p.is_unsaid raw.rooms ≡ true
  pub adults : p.is_unsaid raw.adults ≡ true
  pub children : p.is_unsaid raw.children ≡ true

-- The same stay, room type and party.
abbrev pub SameStay : Booked → Booked → Type 0
SameStay b c =
    (b.check_in ≡ c.check_in)
    × (b.nights ≡ c.nights)
    × (b.room_code ≡ c.room_code)
    × (b.rooms ≡ c.rooms)
    × (b.adults ≡ c.adults)
    × (b.children ≡ c.children)

date_kept-same : (today : ℕ) (d n : Option ℕ) → Dated today d n → date_kept today d ≡ (d, [])
date_kept-same today none n h = absurd h
date_kept-same today (some d) none h = absurd h
date_kept-same today (some d) (some n) h = ground arith

nights_kept-same : (today : ℕ) (d n : Option ℕ) → Dated today d n → nights_kept (as_pos n) ≡ (n, [])
nights_kept-same today none n h = absurd h
nights_kept-same today (some d) none h = absurd h
nights_kept-same today (some d) (some n) h = ground arith

rooms_kept-same : (n : ℕ) → 1 ≤ n → n ≤ max_rooms → rooms_kept (some (pos n)) ≡ n
rooms_kept-same n h g = ground arith

at_least-same : (low n : ℕ) → low ≤ n → at_least low (some (pos n)) ≡ n
at_least-same low n h = ground arith

empty-upper : (t : Text) → is_empty t ≡ true → is_empty (upper t) ≡ true
empty-upper [] h = refl
empty-upper (c ∷ cs) h = ground arith

settle_offer-same :
    (hotel : ℕ) (b : Booked) (o : Option RoomOffer) (db : Db)
    → Placed hotel b o db
    → let s = settle_offer hotel b.room_code (upper (strip b.room_code)) b o db in
      (s.0.0 ≡ b.room_code) × (s.1 ≡ [])
settle_offer-same hotel b none db h = let e = empty-upper (strip b.room_code) h in rw e (refl, refl)
settle_offer-same hotel b (some o) db h = ground arith

module _ {V : Type 0} (p : Values V) (read_date : Text → Option ℕ) (raw : Raw V) (hotel : Hotel)
    (offers : List RoomOffer) (previous : Booked) (db : Db) where
  unsaid : Booked
  unsaid = record previous {
    guest_name = take 150 (strip (said_text p raw.guest_name previous.guest_name));
    guest_phone = kept_phone (said_text p raw.guest_phone previous.guest_phone);
  }

  merged-unsaid :
      Agreed hotel.pk offers previous db
      → 1 ≤ previous.adults
      → IsUnsaid p raw
      → merged p read_date raw previous db.today ≡ (unsaid, [])
  unfolding merged unsaid
  merged-unsaid h party quiet =
      rw quiet.check_in rw quiet.nights rw quiet.room_code rw quiet.rooms rw quiet.adults rw
        quiet.children rw (date_kept-same db.today previous.check_in previous.nights h.0) rw
        (nights_kept-same db.today previous.check_in previous.nights h.0) rw
        (rooms_kept-same previous.rooms h.1.0 h.1.1) rw (at_least-same 1 previous.adults party) rw
        (at_least-same 0 previous.children (omega arith)) refl

-- A turn in which the model says nothing of the stay, the room type and the party changes none of
-- them and raises no issue, where the draft has dates in range, 1 to 5 rooms, an adult at least, and a
-- room type that is among the offers and serves it, or none.
pub finalize-unsaid :
    {V : Type 0} (p : Values V) (read_date : Text → Option ℕ) (raw : Raw V) (hotel : Hotel)
    (offers : List RoomOffer) (previous : Booked) (db : Db)
    → Agreed hotel.pk offers previous db
    → 1 ≤ previous.adults
    → IsUnsaid p raw
    → SameStay (finalize p read_date raw hotel offers previous db).booking previous
      × ((finalize p read_date raw hotel offers previous db).issues ≡ [])
unfolding finalize drafted settle_room unsaid
finalize-unsaid p read_date raw hotel offers previous db h party quiet =
    let (code, clear) =
      settle_offer-same hotel.pk (unsaid p read_date raw hotel offers previous db)
        (by_code (upper (strip previous.room_code)) offers) db h.2 in
    subst
      (λ m.
        let d = drafted p read_date raw hotel offers db m in
        SameStay d.booking previous × (d.issues ≡ []))
      (sym (merged-unsaid p read_date raw hotel offers previous db h party quiet))
      ((refl, refl, code, refl, refl, refl), clear)
