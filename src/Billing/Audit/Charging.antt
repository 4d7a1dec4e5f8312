-- ===== src/Billing/Audit/Charging.antt =====
-- services/billing/folio.py, `run_night_audit`: what its loops keep, when charges and openings keep it.
use fab_ai_smart_hotel_manag.Prelude.{
  ℕ, Bool, true, false, not, Option, none, some, List, [], ◌∷◌, ◌==◌, any, filter, find?, leb,
}
use fab_ai_smart_hotel_manag.Prelude.Int.{◌+ℤ◌, is_zero_ℤ}
use fab_ai_smart_hotel_manag.Prelude.Keeps.{
  Keeps, Keeps-bind, Keeps-gets, Keeps-pure, Keeps-or_raise, Keeps-if,
}
use fab_ai_smart_hotel_manag.Rooms.{RatePlan, RoomType}
use fab_ai_smart_hotel_manag.Pricing.{Hotel, nightly_rate, percent_of}
use fab_ai_smart_hotel_manag.Billing.Models.{ChargeType}
use fab_ai_smart_hotel_manag.Billing.Folio.{Charge, post_charge, open_folio}
use fab_ai_smart_hotel_manag.Billing.Audit.{
  Charged, with_night, night_charge, post_if, charge_night, charge_rooms, is_night, plan_of,
  charge_folio, charge_stay, charge_stays,
}
use fab_ai_smart_hotel_manag.Booking.Models.{Reservation, Allocation}
use fab_ai_smart_hotel_manag.Booking.Inventory.{of_reservation}
use fab_ai_smart_hotel_manag.Database.{Db, does_not_exist, get_room_type}

module _ (P : Db → Type 0) (posts : (pk : ℕ) (c : Charge) → Keeps P (post_charge pk c))
    (opens : (r : Reservation) → Keeps P (open_folio r)) where
  post_if-Keeps : (b : Bool) (pk : ℕ) (c : Charge) → Keeps P (post_if b pk c)
  post_if-Keeps true pk c = Keeps-bind _ _ (posts pk c) λ _. Keeps-pure tt
  post_if-Keeps false pk c = Keeps-pure tt

  get_room_type-Keeps : (pk : ℕ) → Keeps P (get_room_type pk)
  get_room_type-Keeps pk =
      Keeps-bind _ _ (Keeps-gets (λ (db : Db). find? (λ (t : RoomType). t.pk == pk) db.room_types))
        λ t. Keeps-or_raise t does_not_exist

  module _ (hotel : Hotel) (day : ℕ) where
    charge_night-Keeps :
        (plan : Option RatePlan) (folio : ℕ) (a : Allocation) (sums : Charged)
        → Keeps P (charge_night hotel day plan folio a sums)
    unfolding charge_night
    charge_night-Keeps plan folio a sums = Keeps-bind _ _ (get_room_type-Keeps a.room_type) λ t.
        Keeps-bind _ _ (Keeps-gets (λ (db : Db). nightly_rate db.room_rates t plan day)) λ priced.
          let rate = priced.0 in
          let service = percent_of rate hotel.service_charge_rate in
          let tax = percent_of (rate +ℤ service) hotel.tax_rate in
          Keeps-bind _ _ (posts folio (night_charge ChargeType.room rate day (some a.pk))) λ _.
            Keeps-bind _ _
              (post_if-Keeps (not (is_zero_ℤ service)) folio
                (night_charge ChargeType.service service day none))
              λ _.
                Keeps-bind _ _
                  (post_if-Keeps (not (is_zero_ℤ tax)) folio
                    (night_charge ChargeType.tax tax day none))
                  λ _. Keeps-pure (with_night sums (rate +ℤ service +ℤ tax))

    charge_rooms-Keeps :
        (plan : Option RatePlan) (folio : ℕ) (as' : List Allocation) (sums : Charged)
        → Keeps P (charge_rooms hotel day plan folio as' sums)
    unfolding charge_rooms
    charge_rooms-Keeps plan folio [] sums = Keeps-pure sums
    charge_rooms-Keeps plan folio (a ∷ as') sums =
        let rest = charge_rooms-Keeps plan folio as' in
        Keeps-bind _ _ (charge_night-Keeps plan folio a sums) rest

    charge_folio-Keeps :
        (r : Reservation) (sums : Charged) → Keeps P (charge_folio hotel day r sums)
    unfolding charge_folio
    charge_folio-Keeps r sums = Keeps-bind _ _ (opens r) λ folio.
        Keeps-bind _ _ (Keeps-gets (λ (db : Db). any (is_night folio.pk day) db.lines)) λ already.
          Keeps-bind _ _ (Keeps-gets (plan_of r)) λ plan.
            Keeps-bind _ _ (Keeps-gets (λ (db : Db). filter (of_reservation r.pk) db.allocations))
              λ as'.
                Keeps-if already _ _ (Keeps-pure sums) (charge_rooms-Keeps plan folio.pk as' sums)

    pub charge_stays-Keeps :
        (rs : List Reservation) (sums : Charged) → Keeps P (charge_stays hotel day rs sums)
    unfolding charge_stays charge_stay
    charge_stays-Keeps [] sums = Keeps-pure sums
    charge_stays-Keeps (r ∷ rs) sums =
        let rest = charge_stays-Keeps rs in
        Keeps-bind _ _
          (Keeps-if (leb r.check_out day) _ _ (Keeps-pure sums) (charge_folio-Keeps r sums)) rest
