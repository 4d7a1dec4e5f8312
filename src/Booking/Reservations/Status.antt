-- ===== src/Booking/Reservations/Status.antt =====
-- services/booking/reservations.py: the life of a reservation, and its hold on the inventory.
use fab_ai_smart_hotel_manag.Prelude.{
  ℕ, ◌≡◌, refl, ap, sym, ◌⊎◌, inl, inr, Bool, true, false, some, List, [], ◌∷◌, arith, ◌==◌, find?,
  find?-head, find?-tail, any, update_where, All, All-update, All-map, Bool-cases, if◌then◌else◌,
  subst,
}
use fab_ai_smart_hotel_manag.Booking.Models.{Reservation, Allocation, holds_inventory}
use fab_ai_smart_hotel_manag.Booking.Inventory.{of_reservation, unblock, double_booked, clashes}
use fab_ai_smart_hotel_manag.Database.{Db}

-- The flag of each live allocation says whether its reservation holds inventory.
abbrev pub FlagOf : Reservation → Allocation → Type 0
FlagOf r a = of_reservation r.pk a ≡ true → a.blocks_inventory ≡ holds_inventory r.status

abbrev pub Agree : List Reservation → List Allocation → Type 0
Agree reservations allocations = All (λ r. All (FlagOf r) allocations) reservations

-- No two reservations have the same key.
abbrev pub Keyed : List Reservation → Type 0
Keyed [] = Unit
Keyed (r ∷ rs) = All (λ s. (s.pk == r.pk) ≡ false) rs × Keyed rs

-- The inventory follows the reservations, and no room is booked twice.
pub record IsConsistent (reservations : List Reservation) (allocations : List Allocation)
    : Type 0 where
  pub flags_agree : Agree reservations allocations
  pub booked_once : double_booked allocations ≡ false
  pub keyed : Keyed reservations

abbrev pub IsSound : Db → Type 0
IsSound db = IsConsistent db.reservations db.allocations

pub Keyed-update :
    (q : Reservation → Bool) (f : Reservation → Reservation) (rs : List Reservation)
    → ((r : Reservation) → (f r).pk ≡ r.pk)
    → Keyed rs
    → Keyed (update_where q f rs)
Keyed-update q f [] same h = tt
Keyed-update q f (r ∷ rs) same h = (apart (Bool-cases (q r)), Keyed-update q f rs same h.1)
  where
    others : All (λ s. (s.pk == r.pk) ≡ false) (update_where q f rs)
    others =
        All-update (λ s. (s.pk == r.pk) ≡ false) (λ s. (s.pk == r.pk) ≡ false) q f rs
          (λ s h _. subst (λ (k : ℕ). (k == r.pk) ≡ false) (sym (same s)) h) (λ s h _. h) h.0

    apart :
        (q r ≡ true) ⊎ (q r ≡ false)
        → All (λ s. (s.pk == (if q r then f r else r).pk) ≡ false) (update_where q f rs)
    apart (inl t) = rw t (
        subst (λ (k : ℕ). All (λ s. (s.pk == k) ≡ false) (update_where q f rs)) (sym (same r))
          others)
    apart (inr n) = rw n others

-- The row that is found is the only one with its key.
pub found_only :
    (pk : ℕ) (rs : List Reservation) {x : Reservation}
    → Keyed rs
    → find? (λ (r : Reservation). r.pk == pk) rs ≡ some x
    → All (λ r. (r.pk == pk) ≡ true → r.status ≡ x.status) rs
found_only pk [] h e = tt
found_only pk (r ∷ rs) {x} h e = elim (Bool-cases (r.pk == pk)) [
  | inl t ↦
      let same : r ≡ x = find?-head (λ (r : Reservation). r.pk == pk) r rs t e in
      (
        (λ _. ap (λ (y : Reservation). y.status) same),
        All-map (λ s. (s.pk == r.pk) ≡ false) _ rs (λ s apart u. absurd (ground arith)) h.0,
      )
  | inr n ↦ (
    (λ t. absurd (ground arith)),
    found_only pk rs h.1 (find?-tail (λ (r : Reservation). r.pk == pk) r rs n e),
  )
]

-- Releasing rows makes no two of them clash.
clashes-unblock_left : (a b : Allocation) → clashes (unblock a) b ≡ false
clashes-unblock_left a b = ground arith

any-unblocked :
    (a : Allocation) (q : Allocation → Bool) (as' : List Allocation)
    → any (clashes a) as' ≡ false
    → any (clashes a) (update_where q unblock as') ≡ false
any-unblocked a q [] h = refl
any-unblocked a q (b ∷ bs) h = ground (arith, any-unblocked a q bs)

any-released : (a : Allocation) (bs : List Allocation) → any (clashes (unblock a)) bs ≡ false
any-released a [] = refl
any-released a (b ∷ bs) = ground (arith, any-released a bs)

pub double_booked-release :
    (q : Allocation → Bool) (as' : List Allocation)
    → double_booked as' ≡ false
    → double_booked (update_where q unblock as') ≡ false
unfolding double_booked
double_booked-release q [] h = refl
double_booked-release q (a ∷ as') h = ground (
  arith,
  any-unblocked a q as',
  any-released a (update_where q unblock as'),
  double_booked-release q as',
)

freed :
    (pk : ℕ) (r : Reservation) (a : Allocation)
    → (r.pk == pk) ≡ true
    → holds_inventory r.status ≡ false
    → FlagOf r (if of_reservation pk a then unblock a else a)
freed pk r a own lets_go = elim (Bool-cases (of_reservation pk a)) [
  | inl t ↦ rw t (λ _. sym lets_go)
  | inr n ↦ rw n (λ t. absurd (ground arith))
]

kept :
    (pk : ℕ) (r : Reservation) (a : Allocation)
    → (r.pk == pk) ≡ false
    → FlagOf r a
    → FlagOf r (if of_reservation pk a then unblock a else a)
kept pk r a other h = elim (Bool-cases (of_reservation pk a)) [
  | inl t ↦ rw t (λ u. absurd (ground arith))
  | inr n ↦ rw n h
]

freed-All :
    (pk : ℕ) (r : Reservation) (allocations : List Allocation)
    → (r.pk == pk) ≡ true
    → holds_inventory r.status ≡ false
    → All (FlagOf r) (update_where (of_reservation pk) unblock allocations)
freed-All pk r [] own lets_go = tt
freed-All pk r (a ∷ as') own lets_go = (freed pk r a own lets_go, freed-All pk r as' own lets_go)

kept-All :
    (pk : ℕ) (r : Reservation) (allocations : List Allocation)
    → (r.pk == pk) ≡ false
    → All (FlagOf r) allocations
    → All (FlagOf r) (update_where (of_reservation pk) unblock allocations)
kept-All pk r [] other h = tt
kept-All pk r (a ∷ as') other h = (kept pk r a other h.0, kept-All pk r as' other h.1)

-- When a reservation lets go of its rooms, the flags agree with its new status.
pub Agree-release :
    (pk : ℕ) (f : Reservation → Reservation) (reservations : List Reservation)
    (allocations : List Allocation)
    → ((r : Reservation) → (f r).pk ≡ r.pk)
    → ((r : Reservation) → holds_inventory (f r).status ≡ false)
    → Agree reservations allocations
    → Agree
        (update_where (λ r. r.pk == pk) f reservations)
        (update_where (of_reservation pk) unblock allocations)
Agree-release pk f reservations allocations same_pk lets_go h =
    All-update (λ r. All (FlagOf r) allocations)
      (λ r. All (FlagOf r) (update_where (of_reservation pk) unblock allocations)) (λ r. r.pk == pk)
      f reservations
      (λ r _ own.
        freed-All pk (f r) allocations (subst (λ (k : ℕ). (k == pk) ≡ true) (sym (same_pk r)) own)
          (lets_go r))
      (λ r agrees other. kept-All pk r allocations other agrees) h
