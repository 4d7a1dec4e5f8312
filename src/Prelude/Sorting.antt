-- ===== src/Prelude/Sorting.antt =====
-- What `order_by` promises: the first row that passes a test is a least one.
use fab_ai_smart_hotel_manag.Prelude.{
  refl, refl, suc, length, ap, ◌∙◌, ◌&&◌, ◌≡◌, subst, inl, inr, Bool, true, false, none, some, List,
  [], ◌∷◌, arith, filter, find?, sort_by, insert_by, All, All-map, Bool-cases, find?-head,
  find?-tail,
}

module _ {A : Type 0} (le : A → A → Bool) where
  abbrev pub IsTrans : Type 0
  IsTrans = (a b c : A) → le a b ≡ true → le b c ≡ true → le a c ≡ true

  abbrev pub IsTotal : Type 0
  IsTotal = (a b : A) → le a b ≡ false → le b a ≡ true

  abbrev IsSorted : List A → Type 0
  IsSorted [] = Unit
  IsSorted (x ∷ xs) = All (λ y. le x y ≡ true) xs × IsSorted xs

  pub All-insert_by :
      (P : A → Type 0) (x : A) (xs : List A) → P x → All P xs → All P (insert_by le x xs)
  All-insert_by P x [] h hs = (h, tt)
  All-insert_by P x (y ∷ ys) h hs = elim (Bool-cases (le x y)) [
    | inl e ↦ rw e (h, hs)
    | inr e ↦ rw e (hs.0, All-insert_by P x ys h hs.1)
  ]

  insert_by-All :
      (P : A → Type 0) (x : A) (xs : List A) → All P (insert_by le x xs) → P x × All P xs
  insert_by-All P x [] h = h
  insert_by-All P x (y ∷ ys) h = elim (Bool-cases (le x y)) [
    | inl e ↦ let h' : All P (x ∷ y ∷ ys) = rw e at h in h'
    | inr e ↦
        let h' : All P (y ∷ insert_by le x ys) = rw e at h in
        let r : P x × All P ys = insert_by-All P x ys h'.1 in (r.0, (h'.0, r.1))
  ]

  pub All-sort_by : (P : A → Type 0) (xs : List A) → All P xs → All P (sort_by le xs)
  All-sort_by P [] h = tt
  All-sort_by P (x ∷ xs) h = All-insert_by P x (sort_by le xs) h.0 (All-sort_by P xs h.1)

  pub sort_by-All : (P : A → Type 0) (xs : List A) → All P (sort_by le xs) → All P xs
  sort_by-All P [] h = tt
  sort_by-All P (x ∷ xs) h =
      let r : P x × All P (sort_by le xs) = insert_by-All P x (sort_by le xs) h in
      (r.0, sort_by-All P xs r.1)

  module _ (le_trans : IsTrans) (le_total : IsTotal) where
    insert_by-IsSorted : (x : A) (xs : List A) → IsSorted xs → IsSorted (insert_by le x xs)
    insert_by-IsSorted x [] h = (tt, tt)
    insert_by-IsSorted x (y ∷ ys) h = elim (Bool-cases (le x y)) [
      | inl e ↦ rw e ((e, All-map _ _ ys (λ z. le_trans x y z e) h.0), h)
      | inr e ↦ rw e (
        All-insert_by (λ z. le y z ≡ true) x ys (le_total x y e) h.0,
        insert_by-IsSorted x ys h.1,
      )
    ]

    sort_by-IsSorted : (xs : List A) → IsSorted (sort_by le xs)
    sort_by-IsSorted [] = tt
    sort_by-IsSorted (x ∷ xs) = insert_by-IsSorted x (sort_by le xs) (sort_by-IsSorted xs)

    refl_of_total : (a : A) → le a a ≡ true
    refl_of_total a = elim (Bool-cases (le a a)) [ inl e ↦ e | inr e ↦ le_total a a e ]

    -- In a sorted list the first row that passes is before every row that passes.
    find?_least :
        (p : A → Bool) (xs : List A) {r : A}
        → IsSorted xs
        → find? p xs ≡ some r
        → All (λ y. p y ≡ true → le r y ≡ true) xs
    find?_least p [] h e = tt
    find?_least p (x ∷ xs) {r} h e = elim (Bool-cases (p x)) [
      | inl t ↦
          subst (λ z. All (λ y. p y ≡ true → le z y ≡ true) (x ∷ xs)) (find?-head p x xs t e)
            (
              (λ _. refl_of_total x),
              All-map _ (λ y. p y ≡ true → le x y ≡ true) xs (λ y l _. l) h.0,
            )
      | inr f ↦ ((λ t. cc), find?_least p xs h.1 (find?-tail p x xs f e))
    ]

    pub find?-sort_by_least :
        (p : A → Bool) (xs : List A) {r : A}
        → find? p (sort_by le xs) ≡ some r
        → All (λ y. p y ≡ true → le r y ≡ true) xs
    find?-sort_by_least p xs e =
        sort_by-All _ xs (find?_least p (sort_by le xs) (sort_by-IsSorted xs) e)

-- A search that fails has no row that passes.
pub find?-none {ℓ} :
    {A : Type ℓ} (p : A → Bool) (xs : List A) → find? p xs ≡ none → All (λ y. p y ≡ false) xs
find?-none p [] e = tt
find?-none p (x ∷ xs) e = elim (Bool-cases (p x)) [
  | inl t ↦ absurd (ground arith)
  | inr f ↦ (f, find?-none p xs (ground arith))
]

-- What holds of the rows that a filter keeps holds of all rows that pass it.
pub filter-All {ℓ κ} :
    {A : Type ℓ} (P : A → Type κ) (p : A → Bool) (xs : List A)
    → All P (filter p xs)
    → All (λ y. p y ≡ true → P y) xs
filter-All P p [] h = tt
filter-All P p (x ∷ xs) h = elim (Bool-cases (p x)) [
  | inl t ↦ let h' : All P (x ∷ filter p xs) = rw t at h in ((λ _. h'.0), filter-All P p xs h'.1)
  | inr f ↦ let h' : All P (filter p xs) = rw f at h in ((λ t. cc), filter-All P p xs h')
]

pub filter-kept {ℓ} :
    {A : Type ℓ} (p : A → Bool) (xs : List A) → All (λ y. p y ≡ true) (filter p xs)
filter-kept p [] = tt
filter-kept p (x ∷ xs) = elim (Bool-cases (p x)) [
  | inl t ↦ rw t (t, filter-kept p xs)
  | inr f ↦ rw f (filter-kept p xs)
]

-- How many rows a sorted table has, and how many of those pass a test.
module _ {A : Type 0} (le : A → A → Bool) (p : A → Bool) where
  length-filter-insert_by :
      (x : A) (xs : List A) → length (filter p (insert_by le x xs)) ≡ length (filter p (x ∷ xs))
  length-filter-insert_by x [] = refl
  length-filter-insert_by x (y ∷ ys) = elim (Bool-cases (le x y)) [
    | inl e ↦ rw e refl
    | inr e ↦ elim (Bool-cases (p x)) [
      | inl t ↦ elim (Bool-cases (p y)) [
        | inl u ↦ rw (e, t, u) (rw (length-filter-insert_by x ys, t) refl)
        | inr u ↦ rw (e, t, u) (rw (length-filter-insert_by x ys, t) refl)
      ]
      | inr t ↦ elim (Bool-cases (p y)) [
        | inl u ↦ rw (e, t, u) (rw (length-filter-insert_by x ys, t) refl)
        | inr u ↦ rw (e, t, u) (rw (length-filter-insert_by x ys, t) refl)
      ]
    ]
  ]

  pub length-filter-sort_by :
      (xs : List A) → length (filter p (sort_by le xs)) ≡ length (filter p xs)
  length-filter-sort_by [] = refl
  length-filter-sort_by (x ∷ xs) = elim (Bool-cases (p x)) [
    | inl t ↦ length-filter-insert_by x (sort_by le xs) ∙ rw (t, length-filter-sort_by xs) refl
    | inr t ↦ length-filter-insert_by x (sort_by le xs) ∙ rw (t, length-filter-sort_by xs) refl
  ]

module _ {A : Type 0} (le : A → A → Bool) where
  length-insert_by : (x : A) (xs : List A) → length (insert_by le x xs) ≡ suc (length xs)
  length-insert_by x [] = refl
  length-insert_by x (y ∷ ys) = elim (Bool-cases (le x y)) [
    | inl e ↦ rw e refl
    | inr e ↦ rw e (rw (length-insert_by x ys) refl)
  ]

  pub length-sort_by : (xs : List A) → length (sort_by le xs) ≡ length xs
  length-sort_by [] = refl
  length-sort_by (x ∷ xs) = length-insert_by x (sort_by le xs) ∙ rw (length-sort_by xs) refl

-- A filter of a filter is the filter of both tests.
pub filter-filter :
    {A : Type 0} (p q r : A → Bool) (xs : List A)
    → ((x : A) → r x ≡ (q x && p x))
    → filter p (filter q xs) ≡ filter r xs
filter-filter p q r [] both = refl
filter-filter p q r (x ∷ xs) both = elim (Bool-cases (q x)) [
  | inl t ↦ elim (Bool-cases (p x)) [
    | inl u ↦ rw (t, both x, t, u) (ap (λ ys. x ∷ ys) (filter-filter p q r xs both))
    | inr u ↦ rw (t, both x, t, u) (filter-filter p q r xs both)
  ]
  | inr f ↦ rw (f, both x, f) (filter-filter p q r xs both)
]
