-- ===== src/Prelude/Keeps.antt =====
-- Invariants of actions: one rule for each way to build an action.
use fab_ai_smart_hotel_manag.Prelude.{
  Bool, true, false, Option, none, some, List, [], ◌∷◌, if◌then◌else◌,
}
use fab_ai_smart_hotel_manag.Prelude.Exec.{
  Exec, Result, ok, err, pure, gets, modify, raise_if, or_raise, atomic, for_each, continue,
  roll_back, Unit₀, ◌>>=◌,
}

-- Where `P` holds before the action it holds after it, whether the action returns or raises.
pub record Keeps {S E A : Type 0} (P : S → Type 0) (m : Exec S E A) : Type 0 where
  pub at : (s : S) → P s → P (m s).1

module _ {S E A : Type 0} where
  pub after_atomic :
      (P : S → Type 0) (s : S) (r : Result E A × S) → P s → P r.1 → P (roll_back s r).1
  after_atomic P s (ok a, s') h h' = h'
  after_atomic P s (err e, s') h h' = h

module _ {S E : Type 0} {P : S → Type 0} where
  pub Keeps-modify : (f : S → S) → ((s : S) → P s → P (f s)) → Keeps {E = E} P (modify f)
  Keeps-modify f h = record { at = h }

  pub Keeps-raise_if : (b : Bool) (e : E) → Keeps P (raise_if b e)
  Keeps-raise_if true e = record { at = λ s h. h }
  Keeps-raise_if false e = record { at = λ s h. h }

module _ {S E A : Type 0} {P : S → Type 0} where
  pub Keeps-pure : (a : A) → Keeps {E = E} P (pure a)
  Keeps-pure a = record { at = λ s h. h }

  pub Keeps-gets : (f : S → A) → Keeps {E = E} P (gets f)
  Keeps-gets f = record { at = λ s h. h }

  pub Keeps-or_raise : (o : Option A) (e : E) → Keeps P (or_raise o e)
  Keeps-or_raise none e = record { at = λ s h. h }
  Keeps-or_raise (some a) e = record { at = λ s h. h }

  pub Keeps-if :
      (b : Bool) (m n : Exec S E A) → Keeps P m → Keeps P n → Keeps P (if b then m else n)
  Keeps-if true m n km kn = km
  Keeps-if false m n km kn = kn

  pub Keeps-atomic : (m : Exec S E A) → Keeps P m → Keeps P (atomic m)
  Keeps-atomic m km = record { at = λ s h. after_atomic P s (m s) h (km.at s h) }

module _ {S E A B : Type 0} where
  after_continue :
      (P : S → Type 0) (r : Result E A × S) (f : A → Exec S E B)
      → P r.1
      → ((a : A) → Keeps P (f a))
      → P (continue r f).1
  after_continue P (ok a, s) f h kf = (kf a).at s h
  after_continue P (err e, s) f h kf = h

module _ {S E A B : Type 0} {P : S → Type 0} where
  pub Keeps-bind :
      (m : Exec S E A) (f : A → Exec S E B)
      → Keeps P m
      → ((a : A) → Keeps P (f a))
      → Keeps P (m >>= f)
  Keeps-bind m f km kf = record { at = λ s h. after_continue P (m s) f (km.at s h) kf }

module _ {S E A : Type 0} {P : S → Type 0} where
  for_each-keeps :
      (body : A → Exec S E Unit₀) (xs : List A)
      → ((x : A) → Keeps P (body x))
      → (s : S) → P s
      → P (for_each body xs s).1
  unfolding for_each
  for_each-keeps body [] kb s h = h
  for_each-keeps body (x ∷ xs) kb s h =
      after_continue P (body x s) (λ _. for_each body xs) ((kb x).at s h)
        (λ _. record { at = for_each-keeps body xs kb })

  pub Keeps-for_each :
      (body : A → Exec S E Unit₀) (xs : List A)
      → ((x : A) → Keeps P (body x))
      → Keeps P (for_each body xs)
  Keeps-for_each body xs kb = record { at = for_each-keeps body xs kb }

pub ruleset keeps_rules = (
  Keeps-pure, Keeps-gets, Keeps-raise_if, Keeps-or_raise, Keeps-if, Keeps-atomic, Keeps-bind,
  Keeps-for_each,
)
