-- ===== src/Prelude/Exec.antt =====
-- Methods that change the database and may raise. What was written before a raise stays written
-- unless the method is atomic, so the state comes back beside the error too.
use fab_ai_smart_hotel_manag.Prelude.{
  ◌≡◌, refl, ap, sym, Bool, true, false, Option, none, some, List, [], ◌∷◌,
}
use mathlib.Core.Bool.{false≢true}

pub data Result {ℓ} (E A : Type ℓ) : Type ℓ where
  ok : A → Result E A
  err : E → Result E A

abbrev pub Exec {ℓ} : Type ℓ → Type ℓ → Type ℓ → Type ℓ
Exec S E A = S → Result E A × S

module _ {ℓ} {S E A : Type ℓ} where
  abbrev pub pure : A → Exec S E A
  pure a s = (ok a, s)

  abbrev pub raise : E → Exec S E A
  raise e s = (err e, s)

  abbrev pub gets : (S → A) → Exec S E A
  gets f s = (ok (f s), s)

  abbrev pub or_raise : Option A → E → Exec S E A
  or_raise none e s = (err e, s)
  or_raise (some a) e s = (ok a, s)

  -- `transaction.atomic`: an exception takes the state back to the entry.
  abbrev pub roll_back : S → Result E A × S → Result E A × S
  roll_back s (ok a, s') = (ok a, s')
  roll_back s (err e, _) = (err e, s)

  abbrev pub atomic : Exec S E A → Exec S E A
  atomic m s = roll_back s (m s)

module _ {ℓ} {S E A B : Type ℓ} where
  abbrev pub continue : Result E A × S → (A → Exec S E B) → Result E B × S
  continue (ok a, s) f = f a s
  continue (err e, s) f = (err e, s)

  infixl 5 ◌>>=◌ ◌>>◌
  abbrev pub ◌>>=◌ : Exec S E A → (A → Exec S E B) → Exec S E B
  ◌>>=◌ m f s = continue (m s) f

  abbrev pub ◌>>◌ : Exec S E A → Exec S E B → Exec S E B
  m >> n = m >>= λ _. n

abbrev pub Unit₀ : Type 0
Unit₀ = Unit {0}

module _ {S E : Type 0} where
  abbrev pub modify : (S → S) → Exec S E Unit₀
  modify f s = (ok tt, f s)

  abbrev pub raise_if : Bool → E → Exec S E Unit₀
  raise_if true e s = (err e, s)
  raise_if false e s = (ok tt, s)

  -- `for x in xs: body(x)`
  unfoldable pub for_each : {A : Type 0} → (A → Exec S E Unit₀) → List A → Exec S E Unit₀
  for_each body [] s = (ok tt, s)
  for_each body (x ∷ xs) s = continue (body x s) (λ _. for_each body xs)

-- Case rules for a bind: its first action, and what the rest does.
module _ {S E A B : Type 0} (Q : Result E B × S → Type 0) where
  pub or_raise-case :
      (o : Option A) (e : E) (f : A → Exec S E B) (s : S)
      → ((a : A) → o ≡ some a → Q (f a s))
      → (o ≡ none → Q (err e, s))
      → Q ((or_raise o e >>= f) s)
  or_raise-case none e f s found missing = missing refl
  or_raise-case (some a) e f s found missing = found a refl

module _ {S E B : Type 0} (Q : Result E B × S → Type 0) where
  pub raise_if-case :
      (b : Bool) (e : E) (f : Unit₀ → Exec S E B) (s : S)
      → (b ≡ false → Q (f tt s))
      → (b ≡ true → Q (err e, s))
      → Q ((raise_if b e >>= f) s)
  raise_if-case true e f s passed raised = raised refl
  raise_if-case false e f s passed raised = passed refl

module _ {E A : Type 0} where
  abbrev is_ok : Result E A → Bool
  is_ok (ok a) = true
  is_ok (err e) = false

  pub ok_not_err : {a : A} {e : E} → ok a ≡ err e → ⊥
  ok_not_err r = false≢true (sym (ap is_ok r))

module _ {E A B : Type 0} where
  abbrev erased : E → Result E A → Result E B
  erased d (ok a) = err d
  erased d (err x) = err x

-- What follows an action that has raised.
module _ {S E A B : Type 0} where
  pub continue-err :
      (out : Result E A × S) (f : A → Exec S E B) {e : E}
      → out.0 ≡ err e
      → continue out f ≡ (err e, out.1)
  continue-err (ok a, s) f q = absurd (ok_not_err q)
  continue-err (err e, s) f q = ap (λ r. (erased e r, s)) q
