-- ===== src/Ai/Gateway/Routing.antt =====
-- services/ai/gateway.py, `_attempt` and `_call_with_fallback`: which providers are called.
use fab_ai_smart_hotel_manag.Prelude.{
  ℕ, zero, suc, ◌+◌, ◌≤◌, ◌≡◌, refl, sym, ◌∙◌, ap, inl, inr, subst, true, false, Option, none, some,
  List, [], ◌∷◌, ◌++◌, arith, length, length-append, Bool-cases, is_some,
}
use mathlib.Core.Bool.{false≢true}
use fab_ai_smart_hotel_manag.Prelude.Exec.{Result, ok, err, continue, pure}
use fab_ai_smart_hotel_manag.Ai.Models.{
  ResolvedModel, chosen, fallback_of, Desk, AiError, value_error, is_transient,
}
use fab_ai_smart_hotel_manag.Ai.Registry.{adapter_of, Adapter}
use fab_ai_smart_hotel_manag.Ai.Gateway.{
  Retry, retried, ask, ask_adapter, attempt, or_fallback, call_with_fallback,
}

module _ {A : Type 0} (reply : List ResolvedModel → ResolvedModel → Result AiError A) where
  -- At most so many tries of a model: from the calls made before, the outcome and the calls made
  -- after. A try is one call of the model's provider, and another one follows a transient error.
  pub data Tries (m : ResolvedModel)
      : ℕ → List ResolvedModel → Result AiError A → List ResolvedModel → Type 0 where
    no_adapter :
        {n : ℕ} {h : List ResolvedModel}
        → adapter_of (chosen m).provider ≡ none
        → Tries m n h (err value_error) h
    answered :
        {n : ℕ} {h : List ResolvedModel} {a : A}
        → is_some (adapter_of (chosen m).provider) ≡ true
        → reply h m ≡ ok a
        → Tries m (suc n) h (ok a) (h ++ m ∷ [])
    refused :
        {n : ℕ} {h : List ResolvedModel} {e : AiError}
        → is_some (adapter_of (chosen m).provider) ≡ true
        → reply h m ≡ err e
        → is_transient e ≡ false
        → Tries m (suc n) h (err e) (h ++ m ∷ [])
    gave_up :
        {h : List ResolvedModel} {e : AiError}
        → is_some (adapter_of (chosen m).provider) ≡ true
        → reply h m ≡ err e
        → is_transient e ≡ true
        → Tries m 1 h (err e) (h ++ m ∷ [])
    tried_again :
        {n : ℕ} {h h' : List ResolvedModel} {e : AiError} {r : Result AiError A}
        → is_some (adapter_of (chosen m).provider) ≡ true
        → reply h m ≡ err e
        → is_transient e ≡ true
        → Tries m (suc n) (h ++ m ∷ []) r h'
        → Tries m (suc (suc n)) h r h'

  -- What a call of a model promises, its fallback included.
  pub data Routed (mark : A → A) (m : ResolvedModel)
      : List ResolvedModel → Result AiError A → List ResolvedModel → Type 0 where
    by_model :
        {h h' : List ResolvedModel} {a : A} → Tries m 3 h (ok a) h' → Routed mark m h (ok a) h'
    failed :
        {h h' : List ResolvedModel} {e : AiError}
        → Tries m 3 h (err e) h'
        → is_transient e ≡ false
        → Routed mark m h (err e) h'
    no_fallback :
        {h h' : List ResolvedModel} {e : AiError}
        → Tries m 3 h (err e) h'
        → is_transient e ≡ true
        → fallback_of m ≡ none
        → Routed mark m h (err e) h'
    by_fallback :
        {h h' h'' : List ResolvedModel} {e : AiError} {f : ResolvedModel} {a : A}
        → Tries m 3 h (err e) h'
        → is_transient e ≡ true
        → fallback_of m ≡ some f
        → Tries f 3 h' (ok a) h''
        → Routed mark m h (ok (mark a)) h''
    both_failed :
        {h h' h'' : List ResolvedModel} {e e' : AiError} {f : ResolvedModel}
        → Tries m 3 h (err e) h'
        → is_transient e ≡ true
        → fallback_of m ≡ some f
        → Tries f 3 h' (err e') h''
        → Routed mark m h (err e') h''

  -- An outcome and a state that only the calls have changed in, so that the calls and the outcome
  -- satisfy a relation.
  abbrev pub Ends :
      (Result AiError A → List ResolvedModel → Type 0) → Desk → Result AiError A × Desk → Type 0
  Ends R s out = (h : List ResolvedModel) × (out.1 ≡ record s { calls = h }) × R out.0 h

  module _ (retry : Retry A) where
    one_try :
        (n : ℕ) (m : ResolvedModel) (s : Desk)
        (finish : Result AiError A × Desk → Result AiError A × Desk)
        → ((a : A) (s' : Desk) → finish (ok a, s') ≡ (ok a, s'))
        → ((e : AiError) (s' : Desk) → is_transient e ≡ false → finish (err e, s') ≡ (err e, s'))
        → ((e : AiError)
            → is_transient e ≡ true
            → reply s.calls m ≡ err e
            → is_some (adapter_of (chosen m).provider) ≡ true
            → Ends
                (Tries m (suc n) s.calls)
                s
                (finish (err e, record s { calls = s.calls ++ m ∷ [] })))
        → Ends (Tries m (suc n) s.calls) s (finish (ask retry reply m s))
    one_try n m s finish done stopped next = adapted _ refl
      where
        replied :
            (a : Adapter) (r : Result AiError A)
            → adapter_of (chosen m).provider ≡ some a
            → reply s.calls m ≡ r
            → Ends (Tries m (suc n) s.calls) s (finish (r, record s { calls = s.calls ++ m ∷ [] }))
        replied a (ok x) e q = rw (done x _) (_, refl, answered (ap is_some e) q)
        replied a (err x) e q = elim (Bool-cases (is_transient x)) [
          | inl t ↦ next x t q (ap is_some e)
          | inr f ↦ rw (stopped x _ f) (_, refl, refused (ap is_some e) q f)
        ]

        adapted :
            (o : Option Adapter)
            → adapter_of (chosen m).provider ≡ o
            → Ends (Tries m (suc n) s.calls) s (finish (ask_adapter retry reply o m s))
        adapted none e = rw (stopped value_error s refl) (s.calls, refl, no_adapter e)
        adapted (some a) e = replied a _ e refl

    attempts-Tries :
        (n : ℕ) (m : ResolvedModel) (s : Desk)
        → Ends (Tries m (suc n) s.calls) s (retry.attempts (suc n) (ask retry reply m) s)
    attempts-Tries zero m s = rw (retry.once (ask retry reply m) s) (
        one_try 0 m s (λ x. x) (λ a s'. refl) (λ e s' f. refl)
          (λ e t q known. (_, refl, gave_up known q t)))
    attempts-Tries (suc n) m s = rw (retry.again n (ask retry reply m) s) (
        one_try (suc n) m s (λ x. retried x (retry.attempts (suc n) (ask retry reply m)))
          (λ a s'. refl) (λ e s' f. rw f refl)
          (λ e t q known.
            let (h, same, tries) = attempts-Tries n m (record s { calls = s.calls ++ m ∷ [] }) in
            rw t (h, same, tried_again known q t tries)))

    attempt-Tries :
        (m : ResolvedModel) (s : Desk) → Ends (Tries m 3 s.calls) s (attempt retry reply m s)
    unfolding attempt
    attempt-Tries m s = attempts-Tries 2 m s

    or_fallback-Routed :
        (mark : A → A) (m : ResolvedModel) (s : Desk) (out : Result AiError A × Desk)
        → Ends (Tries m 3 s.calls) s out
        → Ends (Routed mark m s.calls) s (or_fallback retry reply mark out (fallback_of m))
    or_fallback-Routed mark m s (ok a, s') (h, same, tries) = (h, same, by_model tries)
    or_fallback-Routed mark m s (err e, s') (h, same, tries) = onward (fallback_of m) refl
      where
        marked :
            (f : ResolvedModel)
            → is_transient e ≡ true
            → fallback_of m ≡ some f
            → (out : Result AiError A × Desk) → Ends (Tries f 3 h) s out
            → Ends (Routed mark m s.calls) s (continue out (λ a. pure (mark a)))
        marked f t own (ok a, s'') (h', same', tries') = (h', same', by_fallback tries t own tries')
        marked f t own (err e', s'') (h', same', tries') =
            (h', same', both_failed tries t own tries')

        onward :
            (o : Option ResolvedModel)
            → fallback_of m ≡ o
            → Ends (Routed mark m s.calls) s (or_fallback retry reply mark (err e, s') o)
        onward none own = elim (Bool-cases (is_transient e)) [
          | inl t ↦ (h, same, no_fallback tries t own)
          | inr f ↦ (h, same, failed tries f)
        ]
        onward (some f) own = elim (Bool-cases (is_transient e)) [
          | inl t ↦ rw t (
              marked f t own _ (
                subst (λ x. Ends (Tries f 3 h) s (attempt retry reply f x)) (sym same)
                  (attempt-Tries f (record s { calls = h }))))
          | inr n ↦ rw n (h, same, failed tries n)
        ]

    -- A call of a model runs as it promises: at most three tries of the model, the next one only
    -- after a transient error; where these end in a transient error and the model has a fallback, at
    -- most three tries of the fallback, whose outcome is then the call's, with its answer marked.
    -- Nothing of the state but the list of calls changes.
    pub call_with_fallback-Routed :
        (mark : A → A) (m : ResolvedModel) (s : Desk)
        → Ends (Routed mark m s.calls) s (call_with_fallback retry reply mark m s)
    unfolding call_with_fallback
    call_with_fallback-Routed mark m s =
        or_fallback-Routed mark m s (attempt retry reply m s) (attempt-Tries m s)

  pub Tries-length :
      {m : ResolvedModel} {n : ℕ} {h h' : List ResolvedModel} {r : Result AiError A}
      → Tries m n h r h'
      → length h' ≤ length h + n
  Tries-length (no_adapter e) = omega arith
  Tries-length {m} {h = h} (answered k q) = omega (arith, length-append h (m ∷ []))
  Tries-length {m} {h = h} (refused k q f) = omega (arith, length-append h (m ∷ []))
  Tries-length {m} {h = h} (gave_up k q t) = omega (arith, length-append h (m ∷ []))
  Tries-length {m} {h = h} (tried_again k q t more) =
      omega (arith, length-append h (m ∷ []), Tries-length more)

  pub Tries-replied :
      {m : ResolvedModel} {n : ℕ} {h h' : List ResolvedModel} {e : AiError}
      → is_some (adapter_of (chosen m).provider) ≡ true
      → Tries m n h (err e) h'
      → (h₀ : List ResolvedModel) × (reply h₀ m ≡ err e)
  Tries-replied known (no_adapter none_there) =
      absurd (false≢true (sym (ap is_some none_there) ∙ known))
  Tries-replied known (refused k q f) = (_, q)
  Tries-replied known (gave_up k q t) = (_, q)
  Tries-replied known (tried_again k q t more) = Tries-replied known more
