-- ===== src/Ai/Gateway/Answers.antt =====
-- services/ai/gateway.py, `_call_with_fallback`: when a call of a model is answered.
use fab_ai_smart_hotel_manag.Prelude.{
  ◌+◌, ◌≤◌, ◌≡◌, refl, sym, ◌∙◌, true, some, List, arith, length, is_some, subst,
}
use mathlib.Core.Bool.{false≢true}
use mathlib.Core.Option.{none-ne-some, some-injective}
use fab_ai_smart_hotel_manag.Prelude.Exec.{Result, ok, err, ok_not_err}
use fab_ai_smart_hotel_manag.Ai.Models.{
  ResolvedModel, chosen, fallback_of, Desk, AiError, is_transient,
}
use fab_ai_smart_hotel_manag.Ai.Registry.{adapter_of}
use fab_ai_smart_hotel_manag.Ai.Gateway.{Retry, call_with_fallback}
use fab_ai_smart_hotel_manag.Ai.Gateway.Routing.{
  Routed, by_model, failed, no_fallback, by_fallback, both_failed, Tries-length, Tries-replied,
  call_with_fallback-Routed,
}

module _ {A : Type 0} where
  module _ (reply : List ResolvedModel → ResolvedModel → Result AiError A) where
    Routed-length :
        {mark : A → A} {m : ResolvedModel} {h h' : List ResolvedModel} {r : Result AiError A}
        → Routed reply mark m h r h'
        → length h' ≤ length h + 6
    Routed-length (by_model t) = omega (arith, Tries-length reply t)
    Routed-length (failed t f) = omega (arith, Tries-length reply t)
    Routed-length (no_fallback t f o) = omega (arith, Tries-length reply t)
    Routed-length (by_fallback t f o t') =
        omega (arith, Tries-length reply t, Tries-length reply t')
    Routed-length (both_failed t f o t') =
        omega (arith, Tries-length reply t, Tries-length reply t')

    -- A provider that is there and answers whatever it is asked.
    abbrev pub IsHealthy : ResolvedModel → Type 0
    IsHealthy f =
        (is_some (adapter_of (chosen f).provider) ≡ true)
        × ((h : List ResolvedModel) → (a : A) × (reply h f ≡ ok a))

    -- A provider that is there and whose errors are transient.
    abbrev pub FailsInPassing : ResolvedModel → Type 0
    FailsInPassing m =
        (is_some (adapter_of (chosen m).provider) ≡ true)
        × ((h : List ResolvedModel) (e : AiError) → reply h m ≡ err e → is_transient e ≡ true)

    Routed-answered :
        {mark : A → A} {m f : ResolvedModel} {h h' : List ResolvedModel} {r : Result AiError A}
        → FailsInPassing m
        → IsHealthy f
        → fallback_of m ≡ some f
        → Routed reply mark m h r h'
        → (a : A) × (r ≡ ok a)
    Routed-answered passing healthy own (by_model t) = (_, refl)
    Routed-answered passing healthy own (failed t n) =
        let (h₀, q) = Tries-replied reply passing.0 t in
        absurd (false≢true (sym n ∙ passing.1 h₀ _ q))
    Routed-answered passing healthy own (no_fallback t n o) = absurd (none-ne-some _ (sym o ∙ own))
    Routed-answered passing healthy own (by_fallback t n o t') = (_, refl)
    Routed-answered {f = f} passing healthy own (both_failed {e' = e'} {f = g} t n o t') =
        let same : g ≡ f = some-injective g f (sym o ∙ own) in
        let (h₀, q) =
          Tries-replied reply
            (subst (λ (x : ResolvedModel). is_some (adapter_of (chosen x).provider) ≡ true)
              (sym same) healthy.0)
            t' in
        let (a, answer) = healthy.1 h₀ in
        absurd (ok_not_err (sym answer ∙ subst (λ x. reply h₀ x ≡ err e') same q))

    -- A guest is answered as long as the fallback is up: where the model's provider fails only in
    -- passing and its fallback answers whatever it is asked, a call returns an answer, after at most
    -- six calls of providers.
    pub call_with_fallback_answers :
        (retry : Retry A) (mark : A → A) (m f : ResolvedModel) (s : Desk)
        → FailsInPassing m
        → IsHealthy f
        → fallback_of m ≡ some f
        → ((a : A) × ((call_with_fallback retry reply mark m s).0 ≡ ok a))
          × (length (call_with_fallback retry reply mark m s).1.calls ≤ length s.calls + 6)
    call_with_fallback_answers retry mark m f s passing healthy own =
        let (h, same, routed) = call_with_fallback-Routed reply retry mark m s in
        (
          Routed-answered passing healthy own routed,
          subst (λ (t : Desk). length t.calls ≤ length s.calls + 6) (sym same)
              (Routed-length routed),
        )
