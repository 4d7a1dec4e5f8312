-- ===== src/Ai/Registry/Fallbacks.antt =====
-- services/ai/registry.py, `_to_resolved`: the recursion along the fallbacks.
use fab_ai_smart_hotel_manag.Prelude.{
  ℕ, zero, suc, ◌<◌, ◌≡◌, refl, inl, inr, Bool, true, Option, none, some, List, arith, ◌==◌, ltb,
  ltb→lt, All, find?-All, Option-cases, ap, ◌∙◌,
}
use mathlib.Core.Option.{none-ne-some}
use fab_ai_smart_hotel_manag.Prelude.Exec.{err}
use fab_ai_smart_hotel_manag.Ai.Models.{
  ModelKind, ModelConfig, ResolvedModel, Desk, alone, backed, recursion_error,
}
use fab_ai_smart_hotel_manag.Ai.Registry.{
  to_resolved, find_config, fallback_row, choice_of, chosen_row, from_db,
}

abbrev pub is_below : (ℕ → ℕ) → ModelConfig → Option ModelConfig → Bool
is_below rank c none = true
is_below rank c (some f) = ltb (rank f.pk) (rank c.pk)

-- The fallback of a row has a smaller rank.
abbrev pub falls : (ℕ → ℕ) → List ModelConfig → ModelConfig → Bool
falls rank configs c = is_below rank c (fallback_row configs c.fallback)

found-All :
    (P : ModelConfig → Type 0) (configs : List ModelConfig) (pk : Option ℕ) {f : ModelConfig}
    → All P configs
    → fallback_row configs pk ≡ some f
    → P f
found-All P configs none all found = absurd (none-ne-some _ found)
found-All P configs (some pk) all found =
    find?-All _ (λ (x : ModelConfig). x.pk == pk) configs all found

to_resolved-ends :
    (rank : ℕ → ℕ) (configs : List ModelConfig) (frames : ℕ) (c : ModelConfig)
    → All (λ x. falls rank configs x ≡ true) configs
    → falls rank configs c ≡ true
    → rank c.pk < frames
    → (m : ResolvedModel) × (to_resolved frames configs c ≡ some m)
unfolding to_resolved
to_resolved-ends rank configs zero c all falling enough = absurd (omega arith)
to_resolved-ends rank configs (suc frames) c all falling enough =
    elim (Option-cases (fallback_row configs c.fallback)) [
      | inl e ↦ (alone (choice_of c), rw e refl)
      | inr (f, found) ↦
          let smaller : rank f.pk < rank c.pk = ltb→lt _ _ (rw found at falling) in
          let (m, r) =
            to_resolved-ends rank configs frames f all (found-All _ configs c.fallback all found)
              (omega arith) in
          (backed (choice_of c) m, rw (found, r) refl)
    ]

-- Where the fallbacks run in no circle (some rank of the rows falls along them), the recursion ends:
-- a row is resolved with one frame more than its rank.
pub to_resolved-total :
    (rank : ℕ → ℕ) (configs : List ModelConfig) (frames pk : ℕ) {c : ModelConfig}
    → All (λ x. falls rank configs x ≡ true) configs
    → find_config configs pk ≡ some c
    → rank c.pk < frames
    → (m : ResolvedModel) × (to_resolved frames configs c ≡ some m)
to_resolved-total rank configs frames pk {c} all found enough =
    to_resolved-ends rank configs frames c all
      (find?-All _ (λ (x : ModelConfig). x.pk == pk) configs all found) enough

to_resolved-looped :
    (frames : ℕ) (configs : List ModelConfig) (c : ModelConfig)
    → fallback_row configs c.fallback ≡ some c
    → to_resolved frames configs c ≡ none
unfolding to_resolved
to_resolved-looped zero configs c own = refl
to_resolved-looped (suc frames) configs c own =
    rw (own, to_resolved-looped frames configs c own) refl

-- A row that is its own fallback is never resolved, whatever the stack: where it is the chosen row
-- of a capability, that capability ends in a recursion error.
pub from_db_looped :
    (frames : ℕ) (kind : ModelKind) (tenant : Option ℕ) (s : Desk) {c : ModelConfig}
    → chosen_row kind tenant s.configs ≡ some c
    → c.fallback ≡ some c.pk
    → find_config s.configs c.pk ≡ some c
    → from_db frames kind tenant s ≡ err recursion_error
unfolding from_db
from_db_looped frames kind tenant s {c} row own found =
    rw (row, to_resolved-looped frames s.configs c (ap (fallback_row s.configs) own ∙ found)) refl
