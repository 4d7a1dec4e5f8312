-- ===== src/Ai/Registry/Choosing.antt =====
-- services/ai/registry.py, `_from_db`: which row is chosen.
use fab_ai_smart_hotel_manag.Prelude.{ℕ, ◌≡◌, ◌⊎◌, true, false, Option, none, some, List, All}
use fab_ai_smart_hotel_manag.Ai.Models.{ModelKind, ModelConfig, is_usable}
use fab_ai_smart_hotel_manag.Ai.Registry.{config_before, in_scope}

-- No live row of the scope is usable.
abbrev pub NoneUsable : ModelKind → Option ℕ → List ModelConfig → Type 0
NoneUsable kind tenant configs =
    All (λ c. in_scope kind tenant c ≡ true → is_usable c ≡ false) configs

-- `c` is a usable row of the scope, and in its order before every other.
abbrev pub BestOf : ModelKind → Option ℕ → List ModelConfig → ModelConfig → Type 0
BestOf kind tenant configs c =
    (in_scope kind tenant c ≡ true)
    × (is_usable c ≡ true)
    × All (λ x. in_scope kind tenant x ≡ true → is_usable x ≡ true → config_before c x ≡ true)
        configs

-- The row for a hotel: its own best usable row, else the platform's, else none.
abbrev pub Chosen : ModelKind → ℕ → List ModelConfig → Option ModelConfig → Type 0
Chosen kind hotel configs (some c) =
    BestOf kind (some hotel) configs c
    ⊎ (NoneUsable kind (some hotel) configs × BestOf kind none configs c)
Chosen kind hotel configs none = NoneUsable kind (some hotel) configs × NoneUsable kind none configs
