-- ===== src/Ai/Registry.antt =====
-- services/ai/registry.py: which model serves a capability.
--
-- The caches are read as they stand: an entry that has run out is one that is not there.
pub mod Choosing
pub mod Fallbacks
pub mod Coherent
use fab_ai_smart_hotel_manag.Prelude.{
  ℕ, zero, suc, Bool, true, false, not, ◌&&◌, ◌||◌, Option, none, some, List, [], ◌∷◌, ◌++◌, leb,
  ◌==◌, length, filter, find?, sort_by, any, if◌then◌else◌,
}
use fab_ai_smart_hotel_manag.Prelude.Exec.{Result, ok, err}
use fab_ai_smart_hotel_manag.Ai.Models.{
  ModelKind, ModelConfig, Choice, ResolvedModel, alone, backed, Resolution, Desk, Call, AiError,
  recursion_error, is_usable, same_kind, Provider, openai, anthropic, gemini, google, azure_openai,
  azure_speech, moonshot, zai, groq, openrouter, local, edge_tts, openai_compatible, local_clip,
  local_insightface, paddleocr, fake, other,
}

abbrev pub same_tenant : Option ℕ → Option ℕ → Bool
same_tenant none none = true
same_tenant (some a) (some b) = a == b
same_tenant _ _ = false

-- `tenant_id or current_tenant_id()`
abbrev pub or_ambient : Option ℕ → Option ℕ → Option ℕ
or_ambient (some t) _ = some t
or_ambient none ambient = ambient

-- `-last_verified_at` of PostgreSQL: a row that was never verified comes before the others.
abbrev pub verified_before : Option ℕ → Option ℕ → Bool
verified_before none _ = true
verified_before (some a) none = false
verified_before (some a) (some b) = leb b a

-- `.order_by("-is_default", "-last_verified_at", "created_at")`, on those three of two rows
abbrev pub key_before : Bool → Option ℕ → ℕ → Bool → Option ℕ → ℕ → Bool
key_before d v n d' v' n' =
    (d && not d')
    || ((d || not d')
        && ((verified_before v v' && not (verified_before v' v))
            || (verified_before v v' && verified_before v' v && leb n n')))

abbrev pub config_before : ModelConfig → ModelConfig → Bool
config_before a b =
    key_before a.is_default a.last_verified_at a.pk b.is_default b.last_verified_at b.pk

-- The live rows of a capability in one scope: a hotel's, or the platform's.
abbrev pub in_scope : ModelKind → Option ℕ → ModelConfig → Bool
in_scope kind tenant c =
    same_kind c.kind kind && c.is_active && not c.is_deleted && same_tenant c.tenant tenant

abbrev pub scope_rows : ModelKind → Option ℕ → List ModelConfig → List ModelConfig
scope_rows kind tenant configs = sort_by config_before (filter (in_scope kind tenant) configs)

abbrev pub candidate_rows : ModelKind → Option ℕ → List ModelConfig → List ModelConfig
candidate_rows kind none configs = scope_rows kind none configs
candidate_rows kind (some t) configs =
    scope_rows kind (some t) configs ++ scope_rows kind none configs

abbrev pub choice_of : ModelConfig → Choice
choice_of c = record {
  kind = c.kind;
  provider = c.provider;
  model_name = c.model_name;
  api_key = c.api_key;
  dimension = c.dimension;
  cost_per_1k_input = c.cost_per_1k_input_usd;
  cost_per_1k_output = c.cost_per_1k_output_usd;
  config_id = some c.pk;
}

abbrev pub find_config : List ModelConfig → ℕ → Option ModelConfig
find_config configs pk = find? (λ (c : ModelConfig). c.pk == pk) configs

abbrev pub with_fallback : Choice → Option ResolvedModel → Option ResolvedModel
with_fallback c none = none
with_fallback c (some f) = some (backed c f)

-- The row of `config.fallback`. A key that no row has is ruled out by the foreign key, and is read
-- as no fallback.
abbrev pub fallback_row : List ModelConfig → Option ℕ → Option ModelConfig
fallback_row configs none = none
fallback_row configs (some pk) = find_config configs pk

-- The step of `_to_resolved`, on what the call for the fallback gives.
abbrev pub resolved_with :
    (ModelConfig → Option ResolvedModel) → Choice → Option ModelConfig → Option ResolvedModel
resolved_with again c none = some (alone c)
resolved_with again c (some f) = with_fallback c (again f)

-- `_to_resolved(config)` on a stack of as many frames as the first argument; `none` is Python's
-- `RecursionError`.
pub to_resolved : ℕ → List ModelConfig → ModelConfig → Option ResolvedModel
to_resolved zero configs c = none
to_resolved (suc frames) configs c =
    resolved_with (to_resolved frames configs) (choice_of c) (fallback_row configs c.fallback)

-- The frames that Python grants.
abbrev pub recursion_limit : ℕ
recursion_limit = 1000

abbrev pub chosen_row : ModelKind → Option ℕ → List ModelConfig → Option ModelConfig
chosen_row kind tenant configs = find? is_usable (candidate_rows kind tenant configs)

abbrev pub not_looped : Option ResolvedModel → Result AiError ResolvedModel
not_looped none = err recursion_error
not_looped (some m) = ok m

abbrev pub from_row : ℕ → ModelKind → Desk → Option ModelConfig → Result AiError ResolvedModel
from_row frames kind s none = ok (s.defaults kind)
from_row frames kind s (some c) = not_looped (to_resolved frames s.configs c)

-- `_from_db(kind, tenant_id)` and, where it gives nothing, `_from_settings(kind)`
unfoldable pub from_db : ℕ → ModelKind → Option ℕ → Desk → Result AiError ResolvedModel
unfolding to_resolved
from_db frames kind tenant s = from_row frames kind s (chosen_row kind tenant s.configs)

abbrev pub is_entry : ModelKind → Option ℕ → Resolution → Bool
is_entry kind tenant r = same_kind r.kind kind && same_tenant r.tenant tenant

abbrev pub cached : ModelKind → Option ℕ → Desk → Option Resolution
cached kind tenant s = find? (is_entry kind tenant) s.resolutions

-- `cache.set(...)` of what was resolved
abbrev pub keep_resolved : ModelKind → Option ℕ → Result AiError ResolvedModel → Call ResolvedModel
keep_resolved kind tenant (err e) s = (err e, s)
keep_resolved kind tenant (ok m) s = (
  ok m,
  record s { resolutions = record { kind = kind; tenant = tenant; model = m } ∷ s.resolutions },
)

abbrev pub cached_or : ModelKind → Option ℕ → Option Resolution → ℕ → Call ResolvedModel
cached_or kind tenant (some r) frames s = (ok r.model, s)
cached_or kind tenant none frames s = keep_resolved kind tenant (from_db frames kind tenant s) s

-- `resolve(kind, tenant_id)`
unfoldable pub resolve : ℕ → ModelKind → Option ℕ → Call ResolvedModel
unfolding from_db
resolve frames kind tenant s =
    let scope = or_ambient tenant s.tenant in cached_or kind scope (cached kind scope s) frames s

-- `[kind] if kind else list(SETTINGS_KEY)`
abbrev pub kind_meant : Option ModelKind → ModelKind → Bool
kind_meant none _ = true
kind_meant (some k) kind = same_kind kind k

abbrev pub is_hotel : List ℕ → Option ℕ → Bool
is_hotel hotels none = true
is_hotel hotels (some t) = any (λ h. h == t) hotels

-- `invalidate(kind, tenant_id)`: an edit of a hotel's row clears the hotel's entries, one of a
-- platform row those of the platform and of every hotel.
unfoldable pub invalidate : Option ModelKind → Option ℕ → List ℕ → Desk → Desk
invalidate kind (some t) hotels s = record s {
  resolutions =
      filter (λ (r : Resolution). not (kind_meant kind r.kind && same_tenant r.tenant (some t)))
        s.resolutions;
}
invalidate kind none hotels s = record s {
  resolutions =
      filter (λ (r : Resolution). not (kind_meant kind r.kind && is_hotel hotels r.tenant))
        s.resolutions;
}

pub data Adapter : Type 0 where
  openai_adapter anthropic_adapter edge_tts_adapter fake_adapter : Adapter

-- `PROVIDER_ADAPTERS.get(name)`
abbrev pub adapter_of : Provider → Option Adapter
adapter_of openai = some openai_adapter
adapter_of openai_compatible = some openai_adapter
adapter_of azure_openai = some openai_adapter
adapter_of gemini = some openai_adapter
adapter_of google = some openai_adapter
adapter_of moonshot = some openai_adapter
adapter_of zai = some openai_adapter
adapter_of groq = some openai_adapter
adapter_of openrouter = some openai_adapter
adapter_of local = some openai_adapter
adapter_of other = some openai_adapter
adapter_of anthropic = some anthropic_adapter
adapter_of edge_tts = some edge_tts_adapter
adapter_of fake = some fake_adapter
adapter_of azure_speech = none
adapter_of local_clip = none
adapter_of local_insightface = none
adapter_of paddleocr = none
