-- ===== src/Ai/Registry/Coherent.antt =====
-- services/ai/registry.py, `invalidate`: what is resolved after an edit.
use fab_ai_smart_hotel_manag.Prelude.{
  ℕ, ◌≡◌, refl, inl, inr, Bool, true, not, ◌&&◌, Option, none, some, List, [], ◌∷◌, arith, ==_iff,
  filter, find?, Bool-cases, ap, sym, ◌∙◌, subst,
}
use mathlib.Core.Bool.{false≢true}
use fab_ai_smart_hotel_manag.Prelude.Exec.{Result, ok, err}
use fab_ai_smart_hotel_manag.Ai.Models.{
  ModelKind, Resolution, Desk, same_kind, AiError, ResolvedModel,
}
use fab_ai_smart_hotel_manag.Ai.Registry.{
  same_tenant, or_ambient, is_entry, kind_meant, is_hotel, invalidate, resolve, keep_resolved,
  from_db,
}

find?-cleared :
    (p q : Resolution → Bool) (rs : List Resolution)
    → ((r : Resolution) → p r ≡ true → q r ≡ true)
    → find? p (filter (λ r. not (q r)) rs) ≡ none
find?-cleared p q [] h = refl
find?-cleared p q (r ∷ rs) h = elim (Bool-cases (q r)) [
  | inl t ↦ rw t (find?-cleared p q rs h)
  | inr f ↦ elim (Bool-cases (p r)) [
    | inl own ↦ absurd (false≢true (sym f ∙ h r own))
    | inr other ↦ rw (f, other) (find?-cleared p q rs h)
  ]
]

same_tenant-eq : (a b : Option ℕ) → same_tenant a b ≡ true → a ≡ b
same_tenant-eq none none h = refl
same_tenant-eq none (some b) h = absurd (false≢true h)
same_tenant-eq (some a) none h = absurd (false≢true h)
same_tenant-eq (some a) (some b) h = ap some ((==_iff a b).0 h)

kind_meant-same :
    (kind : Option ModelKind) (a b : ModelKind)
    → kind_meant kind b ≡ true
    → same_kind a b ≡ true
    → kind_meant kind a ≡ true
kind_meant-same none a b h k = refl
kind_meant-same (some c) a b h k = ground arith

-- The entries of a scope are among those that an edit clears.
abbrev pub is_cleared : Option ℕ → List ℕ → Option ℕ → Bool
is_cleared (some t) hotels scope = same_tenant scope (some t)
is_cleared none hotels scope = is_hotel hotels scope

is_cleared-same :
    (edit : Option ℕ) (hotels : List ℕ) (a b : Option ℕ)
    → is_cleared edit hotels b ≡ true
    → same_tenant a b ≡ true
    → is_cleared edit hotels a ≡ true
is_cleared-same edit hotels a b h k =
    subst (λ (t : Option ℕ). is_cleared edit hotels t ≡ true) (sym (same_tenant-eq a b k)) h

entry-is_cleared :
    (edit : Option ℕ) (meant : Option ModelKind) (hotels : List ℕ) (kind : ModelKind)
    (scope : Option ℕ) (r : Resolution)
    → kind_meant meant kind ≡ true
    → is_cleared edit hotels scope ≡ true
    → is_entry kind scope r ≡ true
    → (kind_meant meant r.kind && is_cleared edit hotels r.tenant) ≡ true
entry-is_cleared edit meant hotels kind scope r k c e =
    let same : same_kind r.kind kind ≡ true = ground (arith, e) in
    let own : same_tenant r.tenant scope ≡ true = ground (arith, e) in
    rw (kind_meant-same meant r.kind kind k same, is_cleared-same edit hotels r.tenant scope c own)

uncached-first :
    (kind : ModelKind) (tenant : Option ℕ) (r : Result AiError ResolvedModel) (s : Desk)
    → (keep_resolved kind tenant r s).0 ≡ r
uncached-first kind tenant (ok m) s = refl
uncached-first kind tenant (err e) s = refl

-- After an edit the next call sees the tables: once the entries of a hotel's row, or of a platform
-- row, are invalidated, what is resolved for a scope that they serve is what the tables and the
-- settings give now, whatever was cached before.
pub resolve-invalidate :
    (frames : ℕ) (meant : Option ModelKind) (edit : Option ℕ) (hotels : List ℕ) (kind : ModelKind)
    (tenant : Option ℕ) (s : Desk)
    → kind_meant meant kind ≡ true
    → is_cleared edit hotels (or_ambient tenant s.tenant) ≡ true
    → (resolve frames kind tenant (invalidate meant edit hotels s)).0
      ≡ from_db frames kind (or_ambient tenant s.tenant) s
unfolding resolve invalidate from_db
resolve-invalidate frames meant (some t) hotels kind tenant s k c =
    let scope = or_ambient tenant s.tenant in
    rw
      (find?-cleared (is_entry kind scope)
        (λ r. kind_meant meant r.kind && same_tenant r.tenant (some t)) s.resolutions
        (λ r e. entry-is_cleared (some t) meant hotels kind scope r k c e))
      (uncached-first kind scope (from_db frames kind scope s) _)
resolve-invalidate frames meant none hotels kind tenant s k c =
    let scope = or_ambient tenant s.tenant in
    rw
      (find?-cleared (is_entry kind scope)
        (λ r. kind_meant meant r.kind && is_hotel hotels r.tenant) s.resolutions
        (λ r e. entry-is_cleared none meant hotels kind scope r k c e))
      (uncached-first kind scope (from_db frames kind scope s) _)
