-- ===== src/Models/Edge/Validity.antt =====
-- When a fact of edge.rs holds, and which facts a filter lets through.
use mnemo.Base.{
  ℕ, ◌≤◌, ◌<◌, ◌≡◌, ◌↔◌, refl, Bool, true, false, Option, none, some, arith, Option-cases, inl, inr,
  subst, not, ==_iff, ◌==◌,
}
use mnemo.Base.Order.{Text, text_ord, cmp_self, eqb}
use mnemo.Models.Classification.{Classification, rank, exceeds}
use mnemo.Models.Edge.{
  Edge, EdgeFilter, ExtractedRelationship, from_extraction, is_valid, is_valid_at, invalidate,
  default_filter, matches, passes,
}

-- A fact holds at a time exactly from its start until, if it was invalidated, the time of that.
pub is_valid_at_iff :
    (e : Edge) (time : ℕ)
    → (is_valid_at e time ≡ true)
      ↔ ((e.valid_at ≤ time) × ((invalid : ℕ) → e.invalid_at ≡ some invalid → time < invalid))
unfolding is_valid_at
is_valid_at_iff e time = (
  λ h. (ground arith, λ invalid k. ground arith),
  λ h. elim (Option-cases e.invalid_at) [
    | inl k ↦ ground (arith, h.0)
    | inr (invalid, k) ↦ ground (arith, h.0, h.1 invalid k)
  ],
)

-- Invalidating a currently valid fact takes it out of the present and the future and leaves the
-- past as it was: it still holds at each time before now at which it held, and at none from now on.
pub is_valid_at-invalidate :
    (now episode : ℕ) (e : Edge) (time : ℕ)
    → is_valid e ≡ true
    → (is_valid (invalidate now e episode) ≡ false)
      × (time < now → is_valid_at (invalidate now e episode) time ≡ is_valid_at e time)
      × (now ≤ time → is_valid_at (invalidate now e episode) time ≡ false)
unfolding is_valid is_valid_at invalidate
is_valid_at-invalidate now episode e time h = (refl, λ k. ground arith, λ k. ground arith)

-- A fact that is made from an extraction is currently valid, holds from its stated start (the
-- event's time if none was stated), and passes the default filter.
pub from_extraction_valid :
    (now new_id user source target episode event_time time : ℕ) (agent : Option Text)
    (rel : ExtractedRelationship)
    → let e = from_extraction now new_id rel user source target episode event_time agent in
      (is_valid e ≡ true)
      × (rel.valid_at ≡ none → (is_valid_at e time ≡ true) ↔ (event_time ≤ time))
      × ((start : ℕ) → rel.valid_at ≡ some start → (is_valid_at e time ≡ true) ↔ (start ≤ time))
      × (matches default_filter e ≡ true)
unfolding from_extraction is_valid is_valid_at matches default_filter
from_extraction_valid now new_id user source target episode event_time time agent rel = (
  refl,
  λ h. (λ k. ground arith, λ k. ground arith),
  λ start h. (λ k. ground arith, λ k. ground arith),
  refl,
)

passes_iff {ℓ} :
    {A : Type ℓ} (o : Option A) (test : A → Bool)
    → (passes o test ≡ true) ↔ ((x : A) → o ≡ some x → test x ≡ true)
passes_iff none test = (λ h x e. ground arith, λ h. refl)
passes_iff {A} (some y) test =
    (λ h x e. subst (λ z. test z ≡ true) (injected y x e) h, λ h. h y refl)
  where
    injected : (a b : A) → some a ≡ some b → a ≡ b
    injected a b e = cc

-- A filter lets through exactly the facts that meet every condition it sets: the ends, the label,
-- validity at the given time, current validity unless invalidated facts are included, and a
-- classification within the ceiling.
pub matches_iff :
    (f : EdgeFilter) (e : Edge)
    → (matches f e ≡ true) ↔ (
        ((src : ℕ) → f.source_entity_id ≡ some src → e.source_entity_id ≡ src)
        × ((tgt : ℕ) → f.target_entity_id ≡ some tgt → e.target_entity_id ≡ tgt)
        × ((label : Text) → f.label ≡ some label → e.label ≡ label)
        × ((time : ℕ) → f.valid_at_time ≡ some time → is_valid_at e time ≡ true)
        × (f.include_invalidated ≡ false → is_valid e ≡ true)
        × ((top : Classification)
            → f.max_classification ≡ some top
            → rank e.classification ≤ rank top))
unfolding matches
matches_iff f e = (
  λ h. (
    λ src k.
        (==_iff e.source_entity_id src).0
          ((passes_iff f.source_entity_id (λ x. e.source_entity_id == x)).0 (ground arith) src k),
    λ tgt k.
        (==_iff e.target_entity_id tgt).0
          ((passes_iff f.target_entity_id (λ x. e.target_entity_id == x)).0 (ground arith) tgt k),
    λ label k. text_ord.eq_of_cmp e.label label (ground arith),
    λ time k. ground arith,
    λ k. ground arith,
    λ top k. ground arith,
  ),
  λ (src, tgt, label, time, current, top). ground (
    arith,
    (passes_iff f.source_entity_id (λ x. e.source_entity_id == x)).1
        (λ x k. (==_iff _ x).1 (src x k)),
    (passes_iff f.target_entity_id (λ x. e.target_entity_id == x)).1
        (λ x k. (==_iff _ x).1 (tgt x k)),
    (passes_iff f.label (λ x. eqb e.label x)).1
        (λ x k. ground (arith, cmp_self e.label x (label x k))),
    (passes_iff f.valid_at_time (λ x. is_valid_at e x)).1 time,
    current,
    (passes_iff f.max_classification (λ x. not (exceeds e.classification x))).1
        (λ x k. ground (arith, top x k)),
  ),
)
