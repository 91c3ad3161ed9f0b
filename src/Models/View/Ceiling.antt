-- ===== src/Models/View/Ceiling.antt =====
-- What the constraints of view.rs let through.
use mnemo.Base.{◌≤◌, ◌≡◌, ◌↔◌, true, false, none, some, List, any, arith}
use mnemo.Base.Order.{Text, text_ord}
use mnemo.Base.Ascii.{eq_ignore_case}
use mnemo.Models.Classification.{Classification, rank}
use mnemo.Models.ApiKey.{CallerContext, max_classification}
use mnemo.Models.View.{MemoryView, ViewConstraints, from_view, allows_entity, allows_edge}

-- What a view, narrowed for a caller, lets through is at most as sensitive as both the view's own
-- ceiling and the caller's; its ceiling is the lower of the two.
pub from_view_ceiling :
    (view : MemoryView) (caller : CallerContext) (c : Classification) (text : Text)
    → let v = from_view view (max_classification caller) in
      ((allows_edge v c text ≡ true)
        → (rank c ≤ rank (max_classification caller)) × (rank c ≤ rank view.max_classification))
      × ((allows_entity v c text ≡ true)
          → (rank c ≤ rank (max_classification caller)) × (rank c ≤ rank view.max_classification))
      × ((rank c ≤ rank (max_classification caller)) × (rank c ≤ rank view.max_classification)
          → rank c ≤ rank v.max_classification)
unfolding from_view allows_edge allows_entity
from_view_ceiling view caller c text = (λ h. ground arith, λ h. ground arith, λ h. ground arith)

-- A label is let through exactly when its classification is within the ceiling and no blocked label
-- equals it up to case; a view without a list blocks no label.
pub allows_edge_iff :
    (v : ViewConstraints) (c : Classification) (label : Text) (blocked : List Text)
    → (v.blocked_edge_labels ≡ some blocked
        → (allows_edge v c label ≡ true) ↔ (
            (rank c ≤ rank v.max_classification)
            × (any (λ l. eq_ignore_case l label) blocked ≡ false)))
      × (v.blocked_edge_labels ≡ none
          → (allows_edge v c label ≡ true) ↔ (rank c ≤ rank v.max_classification))
unfolding allows_edge
allows_edge_iff v c label blocked = (
  λ e. (λ h. (ground arith, ground arith), λ h. ground (arith, h.0, h.1)),
  λ e. (λ h. ground arith, λ h. ground arith),
)
