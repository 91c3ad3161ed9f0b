-- ===== src/Models/View.antt =====
-- crates/mnemo-core/src/models/view.rs. Labels and types are ASCII; instants are numbers of
-- milliseconds, and the clock's reading is an argument.
pub mod Ceiling
use Prim.Native.Nat.Ordering.{eq}
use mnemo.Base.{
  ℕ, ◌-◌, ◌*◌, Bool, true, false, not, if◌then◌else◌, leb, ltb, Option, none, some, List, [], ◌∷◌,
  any,
}
use mnemo.Base.Order.{Text, text_ord}
use mnemo.Base.Ascii.{eq_ignore_case}
use mnemo.Models.Classification.{Classification, rank, exceeds}

pub data TemporalScope : Type 0 where
  last_n_days : ℕ → TemporalScope
  since : ℕ → TemporalScope
  current_only : TemporalScope

pub record MemoryView : Type 0 where
  pub id : ℕ
  pub name : Text
  pub description : Text
  pub max_classification : Classification
  pub allowed_entity_types : Option (List Text)
  pub blocked_edge_labels : Option (List Text)
  pub max_facts : Option ℕ
  pub include_narrative : Bool
  pub temporal_scope : Option TemporalScope
  pub created_at : ℕ
  pub updated_at : ℕ

pub record ViewConstraints : Type 0 where
  pub max_classification : Classification
  pub allowed_entity_types : Option (List Text)
  pub blocked_edge_labels : Option (List Text)
  pub max_facts : Option ℕ
  pub include_narrative : Bool
  pub temporal_scope : Option TemporalScope
  pub view_name : Option Text

unfoldable pub from_view : MemoryView → Classification → ViewConstraints
from_view view caller_max = record {
  max_classification =
      if leb (rank view.max_classification) (rank caller_max)
      then view.max_classification
      else caller_max;
  allowed_entity_types = view.allowed_entity_types;
  blocked_edge_labels = view.blocked_edge_labels;
  max_facts = view.max_facts;
  include_narrative = view.include_narrative;
  temporal_scope = view.temporal_scope;
  view_name = some view.name;
}

unfoldable pub default_for_caller : Classification → ViewConstraints
default_for_caller caller_max = record {
  max_classification = caller_max;
  allowed_entity_types = none;
  blocked_edge_labels = none;
  max_facts = none;
  include_narrative = true;
  temporal_scope = none;
  view_name = none;
}

unfoldable pub allows_entity : ViewConstraints → Classification → Text → Bool
allows_entity v classification entity_type =
    if exceeds classification v.max_classification then false else elim v.allowed_entity_types [
      | none ↦ true
      | some allowed ↦ if not (any (λ t. eq_ignore_case t entity_type) allowed) then false else true
    ]

unfoldable pub allows_edge : ViewConstraints → Classification → Text → Bool
allows_edge v classification label =
    if exceeds classification v.max_classification then false else elim v.blocked_edge_labels [
      | none ↦ true
      | some blocked ↦ if any (λ l. eq_ignore_case l label) blocked then false else true
    ]

abbrev pub day_ms : ℕ
day_ms = 86_400_000

-- `allows_time` at the time `now`. A cutoff before the epoch is taken as the epoch, since no
-- instant here lies before it.
unfoldable pub allows_time : ℕ → ViewConstraints → ℕ → Bool
allows_time now v valid_at = elim v.temporal_scope [
  | none ↦ true
  | some current_only ↦ true
  | some (since t) ↦ leb t valid_at
  | some (last_n_days days) ↦ leb (now - days * day_ms) valid_at
]
