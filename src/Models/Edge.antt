-- ===== src/Models/Edge.antt =====
-- crates/mnemo-core/src/models/edge.rs without the floating-point scores. Ids are numbers, instants
-- numbers of milliseconds, `confidence` the bits of the f32 and `metadata` the text of the JSON
-- value, which nothing here reads; the clock's reading and the new id are arguments.
pub mod Validity
use Prim.Native.Nat.Ordering.{eq}
use mnemo.Base.{
  ℕ, Bool, true, false, not, if◌then◌else◌, leb, ltb, ◌==◌, Option, none, some, get_or, add_u32,
  length, all, ◌&&◌, ◌||◌, is_some, List, [], ◌∷◌,
}
use mnemo.Base.Order.{Text, codes, text_ord, eqb}
use mnemo.Base.Ascii.{trim, is_alphanumeric}
use mnemo.Models.Classification.{Classification, exceeds}

pub data FactTemporalScope : Type 0 where
  mutable stable : FactTemporalScope
  time_bounded : Option ℕ → FactTemporalScope

unfoldable pub is_current_at : FactTemporalScope → ℕ → Bool
is_current_at mutable now = true
is_current_at stable now = true
is_current_at (time_bounded none) now = true
is_current_at (time_bounded (some exp)) now = ltb now exp

unfoldable pub resists_decay : FactTemporalScope → Bool
resists_decay stable = true
resists_decay _ = false

pub record Edge : Type 0 where
  pub id : ℕ
  pub user_id : ℕ
  pub source_entity_id : ℕ
  pub target_entity_id : ℕ
  pub label : Text
  pub fact : Text
  pub valid_at : ℕ
  pub invalid_at : Option ℕ
  pub ingested_at : ℕ
  pub source_episode_id : ℕ
  pub source_agent_id : Option Text
  pub invalidated_by_episode_id : Option ℕ
  pub confidence : ℕ
  pub corroboration_count : ℕ
  pub metadata : Text
  pub classification : Classification
  pub created_at : ℕ
  pub updated_at : ℕ
  pub temporal_scope : Option FactTemporalScope
  pub access_count : ℕ
  pub last_accessed_at : Option ℕ

pub record ExtractedRelationship : Type 0 where
  pub source_name : Text
  pub target_name : Text
  pub label : Text
  pub fact : Text
  pub confidence : ℕ
  pub valid_at : Option ℕ
  pub classification : Classification
  pub temporal_scope : Option FactTemporalScope

unfoldable pub from_extraction :
    ℕ → ℕ → ExtractedRelationship → ℕ → ℕ → ℕ → ℕ → ℕ → Option Text → Edge
from_extraction now new_id rel user_id source target episode_id event_time source_agent_id =
    record {
      id = new_id;
      user_id = user_id;
      source_entity_id = source;
      target_entity_id = target;
      label = rel.label;
      fact = rel.fact;
      valid_at = get_or rel.valid_at event_time;
      invalid_at = none;
      ingested_at = now;
      source_episode_id = episode_id;
      source_agent_id = source_agent_id;
      invalidated_by_episode_id = none;
      confidence = rel.confidence;
      corroboration_count = 1;
      metadata = codes "{}";
      classification = rel.classification;
      created_at = now;
      updated_at = now;
      temporal_scope = rel.temporal_scope;
      access_count = 0;
      last_accessed_at = none;
    }

unfoldable pub is_valid : Edge → Bool
is_valid e = not (is_some e.invalid_at)

unfoldable pub is_valid_at : Edge → ℕ → Bool
is_valid_at e time =
    if ltb time e.valid_at
    then false
    else elim e.invalid_at [ none ↦ true | some invalid ↦ ltb time invalid ]

unfoldable pub invalidate : ℕ → Edge → ℕ → Edge
invalidate now e invalidated_by = record e {
  invalid_at = some now;
  invalidated_by_episode_id = some invalidated_by;
  updated_at = now;
}

unfoldable pub corroborate : ℕ → Edge → Edge
corroborate now e = record e {
  corroboration_count = add_u32 e.corroboration_count 1;
  updated_at = now;
}

pub record EdgeFilter : Type 0 where
  pub source_entity_id : Option ℕ
  pub target_entity_id : Option ℕ
  pub label : Option Text
  pub valid_at_time : Option ℕ
  pub include_invalidated : Bool
  pub max_classification : Option Classification
  pub limit : ℕ

-- `EdgeFilter::default`
unfoldable pub default_filter : EdgeFilter
default_filter = record {
  source_entity_id = none;
  target_entity_id = none;
  label = none;
  valid_at_time = none;
  include_invalidated = false;
  max_classification = none;
  limit = 100;
}

-- `if let Some(x) = o { if !test(x) { return false } }`: absent, or the test passes.
abbrev pub passes {ℓ} : {A : Type ℓ} → Option A → (A → Bool) → Bool
passes none test = true
passes (some x) test = test x

unfoldable pub matches : EdgeFilter → Edge → Bool
matches f e =
    if not (passes f.source_entity_id λ src. e.source_entity_id == src)
    then false
    else if not (passes f.target_entity_id λ tgt. e.target_entity_id == tgt)
    then false
    else if not (passes f.label λ label. eqb e.label label)
    then false
    else if not (passes f.valid_at_time λ time. is_valid_at e time)
    then false
    else if not f.include_invalidated && not (is_valid e)
    then false
    else passes f.max_classification λ max. not (exceeds e.classification max)

pub data LabelError : Type 0 where
  empty too_long untrimmed all_whitespace invalid_character : LabelError

pub data Checked : Type 0 where
  ok : Checked
  err : LabelError → Checked

abbrev pub is_label_char : ℕ → Bool
is_label_char c = is_alphanumeric c || c == b'_' || c == b'-' || c == b' '

-- `validate_edge_label`, of an ASCII label.
unfoldable pub validate_edge_label : Text → Checked
validate_edge_label label =
    if length label == 0
    then err empty
    else if ltb 128 (length label)
    then err too_long
    else if not (length (trim label) == length label)
    then err untrimmed
    else if length (trim label) == 0
    then err all_whitespace
    else if not (all is_label_char label)
    then err invalid_character
    else ok
