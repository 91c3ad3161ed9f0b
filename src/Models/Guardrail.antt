-- ===== src/Models/Guardrail.antt =====
-- crates/mnemo-core/src/models/guardrail.rs. What the code does not implement is a parameter: the
-- regex engine, which says whether a pattern compiles within the size limit and matches, and the
-- comparison of two f32 values. Texts are ASCII.
pub mod Regexes
pub mod Rules
pub mod Actions
pub mod Verdicts
use Prim.Native.Nat.Ordering.{eq}
use mnemo.Base.{
  ℕ, suc, Bool, true, false, not, if◌then◌else◌, ◌==◌, ◌&&◌, ◌||◌, leb, ltb, Option, none, some,
  List, [], ◌∷◌, ◌++◌, any, length, ◌*◌, get_or,
}
use mnemo.Base.Order.{Text, text_ord, eqb}
use mnemo.Base.Ascii.{eq_ignore_case}
use mnemo.Models.Classification.{Classification, rank, exceeds}
use mnemo.Models.ApiKey.{ApiKeyRole, role_rank}

pub data GuardrailTrigger : Type 0 where
  on_ingest on_fact_creation on_retrieval on_entity_creation on_any : GuardrailTrigger

abbrev pub trigger_code : GuardrailTrigger → ℕ
trigger_code on_ingest = 0
trigger_code on_fact_creation = 1
trigger_code on_retrieval = 2
trigger_code on_entity_creation = 3
trigger_code on_any = 4

-- The derived `==` of the trigger.
abbrev pub same_trigger : GuardrailTrigger → GuardrailTrigger → Bool
same_trigger a b = trigger_code a == trigger_code b

unfoldable pub trigger_matches : GuardrailTrigger → GuardrailTrigger → Bool
trigger_matches t operation = same_trigger t on_any || same_trigger t operation

mutual
  pub data GuardrailCondition (F32 : Type 0) : Type 0 where
    classification_above : Classification → GuardrailCondition F32
    entity_type_in : List Text → GuardrailCondition F32
    edge_label_in : List Text → GuardrailCondition F32
    content_matches_regex : Text → GuardrailCondition F32
    caller_role_below : ApiKeyRole → GuardrailCondition F32
    fact_age_above_days : ℕ → GuardrailCondition F32
    confidence_below : F32 → GuardrailCondition F32
    all_of : Conditions F32 → GuardrailCondition F32
    any_of : Conditions F32 → GuardrailCondition F32
    negation : GuardrailCondition F32 → GuardrailCondition F32

  pub data Conditions (F32 : Type 0) : Type 0 where
    nil : Conditions F32
    cons : GuardrailCondition F32 → Conditions F32 → Conditions F32

pub data GuardrailAction : Type 0 where
  block : Text → GuardrailAction
  redact : GuardrailAction
  reclassify : Classification → GuardrailAction
  audit_only : Text → GuardrailAction
  warn : Text → GuardrailAction

pub data GuardrailScope : Type 0 where
  everyone : GuardrailScope
  user : ℕ → GuardrailScope
  agent : Text → GuardrailScope

pub record GuardrailRule (F32 : Type 0) : Type 0 where
  pub id : ℕ
  pub name : Text
  pub description : Text
  pub trigger : GuardrailTrigger
  pub condition : GuardrailCondition F32
  pub action : GuardrailAction
  pub priority : ℕ
  pub enabled : Bool
  pub scope : GuardrailScope
  pub created_at : ℕ
  pub updated_at : ℕ

pub record EvalContext (F32 : Type 0) : Type 0 where
  pub classification : Option Classification
  pub entity_type : Option Text
  pub edge_label : Option Text
  pub content : Option Text
  pub caller_role : Option ApiKeyRole
  pub fact_age_days : Option ℕ
  pub confidence : Option F32
  pub user_id : Option ℕ
  pub agent_id : Option Text

pub record GuardrailEvalResult : Type 0 where
  pub rule_id : ℕ
  pub rule_name : Text
  pub matched : Bool
  pub action : GuardrailAction

pub record GuardrailVerdict : Type 0 where
  pub blocked : Bool
  pub block_reason : Option Text
  pub redact : Bool
  pub reclassify_to : Option Classification
  pub warnings : List Text
  pub audit_entries : List (Text × Text)
  pub details : List GuardrailEvalResult

-- `GuardrailVerdict::default`
abbrev pub no_verdict : GuardrailVerdict
no_verdict = record {
  blocked = false;
  block_reason = none;
  redact = false;
  reclassify_to = none;
  warnings = [];
  audit_entries = [];
  details = [];
}

-- `is_some_and`, and `map(..).unwrap_or(false)`
abbrev pub is_some_and {ℓ} : {A : Type ℓ} → Option A → (A → Bool) → Bool
is_some_and none test = false
is_some_and (some x) test = test x

abbrev pub max_content_len : ℕ
max_content_len = 100 * 1024

-- `none`: the pattern does not compile, or not within the size limits.
module _ {F32 : Type 0} (f32_lt : F32 → F32 → Bool) (regex_match : Text → Text → Option Bool) where
  unfoldable mutual
    pub evaluate : GuardrailCondition F32 → EvalContext F32 → Bool
    evaluate (classification_above c) ctx = is_some_and ctx.classification λ d. exceeds d c
    evaluate (entity_type_in types) ctx =
        is_some_and ctx.entity_type λ et. any (λ t. eq_ignore_case t et) types
    evaluate (edge_label_in labels) ctx =
        is_some_and ctx.edge_label λ el. any (λ l. eq_ignore_case l el) labels
    evaluate (content_matches_regex pattern) ctx = is_some_and ctx.content λ content.
        if ltb max_content_len (length content)
        then false
        else get_or (regex_match pattern content) false
    evaluate (caller_role_below role) ctx =
        is_some_and ctx.caller_role λ cr. ltb (role_rank cr) (role_rank role)
    evaluate (fact_age_above_days days) ctx = is_some_and ctx.fact_age_days λ age. ltb days age
    evaluate (confidence_below confidence) ctx = is_some_and ctx.confidence λ c. f32_lt c confidence
    evaluate (all_of conditions) ctx = evaluate_all conditions ctx
    evaluate (any_of conditions) ctx = evaluate_any conditions ctx
    evaluate (negation condition) ctx = not (evaluate condition ctx)

    pub evaluate_all : Conditions F32 → EvalContext F32 → Bool
    evaluate_all nil ctx = true
    evaluate_all (cons c cs) ctx = evaluate c ctx && evaluate_all cs ctx

    pub evaluate_any : Conditions F32 → EvalContext F32 → Bool
    evaluate_any nil ctx = false
    evaluate_any (cons c cs) ctx = evaluate c ctx || evaluate_any cs ctx
