-- ===== src/Models/Guardrail/Rules.antt =====
-- crates/mnemo-core/src/models/guardrail.rs: which rules fire, and the verdict that they add up to.
use mnemo.Base.{
  Bool, true, false, not, if◌then◌else◌, ◌==◌, ◌||◌, ltb, Option, none, some, List, [], ◌∷◌, ◌++◌,
  all, length,
}
use mnemo.Base.Order.{Text, text_ord, eqb}
use mnemo.Base.Ascii.{is_alphanumeric}
use mnemo.Models.Classification.{Classification, exceeds}
use mnemo.Models.Guardrail.{
  GuardrailTrigger, trigger_matches, GuardrailAction, block, redact, reclassify, audit_only, warn,
  everyone, user, agent, GuardrailRule, EvalContext, GuardrailVerdict, no_verdict, is_some_and,
  evaluate,
}

unfoldable pub applies_to :
    {F32 : Type 0} → GuardrailRule F32 → GuardrailTrigger → EvalContext F32 → Bool
unfolding trigger_matches text_ord
applies_to r trigger ctx =
    if not r.enabled
    then false
    else if not (trigger_matches r.trigger trigger)
    then false
    else elim r.scope [
      | everyone ↦ true
      | user rule_user ↦ is_some_and ctx.user_id λ u. u == rule_user
      | agent rule_agent ↦ is_some_and ctx.agent_id λ a. eqb a rule_agent
    ]

-- `verdict.details.push(..)`
unfoldable pub note :
    {F32 : Type 0} → GuardrailRule F32 → Bool → GuardrailVerdict → GuardrailVerdict
note r matched v = record v {
  details =
      v.details
      ++ (record { rule_id = r.id; rule_name = r.name; matched = matched; action = r.action } ∷ []);
}

-- The highest reclassification is kept.
unfoldable pub keep_highest : Option Classification → Classification → Option Classification
keep_highest none c = some c
keep_highest (some existing) c = if exceeds c existing then some c else some existing

-- The `match` on the action, and whether it returns from the loop.
unfoldable pub act : Text → GuardrailAction → GuardrailVerdict → GuardrailVerdict × Bool
unfolding keep_highest
act name (block reason) v = (record v { blocked = true; block_reason = some reason }, true)
act name redact v = (record v { redact = true }, false)
act name (reclassify c) v = (record v { reclassify_to = keep_highest v.reclassify_to c }, false)
act name (audit_only severity) v =
    (record v { audit_entries = v.audit_entries ++ ((name, severity) ∷ []) }, false)
act name (warn message) v = (record v { warnings = v.warnings ++ (message ∷ []) }, false)

-- The loop's body on a rule, given whether it applies and whether its condition matches.
unfoldable pub consider :
    {F32 : Type 0} → GuardrailRule F32 → Bool → Bool → GuardrailVerdict → GuardrailVerdict × Bool
unfolding note act
consider r applies matched v =
    if not applies
    then (v, false)
    else let noted = note r matched v in
      if not matched then (noted, false) else act r.name r.action noted

module _ {F32 : Type 0} (f32_lt : F32 → F32 → Bool) (regex_match : Text → Text → Option Bool) where
  -- One pass of the loop, and whether it returns.
  unfoldable pub judge :
      GuardrailTrigger
      → EvalContext F32
      → GuardrailRule F32
      → GuardrailVerdict
      → GuardrailVerdict × Bool
  unfolding applies_to consider evaluate
  judge trigger ctx r v =
      consider r (applies_to r trigger ctx) (evaluate f32_lt regex_match r.condition ctx) v

  unfoldable pub judge_all :
      GuardrailTrigger
      → EvalContext F32
      → List (GuardrailRule F32)
      → GuardrailVerdict
      → GuardrailVerdict
  unfolding judge
  judge_all trigger ctx [] v = v
  judge_all trigger ctx (r ∷ rs) v =
      let outcome = judge trigger ctx r v in
      elim outcome.1 [ true ↦ outcome.0 | false ↦ judge_all trigger ctx rs outcome.0 ]

  unfoldable pub evaluate_rules :
      List (GuardrailRule F32) → GuardrailTrigger → EvalContext F32 → GuardrailVerdict
  unfolding judge_all
  evaluate_rules rules trigger ctx = judge_all trigger ctx rules no_verdict

pub data GuardrailNameError : Type 0 where
  bad_length bad_character : GuardrailNameError

-- `none` is `Ok(())`.
unfoldable pub validate_guardrail_name : Text → Option GuardrailNameError
validate_guardrail_name name =
    if length name == 0 || ltb 64 (length name)
    then some bad_length
    else if not (all (λ c. is_alphanumeric c || c == b'_' || c == b'-') name)
    then some bad_character
    else none
