-- ===== src/Examples/Guardrails.antt =====
-- Guardrails at a concrete list of rules.
use mnemo.Base.{
  ℕ, ◌≡◌, Bool, true, false, ◌&&◌, List, [], ◌∷◌, Option, none, some, any, length, ltb,
}
use mnemo.Base.Order.{Text, codes, text_ord}
use mnemo.Models.Classification.{internal, confidential, restricted}
use mnemo.Models.ApiKey.{read}
use mnemo.Models.Guardrail.{
  on_ingest, on_any, GuardrailAction, block, reclassify, warn, GuardrailRule, EvalContext,
  GuardrailCondition, classification_above, content_matches_regex, any_of, negation, nil, cons,
  everyone,
}
use mnemo.Models.Guardrail.Rules.{evaluate_rules}
use mnemo.Models.Guardrail.Actions.{level, is_redact}
use mnemo.Models.Guardrail.Verdicts.{
  fires, blocks, before_block, first_reason, highest, messages, audits, evaluate_rules_lem,
}

-- In place of the regex engine: a pattern compiles unless it is empty, and matches an equal text.
abbrev compiles : Text → Bool
compiles p = ltb 0 (length p)

abbrev regex_match : Text → Text → Option Bool
regex_match p content = some (ltb (length p) (length content))

abbrev condition : GuardrailCondition ℕ
condition =
    any_of (
      cons (classification_above internal) (cons (negation (content_matches_regex (codes ""))) nil))

abbrev rule : ℕ → Bool → GuardrailAction → GuardrailRule ℕ
rule id enabled action = record {
  id = id;
  name = codes "r";
  description = codes "d";
  trigger = on_any;
  condition = condition;
  action = action;
  priority = 0;
  enabled = enabled;
  scope = everyone;
  created_at = 0;
  updated_at = 0;
}

abbrev rules : List (GuardrailRule ℕ)
rules =
    rule 1 true (reclassify restricted)
    ∷ rule 2 false (warn (codes "w"))
    ∷ rule 3 true (block (codes "no"))
    ∷ rule 4 true (warn (codes "late"))
    ∷ []

abbrev context : EvalContext ℕ
context = record {
  classification = some confidential;
  entity_type = none;
  edge_label = none;
  content = none;
  caller_role = some read;
  fact_age_days = none;
  confidence = none;
  user_id = some 2;
  agent_id = none;
}

evaluate_rules_lem_example :
    let v = evaluate_rules ltb regex_match rules on_ingest context in
    let earlier = before_block ltb regex_match on_ingest context rules in
    (v.blocked ≡ any (blocks ltb regex_match on_ingest context) rules)
    × (v.block_reason ≡ first_reason ltb regex_match on_ingest context rules)
    × (v.redact
        ≡ any (λ r. fires ltb regex_match on_ingest context r && is_redact r.action) earlier)
    × (level v.reclassify_to ≡ highest ltb regex_match on_ingest context earlier)
    × (v.warnings ≡ messages ltb regex_match on_ingest context earlier)
    × (v.audit_entries ≡ audits ltb regex_match on_ingest context earlier)
evaluate_rules_lem_example = evaluate_rules_lem ltb regex_match on_ingest context rules
