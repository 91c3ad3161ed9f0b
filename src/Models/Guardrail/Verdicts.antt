-- ===== src/Models/Guardrail/Verdicts.antt =====
-- The verdict of guardrail.rs on a list of rules, against a description of which rules count.
use mathlib.Core.List.{append_assoc}
use mnemo.Base.{
  ℕ, ◌≡◌, refl, max, ◌∙◌, Bool, true, false, if◌then◌else◌, ◌&&◌, ◌||◌, Option, none, List, [], ◌∷◌,
  ◌++◌, any, keep, arith, Bool-cases, inl, inr,
}
use mnemo.Base.Order.{Text}
use mnemo.Models.Guardrail.{
  GuardrailTrigger, GuardrailRule, EvalContext, GuardrailVerdict, no_verdict, evaluate,
}
use mnemo.Models.Guardrail.Regexes.{or_else}
use mnemo.Models.Guardrail.Rules.{applies_to, consider, judge, judge_all, evaluate_rules}
use mnemo.Models.Guardrail.Actions.{
  is_block, is_redact, asked, level, message_of, audit_of, reason_of, Adds, append_nil,
  blocking_says_nothing, or_else-none, consider-Adds,
}

module _ {F32 : Type 0} (f32_lt : F32 → F32 → Bool) (regex_match : Text → Text → Option Bool)
    (trigger : GuardrailTrigger) (ctx : EvalContext F32) where
  -- The rule applies and its condition matches.
  abbrev pub fires : GuardrailRule F32 → Bool
  fires r = applies_to r trigger ctx && evaluate f32_lt regex_match r.condition ctx

  abbrev pub blocks : GuardrailRule F32 → Bool
  blocks r = fires r && is_block r.action

  judge-Adds :
      (r : GuardrailRule F32) (v : GuardrailVerdict)
      → Adds (fires r) r.name r.action v (judge f32_lt regex_match trigger ctx r v)
  unfolding judge
  judge-Adds r v =
      consider-Adds r (applies_to r trigger ctx) (evaluate f32_lt regex_match r.condition ctx) v

  -- The rules that come before the first one that blocks.
  abbrev pub before_block : List (GuardrailRule F32) → List (GuardrailRule F32)
  before_block [] = []
  before_block (r ∷ rs) = elim (blocks r) [ true ↦ [] | false ↦ r ∷ before_block rs ]

  abbrev pub first_reason : List (GuardrailRule F32) → Option Text
  first_reason [] = none
  first_reason (r ∷ rs) = elim (blocks r) [ true ↦ reason_of r.action | false ↦ first_reason rs ]

  abbrev pub highest : List (GuardrailRule F32) → ℕ
  highest [] = 0
  highest (r ∷ rs) = max (if fires r then asked r.action else 0) (highest rs)

  abbrev pub messages : List (GuardrailRule F32) → List Text
  messages [] = []
  messages (r ∷ rs) = (if fires r then message_of r.action else []) ++ messages rs

  abbrev pub audits : List (GuardrailRule F32) → List (Text × Text)
  audits [] = []
  audits (r ∷ rs) = (if fires r then audit_of r.name r.action else []) ++ audits rs

  judge_all_blocked :
      (rs : List (GuardrailRule F32)) (v : GuardrailVerdict)
      → (judge_all f32_lt regex_match trigger ctx rs v).blocked ≡ (v.blocked || any blocks rs)
  unfolding judge_all
  judge_all_blocked [] v = ground arith
  judge_all_blocked (r ∷ rs) v = elim (Bool-cases (judge f32_lt regex_match trigger ctx r v).1) [
    | inl k ↦ ground (arith, judge-Adds r v)
    | inr k ↦
        ground
          (arith, judge-Adds r v, judge_all_blocked rs (judge f32_lt regex_match trigger ctx r v).0)
  ]

  judge_all_reason :
      (rs : List (GuardrailRule F32)) (v : GuardrailVerdict)
      → (judge_all f32_lt regex_match trigger ctx rs v).block_reason
        ≡ or_else (first_reason rs) v.block_reason
  unfolding judge_all
  judge_all_reason [] v = refl
  judge_all_reason (r ∷ rs) v = elim (Bool-cases (judge f32_lt regex_match trigger ctx r v).1) [
    | inl k ↦ ground (arith, judge-Adds r v)
    | inr k ↦
        ground
          (arith, judge-Adds r v, judge_all_reason rs (judge f32_lt regex_match trigger ctx r v).0)
  ]

  judge_all_redact :
      (rs : List (GuardrailRule F32)) (v : GuardrailVerdict)
      → (judge_all f32_lt regex_match trigger ctx rs v).redact
        ≡ (v.redact || any (λ r. fires r && is_redact r.action) (before_block rs))
  unfolding judge_all
  judge_all_redact [] v = ground arith
  judge_all_redact (r ∷ rs) v = elim (Bool-cases (judge f32_lt regex_match trigger ctx r v).1) [
    | inl k ↦ ground (arith, judge-Adds r v)
    | inr k ↦
        ground
          (arith, judge-Adds r v, judge_all_redact rs (judge f32_lt regex_match trigger ctx r v).0)
  ]

  level-judge_all :
      (rs : List (GuardrailRule F32)) (v : GuardrailVerdict)
      → level (judge_all f32_lt regex_match trigger ctx rs v).reclassify_to
        ≡ max (level v.reclassify_to) (highest (before_block rs))
  unfolding judge_all
  level-judge_all [] v = ground arith
  level-judge_all (r ∷ rs) v = elim (Bool-cases (judge f32_lt regex_match trigger ctx r v).1) [
    | inl k ↦ ground (arith, judge-Adds r v)
    | inr k ↦
        ground
          (arith, judge-Adds r v, level-judge_all rs (judge f32_lt regex_match trigger ctx r v).0)
  ]

  judge_all_warnings :
      (rs : List (GuardrailRule F32)) (v : GuardrailVerdict)
      → (judge_all f32_lt regex_match trigger ctx rs v).warnings
        ≡ v.warnings ++ messages (before_block rs)
  unfolding judge_all
  judge_all_warnings [] v = append_nil _
  judge_all_warnings (r ∷ rs) v = elim (Bool-cases (judge f32_lt regex_match trigger ctx r v).1) [
    | inl k ↦ ground (arith, judge-Adds r v, blocking_says_nothing r.name r.action)
    | inr k ↦ ground (
      arith,
      judge-Adds r v,
      judge_all_warnings rs (judge f32_lt regex_match trigger ctx r v).0,
      append_assoc v.warnings (if fires r then message_of r.action else [])
          (messages (before_block rs)),
    )
  ]

  judge_all-audits :
      (rs : List (GuardrailRule F32)) (v : GuardrailVerdict)
      → (judge_all f32_lt regex_match trigger ctx rs v).audit_entries
        ≡ v.audit_entries ++ audits (before_block rs)
  unfolding judge_all
  judge_all-audits [] v = append_nil _
  judge_all-audits (r ∷ rs) v = elim (Bool-cases (judge f32_lt regex_match trigger ctx r v).1) [
    | inl k ↦ ground (arith, judge-Adds r v, blocking_says_nothing r.name r.action)
    | inr k ↦ ground (
      arith,
      judge-Adds r v,
      judge_all-audits rs (judge f32_lt regex_match trigger ctx r v).0,
      append_assoc v.audit_entries (if fires r then audit_of r.name r.action else [])
          (audits (before_block rs)),
    )
  ]

  -- The verdict blocks exactly if some rule blocks, that is, applies, matches and has a `Block`
  -- action, and the reason is that of the first such rule. What the rules before it that apply and
  -- match ask for adds up: redaction if one redacts, the highest of the reclassifications, and the
  -- warnings and the audit entries in the order of the rules. The rules after it add nothing.
  pub evaluate_rules_lem :
      (rules : List (GuardrailRule F32))
      → let v = evaluate_rules f32_lt regex_match rules trigger ctx in
        let earlier = before_block rules in
        (v.blocked ≡ any blocks rules)
        × (v.block_reason ≡ first_reason rules)
        × (v.redact ≡ any (λ r. fires r && is_redact r.action) earlier)
        × (level v.reclassify_to ≡ highest earlier)
        × (v.warnings ≡ messages earlier)
        × (v.audit_entries ≡ audits earlier)
  unfolding evaluate_rules
  evaluate_rules_lem rules = (
    judge_all_blocked rules no_verdict,
    judge_all_reason rules no_verdict ∙ or_else-none (first_reason rules),
    judge_all_redact rules no_verdict,
    ground (arith, level-judge_all rules no_verdict),
    judge_all_warnings rules no_verdict,
    judge_all-audits rules no_verdict,
  )

  judge_disabled :
      (r : GuardrailRule F32) (v : GuardrailVerdict)
      → r.enabled ≡ false
      → judge f32_lt regex_match trigger ctx r v ≡ (v, false)
  unfolding judge consider applies_to
  judge_disabled r v h = ground arith

  judge_all-enabled :
      (rs : List (GuardrailRule F32)) (v : GuardrailVerdict)
      → judge_all f32_lt regex_match trigger ctx (keep (λ r. r.enabled) rs) v
        ≡ judge_all f32_lt regex_match trigger ctx rs v
  unfolding judge_all
  judge_all-enabled [] v = refl
  judge_all-enabled (r ∷ rs) v = elim (Bool-cases r.enabled) [
    | inl k ↦ ground (arith, judge_all-enabled rs (judge f32_lt regex_match trigger ctx r v).0)
    | inr k ↦ ground (arith, judge_disabled r v, judge_all-enabled rs v)
  ]

  -- A rule that is switched off has no effect at all, the details of the verdict included: the
  -- verdict on a list of rules is that on the enabled ones among them.
  pub evaluate_rules-enabled :
      (rules : List (GuardrailRule F32))
      → evaluate_rules f32_lt regex_match (keep (λ r. r.enabled) rules) trigger ctx
        ≡ evaluate_rules f32_lt regex_match rules trigger ctx
  unfolding evaluate_rules
  evaluate_rules-enabled rules = judge_all-enabled rules no_verdict
