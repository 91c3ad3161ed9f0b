-- ===== src/Models/Guardrail/Regexes.antt =====
-- crates/mnemo-core/src/models/guardrail.rs: the check of a condition's patterns when a rule is
-- stored. Whether `Regex::new` compiles a pattern is a parameter.
use mnemo.Base.{
  ◌≡◌, refl, ap, sym, ◌∙◌, Bool, not, if◌then◌else◌, Option, none, some, List, [], ◌∷◌, ◌++◌, arith,
}
use mnemo.Base.Order.{Text}
use mnemo.Models.Guardrail.{
  GuardrailCondition, classification_above, entity_type_in, edge_label_in, content_matches_regex,
  caller_role_below, fact_age_above_days, confidence_below, all_of, any_of, negation, Conditions,
  nil, cons, EvalContext, evaluate, evaluate_all, evaluate_any,
}

abbrev pub or_else : Option Text → Option Text → Option Text
or_else none other = other
or_else (some p) other = some p

-- The pattern that is reported, or `none` for `Ok(())`.
module _ {F32 : Type 0} (compiles : Text → Bool) where
  unfoldable mutual
    pub validate_condition_regexes : GuardrailCondition F32 → Option Text
    validate_condition_regexes (content_matches_regex pattern) =
        if compiles pattern then none else some pattern
    validate_condition_regexes (all_of conditions) = validate_each conditions
    validate_condition_regexes (any_of conditions) = validate_each conditions
    validate_condition_regexes (negation condition) = validate_condition_regexes condition
    validate_condition_regexes _ = none

    pub validate_each : Conditions F32 → Option Text
    validate_each nil = none
    validate_each (cons c cs) = or_else (validate_condition_regexes c) (validate_each cs)

-- The patterns of a condition, from left to right.
unfoldable mutual
  pub patterns : {F32 : Type 0} → GuardrailCondition F32 → List Text
  patterns (content_matches_regex pattern) = pattern ∷ []
  patterns (all_of cs) = patterns_each cs
  patterns (any_of cs) = patterns_each cs
  patterns (negation c) = patterns c
  patterns _ = []

  pub patterns_each : {F32 : Type 0} → Conditions F32 → List Text
  patterns_each nil = []
  patterns_each (cons c cs) = patterns c ++ patterns_each cs

abbrev pub first_bad : (Text → Bool) → List Text → Option Text
first_bad compiles [] = none
first_bad compiles (p ∷ ps) = if compiles p then first_bad compiles ps else some p

first_bad-append :
    (compiles : Text → Bool) (ps qs : List Text)
    → first_bad compiles (ps ++ qs) ≡ or_else (first_bad compiles ps) (first_bad compiles qs)
first_bad-append compiles [] qs = refl
first_bad-append compiles (p ∷ ps) qs = ground (arith, first_bad-append compiles ps qs)

module _ {F32 : Type 0} (compiles : Text → Bool) where
  mutual
    unfolding validate_condition_regexes validate_each patterns patterns_each

    validate_one :
        (c : GuardrailCondition F32)
        → validate_condition_regexes compiles c ≡ first_bad compiles (patterns c)
    validate_one (content_matches_regex pattern) = refl
    validate_one (all_of cs) = validate_list cs
    validate_one (any_of cs) = validate_list cs
    validate_one (negation c) = validate_one c
    validate_one (classification_above _) = refl
    validate_one (entity_type_in _) = refl
    validate_one (edge_label_in _) = refl
    validate_one (caller_role_below _) = refl
    validate_one (fact_age_above_days _) = refl
    validate_one (confidence_below _) = refl

    validate_list :
        (cs : Conditions F32) → validate_each compiles cs ≡ first_bad compiles (patterns_each cs)
    validate_list nil = refl
    validate_list (cons c cs) =
        ap (λ o. or_else o (validate_each compiles cs)) (validate_one c)
        ∙ ap (or_else (first_bad compiles (patterns c))) (validate_list cs)
        ∙ sym (first_bad-append compiles (patterns c) (patterns_each cs))

  -- The check of a condition reports the leftmost of its patterns that does not compile, however
  -- deep it stands under conjunctions, disjunctions and negations, and succeeds if all compile.
  pub validate_condition_regexes_lem :
      (c : GuardrailCondition F32)
      → validate_condition_regexes compiles c ≡ first_bad compiles (patterns c)
  validate_condition_regexes_lem c = validate_one c

abbrev pub negate_each : {F32 : Type 0} → Conditions F32 → Conditions F32
negate_each nil = nil
negate_each (cons c cs) = cons (negation c) (negate_each cs)

module _ {F32 : Type 0} (f32_lt : F32 → F32 → Bool) (regex_match : Text → Text → Option Bool) where
  all-negate :
      (cs : Conditions F32) (ctx : EvalContext F32)
      → evaluate_all f32_lt regex_match (negate_each cs) ctx
        ≡ not (evaluate_any f32_lt regex_match cs ctx)
  unfolding evaluate_all evaluate_any evaluate
  all-negate nil ctx = refl
  all-negate (cons c cs) ctx = ground (arith, all-negate cs ctx)

  any-negate :
      (cs : Conditions F32) (ctx : EvalContext F32)
      → evaluate_any f32_lt regex_match (negate_each cs) ctx
        ≡ not (evaluate_all f32_lt regex_match cs ctx)
  unfolding evaluate_all evaluate_any evaluate
  any-negate nil ctx = refl
  any-negate (cons c cs) ctx = ground (arith, any-negate cs ctx)

  -- Negation moves inward through conjunctions and disjunctions as De Morgan's laws say, in every
  -- context, those included in which a condition does not apply and counts as false.
  pub negation_de_morgan :
      (cs : Conditions F32) (ctx : EvalContext F32)
      → (evaluate f32_lt regex_match (negation (all_of cs)) ctx
          ≡ evaluate f32_lt regex_match (any_of (negate_each cs)) ctx)
        × (evaluate f32_lt regex_match (negation (any_of cs)) ctx
            ≡ evaluate f32_lt regex_match (all_of (negate_each cs)) ctx)
  unfolding evaluate
  negation_de_morgan cs ctx = (ground (arith, any-negate cs ctx), ground (arith, all-negate cs ctx))
