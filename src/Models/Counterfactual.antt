-- ===== src/Models/Counterfactual.antt =====
-- `apply_hypotheticals` of crates/mnemo-core/src/models/counterfactual.rs, on the facts of a context.
-- Texts are ASCII; the comparison of two f32 is a parameter, the clock's reading an argument.
pub mod Names
pub mod Listed
pub mod Effects
use Prim.Native.Nat.{Ordering}
use mnemo.Base.{ℕ, suc, ◌+◌, Bool, ◌&&◌, if◌then◌else◌, Option, none, List, [], ◌∷◌, ◌++◌, length}
use mnemo.Base.Order.{Text, codes, text_ord, eqb}
use mnemo.Base.Ascii.{to_lowercase}
use mnemo.Models.Classification.{Classification}
use mnemo.Models.Context.{FactSummary}

pub record HypotheticalFact : Type 0 where
  pub entity : Text
  pub attribute : Text
  pub value : Text
  pub confidence : ℕ

pub record OverriddenFact : Type 0 where
  pub original : FactSummary
  pub replaced_by_index : ℕ
  pub hypothetical : HypotheticalFact

pub record CounterfactualDiff : Type 0 where
  pub overridden_facts : List OverriddenFact
  pub injected_count : ℕ
  pub novel_hypotheticals : List HypotheticalFact

-- Same entity and label, whatever the case.
abbrev pub overrides : HypotheticalFact → FactSummary → Bool
overrides hyp fact =
    eqb (to_lowercase fact.source_entity) (to_lowercase hyp.entity)
    && eqb (to_lowercase fact.label) (to_lowercase hyp.attribute)

abbrev sentence : HypotheticalFact → Text
sentence hyp = hyp.entity ++ codes " " ++ hyp.attribute ++ codes " " ++ hyp.value

unfoldable pub replace : HypotheticalFact → FactSummary → FactSummary
replace hyp fact = record fact {
  fact = sentence hyp;
  relevance = hyp.confidence;
  invalid_at = none;
}

-- The loop over the facts for one hypothetical: the facts after it, and what it has overridden.
unfoldable pub scan :
    ℕ → HypotheticalFact → List FactSummary → List FactSummary × List OverriddenFact
scan idx hyp [] = ([], [])
scan idx hyp (fact ∷ facts) =
    let rest = scan idx hyp facts in
    if overrides hyp fact
    then (
      replace hyp fact ∷ rest.0,
      record { original = fact; replaced_by_index = idx; hypothetical = hyp } ∷ rest.1,
    )
    else (fact ∷ rest.0, rest.1)

unfoldable pub synthetic : ℕ → ℕ → HypotheticalFact → FactSummary
synthetic now idx hyp = record {
  id = 3472883712 + idx;
  source_entity = hyp.entity;
  target_entity = hyp.value;
  label = hyp.attribute;
  fact = sentence hyp;
  classification = Classification.internal;
  valid_at = now;
  invalid_at = none;
  relevance = hyp.confidence;
  access_count = 0;
  last_accessed_at = none;
  temporal_scope = none;
}

-- The facts while the hypotheticals are applied, with the difference so far.
pub record Simulation : Type 0 where
  pub facts : List FactSummary
  pub diff : CounterfactualDiff

unfoldable pub apply_one : ℕ → ℕ → HypotheticalFact → Simulation → Simulation
apply_one now idx hyp s =
    let scanned = scan idx hyp s.facts in
    elim (scanned.1) [
      | [] ↦ record {
        facts = scanned.0 ++ synthetic now idx hyp ∷ [];
        diff = record (s.diff) {
          injected_count = s.diff.injected_count + 1;
          novel_hypotheticals = s.diff.novel_hypotheticals ++ hyp ∷ [];
        };
      }
      | o ∷ more ↦ record {
        facts = scanned.0;
        diff = record (s.diff) {
          overridden_facts = s.diff.overridden_facts ++ (o ∷ more);
          injected_count = s.diff.injected_count + length (o ∷ more);
        };
      }
    ]

unfoldable pub apply_each : ℕ → ℕ → List HypotheticalFact → Simulation → Simulation
apply_each now idx [] s = s
apply_each now idx (hyp ∷ hypotheticals) s =
    apply_each now (suc idx) hypotheticals (apply_one now idx hyp s)

-- `partial_cmp(..).unwrap_or(Equal)` of two f32.
module _ (compare_f32 : ℕ → ℕ → Ordering) where
  unfoldable pub insert_by_relevance : FactSummary → List FactSummary → List FactSummary
  insert_by_relevance a [] = a ∷ []
  insert_by_relevance a (b ∷ facts) =
      let below = insert_by_relevance a facts in
      elim (compare_f32 b.relevance a.relevance) [ Ordering.gt ↦ b ∷ below | _ ↦ a ∷ b ∷ facts ]

  -- `sort_by`, which is stable.
  unfoldable pub sort_by_relevance : List FactSummary → List FactSummary
  sort_by_relevance [] = []
  sort_by_relevance (a ∷ facts) = insert_by_relevance a (sort_by_relevance facts)

  unfoldable pub apply_hypotheticals :
      ℕ → List FactSummary → List HypotheticalFact → List FactSummary × CounterfactualDiff
  apply_hypotheticals now facts hypotheticals =
      let s = apply_each now 0 hypotheticals (record {
        facts = facts;
        diff = record { overridden_facts = []; injected_count = 0; novel_hypotheticals = [] };
      }) in
      (sort_by_relevance s.facts, s.diff)
