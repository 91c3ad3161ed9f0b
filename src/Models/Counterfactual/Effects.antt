-- ===== src/Models/Counterfactual/Effects.antt =====
-- What the hypotheticals do to the facts.
use mathlib.Core.List.{Permᴰ}
use mathlib.Core.List.Permᴰ
use mnemo.Base.{ℕ, ◌+◌, ◌≡◌, List, [], ◌∷◌, ◌++◌, map, length, true, false, any}
use mnemo.Base.Order.{Text, text_ord}
use mnemo.Models.Counterfactual.{HypotheticalFact, Simulation, synthetic}
use mnemo.Models.Counterfactual.Names.{
  after_one, after_all, names, says, how_many, novel_among, new_facts, overrides_among,
}

-- From a state to a later one, `known` being the names of the facts before.
record Effect (now idx : ℕ) (known : List (Text × Text)) (hypotheticals : List HypotheticalFact)
    (s after : Simulation) : Type 0 where
  facts :
      after.facts ≡ map (after_all hypotheticals) s.facts ++ new_facts now idx known hypotheticals
  novel :
      after.diff.novel_hypotheticals ≡ s.diff.novel_hypotheticals ++ novel_among known hypotheticals
  overridden :
      length after.diff.overridden_facts
      ≡ length s.diff.overridden_facts + overrides_among known hypotheticals
  injected :
      after.diff.injected_count
      ≡ s.diff.injected_count
        + (overrides_among known hypotheticals + length (novel_among known hypotheticals))

-- One hypothetical that names no fact, and one that names some.
record Adds (now idx : ℕ) (hyp : HypotheticalFact) (s after : Simulation) : Type 0 where
  unsaid : any (says hyp) (names s.facts) ≡ false
  facts : after.facts ≡ map (after_one hyp) s.facts ++ synthetic now idx hyp ∷ []
  novel : after.diff.novel_hypotheticals ≡ s.diff.novel_hypotheticals ++ hyp ∷ []
  overridden : after.diff.overridden_facts ≡ s.diff.overridden_facts
  injected : after.diff.injected_count ≡ s.diff.injected_count + 1

record Overrides (hyp : HypotheticalFact) (s after : Simulation) : Type 0 where
  said : any (says hyp) (names s.facts) ≡ true
  facts : after.facts ≡ map (after_one hyp) s.facts
  novel : after.diff.novel_hypotheticals ≡ s.diff.novel_hypotheticals
  overridden :
      length after.diff.overridden_facts
      ≡ length s.diff.overridden_facts + how_many hyp (names s.facts)
  injected : after.diff.injected_count ≡ s.diff.injected_count + how_many hyp (names s.facts)
