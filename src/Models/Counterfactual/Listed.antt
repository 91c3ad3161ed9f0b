-- ===== src/Models/Counterfactual/Listed.antt =====
-- Which overrides the simulation lists.
use mathlib.Core.List.{append-nil, append_assoc}
use mnemo.Base.{
  ℕ, suc, ◌≡◌, refl, sym, ap, ◌∙◌, inl, inr, if◌then◌else◌, List, [], ◌∷◌, ◌++◌, map, length, any,
  Bool-cases, List-cases, keep, keep-here, keep-other,
}
use mnemo.Models.Context.{FactSummary}
use mnemo.Models.Counterfactual.{
  HypotheticalFact, OverriddenFact, Simulation, overrides, scan, synthetic, apply_one, apply_each,
}
use mnemo.Models.Counterfactual.Names.{
  after_one, scan-facts, names, says, scan-overridden, none_said, some_said,
}

-- An override, and those of the facts at hand by one hypothetical.
abbrev listing : ℕ → HypotheticalFact → FactSummary → OverriddenFact
listing idx hyp fact = record { original = fact; replaced_by_index = idx; hypothetical = hyp }

abbrev pub listed_by : ℕ → HypotheticalFact → List FactSummary → List OverriddenFact
listed_by idx hyp facts = map (listing idx hyp) (keep (overrides hyp) facts)

-- The facts after one hypothetical, and the overrides by several, each of the facts that those before
-- it leave.
abbrev pub facts_after : ℕ → ℕ → HypotheticalFact → List FactSummary → List FactSummary
facts_after now idx hyp facts =
    map (after_one hyp) facts
    ++ (if any (says hyp) (names facts) then [] else synthetic now idx hyp ∷ [])

abbrev pub listed : ℕ → ℕ → List FactSummary → List HypotheticalFact → List OverriddenFact
listed now idx facts [] = []
listed now idx facts (hyp ∷ hypotheticals) =
    listed_by idx hyp facts ++ listed now (suc idx) (facts_after now idx hyp facts) hypotheticals

scan-listed :
    (idx : ℕ) (hyp : HypotheticalFact) (facts : List FactSummary)
    → (scan idx hyp facts).1 ≡ listed_by idx hyp facts
unfolding scan
scan-listed idx hyp [] = refl
scan-listed idx hyp (fact ∷ facts) = elim (Bool-cases (overrides hyp fact)) [
  | inl p ↦
      rw (p, scan)
        (ap (λ rest. listing idx hyp fact ∷ rest) (scan-listed idx hyp facts)
          ∙ ap (map (listing idx hyp)) (sym (keep-here (overrides hyp) fact facts p)))
  | inr p ↦
      rw (p, scan)
        (scan-listed idx hyp facts
          ∙ ap (map (listing idx hyp)) (sym (keep-other (overrides hyp) fact facts p)))
]

-- One hypothetical, and all of them.
one-listed :
    (now idx : ℕ) (hyp : HypotheticalFact) (s : Simulation)
    → ((apply_one now idx hyp s).facts ≡ facts_after now idx hyp s.facts)
      × ((apply_one now idx hyp s).diff.overridden_facts
          ≡ s.diff.overridden_facts ++ listed_by idx hyp s.facts)
unfolding apply_one
one-listed now idx hyp s = elim (List-cases (scan idx hyp s.facts).1) [
  | inl p ↦
      let unsaid =
        none_said hyp (names s.facts)
          (sym (scan-overridden idx hyp s.facts) ∙ ap (λ xs. length xs) p) in
      (
        rw (p, unsaid, apply_one)
            (ap (λ facts. facts ++ synthetic now idx hyp ∷ []) (scan-facts idx hyp s.facts)),
        rw (p, apply_one)
            (sym (append-nil s.diff.overridden_facts)
              ∙ ap (λ xs. s.diff.overridden_facts ++ xs) (sym p ∙ scan-listed idx hyp s.facts)),
      )
  | inr (o, more, p) ↦
      let said =
        some_said hyp (names s.facts) (length more)
          (sym (scan-overridden idx hyp s.facts) ∙ ap (λ xs. length xs) p) in
      (
        rw (p, said, apply_one)
            (scan-facts idx hyp s.facts ∙ sym (append-nil (map (after_one hyp) s.facts))),
        rw (p, apply_one)
            (ap (λ xs. s.diff.overridden_facts ++ xs) (sym p ∙ scan-listed idx hyp s.facts)),
      )
]

pub each-listed :
    (now idx : ℕ) (hypotheticals : List HypotheticalFact) (s : Simulation)
    → (apply_each now idx hypotheticals s).diff.overridden_facts
      ≡ s.diff.overridden_facts ++ listed now idx s.facts hypotheticals
unfolding apply_each
each-listed now idx [] s = sym (append-nil s.diff.overridden_facts)
each-listed now idx (hyp ∷ hypotheticals) s =
    let next = apply_one now idx hyp s in
    let one = one-listed now idx hyp s in
    each-listed now (suc idx) hypotheticals next
    ∙ ap (λ facts. next.diff.overridden_facts ++ listed now (suc idx) facts hypotheticals) one.0
    ∙ ap (λ before. before ++ listed now (suc idx) (facts_after now idx hyp s.facts) hypotheticals)
        one.1
    ∙ append_assoc s.diff.overridden_facts (listed_by idx hyp s.facts)
        (listed now (suc idx) (facts_after now idx hyp s.facts) hypotheticals)
