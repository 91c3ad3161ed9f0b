-- ===== src/Models/Counterfactual/Names.antt =====
-- Which facts a hypothetical names, and what follows for the facts and the hypotheticals.
use mnemo.Base.{
  ℕ, suc, ◌+◌, ◌≡◌, refl, ap, inl, inr, if◌then◌else◌, List, [], ◌∷◌, ◌++◌, map, length, arith,
  Bool, true, false, any, ◌&&◌, Bool-cases,
}
use mnemo.Base.Order.{Text, text_ord, eqb}
use mnemo.Base.Ascii.{to_lowercase}
use mnemo.Models.Context.{FactSummary}
use mnemo.Models.Counterfactual.{HypotheticalFact, overrides, replace, scan, synthetic}

-- A fact after one hypothetical, and after several.
abbrev pub after_one : HypotheticalFact → FactSummary → FactSummary
after_one hyp fact = if overrides hyp fact then replace hyp fact else fact

abbrev pub after_all : List HypotheticalFact → FactSummary → FactSummary
after_all [] fact = fact
after_all (hyp ∷ hypotheticals) fact = after_all hypotheticals (after_one hyp fact)

pub scan-facts :
    (idx : ℕ) (hyp : HypotheticalFact) (facts : List FactSummary)
    → (scan idx hyp facts).0 ≡ map (after_one hyp) facts
unfolding scan
scan-facts idx hyp [] = refl
scan-facts idx hyp (fact ∷ facts) = elim (Bool-cases (overrides hyp fact)) [
  | inl p ↦ rw (p, scan) (ap (λ rest. replace hyp fact ∷ rest) (scan-facts idx hyp facts))
  | inr p ↦ rw (p, scan) (ap (λ rest. fact ∷ rest) (scan-facts idx hyp facts))
]

pub map-after_all :
    (hyp : HypotheticalFact) (hypotheticals : List HypotheticalFact) (facts more : List FactSummary)
    → map (after_all hypotheticals) (map (after_one hyp) facts ++ more)
      ≡ map (after_all (hyp ∷ hypotheticals)) facts ++ map (after_all hypotheticals) more
map-after_all hyp hypotheticals [] more = refl
map-after_all hyp hypotheticals (fact ∷ facts) more =
    ap (λ rest. after_all (hyp ∷ hypotheticals) fact ∷ rest)
      (map-after_all hyp hypotheticals facts more)

-- What the code compares of a fact, which no hypothetical changes.
abbrev name_of : FactSummary → Text × Text
name_of fact = (to_lowercase fact.source_entity, to_lowercase fact.label)

abbrev pub names : List FactSummary → List (Text × Text)
names = map name_of

abbrev pub says : HypotheticalFact → Text × Text → Bool
says hyp name = eqb name.0 (to_lowercase hyp.entity) && eqb name.1 (to_lowercase hyp.attribute)

-- How many facts of these names a hypothetical overrides.
abbrev pub how_many : HypotheticalFact → List (Text × Text) → ℕ
how_many hyp [] = 0
how_many hyp (name ∷ rest) = if says hyp name then suc (how_many hyp rest) else how_many hyp rest

abbrev pub own_name : HypotheticalFact → Text × Text
own_name hyp = (to_lowercase hyp.entity, to_lowercase hyp.attribute)

-- The hypotheticals that name no fact, given the names of the facts: neither one of those at hand nor
-- an earlier hypothetical's.
abbrev pub novel_among : List (Text × Text) → List HypotheticalFact → List HypotheticalFact
novel_among known [] = []
novel_among known (hyp ∷ hypotheticals) =
    if any (says hyp) known
    then novel_among known hypotheticals
    else hyp ∷ novel_among (known ++ own_name hyp ∷ []) hypotheticals

-- The new facts: one for each of these, as the hypotheticals after it leave it.
abbrev pub new_facts : ℕ → ℕ → List (Text × Text) → List HypotheticalFact → List FactSummary
new_facts now idx known [] = []
new_facts now idx known (hyp ∷ hypotheticals) =
    if any (says hyp) known
    then new_facts now (suc idx) known hypotheticals
    else after_all hypotheticals (synthetic now idx hyp)
      ∷ new_facts now (suc idx) (known ++ own_name hyp ∷ []) hypotheticals

-- How often a fact is overridden.
abbrev pub overrides_among : List (Text × Text) → List HypotheticalFact → ℕ
overrides_among known [] = 0
overrides_among known (hyp ∷ hypotheticals) =
    if any (says hyp) known
    then how_many hyp known + overrides_among known hypotheticals
    else overrides_among (known ++ own_name hyp ∷ []) hypotheticals

name-replace :
    (hyp : HypotheticalFact) (fact : FactSummary) → name_of (after_one hyp fact) ≡ name_of fact
unfolding replace
name-replace hyp fact = elim (Bool-cases (overrides hyp fact)) [
  | inl p ↦ rw (p) refl
  | inr p ↦ rw (p) refl
]

pub names-after_one :
    (hyp : HypotheticalFact) (facts : List FactSummary)
    → names (map (after_one hyp) facts) ≡ names facts
names-after_one hyp [] = refl
names-after_one hyp (fact ∷ facts) = λ i. name-replace hyp fact i ∷ names-after_one hyp facts i

pub names-append :
    (facts more : List FactSummary) → names (facts ++ more) ≡ names facts ++ names more
names-append [] more = refl
names-append (fact ∷ facts) more = ap (λ rest. name_of fact ∷ rest) (names-append facts more)

-- What one hypothetical overrides, by the names of the facts alone.
pub scan-overridden :
    (idx : ℕ) (hyp : HypotheticalFact) (facts : List FactSummary)
    → length (scan idx hyp facts).1 ≡ how_many hyp (names facts)
unfolding scan
scan-overridden idx hyp [] = refl
scan-overridden idx hyp (fact ∷ facts) = elim (Bool-cases (overrides hyp fact)) [
  | inl p ↦ rw (p, scan) (ap (λ n. suc n) (scan-overridden idx hyp facts))
  | inr p ↦ rw (p, scan) (scan-overridden idx hyp facts)
]

pub none_said :
    (hyp : HypotheticalFact) (known : List (Text × Text))
    → how_many hyp known ≡ 0
    → any (says hyp) known ≡ false
none_said hyp [] h = refl
none_said hyp (name ∷ known) h = elim (Bool-cases (says hyp name)) [
  | inl p ↦ absurd (ground (arith, p, h))
  | inr p ↦ rw (p, any) (none_said hyp known (ground (arith, p, h)))
]

pub some_said :
    (hyp : HypotheticalFact) (known : List (Text × Text)) (n : ℕ)
    → how_many hyp known ≡ suc n
    → any (says hyp) known ≡ true
some_said hyp [] n h = absurd (ground (arith, h))
some_said hyp (name ∷ known) n h = elim (Bool-cases (says hyp name)) [
  | inl p ↦ rw (p, any) refl
  | inr p ↦ rw (p, any) (some_said hyp known n (ground (arith, p, h)))
]
