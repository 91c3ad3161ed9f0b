-- ===== src/Models/Context/Budget.antt =====
-- The context keeps within its budget.
use mnemo.Base.{
  ℕ, suc, ◌+◌, ◌*◌, ◌≤◌, ◌<◌, ◌≡◌, refl, inl, inr, ltb, Option, none, some, List, [], ◌∷◌, ◌++◌,
  map, length, length-append, All, arith, Bool-cases, add_u32,
}
use mnemo.Base.Order.{Text}
use mnemo.Models.Context.{
  ContextBlock, Section, estimate_tokens, add_lines, add_section, push, join, sections, assemble,
  entity_line, fact_line, episode_line, entities_header, facts_header, episodes_header, new_line,
}

-- A text that no sum of tokens within the budget overflows with.
abbrev pub Fits : ℕ → Text → Type 0
Fits max_tokens text = estimate_tokens text + max_tokens < 4294967295

tokens_cover :
    (max_tokens : ℕ) (line : Text) → Fits max_tokens line → length line ≤ 4 * estimate_tokens line
unfolding estimate_tokens
tokens_cover max_tokens line f = omega (arith, f)

-- The bytes of a section, with some to spare, are paid for by the tokens since `start`.
record Paid (max_tokens spare start : ℕ) (s : Section) : Type 0 where
  within : s.running_tokens ≤ max_tokens
  paid : length s.text + spare + 4 * start ≤ 4 * s.running_tokens

add_lines-Paid :
    (max_tokens spare start : ℕ) (lines : List Text) (s : Section)
    → All (Fits max_tokens) lines
    → Paid max_tokens spare start s
    → Paid max_tokens spare start (add_lines max_tokens lines s)
unfolding add_lines
add_lines-Paid max_tokens spare start [] s f p = p
add_lines-Paid max_tokens spare start (line ∷ lines) s f p =
    elim (Bool-cases (ltb max_tokens (add_u32 s.running_tokens (estimate_tokens line)))) [
      | inl q ↦ rw (q, add_lines) p
      | inr q ↦
          rw (q, add_lines)
            (add_lines-Paid max_tokens spare start lines _ f.1 (record {
              within = ground (arith, q);
              paid = omega (
                arith,
                p.paid,
                p.within,
                f.0,
                tokens_cover max_tokens line f.0,
                length-append s.text line,
              );
            }))
    ]

items_grow :
    (max_tokens : ℕ) (lines : List Text) (s : Section)
    → s.items_added ≤ (add_lines max_tokens lines s).items_added
unfolding add_lines
items_grow max_tokens [] s = omega arith
items_grow max_tokens (line ∷ lines) s = ground (
  arith,
  items_grow max_tokens lines (record {
    text = s.text ++ line;
    running_tokens = add_u32 s.running_tokens (estimate_tokens line);
    items_added = suc s.items_added;
  }),
)

-- Without a new line, the tokens are the same.
no_items :
    (max_tokens : ℕ) (lines : List Text) (s : Section)
    → (add_lines max_tokens lines s).items_added ≡ s.items_added
    → (add_lines max_tokens lines s).running_tokens ≡ s.running_tokens
unfolding add_lines
no_items max_tokens [] s e = refl
no_items max_tokens (line ∷ lines) s e = ground (
  arith,
  e,
  items_grow max_tokens lines (record {
    text = s.text ++ line;
    running_tokens = add_u32 s.running_tokens (estimate_tokens line);
    items_added = suc s.items_added;
  }),
)

-- What a section costs: nothing without it, and no fewer tokens than it has bytes for with it.
abbrev Cost : ℕ → ℕ → ℕ → Option Text × ℕ → Type 0
Cost max_tokens spare start (none, after) = after ≡ start
Cost max_tokens spare start (some section, after) =
    (after ≤ max_tokens) × (length section + spare + 4 * start ≤ 4 * after)

add_section-Cost :
    (max_tokens spare : ℕ) (header : Text) (lines : List Text) (start : ℕ)
    → start ≤ max_tokens
    → Fits max_tokens header
    → length header + spare ≤ 4 * estimate_tokens header
    → All (Fits max_tokens) lines
    → Cost max_tokens spare start (add_section max_tokens header lines start)
unfolding add_section
add_section-Cost max_tokens spare header [] start b h c f = refl
add_section-Cost max_tokens spare header (line ∷ lines) start b h c f =
    let s : Section = record {
      text = header;
      running_tokens = add_u32 start (estimate_tokens header);
      items_added = 0;
    } in
    elim (Bool-cases (ltb max_tokens (add_u32 start (estimate_tokens header)))) [
      | inl q ↦ rw (q, add_section) refl
      | inr q ↦
          let p =
            add_lines-Paid max_tokens spare start (line ∷ lines) s f
              (record { within = ground (arith, q); paid = omega (arith, h, b, c) }) in
          elim (Bool-cases (ltb 0 (add_lines max_tokens (line ∷ lines) s).items_added)) [
            | inl i ↦ rw (q, i, add_section) (p.within, p.paid)
            | inr i ↦
                rw (q, i, add_section)
                  (omega (arith, no_items max_tokens (line ∷ lines) s (ground (arith, i)), h, b))
          ]
    ]

-- Each section but the first pays for the line break before it.
joined-Cost :
    (max_tokens first second third : ℕ) (a b c : Option Text)
    → Cost max_tokens 0 0 (a, first)
    → Cost max_tokens 1 first (b, second)
    → Cost max_tokens 1 second (c, third)
    → (third ≤ max_tokens) × (length (join (push (push (push [] a) b) c)) ≤ 4 * third)
unfolding join
joined-Cost max_tokens first second third none none none p q r = (omega arith, omega arith)
joined-Cost max_tokens first second third none none (some z) p q r = (r.0, omega (arith, r.1))
joined-Cost max_tokens first second third none (some y) none p q r =
    (omega (arith, q.0), omega (arith, q.1))
joined-Cost max_tokens first second third none (some y) (some z) p q r =
    (r.0, omega (arith, q.1, r.1, length-append (y ++ new_line) z, length-append y new_line))
joined-Cost max_tokens first second third (some x) none none p q r =
    (omega (arith, p.0), omega (arith, p.1))
joined-Cost max_tokens first second third (some x) none (some z) p q r =
    (r.0, omega (arith, p.1, r.1, length-append (x ++ new_line) z, length-append x new_line))
joined-Cost max_tokens first second third (some x) (some y) none p q r = (
  omega (arith, q.0),
  omega (arith, p.1, q.1, length-append (x ++ new_line) y, length-append x new_line),
)
joined-Cost max_tokens first second third (some x) (some y) (some z) p q r = (
  r.0,
  omega (
    arith,
    p.1,
    q.1,
    r.1,
    length-append (x ++ new_line) (y ++ new_line ++ z),
    length-append x new_line,
    length-append (y ++ new_line) z,
    length-append y new_line,
  ),
)

Cost-le :
    (max_tokens spare start : ℕ) (q : Option Text × ℕ)
    → start ≤ max_tokens
    → Cost max_tokens spare start q
    → q.1 ≤ max_tokens
Cost-le max_tokens spare start (none, after) b c = omega (arith, b, c)
Cost-le max_tokens spare start (some section, after) b c = c.0

module _ (format_date : ℕ → Text) where
  -- The lines of the three sections are such that no sum of tokens overflows.
  pub record HasShortLines (max_tokens : ℕ) (b : ContextBlock) : Type 0 where
    pub entities : All (Fits max_tokens) (map entity_line b.entities)
    pub facts : All (Fits max_tokens) (map fact_line b.facts)
    pub episodes : All (Fits max_tokens) (map (episode_line format_date) b.episodes)

  -- The assembled context counts no more tokens than its budget, headers and line breaks included,
  -- as long as the budget and the tokens of any one line add up to less than the largest u32.
  pub assemble_within :
      (max_tokens : ℕ) (b : ContextBlock)
      → max_tokens + 8 < 4294967295
      → HasShortLines max_tokens b
      → (assemble format_date max_tokens b).token_count ≤ max_tokens
  unfolding assemble sections estimate_tokens
  assemble_within max_tokens b m h =
      let one = add_section max_tokens entities_header (map entity_line b.entities) 0 in
      let two = add_section max_tokens facts_header (map fact_line b.facts) one.1 in
      let three =
        add_section max_tokens episodes_header (map (episode_line format_date) b.episodes) two.1 in
      let first =
        add_section-Cost max_tokens 0 entities_header (map entity_line b.entities) 0 (omega arith)
          (omega arith) (omega arith) h.entities in
      let first_le = Cost-le max_tokens 0 0 one (omega arith) first in
      let second =
        add_section-Cost max_tokens 1 facts_header (map fact_line b.facts) one.1 first_le
          (omega arith) (omega arith) h.facts in
      let third =
        add_section-Cost max_tokens 1 episodes_header (map (episode_line format_date) b.episodes)
          two.1 (Cost-le max_tokens 1 one.1 two first_le second) (omega arith) (omega arith)
          h.episodes in
      let cost =
        joined-Cost max_tokens one.1 two.1 three.1 one.0 two.0 three.0 first second third in
      omega (arith, cost.0, cost.1)
