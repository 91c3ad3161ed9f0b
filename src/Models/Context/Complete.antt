-- ===== src/Models/Context/Complete.antt =====
-- A context with room for everything leaves nothing out.
use mnemo.Base.{
  ℕ, suc, ◌+◌, ◌≤◌, ◌<◌, ◌≡◌, refl, ap, ◌∙◌, true, false, ltb, Option, none, some, List, [], ◌∷◌,
  ◌++◌, map, length, arith, add_u32, u32_mod,
}
use mnemo.Base.Order.{Text}
use mnemo.Models.Context.{
  ContextBlock, Section, estimate_tokens, add_lines, add_section, push, join, sections, assemble,
  entity_line, fact_line, episode_line, entities_header, facts_header, episodes_header,
}

abbrev sum_tokens : List Text → ℕ
sum_tokens [] = 0
sum_tokens (line ∷ lines) = estimate_tokens line + sum_tokens lines

-- What a section with all of its lines costs, and the section itself.
abbrev pub full_cost : Text → List Text → ℕ
full_cost header [] = 0
full_cost header (line ∷ lines) = estimate_tokens header + sum_tokens (line ∷ lines)

abbrev glue : Text → List Text → Text
glue text [] = text
glue text (line ∷ lines) = glue (text ++ line) lines

abbrev pub full_section : Text → List Text → Option Text
full_section header [] = none
full_section header (line ∷ lines) = some (glue header (line ∷ lines))

-- A section after all the lines.
record HasAll (lines : List Text) (s after : Section) : Type 0 where
  text : after.text ≡ glue s.text lines
  running : after.running_tokens ≡ s.running_tokens + sum_tokens lines
  items : after.items_added ≡ s.items_added + length lines

module _ (max_tokens : ℕ) (m : max_tokens < u32_mod) where
  add_lines-HasAll :
      (lines : List Text) (s : Section)
      → s.running_tokens + sum_tokens lines ≤ max_tokens
      → HasAll lines s (add_lines max_tokens lines s)
  unfolding add_lines
  add_lines-HasAll [] s h = record { text = refl; running = omega arith; items = omega arith }
  add_lines-HasAll (line ∷ lines) s h =
      let small : add_u32 s.running_tokens (estimate_tokens line)
          ≡ s.running_tokens + estimate_tokens line =
        omega (arith, h, m) in
      let room : ltb max_tokens (add_u32 s.running_tokens (estimate_tokens line)) ≡ false =
        ground (arith, small, h) in
      let longer : Section = record {
        text = s.text ++ line;
        running_tokens = add_u32 s.running_tokens (estimate_tokens line);
        items_added = suc s.items_added;
      } in
      let rest = add_lines-HasAll lines longer (omega (arith, small, h)) in
      rw (room, add_lines)
        (record {
          text = rest.text;
          running = omega (arith, rest.running, small);
          items = omega (arith, rest.items);
        })

  add_section-all :
      (header : Text) (lines : List Text) (start : ℕ)
      → start + full_cost header lines ≤ max_tokens
      → add_section max_tokens header lines start
        ≡ (full_section header lines, start + full_cost header lines)
  unfolding add_section
  add_section-all header [] start h = ap (λ after. (none, after)) (omega arith)
  add_section-all header (line ∷ lines) start h =
      let small : add_u32 start (estimate_tokens header) ≡ start + estimate_tokens header =
        omega (arith, h, m) in
      let room : ltb max_tokens (add_u32 start (estimate_tokens header)) ≡ false =
        ground (arith, small, h) in
      let s : Section = record {
        text = header;
        running_tokens = add_u32 start (estimate_tokens header);
        items_added = 0;
      } in
      let all = add_lines-HasAll (line ∷ lines) s (omega (arith, small, h)) in
      let some_items : ltb 0 (add_lines max_tokens (line ∷ lines) s).items_added ≡ true =
        ground (arith, all.items) in
      rw (room, some_items, add_section)
        (ap (λ after. (some (add_lines max_tokens (line ∷ lines) s).text, after))
            (omega (arith, all.running, small))
          ∙ ap (λ text. (some text, start + full_cost header (line ∷ lines))) all.text)

module _ (format_date : ℕ → Text) where
  -- The tokens of everything that a block has to say, and the sections with all of it.
  abbrev pub whole_cost : ContextBlock → ℕ
  whole_cost b =
      full_cost entities_header (map entity_line b.entities)
      + full_cost facts_header (map fact_line b.facts)
      + full_cost episodes_header (map (episode_line format_date) b.episodes)

  abbrev pub whole_sections : ContextBlock → List Text
  whole_sections b =
      push
        (push (push [] (full_section entities_header (map entity_line b.entities)))
          (full_section facts_header (map fact_line b.facts)))
        (full_section episodes_header (map (episode_line format_date) b.episodes))

  -- With a budget for the tokens of all headers and lines, the context has every entity, every fact
  -- and every episode of the block, in their order.
  pub assemble_complete :
      (max_tokens : ℕ) (b : ContextBlock)
      → max_tokens < u32_mod
      → whole_cost b ≤ max_tokens
      → (assemble format_date max_tokens b).context ≡ join (whole_sections b)
  unfolding assemble sections
  assemble_complete max_tokens b m h =
      let first = 0 + full_cost entities_header (map entity_line b.entities) in
      let second = first + full_cost facts_header (map fact_line b.facts) in
      let one =
        add_section-all max_tokens m entities_header (map entity_line b.entities) 0
          (omega (arith, h)) in
      let two =
        add_section-all max_tokens m facts_header (map fact_line b.facts) first
          (omega (arith, h)) in
      let three =
        add_section-all max_tokens m episodes_header (map (episode_line format_date) b.episodes)
          second (omega (arith, h)) in
      let facts : ℕ → Option Text × ℕ =
        add_section max_tokens facts_header (map fact_line b.facts) in
      let episodes : ℕ → Option Text × ℕ =
        add_section max_tokens episodes_header (map (episode_line format_date) b.episodes) in
      let entity_section = full_section entities_header (map entity_line b.entities) in
      let facts_section = full_section facts_header (map fact_line b.facts) in
      ap
        (λ (q : Option Text × ℕ).
          join (push (push (push [] q.0) (facts q.1).0) (episodes (facts q.1).1).0))
        one
      ∙ ap
          (λ (q : Option Text × ℕ).
            join (push (push (push [] entity_section) q.0) (episodes q.1).0))
          two
      ∙ ap (λ (q : Option Text × ℕ). join (push (push (push [] entity_section) facts_section) q.0))
          three
