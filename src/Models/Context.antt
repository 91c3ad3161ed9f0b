-- ===== src/Models/Context.antt =====
-- crates/mnemo-core/src/models/context.rs: how a context for a language model is put together within
-- a budget of tokens. Lengths are in bytes; the fields of a block that this leaves alone are left
-- out, and the format of a date, which chrono gives, is a parameter.
pub mod Budget
pub mod Complete
use mnemo.Base.{
  ℕ, zero, suc, ◌+◌, ◌-◌, ◌/◌, min, Bool, if◌then◌else◌, ltb, is_some, get_or, Option, none, some,
  List, [], ◌∷◌, ◌++◌, map, length, add_u32,
}
use mnemo.Base.Order.{Text, codes}
use mnemo.Models.Classification.{Classification}

pub record EntitySummary : Type 0 where
  pub id : ℕ
  pub name : Text
  pub entity_type : Text
  pub classification : Classification
  pub summary : Option Text
  pub relevance : ℕ

pub record FactSummary : Type 0 where
  pub id : ℕ
  pub source_entity : Text
  pub target_entity : Text
  pub label : Text
  pub fact : Text
  pub classification : Classification
  pub valid_at : ℕ
  pub invalid_at : Option ℕ
  pub relevance : ℕ
  pub access_count : ℕ
  pub last_accessed_at : Option ℕ
  pub temporal_scope : Option Text

pub record EpisodeSummary : Type 0 where
  pub id : ℕ
  pub session_id : ℕ
  pub role : Option Text
  pub preview : Text
  pub created_at : ℕ
  pub relevance : ℕ

pub record ContextBlock : Type 0 where
  pub context : Text
  pub token_count : ℕ
  pub entities : List EntitySummary
  pub facts : List FactSummary
  pub episodes : List EpisodeSummary

-- `(len as f64 / 4.0).ceil() as u32`, exact below 2 ^ 53 bytes; the cast stops at the largest u32.
unfoldable pub estimate_tokens : Text → ℕ
estimate_tokens text = min ((length text + 3) / 4) 4294967295

-- `ContextBlock::empty`
unfoldable pub empty : ContextBlock
empty = record { context = []; token_count = 0; entities = []; facts = []; episodes = [] }

abbrev pub new_line : Text
new_line = codes "\n"

unfoldable pub entity_line : EntitySummary → Text
entity_line e =
    let named = codes "- " ++ e.name ++ codes " (" ++ e.entity_type ++ codes ")" in
    elim e.summary [ some s ↦ named ++ codes ": " ++ s ++ new_line | none ↦ named ++ new_line ]

unfoldable pub fact_line : FactSummary → Text
fact_line f =
    let validity = (if is_some f.invalid_at then codes " [superseded]" else []) in
    codes "- " ++ f.fact ++ validity ++ new_line

-- A section while lines are added to it, with the tokens of the whole context so far.
pub record Section : Type 0 where
  pub text : Text
  pub running_tokens : ℕ
  pub items_added : ℕ

-- The loop over the lines of a section.
unfoldable pub add_lines : ℕ → List Text → Section → Section
add_lines max_tokens [] s = s
add_lines max_tokens (line ∷ lines) s =
    let longer = add_lines max_tokens lines (record {
      text = s.text ++ line;
      running_tokens = add_u32 s.running_tokens (estimate_tokens line);
      items_added = suc s.items_added;
    }) in
    if ltb max_tokens (add_u32 s.running_tokens (estimate_tokens line)) then s else longer

-- A section, if it gets a line, and the tokens after it. The source has this three times; the last
-- time it does not give the header's tokens back, but does not look at the tokens again either.
unfoldable pub add_section : ℕ → Text → List Text → ℕ → Option Text × ℕ
add_section max_tokens header [] running_tokens = (none, running_tokens)
add_section max_tokens header (line ∷ lines) running_tokens =
    let header_tokens = estimate_tokens header in
    let filled = add_lines max_tokens (line ∷ lines) (record {
      text = header;
      running_tokens = add_u32 running_tokens header_tokens;
      items_added = 0;
    }) in
    if ltb max_tokens (add_u32 running_tokens header_tokens)
    then (none, running_tokens)
    else if ltb 0 filled.items_added
    then (some filled.text, filled.running_tokens)
    else (none, filled.running_tokens - header_tokens)

abbrev pub push : List Text → Option Text → List Text
push parts none = parts
push parts (some section) = parts ++ section ∷ []

-- `parts.join("\n")`
unfoldable pub join : List Text → Text
join [] = []
join (part ∷ []) = part
join (part ∷ next ∷ parts) = part ++ new_line ++ join (next ∷ parts)

abbrev pub entities_header : Text
entities_header = codes "Known entities:\n"

abbrev pub facts_header : Text
facts_header = codes "Current facts:\n"

abbrev pub episodes_header : Text
episodes_header = codes "Relevant conversation history:\n"

module _ (format_date : ℕ → Text) where
  unfoldable pub episode_line : EpisodeSummary → Text
  episode_line ep =
      let role = get_or ep.role (codes "unknown") in
      codes "- ["
      ++ format_date ep.created_at
      ++ codes "] "
      ++ role
      ++ codes ": "
      ++ ep.preview
      ++ new_line

  unfoldable pub sections : ℕ → ContextBlock → List Text
  sections max_tokens b =
      let (entity_section, after_entities) =
        add_section max_tokens entities_header (map entity_line b.entities) 0 in
      let (facts_section, after_facts) =
        add_section max_tokens facts_header (map fact_line b.facts) after_entities in
      let (episode_section, _) =
        add_section max_tokens episodes_header (map episode_line b.episodes) after_facts in
      push (push (push [] entity_section) facts_section) episode_section

  unfoldable pub assemble : ℕ → ContextBlock → ContextBlock
  assemble max_tokens b =
      let context = join (sections max_tokens b) in
      record b { context = context; token_count = estimate_tokens context }
