-- ===== src/Examples/Contexts.antt =====
-- Contexts at concrete blocks and budgets.
use Prim.Native.Nat.{compare}
use mnemo.Base.{List, ◌≡◌, ◌≤◌, refl, none, some, [], ◌∷◌, arith}
use mnemo.Base.Order.{codes, text_ord, cmp_text}
use mnemo.Base.Ascii.{decimal, digits}
use mnemo.Models.Classification.{Classification}
use mnemo.Models.Context.{
  ContextBlock, assemble, join, estimate_tokens, entity_line, fact_line, episode_line,
}
use mnemo.Models.Context.Budget.{HasShortLines, assemble_within}
use mnemo.Models.Context.Complete.{whole_sections, assemble_complete}
use mnemo.Models.Counterfactual.{
  HypotheticalFact, apply_hypotheticals, apply_each, apply_one, scan, replace, synthetic,
}

-- Two entities, a superseded fact and an episode.
abbrev block : ContextBlock
block = record {
  context = [];
  token_count = 0;
  entities =
      record {
        id = 1;
        name = codes "Ada";
        entity_type = codes "person";
        classification = Classification.public;
        summary = some (codes "a pilot");
        relevance = 0;
      }
      ∷ record {
        id = 2;
        name = codes "Rome";
        entity_type = codes "location";
        classification = Classification.public;
        summary = none;
        relevance = 0;
      }
      ∷ [];
  facts =
      record {
        id = 3;
        source_entity = codes "Ada";
        target_entity = codes "Rome";
        label = codes "lives_in";
        fact = codes "Ada lives in Rome";
        classification = Classification.public;
        valid_at = 5;
        invalid_at = some 6;
        relevance = 0;
        access_count = 0;
        last_accessed_at = none;
        temporal_scope = none;
      }
      ∷ [];
  episodes =
      record {
        id = 4;
        session_id = 7;
        role = none;
        preview = codes "I moved";
        created_at = 5;
        relevance = 0;
      }
      ∷ [];
}

block-HasShortLines : HasShortLines decimal 20 block
unfolding entity_line fact_line episode_line estimate_tokens decimal digits
block-HasShortLines = record {
  entities = (omega arith, (omega arith, tt));
  facts = (omega arith, tt);
  episodes = (omega arith, tt);
}

assemble_within_example : (assemble decimal 20 block).token_count ≤ 20
assemble_within_example = assemble_within decimal 20 block (omega arith) block-HasShortLines

assemble_complete_example :
    (assemble decimal 60 block).context ≡ join (whole_sections decimal block)
unfolding entity_line fact_line episode_line estimate_tokens decimal digits
assemble_complete_example = assemble_complete decimal 60 block (omega arith) (omega arith)

-- One hypothetical that overrides the fact of the block, in another case, one that is new, and
-- one that overrides that.
abbrev what_if : List HypotheticalFact
what_if =
    record {
      entity = codes "ADA";
      attribute = codes "Lives_In";
      value = codes "Oslo";
      confidence = 9;
    }
    ∷ record {
      entity = codes "Rome";
      attribute = codes "is";
      value = codes "small";
      confidence = 8;
    }
    ∷ record {
      entity = codes "rome";
      attribute = codes "IS";
      value = codes "large";
      confidence = 7;
    }
    ∷ []

all_injected : (apply_hypotheticals compare 7 block.facts what_if).1.injected_count ≡ 3
unfolding apply_hypotheticals apply_each apply_one scan replace synthetic text_ord cmp_text
all_injected = refl
