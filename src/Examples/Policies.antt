-- ===== src/Examples/Policies.antt =====
-- Access checks, facts and names of the models at concrete inputs.
use mathlib.Core.List.{Memᴰ}
use mnemo.Base.{ℕ, ◌≤◌, ◌≡◌, ◌↔◌, true, false, List, [], ◌∷◌, none, some}
use mnemo.Base.Order.{Text, codes, text_ord}
use mnemo.Models.Classification.{rank, internal, confidential}
use mnemo.Models.ApiKey.{
  ApiKey, write, CallerContext, ApiKeyScope, require_user_access, require_agent_access, ok,
  max_classification,
}
use mnemo.Models.ApiKey.Access.{require_access_iff}
use mnemo.Models.View.{MemoryView, ViewConstraints, from_view, allows_edge, allows_entity}
use mnemo.Models.View.Ceiling.{from_view_ceiling}
use mnemo.Models.Edge.{Edge, EdgeFilter, ExtractedRelationship, from_extraction, default_filter}
use mnemo.Models.Entity.{Entity, person}
use mnemo.Models.Clarification.{Store, new, put}

abbrev scope : ApiKeyScope
scope = record {
  allowed_user_ids = some (1 ∷ 2 ∷ []);
  allowed_agent_ids = none;
  max_classification = some confidential;
}

abbrev caller : CallerContext
caller = record { key_id = 7; key_name = codes "k"; role = write; scope = some scope }

abbrev key : ApiKey
key = record {
  id = 7;
  name = codes "k";
  key_hash = codes "h";
  key_prefix = codes "p";
  role = write;
  scope = some scope;
  created_by = none;
  created_at = 0;
  last_used_at = none;
  expires_at = some 50;
  revoked = false;
}

require_access_iff_example :
    (caller.scope ≡ none
      → (require_user_access caller 2 ≡ ok) × (require_agent_access caller (codes "x") ≡ ok))
    × ((s : ApiKeyScope) (users : List ℕ)
        → caller.scope ≡ some s
        → s.allowed_user_ids ≡ some users
        → (require_user_access caller 2 ≡ ok) ↔ Memᴰ 2 users)
    × ((s : ApiKeyScope) (agents : List Text)
        → caller.scope ≡ some s
        → s.allowed_agent_ids ≡ some agents
        → (require_agent_access caller (codes "x") ≡ ok) ↔ Memᴰ (codes "x") agents)
    × ((s : ApiKeyScope)
        → caller.scope ≡ some s
        → s.allowed_user_ids ≡ none
        → require_user_access caller 2 ≡ ok)
    × ((s : ApiKeyScope)
        → caller.scope ≡ some s
        → s.allowed_agent_ids ≡ none
        → require_agent_access caller (codes "x") ≡ ok)
require_access_iff_example = require_access_iff caller 2 (codes "x")

abbrev view : MemoryView
view = record {
  id = 3;
  name = codes "support";
  description = codes "d";
  max_classification = internal;
  allowed_entity_types = none;
  blocked_edge_labels = some (codes "salary" ∷ []);
  max_facts = none;
  include_narrative = true;
  temporal_scope = none;
  created_at = 0;
  updated_at = 0;
}

abbrev narrowed : ViewConstraints
narrowed = from_view view (max_classification caller)

from_view_ceiling_example :
    ((allows_edge narrowed internal (codes "knows") ≡ true)
      → (rank internal ≤ rank (max_classification caller))
        × (rank internal ≤ rank view.max_classification))
    × ((allows_entity narrowed internal (codes "knows") ≡ true)
        → (rank internal ≤ rank (max_classification caller))
          × (rank internal ≤ rank view.max_classification))
    × ((rank internal ≤ rank (max_classification caller))
          × (rank internal ≤ rank view.max_classification)
        → rank internal ≤ rank narrowed.max_classification)
from_view_ceiling_example = from_view_ceiling view caller internal (codes "knows")

abbrev rel : ExtractedRelationship
rel = record {
  source_name = codes "ada";
  target_name = codes "acme";
  label = codes "works_at";
  fact = codes "Ada works at Acme";
  confidence = 0;
  valid_at = some 60;
  classification = internal;
  temporal_scope = none;
}

abbrev fact : Edge
fact = from_extraction 100 1 rel 2 3 4 5 80 none

abbrev filter : EdgeFilter
filter = record default_filter { source_entity_id = some 3; max_classification = some internal }

abbrev ada : Entity
ada = record {
  id = 1;
  user_id = 2;
  name = codes "Ada";
  entity_type = person;
  summary = none;
  aliases = [];
  metadata = codes "{}";
  classification = internal;
  mention_count = 1;
  community_id = none;
  created_at = 0;
  updated_at = 0;
}

-- A clarification of user 2 about the fact above and another one that is not stored.
abbrev doubts : Store
doubts = record {
  clarifications =
      put 5 (new 100 5 2 (codes "Where?") (1 ∷ 9 ∷ []) (codes "Ada") (codes "lives_in") [] 0 7)
        (λ x. none);
  edges = put 1 fact (λ x. none);
}
