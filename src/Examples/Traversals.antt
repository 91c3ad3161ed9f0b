-- ===== src/Examples/Traversals.antt =====
-- Traversals of the graph at a concrete store.
use mathlib.Core.List.{Memᴰ}
use mathlib.Core.List.Permᴰ
use mnemo.Base.{
  ℕ, ◌≤◌, ◌≡◌, refl, true, [], ◌∷◌, none, some, All, length, arith, ◌==◌, if◌then◌else◌, Bool-cases,
  inl, inr,
}
use mnemo.Base.Order.{codes}
use mnemo.Models.Classification.{internal}
use mnemo.Models.Edge.{Edge, is_valid}
use mnemo.Models.Entity.{Entity, person}
use mnemo.Graph.{
  Store, Subgraph, visible, visit, enqueue, dedup, expand, bfs, traverse_bfs_for_user,
}
use mnemo.Graph.Reach.{IsReached, IsAllowed, traverse_sound}
use mnemo.Graph.Fuel.{IsClosed, traverse_total}
use mnemo.Graph.Paths.{ShortestPath, find_shortest_path_for_user}
use mnemo.Graph.Paths.Exact.{IsAnswer, IsOwnStep, shortest_path_exact, shortest_path_isolated}
use mnemo.Graph.Communities.{Listing, Labels, listed_edges, detect_communities}
use mnemo.Graph.Communities.Partition.{IsPartition, communities_connected}
use mnemo.Graph.Tenancy.{IsOwn, IsOwnNode, traverse_isolated}

abbrev entity : ℕ → ℕ → Entity
entity id owner = record {
  id = id;
  user_id = owner;
  name = codes "n";
  entity_type = person;
  summary = none;
  aliases = [];
  metadata = codes "{}";
  classification = internal;
  mention_count = 1;
  community_id = none;
  created_at = 0;
  updated_at = 0;
}

abbrev edge : ℕ → ℕ → ℕ → Edge
edge id source target = record {
  id = id;
  user_id = 7;
  source_entity_id = source;
  target_entity_id = target;
  label = codes "l";
  fact = codes "f";
  valid_at = 0;
  invalid_at = none;
  ingested_at = 0;
  source_episode_id = 0;
  source_agent_id = none;
  invalidated_by_episode_id = none;
  confidence = 0;
  corroboration_count = 1;
  metadata = codes "{}";
  classification = internal;
  created_at = 0;
  updated_at = 0;
  temporal_scope = none;
  access_count = 0;
  last_accessed_at = none;
}

-- Entity 1 is linked to 2, which belongs to another user, and to 3.
abbrev store : Store
store = record {
  get_entity = λ id.
      if id == 1
      then some (entity 1 7)
      else if id == 2
      then some (entity 2 8)
      else if id == 3
      then some (entity 3 7)
      else none;
  get_outgoing_edges = λ id. if id == 1 then some (edge 10 1 2 ∷ edge 11 1 3 ∷ []) else some [];
  get_incoming_edges = λ id.
      if id == 2
      then some (edge 10 1 2 ∷ [])
      else if id == 3
      then some (edge 11 1 3 ∷ [])
      else some [];
}

abbrev found : Subgraph
found = record {
  nodes =
      record {
        entity = entity 1 7;
        outgoing = edge 10 1 2 ∷ edge 11 1 3 ∷ [];
        incoming = [];
        depth = 0;
      }
      ∷ record { entity = entity 3 7; outgoing = []; incoming = edge 11 1 3 ∷ []; depth = 1 }
      ∷ [];
  edges = edge 10 1 2 ∷ edge 11 1 3 ∷ [];
  entities_visited = 3;
}

found_lem : traverse_bfs_for_user store (some 7) 2 10 true 4 1 ≡ some found
unfolding traverse_bfs_for_user bfs visible expand enqueue visit dedup is_valid
found_lem = refl

traverse_sound_example :
    All (IsReached store (some 7) 2 10 true 1) found.nodes
    × All (IsAllowed store (some 7) 2 10 true 1) found.edges
    × (length found.nodes ≤ 10)
traverse_sound_example = traverse_sound store (some 7) 2 10 true 1 4 found found_lem

traverse_isolated_example :
    All (IsOwnNode store 7 2 10 true 1) found.nodes × All (IsOwn 7 true) found.edges
traverse_isolated_example = traverse_isolated store 7 2 10 true 1 4 found found_lem

closed : IsClosed store (some 7) true (1 ∷ 2 ∷ 3 ∷ [])
unfolding is_valid
closed = record {
  targets = λ id. elim (Bool-cases (id == 1)) [
    | inl p ↦ rw p (Memᴰ.tail (Memᴰ.head refl), (Memᴰ.tail (Memᴰ.tail (Memᴰ.head refl)), tt))
    | inr p ↦ rw p tt
  ];
  sources = λ id. elim (Bool-cases (id == 2)) [
    | inl p ↦ rw p (Memᴰ.head refl, tt)
    | inr p ↦
        rw p (elim (Bool-cases (id == 3)) [ inl q ↦ rw q (Memᴰ.head refl, tt) | inr q ↦ rw q tt ])
  ];
}

traverse_total_example :
    (g : Subgraph) × (traverse_bfs_for_user store (some 7) 2 10 true 4 1 ≡ some g)
traverse_total_example =
    traverse_total store (some 7) 2 10 true (1 ∷ 2 ∷ 3 ∷ []) 4 1 closed (Memᴰ.head refl)
      (omega arith)

shortest_path_exact_example :
    (r : ShortestPath) × (find_shortest_path_for_user store 4 1 3 (some 7) 2 true ≡ some r)
    × IsAnswer store (some 7) true 2 1 3 r
shortest_path_exact_example =
    shortest_path_exact store (some 7) true 2 1 3 (1 ∷ 2 ∷ 3 ∷ []) 4 refl closed (Memᴰ.head refl)
      (omega arith)

shortest_path_isolated_example :
    (r : ShortestPath) × (find_shortest_path_for_user store 4 1 2 (some 7) 2 true ≡ some r)
    × All (IsOwnStep 7 true) r.steps
shortest_path_isolated_example =
    shortest_path_isolated store 7 true 2 1 2 (1 ∷ 2 ∷ 3 ∷ []) 4 closed (Memᴰ.head refl)
      (omega arith)

abbrev listing : Listing
listing = record {
  list_entities = λ user_id limit. some (entity 1 7 ∷ entity 3 7 ∷ entity 4 7 ∷ []);
  query_edges = λ user_id filter. some (edge 11 1 3 ∷ []);
}

communities_connected_example :
    (labels : Labels) × (detect_communities listing (λ round id counts. counts) 7 10 ≡ some labels)
    × IsPartition (listed_edges listing 7) (entity 1 7 ∷ entity 3 7 ∷ entity 4 7 ∷ []) labels
communities_connected_example =
    communities_connected listing (λ round id counts. counts) 7 10
      (entity 1 7 ∷ entity 3 7 ∷ entity 4 7 ∷ []) (λ round id counts. Permᴰ.refl counts) refl
