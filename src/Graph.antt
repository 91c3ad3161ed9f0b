-- ===== src/Graph.antt =====
-- crates/mnemo-graph/src/lib.rs: `GraphEngine` over a store. The store's three reads are parameters;
-- `none` is an error of the store. A call sees one state of the store.
pub mod Steps
pub mod Reach
pub mod Fuel
pub mod Tenancy
pub mod Paths
pub mod Communities
use mnemo.Base.{
  ℕ, suc, zero, ◌+◌, Bool, true, false, not, ◌&&◌, ◌||◌, if◌then◌else◌, leb, ltb, ◌==◌, Option,
  none, some, get_or, List, [], ◌∷◌, ◌++◌, any, keep, length, arith,
}
use mnemo.Models.Edge.{Edge, is_valid}
use mnemo.Models.Entity.{Entity}

-- The reads of `EntityStore` and `EdgeStore` that the engine makes.
pub record Store : Type 0 where
  pub get_entity : ℕ → Option Entity
  pub get_outgoing_edges : ℕ → Option (List Edge)
  pub get_incoming_edges : ℕ → Option (List Edge)

pub record GraphNode : Type 0 where
  pub entity : Entity
  pub outgoing : List Edge
  pub incoming : List Edge
  pub depth : ℕ

pub record Subgraph : Type 0 where
  pub nodes : List GraphNode
  pub edges : List Edge
  pub entities_visited : ℕ

-- `user_id.is_none_or(|uid| owner == uid)`
abbrev pub owned_by : Option ℕ → ℕ → Bool
owned_by none owner = true
owned_by (some uid) owner = owner == uid

-- The two filters on edges.
abbrev pub allowed : Option ℕ → Bool → Edge → Bool
allowed user_id valid_only e = owned_by user_id e.user_id && (not valid_only || is_valid e)

-- The entity of a popped id, if the store has it and it belongs to the user.
unfoldable pub visible : Store → Option ℕ → ℕ → Option Entity
visible s user_id id = elim (s.get_entity id) [
  | none ↦ none
  | some entity ↦ if owned_by user_id entity.user_id then some entity else none
]

abbrev pub out_edges : Store → Option ℕ → Bool → ℕ → List Edge
out_edges s user_id valid_only id =
    keep (allowed user_id valid_only) (get_or (s.get_outgoing_edges id) [])

abbrev pub in_edges : Store → Option ℕ → Bool → ℕ → List Edge
in_edges s user_id valid_only id =
    keep (allowed user_id valid_only) (get_or (s.get_incoming_edges id) [])

-- The visited ids, without repetition, and the queue of ids with their depths.
pub record Frontier : Type 0 where
  pub visited : List ℕ
  pub queue : List (ℕ × ℕ)

-- A neighbour is queued unless it was visited.
unfoldable pub visit : ℕ → ℕ → Frontier → Frontier
visit id depth f =
    if any (λ v. v == id) f.visited
    then f
    else record { visited = id ∷ f.visited; queue = f.queue ++ (id, depth) ∷ [] }

-- One of the two loops that queue the neighbours, at one end of the edges.
unfoldable pub enqueue : (Edge → ℕ) → ℕ → List Edge → Frontier → Frontier
enqueue end depth [] f = f
enqueue end depth (e ∷ edges) f = enqueue end depth edges (visit (end e) depth f)

-- `all_edges.retain(|e| seen_edges.insert(e.id))`
unfoldable pub dedup : List ℕ → List Edge → List Edge
dedup seen [] = []
dedup seen (e ∷ edges) = elim (any (λ id. id == e.id) seen) [
  | true ↦ dedup seen edges
  | false ↦ e ∷ dedup (e.id ∷ seen) edges
]

module _ (s : Store) (user_id : Option ℕ) (max_depth max_nodes : ℕ) (valid_only : Bool) where
  abbrev pub outs : ℕ → List Edge
  outs = out_edges s user_id valid_only

  abbrev pub ins : ℕ → List Edge
  ins = in_edges s user_id valid_only

  -- The queueing of the neighbours of a visible entity.
  unfoldable pub expand : ℕ → ℕ → Frontier → Frontier
  unfolding enqueue
  expand id depth f =
      if ltb depth max_depth
      then enqueue (λ e. e.source_entity_id) (depth + 1) (ins id)
          (enqueue (λ e. e.target_entity_id) (depth + 1) (outs id) f)
      else f

  -- The loop: `none` is the end of the fuel.
  unfoldable pub bfs :
      ℕ → Frontier → List GraphNode → List Edge → Option (Frontier × List GraphNode × List Edge)
  bfs zero f nodes edges = none
  bfs (suc fuel) f nodes edges = elim f.queue [
    | [] ↦ some (f, nodes, edges)
    | (id, depth) ∷ queue ↦
        let popped : Frontier = record f { queue = queue } in
        elim (leb max_nodes (length nodes)) [
          | true ↦ some (popped, nodes, edges)
          | false ↦ elim (visible s user_id id) [
            | none ↦ bfs fuel popped nodes edges
            | some entity ↦
                bfs fuel (expand id depth popped)
                  (nodes
                    ++ record {
                      entity = entity;
                      outgoing = outs id;
                      incoming = ins id;
                      depth = depth;
                    }
                      ∷ [])
                  (edges ++ outs id ++ ins id)
          ]
        ]
  ]

  -- `traverse_bfs_for_user`; `traverse_bfs` is the case without a user.
  unfoldable pub traverse_bfs_for_user : ℕ → ℕ → Option Subgraph
  unfolding dedup
  traverse_bfs_for_user fuel seed =
      elim (bfs fuel (record { visited = seed ∷ []; queue = (seed, 0) ∷ [] }) [] []) [
        | none ↦ none
        | some (f, nodes, edges) ↦
            some (record {
              nodes = nodes;
              edges = dedup [] edges;
              entities_visited = length f.visited;
            })
      ]
