-- ===== src/Graph/Paths.antt =====
-- crates/mnemo-graph/src/lib.rs: `find_shortest_path` and `find_shortest_path_for_user` of
-- `GraphEngine`, over the store and the filters of Graph.
pub mod Tree
pub mod Levels
pub mod Rounds
pub mod Shortest
pub mod Answers
pub mod Exact
use mnemo.Base.{
  ℕ, suc, zero, ◌+◌, Bool, true, false, not, ◌||◌, if◌then◌else◌, leb, ◌==◌, Option, none, some,
  List, [], ◌∷◌, ◌++◌, any, length, reverse,
}
use mnemo.Models.Edge.{Edge}
use mnemo.Models.Entity.{Entity}
use mnemo.Graph.{Store, visible, out_edges, in_edges}

pub record PathStep : Type 0 where
  pub entity : Entity
  pub edge : Option Edge
  pub depth : ℕ

pub record ShortestPath : Type 0 where
  pub steps : List PathStep
  pub entities_visited : ℕ
  pub found : Bool

-- An entry of `visited`: an id with the parent and the edge that it was reached by.
pub record Arrival : Type 0 where
  pub id : ℕ
  pub parent : Option ℕ
  pub edge : Option Edge

abbrev pub is_visited : ℕ → List Arrival → Bool
is_visited id = any (λ a. a.id == id)

abbrev pub get_arrival : ℕ → List Arrival → Option Arrival
get_arrival id [] = none
get_arrival id (a ∷ visited) = elim (a.id == id) [ true ↦ some a | false ↦ get_arrival id visited ]

-- The state of the search.
pub record Search : Type 0 where
  pub visited : List Arrival
  pub queue : List (ℕ × ℕ)
  pub found : Bool

-- The entity is in the store and belongs to another user.
unfoldable pub foreign : Store → Option ℕ → ℕ → Bool
foreign s none id = false
foreign s (some uid) id = elim (s.get_entity id) [
  | none ↦ false
  | some entity ↦ not (entity.user_id == uid)
]

abbrev pub arrive : ℕ → ℕ → Edge → ℕ → Search → Search
arrive to_id parent edge neighbor f = record f {
  visited = record { id = neighbor; parent = some parent; edge = some edge } ∷ f.visited;
}

-- The loop over the edges of one direction, which stops at `to_id`.
unfoldable pub discover : ℕ → (Edge → ℕ) → ℕ → ℕ → List Edge → Search → Search
discover to_id end entity_id depth [] f = f
discover to_id end entity_id depth (e ∷ edges) f = elim (is_visited (end e) f.visited) [
  | true ↦ discover to_id end entity_id depth edges f
  | false ↦ elim (end e == to_id) [
    | true ↦ record (arrive to_id entity_id e (end e) f) { found = true }
    | false ↦
        discover to_id end entity_id depth edges (record (arrive to_id entity_id e (end e) f) {
          queue = f.queue ++ (end e, depth + 1) ∷ [];
        })
  ]
]

-- The walk from `current` back to the source: `none` is the end of the fuel.
unfoldable pub trace : ℕ → List Arrival → ℕ → Option (List (ℕ × Option Edge))
trace zero visited current = none
trace (suc fuel) visited current = elim (get_arrival current visited) [
  | none ↦ some []
  | some a ↦ elim a.parent [
    | none ↦ some ((current, a.edge) ∷ [])
    | some p ↦ elim (trace fuel visited p) [
      | none ↦ none
      | some path ↦ some ((current, a.edge) ∷ path)
    ]
  ]
]

-- The steps of the path, numbered from `i`, without those whose entity is not visible.
unfoldable pub resolve : Store → Option ℕ → ℕ → List (ℕ × Option Edge) → List PathStep
resolve s user_id i [] = []
resolve s user_id i ((id, edge) ∷ path) = elim (visible s user_id id) [
  | none ↦ resolve s user_id (i + 1) path
  | some entity ↦
      record { entity = entity; edge = edge; depth = i } ∷ resolve s user_id (i + 1) path
]

module _ (s : Store) (user_id : Option ℕ) (max_depth : ℕ) (valid_only : Bool) (to_id : ℕ) where
  -- The two loops at a popped id.
  unfoldable pub explore : ℕ → ℕ → Search → Search
  explore id depth f =
      let g =
        discover to_id (λ e. e.target_entity_id) id depth (out_edges s user_id valid_only id) f in
      if g.found
      then g
      else discover to_id (λ e. e.source_entity_id) id depth (in_edges s user_id valid_only id) g

  -- The `while` loop: `none` is the end of the fuel.
  unfoldable pub search : ℕ → Search → Option Search
  search zero f = none
  search (suc fuel) f = elim f.queue [
    | [] ↦ some f
    | (id, depth) ∷ queue ↦
        let popped : Search = record f { queue = queue } in
        elim (leb max_depth depth || foreign s user_id id) [
          | true ↦ search fuel popped
          | false ↦
              let g = explore id depth popped in
              elim g.found [ true ↦ some g | false ↦ search fuel g ]
        ]
  ]

-- What is returned for a finished search.
unfoldable pub answer : Store → Option ℕ → ℕ → ℕ → Search → Option ShortestPath
answer s user_id to_id fuel f = elim f.found [
  | false ↦ some (record { steps = []; entities_visited = length f.visited; found = false })
  | true ↦ elim (trace fuel f.visited to_id) [
    | none ↦ none
    | some path ↦ some (record {
      steps = resolve s user_id 0 (reverse path);
      entities_visited = length f.visited;
      found = true;
    })
  ]
]

-- The case in which the source is the target.
unfoldable pub trivial_path : Store → Option ℕ → ℕ → ShortestPath
trivial_path s user_id to_id = elim (visible s user_id to_id) [
  | none ↦ record { steps = []; entities_visited = 0; found = false }
  | some entity ↦ record {
    steps = record { entity = entity; edge = none; depth = 0 } ∷ [];
    entities_visited = 1;
    found = true;
  }
]

-- The search when it starts.
abbrev pub start : ℕ → Search
start from_id = record {
  visited = record { id = from_id; parent = none; edge = none } ∷ [];
  queue = (from_id, 0) ∷ [];
  found = false;
}

unfoldable pub find_shortest_path_for_user :
    Store → ℕ → ℕ → ℕ → Option ℕ → ℕ → Bool → Option ShortestPath
find_shortest_path_for_user s fuel from_id to_id user_id max_depth valid_only =
    if from_id == to_id
    then some (trivial_path s user_id to_id)
    else elim (search s user_id max_depth valid_only to_id fuel (start from_id)) [
      | none ↦ none
      | some f ↦ answer s user_id to_id fuel f
    ]

unfoldable pub find_shortest_path : Store → ℕ → ℕ → ℕ → ℕ → Bool → Option ShortestPath
find_shortest_path s fuel from_id to_id max_depth valid_only =
    find_shortest_path_for_user s fuel from_id to_id none max_depth valid_only
