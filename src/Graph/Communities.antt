-- ===== src/Graph/Communities.antt =====
-- crates/mnemo-graph/src/lib.rs: `detect_communities` of `GraphEngine`. The two queries of the store
-- are parameters, and so is the order in which a hash map is iterated, which may differ each time.
pub mod Connected
pub mod Partition
use Prim.Native.Nat.Ordering.{lt, eq, gt}
use mnemo.Base.{
  ℕ, zero, suc, ◌+◌, ◌≡◌, Bool, true, false, if◌then◌else◌, leb, ◌==◌, Option, none, some, get_or,
  List, [], ◌∷◌, ◌++◌,
}
use mnemo.Base.Order.{nat_ord}
use mnemo.BTreeMap.{BTreeMap, get, insert}
use mnemo.Models.Edge.{Edge, EdgeFilter, default_filter}
use mnemo.Models.Entity.{Entity}

-- The two reads of the store that the detection makes; `none` is an error.
pub record Listing : Type 0 where
  pub list_entities : ℕ → ℕ → Option (List Entity)
  pub query_edges : ℕ → EdgeFilter → Option (List Edge)

abbrev pub Labels : Type 0
Labels = BTreeMap ℕ ℕ

abbrev pub Adjacency : Type 0
Adjacency = BTreeMap ℕ (List ℕ)

-- `adjacency.entry(id).or_default().push(neighbor)`
unfoldable pub add_neighbor : Adjacency → ℕ → ℕ → Adjacency
add_neighbor adjacency id neighbor =
    insert adjacency id (get_or (get adjacency id) [] ++ neighbor ∷ [])

unfoldable pub build_adjacency : Adjacency → List Edge → Adjacency
build_adjacency adjacency [] = adjacency
build_adjacency adjacency (e ∷ edges) =
    build_adjacency
      (add_neighbor (add_neighbor adjacency e.source_entity_id e.target_entity_id)
        e.target_entity_id e.source_entity_id)
      edges

-- Each entity is its own community.
unfoldable pub own_labels : Labels → List Entity → Labels
own_labels labels [] = labels
own_labels labels (e ∷ entities) = own_labels (insert labels e.id e.id) entities

-- How often each label occurs among the neighbours.
unfoldable pub count_labels : Labels → BTreeMap ℕ ℕ → List ℕ → BTreeMap ℕ ℕ
count_labels labels counts [] = counts
count_labels labels counts (id ∷ neighbors) =
    count_labels labels
      (elim (get labels id) [
        | none ↦ counts
        | some label ↦ insert counts label (get_or (get counts label) 0 + 1)
      ])
      neighbors

-- `max_by_key` on the counts: the last of the greatest.
unfoldable pub last_max : ℕ × ℕ → List (ℕ × ℕ) → ℕ × ℕ
last_max best [] = best
last_max best (c ∷ counts) = last_max (if leb best.1 c.1 then c else best) counts

abbrev pub most_frequent : List (ℕ × ℕ) → Option ℕ
most_frequent [] = none
most_frequent (c ∷ counts) = some (last_max c counts).0

-- The labels, and whether one has changed.
pub record Round : Type 0 where
  pub labels : Labels
  pub changed : Bool

-- `best_label != current`, where `labels[&entity.id]` would panic on an id without a label.
unfoldable pub adopt : ℕ → ℕ → Round → Round
adopt id best r = elim (get r.labels id) [
  | none ↦ r
  | some current ↦
      if best == current then r else record { labels = insert r.labels id best; changed = true }
]

-- The iteration order of the counts, for each round and each entity.
abbrev pub Iteration : Type 0
Iteration = ℕ → ℕ → List (ℕ × ℕ) → List (ℕ × ℕ)

module _ (order : Iteration) (adjacency : Adjacency) where
  unfoldable pub relabel : ℕ → ℕ → Round → Round
  relabel round id r = elim (get adjacency id) [
    | none ↦ r
    | some neighbors ↦ elim (most_frequent (order round id (count_labels r.labels [] neighbors))) [
      | none ↦ r
      | some best ↦ adopt id best r
    ]
  ]

  unfoldable pub sweep : ℕ → List Entity → Round → Round
  sweep round [] r = r
  sweep round (e ∷ entities) r = sweep round entities (relabel round e.id r)

  -- The rounds, of which `left` are left at most.
  unfoldable pub propagate : ℕ → List Entity → Labels → Labels
  propagate zero entities labels = labels
  propagate (suc left) entities labels =
      let r = sweep left entities (record { labels = labels; changed = false }) in
      elim r.changed [ true ↦ propagate left entities r.labels | false ↦ r.labels ]

unfoldable pub listed_edges : Listing → ℕ → List Edge
listed_edges s user_id =
    get_or
      (s.query_edges user_id
        (record default_filter { include_invalidated = false; limit = 100000 }))
      []

unfoldable pub detect_communities : Listing → Iteration → ℕ → ℕ → Option Labels
detect_communities s order user_id max_iterations = elim (s.list_entities user_id 10000) [
  | none ↦ none
  | some [] ↦ some []
  | some (e ∷ entities) ↦ some (
      propagate order (build_adjacency [] (listed_edges s user_id)) max_iterations (e ∷ entities)
        (own_labels [] (e ∷ entities)))
]
