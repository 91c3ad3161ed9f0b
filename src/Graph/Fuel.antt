-- ===== src/Graph/Fuel.antt =====
-- The rounds that a traversal of crates/mnemo-graph/src/lib.rs takes.
use mathlib.Core.List.{Memᴰ}
use mnemo.Base.{
  ℕ, zero, suc, ◌+◌, ◌≤◌, ◌<◌, ◌≡◌, refl, sym, ap, ◌∙◌, Bool, true, false, Option, some, List, [],
  ◌∷◌, ◌++◌, All, any, length, length-append, arith, leb, ltb, ◌==◌, Bool-cases, Option-cases,
  List-cases, inl, inr,
}
use mnemo.Models.Edge.{Edge}
use mnemo.Graph.Steps.{node_of, bfs-hidden, bfs-visible}
use mnemo.Graph.{
  Store, GraphNode, Subgraph, Frontier, visible, out_edges, in_edges, visit, enqueue, dedup, expand,
  bfs, traverse_bfs_for_user,
}

-- How many members of `ids` are not visited yet.
unfoldable pub fresh : List ℕ → List ℕ → ℕ
fresh [] visited = 0
fresh (u ∷ ids) visited = elim (any (λ v. v == u) visited) [
  | true ↦ fresh ids visited
  | false ↦ suc (fresh ids visited)
]

fresh-visit-le : (ids visited : List ℕ) (x : ℕ) → fresh ids (x ∷ visited) ≤ fresh ids visited
unfolding fresh
fresh-visit-le [] visited x = omega arith
fresh-visit-le (u ∷ ids) visited x = ground (arith, fresh-visit-le ids visited x)

pub fresh-visit :
    (ids visited : List ℕ) (x : ℕ)
    → Memᴰ x ids
    → any (λ v. v == x) visited ≡ false
    → fresh ids (x ∷ visited) + 1 ≤ fresh ids visited
unfolding fresh
fresh-visit [] visited x m h = elim m [ ]
fresh-visit (u ∷ ids) visited x (Memᴰ.head e) h =
    ground (arith, fresh-visit-le ids visited x, sym e)
fresh-visit (u ∷ ids) visited x (Memᴰ.tail m) h = ground (arith, fresh-visit ids visited x m h)

pub fresh-le : (ids visited : List ℕ) → fresh ids visited ≤ length ids
unfolding fresh
fresh-le [] visited = omega arith
fresh-le (u ∷ ids) visited = ground (arith, fresh-le ids visited)

-- The rounds that are left at most.
abbrev rounds : List ℕ → Frontier → ℕ
rounds ids f = fresh ids f.visited + length f.queue

visit-rounds :
    (ids : List ℕ) (id depth : ℕ) (f : Frontier)
    → Memᴰ id ids
    → rounds ids (visit id depth f) ≤ rounds ids f
unfolding visit
visit-rounds ids id depth f m =
    ground (arith, fresh-visit ids f.visited id m, length-append f.queue ((id, depth) ∷ []))

enqueue-rounds :
    (ids : List ℕ) (end : Edge → ℕ) (depth : ℕ) (edges : List Edge) (f : Frontier)
    → All (λ e. Memᴰ (end e) ids) edges
    → rounds ids (enqueue end depth edges f) ≤ rounds ids f
unfolding enqueue
enqueue-rounds ids end depth [] f h = omega arith
enqueue-rounds ids end depth (e ∷ edges) f h = omega (
  arith,
  enqueue-rounds ids end depth edges (visit (end e) depth f) h.1,
  visit-rounds ids (end e) depth f h.0,
)

module _ (s : Store) (user_id : Option ℕ) (valid_only : Bool) (ids : List ℕ) where
  -- The ends of the edges that the store returns lie among `ids`.
  pub record IsClosed : Type 0 where
    pub targets :
        (id : ℕ) → All (λ e. Memᴰ e.target_entity_id ids) (out_edges s user_id valid_only id)
    pub sources :
        (id : ℕ) → All (λ e. Memᴰ e.source_entity_id ids) (in_edges s user_id valid_only id)

module _ (s : Store) (user_id : Option ℕ) (max_depth max_nodes : ℕ) (valid_only : Bool)
    (ids : List ℕ) where
  expand-rounds :
      (id depth : ℕ) (f : Frontier)
      → IsClosed s user_id valid_only ids
      → rounds ids (expand s user_id max_depth max_nodes valid_only id depth f) ≤ rounds ids f
  unfolding expand
  expand-rounds id depth f c = elim (Bool-cases (ltb depth max_depth)) [
    | inl p ↦ rw p (
        omega (
          arith,
          enqueue-rounds ids (λ e. e.target_entity_id) (depth + 1)
              (out_edges s user_id valid_only id) f (c.targets id),
          enqueue-rounds ids (λ e. e.source_entity_id) (depth + 1)
              (in_edges s user_id valid_only id)
              (enqueue (λ e. e.target_entity_id) (depth + 1) (out_edges s user_id valid_only id) f)
              (c.sources id),
        ))
    | inr p ↦ rw p (omega arith)
  ]

  bfs_total :
      (fuel : ℕ) (f : Frontier) (nodes : List GraphNode) (edges : List Edge)
      → IsClosed s user_id valid_only ids
      → rounds ids f < fuel
      → (r : Frontier × List GraphNode × List Edge) × (bfs s user_id max_depth max_nodes valid_only
            fuel f nodes edges
          ≡ some r)
  unfolding bfs
  bfs_total zero f nodes edges c h = absurd (omega arith)
  bfs_total (suc fuel) f nodes edges c h = elim (List-cases f.queue) [
    | inl p ↦ ((f, nodes, edges), ground arith)
    | inr ((id, depth), rest, p) ↦ elim (Bool-cases (leb max_nodes (length nodes))) [
      | inl full ↦ ((record f { queue = rest }, nodes, edges), ground arith)
      | inr room ↦ elim (Option-cases (visible s user_id id)) [
        | inl hidden ↦
            let (r, e) =
              bfs_total fuel (record f { queue = rest }) nodes edges c
                (ground (arith, ap length p)) in
            (
              r,
              bfs-hidden s user_id max_depth max_nodes valid_only fuel f nodes edges id depth rest p
                    room hidden
                  ∙ e,
            )
        | inr (entity, v) ↦
            let popped : Frontier = record f { queue = rest } in
            let (r, e) =
              bfs_total fuel (expand s user_id max_depth max_nodes valid_only id depth popped)
                (nodes ++ node_of s user_id valid_only entity id depth ∷ [])
                (edges ++ out_edges s user_id valid_only id ++ in_edges s user_id valid_only id) c
                (ground (arith, ap length p, expand-rounds id depth popped c)) in
            (
              r,
              bfs-visible s user_id max_depth max_nodes valid_only fuel f nodes edges id depth rest
                    p room entity v
                  ∙ e,
            )
      ]
    ]
  ]

  -- A traversal ends: where the seed and the ends of all edges lie among `ids`, one round more than
  -- there are ids is enough for it to return a subgraph.
  pub traverse_total :
      (fuel seed : ℕ)
      → IsClosed s user_id valid_only ids
      → Memᴰ seed ids
      → length ids < fuel
      → (g : Subgraph) × (traverse_bfs_for_user s user_id max_depth max_nodes valid_only fuel seed
          ≡ some g)
  unfolding traverse_bfs_for_user
  traverse_total fuel seed c m h =
      let (r, e) =
        bfs_total fuel (record { visited = seed ∷ []; queue = (seed, 0) ∷ [] }) [] [] c
          (omega (arith, fresh-visit ids [] seed m refl, fresh-le ids [])) in
      (
        record { nodes = r.1; edges = dedup [] r.2; entities_visited = length r.0.visited },
        ground arith,
      )
