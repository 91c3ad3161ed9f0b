-- ===== src/Graph/Steps.antt =====
-- The rounds of the loop in `traverse_bfs_for_user`, crates/mnemo-graph/src/lib.rs, as equations.
use mnemo.Base.{
  ℕ, suc, ◌≡◌, Bool, false, Option, none, some, List, [], ◌∷◌, ◌++◌, length, leb, arith,
}
use mnemo.Models.Edge.{Edge}
use mnemo.Models.Entity.{Entity}
use mnemo.Graph.{Store, GraphNode, Frontier, visible, out_edges, in_edges, expand, bfs}

-- The node that a visible entity adds.
abbrev pub node_of : Store → Option ℕ → Bool → Entity → ℕ → ℕ → GraphNode
node_of s user_id valid_only entity id depth = record {
  entity = entity;
  outgoing = out_edges s user_id valid_only id;
  incoming = in_edges s user_id valid_only id;
  depth = depth;
}

module _ (s : Store) (user_id : Option ℕ) (max_depth max_nodes : ℕ) (valid_only : Bool) (fuel : ℕ)
    (f : Frontier) (nodes : List GraphNode) (edges : List Edge) (id depth : ℕ) (rest : List (ℕ × ℕ))
    (popped : f.queue ≡ (id, depth) ∷ rest) (room : leb max_nodes (length nodes) ≡ false) where
  pub bfs-hidden :
      visible s user_id id ≡ none
      → bfs s user_id max_depth max_nodes valid_only (suc fuel) f nodes edges
        ≡ bfs s user_id max_depth max_nodes valid_only fuel (record f { queue = rest }) nodes edges
  unfolding bfs
  bfs-hidden hidden = ground arith

  pub bfs-visible :
      (entity : Entity)
      → visible s user_id id ≡ some entity
      → bfs s user_id max_depth max_nodes valid_only (suc fuel) f nodes edges
        ≡ bfs s user_id max_depth max_nodes valid_only fuel
            (expand s user_id max_depth max_nodes valid_only id depth (record f { queue = rest }))
            (nodes ++ node_of s user_id valid_only entity id depth ∷ [])
            (edges ++ out_edges s user_id valid_only id ++ in_edges s user_id valid_only id)
  unfolding bfs
  bfs-visible entity v = ground arith
