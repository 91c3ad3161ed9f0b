-- ===== src/Graph/Tenancy.antt =====
-- Traversals of crates/mnemo-graph/src/lib.rs for one user, and the edges of their results.
use mnemo.Base.{
  ℕ, ◌≡◌, refl, ap, Bool, true, false, ◌||◌, Option, some, List, [], ◌∷◌, All, All-imp, any, ◌==◌,
  arith, Option-cases, inl, inr,
}
use mnemo.Models.Edge.{Edge, is_valid}
use mnemo.Models.Entity.{Entity}
use mnemo.Graph.{Store, GraphNode, Subgraph, allowed, visible, dedup, bfs, traverse_bfs_for_user}
use mnemo.Graph.Reach.{IsReached, traverse_sound, outs-IsAllowed, ins-IsAllowed}

-- An edge that is the user's, and currently valid if that is asked for.
abbrev pub IsOwn : ℕ → Bool → Edge → Type 0
IsOwn uid valid_only e = (e.user_id ≡ uid) × (valid_only ≡ true → is_valid e ≡ true)

pub allowed-IsOwn :
    (uid : ℕ) (valid_only : Bool) (e : Edge)
    → allowed (some uid) valid_only e ≡ true
    → IsOwn uid valid_only e
allowed-IsOwn uid valid_only e h = (ground arith, λ v. ground arith)

pub visible-owner :
    (s : Store) (uid id : ℕ) (entity : Entity)
    → visible s (some uid) id ≡ some entity
    → entity.user_id ≡ uid
unfolding visible
visible-owner s uid id entity h = ground arith

module _ (s : Store) (uid max_depth max_nodes : ℕ) (valid_only : Bool) (seed_id : ℕ) where
  -- A node whose entity and edges are all the user's.
  pub record IsOwnNode (n : GraphNode) : Type 0 where
    pub owner : n.entity.user_id ≡ uid
    pub own_outgoing : All (IsOwn uid valid_only) n.outgoing
    pub own_incoming : All (IsOwn uid valid_only) n.incoming

  reached-IsOwnNode :
      (n : GraphNode)
      → IsReached s (some uid) max_depth max_nodes valid_only seed_id n
      → IsOwnNode n
  reached-IsOwnNode n h = record {
    owner = visible-owner s uid h.entity_id n.entity h.seen;
    own_outgoing = rw (h.outgoing) (
        All-imp _ _ (allowed-IsOwn uid valid_only) _
          (outs-IsAllowed s (some uid) max_depth max_nodes valid_only seed_id h.entity_id));
    own_incoming = rw (h.incoming) (
        All-imp _ _ (allowed-IsOwn uid valid_only) _
          (ins-IsAllowed s (some uid) max_depth max_nodes valid_only seed_id h.entity_id));
  }

  -- If a traversal for a user returns a subgraph, it holds no other user's data, whatever the store
  -- holds: every entity and every edge it returns is the user's, and if only valid edges are
  -- followed, every edge is currently valid.
  pub traverse_isolated :
      (fuel : ℕ) (g : Subgraph)
      → traverse_bfs_for_user s (some uid) max_depth max_nodes valid_only fuel seed_id ≡ some g
      → All IsOwnNode g.nodes × All (IsOwn uid valid_only) g.edges
  traverse_isolated fuel g e =
      let (nodes, edges, _) =
        traverse_sound s (some uid) max_depth max_nodes valid_only seed_id fuel g e in
      (
        All-imp _ _ reached-IsOwnNode g.nodes nodes,
        All-imp _ _ (allowed-IsOwn uid valid_only) g.edges edges,
      )

-- No two edges share an id, and none has an id in `seen`.
abbrev pub HasFreshIds : List ℕ → List Edge → Type 0
HasFreshIds seen [] = Unit
HasFreshIds seen (e ∷ edges) =
    (any (λ id. id == e.id) seen ≡ false) × HasFreshIds (e.id ∷ seen) edges

dedup_fresh : (seen : List ℕ) (edges : List Edge) → HasFreshIds seen (dedup seen edges)
unfolding dedup
dedup_fresh seen [] = tt
dedup_fresh seen (e ∷ edges) =
    ground (arith, dedup_fresh seen edges, dedup_fresh (e.id ∷ seen) edges)

abbrev pub has_id : ℕ → List Edge → Bool
has_id id = any (λ e. e.id == id)

dedup_ids :
    (seen : List ℕ) (edges : List Edge) (id : ℕ)
    → (has_id id (dedup seen edges) || any (λ x. x == id) seen)
      ≡ (has_id id edges || any (λ x. x == id) seen)
unfolding dedup
dedup_ids seen [] id = refl
dedup_ids seen (e ∷ edges) id = ground (
  arith,
  dedup_ids seen edges id,
  dedup_ids (e.id ∷ seen) edges id,
  λ (h : e.id ≡ id). ap (λ y. any (λ x. x == y) seen) h,
)

-- The edges that a traversal returns have distinct ids.
pub traverse_distinct_edges :
    (s : Store) (user_id : Option ℕ) (max_depth max_nodes : ℕ) (valid_only : Bool) (fuel seed : ℕ)
    (g : Subgraph)
    → traverse_bfs_for_user s user_id max_depth max_nodes valid_only fuel seed ≡ some g
    → HasFreshIds [] g.edges
unfolding traverse_bfs_for_user
traverse_distinct_edges s user_id max_depth max_nodes valid_only fuel seed g e =
    elim (Option-cases (
      bfs s user_id max_depth max_nodes valid_only fuel
        (record { visited = seed ∷ []; queue = (seed, 0) ∷ [] }) [] [])) [
          | inl p ↦ ground arith
          | inr (r, p) ↦ ground (arith, dedup_fresh [] r.2)
        ]

-- Dropping repeated edges keeps every id that occurs, once.
pub dedup_exact :
    (edges : List Edge)
    → HasFreshIds [] (dedup [] edges) × ((id : ℕ) → has_id id (dedup [] edges) ≡ has_id id edges)
dedup_exact edges = (dedup_fresh [] edges, λ id. ground (arith, dedup_ids [] edges id))
