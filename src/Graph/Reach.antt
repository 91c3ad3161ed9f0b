-- ===== src/Graph/Reach.antt =====
-- What a traversal of crates/mnemo-graph/src/lib.rs returns.
use mathlib.Core.List.{Memᴰ}
use mnemo.Base.{
  ℕ, zero, suc, ◌+◌, ◌≤◌, ◌≡◌, refl, sym, ◌∙◌, subst, Bool, true, Option, some, List, [], ◌∷◌, ◌++◌,
  All, All-append, All-imp, All-keep, All-self, length, length-append, arith, leb, ltb, get_or,
  Bool-cases, Option-cases, List-cases, leb-false, inl, inr,
}
use mnemo.Models.Edge.{Edge}
use mnemo.Models.Entity.{Entity}
use mnemo.Graph.Steps.{node_of, bfs-hidden, bfs-visible}
use mnemo.Graph.{
  Store, GraphNode, Subgraph, Frontier, allowed, visible, out_edges, in_edges, visit, enqueue,
  dedup, expand, bfs, traverse_bfs_for_user,
}

module _ (s : Store) (user_id : Option ℕ) (valid_only : Bool) (seed_id : ℕ) where
  -- `Hops d id`: `id` is reached from the seed over `d` allowed edges, in either direction, each
  -- from an entity that the user may see.
  pub data Hops : ℕ → ℕ → Type 0 where
    seed : Hops 0 seed_id
    forward :
        {d a d' b : ℕ} {entity : Entity}
        → Hops d a
        → visible s user_id a ≡ some entity
        → (e : Edge) → Memᴰ e (out_edges s user_id valid_only a)
        → e.target_entity_id ≡ b
        → d + 1 ≡ d'
        → Hops d' b
    backward :
        {d a d' b : ℕ} {entity : Entity}
        → Hops d a
        → visible s user_id a ≡ some entity
        → (e : Edge) → Memᴰ e (in_edges s user_id valid_only a)
        → e.source_entity_id ≡ b
        → d + 1 ≡ d'
        → Hops d' b

module _ (s : Store) (user_id : Option ℕ) (max_depth max_nodes : ℕ) (valid_only : Bool)
    (seed_id : ℕ) where
  abbrev Queued : ℕ × ℕ → Type 0
  Queued q = Hops s user_id valid_only seed_id q.1 q.0 × (q.1 ≤ max_depth)

  -- A node of the result: its entity is the visible one of an id that is `depth` hops from the
  -- seed, `depth` is within the bound, and its edges are the allowed ones of that id.
  pub record IsReached (n : GraphNode) : Type 0 where
    pub entity_id : ℕ
    pub hops : Hops s user_id valid_only seed_id n.depth entity_id
    pub near : n.depth ≤ max_depth
    pub seen : visible s user_id entity_id ≡ some n.entity
    pub outgoing : n.outgoing ≡ out_edges s user_id valid_only entity_id
    pub incoming : n.incoming ≡ in_edges s user_id valid_only entity_id

  visit-Queued :
      (id depth : ℕ) (f : Frontier)
      → Queued (id, depth)
      → All Queued f.queue
      → All Queued (visit id depth f).queue
  unfolding visit
  visit-Queued id depth f h q =
      ground (arith, All-append Queued f.queue ((id, depth) ∷ []) q (h, tt))

  enqueue-Queued :
      (end : Edge → ℕ) (depth : ℕ) (edges : List Edge) (f : Frontier)
      → All (λ e. Queued (end e, depth)) edges
      → All Queued f.queue
      → All Queued (enqueue end depth edges f).queue
  unfolding enqueue
  enqueue-Queued end depth [] f h q = q
  enqueue-Queued end depth (e ∷ edges) f h q =
      enqueue-Queued end depth edges (visit (end e) depth f) h.1
        (visit-Queued (end e) depth f h.0 q)

  expand-Queued :
      (id depth : ℕ) (entity : Entity) (f : Frontier)
      → Queued (id, depth)
      → visible s user_id id ≡ some entity
      → All Queued f.queue
      → All Queued (expand s user_id max_depth max_nodes valid_only id depth f).queue
  unfolding expand
  expand-Queued id depth entity f h v q = elim (Bool-cases (ltb depth max_depth)) [
    | inr p ↦ rw p q
    | inl p ↦ rw p (
        enqueue-Queued (λ e. e.source_entity_id) (depth + 1) (in_edges s user_id valid_only id) _
          (All-imp _ _ (λ e m. (Hops.backward h.0 v e m refl refl, ground arith))
            (in_edges s user_id valid_only id) (All-self _))
          (enqueue-Queued (λ e. e.target_entity_id) (depth + 1) (out_edges s user_id valid_only id)
            f
            (All-imp _ _ (λ e m. (Hops.forward h.0 v e m refl refl, ground arith))
              (out_edges s user_id valid_only id) (All-self _))
            q))
  ]

  abbrev pub IsAllowed : Edge → Type 0
  IsAllowed e = allowed user_id valid_only e ≡ true

  pub outs-IsAllowed : (id : ℕ) → All IsAllowed (out_edges s user_id valid_only id)
  outs-IsAllowed id = All-keep (allowed user_id valid_only) (get_or (s.get_outgoing_edges id) [])

  pub ins-IsAllowed : (id : ℕ) → All IsAllowed (in_edges s user_id valid_only id)
  ins-IsAllowed id = All-keep (allowed user_id valid_only) (get_or (s.get_incoming_edges id) [])

  -- What the loop keeps of the nodes and edges gathered.
  record Sound (nodes : List GraphNode) (edges : List Edge) : Type 0 where
    reached : All IsReached nodes
    permitted : All IsAllowed edges
    bounded : length nodes ≤ max_nodes

  bfs-Sound :
      (fuel : ℕ) (f : Frontier) (nodes : List GraphNode) (edges : List Edge)
      (r : Frontier × List GraphNode × List Edge)
      → All Queued f.queue
      → Sound nodes edges
      → bfs s user_id max_depth max_nodes valid_only fuel f nodes edges ≡ some r
      → Sound r.1 r.2
  unfolding bfs
  bfs-Sound zero f nodes edges r q h e = cc
  bfs-Sound (suc fuel) f nodes edges r q h e = elim (List-cases f.queue) [
    | inl p ↦ ground arith
    | inr ((id, depth), rest, p) ↦
        let queued : All Queued ((id, depth) ∷ rest) = subst (All Queued) p q in
        elim (Bool-cases (leb max_nodes (length nodes))) [
          | inl full ↦ ground arith
          | inr room ↦ elim (Option-cases (visible s user_id id)) [
            | inl hidden ↦
                bfs-Sound fuel (record f { queue = rest }) nodes edges r queued.1 h
                  (sym (
                      bfs-hidden s user_id max_depth max_nodes valid_only fuel f nodes edges id
                        depth rest p room hidden)
                    ∙ e)
            | inr (entity, v) ↦
                let popped : Frontier = record f { queue = rest } in
                bfs-Sound fuel (expand s user_id max_depth max_nodes valid_only id depth popped)
                  (nodes ++ node_of s user_id valid_only entity id depth ∷ [])
                  (edges ++ out_edges s user_id valid_only id ++ in_edges s user_id valid_only id) r
                  (expand-Queued id depth entity popped queued.0 v queued.1)
                  (record {
                    reached = All-append IsReached nodes _ h.reached (
                      record {
                        entity_id = id;
                        hops = queued.0.0;
                        near = queued.0.1;
                        seen = v;
                        outgoing = refl;
                        incoming = refl;
                      },
                      tt,
                    );
                    permitted =
                        All-append IsAllowed (edges ++ out_edges s user_id valid_only id)
                          (in_edges s user_id valid_only id)
                          (All-append IsAllowed edges (out_edges s user_id valid_only id)
                            h.permitted (outs-IsAllowed id))
                          (ins-IsAllowed id);
                    bounded = omega (
                      arith,
                      leb-false _ _ room,
                      length-append nodes (node_of s user_id valid_only entity id depth ∷ []),
                    );
                  })
                  (sym (
                      bfs-visible s user_id max_depth max_nodes valid_only fuel f nodes edges id
                        depth rest p room entity v)
                    ∙ e)
          ]
        ]
  ]

  dedup-All :
      (P : Edge → Type 0) (seen : List ℕ) (edges : List Edge)
      → All P edges
      → All P (dedup seen edges)
  unfolding dedup
  dedup-All P seen [] h = tt
  dedup-All P seen (e ∷ edges) h =
      ground (arith, dedup-All P seen edges h.1, dedup-All P (e.id ∷ seen) edges h.1)

  -- If a traversal returns a subgraph, it has at most `max_nodes` nodes, each for a visible entity
  -- that is reached from the seed over `depth` allowed edges, with `depth` at most `max_depth`, and
  -- carrying its allowed edges; and every edge it returns is allowed.
  pub traverse_sound :
      (fuel : ℕ) (g : Subgraph)
      → traverse_bfs_for_user s user_id max_depth max_nodes valid_only fuel seed_id ≡ some g
      → All IsReached g.nodes × All IsAllowed g.edges × (length g.nodes ≤ max_nodes)
  unfolding traverse_bfs_for_user
  traverse_sound fuel g e =
      elim (Option-cases (bfs s user_id max_depth max_nodes valid_only fuel start [] [])) [
        | inl p ↦ ground arith
        | inr (r, p) ↦
            let sound =
              bfs-Sound fuel start [] [] r ((Hops.seed, omega arith), tt)
                (record { reached = tt; permitted = tt; bounded = omega arith }) p in
            ground (arith, sound.reached, sound.bounded, dedup-All IsAllowed [] r.2 sound.permitted)
      ]
    where
      start : Frontier
      start = record { visited = seed_id ∷ []; queue = (seed_id, 0) ∷ [] }
