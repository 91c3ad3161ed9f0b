-- ===== src/Graph/Paths/Rounds.antt =====
-- One round of the loop in `find_shortest_path_for_user`, crates/mnemo-graph/src/lib.rs, and what
-- the loop keeps.
use mnemo.Base.{
  ℕ, ◌+◌, ◌≤◌, ◌≡◌, ◌⊎◌, refl, subst, ◌∙◌, Bool, true, false, ◌||◌, Option, List, leb, ◌∷◌, All,
  All-imp, All-self, arith, ◌==◌, Bool-cases, inl, inr,
}
use mnemo.Graph.{Store, out_edges, in_edges}
use mnemo.Graph.Paths.{Arrival, Search, is_visited, explore, foreign, start, discover}
use mnemo.Graph.Paths.Tree.{depth_of, Link, Tree}
use mnemo.Graph.Paths.Levels.{
  is_queued, Rising, IsQueuedAt, Extends, Extends-trans, Exploring, HasFound, discover_lem,
}

module _ (s : Store) (user_id : Option ℕ) (valid_only : Bool) (max_depth from_id to_id : ℕ) where
  -- The ends of all edges at `x` are visited, at most one step deeper than `x`.
  pub record Closed (x : ℕ) (visited : List Arrival) : Type 0 where
    pub targets :
        All
          (λ e.
            (is_visited e.target_entity_id visited ≡ true)
            × (depth_of e.target_entity_id visited ≤ depth_of x visited + 1))
          (out_edges s user_id valid_only x)
    pub sources :
        All
          (λ e.
            (is_visited e.source_entity_id visited ≡ true)
            × (depth_of e.source_entity_id visited ≤ depth_of x visited + 1))
          (in_edges s user_id valid_only x)

  -- A visited id waits in the queue, or its edges need not be followed, or they have been.
  pub data Settled (x : ℕ) (f : Search) : Type 0 where
    waiting : is_queued x f.queue ≡ true → Settled x f
    far : max_depth ≤ depth_of x f.visited → Settled x f
    other_user : foreign s user_id x ≡ true → Settled x f
    closed : Closed x f.visited → Settled x f

  pub record Going (d : ℕ) (f : Search) : Type 0 where
    pub exploring : Exploring s user_id valid_only from_id to_id d f
    pub done : (x : ℕ) → is_visited x f.visited ≡ true → Settled x f

  module _ (f g : Search) (ext : Extends f g) where
    Closed-Extends :
        (x : ℕ) → is_visited x f.visited ≡ true → Closed x f.visited → Closed x g.visited
    Closed-Extends x v c = record {
      targets =
          All-imp _ _
            (λ e h. (
              ext.seen e.target_entity_id h.0,
              omega (arith, ext.same_depth e.target_entity_id h.0, ext.same_depth x v, h.1),
            ))
            (out_edges s user_id valid_only x) c.targets;
      sources =
          All-imp _ _
            (λ e h. (
              ext.seen e.source_entity_id h.0,
              omega (arith, ext.same_depth e.source_entity_id h.0, ext.same_depth x v, h.1),
            ))
            (in_edges s user_id valid_only x) c.sources;
    }

    Settled-Extends : (x : ℕ) → is_visited x f.visited ≡ true → Settled x f → Settled x g
    Settled-Extends x v (Settled.waiting q) = Settled.waiting (ext.still_queued x q)
    Settled-Extends x v (Settled.far le) = Settled.far (omega (arith, ext.same_depth x v, le))
    Settled-Extends x v (Settled.other_user o) = Settled.other_user o
    Settled-Extends x v (Settled.closed c) = Settled.closed (Closed-Extends x v c)

  module _ (id d : ℕ) (f : Search) (now : Exploring s user_id valid_only from_id to_id d f)
      (seen : is_visited id f.visited ≡ true) (level : depth_of id f.visited ≡ d)
      (own : foreign s user_id id ≡ false) where
    pub record Explored (g : Search) : Type 0 where
      pub still : Exploring s user_id valid_only from_id to_id d g
      pub extends : Extends f g
      pub whole : Closed id g.visited

    explore_lem :
        HasFound s user_id valid_only from_id to_id d
          (explore s user_id max_depth valid_only to_id id d f)
        ⊎ Explored (explore s user_id max_depth valid_only to_id id d f)
    unfolding explore
    explore_lem =
        let outs = out_edges s user_id valid_only id in
        let ins = in_edges s user_id valid_only id in
        let out_links : All (λ e. Link s user_id valid_only from_id id e e.target_entity_id) outs =
          All-imp _ _ (λ e m. Link.forward own m refl) outs (All-self outs) in
        let in_links : All (λ e. Link s user_id valid_only from_id id e e.source_entity_id) ins =
          All-imp _ _ (λ e m. Link.backward own m refl) ins (All-self ins) in
        let g : Search = discover to_id (λ e. e.target_entity_id) id d outs f in
        elim (discover_lem s user_id valid_only from_id to_id (λ e. e.target_entity_id) id d outs f
          now seen level out_links) [
            | inl hit ↦ simp (hit.found) (inl hit)
            | inr a ↦
                simp (a.still.unfound)
                  (elim (discover_lem s user_id valid_only from_id to_id (λ e. e.source_entity_id)
                    id d ins g a.still (a.extends.seen id seen)
                    (a.extends.same_depth id seen ∙ level) in_links) [
                      | inl hit ↦ inl hit
                      | inr b ↦
                          let ext : Extends f _ = Extends-trans f g _ a.extends b.extends in
                          let depth = ext.same_depth id seen ∙ level in
                          inr (record {
                            still = b.still;
                            extends = ext;
                            whole = record {
                              targets =
                                  All-imp _ _
                                    (λ e v.
                                      let w = b.extends.seen e.target_entity_id v in
                                      (w, omega (arith, b.still.near e.target_entity_id w, depth)))
                                    outs a.ends;
                              sources =
                                  All-imp _ _
                                    (λ e v.
                                      (v, omega (arith, b.still.near e.source_entity_id v, depth)))
                                    ins b.ends;
                            };
                          })
                    ])
          ]

  -- At the next id of the queue, the search is at the depth of that id.
  module _ (id k d : ℕ) (rest : List (ℕ × ℕ)) (f : Search) (now : Going d f)
      (next : f.queue ≡ (id, k) ∷ rest) where
    abbrev pub popped : Search
    popped = record f { queue = rest }

    pub next-at :
        (d ≤ k) × Rising k rest × IsQueuedAt d f.visited (id, k) × All (IsQueuedAt d f.visited) rest
    next-at =
        let rising : Rising d ((id, k) ∷ rest) = subst (Rising d) next now.exploring.rising in
        let queued : All (IsQueuedAt d f.visited) ((id, k) ∷ rest) =
          subst (All (IsQueuedAt d f.visited)) next now.exploring.queued in
        (rising.0, rising.1, queued.0, queued.1)

    popped-Exploring : Exploring s user_id valid_only from_id to_id k popped
    popped-Exploring = record {
      tree = now.exploring.tree;
      rising = next-at.1;
      queued = All-imp _ _ (λ q h. (h.0, h.1, omega (arith, h.2, next-at.0))) rest (next-at.3);
      near = λ x v. omega (arith, now.exploring.near x v, next-at.0);
      unvisited = now.exploring.unvisited;
      unfound = now.exploring.unfound;
    }

    -- Only the popped id stops waiting.
    popped-Settled : (x : ℕ) → Settled x f → (id ≡ x) ⊎ Settled x popped
    popped-Settled x (Settled.far le) = inr (Settled.far le)
    popped-Settled x (Settled.other_user o) = inr (Settled.other_user o)
    popped-Settled x (Settled.closed c) = inr (Settled.closed c)
    popped-Settled x (Settled.waiting q) =
        let w : is_queued x ((id, k) ∷ rest) ≡ true = subst (λ l. is_queued x l ≡ true) next q in
        elim (Bool-cases (id == x)) [
          | inl p ↦ inl (ground arith)
          | inr p ↦ inr (Settled.waiting (ground arith))
        ]

    pub skip-Going : (leb max_depth k || foreign s user_id id) ≡ true → Going k popped
    skip-Going h = record {
      exploring = popped-Exploring;
      done = λ x v. elim (popped-Settled x (now.done x v)) [
        | inr r ↦ r
        | inl same ↦ elim (Bool-cases (foreign s user_id id)) [
          | inl p ↦ Settled.other_user (subst (λ y. foreign s user_id y ≡ true) same p)
          | inr p ↦
              Settled.far
                (subst (λ y. max_depth ≤ depth_of y f.visited) same (ground (arith, next-at.2.1)))
        ]
      ];
    }

    -- A round finds the target one step deeper, or the search goes on.
    pub explore-Going :
        foreign s user_id id ≡ false
        → HasFound s user_id valid_only from_id to_id k
            (explore s user_id max_depth valid_only to_id id k popped)
          ⊎ Going k (explore s user_id max_depth valid_only to_id id k popped)
    explore-Going own =
        elim (explore_lem id k popped popped-Exploring next-at.2.0 next-at.2.1 own) [
          | inl hit ↦ inl hit
          | inr r ↦ inr (record {
            exploring = r.still;
            done = λ x v. elim (r.extends.settled x v) [
              | inr q ↦ Settled.waiting q
              | inl old ↦ elim (popped-Settled x (now.done x old)) [
                | inr w ↦ Settled-Extends popped _ r.extends x old w
                | inl same ↦ Settled.closed (
                    subst
                      (λ y.
                        Closed y (explore s user_id max_depth valid_only to_id id k popped).visited)
                      same r.whole)
              ]
            ];
          })
        ]

  pub start-Going : (from_id == to_id) ≡ false → Going 0 (start from_id)
  start-Going other = record {
    exploring = record {
      tree = Tree.root;
      rising = (omega arith, tt);
      queued = ((ground arith, ground arith, omega arith), tt);
      near = λ x v. ground arith;
      unvisited = ground arith;
      unfound = refl;
    };
    done = λ x v. Settled.waiting (ground arith);
  }
