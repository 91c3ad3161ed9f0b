-- ===== src/Graph/Paths/Levels.antt =====
-- The loop over the edges of one id in `find_shortest_path_for_user`, crates/mnemo-graph/src/lib.rs:
-- what it adds to the tree and to the queue.
use mnemo.Base.{
  ℕ, ◌+◌, ◌≤◌, ◌≡◌, ◌⊎◌, refl, ap, ◌∙◌, Bool, true, false, ◌||◌, Option, List, [], ◌∷◌, ◌++◌, All,
  All-append, All-imp, any, arith, ◌==◌, Bool-cases, inl, inr,
}
use mnemo.Models.Edge.{Edge}
use mnemo.Graph.{Store}
use mnemo.Graph.Paths.{Arrival, Search, is_visited, arrive, discover}
use mnemo.Graph.Paths.Tree.{depth_of, Link, Tree}

abbrev pub is_queued : ℕ → List (ℕ × ℕ) → Bool
is_queued id = any (λ q. q.0 == id)

-- The depths in the queue do not fall, from `d` on.
abbrev pub Rising : ℕ → List (ℕ × ℕ) → Type 0
Rising d [] = Unit
Rising d ((id, k) ∷ queue) = (d ≤ k) × Rising k queue

-- A queued id is visited, at the depth that the queue has, which is at most `d + 1`.
abbrev pub IsQueuedAt : ℕ → List Arrival → ℕ × ℕ → Type 0
IsQueuedAt d visited q =
    (is_visited q.0 visited ≡ true) × (depth_of q.0 visited ≡ q.1) × (q.1 ≤ d + 1)

-- Ids that were visited and queued still are, at the same depth; those that are new are queued.
pub record Extends (f g : Search) : Type 0 where
  pub seen : (x : ℕ) → is_visited x f.visited ≡ true → is_visited x g.visited ≡ true
  pub same_depth :
      (x : ℕ) → is_visited x f.visited ≡ true → depth_of x g.visited ≡ depth_of x f.visited
  pub still_queued : (x : ℕ) → is_queued x f.queue ≡ true → is_queued x g.queue ≡ true
  pub settled :
      (x : ℕ)
      → is_visited x g.visited ≡ true
      → (is_visited x f.visited ≡ true) ⊎ (is_queued x g.queue ≡ true)

pub Extends-refl : (f : Search) → Extends f f
Extends-refl f = record {
  seen = λ x h. h;
  same_depth = λ x h. refl;
  still_queued = λ x h. h;
  settled = λ x h. inl h;
}

pub Extends-trans : (f g h : Search) → Extends f g → Extends g h → Extends f h
Extends-trans f g h a b = record {
  seen = λ x v. b.seen x (a.seen x v);
  same_depth = λ x v. b.same_depth x (a.seen x v) ∙ a.same_depth x v;
  still_queued = λ x q. b.still_queued x (a.still_queued x q);
  settled = λ x v. elim (b.settled x v) [
    | inr q ↦ inr q
    | inl w ↦ elim (a.settled x w) [ inl u ↦ inl u | inr q ↦ inr (b.still_queued x q) ]
  ];
}

Rising-append :
    (d k id : ℕ) (queue : List (ℕ × ℕ))
    → Rising d queue
    → All (λ q. q.1 ≤ k) queue
    → d ≤ k
    → Rising d (queue ++ (id, k) ∷ [])
Rising-append d k id [] r h le = (le, tt)
Rising-append d k id ((x, j) ∷ queue) r h le = (r.0, Rising-append j k id queue r.1 h.1 h.0)

is_queued-append :
    (x id k : ℕ) (queue : List (ℕ × ℕ))
    → is_queued x (queue ++ (id, k) ∷ []) ≡ (is_queued x queue || (id == x))
is_queued-append x id k [] = ground arith
is_queued-append x id k (q ∷ queue) = ground (arith, is_queued-append x id k queue)

module _ (s : Store) (user_id : Option ℕ) (valid_only : Bool) (from_id to_id : ℕ) where
  -- The search at depth `d`, before it has found the target.
  pub record Exploring (d : ℕ) (f : Search) : Type 0 where
    pub tree : Tree s user_id valid_only from_id f.visited
    pub rising : Rising d f.queue
    pub queued : All (IsQueuedAt d f.visited) f.queue
    pub near : (x : ℕ) → is_visited x f.visited ≡ true → depth_of x f.visited ≤ d + 1
    pub unvisited : is_visited to_id f.visited ≡ false
    pub unfound : f.found ≡ false

  -- The target has been found, one step below depth `d`.
  pub record HasFound (d : ℕ) (f : Search) : Type 0 where
    pub found_tree : Tree s user_id valid_only from_id f.visited
    pub target : is_visited to_id f.visited ≡ true
    pub target_depth : depth_of to_id f.visited ≡ d + 1
    pub found : f.found ≡ true

  module _ (id d : ℕ) (e : Edge) (y : ℕ) (f : Search) (now : Exploring d f)
      (parent : is_visited id f.visited ≡ true) (level : depth_of id f.visited ≡ d)
      (new : is_visited y f.visited ≡ false) (link : Link s user_id valid_only from_id id e y) where
    abbrev queueing : Search
    queueing = record (arrive to_id id e y f) { queue = f.queue ++ (y, d + 1) ∷ [] }

    not-new : (x : ℕ) → is_visited x f.visited ≡ true → (y == x) ≡ false
    not-new x v = ground (arith, λ (h : y ≡ x). ap (λ z. is_visited z f.visited) h)

    arrive-Extends : Extends f queueing
    arrive-Extends = record {
      seen = λ x v. ground (arith, not-new x v);
      same_depth = λ x v. ground (arith, not-new x v);
      still_queued = λ x q. ground (arith, is_queued-append x y (d + 1) f.queue);
      settled = λ x v. elim (Bool-cases (y == x)) [
        | inl p ↦ inr (ground (arith, is_queued-append x y (d + 1) f.queue))
        | inr p ↦ inl (ground arith)
      ];
    }

    arrive-Exploring : (y == to_id) ≡ false → Exploring d queueing
    arrive-Exploring other = record {
      tree = Tree.grow id e y now.tree parent new link;
      rising =
          Rising-append d (d + 1) y f.queue now.rising (All-imp _ _ (λ q h. h.2) f.queue now.queued)
            (omega arith);
      queued =
          All-append (IsQueuedAt d queueing.visited) f.queue ((y, d + 1) ∷ [])
            (All-imp _ _
              (λ q h. (arrive-Extends.seen q.0 h.0, arrive-Extends.same_depth q.0 h.0 ∙ h.1, h.2))
              f.queue now.queued)
            ((ground arith, ground arith, omega arith), tt);
      near = λ x v. elim (Bool-cases (y == x)) [
        | inl p ↦ ground arith
        | inr p ↦ ground (arith, now.near x)
      ];
      unvisited = ground (arith, now.unvisited);
      unfound = now.unfound;
    }

    arrive-HasFound :
        (y == to_id) ≡ true → HasFound d (record (arrive to_id id e y f) { found = true })
    arrive-HasFound same = record {
      found_tree = Tree.grow id e y now.tree parent new link;
      target = ground arith;
      target_depth = ground arith;
      found = refl;
    }

  -- How the loop over edges ends: with the target, or with all ends visited.
  pub record Scanned (end : Edge → ℕ) (d : ℕ) (edges : List Edge) (f g : Search) : Type 0 where
    pub still : Exploring d g
    pub extends : Extends f g
    pub ends : All (λ e. is_visited (end e) g.visited ≡ true) edges

  pub discover_lem :
      (end : Edge → ℕ) (id d : ℕ) (edges : List Edge) (f : Search)
      → Exploring d f
      → is_visited id f.visited ≡ true
      → depth_of id f.visited ≡ d
      → All (λ e. Link s user_id valid_only from_id id e (end e)) edges
      → HasFound d (discover to_id end id d edges f)
        ⊎ Scanned end d edges f (discover to_id end id d edges f)
  unfolding discover
  discover_lem end id d [] f now parent level links =
      inr (record { still = now; extends = Extends-refl f; ends = tt })
  discover_lem end id d (e ∷ edges) f now parent level links =
      elim (Bool-cases (is_visited (end e) f.visited)) [
        | inl old ↦
            rw (old, discover)
              (elim (discover_lem end id d edges f now parent level links.1) [
                | inl found ↦ inl found
                | inr r ↦ inr (record {
                  still = r.still;
                  extends = r.extends;
                  ends = (r.extends.seen (end e) old, r.ends);
                })
              ])
        | inr new ↦ elim (Bool-cases (end e == to_id)) [
          | inl same ↦
              rw (new, discover)
                (rw same (inl (arrive-HasFound id d e (end e) f now parent level new links.0 same)))
          | inr other ↦
              let g : Search = queueing id d e (end e) f now parent level new links.0 in
              let ext : Extends f g =
                arrive-Extends id d e (end e) f now parent level new links.0 in
              rw (new, discover)
                (rw other
                  (elim (discover_lem end id d edges g
                    (arrive-Exploring id d e (end e) f now parent level new links.0 other)
                    (ext.seen id parent) (ext.same_depth id parent ∙ level) links.1) [
                      | inl found ↦ inl found
                      | inr r ↦ inr (record {
                        still = r.still;
                        extends = Extends-trans f g _ ext r.extends;
                        ends = (r.extends.seen (end e) (ground arith), r.ends);
                      })
                    ]))
        ]
      ]
