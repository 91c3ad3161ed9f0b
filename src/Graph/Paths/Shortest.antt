-- ===== src/Graph/Paths/Shortest.antt =====
-- What the search of `find_shortest_path_for_user`, crates/mnemo-graph/src/lib.rs, finds.
use mnemo.Base.{
  ℕ, zero, suc, ◌+◌, ◌≤◌, ◌<◌, ◌≡◌, ◌⊎◌, refl, ap, subst, Bool, true, false, ◌||◌, Option, some,
  List, leb, [], ◌∷◌, All, All-mem, length, arith, ◌==◌, Bool-cases, List-cases, inl, inr,
}
use mnemo.Models.Edge.{Edge}
use mnemo.Graph.{Store}
use mnemo.Graph.Paths.{Arrival, Search, is_visited, explore, foreign, search}
use mnemo.Graph.Paths.Tree.{depth_of, Link, Tree, Walk}
use mnemo.Graph.Paths.Levels.{is_queued, Rising, IsQueuedAt}
use mnemo.Graph.Paths.Rounds.{Closed, Settled, Going, next-at, skip-Going, explore-Going}

-- A queue that rises from `k` on holds no id of a smaller depth.
queued-deep :
    (k d x : ℕ) (visited : List Arrival) (queue : List (ℕ × ℕ))
    → Rising k queue
    → All (IsQueuedAt d visited) queue
    → is_queued x queue ≡ true
    → k ≤ depth_of x visited
queued-deep k d x visited [] r a q = absurd (ground arith)
queued-deep k d x visited ((y, j) ∷ queue) r a q = elim (Bool-cases (y == x)) [
  | inl p ↦
      let same : y ≡ x = ground arith in
      subst (λ z. k ≤ depth_of z visited) same (omega (arith, r.0, a.0.1))
  | inr p ↦ omega (arith, queued-deep j d x visited queue r.1 a.1 (ground arith), r.0)
]

module _ (s : Store) (user_id : Option ℕ) (valid_only : Bool) (max_depth from_id to_id : ℕ) where
  abbrev IsWalk : ℕ → List (ℕ × Option Edge) → Type 0
  IsWalk = Walk s user_id valid_only from_id

  source-depth :
      (visited : List Arrival)
      → Tree s user_id valid_only from_id visited
      → (is_visited from_id visited ≡ true) × (depth_of from_id visited ≡ 0)
  source-depth _ Tree.root = (ground arith, ground arith)
  source-depth _ (Tree.grow {visited} p e id t v w l) =
      let (seen, depth) = source-depth visited t in
      elim (Bool-cases (id == from_id)) [
        | inl q ↦ absurd (ground (arith, λ (h : id ≡ from_id). ap (λ x. is_visited x visited) h))
        | inr q ↦ (ground arith, ground arith)
      ]

  Closed-Link :
      (a b : ℕ) (e : Edge) (visited : List Arrival)
      → Closed s user_id valid_only max_depth from_id to_id a visited
      → Link s user_id valid_only from_id a e b
      → (is_visited b visited ≡ true) × (depth_of b visited ≤ depth_of a visited + 1)
  Closed-Link a b e visited c (Link.forward own m same) =
      subst (λ x. (is_visited x visited ≡ true) × (depth_of x visited ≤ depth_of a visited + 1))
        same (All-mem _ m c.targets)
  Closed-Link a b e visited c (Link.backward own m same) =
      subst (λ x. (is_visited x visited ≡ true) × (depth_of x visited ≤ depth_of a visited + 1))
        same (All-mem _ m c.sources)

  Link-own :
      (a b : ℕ) (e : Edge) → Link s user_id valid_only from_id a e b → foreign s user_id a ≡ false
  Link-own a b e (Link.forward own m same) = own
  Link-own a b e (Link.backward own m same) = own

  -- If no id above depth `n` waits, every walk of at most `n` steps ends in a visited id, at most
  -- as deep as the walk is long.
  walk-visited :
      (d n b : ℕ) (f : Search) (path : List (ℕ × Option Edge))
      → Going s user_id valid_only max_depth from_id to_id d f
      → ((x : ℕ)
          → is_visited x f.visited ≡ true
          → depth_of x f.visited < n
          → is_queued x f.queue ≡ false)
      → n ≤ max_depth
      → IsWalk b path
      → length path ≤ n + 1
      → (is_visited b f.visited ≡ true) × (depth_of b f.visited + 1 ≤ length path)
  walk-visited d n _ f _ now quiet le Walk.here len =
      let (seen, depth) = source-depth f.visited now.exploring.tree in (seen, omega (arith, depth))
  walk-visited d n _ f _ now quiet le (Walk.step {a} {path} e b walk link) len =
      let (seen, depth) = walk-visited d n a f path now quiet le walk (omega (arith, len)) in
      elim (now.done a seen) [
        | Settled.waiting q ↦ absurd (ground (arith, quiet a seen (omega (arith, depth, len))))
        | Settled.far far ↦ absurd (omega (arith, far, depth, len, le))
        | Settled.other_user o ↦ absurd (ground (arith, Link-own a b e link))
        | Settled.closed c ↦
            let (seen_b, depth_b) = Closed-Link a b e f.visited c link in
            (seen_b, omega (arith, depth, depth_b))
      ]

  -- The target is found at the length of a shortest walk, or no walk is within the bound.
  pub record Reached (g : Search) : Type 0 where
    pub found : g.found ≡ true
    pub tree : Tree s user_id valid_only from_id g.visited
    pub target : is_visited to_id g.visited ≡ true
    pub near : depth_of to_id g.visited ≤ max_depth
    pub least :
        (path : List (ℕ × Option Edge))
        → IsWalk to_id path
        → depth_of to_id g.visited + 1 ≤ length path

  pub record Unreached (g : Search) : Type 0 where
    pub unfound : g.found ≡ false
    pub none_near :
        (path : List (ℕ × Option Edge)) → IsWalk to_id path → max_depth + 1 < length path

  -- A walk to a target that is not visited is longer than the depth reached.
  walk-longer :
      (d n : ℕ) (f : Search) (path : List (ℕ × Option Edge))
      → Going s user_id valid_only max_depth from_id to_id d f
      → ((x : ℕ)
          → is_visited x f.visited ≡ true
          → depth_of x f.visited < n
          → is_queued x f.queue ≡ false)
      → n ≤ max_depth
      → IsWalk to_id path
      → n + 1 < length path
  walk-longer d n f path now quiet le walk = elim (Bool-cases (leb (length path) (n + 1))) [
    | inr p ↦ ground arith
    | inl p ↦ absurd (
        ground (
          arith,
          walk-visited d n to_id f path now quiet le walk (ground arith),
          now.exploring.unvisited,
        ))
  ]

  -- No id above the next one waits.
  next-quiet :
      (d id k : ℕ) (rest : List (ℕ × ℕ)) (f : Search)
      → (now : Going s user_id valid_only max_depth from_id to_id d f) → f.queue ≡ (id, k) ∷ rest
      → (x : ℕ) → is_visited x f.visited ≡ true
      → depth_of x f.visited < k
      → is_queued x f.queue ≡ false
  next-quiet d id k rest f now next x v less = elim (Bool-cases (is_queued x f.queue)) [
    | inr p ↦ p
    | inl p ↦
        let at = next-at s user_id valid_only max_depth from_id to_id id k d rest f now next in
        absurd (
          omega (
            arith,
            less,
            queued-deep k d x f.visited ((id, k) ∷ rest) (omega arith, at.1) (at.2, at.3)
                (subst (λ q. is_queued x q ≡ true) next p),
          ))
  ]

  pub search_lem :
      (fuel d : ℕ) (f g : Search)
      → Going s user_id valid_only max_depth from_id to_id d f
      → search s user_id max_depth valid_only to_id fuel f ≡ some g
      → Reached g ⊎ Unreached g
  unfolding search
  search_lem zero d f g now r = absurd (ground arith)
  search_lem (suc fuel) d f g now r = elim (List-cases f.queue) [
    | inl empty ↦
        let same : f ≡ g = ground arith in
        inr (
          subst Unreached same (record {
            unfound = now.exploring.unfound;
            none_near = λ path walk.
                walk-longer d max_depth f path now (λ x v h. rw empty refl) (omega arith) walk;
          }))
    | inr ((id, k), rest, next) ↦ elim (Bool-cases (leb max_depth k || foreign s user_id id)) [
      | inl skip ↦
          search_lem fuel k (record f { queue = rest }) g
            (skip-Going s user_id valid_only max_depth from_id to_id id k d rest f now next skip)
            (ground arith)
      | inr go ↦
          elim (explore-Going s user_id valid_only max_depth from_id to_id id k d rest f now next
            (ground arith)) [
              | inl hit ↦
                  let same : explore s user_id max_depth valid_only to_id id k
                        (record f { queue = rest })
                      ≡ g =
                    ground arith in
                  inl (
                    subst Reached same (record {
                      found = hit.found;
                      tree = hit.found_tree;
                      target = hit.target;
                      near = ground (arith, hit.target_depth);
                      least = λ path walk. omega (
                        arith,
                        hit.target_depth,
                        walk-longer d k f path now (next-quiet d id k rest f now next)
                            (ground arith) walk,
                      );
                    }))
              | inr on ↦ search_lem fuel k _ g on (ground arith)
            ]
    ]
  ]
