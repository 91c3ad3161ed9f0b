-- ===== src/Graph/Paths/Exact.antt =====
-- The answers of `find_shortest_path_for_user`, crates/mnemo-graph/src/lib.rs, against the walks of
-- the graph.
use mathlib.Core.List.{Memᴰ}
use mathlib.Core.Option.{some-injective}
use mnemo.Base.{
  ℕ, ◌+◌, ◌≤◌, ◌<◌, ◌≡◌, ◌⊎◌, refl, subst, Bool, true, false, Option, some, List, [], ◌∷◌, All,
  All-mem, All-reverse, reverse, length, arith, ◌==◌, Bool-cases, Option-cases, inl, inr,
}
use mnemo.Models.Edge.{Edge}
use mnemo.Graph.{Store, visible}
use mnemo.Graph.Fuel.{fresh-visit, fresh-le, IsClosed}
use mnemo.Graph.Reach.{outs-IsAllowed, ins-IsAllowed}
use mnemo.Graph.Tenancy.{IsOwn, allowed-IsOwn, visible-owner}
use mnemo.Graph.Paths.{
  Search, ShortestPath, PathStep, start, resolve, answer, find_shortest_path_for_user, trivial_path,
}
use mnemo.Graph.Paths.Tree.{Link, Walk, trace_total}
use mnemo.Graph.Paths.Rounds.{start-Going}
use mnemo.Graph.Paths.Shortest.{Reached, Unreached, search_lem}
use mnemo.Graph.Paths.Answers.{search_total}

module _ (s : Store) (user_id : Option ℕ) (valid_only : Bool) (max_depth from_id to_id : ℕ) where
  -- An answer that is right: the visible steps, in order, of a walk to the target that is within
  -- the bound and that no walk is shorter than; or no steps, and no walk within the bound.
  pub data IsAnswer (r : ShortestPath) : Type 0 where
    path_found :
        (path : List (ℕ × Option Edge))
        → Walk s user_id valid_only from_id to_id path
        → length path ≤ max_depth + 1
        → ((other : List (ℕ × Option Edge))
            → Walk s user_id valid_only from_id to_id other
            → length path ≤ length other)
        → r.found ≡ true
        → r.steps ≡ resolve s user_id 0 (reverse path)
        → IsAnswer r
    no_path :
        ((other : List (ℕ × Option Edge))
          → Walk s user_id valid_only from_id to_id other
          → max_depth + 1 < length other)
        → r.found ≡ false
        → r.steps ≡ []
        → IsAnswer r

  answer_total :
      (fuel : ℕ) (g : Search)
      → length g.visited ≤ fuel
      → Reached s user_id valid_only max_depth from_id to_id g
        ⊎ Unreached s user_id valid_only max_depth from_id to_id g
      → (r : ShortestPath) × (answer s user_id to_id fuel g ≡ some r) × IsAnswer r
  unfolding answer
  answer_total fuel g h (inr u) = (
    record { steps = []; entities_visited = length g.visited; found = false },
    ground (arith, u.unfound),
    IsAnswer.no_path u.none_near refl refl,
  )
  answer_total fuel g h (inl a) =
      let (path, e, walk, len) =
        trace_total s user_id valid_only from_id fuel g.visited to_id a.tree a.target h in
      (
        record {
          steps = resolve s user_id 0 (reverse path);
          entities_visited = length g.visited;
          found = true;
        },
        ground (arith, a.found),
        IsAnswer.path_found path walk (omega (arith, len, a.near))
            (λ other w. omega (arith, len, a.least other w)) refl refl,
      )

  -- For two different ids, a store whose edges have their ends among `ids`, and more fuel than there
  -- are ids, the shortest path search returns an answer. If any walk over allowed edges, from no
  -- other user's entity, leads from the source to the target in at most `max_depth` steps, the
  -- answer is found and holds the visible entities of a shortest one in order; if none does, it is
  -- not found and has no steps.
  pub shortest_path_exact :
      (ids : List ℕ) (fuel : ℕ)
      → (from_id == to_id) ≡ false
      → IsClosed s user_id valid_only ids
      → Memᴰ from_id ids
      → length ids < fuel
      → (r : ShortestPath) × (find_shortest_path_for_user s fuel from_id to_id user_id max_depth
            valid_only
          ≡ some r)
        × IsAnswer r
  unfolding find_shortest_path_for_user
  shortest_path_exact ids fuel other c m h =
      let first = fresh-visit ids [] from_id m refl in
      let (g, found, le) =
        search_total s user_id valid_only max_depth to_id ids fuel (start from_id) c
          (omega (arith, first, fresh-le ids [])) in
      let (r, e, right) = answer_total fuel g (omega (arith, le, h, first, fresh-le ids [])) (
        search_lem s user_id valid_only max_depth from_id to_id fuel 0 (start from_id) g
          (start-Going s user_id valid_only max_depth from_id to_id other) found) in
      (r, ground arith, right)

-- A step whose entity and edge are the user's.
pub record IsOwnStep (uid : ℕ) (valid_only : Bool) (p : PathStep) : Type 0 where
  pub owner : p.entity.user_id ≡ uid
  pub own_edge : (e : Edge) → p.edge ≡ some e → IsOwn uid valid_only e

module _ (s : Store) (uid : ℕ) (valid_only : Bool) (max_depth from_id to_id : ℕ) where
  abbrev HasOwnEdge : ℕ × Option Edge → Type 0
  HasOwnEdge p = (e : Edge) → p.1 ≡ some e → IsOwn uid valid_only e

  Link-IsOwn :
      (a b : ℕ) (e : Edge) → Link s (some uid) valid_only from_id a e b → IsOwn uid valid_only e
  Link-IsOwn a b e (Link.forward own m same) =
      allowed-IsOwn uid valid_only e
        (All-mem _ m (outs-IsAllowed s (some uid) 0 0 valid_only from_id a))
  Link-IsOwn a b e (Link.backward own m same) =
      allowed-IsOwn uid valid_only e
        (All-mem _ m (ins-IsAllowed s (some uid) 0 0 valid_only from_id a))

  walk-IsOwn :
      (b : ℕ) (path : List (ℕ × Option Edge))
      → Walk s (some uid) valid_only from_id b path
      → All HasOwnEdge path
  walk-IsOwn _ _ Walk.here = (λ e h. absurd (ground arith), tt)
  walk-IsOwn _ _ (Walk.step {a} {path} e b walk link) = (
    λ x h. subst (IsOwn uid valid_only) (some-injective e x h) (Link-IsOwn a b e link),
    walk-IsOwn a path walk,
  )

  resolve-IsOwn :
      (i : ℕ) (path : List (ℕ × Option Edge))
      → All HasOwnEdge path
      → All (IsOwnStep uid valid_only) (resolve s (some uid) i path)
  unfolding resolve
  resolve-IsOwn i [] h = tt
  resolve-IsOwn i ((id, edge) ∷ path) h = elim (Option-cases (visible s (some uid) id)) [
    | inl p ↦ rw (p, resolve) (resolve-IsOwn (i + 1) path h.1)
    | inr (entity, p) ↦
        rw (p, resolve)
          (
            record { owner = visible-owner s uid id entity p; own_edge = h.0 },
            resolve-IsOwn (i + 1) path h.1,
          )
  ]

  answer-IsOwn :
      (r : ShortestPath)
      → IsAnswer s (some uid) valid_only max_depth from_id to_id r
      → All (IsOwnStep uid valid_only) r.steps
  answer-IsOwn r (IsAnswer.no_path a b same) = rw same tt
  answer-IsOwn r (IsAnswer.path_found path walk a b c same) =
      rw same
        (resolve-IsOwn 0 (reverse path) (All-reverse HasOwnEdge path (walk-IsOwn to_id path walk)))

  trivial-IsOwn : All (IsOwnStep uid valid_only) (trivial_path s (some uid) to_id).steps
  unfolding trivial_path
  trivial-IsOwn = elim (Option-cases (visible s (some uid) to_id)) [
    | inl p ↦ rw (p, trivial_path) tt
    | inr (entity, p) ↦
        rw (p, trivial_path)
          (
            record {
              owner = visible-owner s uid to_id entity p;
              own_edge = λ e h. absurd (ground arith);
            },
            tt,
          )
  ]

  -- For a store whose edges have their ends among `ids`, and more fuel than there are ids, the
  -- shortest path search for a user returns an answer in which every entity and every edge is the
  -- user's, and is currently valid if only valid edges are followed, whatever else the store holds.
  pub shortest_path_isolated :
      (ids : List ℕ) (fuel : ℕ)
      → IsClosed s (some uid) valid_only ids
      → Memᴰ from_id ids
      → length ids < fuel
      → (r : ShortestPath) × (find_shortest_path_for_user s fuel from_id to_id
            (some uid)
            max_depth
            valid_only
          ≡ some r)
        × All (IsOwnStep uid valid_only) r.steps
  unfolding find_shortest_path_for_user
  shortest_path_isolated ids fuel c m h = elim (Bool-cases (from_id == to_id)) [
    | inl same ↦ (trivial_path s (some uid) to_id, ground arith, trivial-IsOwn)
    | inr other ↦
        let (r, e, right) =
          shortest_path_exact s (some uid) valid_only max_depth from_id to_id ids fuel other c m
            h in
        (r, e, answer-IsOwn r right)
  ]
