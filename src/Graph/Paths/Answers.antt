-- ===== src/Graph/Paths/Answers.antt =====
-- What `find_shortest_path_for_user` of crates/mnemo-graph/src/lib.rs answers, and the rounds that
-- its loops take.
use mathlib.Core.List.{Memᴰ}
use mnemo.Base.{
  ℕ, zero, suc, ◌+◌, ◌≤◌, ◌<◌, ◌≡◌, refl, ap, ◌∙◌, Bool, ◌||◌, Option, some, List, leb, [], ◌∷◌,
  ◌++◌, All, any, map, length, length-append, arith, ◌==◌, Bool-cases, List-cases, inl, inr,
}
use mnemo.Models.Edge.{Edge}
use mnemo.Graph.{Store, out_edges, in_edges}
use mnemo.Graph.Fuel.{fresh, fresh-visit, IsClosed}
use mnemo.Graph.Paths.{Arrival, Search, is_visited, arrive, discover, explore, foreign, search}

abbrev pub visited_ids : List Arrival → List ℕ
visited_ids = map (λ a. a.id)

any-visited_ids :
    (x : ℕ) (visited : List Arrival)
    → any (λ v. v == x) (visited_ids visited) ≡ is_visited x visited
any-visited_ids x [] = refl
any-visited_ids x (a ∷ visited) = ground (arith, any-visited_ids x visited)

-- The rounds that are left at most, and a bound on what can be visited.
abbrev pub rounds : List ℕ → Search → ℕ
rounds ids f = fresh ids (visited_ids f.visited) + length f.queue

abbrev pub size : List ℕ → Search → ℕ
size ids f = fresh ids (visited_ids f.visited) + length f.visited

record Shrinks (ids : List ℕ) (f g : Search) : Type 0 where
  fewer : rounds ids g ≤ rounds ids f
  smaller : size ids g ≤ size ids f

discover-Shrinks :
    (ids : List ℕ) (to_id : ℕ) (end : Edge → ℕ) (id depth : ℕ) (edges : List Edge) (f : Search)
    → All (λ e. Memᴰ (end e) ids) edges
    → Shrinks ids f (discover to_id end id depth edges f)
unfolding discover
discover-Shrinks ids to_id end id depth [] f h = record {
  fewer = omega arith;
  smaller = omega arith;
}
discover-Shrinks ids to_id end id depth (e ∷ edges) f h =
    elim (Bool-cases (is_visited (end e) f.visited)) [
      | inl old ↦ rw (old, discover) (discover-Shrinks ids to_id end id depth edges f h.1)
      | inr new ↦
          let less =
            fresh-visit ids (visited_ids f.visited) (end e) h.0
              (any-visited_ids (end e) f.visited ∙ new) in
          elim (Bool-cases (end e == to_id)) [
            | inl same ↦
                rw (new, discover)
                  (rw same (record { fewer = omega (arith, less); smaller = omega (arith, less) }))
            | inr other ↦
                let g : Search = record (arrive to_id id e (end e) f) {
                  queue = f.queue ++ (end e, depth + 1) ∷ [];
                } in
                let rest = discover-Shrinks ids to_id end id depth edges g h.1 in
                rw (new, discover)
                  (rw other (record {
                    fewer =
                        omega (
                          arith,
                          less,
                          rest.fewer,
                          length-append f.queue ((end e, depth + 1) ∷ []),
                        );
                    smaller = omega (arith, less, rest.smaller);
                  }))
          ]
    ]

module _ (s : Store) (user_id : Option ℕ) (valid_only : Bool) (max_depth to_id : ℕ) where
  explore-Shrinks :
      (ids : List ℕ) (id depth : ℕ) (f : Search)
      → IsClosed s user_id valid_only ids
      → Shrinks ids f (explore s user_id max_depth valid_only to_id id depth f)
  unfolding explore
  explore-Shrinks ids id depth f c =
      let g : Search =
        discover to_id (λ e. e.target_entity_id) id depth (out_edges s user_id valid_only id) f in
      let a : Shrinks ids f g =
        discover-Shrinks ids to_id (λ e. e.target_entity_id) id depth
          (out_edges s user_id valid_only id) f (c.targets id) in
      let b =
        discover-Shrinks ids to_id (λ e. e.source_entity_id) id depth
          (in_edges s user_id valid_only id) g (c.sources id) in
      elim (Bool-cases g.found) [
        | inl p ↦ simp p a
        | inr p ↦ simp p (record {
          fewer = omega (arith, a.fewer, b.fewer);
          smaller = omega (arith, a.smaller, b.smaller);
        })
      ]

  pub search_total :
      (ids : List ℕ) (fuel : ℕ) (f : Search)
      → IsClosed s user_id valid_only ids
      → rounds ids f < fuel
      → (g : Search) × (search s user_id max_depth valid_only to_id fuel f ≡ some g)
        × (size ids g ≤ size ids f)
  unfolding search
  search_total ids zero f c h = absurd (omega arith)
  search_total ids (suc fuel) f c h = elim (List-cases f.queue) [
    | inl empty ↦ (f, ground arith, omega arith)
    | inr ((id, k), rest, next) ↦
        let popped : Search = record f { queue = rest } in
        let g : Search = explore s user_id max_depth valid_only to_id id k popped in
        let e : Shrinks ids popped g = explore-Shrinks ids id k popped c in
        elim (Bool-cases (leb max_depth k || foreign s user_id id)) [
          | inl skip ↦
              let (r, same, le) = search_total ids fuel popped c (ground (arith, ap length next)) in
              (r, ground arith, le)
          | inr go ↦ elim (Bool-cases g.found) [
            | inl hit ↦ (g, ground arith, e.smaller)
            | inr on ↦
                let (r, same, le) =
                  search_total ids fuel g c (ground (arith, ap length next, e.fewer)) in
                (r, ground arith, omega (arith, le, e.smaller))
          ]
        ]
  ]
