-- ===== src/Graph/Paths/Tree.antt =====
-- The map `visited` of `find_shortest_path_for_user`, crates/mnemo-graph/src/lib.rs, as a tree.
use mathlib.Core.List.{Memᴰ}
use mnemo.Base.{
  ℕ, zero, suc, ◌+◌, ◌≤◌, ◌≡◌, refl, ap, subst, ◌∙◌, Bool, true, false, Option, none, some, List,
  [], ◌∷◌, length, arith, ◌==◌, Bool-cases, Option-cases, inl, inr,
}
use mnemo.Models.Edge.{Edge}
use mnemo.Graph.{Store, out_edges, in_edges}
use mnemo.Graph.Paths.{Arrival, is_visited, get_arrival, foreign, trace}

-- How many parents lie between an id and the source.
abbrev pub depth_of : ℕ → List Arrival → ℕ
depth_of id [] = 0
depth_of id (a ∷ visited) = elim (a.id == id) [
  | true ↦ elim a.parent [ none ↦ 0 | some p ↦ suc (depth_of p visited) ]
  | false ↦ depth_of id visited
]

module _ (s : Store) (user_id : Option ℕ) (valid_only : Bool) (from_id : ℕ) where
  -- An edge that may be followed from `a` to `b`: `a` is not another user's entity, and the edge is
  -- an allowed one of `a`, in either direction.
  pub data Link (a : ℕ) (e : Edge) (b : ℕ) : Type 0 where
    forward :
        foreign s user_id a ≡ false
        → Memᴰ e (out_edges s user_id valid_only a)
        → e.target_entity_id ≡ b
        → Link a e b
    backward :
        foreign s user_id a ≡ false
        → Memᴰ e (in_edges s user_id valid_only a)
        → e.source_entity_id ≡ b
        → Link a e b

  -- `Walk b path`: `path` leads from the source to `b`, its last step first.
  pub data Walk : ℕ → List (ℕ × Option Edge) → Type 0 where
    here : Walk from_id ((from_id, none) ∷ [])
    step :
        {a : ℕ} {path : List (ℕ × Option Edge)} (e : Edge) (b : ℕ)
        → Walk a path
        → Link a e b
        → Walk b ((b, some e) ∷ path)

  -- What the search has visited: the source, and ids that hang from ids visited before.
  pub data Tree : List Arrival → Type 0 where
    root : Tree (record { id = from_id; parent = none; edge = none } ∷ [])
    grow :
        {visited : List Arrival} (p : ℕ) (e : Edge) (id : ℕ)
        → Tree visited
        → is_visited p visited ≡ true
        → is_visited id visited ≡ false
        → Link p e id
        → Tree (record { id = id; parent = some p; edge = some e } ∷ visited)

  -- The parent of a visited id is visited.
  parent-visited :
      (visited : List Arrival) (id : ℕ) (a : Arrival) (p : ℕ)
      → Tree visited
      → get_arrival id visited ≡ some a
      → a.parent ≡ some p
      → is_visited p visited ≡ true
  parent-visited _ id a p Tree.root g h = ground arith
  parent-visited _ id a p (Tree.grow {visited} q e b t v w l) g h =
      ground (arith, parent-visited visited id a p t)

  get-visited :
      (visited : List Arrival) (id : ℕ)
      → is_visited id visited ≡ true
      → (a : Arrival) × (get_arrival id visited ≡ some a)
  get-visited [] id h = absurd (ground arith)
  get-visited (a ∷ visited) id h = elim (Bool-cases (a.id == id)) [
    | inl p ↦ (a, ground arith)
    | inr p ↦ let (b, g) = get-visited visited id (ground arith) in (b, ground arith)
  ]

  -- A new arrival does not change the walk back from an id visited before.
  trace-skip :
      (fuel : ℕ) (visited : List Arrival) (a : Arrival) (id : ℕ)
      → Tree visited
      → is_visited id visited ≡ true
      → is_visited a.id visited ≡ false
      → trace fuel (a ∷ visited) id ≡ trace fuel visited id
  unfolding trace
  trace-skip zero visited a id t v w = refl
  trace-skip (suc fuel) visited a id t v w =
      let (b, g) = get-visited visited id v in
      elim (Bool-cases (a.id == id)) [
        | inl p ↦ absurd (ground (arith, λ (e : a.id ≡ id). ap (λ x. is_visited x visited) e))
        | inr p ↦ elim (Option-cases b.parent) [
          | inl q ↦ ground arith
          | inr (parent, q) ↦ ground (
            arith,
            trace-skip fuel visited a parent t (parent-visited visited id b parent t g q) w,
          )
        ]
      ]

  -- The walk back from a visited id returns a walk from the source, as long as its depth says, if
  -- the fuel is at least the number of visited ids.
  pub trace_total :
      (fuel : ℕ) (visited : List Arrival) (id : ℕ)
      → Tree visited
      → is_visited id visited ≡ true
      → length visited ≤ fuel
      → (path : List (ℕ × Option Edge)) × (trace fuel visited id ≡ some path)
        × Walk id path
        × (length path ≡ depth_of id visited + 1)
  unfolding trace
  trace_total zero _ id Tree.root v h = absurd (omega arith)
  trace_total zero _ id (Tree.grow p e b t v w l) u h = absurd (omega arith)
  trace_total (suc fuel) _ id Tree.root v h =
      let same : from_id ≡ id = ground arith in
      (
        (id, none) ∷ [],
        ground arith,
        subst (λ x. Walk x ((x, none) ∷ [])) same Walk.here,
        ground arith,
      )
  trace_total (suc fuel) _ id (Tree.grow {visited} p e b t v w l) u h =
      let arrival : Arrival = record { id = b; parent = some p; edge = some e } in
      elim (Bool-cases (b == id)) [
        | inl q ↦
            let (path, r, walk, len) = trace_total fuel visited p t v (omega (arith, h)) in
            let same : b ≡ id = ground arith in
            (
              (id, some e) ∷ path,
              ground (arith, trace-skip fuel visited arrival p t v w),
              subst (λ x. Walk x ((x, some e) ∷ path)) same (Walk.step e b walk l),
              ground arith,
            )
        | inr q ↦
            let seen : is_visited id visited ≡ true = ground arith in
            let (path, r, walk, len) =
              trace_total (suc fuel) visited id t seen (omega (arith, h)) in
            (path, trace-skip (suc fuel) visited arrival id t seen w ∙ r, walk, ground arith)
      ]
