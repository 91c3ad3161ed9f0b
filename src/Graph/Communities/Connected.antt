-- ===== src/Graph/Communities/Connected.antt =====
-- The labels that `detect_communities` of crates/mnemo-graph/src/lib.rs returns.
use mathlib.Core.List.{Memᴰ, Permᴰ}
use mnemo.Base.{
  ℕ, zero, suc, ◌+◌, ◌≡◌, refl, subst, false, leb, some, get_or, List, [], ◌∷◌, ◌++◌, map, All,
  All-append, All-perm, arith, Bool-cases, Option-cases, List-cases, inl, inr,
}
use mnemo.Base.Order.{nat_ord}
use mnemo.BTreeMap.{BTreeMap, get, insert}
use mnemo.BTreeMap.Entries.{get-All, insert-All}
use mnemo.Models.Edge.{Edge}
use mnemo.Models.Entity.{Entity}
use mnemo.Graph.Communities.{
  Labels, Adjacency, Round, Iteration, add_neighbor, build_adjacency, own_labels, count_labels,
  last_max, adopt, relabel, sweep, propagate,
}

-- All values of a map satisfy `P` with their key.
abbrev pub Every : {V : Type 0} → (ℕ → V → Type 0) → BTreeMap ℕ V → Type 0
Every P = All λ e. P e.0 e.1

pub Every-insert :
    {V : Type 0} (P : ℕ → V → Type 0) (m : BTreeMap ℕ V) (k : ℕ) (v : V)
    → Every P m
    → P k v
    → Every P (insert m k v)
Every-insert P m k v h p = insert-All (λ e. P e.0 e.1) m k v h p

pub every-get :
    {V : Type 0} (P : ℕ → V → Type 0) (m : BTreeMap ℕ V) (k : ℕ) (v : V)
    → Every P m
    → get m k ≡ some v
    → P k v
every-get P m k v h e = get-All (λ e. P e.0 e.1) m k v h e

module _ (edges : List Edge) (entities : List Entity) where
  -- `a` and `b` are joined by edges, in either direction.
  pub data Connected (a : ℕ) : ℕ → Type 0 where
    same : Connected a a
    along :
        {b : ℕ} (e : Edge)
        → Memᴰ e edges
        → Connected a b
        → e.source_entity_id ≡ b
        → Connected a e.target_entity_id
    against :
        {b : ℕ} (e : Edge)
        → Memᴰ e edges
        → Connected a b
        → e.target_entity_id ≡ b
        → Connected a e.source_entity_id

  pub Connected-trans : (a b c : ℕ) → Connected a b → Connected b c → Connected a c
  Connected-trans a b _ p Connected.same = p
  Connected-trans a b _ p (Connected.along {b = d} e m q s) =
      Connected.along e m (Connected-trans a b d p q) s
  Connected-trans a b _ p (Connected.against {b = d} e m q s) =
      Connected.against e m (Connected-trans a b d p q) s

  abbrev pub Joined : ℕ → List ℕ → Type 0
  Joined k = All (Connected k)

  add_neighbor-Joined :
      (adjacency : Adjacency) (id neighbor : ℕ)
      → Every Joined adjacency
      → Connected id neighbor
      → Every Joined (add_neighbor adjacency id neighbor)
  unfolding add_neighbor
  add_neighbor-Joined adjacency id neighbor h c =
      Every-insert Joined adjacency id (get_or (get adjacency id) [] ++ neighbor ∷ []) h (
        All-append (Connected id) (get_or (get adjacency id) []) (neighbor ∷ [])
          (elim (Option-cases (get adjacency id)) [
            | inl p ↦ rw p tt
            | inr (ns, p) ↦ rw p (every-get Joined adjacency id ns h p)
          ])
          (c, tt))

  pub build_adjacency-Joined :
      (adjacency : Adjacency) (some_edges : List Edge)
      → All (λ e. Memᴰ e edges) some_edges
      → Every Joined adjacency
      → Every Joined (build_adjacency adjacency some_edges)
  unfolding build_adjacency
  build_adjacency-Joined adjacency [] m h = h
  build_adjacency-Joined adjacency (e ∷ rest) m h =
      build_adjacency-Joined
        (add_neighbor (add_neighbor adjacency e.source_entity_id e.target_entity_id)
          e.target_entity_id e.source_entity_id)
        rest m.1
        (add_neighbor-Joined _ e.target_entity_id e.source_entity_id
          (add_neighbor-Joined adjacency e.source_entity_id e.target_entity_id h
            (Connected.along e m.0 Connected.same refl))
          (Connected.against e m.0 Connected.same refl))

  -- A label is right for an id that it is connected to, if it is the id of an entity.
  pub record IsLabel (id label : ℕ) : Type 0 where
    pub connected : Connected id label
    pub of_entity : Memᴰ label (map (λ e. e.id) entities)

  pub own_labels-IsLabel :
      (labels : Labels) (rest : List Entity)
      → All (λ e. Memᴰ e.id (map (λ e. e.id) entities)) rest
      → Every IsLabel labels
      → Every IsLabel (own_labels labels rest)
  unfolding own_labels
  own_labels-IsLabel labels [] m h = h
  own_labels-IsLabel labels (e ∷ rest) m h = own_labels-IsLabel (insert labels e.id e.id) rest m.1 (
      Every-insert IsLabel labels e.id e.id h
        (record { connected = Connected.same; of_entity = m.0 }))

  -- Every counted label is that of a neighbour.
  count_labels-IsLabel :
      (id : ℕ) (labels : Labels) (counts : BTreeMap ℕ ℕ) (neighbors : List ℕ)
      → Every IsLabel labels
      → Joined id neighbors
      → Every (λ label n. IsLabel id label) counts
      → Every (λ label n. IsLabel id label) (count_labels labels counts neighbors)
  unfolding count_labels
  count_labels-IsLabel id labels counts [] h j a = a
  count_labels-IsLabel id labels counts (n ∷ neighbors) h j a = elim (Option-cases (get labels n)) [
    | inl p ↦ rw (p, count_labels) (count_labels-IsLabel id labels counts neighbors h j.1 a)
    | inr (label, p) ↦
        let found : IsLabel n label = every-get IsLabel labels n label h p in
        let counted = insert counts label (get_or (get counts label) 0 + 1) in
        rw (p, count_labels)
          (count_labels-IsLabel id labels counted neighbors h j.1 (
            Every-insert (λ label n. IsLabel id label) counts label _ a
              (record {
                connected = Connected-trans id n label j.0 found.connected;
                of_entity = found.of_entity;
              })))
  ]

  last_max-All :
      (P : ℕ → Type 0) (best : ℕ × ℕ) (counts : List (ℕ × ℕ))
      → P best.0
      → All (λ c. P c.0) counts
      → P (last_max best counts).0
  unfolding last_max
  last_max-All P best [] p a = p
  last_max-All P best (c ∷ counts) p a = elim (Bool-cases (leb best.1 c.1)) [
    | inl q ↦ rw (q, last_max) (last_max-All P c counts a.0 a.1)
    | inr q ↦ rw (q, last_max) (last_max-All P best counts p a.1)
  ]

  module _ (order : Iteration)
      (permuted : (round id : ℕ) (counts : List (ℕ × ℕ))
        → Permᴰ counts (order round id counts)) where
    relabel-IsLabel :
        (adjacency : Adjacency) (round id : ℕ) (r : Round)
        → Every Joined adjacency
        → Every IsLabel r.labels
        → Every IsLabel (relabel order adjacency round id r).labels
    unfolding relabel adopt
    relabel-IsLabel adjacency round id r j h = elim (Option-cases (get adjacency id)) [
      | inl p ↦ rw (p, relabel) h
      | inr (ns, p) ↦
          let counts = count_labels r.labels [] ns in
          let right : All (λ c. IsLabel id c.0) (order round id counts) =
            All-perm _ (permuted round id counts) (
              count_labels-IsLabel id r.labels [] ns h (every-get Joined adjacency id ns j p) tt) in
          elim (List-cases (order round id counts)) [
            | inl q ↦ ground arith
            | inr (c, rest, q) ↦
                let at : All (λ c. IsLabel id c.0) (c ∷ rest) =
                  subst (All (λ c. IsLabel id c.0)) q right in
                let best : IsLabel id (last_max c rest).0 =
                  last_max-All (IsLabel id) c rest at.0 at.1 in
                ground (arith, Every-insert IsLabel r.labels id (last_max c rest).0 h best)
          ]
    ]

    sweep-IsLabel :
        (adjacency : Adjacency) (round : ℕ) (rest : List Entity) (r : Round)
        → Every Joined adjacency
        → Every IsLabel r.labels
        → Every IsLabel (sweep order adjacency round rest r).labels
    unfolding sweep
    sweep-IsLabel adjacency round [] r j h = h
    sweep-IsLabel adjacency round (e ∷ rest) r j h =
        sweep-IsLabel adjacency round rest (relabel order adjacency round e.id r) j
          (relabel-IsLabel adjacency round e.id r j h)

    pub propagate-IsLabel :
        (adjacency : Adjacency) (left : ℕ) (labels : Labels)
        → Every Joined adjacency
        → Every IsLabel labels
        → Every IsLabel (propagate order adjacency left entities labels)
    unfolding propagate
    propagate-IsLabel adjacency zero labels j h = h
    propagate-IsLabel adjacency (suc left) labels j h =
        let r : Round =
          sweep order adjacency left entities (record { labels = labels; changed = false }) in
        let right : Every IsLabel r.labels = sweep-IsLabel adjacency left entities _ j h in
        elim (Bool-cases r.changed) [
          | inl p ↦ rw (p, propagate) (propagate-IsLabel adjacency left r.labels j right)
          | inr p ↦ rw (p, propagate) right
        ]
