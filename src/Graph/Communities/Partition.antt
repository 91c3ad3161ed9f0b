-- ===== src/Graph/Communities/Partition.antt =====
-- The communities that `detect_communities` of crates/mnemo-graph/src/lib.rs returns.
use mathlib.Core.List.{Memᴰ, Permᴰ}
use mnemo.Base.{
  ℕ, zero, suc, ◌≡◌, refl, subst, true, false, some, is_some, List, [], ◌∷◌, map, All, All-imp,
  All-self, arith, Bool-cases, Option-cases, inl, inr,
}
use mnemo.Base.Order.{nat_ord}
use mnemo.BTreeMap.{get, insert}
use mnemo.BTreeMap.Lookup.{get-insert}
use mnemo.Models.Edge.{Edge}
use mnemo.Models.Entity.{Entity}
use mnemo.Graph.Communities.{
  Listing, Labels, Adjacency, Round, Iteration, build_adjacency, own_labels, adopt, relabel,
  most_frequent, count_labels, sweep, propagate, listed_edges, detect_communities,
}
use mnemo.Graph.Communities.Connected.{
  Connected, Connected-trans, IsLabel, Every, every-get, own_labels-IsLabel, build_adjacency-Joined,
  propagate-IsLabel,
}

abbrev pub HasLabel : Labels → Entity → Type 0
HasLabel labels e = is_some (get labels e.id) ≡ true

abbrev Keeps : Labels → Labels → Type 0
Keeps before after = (id : ℕ) → is_some (get before id) ≡ true → is_some (get after id) ≡ true

insert-Keeps : (labels : Labels) (id label : ℕ) → Keeps labels (insert labels id label)
unfolding nat_ord
insert-Keeps labels id label x h = ground (arith, get-insert labels id label x)

own_labels-Keeps : (labels : Labels) (rest : List Entity) → Keeps labels (own_labels labels rest)
unfolding own_labels
own_labels-Keeps labels [] x h = h
own_labels-Keeps labels (e ∷ rest) x h =
    own_labels-Keeps (insert labels e.id e.id) rest x (insert-Keeps labels e.id e.id x h)

own_labels-HasLabel :
    (labels : Labels) (rest : List Entity) → All (HasLabel (own_labels labels rest)) rest
unfolding own_labels nat_ord
own_labels-HasLabel labels [] = tt
own_labels-HasLabel labels (e ∷ rest) = (
  own_labels-Keeps (insert labels e.id e.id) rest e.id
      (ground (arith, get-insert labels e.id e.id e.id)),
  own_labels-HasLabel (insert labels e.id e.id) rest,
)

adopt-Keeps : (id best : ℕ) (r : Round) → Keeps r.labels (adopt id best r).labels
unfolding adopt
adopt-Keeps id best r x h = ground (arith, insert-Keeps r.labels id best x h)

-- The ids of a list of entities.
ids-mem : (entities : List Entity) → All (λ e. Memᴰ e.id (map (λ e. e.id) entities)) entities
ids-mem [] = tt
ids-mem (e ∷ entities) =
    (Memᴰ.head refl, All-imp _ _ (λ x m. Memᴰ.tail m) entities (ids-mem entities))

module _ (order : Iteration) (adjacency : Adjacency) where
  relabel-Keeps :
      (round id : ℕ) (r : Round) → Keeps r.labels (relabel order adjacency round id r).labels
  unfolding relabel
  relabel-Keeps round id r x h = elim (Option-cases (get adjacency id)) [
    | inl p ↦ rw (p, relabel) h
    | inr (ns, p) ↦
        elim (Option-cases (most_frequent (order round id (count_labels r.labels [] ns)))) [
          | inl q ↦ rw (p, relabel) (rw q h)
          | inr (best, q) ↦ rw (p, relabel) (rw q (adopt-Keeps id best r x h))
        ]
  ]

  sweep-Keeps :
      (round : ℕ) (rest : List Entity) (r : Round)
      → Keeps r.labels (sweep order adjacency round rest r).labels
  unfolding sweep
  sweep-Keeps round [] r x h = h
  sweep-Keeps round (e ∷ rest) r x h =
      sweep-Keeps round rest (relabel order adjacency round e.id r) x
        (relabel-Keeps round e.id r x h)

  propagate-Keeps :
      (entities : List Entity) (left : ℕ) (labels : Labels)
      → Keeps labels (propagate order adjacency left entities labels)
  unfolding propagate
  propagate-Keeps entities zero labels x h = h
  propagate-Keeps entities (suc left) labels x h =
      let r : Round =
        sweep order adjacency left entities (record { labels = labels; changed = false }) in
      let kept = sweep-Keeps left entities (record { labels = labels; changed = false }) x h in
      elim (Bool-cases r.changed) [
        | inl p ↦ rw (p, propagate) (propagate-Keeps entities left r.labels x kept)
        | inr p ↦ rw (p, propagate) kept
      ]

module _ (edges : List Edge) (entities : List Entity) where
  Connected-sym : (a b : ℕ) → Connected edges entities a b → Connected edges entities b a
  Connected-sym a _ Connected.same = Connected.same
  Connected-sym a _ (Connected.along {b = d} e m q s) =
      Connected-trans edges entities _ d a
        (subst (Connected edges entities e.target_entity_id) s
          (Connected.against e m Connected.same refl))
        (Connected-sym a d q)
  Connected-sym a _ (Connected.against {b = d} e m q s) =
      Connected-trans edges entities _ d a
        (subst (Connected edges entities e.source_entity_id) s
          (Connected.along e m Connected.same refl))
        (Connected-sym a d q)

  -- Communities that are right: every entity has a label, a label is the id of an entity that is
  -- joined to its member by edges, and so are any two members of a community.
  pub record IsPartition (labels : Labels) : Type 0 where
    pub complete : All (HasLabel labels) entities
    pub labelled : (id label : ℕ) → get labels id ≡ some label → IsLabel edges entities id label
    pub together :
        (a b label : ℕ)
        → get labels a ≡ some label
        → get labels b ≡ some label
        → Connected edges entities a b

  IsPartition-of :
      (labels : Labels)
      → All (HasLabel labels) entities
      → Every (IsLabel edges entities) labels
      → IsPartition labels
  IsPartition-of labels c h = record {
    complete = c;
    labelled = λ id label e. every-get (IsLabel edges entities) labels id label h e;
    together = λ a b label p q.
        Connected-trans edges entities a label b
          (every-get (IsLabel edges entities) labels a label h p).connected
          (Connected-sym b label (every-get (IsLabel edges entities) labels b label h q).connected);
  }

-- Whatever order hash maps are iterated in, if the store lists the entities of a user, the
-- detection returns communities: every listed entity has a label, which is the id of a listed
-- entity, and two ids in one community are joined by the listed edges.
pub communities_connected :
    (s : Listing) (order : Iteration) (user_id max_iterations : ℕ) (entities : List Entity)
    → ((round id : ℕ) (counts : List (ℕ × ℕ)) → Permᴰ counts (order round id counts))
    → s.list_entities user_id 10000 ≡ some entities
    → (labels : Labels) × (detect_communities s order user_id max_iterations ≡ some labels)
      × IsPartition (listed_edges s user_id) entities labels
unfolding detect_communities
communities_connected s order user_id max_iterations [] permuted h =
    ([], ground arith, IsPartition-of (listed_edges s user_id) [] [] tt tt)
communities_connected s order user_id max_iterations (e ∷ rest) permuted h =
    let entities = e ∷ rest in
    let edges = listed_edges s user_id in
    let adjacency = build_adjacency [] edges in
    let labels = own_labels [] entities in
    (
      propagate order adjacency max_iterations entities labels,
      ground arith,
      IsPartition-of edges entities _
          (All-imp _ _ (λ x. propagate-Keeps order adjacency entities max_iterations labels x.id)
            entities (own_labels-HasLabel [] entities))
          (propagate-IsLabel edges entities order permuted adjacency max_iterations labels
            (build_adjacency-Joined edges entities [] edges (All-self edges) tt)
            (own_labels-IsLabel edges entities [] entities (ids-mem entities) tt)),
    )
