-- ===== src/Sync/VectorClock/Causality.antt =====
-- `VectorClock` of sync.rs as a function from nodes to counters.
use mnemo.Base.{ℕ, ◌+◌, ◌≤◌, ◌<◌, ◌≡◌, some, max, get_or, arith, u64_mod, add_u64, ◌≢◌}
use mnemo.Base.Order.{text_ord}
use mnemo.BTreeMap.{BTreeMap, IsSorted, for_each}
use mnemo.BTreeMap
use mnemo.BTreeMap.Lookup.{get-insert, insert-IsSorted}
use mnemo.Sync.Hlc.{NodeId}
use mnemo.Sync.Slots.{raise_all-IsSorted, get-raise_all, slot-raise_all}
use mnemo.Sync.VectorClock.{VectorClock, new, get, increment, merge}

-- The counters of a clock are distinct by node and, as `increment` makes them, positive.
pub record IsClock (c : VectorClock) : Type 0 where
  pub sorted : IsSorted c.entries
  pub positive : (k : NodeId) (v : ℕ) → BTreeMap.get c.entries k ≡ some v → 0 < v

-- `merge` takes the larger counter of each node.
pub get-merge :
    (a b : VectorClock) (k : NodeId)
    → IsClock a
    → IsClock b
    → get (merge a b) k ≡ max (get a k) (get b k)
unfolding get merge
get-merge a b k s t = slot-raise_all a.entries b.entries s.sorted t.sorted k

pub VectorClock_eq : (a b : VectorClock) → a.entries ≡ b.entries → a ≡ b
VectorClock_eq a b p = λ i. record { entries = p i }

pub merge-IsClock : (a b : VectorClock) → IsClock a → IsClock b → IsClock (merge a b)
unfolding merge
merge-IsClock a b s t = record {
  sorted = raise_all-IsSorted a.entries b.entries s.sorted t.sorted;
  positive = λ k v e. ground (
    arith,
    get-raise_all a.entries b.entries s.sorted t.sorted k,
    s.positive k (get_or (BTreeMap.get a.entries k) 0),
    t.positive k (get_or (BTreeMap.get b.entries k) 0),
  );
}

pub new-IsClock : IsClock new
unfolding BTreeMap.get
new-IsClock = record { sorted = tt; positive = λ k v e. ground arith }

-- `increment` keeps a clock well formed, as long as the counter has room in 64 bits.
pub increment-IsClock :
    (a : VectorClock) (k : NodeId) → IsClock a → get a k + 1 < u64_mod → IsClock (increment a k).0
unfolding increment get
increment-IsClock a k s h = record {
  sorted = insert-IsSorted a.entries k _ s.sorted;
  positive = λ j v e. ground (arith, get-insert a.entries k (get a k + 1) j, s.positive j v);
}

module _ (a : VectorClock) (k : NodeId) where
  pub increment_count : get a k + 1 < u64_mod → (increment a k).1 ≡ get a k + 1
  unfolding increment
  increment_count h = omega arith

  pub get-increment_self : get a k + 1 < u64_mod → get (increment a k).0 k ≡ get a k + 1
  unfolding increment get
  get-increment_self h = ground (arith, get-insert a.entries k (get a k + 1) k, text_ord.cmp_refl k)

  pub get-increment_ne : (j : NodeId) → j ≢ k → get (increment a k).0 j ≡ get a j
  unfolding increment get
  get-increment_ne j n =
      ground (arith, get-insert a.entries k (add_u64 (get a k) 1) j, text_ord.eq_of_cmp j k)

  pub get-increment-le : (j : NodeId) → get a k + 1 < u64_mod → get a j ≤ get (increment a k).0 j
  unfolding increment get
  get-increment-le j h =
      ground (arith, get-insert a.entries k (get a k + 1) j, text_ord.eq_of_cmp j k)
