-- ===== src/Sync/GCounter/Totals.antt =====
-- The total of `GCounter`, sync.rs, under increments and merges.
use mnemo.Base.{ℕ, ◌+◌, ◌≤◌, ◌<◌, ◌≡◌, ◌≢◌, [], ◌∷◌, max, arith, u64_mod, add_u64}
use mnemo.Base.Order.{text_ord}
use mnemo.BTreeMap.{BTreeMap, IsSorted, for_each}
use mnemo.BTreeMap
use mnemo.BTreeMap.Lookup.{get-insert, insert-IsSorted, get-Above, ext, Above-trans}
use mnemo.Sync.Hlc.{NodeId}
use mnemo.Sync.Slots.{
  raise, slot, raise-KeepsSorted, raise_all-IsSorted, get-raise_all, raise_all_comm,
  raise_all_assoc, raise_all_idem,
}
use mnemo.Sync.GCounter.{GCounter, increment_by, increment, sum_values, value, node_value, merge}

abbrev pub IsCounter : GCounter → Type 0
IsCounter c = IsSorted c.counts

GCounter_eq : (a b : GCounter) → a.counts ≡ b.counts → a ≡ b
GCounter_eq a b p = λ i. record { counts = p i }

-- Writing one slot changes the sum by the difference.
sum_values-insert :
    (m : BTreeMap NodeId ℕ) (k : NodeId) (v : ℕ)
    → IsSorted m
    → sum_values (BTreeMap.insert m k v) + slot m k ≡ sum_values m + v
unfolding sum_values BTreeMap.insert BTreeMap.get
sum_values-insert [] k v s = omega arith
sum_values-insert ((j, w) ∷ m) k v s =
    ground (arith, sum_values-insert m k v s.1, get-Above m k, Above-trans k j m)

pub increment_by-IsCounter :
    (c : GCounter) (k : NodeId) (n : ℕ) → IsCounter c → IsCounter (increment_by c k n)
unfolding increment_by
increment_by-IsCounter c k n s = insert-IsSorted c.counts k _ s

pub merge-IsCounter : (a b : GCounter) → IsCounter a → IsCounter b → IsCounter (merge a b)
unfolding merge
merge-IsCounter a b s t = raise_all-IsSorted a.counts b.counts s t

-- On a counter in key order, `increment_by` adds the amount to the total and `increment` adds one,
-- both modulo 2 ^ 64.
pub value-increment_by :
    (c : GCounter) (k : NodeId) (amount : ℕ)
    → IsCounter c
    → (value (increment_by c k amount) ≡ add_u64 (value c) amount)
      × (value (increment c k) ≡ add_u64 (value c) 1)
unfolding value increment_by increment
value-increment_by c k amount s = (
  omega (arith, sum_values-insert c.counts k (add_u64 (slot c.counts k) amount) s),
  omega (arith, sum_values-insert c.counts k (add_u64 (slot c.counts k) 1) s),
)

-- Merging counters that are in key order is commutative, associative and idempotent.
pub counter_merge_semilattice :
    (a b c : GCounter)
    → IsCounter a
    → IsCounter b
    → IsCounter c
    → (merge a b ≡ merge b a) × (merge (merge a b) c ≡ merge a (merge b c)) × (merge a a ≡ a)
unfolding merge
counter_merge_semilattice a b c s t u = (
  GCounter_eq _ _ (raise_all_comm a.counts b.counts s t),
  GCounter_eq _ _ (raise_all_assoc b.counts c.counts t u a.counts s),
  GCounter_eq _ _ (raise_all_idem a.counts s),
)

sum_values-raise :
    (m : BTreeMap NodeId ℕ) (k : NodeId) (v : ℕ)
    → IsSorted m
    → sum_values m ≤ sum_values (raise m k v)
unfolding raise
sum_values-raise m k v s = omega (arith, sum_values-insert m k (max (slot m k) v) s)

sum_values-for_each :
    (m n : BTreeMap NodeId ℕ) → IsSorted m → sum_values m ≤ sum_values (for_each raise m n)
unfolding for_each
sum_values-for_each m [] s = omega arith
sum_values-for_each m ((k, v) ∷ n) s = omega (
  arith,
  sum_values-for_each (raise m k v) n (raise-KeepsSorted m k v s),
  sum_values-raise m k v s,
)

-- The sum over all slots grows under a merge: it is at least that of either side.
pub sum_values-merge :
    (a b : GCounter)
    → IsCounter a
    → IsCounter b
    → (sum_values a.counts ≤ sum_values (merge a b).counts)
      × (sum_values b.counts ≤ sum_values (merge a b).counts)
unfolding merge
sum_values-merge a b s t = (
  sum_values-for_each a.counts b.counts s,
  rw (raise_all_comm a.counts b.counts s t) (sum_values-for_each b.counts a.counts t),
)

-- Two different nodes that count on their own copies of a counter in key order lose nothing:
-- merging the copies is the same as making both increments on one copy, as long as the two slots
-- have room in 64 bits.
pub merge_concurrent :
    (c : GCounter) (j k : NodeId) (x y : ℕ)
    → IsCounter c
    → j ≢ k
    → node_value c j + x < u64_mod
    → node_value c k + y < u64_mod
    → merge (increment_by c j x) (increment_by c k y) ≡ increment_by (increment_by c j x) k y
unfolding merge increment_by node_value
merge_concurrent c j k x y s n h h' =
    let vj = add_u64 (slot c.counts j) x in
    let vk = add_u64 (slot c.counts k) y in
    let cj = BTreeMap.insert c.counts j vj in
    let sj = insert-IsSorted c.counts j vj s in
    let sk = insert-IsSorted c.counts k vk s in
    GCounter_eq _ _ (
      ext _ _ (raise_all-IsSorted _ _ sj sk) (insert-IsSorted cj k _ sj) λ i. ground (
        arith,
        get-raise_all cj (BTreeMap.insert c.counts k vk) sj sk i,
        get-insert c.counts j vj i,
        get-insert c.counts k vk i,
        get-insert c.counts j vj k,
        get-insert cj k (add_u64 (slot cj k) y) i,
        text_ord.eq_of_cmp i j,
        text_ord.eq_of_cmp i k,
        text_ord.eq_of_cmp k j,
      ))
