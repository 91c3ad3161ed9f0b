-- ===== src/Sync/VectorClock/Order.antt =====
-- `is_before_or_equal` and `merge` of `VectorClock`, sync.rs, as an order.
use mnemo.Base.{ℕ, ◌≤◌, ◌≡◌, ◌↔◌, inl, inr, refl, true, [], ◌∷◌, arith}
use mnemo.Base.Order.{text_ord, Ordering-cases}
use mnemo.BTreeMap.{BTreeMap, IsSorted}
use mnemo.BTreeMap
use mnemo.BTreeMap.Lookup.{get-Above, ext}
use mnemo.Sync.Hlc.{NodeId}
use mnemo.Sync.VectorClock.{VectorClock, get, merge, all_below, is_before_or_equal, same_entries}
use mnemo.Sync.Slots.{slot, raise_all_comm, raise_all_assoc, raise_all_idem}
use mnemo.Sync.VectorClock.Causality.{IsClock, get-merge, merge-IsClock, VectorClock_eq}

pub all_below-le :
    (m : BTreeMap NodeId ℕ) (other : VectorClock) (k : NodeId)
    → all_below m other ≡ true
    → slot m k ≤ get other k
unfolding all_below BTreeMap.get
all_below-le [] other k h = omega arith
all_below-le ((j, v) ∷ m) other k h = ground (arith, all_below-le m other k, text_ord.eq_of_cmp k j)

pub slot-tail :
    (j : NodeId) (v : ℕ) (m : BTreeMap NodeId ℕ) (other : VectorClock) (k : NodeId)
    → IsSorted ((j, v) ∷ m)
    → slot ((j, v) ∷ m) k ≤ get other k
    → slot m k ≤ get other k
unfolding BTreeMap.get
slot-tail j v m other k s h = elim (Ordering-cases (text_ord.cmp k j)) [
  | inl p ↦ ground arith
  | inr (inl p) ↦ rw (get-Above m k (rw (text_ord.eq_of_cmp k j p) s.0)) (omega arith)
  | inr (inr p) ↦ ground arith
]

pub le-all_below :
    (m : BTreeMap NodeId ℕ) (other : VectorClock)
    → IsSorted m
    → ((k : NodeId) → slot m k ≤ get other k)
    → all_below m other ≡ true
unfolding all_below BTreeMap.get
le-all_below [] other s h = refl
le-all_below ((j, v) ∷ m) other s h = ground (
  arith,
  h j,
  text_ord.cmp_refl j,
  le-all_below m other s.1 (λ k. slot-tail j v m other k s (h k)),
)

pub same_entries-eq : (m n : BTreeMap NodeId ℕ) → same_entries m n ≡ true → m ≡ n
unfolding same_entries
same_entries-eq [] [] h = refl
same_entries-eq [] (x ∷ n) h = cc
same_entries-eq (x ∷ m) [] h = cc
same_entries-eq ((k, v) ∷ m) ((j, w) ∷ n) h =
    ground (arith, same_entries-eq m n, text_ord.eq_of_cmp k j)

pub same_entries_refl : (m : BTreeMap NodeId ℕ) → same_entries m m ≡ true
unfolding same_entries
same_entries_refl [] = refl
same_entries_refl ((k, v) ∷ m) = ground (arith, same_entries_refl m, text_ord.cmp_refl k)

-- The comparison is the pointwise order: with a well-formed clock on the left, `is_before_or_equal`
-- holds exactly when no node's counter is larger on the left.
pub is_before_or_equal_iff :
    (a b : VectorClock)
    → IsClock a
    → (is_before_or_equal a b ≡ true) ↔ ((k : NodeId) → get a k ≤ get b k)
unfolding is_before_or_equal get
is_before_or_equal_iff a b s =
    (λ h k. all_below-le a.entries b k h, λ h. le-all_below a.entries b s.sorted h)

-- Clocks that are before or equal to each other are the same clock.
pub is_before_or_equal_antisymm :
    (a b : VectorClock)
    → IsClock a
    → IsClock b
    → is_before_or_equal a b ≡ true
    → is_before_or_equal b a ≡ true
    → a ≡ b
unfolding get
is_before_or_equal_antisymm a b s t h k = VectorClock_eq a b (
    ext a.entries b.entries s.sorted t.sorted λ j. ground (
      arith,
      (is_before_or_equal_iff a b s).0 h j,
      (is_before_or_equal_iff b a t).0 k j,
      s.positive j (slot a.entries j),
      t.positive j (slot b.entries j),
    ))

-- `merge` of two well-formed clocks is the least clock that both arguments are before or equal to.
pub merge_least :
    (a b c : VectorClock)
    → IsClock a
    → IsClock b
    → (is_before_or_equal a (merge a b) ≡ true)
      × (is_before_or_equal b (merge a b) ≡ true)
      × (is_before_or_equal a c ≡ true
          → is_before_or_equal b c ≡ true
          → is_before_or_equal (merge a b) c ≡ true)
merge_least a b c s t = (
  (is_before_or_equal_iff a (merge a b) s).1 (λ k. omega (arith, get-merge a b k s t)),
  (is_before_or_equal_iff b (merge a b) t).1 (λ k. omega (arith, get-merge a b k s t)),
  λ h j. (is_before_or_equal_iff (merge a b) c (merge-IsClock a b s t)).1 (λ k. omega (
    arith,
    get-merge a b k s t,
    (is_before_or_equal_iff a c s).0 h k,
    (is_before_or_equal_iff b c t).0 j k,
  )),
)

-- Merging well-formed clocks (`IsClock`: in key order, all counters positive) is commutative,
-- associative and idempotent, so that clocks converge in whatever order, grouping and number the
-- deltas arrive.
pub clock_merge_semilattice :
    (a b c : VectorClock)
    → IsClock a
    → IsClock b
    → IsClock c
    → (merge a b ≡ merge b a) × (merge (merge a b) c ≡ merge a (merge b c)) × (merge a a ≡ a)
unfolding merge
clock_merge_semilattice a b c s t u = (
  VectorClock_eq _ _ (raise_all_comm a.entries b.entries s.sorted t.sorted),
  VectorClock_eq _ _ (raise_all_assoc b.entries c.entries t.sorted u.sorted a.entries s.sorted),
  VectorClock_eq _ _ (raise_all_idem a.entries s.sorted),
)
