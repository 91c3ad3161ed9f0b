-- ===== src/Sync/VectorClock/Strict.antt =====
-- `is_strictly_before`, `is_concurrent_with` and `increment` of `VectorClock`, sync.rs.
use mnemo.Base.{
  ◌+◌, ◌≤◌, ◌<◌, ◌≡◌, ◌↔◌, ◌⊎◌, inl, inr, refl, sym, ap, subst, true, false, arith, u64_mod,
  Bool-cases, ◌≢◌,
}
use mnemo.Base.Order.{text_ord}
use mnemo.Sync.Hlc.{NodeId}
use mnemo.Sync.VectorClock.{
  VectorClock, get, increment, is_before_or_equal, same_entries, is_strictly_before,
  is_concurrent_with,
}
use mnemo.Sync.VectorClock.Causality.{
  IsClock, VectorClock_eq, increment_count, get-increment_self, get-increment_ne, get-increment-le,
}
use mnemo.Sync.VectorClock.Order.{
  same_entries-eq, same_entries_refl, is_before_or_equal_iff, is_before_or_equal_antisymm,
}

strictly_before_iff :
    (a b : VectorClock)
    → IsClock a
    → (is_strictly_before a b ≡ true) ↔ ((is_before_or_equal a b ≡ true) × (a ≢ b))
unfolding is_strictly_before
strictly_before_iff a b s = (
  λ h. (
    ground arith,
    λ e. ground (arith, same_entries_refl a.entries, ap (λ (c : VectorClock). c.entries) e),
  ),
  λ h. elim (Bool-cases (same_entries a.entries b.entries)) [
    | inl p ↦ absurd (h.1 (VectorClock_eq a b (same_entries-eq a.entries b.entries p)))
    | inr p ↦ ground (arith, h.0)
  ],
)

before_trans :
    (a b c : VectorClock)
    → IsClock a
    → IsClock b
    → is_before_or_equal a b ≡ true
    → is_before_or_equal b c ≡ true
    → is_before_or_equal a c ≡ true
before_trans a b c s t h j =
    (is_before_or_equal_iff a c s).1
      λ k. omega (arith, (is_before_or_equal_iff a b s).0 h k, (is_before_or_equal_iff b c t).0 j k)

-- `is_strictly_before` is a strict order on well-formed clocks: no clock is strictly before itself,
-- and being strictly before is transitive.
pub is_strictly_before_order :
    (a b c : VectorClock)
    → IsClock a
    → IsClock b
    → IsClock c
    → (is_strictly_before a a ≡ false)
      × (is_strictly_before a b ≡ true
          → is_strictly_before b c ≡ true
          → is_strictly_before a c ≡ true)
is_strictly_before_order a b c s t u = (
  elim (Bool-cases (is_strictly_before a a)) [
    | inl p ↦ absurd (((strictly_before_iff a a s).0 p).1 refl)
    | inr p ↦ p
  ],
  λ h j.
      let (ab, ne) = (strictly_before_iff a b s).0 h in
      let (bc, ne') = (strictly_before_iff b c t).0 j in
      (strictly_before_iff a c s).1 (
        before_trans a b c s t ab bc,
        λ e. ne (
            is_before_or_equal_antisymm a b s t ab
              (subst (λ x. is_before_or_equal b x ≡ true) (sym e) bc)),
      ),
)

-- Any two well-formed clocks are the same, or one is strictly before the other, or they are
-- concurrent.
pub causality_cases :
    (a b : VectorClock)
    → IsClock a
    → IsClock b
    → (a ≡ b)
      ⊎ (is_strictly_before a b ≡ true)
      ⊎ (is_strictly_before b a ≡ true)
      ⊎ (is_concurrent_with a b ≡ true)
unfolding is_strictly_before is_concurrent_with
causality_cases a b s t = ground (
  arith,
  is_before_or_equal_antisymm a b s t,
  λ (h : same_entries a.entries b.entries ≡ true).
      VectorClock_eq a b (same_entries-eq a.entries b.entries h),
  λ (h : same_entries b.entries a.entries ≡ true).
      sym (VectorClock_eq b a (same_entries-eq b.entries a.entries h)),
)

-- On a well-formed clock, `increment` returns the node's new counter, one more than the old, leaves
-- every other node's counter alone, and makes a strictly later clock, as long as the counter has
-- room in 64 bits.
pub increment_advances :
    (a : VectorClock) (k : NodeId)
    → IsClock a
    → get a k + 1 < u64_mod
    → ((increment a k).1 ≡ get a k + 1)
      × (get (increment a k).0 k ≡ get a k + 1)
      × ((j : NodeId) → j ≢ k → get (increment a k).0 j ≡ get a j)
      × (is_strictly_before a (increment a k).0 ≡ true)
increment_advances a k s h = (
  returned,
  self,
  other,
  (strictly_before_iff a (increment a k).0 s).1 (
    (is_before_or_equal_iff a (increment a k).0 s).1 below,
    λ e. omega (arith, self, ap (λ (c : VectorClock). get c k) e),
  ),
)
  where
    returned : (increment a k).1 ≡ get a k + 1
    returned = increment_count a k h

    self : get (increment a k).0 k ≡ get a k + 1
    self = get-increment_self a k h

    other : (j : NodeId) → j ≢ k → get (increment a k).0 j ≡ get a j
    other j n = get-increment_ne a k j n

    below : (j : NodeId) → get a j ≤ get (increment a k).0 j
    below j = get-increment-le a k j h
