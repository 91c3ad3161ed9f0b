-- ===== src/Examples/Clocks.antt =====
-- Hybrid clocks, vector clocks, counters and registers of sync.rs at concrete inputs.
use Prim.Native.Nat.Ordering.{lt}
use mnemo.Base.{ℕ, ◌+◌, ◌<◌, ◌≡◌, ◌≢◌, refl, true, [], ◌∷◌, arith, u64_mod}
use mnemo.Base.Order.{codes, text_ord, cmp_text}
use mnemo.Sync.Hlc.{HlcTimestamp, HybridClock, NodeId, cmp_hlc, stamp, now, from_parts, hlc_ord}
use mnemo.Sync.Hlc.Clock.{now_wraps, run-Rises, run, Rises, local, remote}
use mnemo.BTreeMap
use mnemo.Sync.VectorClock.{VectorClock}
use mnemo.Sync.VectorClock
use mnemo.Sync.VectorClock.Causality.{IsClock, increment-IsClock, new-IsClock}
use mnemo.Sync.VectorClock.Order.{merge_least}
use mnemo.Sync.GCounter.{GCounter}
use mnemo.Sync.GCounter
use mnemo.Sync.GCounter.Totals.{merge_concurrent, IsCounter}
use mnemo.Sync.LwwRegister.{LwwRegister}
use mnemo.Sync.LwwRegister

abbrev a : NodeId
a = codes "a"

abbrev b : NodeId
b = codes "b"

abbrev clock : HybridClock
clock = record { node_id = a; last_wall_ms = 100; counter = 4 }

abbrev full : HybridClock
full = record { node_id = a; last_wall_ms = 100; counter = 4_294_967_295 }

abbrev arrived : HlcTimestamp
arrived = from_parts 250 7 b

now_wraps_example : cmp_hlc (now 90 full).1 (stamp full) ≡ lt
now_wraps_example = now_wraps 90 full refl (omega arith)

run-Rises_example : Rises (stamp clock) (run clock (local 90 ∷ remote 95 arrived ∷ local 96 ∷ []))
run-Rises_example =
    run-Rises clock (local 90 ∷ remote 95 arrived ∷ local 96 ∷ []) 10 (tt, (omega arith, (tt, tt)))
      (omega arith) (omega arith)

abbrev start : VectorClock
start = VectorClock.new

abbrev left : VectorClock
left = (VectorClock.increment start a).0

abbrev right : VectorClock
right = (VectorClock.increment start b).0

abbrev both : VectorClock
both = (VectorClock.increment left b).0

left-IsClock : IsClock left
unfolding VectorClock.get BTreeMap.get
left-IsClock = increment-IsClock start a new-IsClock (omega arith)

right-IsClock : IsClock right
unfolding VectorClock.get BTreeMap.get
right-IsClock = increment-IsClock start b new-IsClock (omega arith)

room : VectorClock.get left b + 1 < u64_mod
unfolding VectorClock.increment VectorClock.get BTreeMap.get BTreeMap.insert cmp_text text_ord
room = omega arith

both-IsClock : IsClock both
both-IsClock = increment-IsClock left b left-IsClock room

merge_least_example :
    (VectorClock.is_before_or_equal left (VectorClock.merge left right) ≡ true)
    × (VectorClock.is_before_or_equal right (VectorClock.merge left right) ≡ true)
    × (VectorClock.is_before_or_equal left both ≡ true
        → VectorClock.is_before_or_equal right both ≡ true
        → VectorClock.is_before_or_equal (VectorClock.merge left right) both ≡ true)
merge_least_example = merge_least left right both left-IsClock right-IsClock

abbrev counted : GCounter
counted = record { counts = (a, 5) ∷ (b, 2) ∷ [] }

abbrev other_count : GCounter
other_count = record { counts = (a, 3) ∷ [] }

counted-IsCounter : IsCounter counted
unfolding cmp_text text_ord
counted-IsCounter = ((refl, tt), (tt, tt))

a≢b : a ≢ b
a≢b e = ground arith

merge_concurrent_example :
    GCounter.merge (GCounter.increment_by counted a 4) (GCounter.increment_by counted b 6)
    ≡ GCounter.increment_by (GCounter.increment_by counted a 4) b 6
unfolding GCounter.node_value BTreeMap.get cmp_text text_ord
merge_concurrent_example =
    merge_concurrent counted a b 4 6 counted-IsCounter a≢b (omega arith) (omega arith)

abbrev older : LwwRegister ℕ
older = LwwRegister.new 10 (from_parts 5 0 a)

abbrev newer : LwwRegister ℕ
newer = LwwRegister.new 20 (from_parts 5 1 a)

abbrev twin : LwwRegister ℕ
twin = LwwRegister.new 30 (from_parts 5 0 a)

distinct_times : from_parts 5 0 a ≢ from_parts 5 1 a
distinct_times e = ground arith
