-- ===== src/Sync/Hlc.antt =====
-- `NodeId`, `HlcTimestamp` and `HybridClock` of sync.rs. The reading of the wall clock,
-- `Utc::now()`, is an argument of each call.
pub mod Clock
use Prim.Native.Nat.{compare, Ordering}
use Prim.Native.Nat.Ordering.{lt, eq, gt}
use mnemo.Base.{ℕ, ◌≡◌, Bool, ◌&&◌, if◌then◌else◌, ltb, max, arith, add_u32, ap}
use mnemo.Base.Order.{Ord, IsTotalOrder, Text, then_with, cmp_text, cmp_text-IsTotalOrder}

-- `struct NodeId(pub String)`
abbrev pub NodeId : Type 0
NodeId = Text

pub record HlcTimestamp : Type 0 where
  pub wall_ms : ℕ
  pub counter : ℕ
  pub node_id : NodeId

-- `HlcTimestamp::from_parts`; `HlcTimestamp::now` is `from_parts wall 0 node`.
abbrev pub from_parts : ℕ → ℕ → NodeId → HlcTimestamp
from_parts wall_ms counter node_id = record {
  wall_ms = wall_ms;
  counter = counter;
  node_id = node_id;
}

-- `impl Ord for HlcTimestamp`
unfoldable pub cmp_hlc : HlcTimestamp → HlcTimestamp → Ordering
cmp_hlc a b =
    then_with (then_with (compare a.wall_ms b.wall_ms) (compare a.counter b.counter))
      (cmp_text a.node_id b.node_id)

hlc_eq :
    (a b : HlcTimestamp)
    → a.wall_ms ≡ b.wall_ms
    → a.counter ≡ b.counter
    → a.node_id ≡ b.node_id
    → a ≡ b
hlc_eq a b p q r = λ i. record { wall_ms = p i; counter = q i; node_id = r i }

cmp_hlc-eq : (a b : HlcTimestamp) → cmp_hlc a b ≡ eq → a ≡ b
unfolding cmp_hlc
cmp_hlc-eq a b h =
    hlc_eq a b (ground arith) (ground arith)
      (cmp_text-IsTotalOrder.eq_of_cmp a.node_id b.node_id (ground arith))

-- Timestamps are totally ordered by (wall_ms, counter, node_id): two timestamps that compare as
-- equal are the same timestamp, the order is transitive, and swapping the sides reverses it.
pub cmp_hlc-IsTotalOrder : IsTotalOrder cmp_hlc
unfolding cmp_hlc
cmp_hlc-IsTotalOrder = record {
  cmp_refl = λ a. ground (arith, cmp_text-IsTotalOrder.cmp_refl a.node_id);
  eq_of_cmp = cmp_hlc-eq;
  swapped = λ a b. ground (arith, cmp_text-IsTotalOrder.swapped a.node_id b.node_id);
  lt_trans = λ a b c. ground (arith, cmp_text-IsTotalOrder.lt_trans a.node_id b.node_id c.node_id);
}

instance unfoldable pub hlc_ord : Ord HlcTimestamp
hlc_ord = record { cmp = cmp_hlc; total = cmp_hlc-IsTotalOrder }

pub record HybridClock : Type 0 where
  pub node_id : NodeId
  pub last_wall_ms : ℕ
  pub counter : ℕ

abbrev pub new : NodeId → HybridClock
new node_id = record { node_id = node_id; last_wall_ms = 0; counter = 0 }

-- The timestamp that `now` and `receive` build from the updated clock.
unfoldable pub stamp : HybridClock → HlcTimestamp
stamp c = record { wall_ms = c.last_wall_ms; counter = c.counter; node_id = c.node_id }

-- `HybridClock::now` at the wall clock reading `wall_ms`: the clock after, and the timestamp.
unfoldable pub now : ℕ → HybridClock → HybridClock × HlcTimestamp
unfolding stamp
now wall_ms c =
    let c' : HybridClock =
      (if ltb c.last_wall_ms wall_ms
        then record c { last_wall_ms = wall_ms; counter = 0 }
        else record c { counter = add_u32 c.counter 1 }) in
    (c', stamp c')

-- `HybridClock::receive`.
unfoldable pub receive : ℕ → HlcTimestamp → HybridClock → HybridClock × HlcTimestamp
unfolding stamp
receive wall_ms remote c =
    let c' : HybridClock =
      (if ltb c.last_wall_ms wall_ms && ltb remote.wall_ms wall_ms
        then record c { last_wall_ms = wall_ms; counter = 0 }
        else if ltb c.last_wall_ms remote.wall_ms
        then record c { last_wall_ms = remote.wall_ms; counter = add_u32 remote.counter 1 }
        else if ltb remote.wall_ms c.last_wall_ms
        then record c { counter = add_u32 c.counter 1 }
        else record c { counter = add_u32 (max c.counter remote.counter) 1 }) in
    (c', stamp c')
