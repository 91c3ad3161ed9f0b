-- ===== src/Sync/VectorClock.antt =====
-- `VectorClock` of sync.rs.
pub mod Causality
pub mod Order
pub mod Strict
use mnemo.Base.{
  ℕ, ◌≡◌, Bool, true, false, not, ◌&&◌, if◌then◌else◌, ltb, ◌==◌, max, get_or, length, [], ◌∷◌,
  add_u64, Option, none, some,
}
use mnemo.Base.Order.{Ord, text_ord, eqb, Text}
use mnemo.BTreeMap.{BTreeMap}
use mnemo.BTreeMap
use mnemo.Sync.Hlc.{NodeId}
use mnemo.Sync.Slots.{raise}

pub record VectorClock : Type 0 where
  pub entries : BTreeMap NodeId ℕ

abbrev pub new : VectorClock
new = record { entries = [] }

-- `get`: 0 if unseen.
unfoldable pub get : VectorClock → NodeId → ℕ
get c node_id = get_or (BTreeMap.get c.entries node_id) 0

-- `increment`: the clock after, and the new counter.
unfoldable pub increment : VectorClock → NodeId → VectorClock × ℕ
unfolding get
increment c node_id =
    let counter = add_u64 (get c node_id) 1 in
    (record { entries = BTreeMap.insert c.entries node_id counter }, counter)

unfoldable pub merge : VectorClock → VectorClock → VectorClock
merge c other = record { entries = BTreeMap.for_each raise c.entries other.entries }

-- The loop of `is_before_or_equal`, over the entries that are left.
unfoldable pub all_below : BTreeMap NodeId ℕ → VectorClock → Bool
unfolding get
all_below [] other = true
all_below ((node_id, counter) ∷ rest) other =
    if ltb (get other node_id) counter then false else all_below rest other

unfoldable pub is_before_or_equal : VectorClock → VectorClock → Bool
unfolding all_below
is_before_or_equal c other = all_below c.entries other

-- The derived `==` on the two maps.
unfoldable pub same_entries : BTreeMap NodeId ℕ → BTreeMap NodeId ℕ → Bool
same_entries [] [] = true
same_entries ((k, v) ∷ m) ((j, w) ∷ n) = eqb k j && v == w && same_entries m n
same_entries _ _ = false

unfoldable pub is_strictly_before : VectorClock → VectorClock → Bool
unfolding is_before_or_equal same_entries
is_strictly_before c other =
    is_before_or_equal c other && not (same_entries c.entries other.entries)

unfoldable pub is_concurrent_with : VectorClock → VectorClock → Bool
unfolding is_before_or_equal
is_concurrent_with c other = not (is_before_or_equal c other) && not (is_before_or_equal other c)

unfoldable pub node_count : VectorClock → ℕ
node_count c = length c.entries
