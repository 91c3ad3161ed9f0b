-- ===== src/Sync/GCounter.antt =====
-- `GCounter` of sync.rs.
pub mod Totals
use mnemo.Base.{ℕ, ◌+◌, ◌%◌, get_or, [], ◌∷◌, add_u64, u64_mod}
use mnemo.Base.Order.{text_ord}
use mnemo.BTreeMap.{BTreeMap}
use mnemo.BTreeMap
use mnemo.Sync.Hlc.{NodeId}
use mnemo.Sync.Slots.{raise}

pub record GCounter : Type 0 where
  pub counts : BTreeMap NodeId ℕ

abbrev pub new : GCounter
new = record { counts = [] }

-- `increment_by`: `entry(..).or_insert(0)`, then `+= amount`.
unfoldable pub increment_by : GCounter → NodeId → ℕ → GCounter
increment_by c node_id amount = record {
  counts =
      BTreeMap.insert c.counts node_id (add_u64 (get_or (BTreeMap.get c.counts node_id) 0) amount);
}

unfoldable pub increment : GCounter → NodeId → GCounter
increment c node_id = record {
  counts = BTreeMap.insert c.counts node_id (add_u64 (get_or (BTreeMap.get c.counts node_id) 0) 1);
}

unfoldable pub sum_values : BTreeMap NodeId ℕ → ℕ
sum_values [] = 0
sum_values ((node_id, count) ∷ rest) = count + sum_values rest

-- `value`: the sum wraps around.
unfoldable pub value : GCounter → ℕ
unfolding sum_values
value c = sum_values c.counts % u64_mod

unfoldable pub node_value : GCounter → NodeId → ℕ
node_value c node_id = get_or (BTreeMap.get c.counts node_id) 0

unfoldable pub merge : GCounter → GCounter → GCounter
merge c other = record { counts = BTreeMap.for_each raise c.counts other.counts }
