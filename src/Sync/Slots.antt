-- ===== src/Sync/Slots.antt =====
-- The loop that the `merge` of `VectorClock` and of `GCounter` share: the maps hold a number for
-- each node, and the larger one stays.
use mnemo.Base.{ℕ, ◌≡◌, Option, max, get_or, arith}
use mnemo.Base.Order.{text_ord}
use mnemo.BTreeMap.{BTreeMap, IsSorted, for_each}
use mnemo.BTreeMap
use mnemo.BTreeMap.Lookup.{get-insert, insert-IsSorted}
use mnemo.BTreeMap.Merge.{
  Writes, KeepsSorted, join, get-for_each, for_each-IsSorted, for_each_comm, for_each_assoc,
  for_each_idem,
}
use mnemo.Sync.Hlc.{NodeId}

-- One round of the loop: `entry(node_id).or_insert(0)`, then the maximum with `counter`.
unfoldable pub raise : BTreeMap NodeId ℕ → NodeId → ℕ → BTreeMap NodeId ℕ
raise m node_id counter =
    BTreeMap.insert m node_id (max (get_or (BTreeMap.get m node_id) 0) counter)

-- The number under a node, 0 if there is none.
abbrev pub slot : BTreeMap NodeId ℕ → NodeId → ℕ
slot m node_id = get_or (BTreeMap.get m node_id) 0

abbrev pub higher : Option ℕ → ℕ → ℕ
higher before counter = max (get_or before 0) counter

pub raise-Writes : Writes {K = NodeId} higher raise
unfolding raise
raise-Writes m k v j = get-insert m k _ j

pub raise-KeepsSorted : KeepsSorted {K = NodeId} raise
unfolding raise
raise-KeepsSorted m k v s = insert-IsSorted m k _ s

join-higher_comm : (a b : Option ℕ) → join higher a b ≡ join higher b a
join-higher_comm a b = ground arith

join-higher_assoc :
    (a b c : Option ℕ) → join higher (join higher a b) c ≡ join higher a (join higher b c)
join-higher_assoc a b c = ground arith

join-higher_idem : (a : Option ℕ) → join higher a a ≡ a
join-higher_idem a = ground arith

module _ (m n : BTreeMap NodeId ℕ) (s : IsSorted m) (t : IsSorted n) where
  pub raise_all-IsSorted : IsSorted (for_each raise m n)
  raise_all-IsSorted = for_each-IsSorted higher raise raise-Writes raise-KeepsSorted m n s

  pub get-raise_all :
      (k : NodeId)
      → BTreeMap.get (for_each raise m n) k ≡ join higher (BTreeMap.get m k) (BTreeMap.get n k)
  get-raise_all k = get-for_each higher raise raise-Writes m n k t

  pub slot-raise_all : (k : NodeId) → slot (for_each raise m n) k ≡ max (slot m k) (slot n k)
  slot-raise_all k = ground (arith, get-raise_all k)

  pub raise_all_comm : for_each raise m n ≡ for_each raise n m
  raise_all_comm =
      for_each_comm higher raise raise-Writes raise-KeepsSorted m n s t
        λ k. join-higher_comm (BTreeMap.get m k) (BTreeMap.get n k)

  pub raise_all_assoc :
      (l : BTreeMap NodeId ℕ)
      → IsSorted l
      → for_each raise (for_each raise l m) n ≡ for_each raise l (for_each raise m n)
  raise_all_assoc l r =
      for_each_assoc higher raise raise-Writes raise-KeepsSorted l m n r s t
        λ k. join-higher_assoc (BTreeMap.get l k) (BTreeMap.get m k) (BTreeMap.get n k)

pub raise_all_idem : (m : BTreeMap NodeId ℕ) → IsSorted m → for_each raise m m ≡ m
raise_all_idem m s =
    for_each_idem higher raise raise-Writes raise-KeepsSorted m s
      λ k. join-higher_idem (BTreeMap.get m k)
