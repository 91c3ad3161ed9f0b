-- ===== src/Sync/LwwMap/Convergence.antt =====
-- Merges of `LWWMap`, sync.rs.
use mnemo.Base.{◌≡◌, refl, false, Option, none, some, if◌then◌else◌, arith, Option-cases, inl, inr}
use mnemo.Base.Order.{Ord, ltk, ltk_irrefl, ltk_asymm, ltk_antisymm, ltk_trans, not_ltk_trans}
use mnemo.BTreeMap.{BTreeMap, IsSorted}
use mnemo.BTreeMap
use mnemo.BTreeMap.Lookup.{get-insert, insert-IsSorted}
use mnemo.BTreeMap.Merge.{
  Writes, KeepsSorted, join, get-for_each, for_each-IsSorted, for_each_comm, for_each_assoc,
  for_each_idem,
}
use mnemo.Sync.Hlc.{HlcTimestamp, hlc_ord}
use mnemo.Sync.LwwMap.{LwwMap, LwwEntry, absorb, get, merge}

module _ {ℓ} {V : Type ℓ} where
  -- Which entry stays: the newer, and the one before where the timestamps agree.
  abbrev pub newer : Option (LwwEntry V) → LwwEntry V → LwwEntry V
  newer none incoming = incoming
  newer (some before) incoming =
      if ltk before.timestamp incoming.timestamp then incoming else before

  pub join-newer_assoc :
      (a b c : Option (LwwEntry V)) → join newer (join newer a b) c ≡ join newer a (join newer b c)
  join-newer_assoc a b none = refl
  join-newer_assoc a none (some z) = refl
  join-newer_assoc none (some y) (some z) = ground arith
  join-newer_assoc (some x) (some y) (some z) = ground (
    arith,
    ltk_trans x.timestamp y.timestamp z.timestamp,
    not_ltk_trans x.timestamp y.timestamp z.timestamp,
  )

  pub join-newer_idem : (a : Option (LwwEntry V)) → join newer a a ≡ a
  join-newer_idem none = refl
  join-newer_idem (some x) = ground (arith, ltk_irrefl x.timestamp)

  pub join-newer_comm :
      (a b : Option (LwwEntry V))
      → ((x y : LwwEntry V) → a ≡ some x → b ≡ some y → x.timestamp ≡ y.timestamp → x ≡ y)
      → join newer a b ≡ join newer b a
  join-newer_comm none none h = refl
  join-newer_comm none (some y) h = refl
  join-newer_comm (some x) none h = refl
  join-newer_comm (some x) (some y) h = ground (
    arith,
    h x y refl refl,
    ltk_asymm x.timestamp y.timestamp,
    ltk_antisymm x.timestamp y.timestamp,
  )

module _ {ℓ κ} {K : Type ℓ} {V : Type κ} ⦃o : Ord K⦄ where
  abbrev pub IsMap : LwwMap K V → Type 0
  IsMap m = IsSorted m.entries

  -- Where both maps hold an entry of one key under one timestamp, it is the same entry.
  abbrev pub Agree : LwwMap K V → LwwMap K V → Type (ℓ ⊔ κ)
  Agree m n =
      (k : K) (x y : LwwEntry V)
      → BTreeMap.get m.entries k ≡ some x
      → BTreeMap.get n.entries k ≡ some y
      → x.timestamp ≡ y.timestamp
      → x ≡ y

  pub LwwMap_eq : (m n : LwwMap K V) → m.entries ≡ n.entries → m ≡ n
  LwwMap_eq m n p = λ i. record { entries = p i }

  pub absorb-Writes : Writes {K = K} (newer {V = V}) absorb
  unfolding absorb
  absorb-Writes m k v j = ground (arith, get-insert m k v j, o.eq_of_cmp j k)

  pub absorb-KeepsSorted : KeepsSorted {K = K} {V = LwwEntry V} absorb
  unfolding absorb
  absorb-KeepsSorted m k v s = ground (arith, insert-IsSorted m k v s)

  pub merge-IsMap : (m n : LwwMap K V) → IsMap m → IsMap n → IsMap (merge m n)
  unfolding merge
  merge-IsMap m n s t =
      for_each-IsSorted newer absorb absorb-Writes absorb-KeepsSorted m.entries n.entries s

  -- The entry of a key after a merge.
  pub get-merge :
      (m n : LwwMap K V) (k : K)
      → IsMap n
      → BTreeMap.get (merge m n).entries k
        ≡ join newer (BTreeMap.get m.entries k) (BTreeMap.get n.entries k)
  unfolding merge
  get-merge m n k t = get-for_each newer absorb absorb-Writes m.entries n.entries k t

  -- Merging maps that are in key order is associative and idempotent, and it is commutative where
  -- no timestamp stands for two different entries of a key.
  pub map_merge_semilattice :
      (l m n : LwwMap K V)
      → IsMap l
      → IsMap m
      → IsMap n
      → (merge (merge l m) n ≡ merge l (merge m n))
        × (merge m m ≡ m)
        × (Agree m n → merge m n ≡ merge n m)
  unfolding merge
  map_merge_semilattice l m n r s t = (
    LwwMap_eq _ _ (
        for_each_assoc newer absorb absorb-Writes absorb-KeepsSorted l.entries m.entries n.entries r
          s t
          λ k.
            join-newer_assoc (BTreeMap.get l.entries k) (BTreeMap.get m.entries k)
              (BTreeMap.get n.entries k)),
    LwwMap_eq _ _ (
        for_each_idem newer absorb absorb-Writes absorb-KeepsSorted m.entries s
          λ k. join-newer_idem (BTreeMap.get m.entries k)),
    λ agree. LwwMap_eq _ _ (
        for_each_comm newer absorb absorb-Writes absorb-KeepsSorted m.entries n.entries s t
          λ k. join-newer_comm (BTreeMap.get m.entries k) (BTreeMap.get n.entries k) (agree k)),
  )

  -- A removed key stays removed under a merge with a map in key order, unless that map holds a
  -- newer entry of it.
  pub merge_keeps_tombstone :
      (m n : LwwMap K V) (k : K) (t : HlcTimestamp)
      → IsMap n
      → BTreeMap.get m.entries k ≡ some (record { value = none; timestamp = t })
      → ((y : LwwEntry V) → BTreeMap.get n.entries k ≡ some y → ltk t y.timestamp ≡ false)
      → get (merge m n) k ≡ none
  unfolding get
  merge_keeps_tombstone m n k t s removed older = elim (Option-cases (BTreeMap.get n.entries k)) [
    | inl p ↦ ground (arith, get-merge m n k s)
    | inr (y, p) ↦ ground (arith, get-merge m n k s, older y p)
  ]
