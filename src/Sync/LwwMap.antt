-- ===== src/Sync/LwwMap.antt =====
-- `LWWMap<K, V>` of sync.rs.
pub mod Convergence
pub mod Writes
use mnemo.Base.{
  ℕ, suc, Bool, true, false, if◌then◌else◌, Option, none, some, [], ◌∷◌, List, is_some, length,
  ◌==◌,
}
use mnemo.Base.Order.{Ord, ltk}
use mnemo.BTreeMap.{BTreeMap}
use mnemo.BTreeMap
use mnemo.Sync.Hlc.{HlcTimestamp, hlc_ord}

-- `struct LWWEntry`: no value is a tombstone.
pub record LwwEntry {ℓ} (V : Type ℓ) : Type ℓ where
  pub value : Option V
  pub timestamp : HlcTimestamp

pub record LwwMap {ℓ κ} (K : Type ℓ) (V : Type κ) : Type (ℓ ⊔ κ) where
  pub entries : BTreeMap K (LwwEntry V)

module _ {ℓ κ} {K : Type ℓ} {V : Type κ} ⦃o : Ord K⦄ where
  abbrev pub new : LwwMap K V
  new = record { entries = [] }

  -- The match that `set` and `remove` share: the map after, and whether the write was taken.
  unfoldable pub write : LwwMap K V → K → LwwEntry V → LwwMap K V × Bool
  write m key e =
      let written : LwwMap K V = record { entries = BTreeMap.insert m.entries key e } in
      elim (BTreeMap.get m.entries key) [
        | none ↦ (written, true)
        | some entry ↦ if ltk entry.timestamp e.timestamp then (written, true) else (m, false)
      ]

  unfoldable pub set : LwwMap K V → K → V → HlcTimestamp → LwwMap K V × Bool
  unfolding write
  set m key value timestamp = write m key (record { value = some value; timestamp = timestamp })

  unfoldable pub remove : LwwMap K V → K → HlcTimestamp → LwwMap K V × Bool
  unfolding write
  remove m key timestamp = write m key (record { value = none; timestamp = timestamp })

  -- `entries.get(key).and_then(|entry| entry.value.as_ref())`
  unfoldable pub get : LwwMap K V → K → Option V
  get m key = elim (BTreeMap.get m.entries key) [ none ↦ none | some entry ↦ entry.value ]

  -- The `filter_map` of `entries`.
  unfoldable pub live : BTreeMap K (LwwEntry V) → List (K × V)
  live [] = []
  live ((k, entry) ∷ m) = elim entry.value [ none ↦ live m | some v ↦ (k, v) ∷ live m ]

  unfoldable pub entries : LwwMap K V → List (K × V)
  unfolding live
  entries m = live m.entries

  unfoldable pub count_live : BTreeMap K (LwwEntry V) → ℕ
  count_live [] = 0
  count_live ((k, entry) ∷ m) = if is_some entry.value then suc (count_live m) else count_live m

  unfoldable pub len : LwwMap K V → ℕ
  unfolding count_live
  len m = count_live m.entries

  unfoldable pub is_empty : LwwMap K V → Bool
  unfolding len
  is_empty m = len m == 0

  -- One round of the loop in `merge`.
  unfoldable pub absorb : BTreeMap K (LwwEntry V) → K → LwwEntry V → BTreeMap K (LwwEntry V)
  absorb m key other_entry = elim (BTreeMap.get m key) [
    | none ↦ BTreeMap.insert m key other_entry
    | some my_entry ↦
        if ltk my_entry.timestamp other_entry.timestamp
        then BTreeMap.insert m key other_entry
        else m
  ]

  unfoldable pub merge : LwwMap K V → LwwMap K V → LwwMap K V
  merge m other = record { entries = BTreeMap.for_each absorb m.entries other.entries }
