-- ===== src/Sync/LwwMap/Writes.antt =====
-- `set` and `remove` of `LWWMap`, sync.rs, one at a time and over histories.
use mnemo.Base.{
  ◌≡◌, refl, ap, true, false, Option, none, some, if◌then◌else◌, arith, List, [], ◌∷◌, length, ap,
}
use mnemo.Base.Order.{Ord, eqb, ltk}
use mnemo.BTreeMap.{BTreeMap, IsSorted}
use mnemo.BTreeMap
use mnemo.BTreeMap.Lookup.{get-insert, get-Above}
use mnemo.Sync.Hlc.{HlcTimestamp, hlc_ord}
use mnemo.Sync.LwwMap.{LwwMap, LwwEntry, write, set, remove, get, len, entries, live, count_live}
use mnemo.Sync.LwwMap.Convergence.{IsMap}

module _ {ℓ κ} {K : Type ℓ} {V : Type κ} ⦃o : Ord K⦄ where
  -- The key holds an entry at least as new as `t`.
  abbrev pub Blocks : LwwMap K V → K → HlcTimestamp → Type 0
  Blocks m key t = elim (BTreeMap.get m.entries key) [
    | none ↦ ⊥
    | some entry ↦ ltk entry.timestamp t ≡ false
  ]

  -- `set` and `remove` report whether they took effect. If they did, the key reads as the new value
  -- or as absent, and every other key as before; if not, the map is unchanged, and the key holds an
  -- entry that is at least as new.
  pub set-remove_effect :
      (m : LwwMap K V) (key : K) (v : V) (t : HlcTimestamp) (j : K)
      → (((set m key v t).1 ≡ true)
          → (get (set m key v t).0 j ≡ (if eqb j key then some v else get m j)))
        × (((remove m key t).1 ≡ true)
            → (get (remove m key t).0 j ≡ (if eqb j key then none else get m j)))
        × (((set m key v t).1 ≡ false) → ((set m key v t).0 ≡ m) × Blocks m key t)
        × (((remove m key t).1 ≡ false) → ((remove m key t).0 ≡ m) × Blocks m key t)
  unfolding set remove get
  set-remove_effect m key v t j =
      let e : LwwEntry V = record { value = some v; timestamp = t } in
      let d : LwwEntry V = record { value = none; timestamp = t } in
      (
        λ h. ground (arith, get-insert m.entries key e j),
        λ h. ground (arith, get-insert m.entries key d j),
        λ h. ground arith,
        λ h. ground arith,
      )

  -- A history: each item is a `set` or, with no value, a `remove`.
  unfoldable pub replay : LwwMap K V → List (K × LwwEntry V) → LwwMap K V
  replay m [] = m
  replay m ((k, e) ∷ ops) = replay (write m k e).0 ops

  -- Each timestamp stands for one write of each key.
  abbrev pub Wrote : (K → HlcTimestamp → Option V) → K × LwwEntry V → Type κ
  Wrote written w = w.1.value ≡ written w.0 w.1.timestamp

  count_live-live : (m : BTreeMap K (LwwEntry V)) → count_live m ≡ length (live m)
  unfolding count_live live
  count_live-live [] = refl
  count_live-live ((k, e) ∷ m) = ground (arith, count_live-live m)

  abbrev value_at : BTreeMap K (LwwEntry V) → K → Option V
  value_at m k = elim (BTreeMap.get m k) [ none ↦ none | some entry ↦ entry.value ]

  get-live :
      (m : BTreeMap K (LwwEntry V)) (k : K) → IsSorted m → BTreeMap.get (live m) k ≡ value_at m k
  unfolding live BTreeMap.get
  get-live [] k s = refl
  get-live ((j, e) ∷ m) k s = ground (arith, get-live m k s.1, o.eq_of_cmp k j, get-Above m j s.0)

  -- On a map in key order, `entries` lists each live key with the value that `get` returns for it
  -- and nothing else, and `len` is its length.
  pub map_entries_lem :
      (m : LwwMap K V)
      → IsMap m
      → ((k : K) → BTreeMap.get (entries m) k ≡ get m k) × (len m ≡ length (entries m))
  unfolding entries get len
  map_entries_lem m s = (λ k. get-live m.entries k s, count_live-live m.entries)
