-- ===== src/BTreeMap.antt =====
-- `std::collections::BTreeMap`: the entries in the order of their keys.
pub mod Lookup
pub mod Entries
pub mod Merge
use Prim.Native.Nat.Ordering.{lt, eq, gt}
use mnemo.Base.{◌≡◌, List, [], ◌∷◌, Option, none, some, All}
use mnemo.Base.Order.{Ord}

abbrev pub BTreeMap {ℓ κ} : Type ℓ → Type κ → Type (ℓ ⊔ κ)
BTreeMap K V = List (K × V)

module _ {ℓ κ} {K : Type ℓ} {V : Type κ} ⦃o : Ord K⦄ where
  unfoldable pub get : BTreeMap K V → K → Option V
  get [] k = none
  get ((j, v) ∷ m) k = elim (o.cmp k j) [ eq ↦ some v | _ ↦ get m k ]

  unfoldable pub insert : BTreeMap K V → K → V → BTreeMap K V
  insert [] k v = (k, v) ∷ []
  insert ((j, w) ∷ m) k v = elim (o.cmp k j) [
    | lt ↦ (k, v) ∷ (j, w) ∷ m
    | eq ↦ (k, v) ∷ m
    | gt ↦ (j, w) ∷ insert m k v
  ]

  -- Every key of the map is greater than `k`.
  abbrev pub Above : K → BTreeMap K V → Type 0
  Above k = All λ e. o.cmp k e.0 ≡ lt

  -- The keys rise strictly.
  abbrev pub IsSorted : BTreeMap K V → Type 0
  IsSorted [] = Unit
  IsSorted ((k, v) ∷ m) = Above k m × IsSorted m

  -- A loop over the entries of `other` that updates a map.
  unfoldable pub for_each {μ} :
      {W : Type μ}
      → (BTreeMap K V → K → W → BTreeMap K V)
      → BTreeMap K V
      → BTreeMap K W
      → BTreeMap K V
  for_each step m [] = m
  for_each step m ((k, w) ∷ other) = for_each step (step m k w) other
