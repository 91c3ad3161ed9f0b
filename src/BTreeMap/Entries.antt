-- ===== src/BTreeMap/Entries.antt =====
-- A predicate on all entries of a map.
use Prim.Native.Nat.{Ordering}
use Prim.Native.Nat.Ordering.{lt, eq, gt}
use mnemo.Base.{◌≡◌, subst, sym, some, [], ◌∷◌, All, arith, inl, inr}
use mnemo.Base.Order.{Ord, text_ord, Ordering-cases}
use mnemo.BTreeMap.{BTreeMap}
use mnemo.BTreeMap

module _ {ℓ κ μ} {K : Type ℓ} {V : Type κ} ⦃o : Ord K⦄ (P : K × V → Type μ) where
  pub get-All : (m : BTreeMap K V) (k : K) (v : V) → All P m → BTreeMap.get m k ≡ some v → P (k, v)
  unfolding BTreeMap.get
  get-All [] k v h e = absurd (ground (arith, e))
  get-All ((j, w) ∷ m) k v (q, h) e = elim (Ordering-cases (o.cmp k j)) [
    | inl p ↦ get-All m k v h (ground arith)
    | inr (inl p) ↦ subst P (pair_eq (o.eq_of_cmp k j p) (ground arith)) q
    | inr (inr p) ↦ get-All m k v h (ground arith)
  ]
    where
      pair_eq : k ≡ j → w ≡ v → ◌≡◌ {A = K × V} (j, w) (k, v)
      pair_eq p r = λ i. (sym p i, r i)

  pub insert-All :
      (m : BTreeMap K V) (k : K) (v : V) → All P m → P (k, v) → All P (BTreeMap.insert m k v)
  unfolding BTreeMap.insert
  insert-All [] k v h p = (p, tt)
  insert-All ((j, w) ∷ m) k v (q, h) p = placed (o.cmp k j) (insert-All m k v h p)
    where
      placed :
          (c : Ordering)
          → All P (BTreeMap.insert m k v)
          → All P (elim c [
            | lt ↦ (k, v) ∷ (j, w) ∷ m
            | eq ↦ (k, v) ∷ m
            | gt ↦ (j, w) ∷ BTreeMap.insert m k v
          ])
      placed lt r = (p, (q, h))
      placed eq r = (p, h)
      placed gt r = (q, r)
