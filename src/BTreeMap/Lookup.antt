-- ===== src/BTreeMap/Lookup.antt =====
-- A read after a write, sortedness, and equality of sorted maps that read alike.
use Prim.Native.Nat.Ordering.{lt, eq}
use mnemo.Base.{◌≡◌, refl, ap, sym, ◌∙◌, [], ◌∷◌, none, some, All-imp, arith, inl, inr}
use mnemo.Base.Order.{flip, Ord, Ordering-cases}
use mnemo.BTreeMap.{BTreeMap, get, insert, Above, IsSorted}

module _ {ℓ κ} {K : Type ℓ} {V : Type κ} ⦃o : Ord K⦄ where
  pub get-insert :
      (m : BTreeMap K V) (k : K) (v : V) (j : K)
      → get (insert m k v) j ≡ elim (o.cmp j k) [ eq ↦ some v | _ ↦ get m j ]
  unfolding get insert
  get-insert [] k v j = refl
  get-insert ((i, w) ∷ m) k v j = ground (
    arith,
    get-insert m k v j,
    o.eq_of_cmp k i,
    o.eq_of_cmp j k,
    o.eq_of_cmp j i,
    o.swapped k i,
    o.cmp_refl k,
    o.cmp_refl i,
  )

  pub Above-insert :
      (b : K) (m : BTreeMap K V) (k : K) (v : V)
      → o.cmp b k ≡ lt
      → Above b m
      → Above b (insert m k v)
  unfolding insert
  Above-insert b [] k v h a = (h, tt)
  Above-insert b ((j, w) ∷ m) k v h a = ground (arith, Above-insert b m k v h a.1)

  pub Above-trans : (a b : K) (m : BTreeMap K V) → o.cmp a b ≡ lt → Above b m → Above a m
  Above-trans a b m h = All-imp _ _ (λ e k. o.lt_trans a b e.0 h k) m

  pub insert-IsSorted : (m : BTreeMap K V) (k : K) (v : V) → IsSorted m → IsSorted (insert m k v)
  unfolding insert
  insert-IsSorted [] k v s = (tt, tt)
  insert-IsSorted ((j, w) ∷ m) k v s = ground (
    arith,
    insert-IsSorted m k v s.1,
    Above-insert j m k v,
    o.swapped k j,
    o.eq_of_cmp k j,
    Above-trans k j m,
  )

  pub get-Above : (m : BTreeMap K V) (k : K) → Above k m → get m k ≡ none
  unfolding get
  get-Above [] k a = refl
  get-Above ((j, w) ∷ m) k a = ground (arith, get-Above m k a.1)

  ext_tail :
      (i j : K) (v w : V) (m n : BTreeMap K V)
      → Above i m
      → Above j n
      → i ≡ j
      → ((k : K) → get ((i, v) ∷ m) k ≡ get ((j, w) ∷ n) k)
      → (k : K) → get m k ≡ get n k
  unfolding get
  ext_tail i j v w m n a b e h k = elim (Ordering-cases (o.cmp k i)) [
    | inl p ↦ ground (arith, h k)
    | inr (inl p) ↦
        let f = o.eq_of_cmp k i p in get-Above m k (rw f a) ∙ sym (get-Above n k (rw (f, e) b))
    | inr (inr p) ↦ ground (arith, h k)
  ]

  -- Two sorted maps that read alike are one map.
  pub ext : (m n : BTreeMap K V) → IsSorted m → IsSorted n → ((k : K) → get m k ≡ get n k) → m ≡ n
  unfolding get
  ext [] [] s t h = refl
  ext [] ((j, w) ∷ n) s t h = ground (arith, h j, o.cmp_refl j)
  ext ((i, v) ∷ m) [] s t h = ground (arith, h i, o.cmp_refl i)
  ext ((i, v) ∷ m) ((j, w) ∷ n) s t h = elim (Ordering-cases (o.cmp i j)) [
    | inl p ↦ ground (arith, h i, o.cmp_refl i, get-Above n i (Above-trans i j n p t.0))
    | inr (inl p) ↦ ground (
      arith,
      h i,
      o.cmp_refl i,
      o.eq_of_cmp i j p,
      ext m n s.1 t.1 (ext_tail i j v w m n s.0 t.0 (o.eq_of_cmp i j p) h),
    )
    | inr (inr p) ↦ ground (
      arith,
      h j,
      o.cmp_refl j,
      o.swapped i j,
      get-Above m j (Above-trans j i m (o.swapped i j ∙ ap flip p) s.0),
    )
  ]
