-- ===== src/BTreeMap/Merge.antt =====
-- Loops that merge one map into another, key by key.
use Prim.Native.Nat.Ordering.{eq}
use mnemo.Base.{◌≡◌, refl, sym, ap, ◌∙◌, [], ◌∷◌, Option, none, some, arith, inl, inr}
use mnemo.Base.Order.{Ord, Ordering-cases}
use mnemo.BTreeMap.{BTreeMap, get, for_each, IsSorted}
use mnemo.BTreeMap.Lookup.{get-Above, ext}

-- What a merge leaves under a key: `f` is given the entry before and the incoming value.
abbrev pub join {κ} : {V : Type κ} → (Option V → V → V) → Option V → Option V → Option V
join f a none = a
join f a (some v) = some (f a v)

module _ {ℓ κ} {K : Type ℓ} {V : Type κ} ⦃o : Ord K⦄ where
  -- The effect of one round of the loop: it writes one key.
  abbrev pub Writes : (Option V → V → V) → (BTreeMap K V → K → V → BTreeMap K V) → Type (ℓ ⊔ κ)
  Writes f step =
      (m : BTreeMap K V) (k : K) (v : V) (j : K)
      → get (step m k v) j ≡ elim (o.cmp j k) [ eq ↦ some (f (get m k) v) | _ ↦ get m j ]

  abbrev pub KeepsSorted : (BTreeMap K V → K → V → BTreeMap K V) → Type (ℓ ⊔ κ)
  KeepsSorted step = (m : BTreeMap K V) (k : K) (v : V) → IsSorted m → IsSorted (step m k v)

module _ {ℓ κ} {K : Type ℓ} {V : Type κ} ⦃o : Ord K⦄ (f : Option V → V → V)
    (step : BTreeMap K V → K → V → BTreeMap K V) (writes : Writes f step) where
  pub get-for_each :
      (m n : BTreeMap K V) (k : K)
      → IsSorted n
      → get (for_each step m n) k ≡ join f (get m k) (get n k)
  unfolding get for_each
  get-for_each m [] k s = refl
  get-for_each m ((j, v) ∷ n) k s = elim (Ordering-cases (o.cmp k j)) [
    | inl p ↦ ground (arith, get-for_each (step m j v) n k s.1, writes m j v k)
    | inr (inl p) ↦ ground (
      arith,
      get-for_each (step m j v) n k s.1,
      writes m j v k,
      o.eq_of_cmp k j p,
      get-Above n j s.0,
    )
    | inr (inr p) ↦ ground (arith, get-for_each (step m j v) n k s.1, writes m j v k)
  ]

  module _ (sorts : KeepsSorted step) where
    pub for_each-IsSorted : (m n : BTreeMap K V) → IsSorted m → IsSorted (for_each step m n)
    unfolding for_each
    for_each-IsSorted m [] s = s
    for_each-IsSorted m ((j, v) ∷ n) s = for_each-IsSorted (step m j v) n (sorts m j v s)

    pub for_each_comm :
        (m n : BTreeMap K V)
        → IsSorted m
        → IsSorted n
        → ((k : K) → join f (get m k) (get n k) ≡ join f (get n k) (get m k))
        → for_each step m n ≡ for_each step n m
    for_each_comm m n s t comm =
        ext _ _ (for_each-IsSorted m n s) (for_each-IsSorted n m t)
          λ k. get-for_each m n k t ∙ comm k ∙ sym (get-for_each n m k s)

    pub for_each_assoc :
        (l m n : BTreeMap K V)
        → IsSorted l
        → IsSorted m
        → IsSorted n
        → ((k : K)
            → join f (join f (get l k) (get m k)) (get n k)
              ≡ join f (get l k) (join f (get m k) (get n k)))
        → for_each step (for_each step l m) n ≡ for_each step l (for_each step m n)
    for_each_assoc l m n r s t assoc =
        ext _ _ (for_each-IsSorted _ n (for_each-IsSorted l m r)) (for_each-IsSorted l _ r) λ k.
          get-for_each (for_each step l m) n k t
          ∙ ap (λ x. join f x (get n k)) (get-for_each l m k s)
          ∙ assoc k
          ∙ sym (ap (join f (get l k)) (get-for_each m n k t))
          ∙ sym (get-for_each l (for_each step m n) k (for_each-IsSorted m n s))

    pub for_each_idem :
        (m : BTreeMap K V)
        → IsSorted m
        → ((k : K) → join f (get m k) (get m k) ≡ get m k)
        → for_each step m m ≡ m
    for_each_idem m s idem = ext _ _ (for_each-IsSorted m m s) s λ k. get-for_each m m k s ∙ idem k
