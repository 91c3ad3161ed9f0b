-- ===== src/Sync/OrSet/Membership.antt =====
-- What `contains` of `ORSet`, sync.rs, reads after `add`, `remove` and `merge`.
use Prim.Native.Nat.Ordering.{eq}
use mnemo.Base.{◌≡◌, true, false, ◌||◌, Option, none, some, if◌then◌else◌, arith, [], ◌∷◌, get_or}
use mnemo.Base.Order.{Ord, eqb, text_ord}
use mnemo.BTreeMap.{BTreeMap, IsSorted, Above}
use mnemo.BTreeMap
use mnemo.BTreeMap.Lookup.{get-insert, insert-IsSorted, get-Above}
use mnemo.BTreeMap.Merge.{Writes, KeepsSorted, join, get-for_each}
use mnemo.Sync.Hlc.{NodeId}
use mnemo.Sync.OrSet.{
  OrSet, TagSet, tag_ord, put, is_nonempty, tags_of, next_tag, add, delete, remove, contains,
  absorb, merge,
}
use mnemo.Sync.OrSet.Union.{union, union-nonempty, put-nonempty}

-- What one round of the outer loop in `merge` leaves under an element.
abbrev pub combined : Option TagSet → TagSet → TagSet
combined before tags = union (get_or before []) tags

module _ {ℓ} {T : Type ℓ} ⦃o : Ord T⦄ where
  -- The maps are in key order, and no element is kept with an empty set of tags.
  pub record IsOrSet (s : OrSet T) : Type ℓ where
    pub sorted : IsSorted s.elems
    pub counters_sorted : IsSorted s.seq_counters
    pub tags_sorted : (x : T) (tags : TagSet) → BTreeMap.get s.elems x ≡ some tags → IsSorted tags
    pub nonempty :
        (x : T) (tags : TagSet) → BTreeMap.get s.elems x ≡ some tags → is_nonempty tags ≡ true

  pub absorb-Writes : Writes {K = T} combined absorb
  unfolding absorb
  absorb-Writes m k v j = get-insert m k _ j

  pub absorb-KeepsSorted : KeepsSorted {K = T} absorb
  unfolding absorb
  absorb-KeepsSorted m k v s = insert-IsSorted m k _ s

  pub get-merge :
      (a b : OrSet T) (x : T)
      → IsSorted b.elems
      → BTreeMap.get (merge a b).elems x
        ≡ join combined (BTreeMap.get a.elems x) (BTreeMap.get b.elems x)
  unfolding merge
  get-merge a b x s = get-for_each combined absorb absorb-Writes a.elems b.elems x s

  Above-delete : (b : T) (m : BTreeMap T TagSet) (x : T) → Above b m → Above b (delete m x)
  unfolding delete
  Above-delete b [] x a = tt
  Above-delete b ((y, tags) ∷ m) x a = ground (arith, Above-delete b m x a.1)

  pub delete-IsSorted : (m : BTreeMap T TagSet) (x : T) → IsSorted m → IsSorted (delete m x)
  unfolding delete
  delete-IsSorted [] x s = tt
  delete-IsSorted ((y, tags) ∷ m) x s =
      ground (arith, delete-IsSorted m x s.1, Above-delete y m x s.0)

  pub get-delete :
      (m : BTreeMap T TagSet) (x y : T)
      → IsSorted m
      → BTreeMap.get (delete m x) y ≡ elim (o.cmp y x) [ eq ↦ none | _ ↦ BTreeMap.get m y ]
  unfolding delete BTreeMap.get
  get-delete [] x y s = ground arith
  get-delete ((z, tags) ∷ m) x y s = ground (
    arith,
    get-delete m x y s.1,
    o.eq_of_cmp y x,
    o.eq_of_cmp x z,
    o.eq_of_cmp y z,
    o.cmp_refl x,
    o.cmp_refl z,
    get-Above m z s.0,
  )

  -- On a well-formed set, `add` puts its element into the set, `remove` takes it out and says
  -- whether it was there, and both leave every other element alone.
  pub contains-add-remove :
      (s : OrSet T) (x : T) (node : NodeId) (y : T)
      → IsOrSet s
      → (contains (add s x node).0 y ≡ (if eqb y x then true else contains s y))
        × (contains (remove s x).0 y ≡ (if eqb y x then false else contains s y))
        × ((remove s x).1 ≡ contains s x)
  unfolding contains add remove
  contains-add-remove s x node y v = (
    ground (
      arith,
      get-insert s.elems x (put (tags_of s x) (next_tag s node).1 tt) y,
      put-nonempty (tags_of s x) (next_tag s node).1 tt,
    ),
    ground (arith, get-delete s.elems x y v.sorted),
    ground (arith, v.nonempty x (get_or (BTreeMap.get s.elems x) [])),
  )

  -- A merge of well-formed sets holds the elements that either side holds.
  pub contains-merge :
      (a b : OrSet T) (x : T)
      → IsOrSet a
      → IsOrSet b
      → contains (merge a b) x ≡ (contains a x || contains b x)
  unfolding contains
  contains-merge a b x v w = ground (
    arith,
    get-merge a b x w.sorted,
    union-nonempty (get_or (BTreeMap.get a.elems x) []) (get_or (BTreeMap.get b.elems x) []),
  )
