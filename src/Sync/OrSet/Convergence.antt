-- ===== src/Sync/OrSet/Convergence.antt =====
-- `ORSet` of sync.rs: its invariant, merges, and what becomes of a removal.
use mnemo.Base.{
  ◌≡◌, refl, sym, ap, subst, ◌∙◌, true, false, Option, none, some, arith, [], Option-cases, inl,
  inr,
}
use mnemo.Base.Order.{Ord, text_ord}
use mnemo.BTreeMap.{BTreeMap, IsSorted}
use mnemo.BTreeMap
use mnemo.BTreeMap.Lookup.{get-insert, insert-IsSorted}
use mnemo.BTreeMap.Merge.{join, for_each-IsSorted, for_each_comm, for_each_assoc, for_each_idem}
use mnemo.Sync.Hlc.{NodeId}
use mnemo.Sync.Slots.{raise_all-IsSorted, raise_all_comm, raise_all_assoc, raise_all_idem}
use mnemo.Sync.OrSet.{
  OrSet, TagSet, tag_ord, put, is_nonempty, tags_of, next_tag, add, remove, contains, absorb, merge,
}
use mnemo.Sync.OrSet.Union.{
  union, union-nonempty, put-nonempty, union-IsSorted, union_comm, union_assoc, union_idem,
  union-nil, put-KeepsSorted,
}
use mnemo.Sync.OrSet.Membership.{
  IsOrSet, combined, absorb-Writes, absorb-KeepsSorted, get-merge, delete-IsSorted, get-delete,
  contains-merge, contains-add-remove,
}

-- A set of tags that is in key order, if there is one.
abbrev SortedTags : Option TagSet → Type 0
SortedTags none = Unit
SortedTags (some tags) = IsSorted tags

-- An entry with tags, in key order.
abbrev IsTagged : Option TagSet → Type 0
IsTagged none = Unit
IsTagged (some tags) = IsSorted tags × (is_nonempty tags ≡ true)

combined-IsTagged : (a b : Option TagSet) → IsTagged a → IsTagged b → IsTagged (join combined a b)
combined-IsTagged a none s t = s
combined-IsTagged none (some y) s t =
    (union-IsSorted [] y tt t.0, ground (arith, union-nonempty [] y))
combined-IsTagged (some x) (some y) s t =
    (union-IsSorted x y s.0 t.0, ground (arith, union-nonempty x y))

combined_comm :
    (a b : Option TagSet) → SortedTags a → SortedTags b → join combined a b ≡ join combined b a
combined_comm none none s t = refl
combined_comm none (some y) s t = ap some (union-nil y t)
combined_comm (some x) none s t = ap some (sym (union-nil x s))
combined_comm (some x) (some y) s t = ap some (union_comm x y s t)

combined_assoc :
    (a b c : Option TagSet)
    → SortedTags a
    → SortedTags b
    → SortedTags c
    → join combined (join combined a b) c ≡ join combined a (join combined b c)
combined_assoc a b none s t u = refl
combined_assoc none none (some z) s t u =
    ap some (sym (union-nil (union [] z) (union-IsSorted [] z tt u)))
combined_assoc (some x) none (some z) s t u = ap (λ w. some (union x w)) (sym (union-nil z u))
combined_assoc none (some y) (some z) s t u =
    ap (λ w. some (union w z)) (union-nil y t)
    ∙ ap some (sym (union-nil (union y z) (union-IsSorted y z t u)))
combined_assoc (some x) (some y) (some z) s t u = ap some (union_assoc x y s t z u)

combined_idem : (a : Option TagSet) → SortedTags a → join combined a a ≡ a
combined_idem none s = refl
combined_idem (some x) s = ap some (union_idem x s)

module _ {ℓ} {T : Type ℓ} ⦃o : Ord T⦄ where
  OrSet_eq : (a b : OrSet T) → a.elems ≡ b.elems → a.seq_counters ≡ b.seq_counters → a ≡ b
  OrSet_eq a b p q = λ i. record { elems = p i; seq_counters = q i }

  SortedTags-at : (s : OrSet T) (x : T) → IsOrSet s → SortedTags (BTreeMap.get s.elems x)
  SortedTags-at s x v = elim (Option-cases (BTreeMap.get s.elems x)) [
    | inl p ↦ rw p tt
    | inr (tags, p) ↦ rw p (v.tags_sorted x tags p)
  ]

  IsTagged-at : (s : OrSet T) (x : T) → IsOrSet s → IsTagged (BTreeMap.get s.elems x)
  IsTagged-at s x v = elim (Option-cases (BTreeMap.get s.elems x)) [
    | inl p ↦ rw p tt
    | inr (tags, p) ↦ rw p (v.tags_sorted x tags p, v.nonempty x tags p)
  ]

  tags_of-IsSorted : (s : OrSet T) (x : T) → IsOrSet s → IsSorted (tags_of s x)
  unfolding tags_of
  tags_of-IsSorted s x v = elim (Option-cases (BTreeMap.get s.elems x)) [
    | inl p ↦ rw p tt
    | inr (tags, p) ↦ rw p (v.tags_sorted x tags p)
  ]

  -- Merging well-formed sets (`IsOrSet`: in key order, no element without tags) is commutative,
  -- associative and idempotent.
  pub set_merge_semilattice :
      (a b c : OrSet T)
      → IsOrSet a
      → IsOrSet b
      → IsOrSet c
      → (merge a b ≡ merge b a) × (merge (merge a b) c ≡ merge a (merge b c)) × (merge a a ≡ a)
  unfolding merge
  set_merge_semilattice a b c u v w = (
    OrSet_eq _ _
        (for_each_comm combined absorb absorb-Writes absorb-KeepsSorted a.elems b.elems u.sorted
          v.sorted
          λ k.
            combined_comm (BTreeMap.get a.elems k) (BTreeMap.get b.elems k) (SortedTags-at a k u)
              (SortedTags-at b k v))
        (raise_all_comm a.seq_counters b.seq_counters u.counters_sorted v.counters_sorted),
    OrSet_eq _ _
        (for_each_assoc combined absorb absorb-Writes absorb-KeepsSorted a.elems b.elems c.elems
          u.sorted v.sorted w.sorted
          λ k.
            combined_assoc (BTreeMap.get a.elems k) (BTreeMap.get b.elems k)
              (BTreeMap.get c.elems k) (SortedTags-at a k u) (SortedTags-at b k v)
              (SortedTags-at c k w))
        (raise_all_assoc b.seq_counters c.seq_counters v.counters_sorted w.counters_sorted
          a.seq_counters u.counters_sorted),
    OrSet_eq _ _
        (for_each_idem combined absorb absorb-Writes absorb-KeepsSorted a.elems u.sorted
          λ k. combined_idem (BTreeMap.get a.elems k) (SortedTags-at a k u))
        (raise_all_idem a.seq_counters u.counters_sorted),
  )

  -- `merge` keeps the maps sorted and every kept element tagged.
  pub merge-IsOrSet : (a b : OrSet T) → IsOrSet a → IsOrSet b → IsOrSet (merge a b)
  unfolding merge
  merge-IsOrSet a b v w = record {
    sorted =
        for_each-IsSorted combined absorb absorb-Writes absorb-KeepsSorted a.elems b.elems v.sorted;
    counters_sorted =
        raise_all-IsSorted a.seq_counters b.seq_counters v.counters_sorted w.counters_sorted;
    tags_sorted = λ x tags e. (kept x tags e).0;
    nonempty = λ x tags e. (kept x tags e).1;
  }
    where
      kept :
          (x : T) (tags : TagSet)
          → BTreeMap.get (merge a b).elems x ≡ some tags
          → IsTagged (some tags)
      kept x tags e = subst IsTagged (sym (get-merge a b x w.sorted) ∙ e) (
          combined-IsTagged (BTreeMap.get a.elems x) (BTreeMap.get b.elems x) (IsTagged-at a x v)
            (IsTagged-at b x w))

  -- `add` keeps the maps sorted and every kept element tagged.
  pub add-IsOrSet : (s : OrSet T) (x : T) (node : NodeId) → IsOrSet s → IsOrSet (add s x node).0
  unfolding add
  add-IsOrSet s x node v =
      let tag = (next_tag s node).1 in
      let tags = put (tags_of s x) tag tt in
      record {
        sorted = insert-IsSorted s.elems x tags v.sorted;
        counters_sorted = insert-IsSorted s.seq_counters node _ v.counters_sorted;
        tags_sorted = λ y other e. ground (
          arith,
          get-insert s.elems x tags y,
          v.tags_sorted y other,
          put-KeepsSorted (tags_of s x) tag tt (tags_of-IsSorted s x v),
        );
        nonempty = λ y other e. ground (
          arith,
          get-insert s.elems x tags y,
          v.nonempty y other,
          put-nonempty (tags_of s x) tag tt,
        );
      }

  -- `remove` keeps the maps sorted and every kept element tagged.
  pub remove-IsOrSet : (s : OrSet T) (x : T) → IsOrSet s → IsOrSet (remove s x).0
  unfolding remove
  remove-IsOrSet s x v = record {
    sorted = delete-IsSorted s.elems x v.sorted;
    counters_sorted = v.counters_sorted;
    tags_sorted =
        λ y tags e. v.tags_sorted y tags (ground (arith, get-delete s.elems x y v.sorted));
    nonempty = λ y tags e. v.nonempty y tags (ground (arith, get-delete s.elems x y v.sorted));
  }

  -- A removal does not survive a merge: whatever the removing node has seen, merging a well-formed
  -- set after a removal with a well-formed set that still holds the element brings the element
  -- back, also when that set is the one that the node had before the removal.
  pub merge_undoes_remove :
      (s other : OrSet T) (x : T)
      → IsOrSet s
      → IsOrSet other
      → contains other x ≡ true
      → (contains (remove s x).0 x ≡ false) × (contains (merge (remove s x).0 other) x ≡ true)
  merge_undoes_remove s other x v w h = ground (
    arith,
    (contains-add-remove s x [] x v).1,
    o.cmp_refl x,
    contains-merge (remove s x).0 other x (remove-IsOrSet s x v) w,
  )
