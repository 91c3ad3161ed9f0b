-- ===== src/Sync/OrSet/Fresh.antt =====
-- The tags that `add` of `ORSet`, sync.rs, makes, and its listings.
use mnemo.Base.{
  ◌+◌, ◌≤◌, ◌<◌, ◌≡◌, ◌↔◌, refl, ap, ◌∙◌, Bool, true, false, ◌||◌, none, some, arith, List, [], ◌∷◌,
  Bool-cases, Option-cases, inl, inr, u64_mod, add_u64, length, max, any, ◌==◌,
}
use mnemo.Base.Order.{Ord, Ordering-cases, eqb, text_ord}
use mnemo.BTreeMap.{BTreeMap, IsSorted, Above}
use mnemo.BTreeMap
use mnemo.BTreeMap.Lookup.{get-insert}
use mnemo.Sync.Hlc.{NodeId}
use mnemo.Sync.Slots.{slot, slot-raise_all}
use mnemo.Sync.OrSet.{
  OrSet, AddTag, TagSet, tag_ord, put, is_nonempty, tags_of, next_tag, add, contains, merge, live,
  elements, count_live, len, is_empty,
}
use mnemo.Sync.OrSet.Union.{union, has, has-union}
use mnemo.Sync.OrSet.Membership.{IsOrSet, get-merge}

module _ {ℓ} {T : Type ℓ} ⦃o : Ord T⦄ where
  -- The set holds `tag` for `x`.
  abbrev pub holds : OrSet T → T → AddTag → Bool
  holds s x tag = has (tags_of s x) tag

  -- Every tag was numbered by a counter that has not gone back.
  abbrev pub IsNumbered : OrSet T → Type ℓ
  IsNumbered s =
      (x : T) (tag : AddTag) → holds s x tag ≡ true → tag.seq ≤ slot s.seq_counters tag.node_id

  tags_after : OrSet T → T → NodeId → TagSet
  tags_after s x node = put (tags_of s x) (next_tag s node).1 tt

  -- On a set whose tags carry numbers up to their node's counter, `add` makes a tag that the set
  -- held for no element before, returns it, holds it for the element added, and keeps the
  -- numbering, as long as the node's counter has room in 64 bits.
  pub add_fresh :
      (s : OrSet T) (x : T) (node : NodeId)
      → IsNumbered s
      → slot s.seq_counters node + 1 < u64_mod
      → ((y : T) → holds s y (add s x node).1 ≡ false)
        × (holds (add s x node).0 x (add s x node).1 ≡ true)
        × IsNumbered (add s x node).0
  unfolding add tags_of put tags_after
  add_fresh s x node n h = (
    λ y. elim (Bool-cases (holds s y (next_tag s node).1)) [
      | inl p ↦ absurd (omega (arith, n y (next_tag s node).1 p))
      | inr p ↦ p
    ],
    ground (
      arith,
      o.cmp_refl x,
      get-insert s.elems x (tags_after s x node) x,
      get-insert (tags_of s x) (next_tag s node).1 tt (next_tag s node).1,
      tag_ord.cmp_refl (next_tag s node).1,
    ),
    λ y tag e. ground (
      arith,
      get-insert s.elems x (tags_after s x node) y,
      o.eq_of_cmp y x,
      get-insert (tags_of s x) (next_tag s node).1 tt tag,
      tag_ord.eq_of_cmp tag (next_tag s node).1,
      n y tag,
      n x tag,
      get-insert s.seq_counters node (add_u64 (slot s.seq_counters node) 1) tag.node_id,
      text_ord.eq_of_cmp tag.node_id node,
      text_ord.cmp_refl node,
    ),
  )

  slot-merge :
      (a b : OrSet T)
      → IsOrSet a
      → IsOrSet b
      → (k : NodeId)
      → slot (merge a b).seq_counters k ≡ max (slot a.seq_counters k) (slot b.seq_counters k)
  unfolding merge
  slot-merge a b v w k =
      slot-raise_all a.seq_counters b.seq_counters v.counters_sorted w.counters_sorted k

  tags_of-merge :
      (a b : OrSet T) (x : T)
      → IsOrSet a
      → IsOrSet b
      → tags_of (merge a b) x ≡ union (tags_of a x) (tags_of b x)
  unfolding tags_of BTreeMap.for_each
  tags_of-merge a b x v w = ground (arith, get-merge a b x w.sorted)

  tags_of-IsSorted : (s : OrSet T) (x : T) → IsOrSet s → IsSorted (tags_of s x)
  unfolding tags_of
  tags_of-IsSorted s x v = elim (Option-cases (BTreeMap.get s.elems x)) [
    | inl p ↦ rw p tt
    | inr (tags, p) ↦ rw p (v.tags_sorted x tags p)
  ]

  -- A merged set holds for each element exactly the tags that either side holds for it, and keeps
  -- the numbering.
  pub holds-merge :
      (a b : OrSet T)
      → IsOrSet a
      → IsOrSet b
      → ((x : T) (tag : AddTag) → holds (merge a b) x tag ≡ (holds a x tag || holds b x tag))
        × (IsNumbered a → IsNumbered b → IsNumbered (merge a b))
  holds-merge a b v w = (
    both,
    λ n m x tag h. ground (arith, both x tag, n x tag, m x tag, slot-merge a b v w tag.node_id),
  )
    where
      both : (x : T) (tag : AddTag) → holds (merge a b) x tag ≡ (holds a x tag || holds b x tag)
      both x tag =
          ap (λ tags. has tags tag) (tags_of-merge a b x v w)
          ∙ has-union (tags_of a x) (tags_of b x) tag (tags_of-IsSorted b x w)

  any-live-none : (m : BTreeMap T TagSet) (x : T) → Above x m → any (eqb x) (live m) ≡ false
  unfolding live
  any-live-none [] x a = refl
  any-live-none ((y, tags) ∷ m) x a = ground (arith, any-live-none m x a.1)

  contained : BTreeMap T TagSet → T → Bool
  contained m x = elim (BTreeMap.get m x) [ none ↦ false | some tags ↦ is_nonempty tags ]

  any-live : (m : BTreeMap T TagSet) (x : T) → IsSorted m → any (eqb x) (live m) ≡ contained m x
  unfolding live contained BTreeMap.get
  any-live [] x s = refl
  any-live ((y, tags) ∷ m) x s = elim (Ordering-cases (o.cmp x y)) [
    | inl p ↦ ground (arith, any-live m x s.1)
    | inr (inl p) ↦ ground (arith, o.eq_of_cmp x y p, any-live-none m y s.0, any-live-none m x)
    | inr (inr p) ↦ ground (arith, any-live m x s.1)
  ]

  count_live-live : (m : BTreeMap T TagSet) → count_live m ≡ length (live m)
  unfolding count_live live
  count_live-live [] = refl
  count_live-live ((k, e) ∷ m) = ground (arith, count_live-live m)

  -- On a well-formed set, `elements` lists exactly the elements that the set contains, `len` counts
  -- them, and `is_empty` holds exactly when there are none.
  pub elements_lem :
      (s : OrSet T)
      → IsOrSet s
      → ((x : T) → any (eqb x) (elements s) ≡ contains s x)
        × (len s ≡ length (elements s))
        × ((is_empty s ≡ true) ↔ (elements s ≡ []))
  unfolding elements contains len is_empty contained
  elements_lem s v = (
    λ x. any-live s.elems x v.sorted,
    count_live-live s.elems,
    empty_iff (live s.elems) (count_live-live s.elems),
  )
    where
      empty_iff :
          (xs : List T)
          → count_live s.elems ≡ length xs
          → ((count_live s.elems == 0) ≡ true) ↔ (xs ≡ [])
      empty_iff [] e = (λ h. refl, λ h. ground arith)
      empty_iff (x ∷ xs) e = (λ h. ground arith, λ h. ground arith)
