-- ===== src/Sync/OrSet.antt =====
-- `ORSet<T>` of sync.rs. The two hash maps and the hash sets of tags are kept in key order; the
-- order shows only in `elements`, whose order the source leaves open.
pub mod Union
pub mod Membership
pub mod Convergence
pub mod Fresh
use Prim.Native.Nat.{compare, Ordering}
use mnemo.Base.{
  ℕ, suc, Bool, true, false, not, if◌then◌else◌, Option, none, some, [], ◌∷◌, List, get_or, is_some,
  max, add_u64, ◌==◌, arith, ◌≡◌, ◌≤◌,
}
use mnemo.Base.Order.{Ord, IsTotalOrder, then_with, text_ord, cmp_text, cmp_text-IsTotalOrder}
use mnemo.BTreeMap.{BTreeMap}
use mnemo.BTreeMap
use mnemo.Sync.Hlc.{NodeId}
use mnemo.Sync.Slots.{raise}

pub record AddTag : Type 0 where
  pub node_id : NodeId
  pub seq : ℕ

unfoldable pub cmp_tag : AddTag → AddTag → Ordering
cmp_tag a b = then_with (cmp_text a.node_id b.node_id) (compare a.seq b.seq)

AddTag_eq : (a b : AddTag) → a.node_id ≡ b.node_id → a.seq ≡ b.seq → a ≡ b
AddTag_eq a b p q = λ i. record { node_id = p i; seq = q i }

pub cmp_tag-IsTotalOrder : IsTotalOrder cmp_tag
unfolding cmp_tag
cmp_tag-IsTotalOrder = record {
  cmp_refl = λ a. ground (arith, cmp_text-IsTotalOrder.cmp_refl a.node_id);
  eq_of_cmp = λ a b h.
      AddTag_eq a b (cmp_text-IsTotalOrder.eq_of_cmp a.node_id b.node_id (ground arith))
        (ground arith);
  swapped = λ a b. ground (
    arith,
    cmp_text-IsTotalOrder.swapped a.node_id b.node_id,
    cmp_text-IsTotalOrder.eq_of_cmp a.node_id b.node_id,
    cmp_text-IsTotalOrder.cmp_refl a.node_id,
  );
  lt_trans = λ a b c. ground (
    arith,
    cmp_text-IsTotalOrder.lt_trans a.node_id b.node_id c.node_id,
    cmp_text-IsTotalOrder.eq_of_cmp a.node_id b.node_id,
    cmp_text-IsTotalOrder.eq_of_cmp b.node_id c.node_id,
  );
}

instance unfoldable pub tag_ord : Ord AddTag
tag_ord = record { cmp = cmp_tag; total = cmp_tag-IsTotalOrder }

-- `HashSet<AddTag>`
abbrev pub TagSet : Type 0
TagSet = BTreeMap AddTag (Unit {0})

unfoldable pub put : TagSet → AddTag → Unit {0} → TagSet
put tags tag u = BTreeMap.insert tags tag u

abbrev pub is_nonempty : TagSet → Bool
is_nonempty [] = false
is_nonempty (_ ∷ _) = true

pub record OrSet {ℓ} (T : Type ℓ) : Type ℓ where
  pub elems : BTreeMap T TagSet
  pub seq_counters : BTreeMap NodeId ℕ

module _ {ℓ} {T : Type ℓ} ⦃o : Ord T⦄ where
  abbrev pub new : OrSet T
  new = record { elems = []; seq_counters = [] }

  -- The tags of an element, none if it has no entry: `entry(..).or_default()`.
  unfoldable pub tags_of : OrSet T → T → TagSet
  tags_of s element = get_or (BTreeMap.get s.elems element) []

  -- `next_tag`: the counters after, and the tag.
  unfoldable pub next_tag : OrSet T → NodeId → OrSet T × AddTag
  next_tag s node_id =
      let seq = add_u64 (get_or (BTreeMap.get s.seq_counters node_id) 0) 1 in
      (
        record s { seq_counters = BTreeMap.insert s.seq_counters node_id seq },
        record { node_id = node_id; seq = seq },
      )

  unfoldable pub add : OrSet T → T → NodeId → OrSet T × AddTag
  unfolding next_tag tags_of put
  add s element node_id =
      let (s', tag) = next_tag s node_id in
      (
        record s' { elems = BTreeMap.insert s'.elems element (put (tags_of s' element) tag tt) },
        tag,
      )

  -- `HashMap::remove`
  unfoldable pub delete : BTreeMap T TagSet → T → BTreeMap T TagSet
  delete [] x = []
  delete ((y, tags) ∷ m) x = elim (o.cmp x y) [ Ordering.eq ↦ m | _ ↦ (y, tags) ∷ delete m x ]

  -- `remove`: the set after, and whether the element had an entry.
  unfoldable pub remove : OrSet T → T → OrSet T × Bool
  unfolding delete
  remove s element =
      (record s { elems = delete s.elems element }, is_some (BTreeMap.get s.elems element))

  unfoldable pub contains : OrSet T → T → Bool
  contains s element = elim (BTreeMap.get s.elems element) [
    | none ↦ false
    | some tags ↦ is_nonempty tags
  ]

  unfoldable pub live : BTreeMap T TagSet → List T
  live [] = []
  live ((x, tags) ∷ m) = if is_nonempty tags then x ∷ live m else live m

  unfoldable pub elements : OrSet T → List T
  unfolding live
  elements s = live s.elems

  unfoldable pub count_live : BTreeMap T TagSet → ℕ
  count_live [] = 0
  count_live ((x, tags) ∷ m) = if is_nonempty tags then suc (count_live m) else count_live m

  unfoldable pub len : OrSet T → ℕ
  unfolding count_live
  len s = count_live s.elems

  unfoldable pub is_empty : OrSet T → Bool
  unfolding len
  is_empty s = len s == 0

  -- One round of the outer loop in `merge`: the inner loop inserts each tag.
  unfoldable pub absorb : BTreeMap T TagSet → T → TagSet → BTreeMap T TagSet
  unfolding put
  absorb m elem other_tags =
      BTreeMap.insert m elem (BTreeMap.for_each put (get_or (BTreeMap.get m elem) []) other_tags)

  unfoldable pub merge : OrSet T → OrSet T → OrSet T
  merge s other = record {
    elems = BTreeMap.for_each absorb s.elems other.elems;
    seq_counters = BTreeMap.for_each raise s.seq_counters other.seq_counters;
  }
