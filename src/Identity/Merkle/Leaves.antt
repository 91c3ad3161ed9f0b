-- ===== src/Identity/Merkle/Leaves.antt =====
-- The sorted leaves of `AllowlistMerkleTree::from_keys`, agent.rs.
use mathlib.Core.List.{Memᴰ}
use mnemo.Base.{
  ℕ, suc, ◌≡◌, refl, sym, subst, false, some, List, [], ◌∷◌, All, length, arith, Bool-cases, inl,
  inr,
}
use mnemo.Base.Order.{Text, text_ord, eqb, ltk}
use mnemo.Sync.Merkle.{insert_sorted, sort}
use mnemo.Identity.Merkle.{position, get_elem?}

insert_sorted-All :
    (P : Text → Type 0) (k : Text) (keys : List Text)
    → P k
    → All P keys
    → All P (insert_sorted k keys)
unfolding insert_sorted
insert_sorted-All P k [] p a = (p, tt)
insert_sorted-All P k (j ∷ keys) p a = ground (arith, insert_sorted-All P k keys)

pub sort-All : (P : Text → Type 0) (keys : List Text) → All P keys → All P (sort keys)
unfolding sort
sort-All P [] a = tt
sort-All P (k ∷ keys) a = insert_sorted-All P k (sort keys) a.0 (sort-All P keys a.1)

length-insert_sorted :
    (k : Text) (keys : List Text) → length (insert_sorted k keys) ≡ suc (length keys)
unfolding insert_sorted
length-insert_sorted k [] = refl
length-insert_sorted k (j ∷ keys) = ground (arith, length-insert_sorted k keys)

pub length-sort : (keys : List Text) → length (sort keys) ≡ length keys
unfolding sort
length-sort [] = refl
length-sort (k ∷ keys) = ground (arith, length-sort keys, length-insert_sorted k (sort keys))

insert_sorted-here : (k : Text) (keys : List Text) → Memᴰ k (insert_sorted k keys)
unfolding insert_sorted
insert_sorted-here k [] = Memᴰ.head refl
insert_sorted-here k (j ∷ keys) = elim (Bool-cases (ltk j k)) [
  | inl p ↦ rw (p, insert_sorted) (Memᴰ.tail (insert_sorted-here k keys))
  | inr p ↦ rw (p, insert_sorted) (Memᴰ.head refl)
]

insert_sorted-there : (k x : Text) (keys : List Text) → Memᴰ x keys → Memᴰ x (insert_sorted k keys)
unfolding insert_sorted
insert_sorted-there k x [] m = elim m [ ]
insert_sorted-there k x (j ∷ keys) (Memᴰ.head e) = elim (Bool-cases (ltk j k)) [
  | inl p ↦ rw (p, insert_sorted) (Memᴰ.head e)
  | inr p ↦ rw (p, insert_sorted) (Memᴰ.tail (Memᴰ.head e))
]
insert_sorted-there k x (j ∷ keys) (Memᴰ.tail m) = elim (Bool-cases (ltk j k)) [
  | inl p ↦ rw (p, insert_sorted) (Memᴰ.tail (insert_sorted-there k x keys m))
  | inr p ↦ rw (p, insert_sorted) (Memᴰ.tail (Memᴰ.tail m))
]

pub sort-mem : (x : Text) (keys : List Text) → Memᴰ x keys → Memᴰ x (sort keys)
unfolding sort
sort-mem x [] m = elim m [ ]
sort-mem x (k ∷ keys) (Memᴰ.head e) =
    subst (λ y. Memᴰ y (insert_sorted k (sort keys))) (sym e) (insert_sorted-here k (sort keys))
sort-mem x (k ∷ keys) (Memᴰ.tail m) = insert_sorted-there k x (sort keys) (sort-mem x keys m)

-- A key among the leaves has a position, and stands there.
pub position-mem :
    (key : Text) (keys : List Text)
    → Memᴰ key keys
    → (i : ℕ) × (position key keys ≡ some i) × (get_elem? keys i ≡ some key)
unfolding position
position-mem key [] m = elim m [ ]
position-mem key (k ∷ keys) m = elim (Bool-cases (eqb k key)) [
  | inl p ↦ (0, ground arith, ground (arith, text_ord.eq_of_cmp k key))
  | inr p ↦
      let (i, at, here) = position-mem key keys (deeper m p) in (suc i, ground arith, ground arith)
]
  where
    deeper : Memᴰ key (k ∷ keys) → eqb k key ≡ false → Memᴰ key keys
    deeper (Memᴰ.head e) p = absurd (ground (arith, sym e, text_ord.cmp_refl k))
    deeper (Memᴰ.tail n) p = n
