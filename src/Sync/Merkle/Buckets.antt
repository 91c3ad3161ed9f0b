-- ===== src/Sync/Merkle/Buckets.antt =====
-- Which items a node of a `MerkleDigest`, sync.rs, stands for.
use mathlib.Core.List.{append-nil, append_assoc}
use mnemo.Base.{
  ℕ, ◌+◌, ◌≡◌, refl, sym, ◌∙◌, Bool, true, false, ◌||◌, Option, none, some, arith, List, [], ◌∷◌,
  ◌++◌, get_or, is_some, length, if◌then◌else◌,
}
use mnemo.Base.Order.{Text, text_ord, eqb}
use mnemo.BTreeMap.{BTreeMap}
use mnemo.BTreeMap
use mnemo.BTreeMap.Lookup.{get-insert}
use mnemo.Sync.Merkle.{
  MerkleNode, DeltaResourceType, bucket_key, concat, Bucket, add_to_bucket, fill, summary,
  from_items,
}

-- The hashes of the items whose key starts with the character `p`, in their order.
abbrev pub hashes_under : Text → List (Text × Text) → List Text
hashes_under p [] = []
hashes_under p ((key, hash) ∷ items) =
    if eqb p (bucket_key key) then hash ∷ hashes_under p items else hashes_under p items

abbrev pub bucket_at : BTreeMap Text Bucket → Text → Bucket
bucket_at m p = get_or (BTreeMap.get m p) ([], 0)

bucket_at-add :
    (m : BTreeMap Text Bucket) (key hash p : Text)
    → bucket_at (add_to_bucket m (key, hash)) p ≡ (
        if eqb p (bucket_key key)
        then ((bucket_at m p).0 ++ hash ∷ [], (bucket_at m p).1 + 1)
        else bucket_at m p)
unfolding add_to_bucket
bucket_at-add m key hash p = ground (
  arith,
  text_ord.eq_of_cmp p (bucket_key key),
  get-insert m (bucket_key key)
      ((bucket_at m (bucket_key key)).0 ++ hash ∷ [], (bucket_at m (bucket_key key)).1 + 1) p,
)

is_some-add :
    (m : BTreeMap Text Bucket) (key hash p : Text)
    → is_some (BTreeMap.get (add_to_bucket m (key, hash)) p)
      ≡ (eqb p (bucket_key key) || is_some (BTreeMap.get m p))
unfolding add_to_bucket
is_some-add m key hash p = ground (
  arith,
  get-insert m (bucket_key key)
      ((bucket_at m (bucket_key key)).0 ++ hash ∷ [], (bucket_at m (bucket_key key)).1 + 1) p,
)

-- The bucket of `p` gathers the hashes under `p`.
fill_bucket :
    (m : BTreeMap Text Bucket) (items : List (Text × Text)) (p : Text)
    → ((bucket_at (fill m items) p).0 ≡ (bucket_at m p).0 ++ hashes_under p items)
      × ((bucket_at (fill m items) p).1 ≡ (bucket_at m p).1 + length (hashes_under p items))
unfolding fill
fill_bucket m [] p = (sym (append-nil _), omega arith)
fill_bucket m ((key, hash) ∷ items) p =
    let (hashes, count) = fill_bucket (add_to_bucket m (key, hash)) items p in
    ground (
      arith,
      hashes,
      count,
      bucket_at-add m key hash p,
      append_assoc (bucket_at m p).0 (hash ∷ []) (hashes_under p items),
    )

abbrev is_nonempty : List Text → Bool
is_nonempty [] = false
is_nonempty (_ ∷ _) = true

fill_some :
    (m : BTreeMap Text Bucket) (items : List (Text × Text)) (p : Text)
    → is_some (BTreeMap.get (fill m items) p)
      ≡ (is_some (BTreeMap.get m p) || is_nonempty (hashes_under p items))
unfolding fill
fill_some m [] p = ground arith
fill_some m ((key, hash) ∷ items) p =
    ground (arith, fill_some (add_to_bucket m (key, hash)) items p, is_some-add m key hash p)

-- The node of a digest for the prefix `p`.
abbrev pub node_at : List MerkleNode → Text → Option MerkleNode
node_at [] p = none
node_at (n ∷ nodes) p = if eqb p n.prefix then some n else node_at nodes p

module _ (sha256_hex : Text → Text) where
  -- The node that stands for the hashes `hs` under `p`.
  abbrev pub node_of : Text → List Text → Option MerkleNode
  node_of p [] = none
  node_of p (h ∷ hs) =
      some (record { hash = sha256_hex (concat (h ∷ hs)); prefix = p; count = length (h ∷ hs) })

  node_at-summary :
      (m : BTreeMap Text Bucket) (p : Text)
      → node_at (summary sha256_hex m) p ≡ elim (BTreeMap.get m p) [
        | none ↦ none
        | some b ↦ some (record { hash = sha256_hex (concat b.0); prefix = p; count = b.1 })
      ]
  unfolding summary BTreeMap.get
  node_at-summary [] p = refl
  node_at-summary ((q, (hashes, count)) ∷ m) p =
      ground (arith, node_at-summary m p, text_ord.eq_of_cmp p q)

  -- A digest has one node for each first character of a key; the node counts the items whose keys
  -- start with it and hashes their hashes, in the order of the items.
  pub node_at-from_items :
      (now : ℕ) (resource_type : DeltaResourceType) (user_id : Option ℕ)
      (items : List (Text × Text)) (p : Text)
      → node_at (from_items sha256_hex now resource_type user_id items).nodes p
        ≡ node_of p (hashes_under p items)
  unfolding from_items BTreeMap.get
  node_at-from_items now resource_type user_id [] p = refl
  node_at-from_items now resource_type user_id (item ∷ items) p =
      node_at-summary (fill [] (item ∷ items)) p
      ∙ filled (BTreeMap.get (fill [] (item ∷ items)) p) (hashes_under p (item ∷ items))
          (fill_bucket [] (item ∷ items) p).0 (fill_bucket [] (item ∷ items) p).1
          (fill_some [] (item ∷ items) p)
    where
      filled :
          (b : Option Bucket) (hs : List Text)
          → (get_or b ([], 0)).0 ≡ hs
          → (get_or b ([], 0)).1 ≡ 0 + length hs
          → is_some b ≡ is_nonempty hs
          → (elim b [
            | none ↦ none
            | some c ↦ some (record { hash = sha256_hex (concat c.0); prefix = p; count = c.1 })
          ])
            ≡ node_of p hs
      filled none [] e f g = refl
      filled none (h ∷ hs) e f g = cc
      filled (some c) [] e f g = cc
      filled (some c) (h ∷ hs) e f g = ground arith
