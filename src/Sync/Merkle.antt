-- ===== src/Sync/Merkle.antt =====
-- `DeltaResourceType`, `MerkleNode` and `MerkleDigest` of sync.rs. SHA-256 in hexadecimal is the
-- parameter `sha256_hex`, of the bytes that the hasher was fed; the time `Utc::now()` is an
-- argument. A count of items in memory does not reach 2 ^ 64.
pub mod Buckets
pub mod Diff
use mnemo.Base.{
  ℕ, ◌+◌, ◌≡◌, Bool, true, false, not, if◌then◌else◌, ltb, Option, none, some, [], ◌∷◌, ◌++◌, List,
  map, get_or, length, take,
}
use mnemo.Base.Order.{Ord, Text, codes, text_ord, eqb, ltk}
use mnemo.BTreeMap.{BTreeMap}
use mnemo.BTreeMap

pub data DeltaResourceType : Type 0 where
  entity edge episode user session agent_identity : DeltaResourceType

pub record MerkleNode : Type 0 where
  pub hash : Text
  pub prefix : Text
  pub count : ℕ

pub record MerkleDigest : Type 0 where
  pub resource_type : DeltaResourceType
  pub user_id : Option ℕ
  pub root_hash : Text
  pub total_items : ℕ
  pub computed_at : ℕ
  pub nodes : List MerkleNode

-- The number of bytes of the UTF-8 character that starts with this byte.
abbrev pub char_width : ℕ → ℕ
char_width b = if ltb b 0x80 then 1 else if ltb b 0xe0 then 2 else if ltb b 0xf0 then 3 else 4

-- The first character of a key as a text, or "?".
unfoldable pub bucket_key : Text → Text
bucket_key [] = codes "?"
bucket_key (b ∷ key) = take (char_width b) (b ∷ key)

-- Feeding the hasher one hash after another feeds it their concatenation.
unfoldable pub concat : List Text → Text
concat [] = []
concat (t ∷ ts) = t ++ concat ts

abbrev pub Bucket : Type 0
Bucket = List Text × ℕ

-- One round of the bucketing loop.
unfoldable pub add_to_bucket : BTreeMap Text Bucket → Text × Text → BTreeMap Text Bucket
unfolding bucket_key
add_to_bucket m (key, hash) =
    let (hashes, count) = get_or (BTreeMap.get m (bucket_key key)) ([], 0) in
    BTreeMap.insert m (bucket_key key) (hashes ++ hash ∷ [], count + 1)

unfoldable pub fill : BTreeMap Text Bucket → List (Text × Text) → BTreeMap Text Bucket
fill m [] = m
fill m (item ∷ items) = fill (add_to_bucket m item) items

module _ (sha256_hex : Text → Text) where
  unfoldable pub summary : BTreeMap Text Bucket → List MerkleNode
  unfolding concat
  summary [] = []
  summary ((prefix, (hashes, count)) ∷ m) =
      record { hash = sha256_hex (concat hashes); prefix = prefix; count = count } ∷ summary m

  -- `from_items`: the items are pairs of a key and a hash.
  unfoldable pub from_items : ℕ → DeltaResourceType → Option ℕ → List (Text × Text) → MerkleDigest
  unfolding summary fill add_to_bucket
  from_items now resource_type user_id [] = record {
    resource_type = resource_type;
    user_id = user_id;
    root_hash = sha256_hex (codes "empty");
    total_items = 0;
    computed_at = now;
    nodes = [];
  }
  from_items now resource_type user_id (item ∷ items) = record {
    resource_type = resource_type;
    user_id = user_id;
    root_hash = sha256_hex (concat (map (λ i. i.1) (item ∷ items)));
    total_items = length (item ∷ items);
    computed_at = now;
    nodes = summary (fill [] (item ∷ items));
  }

-- `collect` into a map from prefixes to hashes: a later node replaces an earlier one.
unfoldable pub node_hashes : BTreeMap Text Text → List MerkleNode → BTreeMap Text Text
node_hashes m [] = m
node_hashes m (n ∷ nodes) = node_hashes (BTreeMap.insert m n.prefix n.hash) nodes

-- The keys of a map, inserted into a set.
unfoldable pub add_keys : BTreeMap Text (Unit {0}) → BTreeMap Text Text → BTreeMap Text (Unit {0})
add_keys s [] = s
add_keys s ((k, v) ∷ m) = add_keys (BTreeMap.insert s k tt) m

-- `my_hash != other_hash`, on the two optional hashes.
unfoldable pub hashes_differ : Option Text → Option Text → Bool
hashes_differ none none = false
hashes_differ none (some b) = true
hashes_differ (some a) none = true
hashes_differ (some a) (some b) = not (eqb a b)

-- The loop over all prefixes; the source visits them in no fixed order and then sorts.
unfoldable pub differing :
    BTreeMap Text Text → BTreeMap Text Text → BTreeMap Text (Unit {0}) → List Text
unfolding hashes_differ
differing mine other [] = []
differing mine other ((p, u) ∷ prefixes) =
    let rest = differing mine other prefixes in
    if hashes_differ (BTreeMap.get mine p) (BTreeMap.get other p) then p ∷ rest else rest

-- `sort`, by insertion.
unfoldable pub insert_sorted : Text → List Text → List Text
insert_sorted p [] = p ∷ []
insert_sorted p (q ∷ ps) = if ltk q p then q ∷ insert_sorted p ps else p ∷ q ∷ ps

unfoldable pub sort : List Text → List Text
unfolding insert_sorted
sort [] = []
sort (p ∷ ps) = insert_sorted p (sort ps)

unfoldable pub diff_prefixes : MerkleDigest → MerkleDigest → List Text
unfolding node_hashes add_keys differing sort
diff_prefixes a b =
    if eqb a.root_hash b.root_hash
    then []
    else (let mine = node_hashes [] a.nodes in
        let other = node_hashes [] b.nodes in
        sort (differing mine other (add_keys (add_keys [] mine) other)))
