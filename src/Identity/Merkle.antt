-- ===== src/Identity/Merkle.antt =====
-- `AllowlistMerkleTree` and its membership proofs, crates/mnemo-core/src/models/agent.rs. SHA-256
-- and the hex crate are parameters.
pub mod Sound
pub mod Leaves
pub mod RoundTrip
use mnemo.Base.{
  ℕ, zero, suc, ◌+◌, ◌-◌, ◌/◌, ◌%◌, ◌≡◌, Bool, true, false, if◌then◌else◌, ltb, ◌==◌, Option, none,
  some, get_or, List, [], ◌∷◌, ◌++◌, map, length,
}
use mnemo.Base.Order.{Text, codes, text_ord, eqb}
use mnemo.Sync.Merkle.{sort}

-- What the code uses of the crates sha2 and hex; `none` is a decoding error.
pub record Hashing : Type 0 where
  pub sha256 : Text → Text
  pub hex_encode : Text → Text
  pub hex_decode : Text → Option Text

-- A digest has 32 bytes, and the digits of 32 bytes decode to them.
pub record IsHashing (h : Hashing) : Type 0 where
  pub digest_length : (bytes : Text) → length (h.sha256 bytes) ≡ 32
  pub decode-encode :
      (bytes : Text) → length bytes ≡ 32 → h.hex_decode (h.hex_encode bytes) ≡ some bytes

pub data SiblingPosition : Type 0 where
  left right : SiblingPosition

pub record ProofSibling : Type 0 where
  pub hash : Text
  pub position : SiblingPosition

pub record AllowlistMembershipProof : Type 0 where
  pub key : Text
  pub leaf_index : ℕ
  pub siblings : List ProofSibling
  pub root : Text

pub record AllowlistMerkleTree : Type 0 where
  pub root : Text
  pub leaves : List Text
  pub layers : List (List Text)

abbrev pub identity_allowlist : List Text
identity_allowlist =
    codes "boundaries"
    ∷ codes "capabilities"
    ∷ codes "mission"
    ∷ codes "persona"
    ∷ codes "style"
    ∷ codes "values"
    ∷ []

-- `slice::get`, under the library's name.
abbrev pub get_elem? {ℓ} : {A : Type ℓ} → List A → ℕ → Option A
get_elem? [] i = none
get_elem? (x ∷ xs) zero = some x
get_elem? (x ∷ xs) (suc i) = get_elem? xs i

-- `Iterator::position` of a key.
unfoldable pub position : Text → List Text → Option ℕ
position key [] = none
position key (k ∷ keys) = elim (eqb k key) [
  | true ↦ some 0
  | false ↦ elim (position key keys) [ none ↦ none | some i ↦ some (suc i) ]
]

-- `[0u8; 32]`
abbrev pub zeros : ℕ → Text
zeros zero = []
zeros (suc n) = 0 ∷ zeros n

-- The last leaf is doubled if their number is odd.
unfoldable pub pad : List Text → List Text
pad [] = []
pad (a ∷ []) = a ∷ a ∷ []
pad (a ∷ b ∷ rest) = a ∷ b ∷ pad rest

-- The first hash of the last layer.
unfoldable pub top_hash : List (List Text) → Text
top_hash [] = zeros 32
top_hash (layer ∷ []) = get_or (get_elem? layer 0) (zeros 32)
top_hash (layer ∷ next ∷ layers) = top_hash (next ∷ layers)

module _ (h : Hashing) where
  unfoldable pub leaf_hash : Text → Text
  leaf_hash key = h.sha256 (codes "leaf:" ++ key)

  unfoldable pub node_hash : Text → Text → Text
  node_hash l r = h.sha256 (codes "node:" ++ l ++ r)

  -- The layer above: the chunks of two, a chunk of one with itself.
  unfoldable pub pair_up : List Text → List Text
  pair_up [] = []
  pair_up (a ∷ []) = node_hash a a ∷ []
  pair_up (a ∷ b ∷ rest) = node_hash a b ∷ pair_up rest

  -- The layers from `current` up to the first that has at most one hash.
  unfoldable pub build_layers : ℕ → List Text → List (List Text)
  build_layers zero current = current ∷ []
  build_layers (suc fuel) current = elim (ltb 1 (length current)) [
    | true ↦ current ∷ build_layers fuel (pair_up current)
    | false ↦ current ∷ []
  ]

  unfoldable pub from_keys : List Text → AllowlistMerkleTree
  from_keys keys =
      let leaves = sort keys in
      let leaf_hashes = pad (map leaf_hash leaves) in
      let layers = build_layers (length leaf_hashes) leaf_hashes in
      record { root = h.hex_encode (top_hash layers); leaves = leaves; layers = layers }

  unfoldable pub from_allowlist : AllowlistMerkleTree
  from_allowlist = from_keys identity_allowlist

  -- The sibling of an index in its layer, the hash itself at the end of an odd layer.
  unfoldable pub sibling : List Text → ℕ → ProofSibling
  sibling layer i =
      let own = get_or (get_elem? layer i) (zeros 32) in
      if i % 2 == 0
      then record { hash = h.hex_encode (get_or (get_elem? layer (i + 1)) own); position = right }
      else record { hash = h.hex_encode (get_or (get_elem? layer (i - 1)) own); position = left }

  -- The siblings in all layers but the last.
  unfoldable pub path_of : ℕ → List (List Text) → List ProofSibling
  path_of i [] = []
  path_of i (layer ∷ []) = []
  path_of i (layer ∷ next ∷ layers) = sibling layer i ∷ path_of (i / 2) (next ∷ layers)

  unfoldable pub prove : AllowlistMerkleTree → Text → Option AllowlistMembershipProof
  prove tree key = elim (position key tree.leaves) [
    | none ↦ none
    | some i ↦
        some
          (record { key = key; leaf_index = i; siblings = path_of i tree.layers; root = tree.root })
  ]

  -- One sibling of a proof; `none` if its hash is not 32 bytes in hexadecimal.
  unfoldable pub climb_one : Text → ProofSibling → Option Text
  climb_one current sib = elim (h.hex_decode sib.hash) [
    | none ↦ none
    | some bytes ↦
        if length bytes == 32
        then elim sib.position [
          | right ↦ some (node_hash current bytes)
          | left ↦ some (node_hash bytes current)
        ]
        else none
  ]

  unfoldable pub climb : Text → List ProofSibling → Option Text
  climb current [] = some current
  climb current (sib ∷ siblings) = elim (climb_one current sib) [
    | none ↦ none
    | some next ↦ climb next siblings
  ]

  unfoldable pub verify_against_root : Text → AllowlistMembershipProof → Bool
  verify_against_root root proof = elim (climb (leaf_hash proof.key) proof.siblings) [
    | none ↦ false
    | some current ↦ eqb (h.hex_encode current) root
  ]

  unfoldable pub verify : AllowlistMerkleTree → AllowlistMembershipProof → Bool
  verify tree proof = verify_against_root tree.root proof
