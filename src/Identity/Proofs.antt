-- ===== src/Identity/Proofs.antt =====
-- `verify_identity_update_proof` and its scan of the keys, crates/mnemo-core/src/models/agent.rs.
pub mod Scan
pub mod Verified
pub mod Honest
use mnemo.Base.{
  ℕ, zero, suc, ◌+◌, ◌/◌, ◌%◌, ◌≡◌, Bool, true, false, not, if◌then◌else◌, ltb, Option, none, some,
  List, [], ◌∷◌, ◌++◌, map, all, any, length, take,
}
use mnemo.Base.Order.{Text, codes, text_ord, eqb}
use mnemo.Base.Ascii.{to_lowercase, decimal, contains}
use mnemo.Identity.Merkle.{
  Hashing, AllowlistMembershipProof, AllowlistMerkleTree, from_allowlist, verify_against_root,
}

-- `serde_json::Value`, with the text of a number; the fields are in the order of the map.
mutual
  pub data Value : Type 0 where
    null : Value
    bool : Bool → Value
    number : Text → Value
    string : Text → Value
    array : Items → Value
    object : Fields → Value

  pub data Items : Type 0 where
    no_items : Items
    item : Value → Items → Items

  pub data Fields : Type 0 where
    no_fields : Fields
    field : Text → Value → Fields → Fields

abbrev pub identity_forbidden_substrings : List Text
identity_forbidden_substrings =
    codes "address"
    ∷ codes "email"
    ∷ codes "episode"
    ∷ codes "external_id"
    ∷ codes "phone"
    ∷ codes "session"
    ∷ codes "user"
    ∷ []

-- The scan is written twice in the source, with two orders of the tokens.
module _ (tokens : List Text) where
  unfoldable pub is_forbidden : Text → Bool
  is_forbidden key = any (contains (to_lowercase key)) tokens

  -- The first forbidden key, with its path: `some` is the `Err` of the source.
  unfoldable mutual
    pub check_forbidden_substrings : Value → Text → Option Text
    check_forbidden_substrings (Value.array items) path = check_items items 0 path
    check_forbidden_substrings (Value.object fields) path = check_fields fields path
    check_forbidden_substrings _ path = none

    pub check_items : Items → ℕ → Text → Option Text
    check_items Items.no_items idx path = none
    check_items (Items.item v items) idx path =
        elim (check_forbidden_substrings v (path ++ codes "[" ++ decimal idx ++ codes "]/")) [
          | some found ↦ some found
          | none ↦ check_items items (idx + 1) path
        ]

    pub check_fields : Fields → Text → Option Text
    check_fields Fields.no_fields path = none
    check_fields (Fields.field k v fields) path = elim (is_forbidden k) [
      | true ↦ some (path ++ k)
      | false ↦ elim (check_forbidden_substrings v (path ++ k ++ codes "/")) [
        | some found ↦ some found
        | none ↦ check_fields fields path
      ]
    ]

pub record KeyVerificationResult : Type 0 where
  pub key : Text
  pub valid : Bool
  pub error : Option Text

pub record ProofVerificationResult : Type 0 where
  pub verified : Bool
  pub key_results : List KeyVerificationResult
  pub merkle_root : Text

pub record IdentityUpdateProof : Type 0 where
  pub merkle_root : Text
  pub key_proofs : List AllowlistMembershipProof

unfoldable pub keys_of : Fields → List Text
keys_of Fields.no_fields = []
keys_of (Fields.field k v fields) = k ∷ keys_of fields

-- `Iterator::find` of the proof for a key.
unfoldable pub find_proof : Text → List AllowlistMembershipProof → Option AllowlistMembershipProof
find_proof key [] = none
find_proof key (p ∷ proofs) = elim (eqb p.key key) [ true ↦ some p | false ↦ find_proof key proofs ]

abbrev pub failed : Text → Text → KeyVerificationResult
failed key error = record { key = key; valid = false; error = some error }

abbrev pub passed : Text → KeyVerificationResult
passed key = record { key = key; valid = true; error = none }

module _ (h : Hashing) (canonical_root : Text) where
  unfoldable pub check_key : List AllowlistMembershipProof → Text → KeyVerificationResult
  check_key proofs key = elim (find_proof key proofs) [
    | none ↦ failed key (codes "no proof provided for this key")
    | some kp ↦
        if verify_against_root h canonical_root kp
        then passed key
        else failed key (codes "Merkle proof verification failed")
  ]

-- The results for proofs of keys that the core does not have.
unfoldable pub check_extra : List Text → List AllowlistMembershipProof → List KeyVerificationResult
check_extra core_keys [] = []
check_extra core_keys (kp ∷ proofs) = elim (any (λ k. eqb k kp.key) core_keys) [
  | true ↦ check_extra core_keys proofs
  | false ↦
      failed kp.key (codes "proof provided for key not present in core")
      ∷ check_extra core_keys proofs
]

unfoldable pub scan_result : Option Text → List KeyVerificationResult
scan_result none = []
scan_result (some path) = failed path (codes "forbidden substring detected at " ++ path) ∷ []

unfoldable pub conclude : Text → List KeyVerificationResult → ProofVerificationResult
conclude root results = record {
  verified = all (λ r. r.valid) results;
  key_results = results;
  merkle_root = root;
}

-- The checks once the root matches.
unfoldable pub verify_core : Hashing → Text → Value → IdentityUpdateProof → ProofVerificationResult
verify_core h root (Value.object fields) proof =
    let core_keys = keys_of fields in
    conclude root (
      map (check_key h root proof.key_proofs) core_keys
      ++ check_extra core_keys proof.key_proofs
      ++ scan_result (
          check_forbidden_substrings identity_forbidden_substrings (Value.object fields)
            (codes "core/")))
verify_core h root _ proof = record {
  verified = false;
  key_results = failed (codes "<core>") (codes "core must be a JSON object") ∷ [];
  merkle_root = root;
}

unfoldable pub verify_identity_update_proof :
    Hashing → Value → IdentityUpdateProof → ProofVerificationResult
verify_identity_update_proof h core proof =
    let root = (from_allowlist h).root in
    if not (eqb proof.merkle_root root)
    then record {
      verified = false;
      key_results =
          failed (codes "<merkle_root>") (
            codes "proof merkle_root "
            ++ proof.merkle_root
            ++ codes " does not match canonical root "
            ++ root)
          ∷ [];
      merkle_root = root;
    }
    else verify_core h root core proof
