-- ===== src/Identity/Proofs/Honest.antt =====
-- `verify_identity_update_proof` on the proofs that `AllowlistMerkleTree::prove` makes, agent.rs.
use mathlib.Core.List.{Memᴰ}
use mnemo.Base.{
  ◌≡◌, refl, sym, ap, subst, ◌∙◌, true, false, none, some, List, [], ◌∷◌, All, All-imp, All-self,
  any, map, arith, Bool-cases, inl, inr,
}
use mnemo.Base.Order.{Text, codes, text_ord, eqb}
use mnemo.Identity.Merkle.{
  Hashing, IsHashing, AllowlistMembershipProof, identity_allowlist, from_allowlist, prove,
  verify_against_root, verify,
}
use mnemo.Identity.Merkle.RoundTrip.{prove_verifies}
use mnemo.Identity.Proofs.{
  identity_forbidden_substrings, Value, Fields, keys_of, find_proof, check_key, check_extra,
  scan_result, conclude, verify_core, verify_identity_update_proof,
}
use mnemo.Identity.Proofs.Scan.{IsClean, clean_check}
use mnemo.Identity.Proofs.Verified.{all_valid, all_three}

-- The proofs that a client makes for its keys.
abbrev pub prove_each : Hashing → List Text → List AllowlistMembershipProof
prove_each h [] = []
prove_each h (k ∷ keys) = elim (prove h (from_allowlist h) k) [
  | none ↦ prove_each h keys
  | some proof ↦ proof ∷ prove_each h keys
]

check_extra-none :
    (core_keys : List Text) (proofs : List AllowlistMembershipProof)
    → All (λ p. any (λ k. eqb k p.key) core_keys ≡ true) proofs
    → check_extra core_keys proofs ≡ []
unfolding check_extra
check_extra-none core_keys [] a = refl
check_extra-none core_keys (p ∷ proofs) a = ground (arith, check_extra-none core_keys proofs)

any-mem : (key : Text) (keys : List Text) → Memᴰ key keys → any (λ k. eqb k key) keys ≡ true
any-mem key [] m = elim m [ ]
any-mem key (k ∷ keys) (Memᴰ.head e) =
    subst (λ x. any (λ j. eqb j x) (k ∷ keys) ≡ true) (sym e) (ground (arith, text_ord.cmp_refl k))
any-mem key (k ∷ keys) (Memᴰ.tail m) = ground (arith, any-mem key keys m)

text-same : (s : Text) → eqb s s ≡ true
text-same s = ground (arith, text_ord.cmp_refl s)

mem-rest :
    (key k : Text) (keys : List Text) → Memᴰ key (k ∷ keys) → eqb k key ≡ false → Memᴰ key keys
mem-rest key k keys (Memᴰ.head e) q = absurd (ground (arith, sym e, text_ord.cmp_refl k))
mem-rest key k keys (Memᴰ.tail m) q = m

module _ (h : Hashing) (laws : IsHashing h) where
  abbrev pub IsProvable : Text → Type 0
  IsProvable key = Memᴰ key identity_allowlist

  proof_for :
      (key : Text)
      → IsProvable key
      → (p : AllowlistMembershipProof) × (prove h (from_allowlist h) key ≡ some p)
        × (p.key ≡ key)
        × (verify_against_root h (from_allowlist h).root p ≡ true)
  unfolding from_allowlist verify
  proof_for key m = prove_verifies h identity_allowlist key laws m

  prove_each-cons :
      (key : Text) (keys : List Text) (p : AllowlistMembershipProof)
      → prove h (from_allowlist h) key ≡ some p
      → prove_each h (key ∷ keys) ≡ p ∷ prove_each h keys
  prove_each-cons key keys p made = ground (arith, made)

  check_key-found :
      (root key : Text) (p : AllowlistMembershipProof) (proofs : List AllowlistMembershipProof)
      → eqb p.key key ≡ true
      → verify_against_root h root p ≡ true
      → (check_key h root (p ∷ proofs) key).valid ≡ true
  unfolding check_key find_proof
  check_key-found root key p proofs found ok = ground arith

  check_key-skip :
      (root key : Text) (p : AllowlistMembershipProof) (proofs : List AllowlistMembershipProof)
      → eqb p.key key ≡ false
      → check_key h root (p ∷ proofs) key ≡ check_key h root proofs key
  unfolding check_key find_proof
  check_key-skip root key p proofs skipped = ground arith

  check_key-honest :
      (key : Text) (keys : List Text)
      → All IsProvable keys
      → Memᴰ key keys
      → (check_key h (from_allowlist h).root (prove_each h keys) key).valid ≡ true
  check_key-honest key [] a m = elim m [ ]
  check_key-honest key (k ∷ keys) a m =
      let root = (from_allowlist h).root in
      let rest = prove_each h keys in
      let (p, made, same, ok) = proof_for k a.0 in
      subst (λ proofs. (check_key h root proofs key).valid ≡ true)
        (sym (prove_each-cons k keys p made))
        (elim (Bool-cases (eqb k key)) [
          | inl q ↦ check_key-found root key p rest (ap (λ x. eqb x key) same ∙ q) ok
          | inr q ↦
              ap (λ r. r.valid) (check_key-skip root key p rest (ap (λ x. eqb x key) same ∙ q))
              ∙ check_key-honest key keys a.1 (mem-rest key k keys m q)
        ])

  prove_each-known :
      (keys : List Text) → All IsProvable keys → All (λ p. Memᴰ p.key keys) (prove_each h keys)
  prove_each-known [] a = tt
  prove_each-known (k ∷ keys) a =
      let (p, made, same, ok) = proof_for k a.0 in
      rw (made, prove_each)
        (
          Memᴰ.head same,
          All-imp _ _ (λ p m. Memᴰ.tail m) (prove_each h keys) (prove_each-known keys a.1),
        )

  keys-honest :
      (some_keys keys : List Text)
      → All IsProvable keys
      → All (λ k. Memᴰ k keys) some_keys
      → all_valid (map (check_key h (from_allowlist h).root (prove_each h keys)) some_keys) ≡ true
  keys-honest [] keys a m = refl
  keys-honest (k ∷ some_keys) keys a m =
      ground (arith, check_key-honest k keys a m.0, keys-honest some_keys keys a m.1)

  -- With hexadecimal digits that decode, and digests of 32 bytes, an update is accepted if its core
  -- is an object whose keys are on the allowlist, no key at any depth holds a forbidden substring,
  -- and its proof is the canonical root with the proofs that the tree makes for the keys.
  pub honest_update_accepted :
      (fields : Fields)
      → All IsProvable (keys_of fields)
      → IsClean identity_forbidden_substrings (Value.object fields)
      → (verify_identity_update_proof h (Value.object fields) (record {
        merkle_root = (from_allowlist h).root;
        key_proofs = prove_each h (keys_of fields);
      })).verified
        ≡ true
  unfolding verify_identity_update_proof verify_core conclude scan_result
  honest_update_accepted fields a c =
      let keys = keys_of fields in
      let proofs = prove_each h keys in
      let results = map (check_key h (from_allowlist h).root proofs) keys in
      let extra : check_extra keys proofs ≡ [] =
        check_extra-none keys proofs
          (All-imp _ _ (λ p m. any-mem p.key keys m) proofs (prove_each-known keys a)) in
      let valid : all_valid results ≡ true = keys-honest keys keys a (All-self keys) in
      let clean =
        clean_check identity_forbidden_substrings (Value.object fields) (codes "core/") c in
      rw (text-same (from_allowlist h).root)
        (rw extra (rw clean (ground (arith, all_three results [] [], valid))))
