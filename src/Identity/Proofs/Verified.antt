-- ===== src/Identity/Proofs/Verified.antt =====
-- What `verify_identity_update_proof` accepts, agent.rs.
use mathlib.Core.List.{Memᴰ}
use mnemo.Base.{
  ◌≡◌, ◌⊎◌, refl, sym, ap, subst, ◌∙◌, Bool, true, false, Option, none, some, List, [], ◌∷◌, ◌++◌,
  All, all, map, arith, Bool-cases, Option-cases, inl, inr, if◌then◌else◌,
}
use mnemo.Base.Order.{Text, codes, text_ord, eqb}
use mnemo.Identity.Merkle.{
  Hashing, IsHashing, AllowlistMembershipProof, identity_allowlist, from_allowlist, verify,
}
use mnemo.Identity.{Collision}
use mnemo.Identity.Merkle.Sound.{verify_sound}
use mnemo.Identity.Proofs.{
  identity_forbidden_substrings, Value, Fields, IdentityUpdateProof, KeyVerificationResult, keys_of,
  find_proof, check_key, check_extra, scan_result, conclude, verify_core,
  verify_identity_update_proof, check_forbidden_substrings,
}
use mnemo.Identity.Proofs.Scan.{IsClean, check-IsClean}

all-append :
    (p : KeyVerificationResult → Bool) (xs ys : List KeyVerificationResult)
    → all p (xs ++ ys) ≡ (if all p xs then all p ys else false)
all-append p [] ys = refl
all-append p (x ∷ xs) ys = ground (arith, all-append p xs ys)

abbrev pub all_valid : List KeyVerificationResult → Bool
all_valid = all (λ r. r.valid)

-- All results of three lists are valid, exactly if those of each are.
pub all_three :
    (xs ys zs : List KeyVerificationResult)
    → all_valid (xs ++ ys ++ zs)
      ≡ (if all_valid xs then (if all_valid ys then all_valid zs else false) else false)
all_three xs ys zs =
    ground (arith, all-append (λ r. r.valid) (xs ++ ys) zs, all-append (λ r. r.valid) xs ys)

scan_result-none : (found : Option Text) → all_valid (scan_result found) ≡ true → found ≡ none
unfolding scan_result
scan_result-none none e = refl
scan_result-none (some path) e = absurd (ground arith)

find_proof-key :
    (key : Text) (proofs : List AllowlistMembershipProof) (p : AllowlistMembershipProof)
    → find_proof key proofs ≡ some p
    → p.key ≡ key
unfolding find_proof
find_proof-key key [] p e = absurd (ground arith)
find_proof-key key (q ∷ proofs) p e = elim (Bool-cases (eqb q.key key)) [
  | inl found ↦
      let same : q ≡ p = ground arith in
      ap (λ r. r.key) (sym same) ∙ text_ord.eq_of_cmp q.key key (ground arith)
  | inr other ↦ find_proof-key key proofs p (ground arith)
]

module _ (h : Hashing) (laws : IsHashing h) where
  abbrev pub IsListed : Text → Type 0
  IsListed key = Memᴰ key identity_allowlist ⊎ Collision h.sha256

  check_key-IsListed :
      (proofs : List AllowlistMembershipProof) (key : Text)
      → (check_key h (from_allowlist h).root proofs key).valid ≡ true
      → IsListed key
  unfolding check_key verify from_allowlist
  check_key-IsListed proofs key e = elim (Option-cases (find_proof key proofs)) [
    | inl p ↦ absurd (ground arith)
    | inr (kp, p) ↦ elim (verify_sound h laws identity_allowlist kp (omega arith) (ground arith)) [
      | inl m ↦ inl (subst (λ k. Memᴰ k identity_allowlist) (find_proof-key key proofs kp p) m)
      | inr collision ↦ inr collision
    ]
  ]

  keys-IsListed :
      (proofs : List AllowlistMembershipProof) (keys : List Text)
      → all_valid (map (check_key h (from_allowlist h).root proofs) keys) ≡ true
      → All IsListed keys
  keys-IsListed proofs [] e = tt
  keys-IsListed proofs (k ∷ keys) e =
      elim (Bool-cases (check_key h (from_allowlist h).root proofs k).valid) [
        | inl p ↦ (check_key-IsListed proofs k p, keys-IsListed proofs keys (ground arith))
        | inr p ↦ absurd (ground arith)
      ]

  fields_sound :
      (fields : Fields) (proof : IdentityUpdateProof)
      → (verify_core h (from_allowlist h).root (Value.object fields) proof).verified ≡ true
      → All IsListed (keys_of fields) × IsClean identity_forbidden_substrings (Value.object fields)
  unfolding verify_core conclude
  fields_sound fields proof e =
      let results = map (check_key h (from_allowlist h).root proof.key_proofs) (keys_of fields) in
      let extra = check_extra (keys_of fields) proof.key_proofs in
      let scan =
        check_forbidden_substrings identity_forbidden_substrings (Value.object fields)
          (codes "core/") in
      let three = all_three results extra (scan_result scan) in
      (
        keys-IsListed proof.key_proofs (keys_of fields) (ground (arith, three)),
        check-IsClean identity_forbidden_substrings (Value.object fields) (codes "core/")
            (scan_result-none scan (ground (arith, three))),
      )

  core_sound :
      (core : Value) (proof : IdentityUpdateProof)
      → (verify_core h (from_allowlist h).root core proof).verified ≡ true
      → (fields : Fields) × (core ≡ Value.object fields)
        × All IsListed (keys_of fields)
        × IsClean identity_forbidden_substrings core
  unfolding verify_core
  core_sound (Value.object fields) proof e =
      let (listed, clean) = fields_sound fields proof e in (fields, refl, listed, clean)
  core_sound (Value.array items) proof e = absurd (ground arith)
  core_sound Value.null proof e = absurd (ground arith)
  core_sound (Value.bool b) proof e = absurd (ground arith)
  core_sound (Value.number n) proof e = absurd (ground arith)
  core_sound (Value.string s) proof e = absurd (ground arith)

  -- If the verification accepts an update, the core is an object, each of its keys is on the
  -- allowlist, or there are two texts with one SHA-256 digest, and no key at any depth holds a
  -- forbidden substring.
  pub accepted_update_sound :
      (core : Value) (proof : IdentityUpdateProof)
      → (verify_identity_update_proof h core proof).verified ≡ true
      → (fields : Fields) × (core ≡ Value.object fields)
        × All IsListed (keys_of fields)
        × IsClean identity_forbidden_substrings core
  unfolding verify_identity_update_proof
  accepted_update_sound core proof e =
      elim (Bool-cases (eqb proof.merkle_root (from_allowlist h).root)) [
        | inl p ↦ core_sound core proof (ground arith)
        | inr p ↦ absurd (ground arith)
      ]
