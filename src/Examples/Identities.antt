-- ===== src/Examples/Identities.antt =====
-- Identities, their proofs, logs and proposals at concrete inputs.
use mathlib.Core.List.{Memᴰ}
use mnemo.Base.{◌≡◌, ◌⊎◌, refl, true, some, List, [], ◌∷◌, All, length, arith, ◌%◌}
use mnemo.Base.Order.{Text, codes, text_ord, cmp_text, nat_ord}
use mnemo.Base.Ascii.{contains}
use mnemo.Identity.{Collision}
use mnemo.Identity.Merkle.{
  Hashing, IsHashing, AllowlistMembershipProof, from_keys, from_allowlist, prove, verify, zeros,
}
use mnemo.Sync.Merkle.{sort, insert_sorted}
use mnemo.Identity.Merkle.{
  right, left, verify_against_root, climb, climb_one, node_hash, leaf_hash, top_hash, build_layers,
  pad, pair_up,
}
use mnemo.Identity.Proofs.{
  Value, Fields, IdentityUpdateProof, verify_core, conclude, check_key, find_proof, check_extra,
  scan_result, check_forbidden_substrings, keys_of, is_forbidden, identity_forbidden_substrings,
  verify_identity_update_proof,
}
use mnemo.Identity.Proofs.Scan.{IsClean}
use mnemo.Identity.Proofs.Verified.{IsListed, accepted_update_sound}
use mnemo.Identity.Proofs.Honest.{IsProvable, prove_each, honest_update_accepted}
use mnemo.Identity.Merkle.Sound.{verify_sound}
use mnemo.Identity.Merkle.RoundTrip.{prove_verifies}

-- Digests that are one byte, the number of the bytes of the text modulo 100, and zeros after it.
abbrev hashing : Hashing
hashing = record {
  sha256 = λ bytes. length bytes % 100 ∷ zeros 31;
  hex_encode = λ bytes. bytes;
  hex_decode = λ digits. some digits;
}

hashing-IsHashing : IsHashing hashing
hashing-IsHashing = record { digest_length = λ bytes. refl; decode-encode = λ bytes l. refl }

abbrev three_keys : List Text
three_keys = codes "b" ∷ codes "a" ∷ codes "cd" ∷ []

prove_verifies_example :
    (proof : AllowlistMembershipProof) × (prove hashing (from_keys hashing three_keys) (codes "cd")
      ≡ some proof)
    × (proof.key ≡ codes "cd")
    × (verify hashing (from_keys hashing three_keys) proof ≡ true)
prove_verifies_example =
    prove_verifies hashing three_keys (codes "cd") hashing-IsHashing
      (Memᴰ.tail (Memᴰ.tail (Memᴰ.head refl)))

-- The path of the third leaf: the doubled leaf, and the first two.
abbrev cd_proof : AllowlistMembershipProof
cd_proof = record {
  key = codes "cd";
  leaf_index = 2;
  siblings =
      record { hash = 7 ∷ zeros 31; position = right }
      ∷ record { hash = 69 ∷ zeros 31; position = left }
      ∷ [];
  root = 69 ∷ zeros 31;
}

cd_verified : verify hashing (from_keys hashing three_keys) cd_proof ≡ true
unfolding verify verify_against_root climb climb_one text_ord cmp_text node_hash leaf_hash from_keys
    top_hash build_layers pad sort insert_sorted pair_up
cd_verified = refl

verify_sound_example : Memᴰ (codes "cd") three_keys ⊎ Collision hashing.sha256
verify_sound_example =
    verify_sound hashing hashing-IsHashing three_keys cd_proof (omega arith) cd_verified

abbrev style_fields : Fields
style_fields = Fields.field (codes "style") (Value.string (codes "calm")) Fields.no_fields

abbrev style_proof : IdentityUpdateProof
style_proof = record {
  merkle_root = 69 ∷ zeros 31;
  key_proofs =
      record {
        key = codes "style";
        leaf_index = 4;
        siblings =
            record { hash = 11 ∷ zeros 31; position = right }
            ∷ record { hash = 69 ∷ zeros 31; position = right }
            ∷ record { hash = 69 ∷ zeros 31; position = left }
            ∷ [];
        root = 69 ∷ zeros 31;
      }
      ∷ [];
}

style_verified :
    (verify_identity_update_proof hashing (Value.object style_fields) style_proof).verified ≡ true
unfolding verify_identity_update_proof verify_core conclude keys_of check_key find_proof check_extra
    scan_result check_forbidden_substrings is_forbidden contains from_allowlist verify_against_root
    climb climb_one text_ord cmp_text node_hash leaf_hash from_keys top_hash build_layers pad sort
    insert_sorted pair_up
style_verified = refl

accepted_update_sound_example :
    (fields : Fields) × (Value.object style_fields ≡ Value.object fields)
    × All (IsListed hashing hashing-IsHashing) (keys_of fields)
    × IsClean identity_forbidden_substrings (Value.object style_fields)
accepted_update_sound_example =
    accepted_update_sound hashing hashing-IsHashing (Value.object style_fields) style_proof
      style_verified

style-IsClean : IsClean identity_forbidden_substrings (Value.object style_fields)
unfolding is_forbidden contains text_ord cmp_text
style-IsClean = (refl, tt, tt)

style_listed : All (IsProvable hashing hashing-IsHashing) (keys_of style_fields)
unfolding keys_of
style_listed = (Memᴰ.tail (Memᴰ.tail (Memᴰ.tail (Memᴰ.tail (Memᴰ.head refl)))), tt)

honest_update_accepted_example :
    (verify_identity_update_proof hashing (Value.object style_fields) (record {
      merkle_root = (from_allowlist hashing).root;
      key_proofs = prove_each hashing (keys_of style_fields);
    })).verified
    ≡ true
honest_update_accepted_example =
    honest_update_accepted hashing hashing-IsHashing style_fields style_listed style-IsClean
