-- ===== src/Identity/Merkle/RoundTrip.antt =====
-- `AllowlistMerkleTree::prove` against `verify`, agent.rs.
use mathlib.Core.List.{Memᴰ}
use mathlib.Core.Option.{some-injective}
use mnemo.Base.{
  ℕ, zero, suc, ◌+◌, ◌-◌, ◌/◌, ◌%◌, ◌≤◌, ◌≡◌, refl, sym, ap, ◌∙◌, true, false, ltb, ◌==◌, some,
  List, [], ◌∷◌, ◌++◌, map, All, length, arith, Bool-cases, inl, inr,
}
use mnemo.Base.Order.{Text, codes, text_ord}
use mnemo.Sync.Merkle.{sort}
use mnemo.Identity.Merkle.{
  Hashing, IsHashing, AllowlistMembershipProof, leaf_hash, node_hash, pair_up, pad, build_layers,
  top_hash, get_elem?, from_keys, sibling, path_of, prove, climb_one, climb, verify_against_root,
  verify,
}
use mnemo.Identity.Merkle.Sound.{top_hash-cons}
use mnemo.Identity.Merkle.Leaves.{sort-mem, position-mem}

abbrev IsDigest : Text → Type 0
IsDigest x = length x ≡ 32

get_elem?-map :
    (f : Text → Text) (xs : List Text) (i : ℕ) (x : Text)
    → get_elem? xs i ≡ some x
    → get_elem? (map f xs) i ≡ some (f x)
get_elem?-map f [] i x e = absurd (ground arith)
get_elem?-map f (y ∷ xs) zero x e = ap some (ap f (some-injective y x e))
get_elem?-map f (y ∷ xs) (suc i) x e = get_elem?-map f xs i x e

get_elem?-pad :
    (xs : List Text) (i : ℕ) (x : Text) → get_elem? xs i ≡ some x → get_elem? (pad xs) i ≡ some x
unfolding pad
get_elem?-pad [] i x e = e
get_elem?-pad (a ∷ []) zero x e = e
get_elem?-pad (a ∷ []) (suc i) x e = absurd (ground arith)
get_elem?-pad (a ∷ b ∷ xs) zero x e = e
get_elem?-pad (a ∷ b ∷ xs) (suc zero) x e = e
get_elem?-pad (a ∷ b ∷ xs) (suc (suc i)) x e = get_elem?-pad xs i x e

mod-skip : (i : ℕ) → suc (suc i) % 2 ≡ i % 2
mod-skip i = omega arith

half-skip : (i : ℕ) → suc (suc i) / 2 ≡ suc (i / 2)
half-skip i = omega arith

next-skip : (i : ℕ) → suc (suc i) + 1 ≡ suc (suc (i + 1))
next-skip i = omega arith

odd-before : (i : ℕ) → (i % 2 == 0) ≡ false → suc (suc i) - 1 ≡ suc (suc (i - 1))
odd-before zero p = absurd (ground arith)
odd-before (suc i) p = omega arith

module _ (h : Hashing) (laws : IsHashing h) where
  pair_up-IsDigest : (layer : List Text) → All IsDigest (pair_up h layer)
  unfolding pair_up node_hash
  pair_up-IsDigest [] = tt
  pair_up-IsDigest (a ∷ []) = (laws.digest_length (codes "node:" ++ a ++ a), tt)
  pair_up-IsDigest (a ∷ b ∷ rest) =
      (laws.digest_length (codes "node:" ++ a ++ b), pair_up-IsDigest rest)

  leaves-IsDigest : (keys : List Text) → All IsDigest (map (leaf_hash h) keys)
  unfolding leaf_hash
  leaves-IsDigest [] = tt
  leaves-IsDigest (k ∷ keys) = (laws.digest_length (codes "leaf:" ++ k), leaves-IsDigest keys)

  pad-IsDigest : (layer : List Text) → All IsDigest layer → All IsDigest (pad layer)
  unfolding pad
  pad-IsDigest [] d = tt
  pad-IsDigest (a ∷ []) d = (d.0, (d.0, tt))
  pad-IsDigest (a ∷ b ∷ rest) d = (d.0, (d.1.0, pad-IsDigest rest d.1.1))

  sibling-skip :
      (a b : Text) (rest : List Text) (i : ℕ)
      → sibling h (a ∷ b ∷ rest) (suc (suc i)) ≡ sibling h rest i
  unfolding sibling
  sibling-skip a b rest i = elim (Bool-cases (i % 2 == 0)) [
    | inl p ↦
        let next : get_elem? (a ∷ b ∷ rest) (suc (suc i) + 1) ≡ get_elem? rest (i + 1) =
          ap (get_elem? (a ∷ b ∷ rest)) (next-skip i) in
        ground (arith, mod-skip i, next)
    | inr p ↦
        let before : get_elem? (a ∷ b ∷ rest) (suc (suc i) - 1) ≡ get_elem? rest (i - 1) =
          ap (get_elem? (a ∷ b ∷ rest)) (odd-before i p) in
        ground (arith, mod-skip i, before)
  ]

  -- The sibling of a hash leads to the hash above the two.
  layer_step :
      (layer : List Text) (i : ℕ) (x : Text)
      → All IsDigest layer
      → get_elem? layer i ≡ some x
      → (y : Text) × (climb_one h x (sibling h layer i) ≡ some y)
        × (get_elem? (pair_up h layer) (i / 2) ≡ some y)
  unfolding climb_one sibling pair_up
  layer_step [] i x d e = absurd (ground arith)
  layer_step (a ∷ []) zero x d e = (node_hash h a a, ground (arith, laws.decode-encode a), refl)
  layer_step (a ∷ []) (suc i) x d e = absurd (ground arith)
  layer_step (a ∷ b ∷ rest) zero x d e =
      (node_hash h a b, ground (arith, laws.decode-encode b), refl)
  layer_step (a ∷ b ∷ rest) (suc zero) x d e =
      (node_hash h a b, ground (arith, laws.decode-encode a), refl)
  layer_step (a ∷ b ∷ rest) (suc (suc i)) x d e =
      let (y, up, at) = layer_step rest i x d.1.1 e in
      (
        y,
        ap (climb_one h x) (sibling-skip a b rest i) ∙ up,
        ap (get_elem? (pair_up h (a ∷ b ∷ rest))) (half-skip i) ∙ at,
      )

  length-pair_up : (layer : List Text) → length (pair_up h layer) ≤ (length layer + 1) / 2
  unfolding pair_up
  length-pair_up [] = omega arith
  length-pair_up (a ∷ []) = omega arith
  length-pair_up (a ∷ b ∷ rest) = omega (arith, length-pair_up rest)

  path_of-cons :
      (fuel i : ℕ) (layer next : List Text)
      → path_of h i (layer ∷ build_layers h fuel next)
        ≡ sibling h layer i ∷ path_of h (i / 2) (build_layers h fuel next)
  unfolding path_of build_layers
  path_of-cons zero i layer next = refl
  path_of-cons (suc fuel) i layer next = elim (Bool-cases (ltb 1 (length next))) [
    | inl p ↦ rw (p, build_layers) refl
    | inr p ↦ rw (p, build_layers) refl
  ]

  -- The siblings of a hash lead to the root.
  climb_path :
      (fuel : ℕ) (layer : List Text) (i : ℕ) (x : Text)
      → All IsDigest layer
      → length layer ≤ fuel
      → get_elem? layer i ≡ some x
      → climb h x (path_of h i (build_layers h fuel layer))
        ≡ some (top_hash (build_layers h fuel layer))
  unfolding climb build_layers path_of top_hash
  climb_path zero [] i x d l e = absurd (ground arith)
  climb_path zero (a ∷ layer) i x d l e = absurd (omega (arith, l))
  climb_path (suc fuel) [] i x d l e = absurd (ground arith)
  climb_path (suc fuel) (a ∷ []) zero x d l e = sym e
  climb_path (suc fuel) (a ∷ []) (suc i) x d l e = absurd (ground arith)
  climb_path (suc fuel) (a ∷ b ∷ rest) i x d l e =
      let layer = a ∷ b ∷ rest in
      let more : ltb 1 (suc (suc (length rest))) ≡ true = ground arith in
      let (y, up, at) = layer_step layer i x d e in
      rw (more, build_layers)
        (rw (path_of-cons fuel i layer (pair_up h layer)) (
          rw (up, climb)
            (climb_path fuel (pair_up h layer) (i / 2) y (pair_up-IsDigest layer)
                (omega (arith, l, length-pair_up layer)) at
              ∙ ap some (sym (top_hash-cons h fuel layer (pair_up h layer))))))

root-verifies :
    (h : Hashing) (root : Text) (proof : AllowlistMembershipProof)
    → climb h (leaf_hash h proof.key) proof.siblings ≡ some root
    → verify_against_root h (h.hex_encode root) proof ≡ true
unfolding verify_against_root
root-verifies h root proof up = ground (arith, text_ord.cmp_refl (h.hex_encode root))

-- With hexadecimal digits that decode, and digests of 32 bytes, a tree over `keys` proves each of its
-- keys, and verifies the proof.
pub prove_verifies :
    (h : Hashing) (keys : List Text) (key : Text)
    → IsHashing h
    → Memᴰ key keys
    → (proof : AllowlistMembershipProof) × (prove h (from_keys h keys) key ≡ some proof)
      × (proof.key ≡ key)
      × (verify h (from_keys h keys) proof ≡ true)
unfolding prove verify from_keys
prove_verifies h keys key laws m =
    let leaves = sort keys in
    let hashes = pad (map (leaf_hash h) leaves) in
    let layers = build_layers h (length hashes) hashes in
    let (i, at, here) = position-mem key leaves (sort-mem key keys m) in
    let up =
      climb_path h laws (length hashes) hashes i (leaf_hash h key)
        (pad-IsDigest h laws (map (leaf_hash h) leaves) (leaves-IsDigest h laws leaves))
        (omega arith)
        (get_elem?-pad (map (leaf_hash h) leaves) i (leaf_hash h key)
          (get_elem?-map (leaf_hash h) leaves i key here)) in
    (
      record {
        key = key;
        leaf_index = i;
        siblings = path_of h i layers;
        root = h.hex_encode (top_hash layers);
      },
      rw (at, prove) refl,
      refl,
      root-verifies h (top_hash layers) _ up,
    )
