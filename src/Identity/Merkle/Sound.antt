-- ===== src/Identity/Merkle/Sound.antt =====
-- What a membership proof that `verify_against_root` accepts shows, agent.rs.
use mathlib.Core.List.{Memᴰ}
use mathlib.Core.Option.{some-injective}
use mnemo.Base.{
  ℕ, zero, suc, ◌≤◌, ◌≡◌, ◌⊎◌, refl, sym, ap, subst, ◌∙◌, true, ltb, some, List, [], ◌∷◌, ◌++◌, map,
  All, All-self, length, arith, Bool-cases, Option-cases, inl, inr,
}
use mnemo.Base.Order.{Text, codes, text_ord}
use mnemo.Sync.Merkle.{sort}
use mnemo.Identity.Merkle.Leaves.{sort-All, length-sort}
use mnemo.Identity.{Collision, same_or_Collision}
use mnemo.Identity.Merkle.{
  Hashing, IsHashing, AllowlistMembershipProof, ProofSibling, leaf_hash, node_hash, pair_up, pad,
  build_layers, top_hash, from_keys, SiblingPosition, left, right, climb_one, climb,
  verify_against_root, verify,
}

append_cancel : (a b c d : Text) → length a ≡ length b → a ++ c ≡ b ++ d → (a ≡ b) × (c ≡ d)
append_cancel [] [] c d l e = (refl, e)
append_cancel [] (y ∷ b) c d l e = absurd (omega (arith, l))
append_cancel (x ∷ a) [] c d l e = absurd (omega (arith, l))
append_cancel (x ∷ a) (y ∷ b) c d l e = ground (arith, append_cancel a b c d)

position-cases : (p : SiblingPosition) → (p ≡ right) ⊎ (p ≡ left)
position-cases right = inl refl
position-cases left = inr refl

-- A step joins the hash with one of 32 bytes, on either side.
climb_one_cases :
    (h : Hashing) (a c : Text) (sib : ProofSibling)
    → climb_one h a sib ≡ some c
    → (b : Text) × (length b ≡ 32) × ((node_hash h a b ≡ c) ⊎ (node_hash h b a ≡ c))
unfolding climb_one
climb_one_cases h a c sib e = elim (Option-cases (h.hex_decode sib.hash)) [
  | inl p ↦ absurd (ground arith)
  | inr (b, p) ↦ elim (position-cases sib.position) [
    | inl q ↦ (b, ground arith, inl (ground arith))
    | inr q ↦ (b, ground arith, inr (ground arith))
  ]
]

pub top_hash-cons :
    (h : Hashing) (fuel : ℕ) (layer next : List Text)
    → top_hash (layer ∷ build_layers h fuel next) ≡ top_hash (build_layers h fuel next)
unfolding build_layers top_hash
top_hash-cons h zero layer next = refl
top_hash-cons h (suc fuel) layer next = elim (Bool-cases (ltb 1 (length next))) [
  | inl p ↦ rw (p, build_layers) refl
  | inr p ↦ rw (p, build_layers) refl
]

module _ (h : Hashing) (laws : IsHashing h) (keys : List Text) where
  -- The hashes of the tree: of the leaf of a key, or of two hashes of the tree.
  pub data Node : Text → Type 0 where
    leaf : (key : Text) → Memᴰ key keys → Node (leaf_hash h key)
    branch : (a b : Text) → Node a → Node b → Node (node_hash h a b)

  Node-length : (x : Text) → Node x → length x ≡ 32
  unfolding leaf_hash node_hash
  Node-length _ (Node.leaf key m) = laws.digest_length (codes "leaf:" ++ key)
  Node-length _ (Node.branch a b p q) = laws.digest_length (codes "node:" ++ a ++ b)

  pub length-node_hash : (a b : Text) → length (node_hash h a b) ≡ 32
  unfolding node_hash
  length-node_hash a b = laws.digest_length (codes "node:" ++ a ++ b)

  -- The two hashes below a node, or a collision.
  below :
      (a b x : Text)
      → length a ≡ 32
      → Node x
      → node_hash h a b ≡ x
      → (Node a × Node b) ⊎ Collision h.sha256
  unfolding leaf_hash node_hash
  below a b _ l (Node.leaf key m) e =
      elim (same_or_Collision h.sha256 (codes "node:" ++ a ++ b) (codes "leaf:" ++ key) e) [
        | inl p ↦ absurd (ground arith)
        | inr c ↦ inr c
      ]
  below a b _ l (Node.branch c d p q) e =
      elim (same_or_Collision h.sha256 (codes "node:" ++ a ++ b) (codes "node:" ++ c ++ d) e) [
        | inl same ↦
            let (front, back) =
              append_cancel a c b d (omega (arith, l, Node-length c p)) (ground arith) in
            inl (subst Node (sym front) p, subst Node (sym back) q)
        | inr c ↦ inr c
      ]

  leaf_below : (key x : Text) → Node x → leaf_hash h key ≡ x → Memᴰ key keys ⊎ Collision h.sha256
  unfolding leaf_hash node_hash
  leaf_below key _ (Node.leaf k m) e =
      elim (same_or_Collision h.sha256 (codes "leaf:" ++ key) (codes "leaf:" ++ k) e) [
        | inl same ↦
            let (front, back) = append_cancel (codes "leaf:") (codes "leaf:") key k refl same in
            inl (subst (λ x. Memᴰ x keys) (sym back) m)
        | inr c ↦ inr c
      ]
  leaf_below key _ (Node.branch c d p q) e =
      elim (same_or_Collision h.sha256 (codes "leaf:" ++ key) (codes "node:" ++ c ++ d) e) [
        | inl same ↦ absurd (ground arith)
        | inr c ↦ inr c
      ]

  step_below :
      (a c : Text) (sib : ProofSibling)
      → length a ≡ 32
      → climb_one h a sib ≡ some c
      → (length c ≡ 32) × (Node c → Node a ⊎ Collision h.sha256)
  step_below a c sib l e =
      let (b, len, joined) = climb_one_cases h a c sib e in
      elim joined [
        | inl p ↦ (
          subst (λ x. length x ≡ 32) p (length-node_hash a b),
          λ n. elim (below a b c l n p) [ inl r ↦ inl (r.0) | inr collision ↦ inr collision ],
        )
        | inr p ↦ (
          subst (λ x. length x ≡ 32) p (length-node_hash b a),
          λ n. elim (below b a c len n p) [ inl r ↦ inl (r.1) | inr collision ↦ inr collision ],
        )
      ]

  climb-length :
      (siblings : List ProofSibling) (a root : Text)
      → length a ≡ 32
      → climb h a siblings ≡ some root
      → length root ≡ 32
  unfolding climb
  climb-length [] a root l e = subst (λ x. length x ≡ 32) (some-injective a root e) l
  climb-length (sib ∷ siblings) a root l e = elim (Option-cases (climb_one h a sib)) [
    | inl p ↦ absurd (ground arith)
    | inr (c, p) ↦ climb-length siblings c root ((step_below a c sib l p).0) (ground arith)
  ]

  climb_below :
      (siblings : List ProofSibling) (a root : Text)
      → length a ≡ 32
      → climb h a siblings ≡ some root
      → Node root
      → Node a ⊎ Collision h.sha256
  unfolding climb
  climb_below [] a root l e n = inl (subst Node (sym (some-injective a root e)) n)
  climb_below (sib ∷ siblings) a root l e n = elim (Option-cases (climb_one h a sib)) [
    | inl p ↦ absurd (ground arith)
    | inr (c, p) ↦
        let (len, down) = step_below a c sib l p in
        elim (climb_below siblings c root len (ground arith) n) [
          | inl m ↦ down m
          | inr collision ↦ inr collision
        ]
  ]

  leaves-Node :
      (some_keys : List Text)
      → All (λ k. Memᴰ k keys) some_keys
      → All Node (map (leaf_hash h) some_keys)
  leaves-Node [] m = tt
  leaves-Node (k ∷ ks) m = (Node.leaf k m.0, leaves-Node ks m.1)

  pad-Node : (layer : List Text) → All Node layer → All Node (pad layer)
  unfolding pad
  pad-Node [] n = tt
  pad-Node (a ∷ []) n = (n.0, (n.0, tt))
  pad-Node (a ∷ b ∷ rest) n = (n.0, (n.1.0, pad-Node rest n.1.1))

  pair_up-Node : (layer : List Text) → All Node layer → All Node (pair_up h layer)
  unfolding pair_up
  pair_up-Node [] n = tt
  pair_up-Node (a ∷ []) n = (Node.branch a a n.0 n.0, tt)
  pair_up-Node (a ∷ b ∷ rest) n = (Node.branch a b n.0 n.1.0, pair_up-Node rest n.1.1)

  top-Node :
      (fuel : ℕ) (a : Text) (layer : List Text)
      → All Node (a ∷ layer)
      → Node (top_hash (build_layers h fuel (a ∷ layer)))
  unfolding build_layers top_hash pair_up
  top-Node zero a layer n = n.0
  top-Node (suc fuel) a [] n = n.0
  top-Node (suc fuel) a (b ∷ rest) n =
      let more : ltb 1 (suc (suc (length rest))) ≡ true = ground arith in
      rw (more, build_layers)
        (subst Node (sym (top_hash-cons h fuel (a ∷ b ∷ rest) (pair_up h (a ∷ b ∷ rest)))) (
          top-Node fuel (node_hash h a b) (pair_up h rest)
            (Node.branch a b n.0 n.1.0, pair_up-Node rest n.1.1)))

  -- The root of a tree over some of the keys.
  root-Node :
      (some_keys : List Text)
      → All (λ k. Memᴰ k keys) some_keys
      → 1 ≤ length some_keys
      → let hashes = pad (map (leaf_hash h) some_keys) in
        Node (top_hash (build_layers h (length hashes) hashes))
  unfolding pad
  root-Node [] m l = absurd (omega arith)
  root-Node (k ∷ []) m l =
      top-Node 2 (leaf_hash h k) (leaf_hash h k ∷ [])
        (pad-Node (leaf_hash h k ∷ []) (leaves-Node (k ∷ []) m))
  root-Node (k ∷ j ∷ rest) m l =
      top-Node _ (leaf_hash h k) _
        (pad-Node (map (leaf_hash h) (k ∷ j ∷ rest)) (leaves-Node (k ∷ j ∷ rest) m))

encode-injective :
    (h : Hashing) (laws : IsHashing h) (a b : Text)
    → length a ≡ 32
    → length b ≡ 32
    → h.hex_encode a ≡ h.hex_encode b
    → a ≡ b
encode-injective h laws a b l k e =
    some-injective a b (sym (laws.decode-encode a l) ∙ ap h.hex_decode e ∙ laws.decode-encode b k)

-- For a tree over a list of keys that is not empty, if `verify` accepts a proof, whoever made it, the
-- key that it is for is one of the keys, or there are two different texts with one SHA-256 digest.
pub verify_sound :
    (h : Hashing) (laws : IsHashing h) (keys : List Text) (proof : AllowlistMembershipProof)
    → 1 ≤ length keys
    → verify h (from_keys h keys) proof ≡ true
    → Memᴰ proof.key keys ⊎ Collision h.sha256
unfolding verify verify_against_root from_keys leaf_hash
verify_sound h laws keys proof l e =
    elim (Option-cases (climb h (leaf_hash h proof.key) proof.siblings)) [
      | inl p ↦ absurd (ground arith)
      | inr (current, p) ↦
          let leaves = sort keys in
          let hashes = pad (map (leaf_hash h) leaves) in
          let root = top_hash (build_layers h (length hashes) hashes) in
          let node : Node h laws keys root =
            root-Node h laws keys leaves (sort-All (λ k. Memᴰ k keys) keys (All-self keys))
              (omega (arith, l, length-sort keys)) in
          let digest : length (leaf_hash h proof.key) ≡ 32 =
            laws.digest_length (codes "leaf:" ++ proof.key) in
          let len =
            climb-length h laws keys proof.siblings (leaf_hash h proof.key) current digest p in
          let same : current ≡ root =
            encode-injective h laws current root len (Node-length h laws keys root node)
              (ground (arith, text_ord.eq_of_cmp (h.hex_encode current) (h.hex_encode root))) in
          elim (climb_below h laws keys proof.siblings (leaf_hash h proof.key) root digest
            (p ∙ ap some same) node) [
              | inl n ↦ leaf_below h laws keys proof.key (leaf_hash h proof.key) n refl
              | inr collision ↦ inr collision
            ]
    ]
