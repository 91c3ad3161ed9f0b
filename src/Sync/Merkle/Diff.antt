-- ===== src/Sync/Merkle/Diff.antt =====
-- Which prefixes `diff_prefixes` of sync.rs returns.
use mnemo.Base.{
  ℕ, ◌≡◌, ◌≢◌, refl, ap, ◌||◌, ◌&&◌, Option, none, some, arith, List, [], ◌∷◌, map, is_some, any,
  Bool-cases, inl, inr,
}
use mnemo.Base.Order.{Text, text_ord, eqb, cmp_self}
use mnemo.BTreeMap.{BTreeMap}
use mnemo.BTreeMap
use mnemo.BTreeMap.Lookup.{get-insert}
use mnemo.Sync.Merkle.{
  MerkleDigest, DeltaResourceType, concat, from_items, node_hashes, add_keys, hashes_differ,
  differing, insert_sorted, sort, diff_prefixes,
}

any-insert_sorted :
    (p q : Text) (ps : List Text) → any (eqb p) (insert_sorted q ps) ≡ (eqb p q || any (eqb p) ps)
unfolding insert_sorted
any-insert_sorted p q [] = ground arith
any-insert_sorted p q (r ∷ ps) = ground (arith, any-insert_sorted p q ps)

any-sort : (p : Text) (ps : List Text) → any (eqb p) (sort ps) ≡ any (eqb p) ps
unfolding sort
any-sort p [] = refl
any-sort p (q ∷ ps) = ground (arith, any-sort p ps, any-insert_sorted p q (sort ps))

any-differing :
    (mine other : BTreeMap Text Text) (s : BTreeMap Text (Unit {0})) (p : Text)
    → any (eqb p) (differing mine other s)
      ≡ (is_some (BTreeMap.get s p) && hashes_differ (BTreeMap.get mine p) (BTreeMap.get other p))
unfolding differing BTreeMap.get
any-differing mine other [] p = refl
any-differing mine other ((q, u) ∷ s) p = elim (Bool-cases (eqb p q)) [
  | inl h ↦
      ground (arith, any-differing mine other s p, text_ord.eq_of_cmp p q, text_ord.cmp_refl q)
  | inr h ↦ ground (arith, any-differing mine other s p)
]

is_some-add_keys :
    (s : BTreeMap Text (Unit {0})) (m : BTreeMap Text Text) (p : Text)
    → is_some (BTreeMap.get (add_keys s m) p)
      ≡ (is_some (BTreeMap.get s p) || is_some (BTreeMap.get m p))
unfolding add_keys BTreeMap.get
is_some-add_keys s [] p = ground arith
is_some-add_keys s ((q, v) ∷ m) p =
    ground (arith, is_some-add_keys (BTreeMap.insert s q tt) m p, get-insert s q tt p)

get_nil : (p : Text) → BTreeMap.get {K = Text} {V = Unit {0}} [] p ≡ none
unfolding BTreeMap.get
get_nil p = refl

differ_needs_one :
    (a b : Option Text) → hashes_differ a b ≡ ((is_some a || is_some b) && hashes_differ a b)
unfolding hashes_differ
differ_needs_one none none = refl
differ_needs_one none (some y) = refl
differ_needs_one (some x) none = refl
differ_needs_one (some x) (some y) = refl

-- With different root hashes, `diff_prefixes` returns exactly the prefixes whose hashes differ
-- between the two sides, a missing node being different from any other; with equal root hashes it
-- returns none.
pub diff_prefixes_exact :
    (a b : MerkleDigest) (p : Text)
    → (a.root_hash ≢ b.root_hash
        → any (eqb p) (diff_prefixes a b)
          ≡ hashes_differ
              (BTreeMap.get (node_hashes [] a.nodes) p)
              (BTreeMap.get (node_hashes [] b.nodes) p))
      × (a.root_hash ≡ b.root_hash → diff_prefixes a b ≡ [])
unfolding diff_prefixes
diff_prefixes_exact a b p = (differ, same)
  where
    mine : BTreeMap Text Text
    mine = node_hashes [] a.nodes

    other : BTreeMap Text Text
    other = node_hashes [] b.nodes

    keys : BTreeMap Text (Unit {0})
    keys = add_keys (add_keys [] mine) other

    differ :
        a.root_hash ≢ b.root_hash
        → any (eqb p) (diff_prefixes a b)
          ≡ hashes_differ (BTreeMap.get mine p) (BTreeMap.get other p)
    differ n = ground (
      arith,
      text_ord.eq_of_cmp a.root_hash b.root_hash,
      any-sort p (differing mine other keys),
      any-differing mine other keys p,
      is_some-add_keys (add_keys [] mine) other p,
      is_some-add_keys [] mine p,
      get_nil p,
      differ_needs_one (BTreeMap.get mine p) (BTreeMap.get other p),
    )

    same : a.root_hash ≡ b.root_hash → diff_prefixes a b ≡ []
    same e = ground (arith, cmp_self a.root_hash b.root_hash e)

module _ (sha256_hex : Text → Text) where
  -- The root hash does not cover the keys: two sets of items with the same hashes in the same
  -- order, under whatever keys, have no differing prefix.
  pub diff_ignores_keys :
      (now later : ℕ) (resource_type : DeltaResourceType) (user_id : Option ℕ) (x y : Text × Text)
      (xs ys : List (Text × Text))
      → map (λ i. i.1) (x ∷ xs) ≡ map (λ i. i.1) (y ∷ ys)
      → diff_prefixes
          (from_items sha256_hex now resource_type user_id (x ∷ xs))
          (from_items sha256_hex later resource_type user_id (y ∷ ys))
        ≡ []
  unfolding from_items
  diff_ignores_keys now later resource_type user_id x y xs ys h =
      (diff_prefixes_exact (from_items sha256_hex now resource_type user_id (x ∷ xs))
          (from_items sha256_hex later resource_type user_id (y ∷ ys)) []).1
        (ap (λ hs. sha256_hex (concat hs)) h)
