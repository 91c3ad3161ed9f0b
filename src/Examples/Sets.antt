-- ===== src/Examples/Sets.antt =====
-- The observed-remove set and the Merkle digest of sync.rs at concrete inputs.
use mnemo.Base.{ℕ, ◌≡◌, ◌≢◌, refl, true, false, List, [], ◌∷◌, ◌++◌, none, any, arith}
use mnemo.Base.Order.{Text, codes, text_ord, eqb, nat_ord}
use mnemo.BTreeMap
use mnemo.Sync.Hlc.{NodeId}
use mnemo.Sync.OrSet.{OrSet, AddTag, tag_ord}
use mnemo.Sync.OrSet
use mnemo.Sync.OrSet.Membership.{IsOrSet}
use mnemo.Sync.OrSet.Convergence.{set_merge_semilattice, merge_undoes_remove, add-IsOrSet}
use mnemo.Sync.OrSet.Fresh.{IsNumbered, holds, add_fresh}
use mnemo.Sync.Merkle.{edge, MerkleDigest, from_items, diff_prefixes, hashes_differ, node_hashes}
use mnemo.Sync.Merkle.Diff.{diff_prefixes_exact}

abbrev a : NodeId
a = codes "a"

abbrev b : NodeId
b = codes "b"

abbrev start : OrSet ℕ
start = OrSet.new

abbrev first : OrSet ℕ
first = (OrSet.add start 5 a).0

abbrev second : OrSet ℕ
second = (OrSet.add first 6 b).0

start-IsOrSet : IsOrSet start
unfolding BTreeMap.get
start-IsOrSet = record {
  sorted = tt;
  counters_sorted = tt;
  tags_sorted = λ x tags e. ground arith;
  nonempty = λ x tags e. ground arith;
}

first-IsOrSet : IsOrSet first
first-IsOrSet = add-IsOrSet start 5 a start-IsOrSet

second-IsOrSet : IsOrSet second
second-IsOrSet = add-IsOrSet first 6 b first-IsOrSet

set_merge_semilattice_example :
    (OrSet.merge first second ≡ OrSet.merge second first)
    × (OrSet.merge (OrSet.merge first second) start ≡ OrSet.merge first (OrSet.merge second start))
    × (OrSet.merge first first ≡ first)
set_merge_semilattice_example =
    set_merge_semilattice first second start first-IsOrSet second-IsOrSet start-IsOrSet

holds_five : OrSet.contains first 5 ≡ true
unfolding OrSet.contains OrSet.add BTreeMap.get BTreeMap.insert nat_ord
holds_five = refl

merge_undoes_remove_example :
    (OrSet.contains (OrSet.remove first 5).0 5 ≡ false)
    × (OrSet.contains (OrSet.merge (OrSet.remove first 5).0 first) 5 ≡ true)
merge_undoes_remove_example =
    merge_undoes_remove first first 5 first-IsOrSet first-IsOrSet holds_five

start-IsNumbered : IsNumbered start
unfolding OrSet.tags_of BTreeMap.get
start-IsNumbered x tag h = ground arith

add_fresh_example :
    ((y : ℕ) → holds start y (OrSet.add start 5 a).1 ≡ false)
    × (holds (OrSet.add start 5 a).0 5 (OrSet.add start 5 a).1 ≡ true)
    × IsNumbered (OrSet.add start 5 a).0
unfolding BTreeMap.get
add_fresh_example = add_fresh start 5 a start-IsNumbered (omega arith)

-- In place of SHA-256, a function that keeps texts apart.
abbrev shown : Text → Text
shown t = codes "h" ++ t

abbrev items : List (Text × Text)
items = (codes "ada", codes "h1") ∷ (codes "bob", codes "h2") ∷ (codes "abe", codes "h3") ∷ []

abbrev renamed : List (Text × Text)
renamed = (codes "cat", codes "h1") ∷ (codes "dan", codes "h2") ∷ (codes "eve", codes "h3") ∷ []

abbrev digest : List (Text × Text) → MerkleDigest
digest = from_items shown 0 edge none

diff_prefixes_exact_example :
    ((digest items).root_hash ≢ (digest []).root_hash
      → any (eqb (codes "a")) (diff_prefixes (digest items) (digest []))
        ≡ hashes_differ
            (BTreeMap.get (node_hashes [] (digest items).nodes) (codes "a"))
            (BTreeMap.get (node_hashes [] (digest []).nodes) (codes "a")))
    × ((digest items).root_hash ≡ (digest []).root_hash
        → diff_prefixes (digest items) (digest []) ≡ [])
diff_prefixes_exact_example = diff_prefixes_exact (digest items) (digest []) (codes "a")
