-- ===== src/Sync/OrSet/Union.antt =====
-- The tag sets of `ORSet`, sync.rs, and the inner loop of `merge`.
use mnemo.Base.{◌≡◌, refl, Bool, true, ◌||◌, Option, none, some, arith, [], ◌∷◌, is_some}
use mnemo.BTreeMap.{BTreeMap, IsSorted}
use mnemo.BTreeMap
use mnemo.BTreeMap.Lookup.{get-insert, insert-IsSorted}
use mnemo.BTreeMap.Merge.{
  Writes, KeepsSorted, join, get-for_each, for_each-IsSorted, for_each_comm, for_each_assoc,
  for_each_idem,
}
use mnemo.Sync.OrSet.{AddTag, TagSet, tag_ord, put, is_nonempty}

abbrev pub present : Option (Unit {0}) → Unit {0} → Unit {0}
present _ u = u

abbrev pub union : TagSet → TagSet → TagSet
union a b = BTreeMap.for_each put a b

-- A tag is in the set.
abbrev pub has : TagSet → AddTag → Bool
has tags tag = is_some (BTreeMap.get tags tag)

put-Writes : Writes present put
unfolding put
put-Writes m k u j = get-insert m k u j

pub put-KeepsSorted : KeepsSorted put
unfolding put
put-KeepsSorted m k v s = insert-IsSorted m k v s

pub has-union : (a b : TagSet) (t : AddTag) → IsSorted b → has (union a b) t ≡ (has a t || has b t)
has-union a b t s = ground (arith, get-for_each present put put-Writes a b t s)

join-present_comm : (a b : Option (Unit {0})) → join present a b ≡ join present b a
join-present_comm none none = refl
join-present_comm none (some v) = refl
join-present_comm (some u) none = refl
join-present_comm (some u) (some v) = refl

join-present_assoc :
    (a b c : Option (Unit {0}))
    → join present (join present a b) c ≡ join present a (join present b c)
join-present_assoc a b none = refl
join-present_assoc a none (some w) = refl
join-present_assoc a (some v) (some w) = refl

join-present_idem : (a : Option (Unit {0})) → join present a a ≡ a
join-present_idem none = refl
join-present_idem (some u) = refl

module _ (a b : TagSet) (s : IsSorted a) (t : IsSorted b) where
  pub union-IsSorted : IsSorted (union a b)
  union-IsSorted = for_each-IsSorted present put put-Writes put-KeepsSorted a b s

  pub union_comm : union a b ≡ union b a
  union_comm =
      for_each_comm present put put-Writes put-KeepsSorted a b s t
        λ k. join-present_comm (BTreeMap.get a k) (BTreeMap.get b k)

  pub union_assoc : (c : TagSet) → IsSorted c → union (union a b) c ≡ union a (union b c)
  union_assoc c u =
      for_each_assoc present put put-Writes put-KeepsSorted a b c s t u
        λ k. join-present_assoc (BTreeMap.get a k) (BTreeMap.get b k) (BTreeMap.get c k)

pub union_idem : (a : TagSet) → IsSorted a → union a a ≡ a
union_idem a s =
    for_each_idem present put put-Writes put-KeepsSorted a s
      λ k. join-present_idem (BTreeMap.get a k)

pub union-nil : (a : TagSet) → IsSorted a → union [] a ≡ a
unfolding BTreeMap.for_each
union-nil a s = union_comm [] a tt s

pub put-nonempty : (a : TagSet) (t : AddTag) (u : Unit {0}) → is_nonempty (put a t u) ≡ true
unfolding put BTreeMap.insert
put-nonempty [] t u = refl
put-nonempty ((k, v) ∷ a) t u = ground arith

pub union-nonempty : (a b : TagSet) → is_nonempty (union a b) ≡ (is_nonempty a || is_nonempty b)
unfolding BTreeMap.for_each
union-nonempty [] [] = refl
union-nonempty (x ∷ a) [] = refl
union-nonempty a ((k, u) ∷ b) = ground (arith, union-nonempty (put a k u) b, put-nonempty a k u)
