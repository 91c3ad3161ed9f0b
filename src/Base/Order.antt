-- ===== src/Base/Order.antt =====
-- `std::cmp::Ord` with the laws that the trait asks for, and its instances for numbers and for
-- texts (`String` compares its bytes).
use Prim.Native.Nat.{ℕ, compare, Ordering}
use Prim.Native.Nat.Ordering.{lt, eq, gt}
use Prim.Native.Char.{code}
use Prim.Native.String.{String}
use mathlib.Core.Path.{◌≡◌, refl}
use mathlib.Core.Bool.{Bool, true, false}
use mathlib.Core.List.{List, [], ◌∷◌}
use mathlib.Core.Logic.{◌⊎◌, inl, inr}
use native.Mathlib.Omega.{arith}
use mnemo.Base.Tests.{Bool-cases}

-- `Ordering::reverse`.
abbrev pub flip : Ordering → Ordering
flip lt = gt
flip eq = eq
flip gt = lt

-- The order is transitive, the two sides swap as `reverse` says, and only equals compare as equal.
pub record IsTotalOrder {ℓ} {K : Type ℓ} (cmp : K → K → Ordering) : Type ℓ where
  pub lt_trans : (a b c : K) → cmp a b ≡ lt → cmp b c ≡ lt → cmp a c ≡ lt
  pub swapped : (a b : K) → cmp b a ≡ flip (cmp a b)
  pub cmp_refl : (a : K) → cmp a a ≡ eq
  pub eq_of_cmp : (a b : K) → cmp a b ≡ eq → a ≡ b

pub record Ord {ℓ} (K : Type ℓ) : Type ℓ where
  pub cmp : K → K → Ordering
  pub total : IsTotalOrder cmp
  pub open total use *

-- `Ordering::then_with`.
abbrev pub then_with : Ordering → Ordering → Ordering
then_with eq next = next
then_with first _ = first

pub Ordering-cases : (o : Ordering) → (o ≡ lt) ⊎ (o ≡ eq) ⊎ (o ≡ gt)
Ordering-cases lt = inl refl
Ordering-cases eq = inr (inl refl)
Ordering-cases gt = inr (inr refl)

pub compare-IsTotalOrder : IsTotalOrder compare
compare-IsTotalOrder = ground arith

instance unfoldable pub nat_ord : Ord ℕ
nat_ord = record { cmp = compare; total = compare-IsTotalOrder }

-- A text is its bytes.
abbrev pub Text : Type 0
Text = List ℕ

abbrev pub codes : String → Text
codes String.[] = []
codes (String.◌∷◌ c s) = code c ∷ codes s

unfoldable pub cmp_text : Text → Text → Ordering
cmp_text [] [] = eq
cmp_text [] (b ∷ t) = lt
cmp_text (a ∷ s) [] = gt
cmp_text (a ∷ s) (b ∷ t) = then_with (compare a b) (cmp_text s t)

cmp_text_refl : (s : Text) → cmp_text s s ≡ eq
unfolding cmp_text
cmp_text_refl [] = refl
cmp_text_refl (a ∷ s) = ground (arith, cmp_text_refl s)

cmp_text-eq : (s t : Text) → cmp_text s t ≡ eq → s ≡ t
unfolding cmp_text
cmp_text-eq [] [] h = refl
cmp_text-eq [] (b ∷ t) h = ground arith
cmp_text-eq (a ∷ s) [] h = ground arith
cmp_text-eq (a ∷ s) (b ∷ t) h = ground (arith, cmp_text-eq s t)

cmp_text-swapped : (s t : Text) → cmp_text t s ≡ flip (cmp_text s t)
unfolding cmp_text
cmp_text-swapped [] [] = refl
cmp_text-swapped [] (b ∷ t) = refl
cmp_text-swapped (a ∷ s) [] = refl
cmp_text-swapped (a ∷ s) (b ∷ t) = ground (arith, cmp_text-swapped s t)

cmp_text-lt_trans : (s t u : Text) → cmp_text s t ≡ lt → cmp_text t u ≡ lt → cmp_text s u ≡ lt
unfolding cmp_text
cmp_text-lt_trans [] [] u h k = ground arith
cmp_text-lt_trans [] (b ∷ t) [] h k = ground arith
cmp_text-lt_trans [] (b ∷ t) (c ∷ u) h k = refl
cmp_text-lt_trans (a ∷ s) [] u h k = ground arith
cmp_text-lt_trans (a ∷ s) (b ∷ t) [] h k = ground arith
cmp_text-lt_trans (a ∷ s) (b ∷ t) (c ∷ u) h k = ground (arith, cmp_text-lt_trans s t u)

pub cmp_text-IsTotalOrder : IsTotalOrder cmp_text
cmp_text-IsTotalOrder = record {
  cmp_refl = cmp_text_refl;
  eq_of_cmp = cmp_text-eq;
  swapped = cmp_text-swapped;
  lt_trans = cmp_text-lt_trans;
}

instance unfoldable pub text_ord : Ord Text
text_ord = record { cmp = cmp_text; total = cmp_text-IsTotalOrder }

module _ {ℓ} {K : Type ℓ} ⦃o : Ord K⦄ where
  -- `a == b` and `a < b`, as derived from the order.
  abbrev pub eqb : K → K → Bool
  eqb a b = elim (o.cmp a b) [ eq ↦ true | _ ↦ false ]

  abbrev pub ltk : K → K → Bool
  ltk a b = elim (o.cmp a b) [ lt ↦ true | _ ↦ false ]

  pub cmp_self : (a b : K) → a ≡ b → o.cmp a b ≡ eq
  cmp_self a b e = rw e (o.cmp_refl b)

  pub ltk_irrefl : (a : K) → ltk a a ≡ false
  ltk_irrefl a = ground (arith, o.cmp_refl a)

  pub ltk_asymm : (a b : K) → ltk a b ≡ true → ltk b a ≡ false
  ltk_asymm a b h = ground (arith, o.swapped a b)

  pub ltk_antisymm : (a b : K) → ltk a b ≡ false → ltk b a ≡ false → a ≡ b
  ltk_antisymm a b h k = ground (arith, o.swapped a b, o.eq_of_cmp a b)

  pub ltk_trans : (a b c : K) → ltk a b ≡ true → ltk b c ≡ true → ltk a c ≡ true
  ltk_trans a b c h k = ground (arith, o.lt_trans a b c)

  pub not_ltk_trans : (a b c : K) → ltk a b ≡ false → ltk b c ≡ false → ltk a c ≡ false
  not_ltk_trans a b c h k = ground (
    arith,
    o.swapped a b,
    o.swapped b c,
    o.eq_of_cmp a b,
    o.eq_of_cmp b c,
    o.swapped a c,
    o.lt_trans c b a,
    o.swapped c a,
    o.cmp_refl a,
    o.lt_trans a c b,
    o.swapped b c,
  )

  -- An order of three values, as the tactics use it.
  pub ltk_of_not : (a b c : K) → ltk a b ≡ true → ltk c b ≡ false → ltk a c ≡ true
  ltk_of_not a b c h k = elim (Bool-cases (ltk a c)) [
    | inl p ↦ p
    | inr p ↦ ground (arith, not_ltk_trans a c b)
  ]
