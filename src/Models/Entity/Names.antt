-- ===== src/Models/Entity/Names.antt =====
-- The names of an entity and the text of its type, entity.rs.
use mnemo.Base.{
  ℕ, ◌≡◌, ◌≢◌, refl, ap, ◌∙◌, ◌⊎◌, Bool, true, false, if◌then◌else◌, ◌||◌, List, [], ◌∷◌, ◌++◌, map,
  any, arith, inl, inr,
}
use mnemo.Base.Order.{Text, cmp_text, text_ord, eqb, cmp_self}
use mnemo.Base.Ascii.{trim, to_lowercase, lower}
use mnemo.Models.Entity.{
  person, organization, product, location, event, concept, custom, from_lowercase,
  from_str_flexible, as_str, Entity, add_alias, matches_name,
}

lower-lower : (c : ℕ) → lower (lower c) ≡ lower c
lower-lower c = ground arith

to_lowercase_idem : (s : Text) → to_lowercase (to_lowercase s) ≡ to_lowercase s
to_lowercase_idem [] = refl
to_lowercase_idem (c ∷ s) = ground (arith, lower-lower c, to_lowercase_idem s)

-- One of the named types reads back; any other one is the text in lower case.
from_lowercase_cases :
    (a b c d e f : Bool) (t : Text)
    → let x =
        if a
        then person
        else if b
        then organization
        else if c
        then product
        else if d
        then location
        else if e
        then event
        else if f
        then concept
        else custom t in
      (from_str_flexible (as_str x) ≡ x) ⊎ (x ≡ custom t)
unfolding from_str_flexible as_str cmp_text text_ord
from_lowercase_cases true b c d e f t = inl refl
from_lowercase_cases false true c d e f t = inl refl
from_lowercase_cases false false true d e f t = inl refl
from_lowercase_cases false false false true e f t = inl refl
from_lowercase_cases false false false false true f t = inl refl
from_lowercase_cases false false false false false true t = inl refl
from_lowercase_cases false false false false false false t = inr refl

-- What is written for a type that was read from a text reads back as the same type.
pub entity_type_round_trip :
    (s : Text) → from_str_flexible (as_str (from_str_flexible s)) ≡ from_str_flexible s
unfolding from_str_flexible as_str
entity_type_round_trip s = elim (from_lowercase_cases _ _ _ _ _ _ (to_lowercase s)) [
  | inl k ↦ k
  | inr k ↦ ap (λ x. from_str_flexible (as_str x)) k ∙ ap from_lowercase (to_lowercase_idem s)
]

any-append {ℓ} :
    {A : Type ℓ} (p : A → Bool) (xs ys : List A) → any p (xs ++ ys) ≡ (any p xs || any p ys)
any-append p [] ys = refl
any-append p (x ∷ xs) ys = ground (arith, any-append p xs ys)

eqb_self : (s : Text) → eqb s s ≡ true
eqb_self s = ground (arith, cmp_self s s)

eqb_sym : (s t : Text) → eqb s t ≡ eqb t s
eqb_sym s t = ground (
  arith,
  text_ord.swapped s t,
  text_ord.swapped s t,
  text_ord.eq_of_cmp s t,
  text_ord.eq_of_cmp t s,
)

-- The entity has a name or an alias that is `n` in lower case.
abbrev answers : Entity → Text → Bool
answers e n = eqb (to_lowercase e.name) n || any (λ a. eqb (to_lowercase a) n) e.aliases

abbrev pushed : ℕ → Entity → Text → Entity
pushed now e alias = record e { aliases = e.aliases ++ alias ∷ []; updated_at = now }

any-to_lowercase :
    (n : Text) (xs : List Text)
    → any (eqb n) (map to_lowercase xs) ≡ any (λ a. eqb (to_lowercase a) n) xs
any-to_lowercase n [] = refl
any-to_lowercase n (x ∷ xs) = ground (arith, eqb_sym n (to_lowercase x), any-to_lowercase n xs)

matches_name-answers :
    (e : Entity) (c : Text) → matches_name e c ≡ answers e (to_lowercase (trim c))
unfolding matches_name
matches_name-answers e c = ground arith

add_alias-pushed :
    (now : ℕ) (e : Entity) (alias : Text)
    → add_alias now e alias
      ≡ (if answers e (to_lowercase (trim alias)) then e else pushed now e alias)
unfolding add_alias
add_alias-pushed now e alias = ground (
  arith,
  any-to_lowercase (to_lowercase (trim alias)) e.aliases,
  eqb_sym (to_lowercase (trim alias)) (to_lowercase e.name),
)

answers-pushed :
    (now : ℕ) (e : Entity) (alias n : Text)
    → answers (pushed now e alias) n ≡ (answers e n || eqb (to_lowercase alias) n)
answers-pushed now e alias n =
    ground (arith, any-append (λ a. eqb (to_lowercase a) n) e.aliases (alias ∷ []))

add_alias-answers :
    (now : ℕ) (e : Entity) (alias : Text)
    → trim alias ≡ alias
    → answers (add_alias now e alias) (to_lowercase alias) ≡ true
add_alias-answers now e alias h = ground (
  arith,
  add_alias-pushed now e alias,
  answers-pushed now e alias (to_lowercase alias),
  eqb_self (to_lowercase alias),
)

-- Adding an alias that has no surrounding whitespace makes the entity answer to it in any case of
-- letters, and adding it a second time changes nothing.
pub add_alias_answers :
    (now later : ℕ) (e : Entity) (alias candidate : Text)
    → trim alias ≡ alias
    → to_lowercase (trim candidate) ≡ to_lowercase alias
    → (matches_name (add_alias now e alias) candidate ≡ true)
      × (add_alias later (add_alias now e alias) alias ≡ add_alias now e alias)
add_alias_answers now later e alias candidate h k = (
  matches_name-answers (add_alias now e alias) candidate
      ∙ ap (answers (add_alias now e alias)) k
      ∙ add_alias-answers now e alias h,
  ground (
    arith,
    add_alias-pushed later (add_alias now e alias) alias,
    add_alias-answers now e alias h,
  ),
)

-- An alias with surrounding whitespace that the entity does not have yet is kept as given but
-- compared without the whitespace: adding it twice stores it twice.
pub add_alias_untrimmed :
    (now later : ℕ) (e : Entity) (alias : Text)
    → matches_name e alias ≡ false
    → to_lowercase (trim alias) ≢ to_lowercase alias
    → (add_alias later (add_alias now e alias) alias).aliases
      ≡ (e.aliases ++ alias ∷ []) ++ alias ∷ []
add_alias_untrimmed now later e alias h k = ground (
  arith,
  add_alias-pushed now e alias,
  add_alias-pushed later (pushed now e alias) alias,
  matches_name-answers e alias,
  answers-pushed now e alias (to_lowercase (trim alias)),
  text_ord.eq_of_cmp (to_lowercase alias) (to_lowercase (trim alias)),
)
