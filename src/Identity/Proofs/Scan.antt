-- ===== src/Identity/Proofs/Scan.antt =====
-- `check_forbidden_substrings`, agent.rs, against the keys of a value at all depths.
use mnemo.Base.{
  ℕ, ◌+◌, ◌≡◌, refl, false, none, List, ◌++◌, arith, Bool-cases, Option-cases, inl, inr,
}
use mnemo.Base.Order.{Text, codes}
use mnemo.Base.Ascii.{decimal}
use mnemo.Identity.Proofs.{
  Value, Items, Fields, is_forbidden, check_forbidden_substrings, check_items, check_fields,
}

module _ (tokens : List Text) where
  -- No key at any depth holds a forbidden substring.
  abbrev mutual
    pub IsClean : Value → Type 0
    IsClean (Value.array items) = AreClean items
    IsClean (Value.object fields) = HaveCleanKeys fields
    IsClean _ = Unit

    pub AreClean : Items → Type 0
    AreClean Items.no_items = Unit
    AreClean (Items.item v items) = IsClean v × AreClean items

    pub HaveCleanKeys : Fields → Type 0
    HaveCleanKeys Fields.no_fields = Unit
    HaveCleanKeys (Fields.field k v fields) =
        (is_forbidden tokens k ≡ false) × IsClean v × HaveCleanKeys fields

  mutual
    unfolding check_forbidden_substrings check_items check_fields

    pub check-IsClean :
        (v : Value) (path : Text) → check_forbidden_substrings tokens v path ≡ none → IsClean v
    check-IsClean (Value.array items) path e = items-AreClean items 0 path e
    check-IsClean (Value.object fields) path e = fields-HaveCleanKeys fields path e
    check-IsClean Value.null path e = tt
    check-IsClean (Value.bool b) path e = tt
    check-IsClean (Value.number n) path e = tt
    check-IsClean (Value.string s) path e = tt

    items-AreClean :
        (items : Items) (idx : ℕ) (path : Text)
        → check_items tokens items idx path ≡ none
        → AreClean items
    items-AreClean Items.no_items idx path e = tt
    items-AreClean (Items.item v items) idx path e =
        let next = path ++ codes "[" ++ decimal idx ++ codes "]/" in
        elim (Option-cases (check_forbidden_substrings tokens v next)) [
          | inl p ↦ (check-IsClean v next p, items-AreClean items (idx + 1) path (ground arith))
          | inr (found, p) ↦ absurd (ground arith)
        ]

    fields-HaveCleanKeys :
        (fields : Fields) (path : Text)
        → check_fields tokens fields path ≡ none
        → HaveCleanKeys fields
    fields-HaveCleanKeys Fields.no_fields path e = tt
    fields-HaveCleanKeys (Fields.field k v fields) path e =
        let next = path ++ k ++ codes "/" in
        elim (Bool-cases (is_forbidden tokens k)) [
          | inl q ↦ absurd (ground arith)
          | inr q ↦ elim (Option-cases (check_forbidden_substrings tokens v next)) [
            | inl p ↦ (q, check-IsClean v next p, fields-HaveCleanKeys fields path (ground arith))
            | inr (found, p) ↦ absurd (ground arith)
          ]
        ]

  mutual
    unfolding check_forbidden_substrings check_items check_fields

    pub clean_check :
        (v : Value) (path : Text) → IsClean v → check_forbidden_substrings tokens v path ≡ none
    clean_check (Value.array items) path c = clean_items items 0 path c
    clean_check (Value.object fields) path c = clean_fields fields path c
    clean_check Value.null path c = refl
    clean_check (Value.bool b) path c = refl
    clean_check (Value.number n) path c = refl
    clean_check (Value.string s) path c = refl

    clean_items :
        (items : Items) (idx : ℕ) (path : Text)
        → AreClean items
        → check_items tokens items idx path ≡ none
    clean_items Items.no_items idx path c = refl
    clean_items (Items.item v items) idx path c =
        rw (clean_check v (path ++ codes "[" ++ decimal idx ++ codes "]/") c.0)
          (clean_items items (idx + 1) path c.1)

    clean_fields :
        (fields : Fields) (path : Text)
        → HaveCleanKeys fields
        → check_fields tokens fields path ≡ none
    clean_fields Fields.no_fields path c = refl
    clean_fields (Fields.field k v fields) path c =
        ground (arith, clean_check v (path ++ k ++ codes "/") c.1, clean_fields fields path c.2)
