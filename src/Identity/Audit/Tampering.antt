-- ===== src/Identity/Audit/Tampering.antt =====
-- Changes to a log that `verify_audit_chain` of agent.rs finds, and changes that it does not find.
use mnemo.Base.{
  ℕ, zero, suc, ◌+◌, ◌%◌, ◌/◌, ◌≡◌, ◌⊎◌, refl, sym, ap, subst, ◌∙◌, true, false, ◌==◌, Option, none,
  some, get_or, List, [], ◌∷◌, ◌++◌, any, length, arith, Option-cases, inl, inr,
}
use mnemo.Base.Order.{Text, text_ord, eqb}
use mnemo.Base.Ascii.{digits, decimal}
use mnemo.Identity.{Collision, same_or_Collision}
use mnemo.Identity.Audit.{
  AgentIdentityAuditAction, AgentIdentityAuditEvent, action_name, version_text, bar, hash_input,
  compute_hash, verify_audit_chain,
}
use mnemo.Identity.Audit.Links.{IsLinked, IsChain, verify_audit_chain_iff, IsChain-IsLinked}

abbrev HasNoBar : Text → Type 0
HasNoBar s = any (λ c. c == b'|') s ≡ false

bar-injective : (a b x y : Text) → HasNoBar a → HasNoBar b → bar a x ≡ bar b y → (a ≡ b) × (x ≡ y)
bar-injective [] [] x y p q e = (refl, ground arith)
bar-injective [] (d ∷ b) x y p q e = absurd (ground arith)
bar-injective (c ∷ a) [] x y p q e = absurd (ground arith)
bar-injective (c ∷ a) (d ∷ b) x y p q e = ground (arith, bar-injective a b x y)

append-HasNoBar : (s t : Text) → HasNoBar s → HasNoBar t → HasNoBar (s ++ t)
append-HasNoBar [] t p q = q
append-HasNoBar (c ∷ s) t p q = ground (arith, append-HasNoBar s t)

digits-HasNoBar : (fuel n : ℕ) → HasNoBar (digits fuel n)
unfolding digits
digits-HasNoBar zero n = ground arith
digits-HasNoBar (suc fuel) n = ground (
  arith,
  append-HasNoBar (digits fuel (n / 10)) ((b'0' + n % 10) ∷ []) (digits-HasNoBar fuel (n / 10)),
)

decimal-HasNoBar : (n : ℕ) → HasNoBar (decimal n)
unfolding decimal
decimal-HasNoBar n = digits-HasNoBar n n

version_text-HasNoBar : (v : Option ℕ) → HasNoBar (version_text v)
unfolding version_text
version_text-HasNoBar none = refl
version_text-HasNoBar (some v) = decimal-HasNoBar v

action_name-HasNoBar : (a : AgentIdentityAuditAction) → HasNoBar (action_name a)
unfolding action_name
action_name-HasNoBar AgentIdentityAuditAction.created = refl
action_name-HasNoBar AgentIdentityAuditAction.updated = refl
action_name-HasNoBar AgentIdentityAuditAction.rolled_back = refl
action_name-HasNoBar AgentIdentityAuditAction.branch_created = refl
action_name-HasNoBar AgentIdentityAuditAction.branch_merged = refl
action_name-HasNoBar AgentIdentityAuditAction.branch_deleted = refl
action_name-HasNoBar AgentIdentityAuditAction.forked = refl

abbrev prev_text : AgentIdentityAuditEvent → Text
prev_text e = get_or e.prev_hash []

-- What is hashed determines the hash of the event before.
input-prev :
    (e f : AgentIdentityAuditEvent)
    → HasNoBar (prev_text e)
    → HasNoBar (prev_text f)
    → hash_input e ≡ hash_input f
    → prev_text e ≡ prev_text f
unfolding hash_input
input-prev e f p q h =
    let after_action =
      bar-injective (action_name e.action) (action_name f.action) _ _
        (action_name-HasNoBar e.action) (action_name-HasNoBar f.action) h in
    let after_from =
      bar-injective (version_text e.from_version) (version_text f.from_version) _ _
        (version_text-HasNoBar e.from_version) (version_text-HasNoBar f.from_version)
        (after_action.1) in
    let after_to =
      bar-injective (decimal e.to_version) (decimal f.to_version) _ _
        (decimal-HasNoBar e.to_version) (decimal-HasNoBar f.to_version) (after_from.1) in
    (bar-injective (prev_text e) (prev_text f) _ _ p q (after_to.1)).0

-- The hash of the last event.
abbrev pub last_hash : List AgentIdentityAuditEvent → Text
last_hash [] = []
last_hash (e ∷ []) = e.event_hash
last_hash (e ∷ f ∷ events) = last_hash (f ∷ events)

-- Event for event, the same fields are hashed.
abbrev pub SameInputs : List AgentIdentityAuditEvent → List AgentIdentityAuditEvent → Type 0
SameInputs [] [] = Unit
SameInputs (e ∷ es) (f ∷ fs) = (hash_input e ≡ hash_input f) × SameInputs es fs
SameInputs _ _ = ⊥

module _ (sha256_hex : Text → Text) (hexadecimal : (s : Text) → HasNoBar (sha256_hex s)) where
  linked_agree :
      (i j : ℕ) (before before' : Option AgentIdentityAuditEvent) (e f : AgentIdentityAuditEvent)
      (es fs : List AgentIdentityAuditEvent)
      → IsLinked sha256_hex i before (e ∷ es)
      → IsLinked sha256_hex j before' (f ∷ fs)
      → HasNoBar (prev_text e)
      → HasNoBar (prev_text f)
      → length es ≡ length fs
      → last_hash (e ∷ es) ≡ last_hash (f ∷ fs)
      → SameInputs (e ∷ es) (f ∷ fs) ⊎ Collision sha256_hex
  unfolding compute_hash
  linked_agree i j before before' e f [] [] h k p q l s =
      elim (same_or_Collision sha256_hex (hash_input e) (hash_input f) (sym (h.0) ∙ s ∙ k.0)) [
        | inl same ↦ inl (same, tt)
        | inr c ↦ inr c
      ]
  linked_agree i j before before' e f [] (f2 ∷ fs) h k p q l s = absurd (omega (arith, l))
  linked_agree i j before before' e f (e2 ∷ es) [] h k p q l s = absurd (omega (arith, l))
  linked_agree i j before before' e f (e2 ∷ es) (f2 ∷ fs) h k p q l s =
      let prev_e : prev_text e2 ≡ e.event_hash = ap (λ o. get_or o []) (h.2.1) in
      let prev_f : prev_text f2 ≡ f.event_hash = ap (λ o. get_or o []) (k.2.1) in
      let clean_e = subst HasNoBar (sym (prev_e ∙ h.0)) (hexadecimal (hash_input e)) in
      let clean_f = subst HasNoBar (sym (prev_f ∙ k.0)) (hexadecimal (hash_input f)) in
      elim (linked_agree (i + 1) (j + 1) (some e) (some f) e2 f2 es fs (h.2) (k.2) clean_e clean_f
        (omega (arith, l)) s) [
          | inr c ↦ inr c
          | inl rest ↦
              let hashes : e.event_hash ≡ f.event_hash =
                sym prev_e ∙ input-prev e2 f2 clean_e clean_f (rest.0) ∙ prev_f in
              elim (same_or_Collision sha256_hex (hash_input e) (hash_input f)
                (sym (h.0) ∙ hashes ∙ k.0)) [ inl same ↦ inl (same, rest) | inr c ↦ inr c ]
        ]

  genesis_link :
      (e : AgentIdentityAuditEvent) (es : List AgentIdentityAuditEvent)
      → (verify_audit_chain sha256_hex (e ∷ es)).valid ≡ true
      → eqb e.event_hash [] ≡ false
      → IsLinked sha256_hex 0 none (e ∷ es) × HasNoBar (prev_text e)
  genesis_link e es h n =
      let chain : IsChain sha256_hex 0 (e ∷ es) =
        (verify_audit_chain_iff sha256_hex (e ∷ es)).0 h in
      let linked : IsLinked sha256_hex 0 none (e ∷ es) =
        (IsChain-IsLinked sha256_hex 0 e es n).0 chain in
      (
        linked,
        elim (Option-cases e.prev_hash) [
          | inl p ↦ ground (arith, p)
          | inr (ph, p) ↦ absurd (ground (arith, p, linked.1))
        ],
      )

  -- If the digests have no bar, two valid logs of one length, both of which start with an event that
  -- carries a hash, and which end in one hash, agree in all fields that are hashed, event for event,
  -- or there are two different texts with one digest.
  pub audit_tamper_evident :
      (e f : AgentIdentityAuditEvent) (es fs : List AgentIdentityAuditEvent)
      → (verify_audit_chain sha256_hex (e ∷ es)).valid ≡ true
      → (verify_audit_chain sha256_hex (f ∷ fs)).valid ≡ true
      → eqb e.event_hash [] ≡ false
      → eqb f.event_hash [] ≡ false
      → length es ≡ length fs
      → last_hash (e ∷ es) ≡ last_hash (f ∷ fs)
      → SameInputs (e ∷ es) (f ∷ fs) ⊎ Collision sha256_hex
  audit_tamper_evident e f es fs h k n m l s =
      let (le, pe) = genesis_link e es h n in
      let (lf, pf) = genesis_link f fs k m in linked_agree 0 0 none none e f es fs le lf pe pf l s
