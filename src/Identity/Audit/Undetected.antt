-- ===== src/Identity/Audit/Undetected.antt =====
-- Changes to a log that `verify_audit_chain` of agent.rs does not find.
use mnemo.Base.{
  ℕ, ◌+◌, ◌≤◌, ◌≡◌, ap, subst, ◌∙◌, true, false, Option, some, List, [], ◌∷◌, ◌++◌, All, map,
  length, arith, Bool-cases, inl, inr,
}
use mnemo.Base.Order.{Text, text_ord, eqb}
use mnemo.Identity.Audit.{AgentIdentityAuditEvent, hash_input, compute_hash, verify_audit_chain}
use mnemo.Identity.Audit.Links.{
  IsLinked, IsChain, verify_audit_chain_iff, IsChain-IsLinked, IsChain-blank,
}

-- An event with other words: its agent, the version rolled back to, and the reason.
abbrev pub reword :
    Text → Option ℕ → Option Text → AgentIdentityAuditEvent → AgentIdentityAuditEvent
reword agent_id rollback reason e = record e {
  agent_id = agent_id;
  rollback_to_version = rollback;
  reason = reason;
}

text-empty : eqb {K = Text} [] [] ≡ true
text-empty = ground (arith, text_ord.cmp_refl [])

module _ (sha256_hex : Text → Text) where
  module _ (agent_id : Text) (rollback : Option ℕ) (reason : Option Text) where
    abbrev worded : AgentIdentityAuditEvent → AgentIdentityAuditEvent
    worded = reword agent_id rollback reason

    IsLinked-reworded :
        (i : ℕ) (p : AgentIdentityAuditEvent) (events : List AgentIdentityAuditEvent)
        → IsLinked sha256_hex i (some p) events
        → IsLinked sha256_hex i (some (worded p)) (map worded events)
    unfolding compute_hash hash_input
    IsLinked-reworded i p [] h = tt
    IsLinked-reworded i p (e ∷ events) h = (h.0, h.1, IsLinked-reworded (i + 1) e events (h.2))

    IsChain-reworded :
        (i : ℕ) (events : List AgentIdentityAuditEvent)
        → IsChain sha256_hex i events
        → IsChain sha256_hex i (map worded events)
    unfolding compute_hash hash_input
    IsChain-reworded i [] h = tt
    IsChain-reworded i (e ∷ events) h = elim (Bool-cases (eqb e.event_hash [])) [
      | inl p ↦
          (IsChain-blank sha256_hex i (worded e) (map worded events) p).1
            (IsChain-reworded (i + 1) events ((IsChain-blank sha256_hex i e events p).0 h))
      | inr p ↦
          let linked = (IsChain-IsLinked sha256_hex i e events p).0 h in
          (IsChain-IsLinked sha256_hex i (worded e) (map worded events) p).1
            (linked.0, linked.1, IsLinked-reworded (i + 1) e events (linked.2))
    ]

    -- A valid log stays valid when the agent, the version rolled back to and the reason of every
    -- event are replaced.
    pub rewording_undetected :
        (events : List AgentIdentityAuditEvent)
        → (verify_audit_chain sha256_hex events).valid ≡ true
        → (verify_audit_chain sha256_hex (map worded events)).valid ≡ true
    rewording_undetected events h =
        (verify_audit_chain_iff sha256_hex (map worded events)).1
          (IsChain-reworded 0 events ((verify_audit_chain_iff sha256_hex events).0 h))

  renumbered :
      (i j : ℕ) (p : AgentIdentityAuditEvent) (events : List AgentIdentityAuditEvent)
      → IsLinked sha256_hex i (some p) events
      → IsLinked sha256_hex j (some p) events
  renumbered i j p [] h = tt
  renumbered i j p (e ∷ events) h = (h.0, h.1, renumbered (i + 1) (j + 1) e events (h.2))

  blanks_then :
      (i : ℕ) (blanks events : List AgentIdentityAuditEvent)
      → All (λ e. e.event_hash ≡ []) blanks
      → IsChain sha256_hex (i + length blanks) events
      → IsChain sha256_hex i (blanks ++ events)
  blanks_then i [] events a h = subst (λ n. IsChain sha256_hex n events) (omega arith) h
  blanks_then i (e ∷ blanks) events a h =
      (IsChain-blank sha256_hex i e (blanks ++ events) (ap (λ s. eqb s []) (a.0) ∙ text-empty)).1 (
        blanks_then (i + 1) blanks events (a.1)
          (subst (λ n. IsChain sha256_hex n events) (omega arith) h))

  -- In a valid log whose first two events carry a hash, the first can be replaced by any events
  -- without a hash, of which there is at least one, and the log stays valid.
  pub blanking_undetected :
      (e f : AgentIdentityAuditEvent) (rest blanks : List AgentIdentityAuditEvent)
      → (verify_audit_chain sha256_hex (e ∷ f ∷ rest)).valid ≡ true
      → eqb e.event_hash [] ≡ false
      → eqb f.event_hash [] ≡ false
      → All (λ b. b.event_hash ≡ []) blanks
      → 1 ≤ length blanks
      → (verify_audit_chain sha256_hex (blanks ++ f ∷ rest)).valid ≡ true
  blanking_undetected e f rest blanks h n m a l =
      let chain = (verify_audit_chain_iff sha256_hex (e ∷ f ∷ rest)).0 h in
      let linked = (IsChain-IsLinked sha256_hex 0 e (f ∷ rest) n).0 chain in
      (verify_audit_chain_iff sha256_hex (blanks ++ f ∷ rest)).1 (
        blanks_then 0 blanks (f ∷ rest) a (
          (IsChain-IsLinked sha256_hex (0 + length blanks) f rest m).1
            (linked.2.0, ground arith, renumbered 2 (0 + length blanks + 1) f rest (linked.2.2))))
