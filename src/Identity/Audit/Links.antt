-- ===== src/Identity/Audit/Links.antt =====
-- `verify_audit_chain`, agent.rs, against the links of the chain.
use mnemo.Base.{
  ℕ, ◌+◌, ◌≡◌, ◌↔◌, refl, true, false, ◌&&◌, ◌==◌, Option, none, some, is_some, List, [], ◌∷◌,
  arith, Bool-cases, Option-cases, inl, inr,
}
use mnemo.Base.Order.{Text, text_ord, eqb}
use mnemo.Identity.Audit.{
  AgentIdentityAuditEvent, compute_hash, verify_hash, check_genesis, check_link, check_event,
  check_rest, chain_breaks, verify_audit_chain,
}

module _ (sha256_hex : Text → Text) where
  -- An event carries its own hash, and the one of the event before it. The first of the chain may
  -- carry any, unless it is the first of the log, which carries none.
  abbrev pub Follows : ℕ → Option AgentIdentityAuditEvent → AgentIdentityAuditEvent → Type 0
  Follows i none e = (is_some e.prev_hash && i == 0) ≡ false
  Follows i (some p) e = e.prev_hash ≡ some p.event_hash

  abbrev pub IsLinked : ℕ → Option AgentIdentityAuditEvent → List AgentIdentityAuditEvent → Type 0
  IsLinked i before [] = Unit
  IsLinked i before (e ∷ events) =
      (e.event_hash ≡ compute_hash sha256_hex e)
      × Follows i before e
      × IsLinked (i + 1) (some e) events

  -- A log is events without a hash, and then a chain.
  abbrev pub IsChain : ℕ → List AgentIdentityAuditEvent → Type 0
  IsChain i [] = Unit
  IsChain i (e ∷ events) = elim (eqb e.event_hash []) [
    | true ↦ IsChain (i + 1) events
    | false ↦ IsLinked i none (e ∷ events)
  ]

  verify_hash_iff :
      (e : AgentIdentityAuditEvent)
      → (verify_hash sha256_hex e ≡ true) ↔ (e.event_hash ≡ compute_hash sha256_hex e)
  unfolding verify_hash
  verify_hash_iff e = (
    λ h. text_ord.eq_of_cmp e.event_hash (compute_hash sha256_hex e) (ground arith),
    λ h. ground (arith, text_ord.cmp_refl e.event_hash, h),
  )

  Follows-iff :
      (i : ℕ) (before : Option AgentIdentityAuditEvent) (e : AgentIdentityAuditEvent)
      → verify_hash sha256_hex e ≡ true
      → (check_event sha256_hex i before e ≡ none) ↔ Follows i before e
  unfolding check_event check_genesis check_link
  Follows-iff i none e h = ground arith
  Follows-iff i (some p) e h = elim (Option-cases e.prev_hash) [
    | inl q ↦ ground arith
    | inr (ph, q) ↦ ground (arith, text_ord.eq_of_cmp ph p.event_hash, text_ord.cmp_refl ph)
  ]

  check_event-verified :
      (i : ℕ) (before : Option AgentIdentityAuditEvent) (e : AgentIdentityAuditEvent)
      → check_event sha256_hex i before e ≡ none
      → verify_hash sha256_hex e ≡ true
  unfolding check_event
  check_event-verified i before e h = ground arith

  check_rest_iff :
      (i : ℕ) (before : Option AgentIdentityAuditEvent) (events : List AgentIdentityAuditEvent)
      → (check_rest sha256_hex i before events ≡ []) ↔ IsLinked i before events
  unfolding check_rest
  check_rest_iff i before [] = (λ h. tt, λ h. refl)
  check_rest_iff i before (e ∷ events) =
      let rest = check_rest_iff (i + 1) (some e) events in
      (
        λ h. elim (Option-cases (check_event sha256_hex i before e)) [
          | inl p ↦
              let ok = check_event-verified i before e p in
              ((verify_hash_iff e).0 ok, (Follows-iff i before e ok).0 p, rest.0 (ground arith))
          | inr (b, p) ↦ absurd (ground arith)
        ],
        λ h.
            let p = (Follows-iff i before e ((verify_hash_iff e).1 (h.0))).1 (h.1) in
            ground (arith, rest.1 (h.2)),
      )

  chain_breaks_iff :
      (i : ℕ) (events : List AgentIdentityAuditEvent)
      → (chain_breaks sha256_hex i events ≡ []) ↔ IsChain i events
  unfolding chain_breaks
  chain_breaks_iff i [] = (λ h. tt, λ h. refl)
  chain_breaks_iff i (e ∷ events) = elim (Bool-cases (eqb e.event_hash [])) [
    | inl p ↦ rw (p, chain_breaks, IsChain) (chain_breaks_iff (i + 1) events)
    | inr p ↦ rw (p, chain_breaks, IsChain) (check_rest_iff i none (e ∷ events))
  ]

  -- A log is valid exactly if, after a prefix of events without a hash, each event carries the hash
  -- of its own fields, and each but the first of these carries the hash of the one before it; the
  -- first carries no such hash if it is the first of the log.
  pub verify_audit_chain_iff :
      (events : List AgentIdentityAuditEvent)
      → ((verify_audit_chain sha256_hex events).valid ≡ true) ↔ IsChain 0 events
  unfolding verify_audit_chain
  verify_audit_chain_iff events =
      let (to, from) = chain_breaks_iff 0 events in
      (λ h. to (ground arith), λ h. ground (arith, from h))

  -- The chain starts at an event that carries a hash.
  pub IsChain-IsLinked :
      (i : ℕ) (e : AgentIdentityAuditEvent) (events : List AgentIdentityAuditEvent)
      → eqb e.event_hash [] ≡ false
      → (IsChain i (e ∷ events) ↔ IsLinked i none (e ∷ events))
  IsChain-IsLinked i e events n = rw (n, IsChain) (λ c. c, λ c. c)

  pub IsChain-blank :
      (i : ℕ) (e : AgentIdentityAuditEvent) (events : List AgentIdentityAuditEvent)
      → eqb e.event_hash [] ≡ true
      → (IsChain i (e ∷ events) ↔ IsChain (i + 1) events)
  IsChain-blank i e events n = rw (n, IsChain) (λ c. c, λ c. c)
