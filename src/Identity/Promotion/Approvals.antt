-- ===== src/Identity/Promotion/Approvals.antt =====
-- A proposal under any sequence of approvals and rejections, routes.rs and agent.rs.
use mnemo.Base.{
  ℕ, ◌≤◌, ◌≡◌, refl, sym, subst, ◌∙◌, Bool, true, false, ◌||◌, leb, Option, none, List, [], ◌∷◌,
  ◌++◌, any, length, leb→le, arith, Bool-cases, Option-cases, inl, inr,
}
use mnemo.Base.Order.{Text, text_ord, eqb}
use mnemo.Base.Ascii.{trim}
use mnemo.Identity.Proofs.{Value}
use mnemo.Identity.History.{AgentStore, Stamp}
use mnemo.Identity.Promotion.{
  PromotionStatus, pending, approved, rejected, expired, PromotionProposal,
  CreatePromotionProposalRequest, ApprovalPolicy, requirement_for_risk, from_request, is_pending,
  is_expired, cooling_period_elapsed, has_quorum, validate_identity_core, Review, record_approver,
  conclude_approval, approve, reject,
}

abbrev pub is_approved : PromotionStatus → Bool
is_approved approved = true
is_approved _ = false

-- No name stands twice.
abbrev pub AreDistinct : List Text → Type 0
AreDistinct [] = Unit
AreDistinct (name ∷ names) = (any (eqb name) names ≡ false) × AreDistinct names

eqb-sym : (a b : Text) → eqb a b ≡ eqb b a
eqb-sym a b = ground (arith, text_ord.swapped a b)

any-snoc :
    (x name : Text) (names : List Text)
    → any (eqb x) (names ++ name ∷ []) ≡ (any (eqb x) names || eqb x name)
any-snoc x name [] = ground arith
any-snoc x name (y ∷ names) = ground (arith, any-snoc x name names)

snoc-AreDistinct :
    (name : Text) (names : List Text)
    → any (eqb name) names ≡ false
    → AreDistinct names
    → AreDistinct (names ++ name ∷ [])
snoc-AreDistinct name [] h d = (refl, tt)
snoc-AreDistinct name (x ∷ names) h d = (
  ground (arith, any-snoc x name names, eqb-sym x name),
  snoc-AreDistinct name names (ground arith) (d.1),
)

-- The requests to the two handlers.
pub data Decision : Type 0 where
  approval : Stamp → Stamp → Text → Decision
  rejection : ℕ → Option Text → Decision

pending_is_open : (s : PromotionStatus) → is_pending s ≡ true → is_approved s ≡ false
pending_is_open pending h = refl
pending_is_open approved h = absurd (ground arith)
pending_is_open rejected h = refl
pending_is_open expired h = refl

module _ (sha256_hex : Text → Text) (policy : ApprovalPolicy) where
  abbrev decide : Decision → Review → Review
  decide (Decision.approval first second name) r = (approve sha256_hex policy first second name r).0
  decide (Decision.rejection now reason) r = (reject now reason r).0

  abbrev pub decide_all : List Decision → Review → Review
  decide_all [] r = r
  decide_all (d ∷ decisions) r = decide_all decisions (decide d r)

  -- What is so of a proposal with this core and risk level, and of the store that its agent began
  -- with.
  pub record IsGoverned (core : Value) (risk : Text) (agent : AgentStore) (r : Review)
      : Type 0 where
    pub same_core : r.proposal.candidate_core ≡ core
    pub same_risk : r.proposal.risk_level ≡ risk
    pub distinct : AreDistinct r.proposal.approvers
    pub approved_enough :
        is_approved r.proposal.status ≡ true
        → ((requirement_for_risk policy risk).min_approvers ≤ length r.proposal.approvers)
          × (validate_identity_core core ≡ none)
    pub untouched : is_approved r.proposal.status ≡ false → r.agent ≡ agent

  module _ (core : Value) (risk : Text) (agent : AgentStore) where
    recorded-IsGoverned :
        (name : Text) (r : Review)
        → is_pending r.proposal.status ≡ true
        → IsGoverned core risk agent r
        → IsGoverned core risk agent (record r { proposal = record_approver name r.proposal })
    unfolding record_approver
    recorded-IsGoverned name r waits g = elim (Bool-cases (any (eqb name) r.proposal.approvers)) [
      | inl p ↦ rw (p, record_approver) g
      | inr p ↦
          rw (p, record_approver)
            (record {
              same_core = g.same_core;
              same_risk = g.same_risk;
              distinct = snoc-AreDistinct name r.proposal.approvers p g.distinct;
              approved_enough =
                  λ a. absurd (ground (arith, pending_is_open r.proposal.status waits));
              untouched = g.untouched;
            })
    ]

    concluded-IsGoverned :
        (first second : Stamp) (p : PromotionProposal) (r : Review)
        → IsGoverned core risk agent r
        → IsGoverned core risk agent (record r { proposal = p })
        → IsGoverned core risk agent (conclude_approval sha256_hex policy first second p r).0
    unfolding conclude_approval has_quorum
    concluded-IsGoverned first second p r g h =
        elim (Bool-cases
          (leb (requirement_for_risk policy p.risk_level).min_approvers (length p.approvers))) [
            | inr few ↦ rw (few, conclude_approval) h
            | inl enough ↦ elim (Option-cases (validate_identity_core p.candidate_core)) [
              | inr (message, bad) ↦ rw (enough, conclude_approval) (rw bad g)
              | inl ok ↦
                  rw (enough, conclude_approval)
                    (rw ok (record {
                      same_core = h.same_core;
                      same_risk = h.same_risk;
                      distinct = h.distinct;
                      approved_enough = λ a. (
                        subst
                            (λ x.
                              (requirement_for_risk policy x).min_approvers ≤ length p.approvers)
                            h.same_risk (leb→le _ _ enough),
                        subst (λ c. validate_identity_core c ≡ none) h.same_core ok,
                      );
                      untouched = λ a. absurd (ground arith);
                    }))
            ]
          ]

    -- A proposal that is closed without an approval.
    closed-IsGoverned :
        (q : PromotionProposal) (r : Review)
        → is_pending r.proposal.status ≡ true
        → IsGoverned core risk agent r
        → q.candidate_core ≡ r.proposal.candidate_core
        → q.risk_level ≡ r.proposal.risk_level
        → q.approvers ≡ r.proposal.approvers
        → is_approved q.status ≡ false
        → IsGoverned core risk agent (record r { proposal = q })
    closed-IsGoverned q r waits g a b c n = record {
      same_core = a ∙ g.same_core;
      same_risk = b ∙ g.same_risk;
      distinct = subst AreDistinct (sym c) g.distinct;
      approved_enough = λ h. absurd (ground arith);
      untouched = λ h. g.untouched (pending_is_open r.proposal.status waits);
    }

    approve-IsGoverned :
        (first second : Stamp) (name : Text) (r : Review)
        → IsGoverned core risk agent r
        → IsGoverned core risk agent (approve sha256_hex policy first second name r).0
    unfolding approve
    approve-IsGoverned first second name r g = elim (Bool-cases (is_pending r.proposal.status)) [
      | inr p ↦ rw (p, approve) g
      | inl p ↦ elim (Bool-cases (is_expired first.now policy r.proposal)) [
        | inl q ↦ rw (p, approve) (rw q (closed-IsGoverned _ r p g refl refl refl refl))
        | inr q ↦ elim (Bool-cases (cooling_period_elapsed first.now policy r.proposal)) [
          | inr c ↦ rw (p, approve) (rw q (rw c g))
          | inl c ↦
              rw (p, approve)
                (rw q (
                  rw c (
                    concluded-IsGoverned first second (record_approver name r.proposal) r g
                      (recorded-IsGoverned name r p g))))
        ]
      ]
    ]

    reject-IsGoverned :
        (now : ℕ) (reason : Option Text) (r : Review)
        → IsGoverned core risk agent r
        → IsGoverned core risk agent (reject now reason r).0
    unfolding reject
    reject-IsGoverned now reason r g = elim (Bool-cases (is_pending r.proposal.status)) [
      | inr p ↦ rw (p, reject) g
      | inl p ↦ elim (Option-cases reason) [
        | inl none_given ↦
            rw (p, reject) (rw none_given (closed-IsGoverned _ r p g refl refl refl refl))
        | inr (why, given) ↦ elim (Bool-cases (eqb (trim why) [])) [
          | inl blank ↦
              rw (p, reject) (rw given (rw blank (closed-IsGoverned _ r p g refl refl refl refl)))
          | inr noted ↦
              rw (p, reject) (rw given (rw noted (closed-IsGoverned _ r p g refl refl refl refl)))
        ]
      ]
    ]

    decided-IsGoverned :
        (decisions : List Decision) (r : Review)
        → IsGoverned core risk agent r
        → IsGoverned core risk agent (decide_all decisions r)
    decided-IsGoverned [] r g = g
    decided-IsGoverned (Decision.approval first second name ∷ decisions) r g =
        decided-IsGoverned decisions _ (approve-IsGoverned first second name r g)
    decided-IsGoverned (Decision.rejection now reason ∷ decisions) r g =
        decided-IsGoverned decisions _ (reject-IsGoverned now reason r g)

-- Whatever approvals and rejections a new proposal gets under one policy, its approvers have distinct
-- names; if it is approved, there are at least as many as the policy asks for at its risk level, and
-- its core is a valid one; and as long as it is not approved, the identity of the agent is untouched.
pub approval-IsGoverned :
    (sha256_hex : Text → Text) (policy : ApprovalPolicy) (new_id now : ℕ) (agent_id : Text)
    (req : CreatePromotionProposalRequest) (agent : AgentStore) (decisions : List Decision)
    → IsGoverned sha256_hex policy req.candidate_core req.risk_level agent (
        decide_all sha256_hex policy decisions
          (record { proposal = from_request new_id now agent_id req; agent = agent }))
unfolding from_request
approval-IsGoverned sha256_hex policy new_id now agent_id req agent decisions =
    decided-IsGoverned sha256_hex policy req.candidate_core req.risk_level agent decisions _
      (record {
        same_core = refl;
        same_risk = refl;
        distinct = tt;
        approved_enough = λ h. absurd (ground arith);
        untouched = λ h. refl;
      })
