-- ===== src/Ingest/Levels.antt =====
-- How far the turns of a round bring each user.
use mnemo.Base.{
  ℕ, suc, ◌≤◌, ◌<◌, ◌≡◌, refl, sym, ap, subst, ◌∙◌, ◌⊎◌, inl, inr, true, false, leb, ◌==◌, List, [],
  ◌∷◌, length, length-append, keep, keep-here, keep-other, All, arith, Bool-cases,
}
use mnemo.Models.Episode.{Episode}
use mnemo.Ingest.{Selection, take_turn, take_turns}
use mnemo.Ingest.Turns.{waiting, AreDistinct, Took, turn-cases}
use mnemo.Ingest.Ranks.{of_user}
use mnemo.Ingest.Batch.{waiting-put, Took-IsOwned, keep-snoc, IsOwned}

-- How many episodes of a user are selected.
abbrev pub count : Selection → ℕ → ℕ
count s u = length (keep (of_user u) s.selected)

-- Nothing has changed for a user.
abbrev pub IsSame : Selection → Selection → ℕ → Type 0
IsSame s after u = (count after u ≡ count s u) × (waiting after.queues u ≡ waiting s.queues u)

-- After `r` full rounds, a user has `r` selected episodes, or fewer and none that waits.
pub record Level (r : ℕ) (s : Selection) (u : ℕ) : Type 0 where
  pub most : count s u ≤ r
  pub least : (r ≤ count s u) ⊎ (waiting s.queues u ≡ [])

-- Within the round after.
pub record Within (r : ℕ) (s : Selection) (u : ℕ) : Type 0 where
  pub most : count s u ≤ suc r
  pub least : (r ≤ count s u) ⊎ (waiting s.queues u ≡ [])

Level-same :
    (r : ℕ) (s after : Selection) (u : ℕ) → IsSame s after u → Level r s u → Level r after u
Level-same r s after u e l = record {
  most = omega (arith, e.0, l.most);
  least = elim l.least [ inl p ↦ inl (omega (arith, e.0, p)) | inr p ↦ inr (e.1 ∙ p) ];
}

Within-same :
    (r : ℕ) (s after : Selection) (u : ℕ) → IsSame s after u → Within r s u → Within r after u
Within-same r s after u e l = record {
  most = omega (arith, e.0, l.most);
  least = elim l.least [ inl p ↦ inl (omega (arith, e.0, p)) | inr p ↦ inr (e.1 ∙ p) ];
}

pub Level-Within : (r : ℕ) (s : Selection) (u : ℕ) → Level r s u → Within r s u
Level-Within r s u l = record { most = omega (arith, l.most); least = l.least }

next-Within : (r : ℕ) (s : Selection) (u : ℕ) → Level (suc r) s u → Within r s u
next-Within r s u l = record {
  most = l.most;
  least = elim l.least [ inl p ↦ inl (omega (arith, p)) | inr p ↦ inr p ];
}

-- A turn of `v` serves `v` and no other.
Took-other :
    (u v : ℕ) (s after : Selection) (e : Episode) (queue : List Episode)
    → Took v s after e queue
    → IsOwned s.queues
    → (u == v) ≡ false
    → IsSame s after u
Took-other u v s after e queue t o p =
    let own = (subst (All (λ f. of_user v f ≡ true)) t.was (o v)).0 in
    let kept = ap (keep (of_user u)) t.selected ∙ keep-snoc u s.selected e in
    elim (waiting-put u v queue s.queues) [
      | inl (same, q) ↦ absurd (ground arith)
      | inr (other, q) ↦ (
        ap length kept
            ∙ length-append (keep (of_user u) s.selected) (keep (of_user u) (e ∷ []))
            ∙ omega (arith, ap length (keep-other (of_user u) e [] (ground arith))),
        ap (λ m. waiting m u) t.queues ∙ q,
      )
    ]

Took-self :
    (v : ℕ) (s after : Selection) (e : Episode) (queue : List Episode)
    → Took v s after e queue
    → IsOwned s.queues
    → count after v ≡ suc (count s v)
Took-self v s after e queue t o =
    let own = (subst (All (λ f. of_user v f ≡ true)) t.was (o v)).0 in
    ap length (ap (keep (of_user v)) t.selected ∙ keep-snoc v s.selected e)
    ∙ length-append (keep (of_user v) s.selected) (keep (of_user v) (e ∷ []))
    ∙ omega (arith, ap length (keep-here (of_user v) e [] own))

turn-other :
    (u v : ℕ) (s : Selection) → IsOwned s.queues → (u == v) ≡ false → IsSame s (take_turn v s) u
turn-other u v s o p = elim (turn-cases v s) [
  | inl (w, q) ↦ rw (q) (refl, refl)
  | inr (e, queue, t) ↦ Took-other u v s (take_turn v s) e queue t o p
]

turn_self :
    (r v : ℕ) (s : Selection) → IsOwned s.queues → Level r s v → Level (suc r) (take_turn v s) v
turn_self r v s o l = elim (turn-cases v s) [
  | inl (w, q) ↦ rw (q) (record { most = omega (arith, l.most); least = inr w })
  | inr (e, queue, t) ↦
      let more = Took-self v s (take_turn v s) e queue t o in
      elim l.least [
        | inl p ↦ record {
          most = omega (arith, more, l.most);
          least = inl (omega (arith, more, p));
        }
        | inr p ↦ absurd (ground (arith, t.was, p))
      ]
]

turn-IsOwned : (v : ℕ) (s : Selection) → IsOwned s.queues → IsOwned (take_turn v s).queues
turn-IsOwned v s o = elim (turn-cases v s) [
  | inl (w, q) ↦ rw (q) o
  | inr (e, queue, t) ↦ Took-IsOwned v s (take_turn v s) e queue t o
]

turn-Levels :
    (r v : ℕ) (s : Selection) (users : List ℕ)
    → IsOwned s.queues
    → All (λ u. (v == u) ≡ false) users
    → All (Level r s) users
    → All (Level r (take_turn v s)) users
turn-Levels r v s [] o d l = tt
turn-Levels r v s (u ∷ users) o d l = (
  Level-same r s (take_turn v s) u (turn-other u v s o (ground (arith, d.0))) l.0,
  turn-Levels r v s users o d.1 l.1,
)

-- What the turns of some users do to the level of each user.
turns-other :
    (batch : ℕ) (users : List ℕ) (s : Selection) (u : ℕ)
    → IsOwned s.queues
    → All (λ v. (u == v) ≡ false) users
    → IsSame s (take_turns batch users s) u
unfolding take_turns
turns-other batch [] s u o d = (refl, refl)
turns-other batch (v ∷ users) s u o d = elim (Bool-cases (leb batch (length s.selected))) [
  | inl b ↦ rw (b, take_turns) (refl, refl)
  | inr b ↦
      let first = turn-other u v s o d.0 in
      let rest = turns-other batch users (take_turn v s) u (turn-IsOwned v s o) d.1 in
      rw (b, take_turns) (rest.0 ∙ first.0, rest.1 ∙ first.1)
]

pub turns-IsOwned :
    (batch : ℕ) (users : List ℕ) (s : Selection)
    → IsOwned s.queues
    → IsOwned (take_turns batch users s).queues
unfolding take_turns
turns-IsOwned batch [] s o = o
turns-IsOwned batch (v ∷ users) s o = elim (Bool-cases (leb batch (length s.selected))) [
  | inl b ↦ rw (b, take_turns) o
  | inr b ↦ rw (b, take_turns) (turns-IsOwned batch users (take_turn v s) (turn-IsOwned v s o))
]

turn-empty :
    (u v : ℕ) (s : Selection)
    → IsOwned s.queues
    → waiting s.queues u ≡ []
    → IsSame s (take_turn v s) u
turn-empty u v s o w = elim (Bool-cases (u == v)) [
  | inr p ↦ turn-other u v s o p
  | inl p ↦ elim (turn-cases v s) [
    | inl (none_waits, q) ↦ rw (q) (refl, refl)
    | inr (e, queue, t) ↦
        let same : u ≡ v = ground arith in
        absurd (ground (arith, t.was, subst (λ x. waiting s.queues x ≡ []) same w))
  ]
]

pub turns-empty :
    (batch : ℕ) (users : List ℕ) (s : Selection) (u : ℕ)
    → IsOwned s.queues
    → waiting s.queues u ≡ []
    → IsSame s (take_turns batch users s) u
unfolding take_turns
turns-empty batch [] s u o w = (refl, refl)
turns-empty batch (v ∷ users) s u o w = elim (Bool-cases (leb batch (length s.selected))) [
  | inl b ↦ rw (b, take_turns) (refl, refl)
  | inr b ↦
      let first = turn-empty u v s o w in
      let rest = turns-empty batch users (take_turn v s) u (turn-IsOwned v s o) (first.1 ∙ w) in
      rw (b, take_turns) (rest.0 ∙ first.0, rest.1 ∙ first.1)
]

-- A round keeps every user within one of the round before.
pub turns-Within :
    (r batch : ℕ) (users : List ℕ) (s : Selection)
    → AreDistinct users
    → IsOwned s.queues
    → All (Level r s) users
    → ((u : ℕ) → Within r s u)
    → (u : ℕ) → Within r (take_turns batch users s) u
unfolding take_turns
turns-Within r batch [] s d o l w u = w u
turns-Within r batch (v ∷ users) s d o l w u = elim (Bool-cases (leb batch (length s.selected))) [
  | inl b ↦ rw (b, take_turns) (w u)
  | inr b ↦
      rw (b, take_turns)
        (turns-Within r batch users (take_turn v s) d.1 (turn-IsOwned v s o)
          (turn-Levels r v s users o d.0 l.1)
          (λ x. elim (Bool-cases (x == v)) [
            | inr p ↦ Within-same r s (take_turn v s) x (turn-other x v s o p) (w x)
            | inl p ↦
                let same : v ≡ x = ground arith in
                subst (Within r (take_turn v s)) same
                  (next-Within r (take_turn v s) v (turn_self r v s o l.0))
          ])
          u)
]

-- A round that does not fill the batch brings its users to the next level.
pub turns-Levels :
    (r batch : ℕ) (users : List ℕ) (s : Selection)
    → AreDistinct users
    → IsOwned s.queues
    → All (Level r s) users
    → length (take_turns batch users s).selected < batch
    → All (Level (suc r) (take_turns batch users s)) users
unfolding take_turns
turns-Levels r batch [] s d o l f = tt
turns-Levels r batch (v ∷ users) s d o l f = elim (Bool-cases (leb batch (length s.selected))) [
  | inl b ↦ absurd (ground (arith, b, f))
  | inr b ↦
      let first = take_turn v s in
      let owned = turn-IsOwned v s o in
      let step : take_turns batch (v ∷ users) s ≡ take_turns batch users first =
        rw (b, take_turns) refl in
      subst (λ after. All (Level (suc r) after) (v ∷ users)) (sym step)
        (
          Level-same (suc r) first (take_turns batch users first) v
              (turns-other batch users first v owned d.0) (turn_self r v s o l.0),
          turns-Levels r batch users first d.1 owned (turn-Levels r v s users o d.0 l.1)
              (ground (arith, b, f)),
        )
]
