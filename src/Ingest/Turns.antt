-- ===== src/Ingest/Turns.antt =====
-- The round robin of `poll_and_process`: what a turn and a round do to the batch and the queues.
use mathlib.Core.List.{Memᴰ}
use mnemo.Base.{
  ℕ, zero, suc, ◌+◌, ◌≤◌, ◌<◌, ◌≡◌, refl, ◌∙◌, ◌⊎◌, inl, inr, true, false, leb, ltb, ◌==◌, get_or,
  List, [], ◌∷◌, ◌++◌, length, length-append, All, All-mem, All-self, arith, min, Bool-cases,
  Option-cases, List-cases,
}
use mnemo.Models.Episode.{Episode}
use mnemo.Ingest.{PerUser, put, Selection, take_turn, take_turns, take_rounds}

-- The episodes of a user that are still to be selected.
abbrev pub waiting : {A : Type 0} → PerUser A → ℕ → List A
waiting m u = get_or (m u) []

abbrev pub total : {A : Type 0} → PerUser A → List ℕ → ℕ
total m [] = 0
total m (u ∷ users) = length (waiting m u) + total m users

abbrev pub AreDistinct : List ℕ → Type 0
AreDistinct [] = Unit
AreDistinct (u ∷ users) = All (λ v. (u == v) ≡ false) users × AreDistinct users

pub waiting-put_same :
    {A : Type 0} (u : ℕ) (queue : List A) (m : PerUser A) → waiting (put u queue m) u ≡ queue
waiting-put_same u queue m = ground arith

pub total-put_other :
    {A : Type 0} (u : ℕ) (queue : List A) (m : PerUser A) (users : List ℕ)
    → All (λ v. (u == v) ≡ false) users
    → total (put u queue m) users ≡ total m users
total-put_other u queue m [] h = refl
total-put_other u queue m (v ∷ users) h = ground (arith, total-put_other u queue m users h.1)

-- A turn that selects an episode, and one that finds no episode.
pub record Took (u : ℕ) (s after : Selection) (e : Episode) (queue : List Episode) : Type 0 where
  pub was : waiting s.queues u ≡ e ∷ queue
  pub queues : after.queues ≡ put u queue s.queues
  pub selected : after.selected ≡ s.selected ++ e ∷ []
  pub progressed : after.progressed ≡ true

pub turn-cases :
    (u : ℕ) (s : Selection)
    → (((waiting s.queues u ≡ []) × (take_turn u s ≡ s))
        ⊎ ((e : Episode) × (queue : List Episode) × Took u s (take_turn u s) e queue))
unfolding take_turn
turn-cases u s = elim (Option-cases (s.queues u)) [
  | inl p ↦ inl (rw (p) refl, rw (p, take_turn) refl)
  | inr (queue, p) ↦ elim (List-cases queue) [
    | inl q ↦ inl (rw (p, q) refl, rw (p, q, take_turn) refl)
    | inr (e, rest, q) ↦ inr (
      e,
      rest,
      record {
        was = rw (p, q) refl;
        queues = rw (p, q, take_turn) refl;
        selected = rw (p, q, take_turn) refl;
        progressed = rw (p, q, take_turn) refl;
      },
    )
  ]
]

pub total-put :
    {A : Type 0} (u : ℕ) (queue : List A) (m : PerUser A) (users : List ℕ)
    → Memᴰ u users
    → AreDistinct users
    → total (put u queue m) users + length (waiting m u) ≡ total m users + length queue
total-put u queue m [] i d = elim i [ ]
total-put u queue m (v ∷ users) (Memᴰ.head e) d =
    ground (arith, total-put_other v queue m users d.0)
total-put u queue m (v ∷ users) (Memᴰ.tail i) d =
    ground (arith, total-put u queue m users i d.1, All-mem _ i d.0)

-- What some turns do, `order` being all the users.
pub record Advance (batch : ℕ) (order : List ℕ) (s after : Selection) : Type 0 where
  pub conserved :
      length after.selected + total after.queues order ≡ length s.selected + total s.queues order
  pub grew : length s.selected ≤ length after.selected
  pub bounded : length s.selected ≤ batch → length after.selected ≤ batch
  pub moved :
      after.progressed ≡ true → s.progressed ≡ false → length s.selected < length after.selected

pub Advance-trans :
    {batch : ℕ} {order : List ℕ} {s middle after : Selection}
    → Advance batch order s middle
    → Advance batch order middle after
    → Advance batch order s after
Advance-trans {middle = middle} first rest = record {
  conserved = rest.conserved ∙ first.conserved;
  grew = omega (arith, first.grew, rest.grew);
  bounded = λ h. rest.bounded (first.bounded h);
  moved = λ p q. elim (Bool-cases middle.progressed) [
    | inl t ↦ omega (arith, first.moved t q, rest.grew)
    | inr t ↦ omega (arith, first.grew, rest.moved p t)
  ];
}

stays_progressed :
    (batch : ℕ) (users : List ℕ) (s : Selection)
    → s.progressed ≡ true
    → (take_turns batch users s).progressed ≡ true
unfolding take_turns
stays_progressed batch [] s p = p
stays_progressed batch (u ∷ users) s p = elim (Bool-cases (leb batch (length s.selected))) [
  | inl b ↦ rw (b, take_turns) p
  | inr b ↦
      rw (b, take_turns)
        (elim (turn-cases u s) [
          | inl (w, e) ↦ stays_progressed batch users (take_turn u s) (rw (e) p)
          | inr (e, queue, t) ↦ stays_progressed batch users (take_turn u s) t.progressed
        ])
]

module _ (batch : ℕ) (order : List ℕ) (d : AreDistinct order) where
  pub turn-Advance :
      (u : ℕ) (s : Selection)
      → Memᴰ u order
      → leb batch (length s.selected) ≡ false
      → Advance batch order s (take_turn u s)
  turn-Advance u s i b = elim (turn-cases u s) [
    | inl (w, e) ↦
        rw (e)
          (record { conserved = refl; grew = omega arith; bounded = λ h. h; moved = ground arith })
    | inr (e, queue, t) ↦ record {
      conserved = ground (
        arith,
        t.queues,
        t.selected,
        length-append s.selected (e ∷ []),
        total-put u queue s.queues order i d,
        t.was,
      );
      grew = ground (arith, t.selected, length-append s.selected (e ∷ []));
      bounded = λ h. ground (arith, t.selected, length-append s.selected (e ∷ []));
      moved = λ p q. ground (arith, t.selected, length-append s.selected (e ∷ []));
    }
  ]

  pub turns-Advance :
      (users : List ℕ) (s : Selection)
      → All (λ u. Memᴰ u order) users
      → Advance batch order s (take_turns batch users s)
  unfolding take_turns
  turns-Advance [] s a = record {
    conserved = refl;
    grew = omega arith;
    bounded = λ h. h;
    moved = ground arith;
  }
  turns-Advance (u ∷ users) s a = elim (Bool-cases (leb batch (length s.selected))) [
    | inl b ↦
        rw (b, take_turns)
          (record { conserved = refl; grew = omega arith; bounded = λ h. h; moved = ground arith })
    | inr b ↦
        rw (b, take_turns)
          (Advance-trans (turn-Advance u s a.0 b) (turns-Advance users (take_turn u s) a.1))
  ]

-- A round in which no turn finds an episode changes nothing, and is one that starts with a full batch
-- or with empty queues.
pub idle_turns :
    (batch : ℕ) (users : List ℕ) (s : Selection)
    → (take_turns batch users s).progressed ≡ false
    → ((take_turns batch users s ≡ s) × ((batch ≤ length s.selected) ⊎ (total s.queues users ≡ 0)))
unfolding take_turns
idle_turns batch [] s p = (refl, inr refl)
idle_turns batch (u ∷ users) s p = elim (Bool-cases (leb batch (length s.selected))) [
  | inl b ↦ (rw (b, take_turns) refl, inl (ground arith))
  | inr b ↦ elim (turn-cases u s) [
    | inl (w, e) ↦
        let rest = idle_turns batch users s (ground (arith, e)) in
        (rw (b, take_turns) (rw (e) rest.0), ground (arith, w, rest.1))
    | inr (e, queue, t) ↦
        absurd (ground (arith, b, stays_progressed batch users (take_turn u s) t.progressed))
  ]
]

-- The whole loop selects until the batch is full or the queues are empty.
pub rounds_fill :
    (fuel batch : ℕ) (order : List ℕ) (s : Selection)
    → AreDistinct order
    → batch ≤ fuel + length s.selected
    → length s.selected ≤ batch
    → length (take_rounds fuel batch order s).selected
      ≡ min batch (length s.selected + total s.queues order)
unfolding take_rounds
rounds_fill zero batch order s d f b = omega arith
rounds_fill (suc fuel) batch order s d f b = elim (Bool-cases (ltb (length s.selected) batch)) [
  | inr l ↦ ground arith
  | inl l ↦
      let start = record s { progressed = false } in
      let after = take_turns batch order start in
      let step = turns-Advance batch order d order start (All-self order) in
      elim (Bool-cases after.progressed) [
        | inl p ↦ ground (
          arith,
          p,
          l,
          step.conserved,
          step.bounded b,
          step.moved p refl,
          rounds_fill fuel batch order after d (omega (arith, step.moved p refl)) (step.bounded b),
        )
        | inr p ↦ ground (arith, p, l, idle_turns batch order start p)
      ]
]
