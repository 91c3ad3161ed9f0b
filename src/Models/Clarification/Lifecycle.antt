-- ===== src/Models/Clarification/Lifecycle.antt =====
-- What resolving a clarification does to it and to the facts in conflict.
use mnemo.Base.{ℕ, ◌≡◌, true, false, not, ◌&&◌, if◌then◌else◌, ◌==◌, any, Option, none, some, List}
use mnemo.Base.Order.{Text}
use mnemo.Models.Edge.{Edge, invalidate, is_valid}
use mnemo.Models.Clarification.{ClarificationRequest, Store, is_pending, resolve}

-- A fact that loses: invalid from now on, unless it was invalid before.
abbrev pub after_loss : ℕ → Option Edge → Option Edge
after_loss now none = none
after_loss now (some e) = some (if is_valid e then invalidate now e 0 else e)

-- The facts after a resolution, said without the loop: those in conflict lose, the winner excepted.
abbrev pub settled : ℕ → Option ℕ → List ℕ → (ℕ → Option Edge) → ℕ → Option Edge
settled now none ids edges x = edges x
settled now (some winner_id) ids edges x =
    if any (λ i. i == x) ids && not (x == winner_id) then after_loss now (edges x) else edges x

-- What an accepted resolution of a clarification leaves: the clarification resolved with the answer,
-- no other clarification changed, and the facts settled.
pub record IsSettled (now user_id id : ℕ) (answer : Text) (winner : Option ℕ) (s after : Store)
    (c : ClarificationRequest) : Type 0 where
  pub was : s.clarifications id ≡ some c
  pub own : c.user_id ≡ user_id
  pub was_pending : is_pending c.status ≡ true
  pub resolved : after.clarifications id ≡ some (resolve now answer winner none c)
  pub others : (x : ℕ) → (x == id) ≡ false → after.clarifications x ≡ s.clarifications x
  pub facts : (x : ℕ) → after.edges x ≡ settled now winner c.conflict_edge_ids s.edges x
