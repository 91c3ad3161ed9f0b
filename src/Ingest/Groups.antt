-- ===== src/Ingest/Groups.antt =====
-- How `poll_and_process` groups the pending episodes by user.
use mathlib.Core.List.{Memᴰ}
use mnemo.Base.{
  ℕ, suc, ◌+◌, ◌≡◌, refl, subst, inl, inr, true, false, ◌==◌, none, is_some, List, [], ◌∷◌, ◌++◌,
  length, length-append, All, All-append, All-imp, arith, Bool-cases, Option-cases,
}
use mnemo.Models.Episode.{Episode}
use mnemo.Ingest.{PerUser, put, Ranked, Grouped, group_one, group, episode_priority}
use mnemo.Ingest.Turns.{total, total-put, total-put_other, AreDistinct}

-- The listed users are those with a queue, each once.
pub record IsGrouped (g : Grouped) : Type 0 where
  pub distinct : AreDistinct g.user_order
  pub listed : (u : ℕ) → is_some (g.per_user u) ≡ true → Memᴰ u g.user_order
  pub known : All (λ u. is_some (g.per_user u) ≡ true) g.user_order

snoc-mem : (u : ℕ) (users : List ℕ) → Memᴰ u (users ++ u ∷ [])
snoc-mem u [] = Memᴰ.head refl
snoc-mem u (v ∷ users) = Memᴰ.tail (snoc-mem u users)

mem-append : (u : ℕ) (users more : List ℕ) → Memᴰ u users → Memᴰ u (users ++ more)
mem-append u [] more i = elim i [ ]
mem-append u (v ∷ users) more (Memᴰ.head e) = Memᴰ.head e
mem-append u (v ∷ users) more (Memᴰ.tail i) = Memᴰ.tail (mem-append u users more i)

snoc-AreDistinct :
    (u : ℕ) (users : List ℕ)
    → All (λ v. (v == u) ≡ false) users
    → AreDistinct users
    → AreDistinct (users ++ u ∷ [])
snoc-AreDistinct u [] h d = (tt, tt)
snoc-AreDistinct u (v ∷ users) h d = (
  All-append (λ w. (v == w) ≡ false) users (u ∷ []) d.0 (h.0, tt),
  snoc-AreDistinct u users h.1 d.1,
)

total-append :
    {A : Type 0} (m : PerUser A) (users more : List ℕ)
    → total m (users ++ more) ≡ total m users + total m more
total-append m [] more = omega arith
total-append m (u ∷ users) more = omega (arith, total-append m users more)

-- A user without a queue is none of those with one.
no_queue :
    {A : Type 0} (m : PerUser A) (u : ℕ) (users : List ℕ)
    → m u ≡ none
    → All (λ v. is_some (m v) ≡ true) users
    → All (λ v. ((u == v) ≡ false) × ((v == u) ≡ false)) users
no_queue m u [] n k = tt
no_queue m u (v ∷ users) n k = elim (Bool-cases (u == v)) [
  | inl p ↦ absurd (ground arith)
  | inr p ↦ ((p, ground arith), no_queue m u users n k.1)
]

put-known :
    {A : Type 0} (u : ℕ) (queue : List A) (m : PerUser A) (users : List ℕ)
    → All (λ v. is_some (m v) ≡ true) users
    → All (λ v. is_some (put u queue m v) ≡ true) users
put-known u queue m users = All-imp _ _ (λ v k. ground arith) users

pub group_one-IsGrouped :
    (index : ℕ) (e : Episode) (g : Grouped) → IsGrouped g → IsGrouped (group_one index e g)
unfolding group_one
group_one-IsGrouped index e g i = elim (Option-cases (g.per_user e.user_id)) [
  | inr (queue, p) ↦ record {
    distinct = rw (p, group_one) i.distinct;
    listed = λ u h. elim (Bool-cases (u == e.user_id)) [
      | inl q ↦ rw (p, group_one) (i.listed u (ground arith))
      | inr q ↦ rw (p, group_one) (i.listed u (ground arith))
    ];
    known = rw (p, group_one) (put-known e.user_id _ g.per_user g.user_order i.known);
  }
  | inl p ↦
      let others = no_queue g.per_user e.user_id g.user_order p i.known in
      record {
        distinct =
            rw (p, group_one)
              (snoc-AreDistinct e.user_id g.user_order
                (All-imp _ _ (λ v h. h.1) g.user_order others) i.distinct);
        listed = λ u h. elim (Bool-cases (u == e.user_id)) [
          | inl q ↦
              rw (p, group_one)
                (subst (λ v. Memᴰ v (g.user_order ++ e.user_id ∷ [])) (ground arith)
                  (snoc-mem e.user_id g.user_order))
          | inr q ↦
              rw (p, group_one)
                (mem-append u g.user_order (e.user_id ∷ []) (i.listed u (ground arith)))
        ];
        known =
            rw (p, group_one)
              (All-append _ g.user_order (e.user_id ∷ [])
                (put-known e.user_id _ g.per_user g.user_order i.known) (ground arith, tt));
      }
]

pub total-group_one :
    (index : ℕ) (e : Episode) (g : Grouped)
    → IsGrouped g
    → total (group_one index e g).per_user (group_one index e g).user_order
      ≡ suc (total g.per_user g.user_order)
unfolding group_one
total-group_one index e g i =
    let r : Ranked = record { priority = episode_priority e.content; index = index; episode = e } in
    elim (Option-cases (g.per_user e.user_id)) [
      | inr (queue, p) ↦ ground (
        arith,
        p,
        length-append queue (r ∷ []),
        total-put e.user_id (queue ++ r ∷ []) g.per_user g.user_order
            (i.listed e.user_id (ground (arith, p))) i.distinct,
      )
      | inl p ↦
          let m = put e.user_id (r ∷ []) g.per_user in
          ground (
            arith,
            p,
            total-append m g.user_order (e.user_id ∷ []),
            total-put_other e.user_id (r ∷ []) g.per_user g.user_order (
                All-imp _ _ (λ v h. h.0) g.user_order
                  (no_queue g.per_user e.user_id g.user_order p i.known)),
          )
    ]

pub group-IsGrouped :
    (index : ℕ) (pending : List Episode) (g : Grouped)
    → IsGrouped g
    → IsGrouped (group index pending g)
unfolding group
group-IsGrouped index [] g i = i
group-IsGrouped index (e ∷ pending) g i =
    group-IsGrouped (suc index) pending (group_one index e g) (group_one-IsGrouped index e g i)

pub total-group :
    (index : ℕ) (pending : List Episode) (g : Grouped)
    → IsGrouped g
    → total (group index pending g).per_user (group index pending g).user_order
      ≡ total g.per_user g.user_order + length pending
unfolding group
total-group index [] g i = omega arith
total-group index (e ∷ pending) g i = omega (
  arith,
  total-group_one index e g i,
  total-group (suc index) pending (group_one index e g) (group_one-IsGrouped index e g i),
)
