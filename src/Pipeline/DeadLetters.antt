-- ===== src/Pipeline/DeadLetters.antt =====
-- `DeadLetterQueue` of dag.rs. Each method holds the lock throughout.
use mathlib.Core.List.{append-nil, append_assoc}
use mnemo.Base.{
  ℕ, zero, suc, ◌-◌, ◌≤◌, ◌≡◌, refl, ap, sym, ◌∙◌, Bool, true, false, if◌then◌else◌, leb, ◌==◌,
  List, [], ◌∷◌, ◌++◌, reverse, take, drop, length, length-append, max, arith, Bool-cases, inl, inr,
}
use mnemo.Base.Order.{Text}
use mnemo.Pipeline.{PipelineStep}

pub record DeadLetterItem : Type 0 where
  pub episode_id : ℕ
  pub failed_at_step : PipelineStep
  pub retry_count : ℕ
  pub last_error : Text
  pub dead_lettered_at : ℕ

-- The oldest item stands first.
pub record DeadLetterQueue : Type 0 where
  pub items : List DeadLetterItem
  pub max_size : ℕ

abbrev pub new : ℕ → DeadLetterQueue
new max_size = record { items = []; max_size = max_size }

unfoldable pub push : DeadLetterQueue → DeadLetterItem → DeadLetterQueue
push q item = record q {
  items = (if leb q.max_size (length q.items) then drop 1 q.items else q.items) ++ item ∷ [];
}

unfoldable pub len : DeadLetterQueue → ℕ
len q = length q.items

unfoldable pub is_empty : DeadLetterQueue → Bool
is_empty q = len q == 0

unfoldable pub recent : DeadLetterQueue → ℕ → List DeadLetterItem
recent q limit = take limit (reverse q.items)

unfoldable pub drain : DeadLetterQueue → DeadLetterQueue × List DeadLetterItem
drain q = (record q { items = [] }, q.items)

abbrev pub push_all : DeadLetterQueue → List DeadLetterItem → DeadLetterQueue
push_all q [] = q
push_all q (i ∷ is) = push_all (push q i) is

-- The last `n` members of a list.
abbrev pub last {ℓ} : {A : Type ℓ} → ℕ → List A → List A
last n xs = drop (length xs - n) xs

module _ {A : Type 0} where
  drop-append : (n : ℕ) (xs ys : List A) → n ≤ length xs → drop n (xs ++ ys) ≡ drop n xs ++ ys
  drop-append zero xs ys h = refl
  drop-append (suc n) [] ys h = absurd (omega arith)
  drop-append (suc n) (x ∷ xs) ys h = drop-append n xs ys (omega arith)

  drop-suc : (n : ℕ) (xs : List A) → drop 1 (drop n xs) ≡ drop (suc n) xs
  drop-suc zero xs = refl
  drop-suc (suc n) [] = refl
  drop-suc (suc n) (x ∷ xs) = drop-suc n xs

  length-drop : (n : ℕ) (xs : List A) → length (drop n xs) ≡ length xs - n
  length-drop zero xs = omega arith
  length-drop (suc n) [] = omega arith
  length-drop (suc n) (x ∷ xs) = omega (arith, length-drop n xs)

  enough :
      (n : ℕ) (xs : List A)
      → leb (max n 1) (length xs) ≡ true
      → leb n (length (last (max n 1) xs)) ≡ true
  enough n xs h = ground (arith, length-drop (length xs - max n 1) xs)

  none_over : (n : ℕ) (xs : List A) → leb (max n 1) (length xs) ≡ false → length xs - max n 1 ≡ 0
  none_over n xs h = ground arith

  short :
      (n : ℕ) (xs : List A)
      → leb (max n 1) (length xs) ≡ false
      → (if leb n (length xs) then drop 1 xs else xs) ≡ xs
  short n [] h = ground arith
  short n (x ∷ xs) h = ground arith

  one_more :
      (n : ℕ) (xs : List A) (x : A)
      → leb (max n 1) (length xs) ≡ true
      → suc (length xs - max n 1) ≡ length (xs ++ x ∷ []) - max n 1
  one_more n xs x h = ground (arith, length-append xs (x ∷ []))

  none_more :
      (n : ℕ) (xs : List A) (x : A)
      → leb (max n 1) (length xs) ≡ false
      → 0 ≡ length (xs ++ x ∷ []) - max n 1
  none_more n xs x h = ground (arith, length-append xs (x ∷ []))

  -- One more member at the end: the first of the last ones goes, if there are enough.
  last-append :
      (n : ℕ) (xs : List A) (x : A)
      → (if leb n (length (last (max n 1) xs))
            then drop 1 (last (max n 1) xs)
            else last (max n 1) xs)
          ++ x ∷ []
        ≡ last (max n 1) (xs ++ x ∷ [])
  last-append n xs x = elim (Bool-cases (leb (max n 1) (length xs))) [
    | inl p ↦
        ap (λ b. (if b then drop 1 (last (max n 1) xs) else last (max n 1) xs) ++ x ∷ [])
          (enough n xs p)
        ∙ ap (λ ys. ys ++ x ∷ []) (drop-suc (length xs - max n 1) xs)
        ∙ sym (drop-append (suc (length xs - max n 1)) xs (x ∷ []) (ground arith))
        ∙ ap (λ m. drop m (xs ++ x ∷ [])) (one_more n xs x p)
    | inr p ↦
        ap (λ m. (if leb n (length (drop m xs)) then drop 1 (drop m xs) else drop m xs) ++ x ∷ [])
          (none_over n xs p)
        ∙ ap (λ ys. ys ++ x ∷ []) (short n xs p)
        ∙ ap (λ m. drop m (xs ++ x ∷ [])) (none_more n xs x p)
  ]

drop_nil : (k : ℕ) → (new k).items ≡ drop k []
drop_nil zero = refl
drop_nil (suc k) = refl

push-last :
    (n : ℕ) (before : List DeadLetterItem) (q : DeadLetterQueue) (i : DeadLetterItem)
    → q.items ≡ last (max n 1) before
    → q.max_size ≡ n
    → (push q i).items ≡ last (max n 1) (before ++ i ∷ [])
unfolding push
push-last n before q i h k =
    ap (λ m. (if leb m (length q.items) then drop 1 q.items else q.items) ++ i ∷ []) k
    ∙ ap (λ xs. (if leb n (length xs) then drop 1 xs else xs) ++ i ∷ []) h
    ∙ last-append n before i

push_all_items :
    (n : ℕ) (before items : List DeadLetterItem) (q : DeadLetterQueue)
    → q.items ≡ last (max n 1) before
    → q.max_size ≡ n
    → (push_all q items).items ≡ last (max n 1) (before ++ items)
unfolding push
push_all_items n before [] q h k = h ∙ ap (last (max n 1)) (sym (append-nil before))
push_all_items n before (i ∷ items) q h k =
    push_all_items n (before ++ i ∷ []) items (push q i) (push-last n before q i h k) k
    ∙ ap (last (max n 1)) (append_assoc before (i ∷ []) items)

-- A queue holds the items pushed last, oldest first: as many of them as it is allowed, and one if
-- it is allowed none. So it never holds more than that, `recent` lists the newest of them first,
-- and `drain` hands them out and leaves the queue empty.
pub push_all-last :
    (n limit : ℕ) (items : List DeadLetterItem)
    → let q = push_all (new n) items in
      (q.items ≡ last (max n 1) items)
      × (len q ≤ max n 1)
      × (recent q limit ≡ take limit (reverse (last (max n 1) items)))
      × ((drain q).1 ≡ last (max n 1) items)
      × (is_empty (drain q).0 ≡ true)
unfolding len recent drain is_empty
push_all-last n limit items = (
  pushed,
  ground (arith, ap length pushed, length-drop (length items - max n 1) items),
  ap (λ xs. take limit (reverse xs)) pushed,
  pushed,
  refl,
)
  where
    pushed : (push_all (new n) items).items ≡ last (max n 1) items
    pushed = push_all_items n [] items (new n) (drop_nil (0 - max n 1)) refl
