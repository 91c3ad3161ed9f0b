-- ===== src/Models/Guardrail/Actions.antt =====
-- What one rule of guardrail.rs adds to a verdict.
use mnemo.Base.{
  ℕ, suc, ◌≡◌, refl, max, ap, Bool, true, false, if◌then◌else◌, ◌&&◌, ◌||◌, Option, none, some,
  List, [], ◌∷◌, ◌++◌, arith,
}
use mnemo.Base.Order.{Text}
use mnemo.Models.Classification.{Classification, rank}
use mnemo.Models.Guardrail.{
  GuardrailAction, block, redact, reclassify, audit_only, warn, GuardrailRule, GuardrailVerdict,
}
use mnemo.Models.Guardrail.Regexes.{or_else}
use mnemo.Models.Guardrail.Rules.{note, keep_highest, act, consider}

abbrev pub is_block : GuardrailAction → Bool
is_block (block _) = true
is_block _ = false

abbrev pub is_redact : GuardrailAction → Bool
is_redact redact = true
is_redact _ = false

-- One more than the level that an action or a verdict asks for, and zero if it asks for none.
abbrev pub asked : GuardrailAction → ℕ
asked (reclassify c) = suc (rank c)
asked _ = 0

abbrev pub level : Option Classification → ℕ
level none = 0
level (some c) = suc (rank c)

pub level-keep_highest :
    (o : Option Classification) (c : Classification)
    → level (keep_highest o c) ≡ max (level o) (suc (rank c))
unfolding keep_highest
level-keep_highest none c = ground arith
level-keep_highest (some d) c = ground arith

abbrev pub message_of : GuardrailAction → List Text
message_of (warn message) = message ∷ []
message_of _ = []

abbrev pub audit_of : Text → GuardrailAction → List (Text × Text)
audit_of name (audit_only severity) = (name, severity) ∷ []
audit_of name _ = []

abbrev pub reason_of : GuardrailAction → Option Text
reason_of (block reason) = some reason
reason_of _ = none

-- What an action that counts (`on`) adds to the verdict `v`, and whether it ends the loop.
abbrev pub Adds :
    Bool → Text → GuardrailAction → GuardrailVerdict → GuardrailVerdict × Bool → Type 0
Adds on name a v out =
    (out.1 ≡ (on && is_block a))
    × (out.0.blocked ≡ (v.blocked || (on && is_block a)))
    × (out.0.redact ≡ (v.redact || (on && is_redact a)))
    × (level out.0.reclassify_to ≡ max (level v.reclassify_to) (if on then asked a else 0))
    × (out.0.warnings ≡ v.warnings ++ (if on then message_of a else []))
    × (out.0.audit_entries ≡ v.audit_entries ++ (if on then audit_of name a else []))
    × (out.0.block_reason ≡ (if on && is_block a then reason_of a else v.block_reason))

pub append_nil {ℓ} : {A : Type ℓ} (xs : List A) → xs ≡ xs ++ []
append_nil [] = refl
append_nil (x ∷ xs) = ap (λ ys. x ∷ ys) (append_nil xs)

pub blocking_says_nothing :
    (name : Text) (a : GuardrailAction)
    → is_block a ≡ true
    → (message_of a ≡ []) × (audit_of name a ≡ [])
blocking_says_nothing name (block reason) h = (refl, refl)
blocking_says_nothing name redact h = ground arith
blocking_says_nothing name (reclassify c) h = ground arith
blocking_says_nothing name (audit_only severity) h = ground arith
blocking_says_nothing name (warn message) h = ground arith

pub or_else-none : (o : Option Text) → or_else o none ≡ o
or_else-none none = refl
or_else-none (some p) = refl

pub act-Adds :
    (name : Text) (a : GuardrailAction) (v : GuardrailVerdict) → Adds true name a v (act name a v)
unfolding act
act-Adds name (block reason) v =
    (refl, ground arith, ground arith, ground arith, append_nil _, append_nil _, refl)
act-Adds name redact v =
    (refl, ground arith, ground arith, ground arith, append_nil _, append_nil _, refl)
act-Adds name (reclassify c) v = (
  refl,
  ground arith,
  ground arith,
  level-keep_highest v.reclassify_to c,
  append_nil _,
  append_nil _,
  refl,
)
act-Adds name (audit_only severity) v =
    (refl, ground arith, ground arith, ground arith, append_nil _, refl, refl)
act-Adds name (warn message) v =
    (refl, ground arith, ground arith, ground arith, refl, append_nil _, refl)

pub consider-Adds :
    {F32 : Type 0} (r : GuardrailRule F32) (applies matched : Bool) (v : GuardrailVerdict)
    → Adds (applies && matched) r.name r.action v (consider r applies matched v)
unfolding consider note
consider-Adds r false matched v =
    (refl, ground arith, ground arith, ground arith, append_nil _, append_nil _, refl)
consider-Adds r true false v =
    (refl, ground arith, ground arith, ground arith, append_nil _, append_nil _, refl)
consider-Adds r true true v = act-Adds r.name r.action (note r true v)
