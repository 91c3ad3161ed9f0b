-- ===== src/Models/Region/Permissions.antt =====
-- Permissions and agent ids of region.rs.
use mnemo.Base.{
  ℕ, ◌≤◌, ◌<◌, ◌≡◌, ◌↔◌, refl, true, false, some, [], ◌∷◌, any, all, ◌==◌, length, arith,
  Option-cases, inl, inr,
}
use mnemo.Base.Order.{Text}
use mnemo.Base.Ascii.{trim, contains_pair}
use mnemo.Models.Region.{
  RegionPermission, permission_rank, MemoryRegionAcl, has_permission, ok, is_agent_char,
  check_agent_id, validate_agent_id,
}

-- An entry of the access list grants a permission exactly when it has not expired and its level is
-- at least the required one; so it also grants every lower permission, and granted it before.
pub has_permission_iff :
    (now earlier : ℕ) (a : MemoryRegionAcl) (required lower : RegionPermission)
    → ((has_permission now a required ≡ true) ↔ (
        ((exp : ℕ) → a.expires_at ≡ some exp → now < exp)
        × (permission_rank required ≤ permission_rank a.permission)))
      × (has_permission now a required ≡ true
          → permission_rank lower ≤ permission_rank required
          → earlier ≤ now
          → has_permission earlier a lower ≡ true)
unfolding has_permission
has_permission_iff now earlier a required lower =
    ((λ h. (λ exp e. ground arith, ground arith), λ h. granted h.0 h.1), λ h k e. ground arith)
  where
    granted :
        ((exp : ℕ) → a.expires_at ≡ some exp → now < exp)
        → permission_rank required ≤ permission_rank a.permission
        → has_permission now a required ≡ true
    granted h r = elim (Option-cases a.expires_at) [
      | inl e ↦ ground arith
      | inr (exp, e) ↦ ground (arith, h exp e)
    ]

no_separator :
    (t : Text)
    → all is_agent_char t ≡ true
    → (any (λ c. c == b':') t ≡ false) × (any (λ c. c == b'/') t ≡ false)
no_separator [] h = (refl, refl)
no_separator (c ∷ t) h = ground (arith, no_separator t)

check_agent_id_iff :
    (t : Text)
    → (check_agent_id t ≡ ok) ↔ (
        (1 ≤ length t)
        × (length t ≤ 128)
        × (all is_agent_char t ≡ true)
        × (contains_pair b'.' b'.' t ≡ false))
unfolding check_agent_id
check_agent_id_iff t = (
  λ h. (ground arith, ground arith, ground arith, ground arith),
  λ h. ground (arith, h.0, h.1, h.2, h.3, no_separator t h.2),
)

-- An agent id passes exactly when, without the whitespace around it, it has 1 to 128 bytes, all of
-- them letters, digits, '-', '_' or '.', and no two dots in a row; so neither ':' nor '/' passes.
pub validate_agent_id_iff :
    (id : Text)
    → (validate_agent_id id ≡ ok) ↔ (
        (1 ≤ length (trim id))
        × (length (trim id) ≤ 128)
        × (all is_agent_char (trim id) ≡ true)
        × (contains_pair b'.' b'.' (trim id) ≡ false))
unfolding validate_agent_id
validate_agent_id_iff id = check_agent_id_iff (trim id)
