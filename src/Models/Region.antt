-- ===== src/Models/Region.antt =====
-- crates/mnemo-core/src/models/region.rs: the permissions of a region's access list, and the checks
-- of names. Texts are ASCII; `trimmed.len()` counts bytes.
pub mod Permissions
use Prim.Native.Nat.Ordering.{eq}
use mnemo.Base.{
  ℕ, Bool, true, false, not, ◌&&◌, ◌||◌, if◌then◌else◌, leb, ltb, ◌==◌, Option, none, some, List,
  [], ◌∷◌, any, all, length,
}
use mnemo.Base.Order.{Text, codes}
use mnemo.Base.Ascii.{trim, is_alphanumeric, is_control, contains_pair}
use mnemo.Models.Classification.{Classification}

pub data RegionPermission : Type 0 where
  read write manage : RegionPermission

abbrev pub permission_rank : RegionPermission → ℕ
permission_rank read = 0
permission_rank write = 1
permission_rank manage = 2

unfoldable pub has_at_least : RegionPermission → RegionPermission → Bool
has_at_least p required = leb (permission_rank required) (permission_rank p)

pub record MemoryRegionAcl : Type 0 where
  pub region_id : ℕ
  pub agent_id : Text
  pub permission : RegionPermission
  pub granted_by : Text
  pub granted_at : ℕ
  pub expires_at : Option ℕ

unfoldable pub is_expired : ℕ → MemoryRegionAcl → Bool
is_expired now a = elim a.expires_at [ none ↦ false | some exp ↦ leb exp now ]

unfoldable pub has_permission : ℕ → MemoryRegionAcl → RegionPermission → Bool
unfolding is_expired has_at_least
has_permission now a required =
    if is_expired now a then false else has_at_least a.permission required

-- The errors of the two checks, one for each message.
pub data NameError : Type 0 where
  empty too_long forbidden_text invalid_character : NameError

pub data Checked : Type 0 where
  ok : Checked
  err : NameError → Checked

abbrev pub is_agent_char : ℕ → Bool
is_agent_char c = is_alphanumeric c || c == b'-' || c == b'_' || c == b'.'

-- The checks of `validate_agent_id` on the trimmed text.
unfoldable pub check_agent_id : Text → Checked
check_agent_id trimmed =
    if length trimmed == 0
    then err empty
    else if ltb 128 (length trimmed)
    then err too_long
    else if any (λ c. c == b':') trimmed
        || any (λ c. c == b'/') trimmed
        || contains_pair b'.' b'.' trimmed
    then err forbidden_text
    else if not (all is_agent_char trimmed)
    then err invalid_character
    else ok

unfoldable pub validate_agent_id : Text → Checked
validate_agent_id id = check_agent_id (trim id)

unfoldable pub validate_region_name : Text → Checked
validate_region_name name =
    let trimmed = trim name in
    if length trimmed == 0
    then err empty
    else if ltb 128 (length trimmed)
    then err too_long
    else if any is_control trimmed
    then err invalid_character
    else ok
