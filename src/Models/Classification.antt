-- ===== src/Models/Classification.antt =====
-- crates/mnemo-core/src/models/classification.rs
pub mod Levels
use mnemo.Base.{ℕ, Bool, if◌then◌else◌, leb, ltb}
use mnemo.Base.Order.{Text, codes, text_ord, eqb}
use mnemo.Base.Ascii.{trim, to_lowercase}

pub data Classification : Type 0 where
  public internal confidential restricted : Classification

-- The derived order is that of the discriminants.
abbrev pub rank : Classification → ℕ
rank public = 0
rank internal = 1
rank confidential = 2
rank restricted = 3

-- `a > b`
abbrev pub exceeds : Classification → Classification → Bool
exceeds a b = ltb (rank b) (rank a)

unfoldable pub as_str : Classification → Text
as_str public = codes "public"
as_str internal = codes "internal"
as_str confidential = codes "confidential"
as_str restricted = codes "restricted"

unfoldable pub from_str_flexible : Text → Classification
unfolding trim text_ord
from_str_flexible s =
    let t = to_lowercase (trim s) in
    if eqb t (codes "public")
    then public
    else if eqb t (codes "internal")
    then internal
    else if eqb t (codes "confidential")
    then confidential
    else if eqb t (codes "restricted")
    then restricted
    else internal
