-- ===== src/Models/Classification/Levels.antt =====
-- The names of the levels of classification.rs.
use mnemo.Base.{◌≡◌, refl}
use mnemo.Base.Order.{text_ord, cmp_text}
use mnemo.Models.Classification.{
  Classification, public, internal, confidential, restricted, as_str, from_str_flexible,
}

-- Parsing the name of a classification gives it back.
pub from_str_flexible-as_str : (c : Classification) → from_str_flexible (as_str c) ≡ c
unfolding from_str_flexible as_str cmp_text
from_str_flexible-as_str public = refl
from_str_flexible-as_str internal = refl
from_str_flexible-as_str confidential = refl
from_str_flexible-as_str restricted = refl
