-- ===== src/Models/Entity.antt =====
-- crates/mnemo-core/src/models/entity.rs. Texts are ASCII; ids and instants are numbers, `metadata`
-- is the text of the JSON value; the clock's reading and the new id are arguments.
pub mod Names
use Prim.Native.Nat.Ordering.{eq}
use mnemo.Base.{
  ℕ, Bool, true, false, not, if◌then◌else◌, ◌==◌, ◌&&◌, ◌||◌, Option, none, some, List, [], ◌∷◌,
  ◌++◌, map, any, add_u64,
}
use mnemo.Base.Order.{Text, codes, text_ord, eqb}
use mnemo.Base.Ascii.{trim, to_lowercase}
use mnemo.Models.Classification.{Classification}

pub data EntityType : Type 0 where
  person organization product location event concept : EntityType
  custom : Text → EntityType

abbrev is_one_of : Text → List Text → Bool
is_one_of s names = any (eqb s) names

-- The `match` on the text in lower case.
abbrev pub from_lowercase : Text → EntityType
from_lowercase t =
    if eqb t (codes "person")
    then person
    else if is_one_of t (codes "organization" ∷ codes "org" ∷ codes "company" ∷ [])
    then organization
    else if eqb t (codes "product")
    then product
    else if is_one_of t (codes "location" ∷ codes "place" ∷ [])
    then location
    else if eqb t (codes "event")
    then event
    else if is_one_of t (codes "concept" ∷ codes "idea" ∷ codes "topic" ∷ [])
    then concept
    else custom t

unfoldable pub from_str_flexible : Text → EntityType
from_str_flexible s = from_lowercase (to_lowercase s)

unfoldable pub as_str : EntityType → Text
as_str person = codes "person"
as_str organization = codes "organization"
as_str product = codes "product"
as_str location = codes "location"
as_str event = codes "event"
as_str concept = codes "concept"
as_str (custom s) = s

pub record Entity : Type 0 where
  pub id : ℕ
  pub user_id : ℕ
  pub name : Text
  pub entity_type : EntityType
  pub summary : Option Text
  pub aliases : List Text
  pub metadata : Text
  pub classification : Classification
  pub mention_count : ℕ
  pub community_id : Option ℕ
  pub created_at : ℕ
  pub updated_at : ℕ

pub record ExtractedEntity : Type 0 where
  pub name : Text
  pub entity_type : EntityType
  pub summary : Option Text
  pub classification : Classification

unfoldable pub from_extraction : ℕ → ℕ → ExtractedEntity → ℕ → Entity
from_extraction now new_id extracted user_id = record {
  id = new_id;
  user_id = user_id;
  name = extracted.name;
  entity_type = extracted.entity_type;
  summary = extracted.summary;
  aliases = [];
  metadata = codes "{}";
  classification = extracted.classification;
  mention_count = 1;
  community_id = none;
  created_at = now;
  updated_at = now;
}

unfoldable pub record_mention : ℕ → Entity → Entity
record_mention now e = record e { mention_count = add_u64 e.mention_count 1; updated_at = now }

-- `add_alias`: the existing aliases are compared in lower case, and the alias is kept as given.
unfoldable pub add_alias : ℕ → Entity → Text → Entity
add_alias now e alias =
    let normalized = to_lowercase (trim alias) in
    if not (any (eqb normalized) (map to_lowercase e.aliases))
      && not (eqb normalized (to_lowercase e.name))
    then record e { aliases = e.aliases ++ alias ∷ []; updated_at = now }
    else e

unfoldable pub matches_name : Entity → Text → Bool
matches_name e candidate =
    let normalized = to_lowercase (trim candidate) in
    if eqb (to_lowercase e.name) normalized
    then true
    else any (λ a. eqb (to_lowercase a) normalized) e.aliases

unfoldable pub update_summary : ℕ → Entity → Text → Entity
update_summary now e new_summary = record e { summary = some new_summary; updated_at = now }
