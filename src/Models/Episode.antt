-- ===== src/Models/Episode.antt =====
-- crates/mnemo-core/src/models/episode.rs, and `Modality` of attachment.rs. Texts are ASCII; ids and
-- instants are numbers, `metadata` is the text of the JSON value; the clock's reading and the new id
-- are arguments.
use mnemo.Base.{
  ℕ, ◌*◌, ◌-◌, ◌^◌, ◌%◌, Bool, true, false, if◌then◌else◌, ◌==◌, leb, Option, none, some, get_or,
  List, [], ◌∷◌, ◌++◌, any, add_u32, u64_mod,
}
use mnemo.Base.Order.{Text, codes}
use mnemo.Base.Ascii.{trim}

pub data EpisodeType : Type 0 where
  message json text : EpisodeType

pub data MessageRole : Type 0 where
  user assistant system tool : MessageRole

pub data Modality : Type 0 where
  plain image audio video document : Modality

pub data ProcessingStatus : Type 0 where
  pending processing completed failed skipped : ProcessingStatus

pub record Episode : Type 0 where
  pub id : ℕ
  pub session_id : ℕ
  pub user_id : ℕ
  pub agent_id : Option Text
  pub episode_type : EpisodeType
  pub content : Text
  pub role : Option MessageRole
  pub name : Option Text
  pub metadata : Text
  pub created_at : ℕ
  pub ingested_at : ℕ
  pub processing_status : ProcessingStatus
  pub processing_error : Option Text
  pub entity_ids : List ℕ
  pub edge_ids : List ℕ
  pub retry_count : ℕ
  pub modality : Modality
  pub attachment_ids : List ℕ
  pub parent_document_id : Option ℕ
  pub document_location : Option Text

pub record CreateEpisodeRequest : Type 0 where
  pub id : Option ℕ
  pub episode_type : EpisodeType
  pub content : Text
  pub role : Option MessageRole
  pub name : Option Text
  pub agent_id : Option Text
  pub metadata : Text
  pub created_at : Option ℕ
  pub modality : Modality

-- `Option::or`
abbrev or_else : Option Text → Option Text → Option Text
or_else none other = other
or_else (some t) other = some t

unfoldable pub from_request : ℕ → ℕ → CreateEpisodeRequest → ℕ → ℕ → Option Text → Episode
from_request now new_id req session_id user_id agent_id = record {
  id = get_or req.id new_id;
  session_id = session_id;
  user_id = user_id;
  agent_id = or_else req.agent_id agent_id;
  episode_type = req.episode_type;
  content = req.content;
  role = req.role;
  name = req.name;
  metadata = req.metadata;
  created_at = get_or req.created_at now;
  ingested_at = now;
  processing_status = pending;
  processing_error = none;
  entity_ids = [];
  edge_ids = [];
  retry_count = 0;
  modality = req.modality;
  attachment_ids = [];
  parent_document_id = none;
  document_location = none;
}

unfoldable pub from_multimodal : ℕ → ℕ → ℕ → ℕ → Modality → Text → ℕ → Episode
from_multimodal now new_id session_id user_id modality content attachment_id = record {
  id = new_id;
  session_id = session_id;
  user_id = user_id;
  agent_id = none;
  episode_type = text;
  content = content;
  role = none;
  name = none;
  metadata = codes "null";
  created_at = now;
  ingested_at = now;
  processing_status = pending;
  processing_error = none;
  entity_ids = [];
  edge_ids = [];
  retry_count = 0;
  modality = modality;
  attachment_ids = attachment_id ∷ [];
  parent_document_id = none;
  document_location = none;
}

unfoldable pub from_document_chunk : ℕ → ℕ → ℕ → ℕ → Text → ℕ → Text → Episode
from_document_chunk now new_id session_id user_id content parent location = record {
  id = new_id;
  session_id = session_id;
  user_id = user_id;
  agent_id = none;
  episode_type = text;
  content = content;
  role = none;
  name = none;
  metadata = codes "null";
  created_at = now;
  ingested_at = now;
  processing_status = pending;
  processing_error = none;
  entity_ids = [];
  edge_ids = [];
  retry_count = 0;
  modality = document;
  attachment_ids = parent ∷ [];
  parent_document_id = some parent;
  document_location = some location;
}

unfoldable pub add_attachment : ℕ → Episode → Episode
add_attachment attachment_id e =
    if any (λ a. a == attachment_id) e.attachment_ids
    then e
    else record e { attachment_ids = e.attachment_ids ++ attachment_id ∷ [] }

abbrev is_system : Option MessageRole → Bool
is_system (some system) = true
is_system _ = false

abbrev is_blank : Text → Bool
is_blank [] = true
is_blank (c ∷ t) = false

unfoldable pub should_process : Episode → Bool
should_process e =
    if is_blank (trim e.content) then false else if is_system e.role then false else true

unfoldable pub mark_processing : Episode → Episode
mark_processing e = record e { processing_status = processing }

unfoldable pub mark_completed : List ℕ → List ℕ → Episode → Episode
mark_completed entity_ids edge_ids e = record e {
  processing_status = completed;
  entity_ids = entity_ids;
  edge_ids = edge_ids;
  processing_error = none;
}

unfoldable pub mark_failed : Text → Episode → Episode
mark_failed error e = record e { processing_status = failed; processing_error = some error }

unfoldable pub mark_skipped : Episode → Episode
mark_skipped e = record e { processing_status = skipped }

-- `500u64 * 2u64.pow(n)`; both wrap.
abbrev pub retry_delay : ℕ → ℕ
retry_delay n = (500 * (2 ^ n % u64_mod)) % u64_mod

abbrev pub retried : Text → Episode → Episode
retried error e = record e {
  retry_count = add_u32 e.retry_count 1;
  processing_status = pending;
  processing_error = some error;
}

unfoldable pub requeue_for_retry : Text → ℕ → Episode → Episode × Option ℕ
unfolding mark_failed
requeue_for_retry error max_retries e =
    if leb max_retries e.retry_count
    then (mark_failed error e, none)
    else (retried error e, some (retry_delay ((retried error e).retry_count - 1)))
