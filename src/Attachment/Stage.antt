-- ===== src/Attachment/Stage.antt =====
-- internal/agent/attachment/service.go: `Stage`, which takes in an image.
pub mod Limits
use agent_whiteboard.Base.{
  ℕ, ◌+◌, Bool, not, ◌&&◌, ◌||◌, [], ◌∷◌, ◌++◌, Option, none, some, Str, length, is_empty, ltb, leb,
  ◌==◌, push_back, insert, if◌then◌else◌,
}
use agent_whiteboard.Agent.{Platform}
use agent_whiteboard.Common.Id.{valid_id}
use agent_whiteboard.Attachment.{
  max_images_per_turn, max_image_bytes, max_turn_image_bytes, max_conversation_image_bytes,
  staged_lifetime, staged, ImageRecord, invalid, unsupported, image_too_large, turn_limit,
  workspace_limit, storage, Result, ok, err, Directory, Saving, known_purpose, known_provider, save,
  remove_files, RasterFormat, fresh_records, expired_files, drafts_of, total_size, StageRequest,
  valid_origin,
}

-- What `Stage` meets outside: `id` is none if no valid identifier comes, `published` tells whether the
-- file gets its name.
pub record StageIo : Type 0 where
  pub opened : Bool
  pub expiry_saved : Saving
  pub expiry_removed : Option ℕ
  pub id : Option Str
  pub published : Bool
  pub stored : Saving

module _ (os : Platform) where
  abbrev pub valid_stage : StageRequest → Bool
  valid_stage r =
      valid_origin os r.origin
      && known_provider r.provider
      && valid_id r.conversation_id
      && valid_id r.client_id
      && known_purpose r.purpose

  abbrev pub staged_record : StageRequest → ℕ → Str → RasterFormat → ImageRecord
  staged_record r now id format = record {
    image_id = id;
    filename = id ++ format.extension;
    media_type = format.media_type;
    size = length r.content;
    origin = r.origin;
    provider = r.provider;
    conversation_id = r.conversation_id;
    client_id = r.client_id;
    purpose = r.purpose;
    state = staged;
    name = [];
    turn_id = [];
    message_id = [];
    created_at = now;
    expires_at = now + staged_lifetime;
  }

  -- `Stage` once the expired records are gone.
  unfoldable pub stage_fresh :
      (Str → Option RasterFormat) → StageIo → ℕ → StageRequest → Directory → Result Str × Directory
  stage_fresh detect io now r d =
      let drafts = drafts_of r.client_id d.records in
      if leb max_images_per_turn (length drafts) then (err turn_limit, d) else elim io.id [
        | none ↦ (err storage, d)
        | some id ↦
            if ltb max_image_bytes (length r.content)
            then (err image_too_large, d)
            else elim (detect r.content) [
              | none ↦ (err unsupported, d)
              | some format ↦
                  if ltb max_turn_image_bytes (total_size drafts + length r.content)
                  then (err turn_limit, d)
                  else if ltb max_conversation_image_bytes (total_size d.records + length r.content)
                  then (err workspace_limit, d)
                  else if not io.published
                  then (err storage, d)
                  else (let new = staged_record r now id format in
                      let (d', stored) =
                        save io.stored (push_back d.records new)
                          (record d { files = insert new.filename new.size d.files }) in
                      (if stored then ok id else err storage, d'))
            ]
      ]

  -- `Stage`.
  unfoldable pub stage :
      (Str → Option RasterFormat) → StageIo → ℕ → StageRequest → Directory → Result Str × Directory
  stage detect io now r d =
      if not (valid_stage r)
      then (err invalid, d)
      else if not io.opened
      then (err storage, d)
      else if is_empty (expired_files now d.records)
      then stage_fresh detect io now r d
      else (let (d1, stored) = save io.expiry_saved (fresh_records now d.records) d in
          let (files, removed) =
            remove_files io.expiry_removed (expired_files now d.records) d1.files in
          if not stored
          then (err storage, d1)
          else if not removed
          then (err storage, record d1 { files = files })
          else stage_fresh detect io now r (record d1 { files = files }))
