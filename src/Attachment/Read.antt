-- ===== src/Attachment/Read.antt =====
-- internal/agent/attachment/service.go: `Read` and `DeleteStaged`, which reach one image.
pub mod Access
use agent_whiteboard.Base.{
  ℕ, Bool, not, ◌&&◌, ◌||◌, List, [], ◌∷◌, Option, none, some, Str, str_eq, ltb, delete,
  if◌then◌else◌,
}
use agent_whiteboard.Agent.{Platform}
use agent_whiteboard.Common.Id.{valid_id}
use agent_whiteboard.Attachment.{
  ImageRecord, AttachmentError, invalid, missing, storage, Result, ok, err, Directory, Saving, save,
  find_record, valid_origin, is_staged,
}

pub record ReadRequest : Type 0 where
  pub origin : Str
  pub conversation_id : Str
  pub client_id : Str
  pub image_id : Str

-- The type of an image and its content.
pub record Image : Type 0 where
  pub media_type : Str
  pub content : Str

-- Whether a request may read the image of a record.
abbrev pub readable : ReadRequest → ℕ → ImageRecord → Bool
readable r now e =
    str_eq e.origin r.origin
    && not (is_staged e.state && not (str_eq e.client_id r.client_id))
    && not (is_staged e.state && not (ltb now e.expires_at))

-- Whether a request may delete it.
abbrev pub deletable : ReadRequest → ImageRecord → Bool
deletable r e = is_staged e.state && str_eq e.origin r.origin && str_eq e.client_id r.client_id

-- `slices.Delete` at the index of `findRecord`.
unfoldable pub remove_record : Str → List ImageRecord → List ImageRecord
remove_record id [] = []
remove_record id (e ∷ es) = if str_eq e.image_id id then es else e ∷ remove_record id es

module _ (os : Platform) where
  abbrev pub valid_read : ReadRequest → Bool
  valid_read r =
      valid_origin os r.origin
      && valid_id r.conversation_id
      && valid_id r.client_id
      && valid_id r.image_id

  -- `Read`; `content` is what `readSecureFile` gives for a name and a size.
  unfoldable pub read : Bool → (Str → ℕ → Option Str) → ℕ → ReadRequest → Directory → Result Image
  read opened content now r d =
      if not (valid_read r)
      then err invalid
      else if not opened
      then err missing
      else elim (find_record r.image_id d.records) [
        | none ↦ err missing
        | some e ↦
            if not (readable r now e) then err missing else elim (content e.filename e.size) [
              | none ↦ err storage
              | some bytes ↦ ok (record { media_type = e.media_type; content = bytes })
            ]
      ]

  -- `DeleteStaged`; `removed` tells whether the file goes. No error is none.
  unfoldable pub delete_staged :
      Bool → Saving → Bool → ReadRequest → Directory → Option AttachmentError × Directory
  delete_staged opened saving removed r d =
      if not (valid_read r)
      then (some invalid, d)
      else if not opened
      then (some missing, d)
      else elim (find_record r.image_id d.records) [
        | none ↦ (some missing, d)
        | some e ↦
            if not (deletable r e)
            then (some missing, d)
            else (let (d', stored) = save saving (remove_record r.image_id d.records) d in
                if not stored
                then (some storage, d')
                else if not removed
                then (some storage, d')
                else (none, record d' { files = delete e.filename d'.files }))
      ]
