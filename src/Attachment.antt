-- ===== src/Attachment.antt =====
-- internal/agent/attachment/service.go: the images of a conversation, whose manifest lists them, with
-- internal/common/raster.go. A directory is the records of its manifest and its image files with their
-- sizes; temporary files, the manifest's encoding, with the errors of loading it, those of reading a file
-- that is there, and the checks on modes and links are left out. What the operating system answers comes
-- with each call, as an `Io`. Times count from Go's zero time.
pub mod Stage
pub mod Claim
pub mod Read
use agent_whiteboard.Base.{
  ℕ, suc, zero, ◌+◌, Bool, true, false, not, ◌&&◌, ◌||◌, List, [], ◌∷◌, ◌++◌, Option, none, some,
  Str, bytes, str_eq, is_empty, keep, map, sum_of, ltb, ◌==◌, delete, if◌then◌else◌,
}
use agent_whiteboard.Agent.{Platform}
use agent_whiteboard.Provider.Turn.{supported_media_type}

abbrev pub max_images_per_turn : ℕ
max_images_per_turn = 8

abbrev pub max_image_bytes : ℕ
max_image_bytes = 10485760

abbrev pub max_turn_image_bytes : ℕ
max_turn_image_bytes = 20971520

abbrev pub max_conversation_image_bytes : ℕ
max_conversation_image_bytes = 536870912

-- 15 minutes in nanoseconds.
abbrev pub staged_lifetime : ℕ
staged_lifetime = 900000000000

pub data ImagePurpose : Type 0 where
  no_purpose attachment_purpose inline_reference : ImagePurpose
  unknown_purpose : Str → ImagePurpose

pub data Lifecycle : Type 0 where
  staged claimed : Lifecycle
  unknown_state : Str → Lifecycle

pub record ImageRecord : Type 0 where
  pub image_id : Str
  pub filename : Str
  pub media_type : Str
  pub size : ℕ
  pub origin : Str
  pub provider : Str
  pub conversation_id : Str
  pub client_id : Str
  pub purpose : ImagePurpose
  pub state : Lifecycle
  pub name : Str
  pub turn_id : Str
  pub message_id : Str
  pub created_at : ℕ
  pub expires_at : ℕ

pub data AttachmentError : Type 0 where
  invalid unsupported image_too_large turn_limit workspace_limit missing storage : AttachmentError

pub data Result {ℓ} (A : Type ℓ) : Type ℓ where
  ok : A → Result A
  err : AttachmentError → Result A

pub record Directory : Type 0 where
  pub records : List ImageRecord
  pub files : List (Str × ℕ)

-- A manifest is saved, or not, or replaced with an error of the synchronisation after it.
pub data Saving : Type 0 where
  saved save_lost save_unsynced : Saving

abbrev pub is_staged : Lifecycle → Bool
is_staged staged = true
is_staged _ = false

abbrev pub is_claimed : Lifecycle → Bool
is_claimed claimed = true
is_claimed _ = false

abbrev pub known_purpose : ImagePurpose → Bool
known_purpose (unknown_purpose s) = false
known_purpose _ = true

-- `provider.Name.Valid`.
abbrev pub known_provider : Str → Bool
known_provider p = str_eq p (bytes "pi") || str_eq p (bytes "codex") || str_eq p (bytes "cursor")

-- `saveManifest`: the directory after it, and whether it returned no error.
unfoldable pub save : Saving → List ImageRecord → Directory → Directory × Bool
save saved records d = (record d { records = records }, true)
save save_lost records d = (d, false)
save save_unsynced records d = (record d { records = records }, false)

-- `root.Remove` in turn: of the first `n`, and then an error, or of all.
unfoldable pub remove_files : Option ℕ → List Str → List (Str × ℕ) → List (Str × ℕ) × Bool
remove_files failure [] files = (files, true)
remove_files none (name ∷ names) files = remove_files none names (delete name files)
remove_files (some zero) (name ∷ names) files = (files, false)
remove_files (some (suc n)) (name ∷ names) files = remove_files (some n) names (delete name files)

-- `DetectRaster`; `content_type` and `decodes` stand for net/http's and the image decoders'.
pub record RasterFormat : Type 0 where
  pub extension : Str
  pub media_type : Str

-- `extensionFor`.
unfoldable pub extension_for : Str → Str
extension_for m =
    if str_eq m (bytes "image/png")
    then bytes ".png"
    else if str_eq m (bytes "image/jpeg")
    then bytes ".jpg"
    else if str_eq m (bytes "image/gif")
    then bytes ".gif"
    else if str_eq m (bytes "image/webp")
    then bytes ".webp"
    else []

unfoldable pub detect_raster : (Str → Str) → (Str → Str → Bool) → Str → Option RasterFormat
detect_raster content_type decodes content =
    let media_type = content_type content in
    if not (supported_media_type media_type) || not (decodes media_type content)
    then none
    else some (record { extension = extension_for media_type; media_type = media_type })

-- `record.ExpiresAt.After(now)`.
abbrev pub expired : ℕ → ImageRecord → Bool
expired now r = is_staged r.state && not (ltb now r.expires_at)

-- `removeExpiredRecords`: the records that stay, and the files of the others.
abbrev pub fresh_records : ℕ → List ImageRecord → List ImageRecord
fresh_records now = keep λ r. not (expired now r)

abbrev pub expired_files : ℕ → List ImageRecord → List Str
expired_files now records = map (λ (r : ImageRecord). r.filename) (keep (expired now) records)

-- `findRecord`.
unfoldable pub find_record : Str → List ImageRecord → Option ImageRecord
find_record id [] = none
find_record id (r ∷ rs) = if str_eq r.image_id id then some r else find_record id rs

abbrev pub drafts_of : Str → List ImageRecord → List ImageRecord
drafts_of client = keep λ r. is_staged r.state && str_eq r.client_id client

abbrev pub total_size : List ImageRecord → ℕ
total_size = sum_of λ r. r.size

pub record ImageReference : Type 0 where
  pub image_id : Str
  pub name : Str

pub record ClaimRequest : Type 0 where
  pub origin : Str
  pub provider : Str
  pub conversation_id : Str
  pub client_id : Str
  pub turn_id : Str
  pub message_id : Str
  pub images : List ImageReference
  pub inline_images : ℕ

pub record StageRequest : Type 0 where
  pub origin : Str
  pub provider : Str
  pub conversation_id : Str
  pub client_id : Str
  pub purpose : ImagePurpose
  pub content : Str

module _ (os : Platform) where
  -- `validOrigin`.
  unfoldable pub valid_origin : Str → Bool
  valid_origin value = elim (os.parse_url value) [
    | none ↦ false
    | some u ↦
        (str_eq u.scheme (bytes "https") || str_eq u.scheme (bytes "http"))
        && not (is_empty u.host)
        && not u.has_user
        && is_empty u.path
        && is_empty u.raw_query
        && is_empty u.fragment
        && str_eq u.text value
  ]
