-- ===== src/Provider/Turn.antt =====
-- internal/agent/provider/provider.go and settings.go: what a turn carries to a provider.
pub mod Images
use agent_whiteboard.Base.{
  ℕ, ◌+◌, Bool, true, false, not, ◌&&◌, ◌||◌, List, [], ◌∷◌, Option, none, some, Str, str_eq, bytes,
  length, is_empty, contains, leb, ltb, ◌==◌, ℤ, pos, leb_ℤ, to_ℕ, get_elem?, if◌then◌else◌, ◌-◌,
}
use agent_whiteboard.Agent.{Platform}
use agent_whiteboard.Agent.Digest.{PageKind, markdown, html, unknown, context_digest}
use agent_whiteboard.Common.Id.{valid_id}
use agent_whiteboard.Common.PageUrl.{valid_page_url}
use agent_whiteboard.Provider.Text.{valid_bounded_text, valid_bounded_bytes}
use agent_whiteboard.Provider.Message.{
  MessagePart, MessageContent, ContextReference, ReferenceVisual,
}
use agent_whiteboard.Provider.Message.Reference.{max_images_per_turn, max_image_name_bytes}
use agent_whiteboard.Provider.Message.Content.{valid_content}

pub data ExecutionSpeed : Type 0 where
  standard fast : ExecutionSpeed
  unknown_speed : Str → ExecutionSpeed

abbrev pub speed_bytes : ExecutionSpeed → Str
speed_bytes standard = bytes "standard"
speed_bytes fast = bytes "fast"
speed_bytes (unknown_speed s) = s

abbrev pub known_speed : ExecutionSpeed → Bool
known_speed standard = true
known_speed fast = true
known_speed (unknown_speed s) = false

pub record ExecutionSettings : Type 0 where
  pub model : Str
  pub effort : Str
  pub speed : ExecutionSpeed

unfoldable pub valid_settings : ExecutionSettings → Bool
valid_settings s =
    valid_bounded_text s.model 256 true
    && valid_bounded_text s.effort 64 true
    && known_speed s.speed

pub record ModelPresentation : Type 0 where
  pub model_display_name : Str
  pub selectable : Bool

unfoldable pub valid_presentation : ModelPresentation → Bool
valid_presentation p = valid_bounded_text p.model_display_name 512 true

-- Times count from Go's zero time.
pub record Resource : Type 0 where
  pub kind : PageKind
  pub id : Str
  pub created_at : ℕ
  pub updated_at : ℕ
  pub expires_at : Option ℕ

abbrev pub known_kind : PageKind → Bool
known_kind markdown = true
known_kind html = true
known_kind (unknown s) = false

unfoldable pub valid_resource : Resource → Bool
valid_resource r =
    known_kind r.kind
    && valid_id r.id
    && not (r.created_at == 0)
    && not (r.updated_at == 0)
    && leb r.created_at r.updated_at
    && elim r.expires_at [ none ↦ true | some t ↦ leb r.created_at t ]

pub data ContextRevision : Type 0 where
  initial replacement : ContextRevision
  unknown_revision : Str → ContextRevision

abbrev pub known_revision : ContextRevision → Bool
known_revision initial = true
known_revision replacement = true
known_revision (unknown_revision s) = false

pub record PageContext : Type 0 where
  pub revision : ContextRevision
  pub source : List ℕ
  pub creator_context : List ℕ
  pub title : Str
  pub url : Str
  pub resource : Resource
  pub digest : Str

pub record ImageInput : Type 0 where
  pub id : Str
  pub name : Str
  pub media_type : Str
  pub size : ℤ
  pub path : Str

pub record TurnRequest : Type 0 where
  pub turn_id : Str
  pub message_id : Str
  pub content : MessageContent
  pub images : List ImageInput
  pub context : Option PageContext
  pub settings : Option ExecutionSettings

abbrev pub max_image_bytes : ℕ
max_image_bytes = 10485760

abbrev pub max_turn_image_bytes : ℕ
max_turn_image_bytes = 20971520

-- `common.SupportedRasterMediaType`.
unfoldable pub supported_media_type : Str → Bool
supported_media_type m =
    str_eq m (bytes "image/png")
    || str_eq m (bytes "image/jpeg")
    || str_eq m (bytes "image/gif")
    || str_eq m (bytes "image/webp")

abbrev starts_with_slash : Str → Bool
starts_with_slash [] = false
starts_with_slash (c ∷ s) = c == b'/'

-- The pictures that the content shows stand at their ordinals among the inputs.
visual_matches : List ImageInput → ReferenceVisual → Bool
visual_matches images v = leb_ℤ (pos 1) v.ordinal && elim (get_elem? images (to_ℕ v.ordinal - 1)) [
  | none ↦ false
  | some i ↦ str_eq i.id v.image_id
]

reference_matches : List ImageInput → Option ContextReference → Bool
unfolding visual_matches
reference_matches images none = true
reference_matches images (some r) = elim r.visual [ none ↦ true | some v ↦ visual_matches images v ]

parts_match : List ImageInput → List MessagePart → Bool
unfolding reference_matches
parts_match images [] = true
parts_match images (p ∷ ps) = reference_matches images p.reference && parts_match images ps

-- `content.ValidateImages(images) == nil`.
unfoldable pub images_match : MessageContent → List ImageInput → Bool
unfolding parts_match
images_match content images = parts_match images content.parts

module _ (os : Platform) where
  -- `filepath.IsAbs` on Unix, and `filepath.Clean(value) == value`.
  unfoldable pub valid_absolute_clean_path : Str → Bool
  valid_absolute_clean_path value =
      valid_bounded_text value 8192 true
      && starts_with_slash value
      && str_eq (os.clean_path value) value

  unfoldable pub valid_image : ImageInput → Bool
  valid_image i =
      valid_id i.id
      && valid_bounded_text i.name max_image_name_bytes true
      && supported_media_type i.media_type
      && leb_ℤ (pos 1) i.size
      && leb_ℤ i.size (pos max_image_bytes)
      && valid_absolute_clean_path i.path

  -- The loop of `validateImageInputs` over its sets and its total.
  unfoldable pub images_from : List Str → List Str → ℕ → List ImageInput → Bool
  images_from seen_ids seen_paths total [] = true
  images_from seen_ids seen_paths total (i ∷ is) =
      let rest = images_from (i.id ∷ seen_ids) (i.path ∷ seen_paths) (total + to_ℕ i.size) is in
      if not (valid_image i)
      then false
      else if contains i.id seen_ids
      then false
      else if contains i.path seen_paths
      then false
      else if ltb max_turn_image_bytes (total + to_ℕ i.size)
      then false
      else rest

  -- `validateImageInputs(images) == nil`.
  unfoldable pub valid_images : List ImageInput → Bool
  valid_images images =
      if ltb max_images_per_turn (length images) then false else images_from [] [] 0 images

  unfoldable pub valid_context : PageContext → Bool
  valid_context c =
      known_revision c.revision
      && elim (context_digest os c.resource.kind c.source c.creator_context) [
        | none ↦ false
        | some digest ↦
            valid_bounded_bytes c.source 10485760 true
            && valid_bounded_bytes c.creator_context 1048576 true
            && valid_bounded_text c.title 512 true
            && (valid_bounded_text c.url 8192 true && valid_page_url (os.parse_url c.url))
            && valid_resource c.resource
            && str_eq c.digest digest
      ]

  -- `request.Validate() == nil`.
  unfoldable pub valid_turn : TurnRequest → Bool
  valid_turn r =
      valid_id r.turn_id
      && valid_id r.message_id
      && valid_content r.content
      && (not (is_empty r.content.parts) || not (is_empty r.images))
      && valid_images r.images
      && images_match r.content r.images
      && elim r.settings [ none ↦ true | some s ↦ valid_settings s ]
      && elim r.context [ none ↦ true | some c ↦ valid_context c ]
