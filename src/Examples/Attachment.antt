-- ===== src/Examples/Attachment.antt =====
-- The images of internal/agent/attachment/service.go on a concrete conversation.
use agent_whiteboard.Base.{
  ℕ, true, false, ◌∷◌, ◌++◌, ◌≡◌, refl, [], none, some, Option, Str, str_eq, List, lookup, insert,
  bytes, contains, if◌then◌else◌,
}
use agent_whiteboard.Provider.Turn.{ImageInput}
use agent_whiteboard.Broker.Queue.{ImageDescriptor}
use agent_whiteboard.Attachment.{
  no_purpose, claimed, ImageRecord, ok, Directory, Saving, saved, save, RasterFormat, find_record,
  ClaimRequest, StageRequest, valid_origin, remove_files,
}
use agent_whiteboard.Attachment.Stage.{StageIo, staged_record, stage_fresh, stage}
use agent_whiteboard.Attachment.Stage.Limits.{Accepted, stage-Accepted}
use agent_whiteboard.Attachment.Claim.{
  claim_record, find_reference, claim_input, check_claims, claim, store_claims, images_for_message,
  release_where, release_message,
}
use agent_whiteboard.Attachment.Claim.Exclusive.{reference_ids, claim_exclusive}
use agent_whiteboard.Attachment.Claim.Release.{holds_file, release_message_lem}
use agent_whiteboard.Attachment.{is_staged}
use agent_whiteboard.Attachment.Read.{ReadRequest, read, delete_staged}
use agent_whiteboard.Attachment.Read.Access.{may_see, shown, read_hides, delete_staged_keeps}
use agent_whiteboard.Base.{keep, not}
use agent_whiteboard.Examples.Data.{
  platform, queue_runs, turn_a, turn_b, image_a, message_a, message_b,
}

abbrev site : Str
site = bytes "https://example.org"

abbrev png : RasterFormat
png = record { extension = bytes ".png"; media_type = bytes "image/png" }

abbrev always_png : Str → Option RasterFormat
always_png content = some png

abbrev upload : StageRequest
upload = record {
  origin = site;
  provider = bytes "codex";
  conversation_id = turn_b;
  client_id = message_b;
  purpose = no_purpose;
  content = 1 ∷ 2 ∷ 3 ∷ [];
}

abbrev all_well : StageIo
all_well = record {
  opened = true;
  expiry_saved = saved;
  expiry_removed = none;
  id = some image_a;
  published = true;
  stored = saved;
}

abbrev empty_directory : Directory
empty_directory = record { records = []; files = [] }

abbrev uploaded : ImageRecord
uploaded = staged_record platform upload 5 image_a png

abbrev one_image : Directory
one_image = record { records = uploaded ∷ []; files = (uploaded.filename, 3) ∷ [] }

stage-upload : stage platform always_png all_well 5 upload empty_directory ≡ (ok image_a, one_image)
unfolding queue_runs stage stage_fresh save valid_origin insert
stage-upload = refl

stage-Accepted_example : Accepted message_b image_a [] one_image
stage-Accepted_example =
    stage-Accepted platform always_png all_well 5 upload empty_directory one_image image_a
      stage-upload

abbrev claim_upload : ClaimRequest
claim_upload = record {
  origin = site;
  provider = bytes "codex";
  conversation_id = turn_b;
  client_id = message_b;
  turn_id = turn_a;
  message_id = message_a;
  images = record { image_id = image_a; name = bytes "a.png" } ∷ [];
  inline_images = 0;
}

abbrev claimed_image : Directory
claimed_image = record one_image { records = claim_record claim_upload uploaded ∷ [] }

abbrev claims_made : List (ImageInput × ImageDescriptor)
claims_made =
    (
      claim_input platform (bytes "/tmp") uploaded (bytes "a.png"),
      record { image_id = image_a; name = bytes "a.png"; media_type = bytes "image/png" },
    )
    ∷ []

claim_image :
    claim platform (some (bytes "/tmp")) saved claim_upload 6 one_image
    ≡ (ok claims_made, claimed_image)
unfolding queue_runs claim check_claims store_claims save valid_origin find_record lookup
    claim_record find_reference
claim_image = refl

claim_exclusive_example :
    ((e : ImageRecord)
      → find_record image_a claimed_image.records ≡ some e
      → (e.state ≡ claimed) × (e.turn_id ≡ turn_a) × (e.message_id ≡ message_a))
    × ((path' : Option Str) (saving' : Saving) (r' : ClaimRequest) (later : ℕ) (d'' : Directory)
        → (claims' : List (ImageInput × ImageDescriptor))
        → claim platform path' saving' r' later claimed_image ≡ (ok claims', d'')
        → contains image_a (reference_ids r'.images) ≡ false)
claim_exclusive_example =
    claim_exclusive platform (some (bytes "/tmp")) saved claim_upload 6 one_image claimed_image
      claims_made claim_image image_a (unfold str_eq in refl)

release_message_lem_example :
    (images_for_message true turn_b message_a empty_directory ≡ ok [])
    × (images_for_message true turn_b message_b empty_directory
        ≡ images_for_message true turn_b message_b claimed_image)
    × (empty_directory.records
        ≡ keep (λ (e : ImageRecord). not (str_eq e.message_id message_a)) claimed_image.records)
    × (lookup uploaded.filename empty_directory.files ≡ (
        if holds_file message_a uploaded.filename claimed_image.records
        then none
        else lookup uploaded.filename claimed_image.files))
release_message_lem_example =
    release_message_lem saved none turn_b message_a message_b uploaded.filename claimed_image
      empty_directory (unfold queue_runs in refl) (unfold queue_runs in refl)
      (unfold queue_runs in refl)
      (unfold queue_runs release_message release_where save remove_files
          agent_whiteboard.Base.delete claim_record find_reference in
        refl)

abbrev look : ReadRequest
look = record { origin = site; conversation_id = turn_b; client_id = message_b; image_id = image_a }

abbrev three_bytes : Str → ℕ → Option Str
three_bytes name size = some (1 ∷ 2 ∷ 3 ∷ [])

-- Another client's draft is there too.
abbrev with_foreign : Directory
with_foreign = record one_image {
  records = record uploaded { image_id = turn_a; client_id = message_a } ∷ one_image.records;
}

read_hides_example :
    (read platform true three_bytes 6 look one_image
      ≡ shown three_bytes (find_record image_a (keep (may_see look 6) one_image.records)))
    × (read platform true three_bytes 6 look with_foreign
        ≡ read platform true three_bytes 6 look one_image)
read_hides_example =
    read_hides platform three_bytes 6 look one_image with_foreign (unfold queue_runs in (refl, tt))
      (unfold queue_runs in (refl, (refl, tt))) (unfold queue_runs valid_origin in refl)
      (unfold queue_runs in refl)

read_example :
    read platform true three_bytes 6 look one_image
    ≡ ok (record { media_type = bytes "image/png"; content = 1 ∷ 2 ∷ 3 ∷ [] })
unfolding queue_runs read valid_origin find_record
read_example = refl

delete_staged_keeps_example :
    keep
      (λ (e : ImageRecord). not (is_staged e.state))
      (delete_staged platform true saved true look claimed_image).1.records
    ≡ keep (λ (e : ImageRecord). not (is_staged e.state)) claimed_image.records
delete_staged_keeps_example = delete_staged_keeps platform true saved true look claimed_image
