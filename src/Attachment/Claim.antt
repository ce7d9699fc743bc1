-- ===== src/Attachment/Claim.antt =====
-- internal/agent/attachment/service.go: `Claim`, which gives staged images to a turn, and the calls that
-- read and release images.
pub mod Exclusive
pub mod Release
use agent_whiteboard.Base.{
  ℕ, suc, ◌+◌, Bool, false, not, ◌&&◌, ◌||◌, List, [], ◌∷◌, ◌++◌, Option, none, some, Str, bytes,
  str_eq, length, is_empty, all, keep, map, ltb, leb, ◌==◌, contains, lookup, if◌then◌else◌, pos,
}
use agent_whiteboard.Agent.{Platform}
use agent_whiteboard.Common.Id.{valid_id}
use agent_whiteboard.Provider.Turn.{ImageInput, valid_image}
use agent_whiteboard.Broker.Queue.{ImageDescriptor}
use agent_whiteboard.Attachment.{
  max_images_per_turn, ImagePurpose, no_purpose, attachment_purpose, inline_reference,
  unknown_purpose, claimed, ImageRecord, AttachmentError, invalid, missing, storage, Result, ok,
  err, Directory, Saving, known_provider, save, remove_files, find_record, ImageReference,
  ClaimRequest, valid_origin, is_staged, is_claimed,
}

-- Whether an image may stand before, or after, the last inline one. An empty purpose counts as that of
-- an attachment.
abbrev pub purpose_fits : ImagePurpose → Bool → Bool
purpose_fits inline_reference inline = inline
purpose_fits no_purpose inline = not inline
purpose_fits attachment_purpose inline = not inline
purpose_fits (unknown_purpose s) inline = false

unfoldable pub find_reference : Str → List ImageReference → Option ImageReference
find_reference id [] = none
find_reference id (i ∷ is) = if str_eq i.image_id id then some i else find_reference id is

-- The second loop of `Claim`, on one record; a manifest holds one record for an identifier.
unfoldable pub claim_record : ClaimRequest → ImageRecord → ImageRecord
unfolding find_reference
claim_record r e = elim (find_reference e.image_id r.images) [
  | none ↦ e
  | some i ↦ record e {
    state = claimed;
    name = i.name;
    turn_id = r.turn_id;
    message_id = r.message_id;
    expires_at = 0;
  }
]

unfoldable pub store_claims :
    Saving
    → ClaimRequest
    → Directory
    → Result (List (ImageInput × ImageDescriptor))
    → Result (List (ImageInput × ImageDescriptor)) × Directory
store_claims saving r d (err e) = (err e, d)
store_claims saving r d (ok claims) =
    let (d', stored) = save saving (map (claim_record r) d.records) d in
    (if stored then ok claims else err storage, d')

module _ (os : Platform) where
  abbrev pub claimable : ClaimRequest → ℕ → ImageRecord → Bool
  claimable r now e =
      is_staged e.state
      && str_eq e.origin r.origin
      && str_eq e.provider r.provider
      && str_eq e.client_id r.client_id
      && ltb now e.expires_at

  -- `filepath.Join` of a directory and a name cleans the path.
  abbrev pub claim_input : Str → ImageRecord → Str → ImageInput
  claim_input directory e name = record {
    id = e.image_id;
    name = name;
    media_type = e.media_type;
    size = pos e.size;
    path = os.clean_path (directory ++ bytes "/" ++ e.filename);
  }

  -- The first loop of `Claim`, from `position` on: every image is looked up and checked first.
  unfoldable pub check_claims :
      Str
      → ClaimRequest
      → ℕ
      → Directory
      → ℕ
      → List Str
      → List ImageReference
      → Result (List (ImageInput × ImageDescriptor))
  check_claims directory r now d position seen [] = ok []
  check_claims directory r now d position seen (i ∷ is) =
      let rest = check_claims directory r now d (suc position) (i.image_id ∷ seen) is in
      if contains i.image_id seen then err invalid else elim (find_record i.image_id d.records) [
        | none ↦ err missing
        | some e ↦
            if not (claimable r now e)
            then err missing
            else if not (purpose_fits e.purpose (ltb position r.inline_images))
            then err invalid
            else if not (valid_image os (claim_input directory e i.name))
            then err invalid
            else if not (elim (lookup e.filename d.files) [ none ↦ false | some n ↦ n == e.size ])
            then err storage
            else elim rest [
              | err x ↦ err x
              | ok claims ↦ ok (
                  (
                    claim_input directory e i.name,
                    record { image_id = e.image_id; name = i.name; media_type = e.media_type },
                  )
                  ∷ claims)
            ]
      ]

  abbrev pub valid_claim : ClaimRequest → Bool
  valid_claim r =
      valid_origin os r.origin
      && known_provider r.provider
      && valid_id r.conversation_id
      && valid_id r.client_id
      && valid_id r.turn_id
      && valid_id r.message_id
      && not (is_empty r.images)
      && leb (length r.images) max_images_per_turn
      && leb r.inline_images (length r.images)

  -- `Claim`; `directory` is the directory's path, none if it cannot be opened.
  unfoldable pub claim :
      Option Str
      → Saving
      → ClaimRequest
      → ℕ
      → Directory
      → Result (List (ImageInput × ImageDescriptor)) × Directory
  unfolding store_claims
  claim directory saving r now d =
      if not (valid_claim r) then (err invalid, d) else elim directory [
        | none ↦ (err missing, d)
        | some path ↦ store_claims saving r d (check_claims path r now d 0 [] r.images)
      ]

abbrev pub of_message : Str → ImageRecord → Bool
of_message message e = str_eq e.message_id message

abbrev pub descriptor : ImageRecord → ImageDescriptor
descriptor e = record { image_id = e.image_id; name = e.name; media_type = e.media_type }

-- `ImagesForMessage`; a directory that cannot be opened has no images.
unfoldable pub images_for_message : Bool → Str → Str → Directory → Result (List ImageDescriptor)
images_for_message opened conversation message d =
    if not (valid_id conversation) || not (valid_id message)
    then err invalid
    else if not opened
    then ok []
    else ok (map descriptor (keep (λ e. is_claimed e.state && of_message message e) d.records))

-- `ReleaseMessage` and `ReleaseImages` on the records that the test picks; the manifest is saved before
-- a file goes. No error is none; that of the last synchronisation, which changes nothing, is left out.
unfoldable pub release_where :
    Saving → Option ℕ → (ImageRecord → Bool) → Directory → Option AttachmentError × Directory
release_where saving failure picked d =
    let gone = keep picked d.records in
    if is_empty gone
    then (none, d)
    else (let (d', stored) = save saving (keep (λ e. not (picked e)) d.records) d in
        let (files, removed) =
          remove_files failure (map (λ (e : ImageRecord). e.filename) gone) d'.files in
        if not stored
        then (some storage, d')
        else (if removed then none else some storage, record d' { files = files }))

-- `ReleaseMessage`; a directory that cannot be opened holds nothing to release.
unfoldable pub release_message :
    Bool → Saving → Option ℕ → Str → Str → Directory → Option AttachmentError × Directory
release_message opened saving failure conversation message d =
    if not (valid_id conversation) || not (valid_id message)
    then (some invalid, d)
    else if not opened
    then (none, d)
    else release_where saving failure (of_message message) d

-- `ReleaseImages`.
unfoldable pub release_images :
    Bool → Saving → Option ℕ → Str → Str → List Str → Directory → Option AttachmentError × Directory
release_images opened saving failure conversation message ids d =
    if not (valid_id conversation)
      || not (valid_id message)
      || is_empty ids
      || not (all valid_id ids)
    then (some invalid, d)
    else if not opened
    then (none, d)
    else release_where saving failure (λ e. of_message message e && contains e.image_id ids) d
