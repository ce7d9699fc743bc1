-- ===== src/Attachment/Read/Access.antt =====
-- internal/agent/attachment/service.go: who reaches an image.
use agent_whiteboard.Base.{
  false, ◌&&◌, ◌||◌, sym, ◌∙◌, contains, str_eq_symm, str_eq_iff, Distinct, none, map,
  if◌then◌else◌, ℕ, ◌≡◌, refl, ap, Bool, true, not, List, [], ◌∷◌, Option, some, Str, str_eq, ltb,
  keep, arith, Bool-cases, Option-cases, inl, inr,
}
use agent_whiteboard.Agent.{Platform}
use agent_whiteboard.Attachment.{
  ImageRecord, Result, missing, storage, err, ok, Directory, Saving, saved, save_lost,
  save_unsynced, save, find_record, is_staged,
}
use agent_whiteboard.Attachment.Read.{
  ReadRequest, Image, readable, valid_read, deletable, remove_record, read, delete_staged,
}

-- Removing a staged record leaves those that are not staged.
remove_keeps :
    (id : Str) (es : List ImageRecord) (e : ImageRecord)
    → find_record id es ≡ some e
    → is_staged e.state ≡ true
    → keep (λ x. not (is_staged x.state)) (remove_record id es)
      ≡ keep (λ x. not (is_staged x.state)) es
unfolding find_record remove_record
remove_keeps id [] e f h = cc
remove_keeps id (x ∷ es) e f h = elim (Bool-cases (str_eq x.image_id id)) [
  | inl s ↦
      let same : x ≡ e = ground (arith, f, s) in
      rw s (ground (arith, ap (λ (y : ImageRecord). is_staged y.state) same, h))
  | inr s ↦ ground (arith, f, s, remove_keeps id es e)
]

save_keeps :
    (saving : Saving) (p : ImageRecord → Bool) (records : List ImageRecord) (d : Directory)
    → keep p records ≡ keep p d.records
    → keep p (save saving records d).0.records ≡ keep p d.records
unfolding save
save_keeps saved p records d h = h
save_keeps save_lost p records d h = refl
save_keeps save_unsynced p records d h = h

-- Whether a request may see an image: it is of the request's origin, and it is claimed, or else staged by
-- the request's client and not expired.
abbrev pub may_see : ReadRequest → ℕ → ImageRecord → Bool
may_see r now e =
    str_eq e.origin r.origin
    && (not (is_staged e.state) || (str_eq e.client_id r.client_id && ltb now e.expires_at))

abbrev pub record_ids : List ImageRecord → List Str
record_ids = map λ e. e.image_id

abbrev seen : (ImageRecord → Bool) → Option ImageRecord → Option ImageRecord
seen p none = none
seen p (some e) = if p e then some e else none

find_record-absent :
    (p : ImageRecord → Bool) (id : Str) (es : List ImageRecord)
    → contains id (record_ids es) ≡ false
    → find_record id (keep p es) ≡ none
unfolding find_record
find_record-absent p id [] h = refl
find_record-absent p id (e ∷ es) h =
    ground (arith, h, str_eq_symm e.image_id id, find_record-absent p id es)

-- Among the records that pass a test, an identifier finds its record if that passes.
find_record-keep :
    (p : ImageRecord → Bool) (id : Str) (es : List ImageRecord)
    → Distinct (record_ids es)
    → find_record id (keep p es) ≡ seen p (find_record id es)
unfolding find_record
find_record-keep p id [] d = refl
find_record-keep p id (e ∷ es) d = ground (
  arith,
  d.0,
  str_eq_iff e.image_id id,
  find_record-absent p e.image_id es,
  find_record-keep p id es d.1,
)

-- What a valid request sees of an image that it may see, or of none.
abbrev pub shown : (Str → ℕ → Option Str) → Option ImageRecord → Result Image
shown content none = err missing
shown content (some e) = elim (content e.filename e.size) [
  | none ↦ err storage
  | some bytes ↦ ok (record { media_type = e.media_type; content = bytes })
]

shown-seen :
    (content : Str → ℕ → Option Str) (now : ℕ) (r : ReadRequest) (o : Option ImageRecord)
    → elim o [
      | none ↦ err missing
      | some e ↦ if not (readable r now e) then err missing else shown content (some e)
    ]
      ≡ shown content (seen (may_see r now) o)
shown-seen content now r none = refl
shown-seen content now r (some e) = ground arith

module _ (os : Platform) where
  read_seen :
      (content : Str → ℕ → Option Str) (now : ℕ) (r : ReadRequest) (d : Directory)
      → Distinct (record_ids d.records)
      → valid_read os r ≡ true
      → read os true content now r d
        ≡ shown content (find_record r.image_id (keep (may_see r now) d.records))
  unfolding read
  read_seen content now r d distinct valid = rw valid (
      shown-seen content now r (find_record r.image_id d.records)
      ∙ ap (shown content) (sym (find_record-keep (may_see r now) r.image_id d.records distinct)))

  -- To a valid request, a conversation's images are those that it may see: of its own origin, and claimed
  -- or else staged by its client and not expired. From a directory without repeated identifiers it is
  -- answered with such an image, or a storage error if its file cannot be read; any other is missing, as
  -- if it were not there. Another such directory with the same images to see answers alike.
  pub read_hides :
      (content : Str → ℕ → Option Str) (now : ℕ) (r : ReadRequest) (d d' : Directory)
      → Distinct (record_ids d.records)
      → Distinct (record_ids d'.records)
      → valid_read os r ≡ true
      → keep (may_see r now) d.records ≡ keep (may_see r now) d'.records
      → (read os true content now r d
          ≡ shown content (find_record r.image_id (keep (may_see r now) d.records)))
        × (read os true content now r d' ≡ read os true content now r d)
  read_hides content now r d d' distinct distinct' valid same =
      let first = read_seen content now r d distinct valid in
      (
        first,
        read_seen content now r d' distinct' valid
            ∙ ap (λ es. shown content (find_record r.image_id es)) (sym same)
            ∙ sym first,
      )

  -- Whatever the request and the outcome of saving and removing, deleting a staged image leaves every
  -- image that is not staged in the manifest.
  pub delete_staged_keeps :
      (opened : Bool) (saving : Saving) (removed : Bool) (r : ReadRequest) (d : Directory)
      → keep (λ e. not (is_staged e.state)) (delete_staged os opened saving removed r d).1.records
        ≡ keep (λ e. not (is_staged e.state)) d.records
  unfolding delete_staged
  delete_staged_keeps opened saving removed r d =
      elim (Option-cases (find_record r.image_id d.records)) [
        | inl f ↦ ground (arith, f)
        | inr (e, f) ↦ elim (Bool-cases (deletable r e)) [
          | inl b ↦
              let kept =
                save_keeps saving (λ (x : ImageRecord). not (is_staged x.state))
                  (remove_record r.image_id d.records) d
                  (remove_keeps r.image_id d.records e f (ground (arith, b))) in
              ground (arith, f, b, kept)
          | inr b ↦ ground (arith, f, b)
        ]
      ]
