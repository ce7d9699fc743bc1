-- ===== src/Attachment/Claim/Exclusive.antt =====
-- Which turn a staged image goes to.
use agent_whiteboard.Base.{
  ℕ, suc, ◌≡◌, ◌⊎◌, refl, sym, ◌∙◌, ap, subst, true, false, List, [], ◌∷◌, Option, none, some, Str,
  str_eq, str_eq_symm, str_eq_iff, is_some, map, contains, arith, Bool-cases, Option-cases, inl,
  inr,
}
use agent_whiteboard.Agent.{Platform}
use agent_whiteboard.Provider.Turn.{ImageInput}
use agent_whiteboard.Broker.Queue.{ImageDescriptor}
use agent_whiteboard.Attachment.{
  claimed, AttachmentError, ImageRecord, Result, ok, err, Directory, Saving, saved, save_lost,
  save_unsynced, save, find_record, ImageReference, ClaimRequest, is_staged,
}
use agent_whiteboard.Attachment.Claim.{
  find_reference, claim_record, check_claims, store_claims, claim,
}

abbrev pub reference_ids : List ImageReference → List Str
reference_ids = map λ (i : ImageReference). i.image_id

find_reference_present :
    (id : Str) (is : List ImageReference)
    → is_some (find_reference id is) ≡ contains id (reference_ids is)
unfolding find_reference
find_reference_present id [] = refl
find_reference_present id (i ∷ is) =
    ground (arith, str_eq_symm i.image_id id, find_reference_present id is)

claim_record_id : (r : ClaimRequest) (e : ImageRecord) → (claim_record r e).image_id ≡ e.image_id
unfolding claim_record
claim_record_id r e = elim (Option-cases (find_reference e.image_id r.images)) [
  | inl h ↦ ground (arith, h)
  | inr (i, h) ↦ ground (arith, h)
]

-- A record of a claimed image is claimed for the turn.
claim_record_claims :
    (r : ClaimRequest) (e : ImageRecord)
    → contains e.image_id (reference_ids r.images) ≡ true
    → ((claim_record r e).state ≡ claimed)
      × ((claim_record r e).turn_id ≡ r.turn_id)
      × ((claim_record r e).message_id ≡ r.message_id)
unfolding claim_record
claim_record_claims r e h = elim (Option-cases (find_reference e.image_id r.images)) [
  | inl f ↦ ground (arith, h, f, find_reference_present e.image_id r.images)
  | inr (i, f) ↦ ground (arith, f)
]

find_claimed :
    (r : ClaimRequest) (id : Str) (rs : List ImageRecord) (e : ImageRecord)
    → contains id (reference_ids r.images) ≡ true
    → find_record id (map (claim_record r) rs) ≡ some e
    → (e.state ≡ claimed) × (e.turn_id ≡ r.turn_id) × (e.message_id ≡ r.message_id)
unfolding find_record
find_claimed r id [] e h f = cc
find_claimed r id (x ∷ rs) e h f = elim (Bool-cases (str_eq x.image_id id)) [
  | inl s ↦
      let same : claim_record r x ≡ e = ground (arith, f, s, claim_record_id r x) in
      subst
        (λ (y : ImageRecord).
          (y.state ≡ claimed) × (y.turn_id ≡ r.turn_id) × (y.message_id ≡ r.message_id))
        same (claim_record_claims r x (ground (arith, h, s, str_eq_iff x.image_id id)))
  | inr s ↦ find_claimed r id rs e h (ground (arith, f, s, claim_record_id r x))
]

Result-cases {ℓ} :
    {A : Type ℓ} (r : Result A) → ((e : AttachmentError) × (r ≡ err e)) ⊎ ((a : A) × (r ≡ ok a))
Result-cases (ok a) = inr (a, refl)
Result-cases (err e) = inl (e, refl)

-- A staged record is not that of an identifier whose record is claimed.
staged_differs :
    (id other : Str) (rs : List ImageRecord) (e : ImageRecord)
    → find_record other rs ≡ some e
    → ((x : ImageRecord) → find_record id rs ≡ some x → x.state ≡ claimed)
    → is_staged e.state ≡ true
    → str_eq id other ≡ false
staged_differs id other rs e f taken unclaimed = elim (Bool-cases (str_eq id other)) [
  | inl s ↦
      let same : id ≡ other = (str_eq_iff id other).0 s in
      ground (arith, unclaimed, taken e (ap (λ j. find_record j rs) same ∙ f))
  | inr s ↦ s
]

store_claims_ok :
    (saving : Saving) (r : ClaimRequest) (d d' : Directory)
    → (result : Result (List (ImageInput × ImageDescriptor)))
    → (claims : List (ImageInput × ImageDescriptor))
    → store_claims saving r d result ≡ (ok claims, d')
    → (result ≡ ok claims) × (d'.records ≡ map (claim_record r) d.records)
unfolding store_claims save
store_claims_ok saved r d d' (ok x) claims h = (ground (arith, h), ground (arith, h))
store_claims_ok save_lost r d d' (ok x) claims h = ground (arith, h)
store_claims_ok save_unsynced r d d' (ok x) claims h = ground (arith, h)
store_claims_ok saving r d d' (err e) claims h = ground (arith, h)

module _ (os : Platform) where
  -- Images that are checked are none that is claimed already.
  check_claims_unclaimed :
      (path : Str) (r : ClaimRequest) (now : ℕ) (d : Directory) (id : Str)
      → ((e : ImageRecord) → find_record id d.records ≡ some e → e.state ≡ claimed)
      → (position : ℕ) (seen : List Str) (is : List ImageReference)
      → (claims : List (ImageInput × ImageDescriptor))
      → check_claims os path r now d position seen is ≡ ok claims
      → contains id (reference_ids is) ≡ false
  unfolding check_claims
  check_claims_unclaimed path r now d id taken position seen [] claims h = refl
  check_claims_unclaimed path r now d id taken position seen (i ∷ is) claims h =
      elim (Option-cases (find_record i.image_id d.records)) [
        | inl f ↦ ground (arith, h, f)
        | inr (e, f) ↦
            let unclaimed : is_staged e.state ≡ true = ground (arith, h, f) in
            let other : str_eq id i.image_id ≡ false =
              staged_differs id i.image_id d.records e f taken unclaimed in
            elim (Result-cases
              (check_claims os path r now d (suc position) (i.image_id ∷ seen) is)) [
                | inl (x, g) ↦ ground (arith, h, f, g)
                | inr (rest, g) ↦ ground (
                  arith,
                  other,
                  check_claims_unclaimed path r now d id taken (suc position) (i.image_id ∷ seen) is
                      rest g,
                )
              ]
      ]

  claim_ok :
      (path : Option Str) (saving : Saving) (r : ClaimRequest) (now : ℕ) (d d' : Directory)
      → (claims : List (ImageInput × ImageDescriptor))
      → claim os path saving r now d ≡ (ok claims, d')
      → (directory : Str) × (check_claims os directory r now d 0 [] r.images ≡ ok claims)
        × (d'.records ≡ map (claim_record r) d.records)
  unfolding claim
  claim_ok none saving r now d d' claims h = ground (arith, h)
  claim_ok (some directory) saving r now d d' claims h =
      let (checked, records) =
        store_claims_ok saving r d d' (check_claims os directory r now d 0 [] r.images) claims
          (ground (arith, h)) in
      (directory, checked, records)

  -- A claim that succeeds leaves each of its images claimed for its turn and message, and no later
  -- claim, by whom and for what turn it may be, that succeeds on that directory names one of them.
  pub claim_exclusive :
      (path : Option Str) (saving : Saving) (r : ClaimRequest) (now : ℕ) (d d' : Directory)
      → (claims : List (ImageInput × ImageDescriptor))
      → claim os path saving r now d ≡ (ok claims, d')
      → (id : Str) → contains id (reference_ids r.images) ≡ true
      → ((e : ImageRecord)
          → find_record id d'.records ≡ some e
          → (e.state ≡ claimed) × (e.turn_id ≡ r.turn_id) × (e.message_id ≡ r.message_id))
        × ((path' : Option Str) (saving' : Saving) (r' : ClaimRequest) (later : ℕ) (d'' : Directory)
            → (claims' : List (ImageInput × ImageDescriptor))
            → claim os path' saving' r' later d' ≡ (ok claims', d'')
            → contains id (reference_ids r'.images) ≡ false)
  claim_exclusive path saving r now d d' claims h id mine =
      let records = (claim_ok path saving r now d d' claims h).2 in
      let taken : (e : ImageRecord)
          → find_record id d'.records ≡ some e
          → (e.state ≡ claimed) × (e.turn_id ≡ r.turn_id) × (e.message_id ≡ r.message_id) =
        λ e f. find_claimed r id d.records e mine (sym (ap (find_record id) records) ∙ f) in
      (
        taken,
        λ path' saving' r' later d'' claims' h'.
            let (directory, checked, stored) = claim_ok path' saving' r' later d' d'' claims' h' in
            check_claims_unclaimed directory r' later d' id (λ e f. (taken e f).0) 0 [] r'.images
              claims' checked,
      )
