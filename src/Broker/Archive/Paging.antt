-- ===== src/Broker/Archive/Paging.antt =====
-- What a browser sees that follows the cursors.
use agent_whiteboard.Base.{
  ℕ, suc, zero, ◌≤◌, ◌<◌, ◌≡◌, refl, sym, ◌∙◌, ap, subst, true, false, not, List, [], ◌∷◌, ◌++◌,
  append_assoc, none, some, Str, length, length-append, is_empty, map, map-append, all, contains,
  Distinct, ltb, ltb→lt, arith, Bool-cases, inl, inr,
}
use agent_whiteboard.Attachment.{known_provider}
use agent_whiteboard.Broker.Archive.{
  max_page_size, Session, Mapping, ArchiveItem, HistoryPage, ok, newest_first, after_session, take,
  item_of, page_size, page_of, archive_page,
}
use agent_whiteboard.Broker.Archive.Order.{
  session_ids, Descending, all-newest_first, contains-newest_first, length-newest_first,
  Distinct-newest_first, Descending-newest_first,
}
use agent_whiteboard.Broker.Archive.Pages.{
  gather, page_split, last_id-append, take-all, nonempty_push, after_session-middle,
}

gather-last :
    (fuel : ℕ) (m : Mapping) (before : Str) (limit : ℕ) (page : HistoryPage)
    → archive_page m before limit ≡ ok page
    → page.next ≡ none
    → gather (suc fuel) m before limit ≡ some page.items
unfolding gather
gather-last fuel m before limit page h e = ground (arith, h, e)

gather-more :
    (fuel : ℕ) (m : Mapping) (before : Str) (limit : ℕ) (page : HistoryPage) (cursor : Str)
    → (more : List ArchiveItem) → archive_page m before limit ≡ ok page
    → page.next ≡ some cursor
    → gather fuel m cursor limit ≡ some more
    → gather (suc fuel) m before limit ≡ some (page.items ++ more)
unfolding gather
gather-more fuel m before limit page cursor more h e g = ground (arith, h, e, g)

nonempty_middle :
    (p rest : List Session) (s : Session)
    → all (λ (x : Session). not (is_empty x.conversation_id)) (p ++ s ∷ rest) ≡ true
    → is_empty s.conversation_id ≡ false
nonempty_middle [] rest s h = ground (arith, h)
nonempty_middle (t ∷ p) rest s h = ground (arith, h, nonempty_middle p rest s)

-- The cursor of a session gives the page of those after it.
page_after :
    (m : Mapping) (limit : ℕ) (p rest : List Session) (s : Session)
    → known_provider m.provider ≡ true
    → newest_first m.archives ≡ p ++ s ∷ rest
    → Distinct (session_ids (newest_first m.archives))
    → all (λ (x : Session). not (is_empty x.conversation_id)) (newest_first m.archives) ≡ true
    → archive_page m s.conversation_id limit ≡ ok (page_of m.provider (page_size limit) rest)
unfolding archive_page
page_after m limit p rest s known e d named =
    let found : after_session s.conversation_id (newest_first m.archives) ≡ some rest =
      ap (after_session s.conversation_id) e
      ∙ after_session-middle p rest s (subst (λ xs. Distinct (session_ids xs)) e d) in
    ground (
      arith,
      known,
      found,
      nonempty_middle p rest s
          (subst (λ xs. all (λ (x : Session). not (is_empty x.conversation_id)) xs ≡ true) e named),
    )

module _ (m : Mapping) (limit k : ℕ) (known : known_provider m.provider ≡ true)
    (sized : page_size limit ≡ suc k) where
  page_next :
      (q rest : List Session) (s : Session)
      → take (suc k) (q ++ s ∷ rest) ≡ q ++ s ∷ []
      → length (q ++ s ∷ []) < length (q ++ s ∷ rest)
      → ((page_of m.provider (suc k) (q ++ s ∷ rest)).next ≡ some s.conversation_id)
        × ((page_of m.provider (suc k) (q ++ s ∷ rest)).items
            ≡ map (item_of m.provider) (q ++ s ∷ []))
  unfolding page_of
  page_next q rest s shown more =
      rw shown (ground (arith, more, last_id-append q s, nonempty_push q s), refl)

  -- A page that is not the last, and what is gathered after its cursor.
  gather_page :
      (fuel : ℕ) (before : Str) (q rest : List Session) (s : Session)
      → archive_page m before limit ≡ ok (page_of m.provider (suc k) (q ++ s ∷ rest))
      → take (suc k) (q ++ s ∷ rest) ≡ q ++ s ∷ []
      → length (q ++ s ∷ []) < length (q ++ s ∷ rest)
      → gather fuel m s.conversation_id limit ≡ some (map (item_of m.provider) rest)
      → gather (suc fuel) m before limit ≡ some (map (item_of m.provider) (q ++ s ∷ rest))
  gather_page fuel before q rest s page shown more after =
      let (next, items) = page_next q rest s shown more in
      gather-more fuel m before limit (page_of m.provider (suc k) (q ++ s ∷ rest)) s.conversation_id
        (map (item_of m.provider) rest) page next after
      ∙ ap (λ is. some (is ++ map (item_of m.provider) rest)) items
      ∙ ap some (
          sym (map-append (item_of m.provider) (q ++ s ∷ []) rest)
          ∙ ap (map (item_of m.provider)) (append_assoc q (s ∷ []) rest))

  gather_last_page :
      (fuel : ℕ) (before : Str) (left : List Session)
      → archive_page m before limit ≡ ok (page_of m.provider (suc k) left)
      → length left ≤ suc k
      → gather (suc fuel) m before limit ≡ some (map (item_of m.provider) left)
  gather_last_page fuel before left page short =
      let all_shown = take-all (suc k) left short in
      gather-last fuel m before limit (page_of m.provider (suc k) left) page
        (unfold page_of in rw all_shown (ground arith))
      ∙ unfold page_of in rw all_shown refl

  gather_split :
      (fuel : ℕ) (before : Str) (p left q rest : List Session) (s : Session)
      → ((cursor : Str) (p left : List Session)
          → newest_first m.archives ≡ p ++ left
          → archive_page m cursor limit ≡ ok (page_of m.provider (suc k) left)
          → length left < fuel
          → gather fuel m cursor limit ≡ some (map (item_of m.provider) left))
      → Distinct (session_ids (newest_first m.archives))
      → all (λ (x : Session). not (is_empty x.conversation_id)) (newest_first m.archives) ≡ true
      → newest_first m.archives ≡ p ++ left
      → archive_page m before limit ≡ ok (page_of m.provider (suc k) left)
      → left ≡ q ++ s ∷ rest
      → take (suc k) left ≡ q ++ s ∷ []
      → length q ≡ k
      → suc k < length left
      → length left < suc fuel
      → gather (suc fuel) m before limit ≡ some (map (item_of m.provider) left)
  gather_split fuel before p left q rest s later d named e page split shown count more h =
      let sizes = ap length split ∙ length-append q (s ∷ rest) in
      let place_of : newest_first m.archives ≡ (p ++ q) ++ s ∷ rest =
        e ∙ ap (λ xs. p ++ xs) split ∙ sym (append_assoc p q (s ∷ rest)) in
      let after = page_after m limit (p ++ q) rest s known place_of d named in
      gather_page fuel before q rest s (page ∙ ap (λ xs. ok (page_of m.provider (suc k) xs)) split)
        (subst (λ xs. take (suc k) xs ≡ q ++ s ∷ []) split shown)
        (omega (arith, count, more, sizes, length-append q (s ∷ []), length-append q (s ∷ rest)))
        (later s.conversation_id ((p ++ q) ++ s ∷ []) rest
          (place_of ∙ sym (append_assoc (p ++ q) (s ∷ []) rest))
          (after ∙ ap (λ n. ok (page_of m.provider n rest)) sized) (omega (arith, h, sizes)))
      ∙ ap (λ xs. some (map (item_of m.provider) xs)) (sym split)

  gather_from :
      (fuel : ℕ) (before : Str) (p left : List Session)
      → Distinct (session_ids (newest_first m.archives))
      → all (λ (x : Session). not (is_empty x.conversation_id)) (newest_first m.archives) ≡ true
      → newest_first m.archives ≡ p ++ left
      → archive_page m before limit ≡ ok (page_of m.provider (suc k) left)
      → length left < fuel
      → gather fuel m before limit ≡ some (map (item_of m.provider) left)
  gather_from zero before p left d named e page h = ground (arith, h)
  gather_from (suc fuel) before p left d named e page h =
      elim (Bool-cases (ltb (suc k) (length left))) [
        | inl long ↦
            let more = ltb→lt (suc k) (length left) long in
            let (q, s, rest, split, shown, count) = page_split k left (omega (arith, more)) in
            gather_split fuel before p left q rest s
              (λ cursor p left. gather_from fuel cursor p left d named) d named e page split shown
              count more h
        | inr short ↦ gather_last_page fuel before left page (ground (arith, short))
      ]

positive_size : (limit : ℕ) → limit ≤ max_page_size → (k : ℕ) × (page_size limit ≡ suc k)
positive_size zero h = (49, refl)
positive_size (suc k) h = (k, ground (arith, h))

-- For archives with different identifiers, none empty, and a page size of at most 100: who asks for the
-- first page and then for the page after each cursor, until there is none, gathers exactly the archives,
-- newest first, in no more than one request more than there are archives.
pub gather-all :
    (m : Mapping) (limit : ℕ)
    → known_provider m.provider ≡ true
    → limit ≤ max_page_size
    → Distinct (session_ids m.archives)
    → all (λ (s : Session). not (is_empty s.conversation_id)) m.archives ≡ true
    → (gather (suc (length m.archives)) m [] limit
        ≡ some (map (item_of m.provider) (newest_first m.archives)))
      × Descending (newest_first m.archives)
      × (length (newest_first m.archives) ≡ length m.archives)
      × ((id : Str)
          → contains id (session_ids (newest_first m.archives))
            ≡ contains id (session_ids m.archives))
unfolding archive_page
gather-all m limit known bound d named =
    let (k, sized) = positive_size limit bound in
    let first : archive_page m [] limit
        ≡ ok (page_of m.provider (page_size limit) (newest_first m.archives)) =
      ground (arith, known) in
    (
      gather_from m limit k known sized (suc (length m.archives)) [] [] (newest_first m.archives)
          (Distinct-newest_first m.archives d)
          (all-newest_first (λ (s : Session). not (is_empty s.conversation_id)) m.archives ∙ named)
          refl (first ∙ ap (λ n. ok (page_of m.provider n (newest_first m.archives))) sized)
          (omega (arith, length-newest_first m.archives)),
      Descending-newest_first m.archives,
      length-newest_first m.archives,
      λ id. contains-newest_first id m.archives,
    )
