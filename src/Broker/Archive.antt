-- ===== src/Broker/Archive.antt =====
-- internal/agent/broker/archive.go: the pages of a conversation's archives, newest first. A session is
-- the fields that a page reads; the mapping is its provider and its archives.
pub mod Order
pub mod Paging
pub mod Pages
use agent_whiteboard.Base.{
  ℕ, suc, zero, ◌+◌, not, ◌&&◌, ◌||◌, List, [], ◌∷◌, ◌++◌, Option, none, some, Str, str_eq, length,
  is_empty, map, ltb, ◌==◌, if◌then◌else◌,
}
use agent_whiteboard.Attachment.{known_provider}

abbrev pub default_page_size : ℕ
default_page_size = 50

abbrev pub max_page_size : ℕ
max_page_size = 100

pub record Session : Type 0 where
  pub conversation_id : Str
  pub created_at : ℕ
  pub updated_at : ℕ
  pub model_label : Str

pub record Mapping : Type 0 where
  pub provider : Str
  pub archives : List Session

pub record ArchiveItem : Type 0 where
  pub archive_id : Str
  pub created_at : ℕ
  pub updated_at : ℕ
  pub provider : Str
  pub model : Str

pub record HistoryPage : Type 0 where
  pub items : List ArchiveItem
  pub next : Option Str

pub data PageError : Type 0 where
  state_repair_failed stale_reference : PageError

pub data Paged : Type 0 where
  ok : HistoryPage → Paged
  err : PageError → Paged

-- `sort.SliceStable` by the time of the last update: a session goes behind those that are newer.
unfoldable pub place : Session → List Session → List Session
place s [] = s ∷ []
place s (t ∷ ts) = if ltb s.updated_at t.updated_at then t ∷ place s ts else s ∷ t ∷ ts

unfoldable pub newest_first : List Session → List Session
newest_first [] = []
newest_first (s ∷ ss) = place s (newest_first ss)

-- Those after the first session with the identifier.
unfoldable pub after_session : Str → List Session → Option (List Session)
after_session id [] = none
after_session id (s ∷ ss) = if str_eq s.conversation_id id then some ss else after_session id ss

abbrev pub take : ℕ → List Session → List Session
take zero ss = []
take (suc n) [] = []
take (suc n) (s ∷ ss) = s ∷ take n ss

abbrev pub item_of : Str → Session → ArchiveItem
item_of provider s = record {
  archive_id = s.conversation_id;
  created_at = s.created_at;
  updated_at = s.updated_at;
  provider = provider;
  model = s.model_label;
}

abbrev pub last_id : List Session → Option Str
last_id [] = none
last_id (s ∷ []) = some s.conversation_id
last_id (s ∷ t ∷ ss) = last_id (t ∷ ss)

-- `NormalizePageSize` of a size that is not negative.
abbrev pub page_size : ℕ → ℕ
page_size size = if size == 0 then default_page_size else if ltb max_page_size size then 0 else size

-- The page at the front of the sessions that are left, of at most `n`.
unfoldable pub page_of : Str → ℕ → List Session → HistoryPage
page_of provider n rest =
    let shown = take n rest in
    record {
      items = map (item_of provider) shown;
      next =
          if ltb (length shown) (length rest) && not (is_empty shown) then last_id shown else none;
    }

-- `archivePage`.
unfoldable pub archive_page : Mapping → Str → ℕ → Paged
archive_page m before limit =
    let sorted = newest_first m.archives in
    if not (known_provider m.provider)
    then err state_repair_failed
    else if is_empty before
    then ok (page_of m.provider (page_size limit) sorted)
    else elim (after_session before sorted) [
      | none ↦ err stale_reference
      | some rest ↦ ok (page_of m.provider (page_size limit) rest)
    ]
