-- ===== src/State.antt =====
-- internal/agent/state/model.go: the durable bookkeeping of a page's conversations, which has no
-- content of them. The named strings of the source are texts here too, with its constants. Times count
-- from Go's zero time; `utc` is whether the location is UTC.
pub mod Equal
pub mod Valid
pub mod Transition
pub mod Store
pub mod Update
pub mod Calls
use agent_whiteboard.Base.{
  ℕ, Bool, List, Option, none, some, [], ◌∷◌, Str, bytes, ltb, if◌then◌else◌,
}
use agent_whiteboard.Provider.Turn.{ExecutionSettings, ModelPresentation}

pub record Time : Type 0 where
  pub instant : ℕ
  pub utc : Bool

abbrev pub before : Time → Time → Bool
before a b = ltb a.instant b.instant

-- `laterTime` of store.go.
abbrev pub later_time : Time → Time → Time
later_time left right = if before right left then left else right

abbrev pub resource_markdown : Str
resource_markdown = bytes "markdown"

abbrev pub resource_html : Str
resource_html = bytes "html"

pub record Identity : Type 0 where
  pub origin : Str
  pub kind : Str
  pub capability_id : Str
  pub provider : Str

abbrev pub revision_initial : Str
revision_initial = bytes "initial"

abbrev pub revision_replacement : Str
revision_replacement = bytes "replacement"

pub record Revision : Type 0 where
  pub digest : Str
  pub revision : Str
  pub source_updated_at : Time

abbrev pub commit_prepared : Str
commit_prepared = bytes "prepared"

abbrev pub commit_accepted : Str
commit_accepted = bytes "accepted"

pub record PreparedCommit : Type 0 where
  pub revision : Revision
  pub turn_id : Str
  pub phase : Str

-- A `NativeSessionRef` is its value.
pub record Session : Type 0 where
  pub conversation_id : Str
  pub native_session : Str
  pub created_at : Time
  pub updated_at : Time
  pub provider_label : Str
  pub model_label : Str
  pub settings : Option ExecutionSettings
  pub presentation : Option ModelPresentation
  pub committed : Option Revision
  pub observed : Option Revision
  pub prepared : Option PreparedCommit

pub record Mapping : Type 0 where
  pub schema_version : ℕ
  pub identity : Identity
  pub current : Option Session
  pub archives : List Session
  pub created_at : Time
  pub updated_at : Time

-- The current session, if there is one, and the archives.
abbrev pub all_sessions : Option Session → List Session → List Session
all_sessions none archives = archives
all_sessions (some session) archives = session ∷ archives

abbrev pub sessions : Mapping → List Session
sessions m = all_sessions m.current m.archives
