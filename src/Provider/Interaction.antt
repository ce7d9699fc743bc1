-- ===== src/Provider/Interaction.antt =====
-- internal/agent/provider/interaction.go: what an adapter asks a reader while its work is paused, and
-- the reader's response. A kind is an open string type in the source; `unknown` stands for a text that
-- is none of the constants. Answers are a map from keys to lists of texts.
pub mod Valid
use agent_whiteboard.Base.{
  ℕ, ◌+◌, Bool, true, false, ◌&&◌, ◌||◌, List, [], ◌∷◌, Option, Str, bytes, ◌==◌, if◌then◌else◌,
}

abbrev pub max_interaction_text_bytes : ℕ
max_interaction_text_bytes = 65536

abbrev pub max_interaction_options : ℕ
max_interaction_options = 16

abbrev pub max_interaction_questions : ℕ
max_interaction_questions = 3

abbrev pub max_interaction_answers : ℕ
max_interaction_answers = 32

pub data InteractionKind : Type 0 where
  command_approval file_approval permission_approval user_input mcp_elicitation : InteractionKind
  unknown_kind : Str → InteractionKind

abbrev pub kind_text : InteractionKind → Str
kind_text command_approval = bytes "command_approval"
kind_text file_approval = bytes "file_change_approval"
kind_text permission_approval = bytes "permission_approval"
kind_text user_input = bytes "user_input"
kind_text mcp_elicitation = bytes "mcp_elicitation"
kind_text (unknown_kind s) = s

-- `validInteractionKind`.
abbrev pub known_kind : InteractionKind → Bool
known_kind command_approval = true
known_kind file_approval = true
known_kind permission_approval = true
known_kind user_input = true
known_kind mcp_elicitation = true
known_kind (unknown_kind s) = false

pub data FieldType : Type 0 where
  text_field number_field boolean_field select_field multi_select_field : FieldType
  unknown_field : Str → FieldType

abbrev pub field_text : FieldType → Str
field_text text_field = bytes "text"
field_text number_field = bytes "number"
field_text boolean_field = bytes "boolean"
field_text select_field = bytes "select"
field_text multi_select_field = bytes "multi_select"
field_text (unknown_field s) = s

-- `validInteractionFieldType`.
abbrev pub known_field : FieldType → Bool
known_field text_field = true
known_field number_field = true
known_field boolean_field = true
known_field select_field = true
known_field multi_select_field = true
known_field (unknown_field s) = false

pub record InteractionOption : Type 0 where
  pub id : Str
  pub label : Str
  pub description : Str

pub record Question : Type 0 where
  pub id : Str
  pub header : Str
  pub prompt : Str
  pub options : List InteractionOption
  pub allow_other : Bool
  pub secret : Bool
  pub multiple : Bool

pub record Field : Type 0 where
  pub id : Str
  pub label : Str
  pub description : Str
  pub type : FieldType
  pub required : Bool
  pub secret : Bool
  pub multiline : Bool
  pub options : List InteractionOption

-- A `time.Time`: `instant` is 0 where `IsZero` holds.
pub record Deadline : Type 0 where
  pub instant : ℕ
  pub utc : Bool

pub record InteractionRequest : Type 0 where
  pub id : Str
  pub turn_id : Str
  pub kind : InteractionKind
  pub title : Str
  pub summary : Str
  pub command : Str
  pub working_directory : Str
  pub options : List InteractionOption
  pub questions : List Question
  pub fields : List Field
  pub local_deadline : Option Deadline

pub record InteractionResponse : Type 0 where
  pub request_id : Str
  pub kind : InteractionKind
  pub option_id : Str
  pub answers : List (Str × List Str)
