-- ===== src/Examples/Data.antt =====
-- Values that the examples share.
use agent_whiteboard.Base.{true, false, [], ◌∷◌, none, some, Str, str_eq, bytes, pos}
use mathlib.Core.Option
use agent_whiteboard.Common.Id.{valid_id, decode, sextets, dec_char, join_sextets, is_line_break}
use agent_whiteboard.Common.PageUrl.{valid_page_url}
use agent_whiteboard.Provider.Text.{
  valid_bounded_text, valid_bounded_bytes, valid_utf8, utf8_from, followers, has_disallowed_c0,
}
use agent_whiteboard.Provider.Message.Content.{valid_content, scan_part, scan_parts, valid_skill}
use agent_whiteboard.Provider.Message.Reference.{valid_reference}
use agent_whiteboard.Agent.{Url, Platform}
use agent_whiteboard.Agent.Digest.{
  markdown, context_digest, digest_input, length_prefixed, be64, hex, hex_digit, domain_of,
}
use agent_whiteboard.Provider.Message.{
  MessageContent, ContextReference, text_reference, markdown_resource, reference_part,
  text_message_part, part_bytes, semantic_bytes, inline_image_ids, images_of,
}
use agent_whiteboard.Provider.Turn.{
  PageContext, initial, ImageInput, fast, valid_turn, valid_images, images_from, valid_image,
  images_match, valid_absolute_clean_path, supported_media_type, valid_context, valid_settings,
  valid_presentation, valid_resource,
}
use agent_whiteboard.Broker.Queue.{
  QueueItem, Queue, enqueue, valid_item, descriptors_match, item_bytes, settings_bytes, same_id,
  new,
}

abbrev pub page_url : Url
page_url = record {
  scheme = bytes "https";
  host = bytes "example.org";
  hostname = bytes "example.org";
  has_user = false;
  path = [];
  raw_query = [];
  fragment = [];
  text = bytes "https://example.org";
}

-- A hash of one byte, one URL, and paths that are clean.
abbrev pub platform : Platform
platform = record { sha256 = λ _. 0xab ∷ []; parse_url = λ _. some page_url; clean_path = λ p. p }

abbrev pub turn_a : Str
turn_a = bytes "turnAAAAAAAAAAAAAAAAAAAAAAAAAAAA"

abbrev pub turn_b : Str
turn_b = bytes "turnBBBBBBBBBBBBBBBBBBBBBBBBBBBB"

abbrev pub message_a : Str
message_a = bytes "messageAAAAAAAAAAAAAAAAAAAAAAAAA"

abbrev pub message_b : Str
message_b = bytes "messageBBBBBBBBBBBBBBBBBBBBBBBBB"

abbrev pub image_a : Str
image_a = bytes "imageAAAAAAAAAAAAAAAAAAAAAAAAAAA"

abbrev pub text_content : Str → MessageContent
text_content s = record { parts = text_message_part s ∷ [] }

-- A quotation of a Markdown page.
abbrev pub quotation : ContextReference
quotation = record {
  id = bytes "referenceAAAAAAAAAAAAAAAAAAAAAAA";
  kind = text_reference;
  label = bytes "Intro";
  source = record {
    resource_kind = markdown_resource;
    resource_id = turn_a;
    resource_updated_at = 6;
    context_digest = bytes "0123456789abcdef0123456789abcdef0123456789abcdef0123456789abcdef";
    anchor = record {
      markdown = some (record {
        heading_path = [];
        start = record { block = pos 0; line = pos 1; offset = pos 0 };
        end = record { block = pos 0; line = pos 1; offset = pos 2 };
      });
      html = none;
    };
  };
  quote = bytes "hi";
  markdown = [];
  section_lines = none;
  component = none;
  visual = none;
}

abbrev pub quoting : Str → MessageContent
quoting s = record {
  parts =
      text_message_part s
      ∷ record { kind = reference_part; text = []; reference = some quotation; skill = none }
      ∷ [];
}

abbrev pub page : PageContext
page = record {
  revision = initial;
  source = bytes "# hi";
  creator_context = bytes "notes";
  title = bytes "Hi";
  url = bytes "https://example.org";
  resource = record {
    kind = markdown;
    id = turn_a;
    created_at = 5;
    updated_at = 6;
    expires_at = none;
  };
  digest = bytes "ab";
}

abbrev pub picture : ImageInput
picture = record {
  id = image_a;
  name = bytes "a.png";
  media_type = bytes "image/png";
  size = pos 10;
  path = bytes "/tmp/a.png";
}

abbrev pub item_a : QueueItem
item_a = record {
  turn_id = turn_a;
  message_id = message_a;
  content = text_content (bytes "hello");
  images = picture ∷ [];
  descriptors =
      record { image_id = image_a; name = bytes "a.png"; media_type = bytes "image/png" } ∷ [];
  context = some page;
  settings = some (record { model = bytes "m"; effort = bytes "low"; speed = fast });
  presentation = some (record { model_display_name = bytes "M"; selectable = true });
}

abbrev pub item_b : QueueItem
item_b = record {
  turn_id = turn_b;
  message_id = message_b;
  content = text_content (bytes "again");
  images = [];
  descriptors = [];
  context = none;
  settings = none;
  presentation = none;
}

abbrev pub one_item : Queue
one_item = record { items = item_a ∷ []; total = 14; has_context = true }

abbrev pub two_items : Queue
two_items = record { items = item_a ∷ item_b ∷ []; total = 19; has_context = true }

-- What a run of the queue computes through.
unfoldable pub queue_runs : Unit {0}
unfolding str_eq valid_id decode Option.bind sextets dec_char join_sextets is_line_break
    valid_content scan_part scan_parts valid_skill valid_reference part_bytes semantic_bytes
    valid_bounded_text valid_bounded_bytes valid_utf8 utf8_from followers has_disallowed_c0
    valid_turn valid_images images_from valid_image images_match valid_absolute_clean_path
    supported_media_type valid_context valid_settings valid_presentation valid_resource
    valid_page_url context_digest digest_input length_prefixed be64 hex hex_digit domain_of enqueue
    valid_item descriptors_match item_bytes settings_bytes same_id new inline_image_ids images_of
queue_runs = tt
