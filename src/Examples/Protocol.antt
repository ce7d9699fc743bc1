-- ===== src/Examples/Protocol.antt =====
-- internal/agent/protocol on concrete values.
use agent_whiteboard.Base.{
  [], ◌∷◌, some, none, Str, ◌≡◌, refl, bytes, pos, false, ◌&&◌, is_some, leb, length,
}
use agent_whiteboard.Provider.Message.{
  reference_part, text_part, text_message_part, image_reference, markdown_resource,
  inline_image_ids,
}
use agent_whiteboard.Provider.Message.Reference.{max_images_per_turn}
use agent_whiteboard.Provider
use agent_whiteboard.Protocol
use agent_whiteboard.Broker.Content.{
  message_content_to_provider, parts_to_provider, reference_to_provider,
}
use agent_whiteboard.Broker.Content.Part.{ordinals, numbers, image_ids}
use agent_whiteboard.Broker.Content.Accepted.{
  message_content_to_provider_accepts, message_content_to_provider_shows,
}
use agent_whiteboard.Examples.Data.{queue_runs, turn_a, image_a}
use agent_whiteboard.Provider.Text.{valid_context_digest, valid_utf8, utf8_from, followers}
use agent_whiteboard.Protocol.Delta.{
  max_delta_bytes, chunk_end, split_from, split_text, split_delta,
}
use agent_whiteboard.Protocol.Delta.Pieces.{Pieces, split_delta-total}

-- An `a`, and a rune of three bytes.
abbrev euro_text : Str
euro_text = 97 ∷ 0xe2 ∷ 0x82 ∷ 0xac ∷ 98 ∷ []

-- A limit of four bytes does not cut the rune.
split_example : split_text 4 euro_text ≡ some ((97 ∷ 0xe2 ∷ 0x82 ∷ 0xac ∷ []) ∷ (98 ∷ []) ∷ [])
unfolding split_text split_from chunk_end valid_utf8 utf8_from followers
split_example = refl

split_delta-total_example : Pieces max_delta_bytes euro_text (split_delta euro_text)
split_delta-total_example =
    split_delta-total euro_text (unfold valid_utf8 utf8_from followers in refl)

-- A reference to a picture of a Markdown page, and a message that shows it.
abbrev shown_picture : Protocol.Content.ContextReference
shown_picture = record {
  id = bytes "referenceAAAAAAAAAAAAAAAAAAAAAAA";
  kind = image_reference;
  label = bytes "Logo";
  source = record {
    resource_kind = markdown_resource;
    resource_id = turn_a;
    resource_updated_at = 6;
    context_digest = bytes "0123456789abcdef0123456789abcdef0123456789abcdef0123456789abcdef";
    anchor = record {
      markdown = some (record {
        heading_path = record { level = pos 1; title = bytes "Top"; ordinal = pos 1 } ∷ [];
        start = record { block = pos 0; line = pos 1; offset = pos 0 };
        end = record { block = pos 0; line = pos 1; offset = pos 4 };
      });
      html = none;
    };
  };
  quote = [];
  markdown = [];
  section_lines = none;
  component = none;
  visual = some (record { image_id = image_a; name = bytes "a.png"; alt = []; media_type = [] });
}

abbrev showing : Protocol.Content.MessageContent
showing = record {
  parts =
      record { kind = text_part; text = bytes "look"; reference = none; skill = none }
      ∷ record { kind = reference_part; text = []; reference = some shown_picture; skill = none }
      ∷ [];
}

abbrev showing_converted : Provider.Message.MessageContent
showing_converted = record {
  parts =
      text_message_part (bytes "look")
      ∷ record {
        kind = reference_part;
        text = [];
        reference = some (reference_to_provider 1 shown_picture);
        skill = none;
      }
      ∷ [];
}

showing_passes : message_content_to_provider showing ≡ some showing_converted
unfolding queue_runs message_content_to_provider parts_to_provider
    Protocol.Content.Valid.valid_content Protocol.Content.Valid.scan_parts
    Protocol.Content.Valid.scan_part Protocol.Content.Reference.valid_reference
    Protocol.Content.Reference.valid_reference_visual
    Protocol.Content.Reference.valid_reference_source Protocol.Content.reference_bytes
    Protocol.Content.Reference.valid_anchor Protocol.Content.Reference.anchor_after
    Provider.Message.reference_semantic_bytes valid_context_digest
showing_passes = refl

message_content_to_provider_accepts_example : is_some (message_content_to_provider showing) ≡ (
    Protocol.Content.Valid.valid_content false showing
    && leb (length (Protocol.Content.inline_images showing)) max_images_per_turn)
message_content_to_provider_accepts_example = message_content_to_provider_accepts showing

message_content_to_provider_shows_example :
    (inline_image_ids showing_converted ≡ image_ids (Protocol.Content.inline_images showing))
    × (ordinals showing_converted.parts
        ≡ numbers 0 (length (Protocol.Content.inline_images showing)))
    × (length showing_converted.parts ≡ length showing.parts)
message_content_to_provider_shows_example =
    message_content_to_provider_shows showing showing_converted showing_passes
