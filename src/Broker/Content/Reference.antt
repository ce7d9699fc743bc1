-- ===== src/Broker/Content/Reference.antt =====
-- internal/agent/broker/convert.go: a reference under the checks of the browser protocol and of the
-- provider.
use agent_whiteboard.Base.{
  ℕ, ◌+◌, ◌≡◌, refl, ap, Bool, true, false, not, ◌&&◌, Option, none, some, ◌==◌, leb, length, arith,
}
use agent_whiteboard.Common.Id.{valid_id}
use agent_whiteboard.Provider.Text.{valid_context_digest}
use agent_whiteboard.Provider.Message.{
  ReferenceKind, text_reference, section_reference, image_reference, component_reference,
  unknown_reference, ResourceKind, markdown_resource, html_resource, unknown_resource,
  MarkdownAnchor, HtmlAnchor, ReferenceSource, ComponentReference,
}
use agent_whiteboard.Provider.Message.Reference.{max_images_per_turn}
use agent_whiteboard.Provider
use agent_whiteboard.Protocol
use agent_whiteboard.Broker.Content.{visual_to_provider, reference_to_provider}

same_anchor :
    (k : ResourceKind) (m : Option MarkdownAnchor) (h : Option HtmlAnchor)
    → Protocol.Content.Reference.valid_anchor_union k m h
      ≡ Provider.Message.Reference.valid_anchor k m h
unfolding Protocol.Content.Reference.valid_anchor_union
    Protocol.Content.Reference.valid_markdown_anchor Protocol.Content.Reference.valid_html_anchor
    Protocol.Content.Reference.valid_anchor Protocol.Content.Reference.anchor_after
    Protocol.Content.Reference.valid_heading Protocol.Content.Reference.valid_element_tag
    Provider.Message.Reference.valid_anchor Provider.Message.Reference.valid_markdown_anchor
    Provider.Message.Reference.valid_html_anchor Provider.Message.Reference.valid_source_anchor
    Provider.Message.Reference.anchor_after Provider.Message.Reference.valid_heading
    Provider.Message.Reference.valid_element_tag
same_anchor markdown_resource none none = refl
same_anchor markdown_resource none (some h) = refl
same_anchor markdown_resource (some m) none = refl
same_anchor markdown_resource (some m) (some h) = refl
same_anchor html_resource none none = refl
same_anchor html_resource none (some h) = refl
same_anchor html_resource (some m) h = refl
same_anchor (unknown_resource s) m h = refl

same_source :
    (s : ReferenceSource)
    → Protocol.Content.Reference.valid_reference_source s
      ≡ Provider.Message.Reference.valid_reference_source s
unfolding Protocol.Content.Reference.valid_reference_source
    Provider.Message.Reference.valid_reference_source
same_source s =
    ap
      (λ b.
        valid_id s.resource_id
        && not (s.resource_updated_at == 0)
        && valid_context_digest s.context_digest
        && b)
      (same_anchor s.resource_kind s.anchor.markdown s.anchor.html)

-- Whether a picture that comes after `n` others is within the limit of a turn.
abbrev pub fits : ℕ → Option Protocol.Content.ReferenceVisual → Bool
fits n none = true
fits n (some v) = leb (n + 1) max_images_per_turn

visual_fits :
    (n : ℕ) (v : Option Protocol.Content.ReferenceVisual)
    → Protocol.Content.Reference.valid_reference_visual false v ≡ true
    → Provider.Message.Reference.valid_reference_visual (visual_to_provider (n + 1) v) ≡ fits n v
unfolding Protocol.Content.Reference.valid_reference_visual
    Provider.Message.Reference.valid_reference_visual
visual_fits n none h = ground (arith, h)
visual_fits n (some v) h = ground (arith, h)

component_fits :
    (n : ℕ) (c : Option ComponentReference) (v : Option Protocol.Content.ReferenceVisual)
    → Protocol.Content.Reference.valid_component false c v ≡ true
    → Provider.Message.Reference.valid_component c (visual_to_provider (n + 1) v) ≡ fits n v
unfolding Protocol.Content.Reference.valid_component Provider.Message.Reference.valid_component
component_fits n none v h = ground (arith, h)
component_fits n (some c) none h = ground (arith, h)
component_fits n (some c) (some v) h = ground (arith, h, visual_fits n (some v))

body_fits :
    (n : ℕ) (k : ReferenceKind) (r : Protocol.Content.ContextReference)
    → Protocol.Content.Reference.valid_reference_body false k r ≡ true
    → Provider.Message.Reference.valid_reference_body k (reference_to_provider (n + 1) r)
      ≡ fits n r.visual
unfolding Protocol.Content.Reference.valid_reference_body
    Provider.Message.Reference.valid_reference_body Protocol.Content.Reference.valid_section_lines
    Provider.Message.Reference.valid_section_lines
body_fits n text_reference r h = ground (arith, h)
body_fits n section_reference r h = ground (arith, h)
body_fits n image_reference r h = ground (arith, h, visual_fits n r.visual)
body_fits n component_reference r h = ground (arith, h, component_fits n r.component r.visual)
body_fits n (unknown_reference s) r h = ground (arith, h)

pub reference_fits :
    (n : ℕ) (r : Protocol.Content.ContextReference)
    → Protocol.Content.Reference.valid_reference false r ≡ true
    → Provider.Message.Reference.valid_reference (reference_to_provider (n + 1) r) ≡ fits n r.visual
unfolding Protocol.Content.Reference.valid_reference Provider.Message.Reference.valid_reference
reference_fits n r h = ground (arith, h, same_source r.source, body_fits n r.kind r)

-- A picture without a media type counts as it does for the provider.
abbrev pub visual_bytes : Option Protocol.Content.ReferenceVisual → ℕ
visual_bytes none = 0
visual_bytes (some v) = length v.media_type

pub reference_bytes_more :
    (k : ℕ) (r : Protocol.Content.ContextReference)
    → Protocol.Content.reference_bytes r
      ≡ Provider.Message.reference_semantic_bytes (reference_to_provider k r)
        + visual_bytes r.visual
unfolding Protocol.Content.reference_bytes Provider.Message.reference_semantic_bytes
    Protocol.Content.anchor_bytes Provider.Message.anchor_bytes
reference_bytes_more k r = ground arith

pub untyped :
    (r : Protocol.Content.ContextReference)
    → Protocol.Content.Reference.valid_reference false r ≡ true
    → visual_bytes r.visual ≡ 0
unfolding Protocol.Content.Reference.valid_reference Protocol.Content.Reference.valid_reference_body
    Protocol.Content.Reference.valid_component Protocol.Content.Reference.valid_reference_visual
untyped r h = ground (arith, h)
