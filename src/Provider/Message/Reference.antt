-- ===== src/Provider/Message/Reference.antt =====
-- internal/agent/provider/message.go: what a valid context reference is.
use agent_whiteboard.Base.{
  ℕ, Bool, true, false, not, ◌&&◌, ◌||◌, Option, none, some, Str, length, is_empty, is_some, all,
  leb, ◌==◌, pos, leb_ℤ, eq_ℤ, if◌then◌else◌,
}
use agent_whiteboard.Common.Id.{valid_id}
use agent_whiteboard.Provider.Text.{valid_bounded_text, valid_context_digest}
use agent_whiteboard.Provider.Message.{
  ReferenceKind, text_reference, section_reference, image_reference, component_reference,
  unknown_reference, ComponentType, image_component, unknown_component, ResourceKind,
  markdown_resource, html_resource, HeadingReference, SourceAnchor, MarkdownAnchor, HtmlAnchor,
  ReferenceSource, SourceLineRange, ComponentReference, ReferenceVisual, ContextReference,
}

abbrev pub max_images_per_turn : ℕ
max_images_per_turn = 8

abbrev pub max_image_name_bytes : ℕ
max_image_name_bytes = 255

abbrev pub known_component : ComponentType → Bool
known_component (unknown_component s) = false
known_component _ = true

-- `char < 'a' || char > 'z'` and so on: lower case letters, digits and the hyphen.
unfoldable pub valid_element_tag : Str → Bool
valid_element_tag value =
    valid_bounded_text value 32 true
    && all (λ c. (leb b'a' c && leb c b'z') || (leb b'0' c && leb c b'9') || c == b'-') value

unfoldable pub valid_source_anchor : SourceAnchor → Bool
valid_source_anchor a = leb_ℤ (pos 0) a.block && leb_ℤ (pos 1) a.line && leb_ℤ (pos 0) a.offset

-- `compareSourceAnchors(left, right) > 0`. Anchors are compared once both are known to be
-- nonnegative, so the source's subtraction cannot overflow.
unfoldable pub anchor_after : SourceAnchor → SourceAnchor → Bool
anchor_after left right =
    if eq_ℤ left.block right.block
    then not (leb_ℤ left.offset right.offset)
    else not (leb_ℤ left.block right.block)

unfoldable pub valid_heading : HeadingReference → Bool
valid_heading h =
    leb_ℤ (pos 1) h.level
    && leb_ℤ h.level (pos 6)
    && leb_ℤ (pos 1) h.ordinal
    && valid_bounded_text h.title 256 true

unfoldable pub valid_markdown_anchor : MarkdownAnchor → Bool
unfolding valid_source_anchor anchor_after valid_heading
valid_markdown_anchor a =
    leb (length a.heading_path) 12
    && valid_source_anchor a.start
    && valid_source_anchor a.end
    && not (anchor_after a.start a.end)
    && all valid_heading a.heading_path

unfoldable pub valid_html_anchor : HtmlAnchor → Bool
unfolding valid_element_tag
valid_html_anchor a =
    valid_bounded_text a.element_id 256 true
    && valid_element_tag a.tag
    && leb_ℤ (pos 1) a.ordinal
    && leb_ℤ a.ordinal (pos 128)

unfoldable pub valid_anchor : ResourceKind → Option MarkdownAnchor → Option HtmlAnchor → Bool
unfolding valid_markdown_anchor valid_html_anchor
valid_anchor markdown_resource (some m) none = valid_markdown_anchor m
valid_anchor html_resource none (some h) = valid_html_anchor h
valid_anchor _ _ _ = false

-- `validateReferenceSource`: the anchor is of the resource's kind, and the only one.
unfoldable pub valid_reference_source : ReferenceSource → Bool
unfolding valid_anchor
valid_reference_source s =
    valid_id s.resource_id
    && not (s.resource_updated_at == 0)
    && valid_context_digest s.context_digest
    && valid_anchor s.resource_kind s.anchor.markdown s.anchor.html

unfoldable pub valid_reference_visual : Option ReferenceVisual → Bool
valid_reference_visual none = false
valid_reference_visual (some v) =
    valid_id v.image_id
    && valid_bounded_text v.name max_image_name_bytes true
    && valid_bounded_text v.alt 512 false
    && leb_ℤ (pos 1) v.ordinal
    && leb_ℤ v.ordinal (pos max_images_per_turn)

abbrev is_markdown : ResourceKind → Bool
is_markdown markdown_resource = true
is_markdown _ = false

abbrev is_html : ResourceKind → Bool
is_html html_resource = true
is_html _ = false

abbrev is_image_component : ComponentType → Bool
is_image_component image_component = true
is_image_component _ = false

unfoldable pub valid_section_lines : Option SourceLineRange → Bool
valid_section_lines none = false
valid_section_lines (some l) = leb_ℤ (pos 1) l.start && not (leb_ℤ l.end l.start)

unfoldable pub valid_component : Option ComponentReference → Option ReferenceVisual → Bool
unfolding valid_reference_visual
valid_component none visual = false
valid_component (some c) visual =
    known_component c.kind
    && valid_bounded_text c.source_excerpt 49152 true
    && (not (is_some visual) || (is_image_component c.kind && valid_reference_visual visual))

-- The `switch` of `validateContextReference`.
unfoldable pub valid_reference_body : ReferenceKind → ContextReference → Bool
unfolding valid_section_lines valid_component valid_reference_visual
valid_reference_body text_reference r =
    is_markdown r.source.resource_kind
    && valid_bounded_text r.quote 16384 true
    && is_empty r.markdown
    && not (is_some r.section_lines)
    && not (is_some r.component)
    && not (is_some r.visual)
valid_reference_body section_reference r =
    is_markdown r.source.resource_kind
    && is_empty r.quote
    && valid_bounded_text r.markdown 49152 true
    && valid_section_lines r.section_lines
    && not (is_some r.component)
    && not (is_some r.visual)
valid_reference_body image_reference r =
    is_markdown r.source.resource_kind
    && is_empty r.quote
    && is_empty r.markdown
    && not (is_some r.section_lines)
    && not (is_some r.component)
    && valid_reference_visual r.visual
valid_reference_body component_reference r =
    is_html r.source.resource_kind
    && is_empty r.quote
    && is_empty r.markdown
    && not (is_some r.section_lines)
    && valid_component r.component r.visual
valid_reference_body (unknown_reference s) r = false

-- `validateContextReference(reference) == nil`.
unfoldable pub valid_reference : ContextReference → Bool
unfolding valid_reference_source valid_reference_body
valid_reference r =
    valid_id r.id
    && valid_bounded_text r.label 256 true
    && valid_reference_source r.source
    && valid_reference_body r.kind r
