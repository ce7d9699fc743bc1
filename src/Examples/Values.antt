-- ===== src/Examples/Values.antt =====
-- Identifiers, digests, messages and images on concrete inputs.
use mathlib.Core.Option
use agent_whiteboard.Common.Id.Generator.{GivesBytes, new_id_lem}
use agent_whiteboard.Common.Id.Codec.{IsByte}
use agent_whiteboard.Common.Id.{new_id, enc_char}
use agent_whiteboard.Base.{
  zero, suc, Option, All, Str, subst, ℕ, ◌≤◌, ◌∷◌, ◌≡◌, ◌≢◌, ◌↔◌, refl, true, List, [], some, bytes,
  all, length, arith,
}
use agent_whiteboard.Common.Id.{encode, valid_id}
use agent_whiteboard.Common.Id.Codec.{is_id_char, valid_id_iff}
use agent_whiteboard.Agent.Digest.{
  domain_of, digest_input, digest_input-injective, domains_separate,
}
use agent_whiteboard.Provider.Message.{
  MessageContent, text_message_part, plain_text, inline_image_ids, semantic_bytes,
}
use agent_whiteboard.Provider.Message.Content.{
  valid_content, normalize, normalize_parts, normalize_part, append_text,
}
use agent_whiteboard.Provider.Message.Limits.{IsLimited, valid_content-IsLimited}
use agent_whiteboard.Provider.Message.Normal.{normalize_keeps}
use agent_whiteboard.Provider.Turn.Images.{IsImageSet, valid_images-IsImageSet}
use agent_whiteboard.Examples.Data.{platform, queue_runs, picture, text_content, turn_a}

-- A source that gives zeros.
zeros : ℕ → List ℕ
zeros zero = []
zeros (suc n) = 0 ∷ zeros n

zeros-bytes : (n : ℕ) → All IsByte (zeros n) × (length (zeros n) ≡ n)
unfolding zeros
zeros-bytes zero = (tt, refl)
zeros-bytes (suc n) = ((omega arith, (zeros-bytes n).0), omega (arith, (zeros-bytes n).1))

abbrev random_zeros : ℕ → Option (List ℕ)
random_zeros n = some (zeros n)

random_zeros-GivesBytes : GivesBytes random_zeros
random_zeros-GivesBytes n raw h =
    subst (λ r. All IsByte r × (length r ≡ n)) {x = zeros n} (ground (arith, h)) (zeros-bytes n)

abbrev id_of_zeros : Str
id_of_zeros = bytes "AAAAAAAAAAAAAAAAAAAAAAAAAAAAAAAA"

new_id_lem_example : (valid_id id_of_zeros ≡ true) × (random_zeros 24 ≡ random_zeros 24)
new_id_lem_example =
    new_id_lem random_zeros random_zeros id_of_zeros random_zeros-GivesBytes random_zeros-GivesBytes
      (unfold new_id zeros Option.map encode enc_char in refl)
      (unfold new_id zeros Option.map encode enc_char in refl)

valid_id_iff_example :
    (valid_id turn_a ≡ true) ↔ ((length turn_a ≡ 32) × (all is_id_char turn_a ≡ true))
valid_id_iff_example = valid_id_iff turn_a

digest_input-injective_example : (bytes "a" ≡ bytes "a") × (bytes "b" ≡ bytes "b")
digest_input-injective_example =
    digest_input-injective (bytes "d") (bytes "a") (bytes "b") (bytes "a") (bytes "b") (omega arith)
      (omega arith) (omega arith) (omega arith) refl

domains_separate_example :
    digest_input (bytes "agent-whiteboard-context-v1") (bytes "a") (bytes "b")
    ≢ digest_input (bytes "agent-whiteboard-html-context-v1") (bytes "a") (bytes "b")
domains_separate_example =
    domains_separate (bytes "a") (bytes "b") (bytes "a") (bytes "b") _ _ (unfold domain_of in refl)
      (unfold domain_of in refl)

valid_content-IsLimited_example : IsLimited (text_content (bytes "hello"))
valid_content-IsLimited_example =
    valid_content-IsLimited (text_content (bytes "hello")) (unfold queue_runs in refl)

abbrev split_text : MessageContent
split_text = record {
  parts =
      text_message_part (bytes "he") ∷ text_message_part [] ∷ text_message_part (bytes "llo") ∷ [];
}

normalize_keeps_example :
    (plain_text (text_content (bytes "hello")) ≡ plain_text split_text)
    × (inline_image_ids (text_content (bytes "hello")) ≡ inline_image_ids split_text)
    × (semantic_bytes (text_content (bytes "hello")) ≡ semantic_bytes split_text)
    × (valid_content (text_content (bytes "hello")) ≡ true)
normalize_keeps_example =
    normalize_keeps split_text (text_content (bytes "hello"))
      (unfold queue_runs normalize normalize_parts normalize_part append_text in refl)

valid_images-IsImageSet_example : (1 ≤ 8) × IsImageSet platform (picture ∷ [])
valid_images-IsImageSet_example =
    valid_images-IsImageSet platform (picture ∷ []) (unfold queue_runs in refl)
