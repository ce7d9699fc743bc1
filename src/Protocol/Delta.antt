-- ===== src/Protocol/Delta.antt =====
-- internal/agent/protocol/protocol.go: SplitDelta, which cuts a text into events of a bounded size. The
-- fuel of its loop is the length of the text, of which each round takes a byte at least.
pub mod Boundary
pub mod Pieces
use agent_whiteboard.Base.{
  ℕ, zero, suc, List, [], ◌∷◌, Option, none, some, Str, length, prefix, drop, leb, ◌==◌,
  if◌then◌else◌,
}
use agent_whiteboard.Provider.Text.{valid_utf8}

abbrev pub max_delta_bytes : ℕ
max_delta_bytes = 32768

abbrev pub min : ℕ → ℕ → ℕ
min a b = if leb a b then a else b

-- The inner loop: the longest prefix that is valid UTF-8, of `e` bytes at most.
unfoldable pub chunk_end : ℕ → Str → ℕ
chunk_end zero text = 0
chunk_end (suc e) text =
    let shorter = chunk_end e text in if valid_utf8 (prefix (suc e) text) then suc e else shorter

put : Str → Option (List Str) → Option (List Str)
put piece none = none
put piece (some pieces) = some (piece ∷ pieces)

module _ (limit : ℕ) where
  -- The outer loop; none is an error.
  unfoldable pub split_from : ℕ → Str → Option (List Str)
  unfolding put
  split_from fuel [] = some []
  split_from zero (c ∷ text) = none
  split_from (suc fuel) (c ∷ text) =
      let end = chunk_end (min (length (c ∷ text)) limit) (c ∷ text) in
      let rest = split_from fuel (drop end (c ∷ text)) in
      if end == 0 then none else put (prefix end (c ∷ text)) rest

  unfoldable pub split_text : Str → Option (List Str)
  split_text text = if valid_utf8 text then split_from (length text) text else none

-- `SplitDelta`; none is the error of a text that is not UTF-8.
unfoldable pub split_delta : Str → Option (List Str)
split_delta = split_text max_delta_bytes
