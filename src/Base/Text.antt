-- ===== src/Base/Text.antt =====
-- A Go string is the list of its bytes. Sets of strings (`map[string]struct{}`) are lists of them.
use Prim.Native.Nat.{ℕ}
use Prim.Native.Char.{code}
use Prim.Native.String.{String}
use mathlib.Core.Path.{◌≡◌, refl}
use mathlib.Core.Logic.{◌↔◌}
use mathlib.Core.Bool.{Bool, true, false, ◌&&◌}
use mathlib.Core.List.{List, [], ◌∷◌}
use native.Mathlib.Omega.{arith}
use agent_whiteboard.Base.Tests.{◌==◌}
use agent_whiteboard.Base.Lists.{any}

abbrev pub Str : Type 0
Str = List ℕ

-- The bytes of an ASCII text, for constants.
abbrev pub bytes : String → Str
bytes String.[] = []
bytes (String.◌∷◌ c s) = code c ∷ bytes s

unfoldable pub str_eq : Str → Str → Bool
str_eq [] [] = true
str_eq [] (y ∷ ys) = false
str_eq (x ∷ xs) [] = false
str_eq (x ∷ xs) (y ∷ ys) = x == y && str_eq xs ys

pub str_eq→eq : (a b : Str) → str_eq a b ≡ true → a ≡ b
unfolding str_eq
str_eq→eq [] [] h = refl
str_eq→eq [] (y ∷ ys) h = ground arith
str_eq→eq (x ∷ xs) [] h = ground arith
str_eq→eq (x ∷ xs) (y ∷ ys) h = ground (arith, str_eq→eq xs ys)

pub str_eq_refl : (a : Str) → str_eq a a ≡ true
unfolding str_eq
str_eq_refl [] = refl
str_eq_refl (x ∷ xs) = ground (arith, str_eq_refl xs)

pub str_eq_iff : (a b : Str) → (str_eq a b ≡ true) ↔ (a ≡ b)
str_eq_iff a b = (str_eq→eq a b, λ e. rw e (str_eq_refl b))

pub str_eq_symm : (a b : Str) → str_eq a b ≡ str_eq b a
unfolding str_eq
str_eq_symm [] [] = refl
str_eq_symm [] (y ∷ ys) = refl
str_eq_symm (x ∷ xs) [] = refl
str_eq_symm (x ∷ xs) (y ∷ ys) = ground (arith, str_eq_symm xs ys)

-- `_, exists := seen[id]`.
abbrev pub contains : Str → List Str → Bool
contains a = any (str_eq a)
