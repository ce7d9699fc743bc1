-- ===== src/Base/Sets.antt =====
-- Lists of identifiers without repetition, as the source finds repetitions: with a set of those seen.
use mathlib.Core.Path.{◌≡◌, refl}
use mathlib.Core.Bool.{false, ◌||◌}
use mathlib.Core.List.{List, [], ◌∷◌, ◌++◌}
use native.Mathlib.Omega.{arith}
use agent_whiteboard.Base.Lists.{All}
use agent_whiteboard.Base.Text.{Str, str_eq_symm, contains}

abbrev pub Distinct : List Str → Type 0
Distinct [] = Unit {0}
Distinct (x ∷ xs) = (contains x xs ≡ false) × Distinct xs

-- None of the identifiers was seen.
abbrev pub Unseen : List Str → List Str → Type 0
Unseen seen = All (λ x. contains x seen ≡ false)

pub Unseen-tail : (a : Str) (seen xs : List Str) → Unseen (a ∷ seen) xs → Unseen seen xs
Unseen-tail a seen [] u = tt
Unseen-tail a seen (x ∷ xs) u = (ground arith, Unseen-tail a seen xs u.1)

pub contains-Unseen : (a : Str) (seen xs : List Str) → Unseen (a ∷ seen) xs → contains a xs ≡ false
contains-Unseen a seen [] u = refl
contains-Unseen a seen (x ∷ xs) u = ground (arith, str_eq_symm a x, contains-Unseen a seen xs u.1)

pub contains-append :
    (a : Str) (xs ys : List Str) → contains a (xs ++ ys) ≡ (contains a xs || contains a ys)
contains-append a [] ys = refl
contains-append a (x ∷ xs) ys = ground (arith, contains-append a xs ys)

-- A new identifier at the end.
pub Distinct-push_back :
    (xs : List Str) (a : Str) → contains a xs ≡ false → Distinct xs → Distinct (xs ++ a ∷ [])
Distinct-push_back [] a n d = (refl, tt)
Distinct-push_back (x ∷ xs) a n d = (
  ground (arith, contains-append x xs (a ∷ []), str_eq_symm a x),
  Distinct-push_back xs a (ground arith) d.1,
)

pub Distinct-append_right : (xs ys : List Str) → Distinct (xs ++ ys) → Distinct ys
Distinct-append_right [] ys d = d
Distinct-append_right (x ∷ xs) ys d = Distinct-append_right xs ys d.1

pub Distinct-middle : (xs ys : List Str) (a : Str) → Distinct (xs ++ a ∷ ys) → contains a xs ≡ false
Distinct-middle [] ys a d = refl
Distinct-middle (x ∷ xs) ys a d =
    ground (arith, contains-append x xs (a ∷ ys), str_eq_symm a x, Distinct-middle xs ys a d.1)
