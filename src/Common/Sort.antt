-- ===== src/Common/Sort.antt =====
-- `sorted` on texts, by code points, as insertion sort: the result of a sort is determined by its
-- input where equal keys are equal texts.
use Prim.Native.Nat.{Ordering, suc}
use Prim.Native.String.{String, compare}
use mathlib.Core.Path.{◌≡◌, refl}
use mathlib.Core.Bool.{Bool, true, false}
use mathlib.Core.List.{List, [], ◌∷◌}
use native.Mathlib.Omega.{arith}
use nl2data_core.Common.Tests.{if◌then◌else◌}
use nl2data_core.Common.Lists.{count, contains, length}

-- `a <= b` on texts.
abbrev pub str_leb : String → String → Bool
str_leb a b = elim (compare a b) [ Ordering.gt ↦ false | _ ↦ true ]

insert_sorted : String → List String → List String
insert_sorted x [] = x ∷ []
insert_sorted x (y ∷ ys) = if str_leb x y then x ∷ y ∷ ys else y ∷ insert_sorted x ys

unfoldable pub sorted : List String → List String
unfolding insert_sorted
sorted [] = []
sorted (x ∷ xs) = insert_sorted x (sorted xs)

count-insert_sorted :
    (k x : String) (ys : List String) → count k (insert_sorted x ys) ≡ count k (x ∷ ys)
unfolding insert_sorted
count-insert_sorted k x [] = refl
count-insert_sorted k x (y ∷ ys) = ground (arith, count-insert_sorted k x ys)

-- Sorting keeps each text, as often.
pub count-sorted : (k : String) (xs : List String) → count k (sorted xs) ≡ count k xs
unfolding sorted
count-sorted k [] = refl
count-sorted k (x ∷ xs) = ground (arith, count-insert_sorted k x (sorted xs), count-sorted k xs)

length-insert_sorted :
    (x : String) (ys : List String) → length (insert_sorted x ys) ≡ suc (length ys)
unfolding insert_sorted
length-insert_sorted x [] = refl
length-insert_sorted x (y ∷ ys) = ground (arith, length-insert_sorted x ys)

pub length-sorted : (xs : List String) → length (sorted xs) ≡ length xs
unfolding sorted
length-sorted [] = refl
length-sorted (x ∷ xs) = omega (arith, length-insert_sorted x (sorted xs), length-sorted xs)

contains-insert_sorted :
    (k x : String) (ys : List String) → contains k (insert_sorted x ys) ≡ contains k (x ∷ ys)
unfolding insert_sorted
contains-insert_sorted k x [] = refl
contains-insert_sorted k x (y ∷ ys) = ground (arith, contains-insert_sorted k x ys)

pub contains-sorted : (k : String) (xs : List String) → contains k (sorted xs) ≡ contains k xs
unfolding sorted
contains-sorted k [] = refl
contains-sorted k (x ∷ xs) =
    ground (arith, contains-insert_sorted k x (sorted xs), contains-sorted k xs)
