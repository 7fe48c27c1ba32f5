-- ===== src/Common/Sets.antt =====
-- Python sets of texts, as lists without repetition.
use Prim.Native.String.{String}
use mathlib.Core.Path.{◌≡◌, refl, sym, subst, ◌∙◌}
use mathlib.Core.Logic.{◌⊎◌, inl, inr}
use mathlib.Core.Bool.{Bool, true, false, not, ◌&&◌, ◌||◌}
use mathlib.Core.List.{List, [], ◌∷◌, ◌++◌, append-nil, append_assoc}
use native.Mathlib.Omega.{arith}
use text.Mathlib.Text.{◌==◌ as str_eq}
use text.Mathlib.TextEquality.{eq_iff as str_eq_iff}
use nl2data_core.Common.Tests.{if◌then◌else◌, Bool-cases}
use nl2data_core.Common.Lists.{contains, any-append}

-- `s.add(x)`
abbrev pub add_to_set : String → List String → List String
add_to_set x s = if contains x s then s else s ++ x ∷ []

-- `{x for x in xs}`
unfoldable pub set_of : List String → List String → List String
set_of [] s = s
set_of (x ∷ xs) s = set_of xs (add_to_set x s)

pub add_to_set_self : (x : String) (s : List String) → contains x (add_to_set x s) ≡ true
add_to_set_self x s = elim (Bool-cases (contains x s)) [
  | inl already ↦ rw already already
  | inr absent ↦ rw absent (rw (any-append (str_eq x) s (x ∷ [])) (ground (arith, str_eq_iff x x)))
]

pub add_to_set_keeps :
    (x y : String) (s : List String) → contains x s ≡ true → contains x (add_to_set y s) ≡ true
add_to_set_keeps x y s h = elim (Bool-cases (contains y s)) [
  | inl already ↦ rw already h
  | inr absent ↦ rw absent (rw (any-append (str_eq x) s (y ∷ [])) (ground arith))
]

pub add_to_set_cases :
    (x y : String) (s : List String)
    → contains x (add_to_set y s) ≡ true
    → (x ≡ y) ⊎ (contains x s ≡ true)
add_to_set_cases x y s h = elim (Bool-cases (contains y s)) [
  | inl already ↦ inr (rw already at h)
  | inr absent ↦
      let either : (contains x s || (str_eq x y || false)) ≡ true =
        rw (any-append (str_eq x) s (y ∷ [])) at (rw absent at h) in
      elim (Bool-cases (str_eq x y)) [
        | inl same ↦ inl ((str_eq_iff x y).0 same)
        | inr other ↦ inr (ground arith)
      ]
]

pub set_of-contains :
    (xs s : List String) (x : String) → contains x s ≡ true → contains x (set_of xs s) ≡ true
unfolding set_of
set_of-contains [] s x h = h
set_of-contains (y ∷ xs) s x h = set_of-contains xs (add_to_set y s) x (add_to_set_keeps x y s h)

pub set_of-all :
    (xs s : List String) (x : String) → contains x xs ≡ true → contains x (set_of xs s) ≡ true
unfolding set_of
set_of-all [] s x h = cc
set_of-all (y ∷ xs) s x h = elim (Bool-cases (str_eq x y)) [
  | inl same ↦ set_of-contains xs (add_to_set y s) x (
      subst (λ z. contains z (add_to_set y s) ≡ true) (sym ((str_eq_iff x y).0 same))
        (add_to_set_self y s))
  | inr other ↦ set_of-all xs (add_to_set y s) x (rw other at h)
]

abbrev pub distinct : List String → Bool
distinct [] = true
distinct (x ∷ xs) = not (contains x xs) && distinct xs

distinct-append_one :
    (s : List String) (x : String)
    → distinct s ≡ true
    → contains x s ≡ false
    → distinct (s ++ x ∷ []) ≡ true
distinct-append_one [] x d n = refl
distinct-append_one (y ∷ s) x d n = ground (
  arith,
  any-append (str_eq y) s (x ∷ []),
  str_eq_iff x y,
  str_eq_iff y x,
  distinct-append_one s x,
)

add_to_set-distinct :
    (x : String) (s : List String) → distinct s ≡ true → distinct (add_to_set x s) ≡ true
add_to_set-distinct x s d = elim (Bool-cases (contains x s)) [
  | inl old ↦ rw old d
  | inr new ↦ rw new (distinct-append_one s x d new)
]

set_of-distinct_from : (xs s : List String) → distinct s ≡ true → distinct (set_of xs s) ≡ true
unfolding set_of
set_of-distinct_from [] s d = d
set_of-distinct_from (x ∷ xs) s d =
    set_of-distinct_from xs (add_to_set x s) (add_to_set-distinct x s d)

-- A set repeats nothing.
pub set_of-distinct : (xs : List String) → distinct (set_of xs []) ≡ true
set_of-distinct xs = set_of-distinct_from xs [] refl

-- None of `xs` is in `s`.
abbrev all_outside : List String → List String → Bool
all_outside [] s = true
all_outside (x ∷ xs) s = not (contains x s) && all_outside xs s

all_outside-append_one :
    (xs s : List String) (x : String)
    → all_outside xs s ≡ true
    → contains x xs ≡ false
    → all_outside xs (s ++ x ∷ []) ≡ true
all_outside-append_one [] s x o n = refl
all_outside-append_one (y ∷ xs) s x o n = ground (
  arith,
  any-append (str_eq y) s (x ∷ []),
  str_eq_iff x y,
  str_eq_iff y x,
  all_outside-append_one xs s x,
)

set_of-eq_append :
    (xs s : List String) → distinct xs ≡ true → all_outside xs s ≡ true → set_of xs s ≡ s ++ xs
unfolding set_of
set_of-eq_append [] s d o = sym (append-nil s)
set_of-eq_append (x ∷ xs) s d o =
    let new : contains x s ≡ false = ground arith in
    rw new (
      set_of-eq_append xs (s ++ x ∷ []) (ground arith)
        (all_outside-append_one xs s x (ground arith) (ground arith))
      ∙ append_assoc s (x ∷ []) xs)

all_outside-nil : (xs : List String) → all_outside xs [] ≡ true
all_outside-nil [] = refl
all_outside-nil (x ∷ xs) = all_outside-nil xs

-- A set made of a set is that set.
pub set_of-set_of : (xs : List String) → set_of (set_of xs []) [] ≡ set_of xs []
set_of-set_of xs =
    set_of-eq_append (set_of xs []) [] (set_of-distinct xs) (all_outside-nil (set_of xs []))

set_of_only_from :
    (xs s : List String) (x : String)
    → contains x (set_of xs s) ≡ true
    → (contains x xs ≡ true) ⊎ (contains x s ≡ true)
unfolding set_of
set_of_only_from [] s x h = inr h
set_of_only_from (y ∷ xs) s x h = elim (set_of_only_from xs (add_to_set y s) x h) [
  | inl m ↦ inl (ground (arith, m))
  | inr m ↦ elim (add_to_set_cases x y s m) [
    | inl same ↦ inl (ground (arith, str_eq_iff x y, same))
    | inr old ↦ inr old
  ]
]

-- A set has the members of the list that it was made of.
pub contains-set_of : (xs : List String) (x : String) → contains x (set_of xs []) ≡ contains x xs
contains-set_of xs x = elim (Bool-cases (contains x xs)) [
  | inl m ↦ set_of-all xs [] x m ∙ sym m
  | inr n ↦ elim (Bool-cases (contains x (set_of xs []))) [
    | inl m ↦ elim (set_of_only_from xs [] x m) [ inl k ↦ m ∙ sym k | inr k ↦ cc k ]
    | inr k ↦ k ∙ sym n
  ]
]
