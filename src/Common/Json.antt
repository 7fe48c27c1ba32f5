-- ===== src/Common/Json.antt =====
-- JSON documents as `json.loads` returns them. Arrays and objects hold documents, so their lists are
-- types of their own. A number is a natural one.
use Prim.Native.Nat.{ℕ}
use Prim.Native.String.{String}
use mathlib.Core.Path.{◌≡◌, refl}
use mathlib.Core.Bool.{Bool}
use mathlib.Core.Option.{Option, none, some}
use mathlib.Core.List.{List, [], ◌∷◌, map}
use text.Mathlib.Text.{◌==◌ as str_eq}
use nl2data_core.Common.Tests.{if◌then◌else◌}
use nl2data_core.Common.Results.{Result, ok, ◌>>=◌}
use nl2data_core.Common.Lists.{All}
use nl2data_core.Common.Dict.{Dict}

mutual
  pub data Json : Type 0 where
    null : Json
    boolean : Bool → Json
    number : ℕ → Json
    string : String → Json
    array : Elements → Json
    object : Members → Json

  pub data Elements : Type 0 where
    no_elements : Elements
    element : Json → Elements → Elements

  pub data Members : Type 0 where
    no_members : Members
    member : String → Json → Members → Members

-- `document.get(name)`
abbrev pub value_of : String → Members → Option Json
value_of name no_members = none
value_of name (member key value rest) = if str_eq name key then some value else value_of name rest

abbrev pub member_names : Members → List String
member_names no_members = []
member_names (member key value rest) = key ∷ member_names rest

-- `[f(x) for x in xs]`
unfoldable pub elements {ℓ} : {A : Type ℓ} → (A → Json) → List A → Elements
elements f [] = no_elements
elements f (x ∷ xs) = element (f x) (elements f xs)

-- An object with texts as values.
unfoldable pub text_members : Dict String → Members
text_members [] = no_members
text_members ((key, value) ∷ d) = member key (string value) (text_members d)

-- Reads each element, in order.
unfoldable pub read_all {ℓ κ} :
    {A : Type ℓ} {E : Type κ} → (Json → Result E A) → Elements → Result E (List A)
read_all read no_elements = ok []
read_all read (element x xs) = read x >>= λ a. read_all read xs >>= λ others. ok (a ∷ others)

unfoldable pub read_members {ℓ κ} :
    {A : Type ℓ} {E : Type κ} → (Json → Result E A) → Members → Result E (Dict A)
read_members read no_members = ok []
read_members read (member key x xs) =
    read x >>= λ a. read_members read xs >>= λ others. ok ((key, a) ∷ others)

-- What is read back from a list that was written.
pub read_all-elements {ℓ κ μ} :
    {A : Type ℓ} {B : Type κ} {E : Type μ} (read : Json → Result E B) (f : A → Json) (g : A → B)
    (xs : List A)
    → All (λ a. read (f a) ≡ ok (g a)) xs
    → read_all read (elements f xs) ≡ ok (map g xs)
unfolding read_all elements
read_all-elements read f g [] h = refl
read_all-elements read f g (x ∷ xs) (first, others) =
    rw (first, read_all-elements read f g xs others) refl

pub read_members-text_members {κ} :
    {E : Type κ} (read : Json → Result E String)
    → ((t : String) → read (string t) ≡ ok t)
    → (d : Dict String) → read_members read (text_members d) ≡ ok d
unfolding read_members text_members
read_members-text_members read h [] = refl
read_members-text_members read h ((key, value) ∷ d) =
    rw (h value, read_members-text_members read h d) refl
