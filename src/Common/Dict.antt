-- ===== src/Common/Dict.antt =====
-- A Python dict with text keys, in insertion order.
use Prim.Native.Nat.{◌+◌, ◌-◌, ◌≤◌}
use Prim.Native.String.{String}
use mathlib.Core.Path.{◌≡◌, refl}
use mathlib.Core.Logic.{◌≢◌}
use mathlib.Core.Bool.{Bool, true}
use mathlib.Core.Option.{Option, none, some}
use mathlib.Core.List.{List, [], ◌∷◌}
use native.Mathlib.Omega.{arith}
use text.Mathlib.Text.{◌==◌ as str_eq}
use text.Mathlib.TextEquality.{eq_iff}
use nl2data_core.Common.Tests.{if◌then◌else◌, is_some}
use nl2data_core.Common.Lists.{count, length}

abbrev pub Dict {ℓ} : Type ℓ → Type ℓ
Dict V = List (String × V)

module _ {ℓ} {V : Type ℓ} where
  -- `d.get(k)`
  abbrev pub lookup : String → Dict V → Option V
  lookup k [] = none
  lookup k ((j, v) ∷ d) = if str_eq k j then some v else lookup k d

  -- `k in d`
  abbrev pub has_key : String → Dict V → Bool
  has_key k d = is_some (lookup k d)

  -- `d[k] = v`
  abbrev pub insert : String → V → Dict V → Dict V
  insert k v [] = (k, v) ∷ []
  insert k v ((j, w) ∷ d) = if str_eq k j then (j, v) ∷ d else (j, w) ∷ insert k v d

  -- `del d[k]`, or `d.pop(k, None)`
  abbrev pub erase : String → Dict V → Dict V
  erase k [] = []
  erase k ((j, w) ∷ d) = if str_eq k j then d else (j, w) ∷ erase k d

  abbrev pub keys : Dict V → List String
  keys [] = []
  keys ((j, w) ∷ d) = j ∷ keys d

  pub lookup-insert :
      (k j : String) (v : V) (d : Dict V)
      → lookup j (insert k v d) ≡ (if str_eq k j then some v else lookup j d)
  lookup-insert k j v [] = ground (arith, eq_iff k j, eq_iff j k)
  lookup-insert k j v ((i, w) ∷ d) =
      ground (arith, eq_iff k j, eq_iff k i, eq_iff j i, lookup-insert k j v d)

  pub lookup-insert_self : (k : String) (v : V) (d : Dict V) → lookup k (insert k v d) ≡ some v
  lookup-insert_self k v d = rw lookup-insert (ground (arith, eq_iff k k))

  pub has_key-insert :
      (k j : String) (v : V) (d : Dict V) → has_key j d ≡ true → has_key j (insert k v d) ≡ true
  has_key-insert k j v d h = rw lookup-insert (ground arith)

  pub lookup-erase_ne : (k j : String) (d : Dict V) → j ≢ k → lookup j (erase k d) ≡ lookup j d
  lookup-erase_ne k j [] h = refl
  lookup-erase_ne k j ((i, w) ∷ d) h =
      ground (arith, eq_iff k i, eq_iff j i, lookup-erase_ne k j d h)

  pub lookup-eq-none_iff :
      (k : String) (d : Dict V)
      → (lookup k d ≡ none → count k (keys d) ≡ 0) × (count k (keys d) ≡ 0 → lookup k d ≡ none)
  lookup-eq-none_iff k [] = (λ h. refl, λ h. refl)
  lookup-eq-none_iff k ((i, w) ∷ d) = ground (arith, lookup-eq-none_iff k d)

  pub lookup-erase_self :
      (k : String) (d : Dict V) → count k (keys d) ≤ 1 → lookup k (erase k d) ≡ none
  lookup-erase_self k [] h = refl
  lookup-erase_self k ((i, w) ∷ d) h = ground (arith, lookup-erase_self k d, lookup-eq-none_iff k d)

  pub count-keys-erase :
      (j k : String) (d : Dict V)
      → count j (keys (erase k d)) ≡ (if str_eq j k then count j (keys d) - 1 else count j (keys d))
  count-keys-erase j k [] = ground arith
  count-keys-erase j k ((i, w) ∷ d) =
      ground (arith, eq_iff j i, eq_iff k i, eq_iff j k, count-keys-erase j k d)

  pub keys-insert_old :
      (k : String) (v : V) (d : Dict V) → has_key k d ≡ true → keys (insert k v d) ≡ keys d
  keys-insert_old k v [] h = ground arith
  keys-insert_old k v ((i, w) ∷ d) h = ground (arith, keys-insert_old k v d)

  pub length-erase :
      (k : String) (d : Dict V) → has_key k d ≡ true → length (erase k d) + 1 ≡ length d
  length-erase k [] h = ground arith
  length-erase k ((j, w) ∷ d) h = ground (arith, length-erase k d)
