-- ===== src/Plugins/Resolve.antt =====
-- What `resolve` finds, and what a registration changes of it.
use nl2data_core.Common.{
  ℕ, ◌≡◌, refl, sym, ap, subst, ◌∙◌, Bool, true, false, not, ◌&&◌, Option, none, some, List, [],
  ◌∷◌, ◌++◌, String, ok, if◌then◌else◌, arith, any, str_eq, then_ok, ok_injective,
}
use nl2data_core.Plugins.Models.{PluginCapability, PluginManifest, PluginDescriptor}
use nl2data_core.Plugins.Versions.{version_in_range}
use nl2data_core.Plugins.Registry.{
  PluginRegistry, validate_manifest, check_registered, descriptor_of, register, is_blocked,
  lacks_permission, in_range_or_false, offers, resolve,
}

-- A capability of that name whose version is in the range.
abbrev pub is_wanted : String → String → PluginCapability → Bool
is_wanted name contract_range c =
    str_eq c.name name && in_range_or_false (version_in_range c.contract_version contract_range)

-- A descriptor that may be used: it is not blocked, has the permission, and declares such a capability.
abbrev pub is_usable : String → String → Option String → PluginDescriptor → Bool
is_usable name contract_range permission d =
    not (is_blocked d.activation_status)
    && not (lacks_permission permission d)
    && any (is_wanted name contract_range) d.capabilities

offers-any :
    (name contract_range : String) (cs : List PluginCapability)
    → offers name contract_range cs ≡ any (is_wanted name contract_range) cs
unfolding offers
offers-any name contract_range [] = refl
offers-any name contract_range (c ∷ cs) = ground (arith, offers-any name contract_range cs)

-- The descriptors before the one that is found.
pub record Found (name contract_range : String) (permission : Option String)
    (descriptors : List PluginDescriptor) (d : PluginDescriptor) : Type 0 where
  pub before : List PluginDescriptor
  pub after : List PluginDescriptor
  pub splits : descriptors ≡ before ++ d ∷ after
  pub usable : is_usable name contract_range permission d ≡ true
  pub first : any (is_usable name contract_range permission) before ≡ false

module _ (name contract_range : String) (permission : Option String) where
  abbrev pub IsAnswer : List PluginDescriptor → Option PluginDescriptor → Type 0
  IsAnswer descriptors none = any (is_usable name contract_range permission) descriptors ≡ false
  IsAnswer descriptors (some d) = Found name contract_range permission descriptors d

  resolve_step :
      (d : PluginDescriptor) (rest : List PluginDescriptor)
      → resolve name contract_range permission (d ∷ rest) ≡ (
          if is_usable name contract_range permission d
          then some d
          else resolve name contract_range permission rest)
  unfolding resolve
  resolve_step d rest = ground (arith, offers-any name contract_range d.capabilities)

  later :
      (d : PluginDescriptor) (rest : List PluginDescriptor) (o : Option PluginDescriptor)
      → is_usable name contract_range permission d ≡ false
      → IsAnswer rest o
      → IsAnswer (d ∷ rest) o
  later d rest none unusable a = rw unusable a
  later d rest (some x) unusable a = record {
    before = d ∷ a.before;
    after = a.after;
    splits = ap (λ xs. d ∷ xs) a.splits;
    usable = a.usable;
    first = rw unusable a.first;
  }

  chosen-IsAnswer :
      (d : PluginDescriptor) (rest : List PluginDescriptor) (b : Bool) (o : Option PluginDescriptor)
      → is_usable name contract_range permission d ≡ b
      → IsAnswer rest o
      → IsAnswer (d ∷ rest) (if b then some d else o)
  chosen-IsAnswer d rest true o usable a = record {
    before = [];
    after = rest;
    splits = refl;
    usable = usable;
    first = refl;
  }
  chosen-IsAnswer d rest false o unusable a = later d rest o unusable a

  -- `resolve` returns the first registered descriptor that is not blocked, has the required permission
  -- and declares a capability of the name whose version is in the range, a malformed range or version
  -- counting as out of range. It returns none only where no registered descriptor is like that.
  pub resolve-IsAnswer :
      (descriptors : List PluginDescriptor)
      → IsAnswer descriptors (resolve name contract_range permission descriptors)
  unfolding resolve
  resolve-IsAnswer [] = refl
  resolve-IsAnswer (d ∷ rest) = subst (IsAnswer (d ∷ rest)) (sym (resolve_step d rest)) (
      chosen-IsAnswer d rest (is_usable name contract_range permission d)
        (resolve name contract_range permission rest) refl (resolve-IsAnswer rest))

  -- What was found, or else the last descriptor.
  abbrev pub or_last : PluginDescriptor → Option PluginDescriptor → Option PluginDescriptor
  or_last d (some x) = some x
  or_last d none = if is_usable name contract_range permission d then some d else none

  chosen_or_last :
      (x d : PluginDescriptor) (b : Bool) (all_of rest : Option PluginDescriptor)
      → all_of ≡ or_last d rest
      → (if b then some x else all_of) ≡ or_last d (if b then some x else rest)
  chosen_or_last x d true all_of rest h = refl
  chosen_or_last x d false all_of rest h = h

  resolve-append :
      (descriptors : List PluginDescriptor) (d : PluginDescriptor)
      → resolve name contract_range permission (descriptors ++ d ∷ [])
        ≡ or_last d (resolve name contract_range permission descriptors)
  unfolding resolve
  resolve-append [] d = resolve_step d []
  resolve-append (x ∷ rest) d =
      resolve_step x (rest ++ d ∷ [])
      ∙ chosen_or_last x d (is_usable name contract_range permission x) _ _ (resolve-append rest d)
      ∙ sym (ap (or_last d) (resolve_step x rest))

  -- After a registration `resolve` returns what it returned before, and where that was none, the new
  -- descriptor if it has the permission and one of its capabilities has the name and is in the range.
  pub resolve-register :
      (fingerprint : PluginManifest → String) (now : ℕ) (m : PluginManifest)
      (registry : PluginRegistry) {next : PluginRegistry}
      → register fingerprint now m registry ≡ ok next
      → resolve name contract_range permission next.descriptors
        ≡ or_last
            (descriptor_of fingerprint now m)
            (resolve name contract_range permission registry.descriptors)
  unfolding register
  resolve-register fingerprint now m registry {next} h =
      let (_, rest) = then_ok (validate_manifest m) _ next h in
      let (_, made) = then_ok (check_registered m.identity.name registry.descriptors) _ next rest in
      sym
        (ap (λ r. resolve name contract_range permission r.descriptors) (ok_injective _ refl made))
      ∙ resolve-append registry.descriptors (descriptor_of fingerprint now m)
