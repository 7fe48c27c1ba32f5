-- ===== src/Plugins/Reach.antt =====
-- The registries that sequences of registrations reach.
use nl2data_core.Common.{
  ℕ, ◌≡◌, refl, sym, ap, subst, ◌∙◌, inl, inr, Bool-cases, Bool, true, false, not, List, [], ◌∷◌,
  ◌++◌, String, ok, ◌>>◌, raise_if, arith, any, str_eq, str_eq_iff, bind_ok, then_ok, ok_injective,
  All, All-append, length, length-append, any-append, contains, ◌==◌,
}
use nl2data_core.Plugins.Models.{PluginCapability, PluginManifest, inactive, PluginDescriptor}
use nl2data_core.Plugins.Versions.{parse_version, parse_range}
use nl2data_core.Plugins.Registry.{
  is_permission, validate_permissions, validate_contracts, validate_capabilities, validate_manifest,
  PluginRegistry, check_registered, descriptor_of, register,
}

-- What validation leaves of the capabilities: each name once, and versions that can be read.
abbrev pub AreCapabilities : List PluginCapability → Type 0
AreCapabilities [] = Unit
AreCapabilities (c ∷ cs) =
    (any (λ d. str_eq c.name d.name) cs ≡ false)
    × ((version : _) × (place : _) × (parse_version c.contract_version place ≡ ok version))
    × AreCapabilities cs

pub record IsDescriptor (d : PluginDescriptor) : Type 0 where
  pub not_active : d.activation_status ≡ inactive
  pub permissions : All (λ p. is_permission p ≡ true) d.granted_permissions
  pub capabilities : AreCapabilities d.capabilities

abbrev is_named : String → PluginDescriptor → Bool
is_named name d = str_eq d.identity.name name

-- Each name is registered once.
abbrev pub AreNamed : List PluginDescriptor → Type 0
AreNamed [] = Unit
AreNamed (d ∷ ds) = (any (is_named d.identity.name) ds ≡ false) × AreNamed ds

validate_permissions-All :
    (permissions : List String)
    → validate_permissions permissions ≡ ok tt
    → All (λ p. is_permission p ≡ true) permissions
unfolding validate_permissions
validate_permissions-All [] h = tt
validate_permissions-All (p ∷ ps) h =
    let (fine, rest) =
      then_ok (raise_if (not (is_permission p)) _) (validate_permissions ps) tt h in
    (ground (arith, fine), validate_permissions-All ps rest)

-- No name that was met is met again.
validate_capabilities-apart :
    (cs : List PluginCapability) (met : List String) (name : String)
    → validate_capabilities cs met ≡ ok tt
    → contains name met ≡ true
    → any (λ d. str_eq name d.name) cs ≡ false
unfolding validate_capabilities
validate_capabilities-apart [] met name h k = refl
validate_capabilities-apart (c ∷ cs) met name h k =
    let (fresh, rest) = then_ok (raise_if (contains c.name met) _) _ tt h in
    let (_, _, later) =
      bind_ok (parse_version c.contract_version _) (λ _. validate_capabilities cs (c.name ∷ met)) tt
        rest in
    let others = validate_capabilities-apart cs (c.name ∷ met) name later (ground (arith, k)) in
    let other : str_eq name c.name ≡ false = elim (Bool-cases (str_eq name c.name)) [
      | inr apart ↦ apart
      | inl same ↦
          let again : contains c.name met ≡ true =
            sym (ap (λ n. contains n met) ((str_eq_iff name c.name).0 same)) ∙ k in
          ground (arith, fresh, again)
    ] in
    rw (other, others) refl

validate_capabilities-AreCapabilities :
    (cs : List PluginCapability) (met : List String)
    → validate_capabilities cs met ≡ ok tt
    → AreCapabilities cs
unfolding validate_capabilities
validate_capabilities-AreCapabilities [] met h = tt
validate_capabilities-AreCapabilities (c ∷ cs) met h =
    let (fresh, rest) = then_ok (raise_if (contains c.name met) _) _ tt h in
    let (version, parsed, later) =
      bind_ok (parse_version c.contract_version _) (λ _. validate_capabilities cs (c.name ∷ met)) tt
        rest in
    (
      validate_capabilities-apart cs (c.name ∷ met) c.name later
          (ground (arith, (str_eq_iff c.name c.name).1 refl)),
      (version, _, parsed),
      validate_capabilities-AreCapabilities cs (c.name ∷ met) later,
    )

check_registered-any :
    (name : String) (ds : List PluginDescriptor)
    → check_registered name ds ≡ ok tt
    → any (is_named name) ds ≡ false
unfolding check_registered
check_registered-any name [] h = refl
check_registered-any name (d ∷ ds) h =
    let (apart, rest) = then_ok (raise_if (is_named name d) _) (check_registered name ds) tt h in
    let others = check_registered-any name ds rest in ground (arith, apart, others)

AreNamed-append :
    (ds : List PluginDescriptor) (d : PluginDescriptor)
    → AreNamed ds
    → any (is_named d.identity.name) ds ≡ false
    → AreNamed (ds ++ d ∷ [])
AreNamed-append [] d h free = (refl, tt)
AreNamed-append (x ∷ ds) d h free = (
  last_apart ds (h.0) (elim (Bool-cases (is_named x.identity.name d)) [
    | inr apart ↦ apart
    | inl same ↦
        let own : is_named d.identity.name x ≡ true =
          (str_eq_iff x.identity.name d.identity.name).1
            (sym ((str_eq_iff d.identity.name x.identity.name).0 same)) in
        ground (arith, own, free)
  ]),
  AreNamed-append ds d h.1 (ground (arith, free)),
)
  where
    last_apart :
        (rest : List PluginDescriptor)
        → any (is_named x.identity.name) rest ≡ false
        → is_named x.identity.name d ≡ false
        → any (is_named x.identity.name) (rest ++ d ∷ []) ≡ false
    last_apart rest a b = any-append (is_named x.identity.name) rest (d ∷ []) ∙ rw (a, b) refl

-- What `validate_manifest` leaves of a manifest.
validate_manifest-IsDescriptor :
    (fingerprint : PluginManifest → String) (now : ℕ) (m : PluginManifest)
    → validate_manifest m ≡ ok tt
    → IsDescriptor (descriptor_of fingerprint now m)
unfolding validate_manifest
validate_manifest-IsDescriptor fingerprint now m h =
    let (_, after_schema) = then_ok (raise_if (not (m.schema_version == 1)) _) _ tt h in
    let (permitted, after_permissions) =
      then_ok (validate_permissions m.permissions) _ tt after_schema in
    let (_, _, after_core) =
      bind_ok (parse_range m.compatibility.core_version_range _)
        (λ _.
          validate_contracts m.compatibility.adapter_contracts
          >> validate_capabilities m.capabilities [])
        tt after_permissions in
    let (_, checked) =
      then_ok (validate_contracts m.compatibility.adapter_contracts) _ tt after_core in
    record {
      not_active = refl;
      permissions = validate_permissions-All m.permissions permitted;
      capabilities = validate_capabilities-AreCapabilities m.capabilities [] checked;
    }

module _ (fingerprint : PluginManifest → String) where
  -- Registries that registrations make of an empty one, `generation` apart.
  pub data Reach : PluginRegistry → Type 0 where
    new : Reach (record { generation = 0; descriptors = [] })
    registering :
        (now : ℕ) (m : PluginManifest) {registry next : PluginRegistry}
        → Reach registry
        → register fingerprint now m registry ≡ ok next
        → Reach next

  pub record IsRegistry (registry : PluginRegistry) : Type 0 where
    pub counted : registry.generation ≡ length registry.descriptors
    pub named : AreNamed registry.descriptors
    pub described : All IsDescriptor registry.descriptors

  register-IsRegistry :
      (now : ℕ) (m : PluginManifest) (registry : PluginRegistry) {next : PluginRegistry}
      → IsRegistry registry
      → register fingerprint now m registry ≡ ok next
      → IsRegistry next
  unfolding register
  register-IsRegistry now m registry {next} v h =
      let (valid, rest) = then_ok (validate_manifest m) _ next h in
      let (free, made) =
        then_ok (check_registered m.identity.name registry.descriptors) _ next rest in
      subst IsRegistry (ok_injective _ refl made) (record {
        counted =
            rw
              (length-append registry.descriptors (descriptor_of fingerprint now m ∷ []), v.counted)
              refl;
        named =
            AreNamed-append registry.descriptors (descriptor_of fingerprint now m) v.named
              (check_registered-any m.identity.name registry.descriptors free);
        described =
            All-append IsDescriptor registry.descriptors (descriptor_of fingerprint now m ∷ [])
              v.described (validate_manifest-IsDescriptor fingerprint now m valid, tt);
      })

  -- However manifests are registered from an empty registry, its generation is the number of its
  -- descriptors, no two of them have the same plugin name, and each is inactive, has well-formed
  -- permissions only, and declares each capability name once, with a version that can be read.
  pub Reach-IsRegistry : {registry : PluginRegistry} → Reach registry → IsRegistry registry
  Reach-IsRegistry new = record { counted = refl; named = tt; described = tt }
  Reach-IsRegistry (registering now m r h) = register-IsRegistry now m _ (Reach-IsRegistry r) h
