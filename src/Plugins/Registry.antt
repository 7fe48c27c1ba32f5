-- ===== src/Plugins/Registry.antt =====
-- plugins/registry.py: validation of manifests, and `PluginRegistry`, whose operations return a new
-- generation. The fingerprint of a manifest and the time are arguments.
use Prim.Native.String.{◌++◌ as str_append}
use nl2data_core.Common.{
  ℕ, ◌+◌, Bool, true, false, not, ◌&&◌, ◌||◌, Option, none, some, List, [], ◌∷◌, ◌++◌, String,
  Result, ok, err, ◌>>=◌, ◌>>◌, raise_if, if◌then◌else◌, leb, ◌==◌, contains, str_eq, map,
}
use nl2data_core.Common.Text.{codes, is_digit}
use nl2data_core.Common.Dict.{Dict}
use nl2data_core.Plugins.Models.{
  PluginCapability, PluginManifest, PluginActivationStatus, inactive, blocked, PluginDescriptor,
  core_range, adapter_contract, capability, PluginManifestError, unsupported_schema,
  malformed_permission, duplicate_capability, already_registered,
}
use nl2data_core.Plugins.Versions.{parse_version, parse_range, version_in_range}

is_lower : ℕ → Bool
is_lower c = leb b'a' c && leb c b'z'

is_name_char : ℕ → Bool
unfolding is_lower is_digit
is_name_char c = is_lower c || is_digit c || c == b'_'

-- `_PERMISSION_PATTERN`: dotted names, at the start of a name or in one.
name_codes : Bool → List ℕ → Bool
unfolding is_lower is_name_char
name_codes at_start [] = not at_start
name_codes at_start (c ∷ cs) =
    (if at_start then is_lower c else (c == b'.' || is_name_char c))
    && name_codes (not at_start && c == b'.') cs

unfoldable pub is_permission : String → Bool
unfolding name_codes
is_permission permission = name_codes true (codes permission)

-- `_validate_permissions`
unfoldable pub validate_permissions : List String → Result PluginManifestError (Unit {0})
validate_permissions [] = ok tt
validate_permissions (permission ∷ permissions) =
    raise_if (not (is_permission permission)) (malformed_permission permission)
    >> validate_permissions permissions

unfoldable pub validate_contracts : Dict String → Result PluginManifestError (Unit {0})
validate_contracts [] = ok tt
validate_contracts ((name, contract_range) ∷ contracts) =
    parse_range contract_range (adapter_contract name) >>= λ _. validate_contracts contracts

-- The loop over the capabilities, with the names that were met.
unfoldable pub validate_capabilities :
    List PluginCapability → List String → Result PluginManifestError (Unit {0})
validate_capabilities [] capability_names = ok tt
validate_capabilities (c ∷ capabilities) capability_names =
    raise_if (contains c.name capability_names) (duplicate_capability c.name)
    >> (parse_version c.contract_version (capability c.name) >>= λ _.
        validate_capabilities capabilities (c.name ∷ capability_names))

unfoldable pub validate_manifest : PluginManifest → Result PluginManifestError (Unit {0})
unfolding validate_permissions validate_contracts validate_capabilities
validate_manifest m =
    raise_if (not (m.schema_version == 1)) (unsupported_schema m.schema_version)
    >> (validate_permissions m.permissions
        >> (parse_range m.compatibility.core_version_range core_range >>= λ _.
            (validate_contracts m.compatibility.adapter_contracts
              >> validate_capabilities m.capabilities [])))

pub record PluginRegistry : Type 0 where
  pub generation : ℕ
  pub descriptors : List PluginDescriptor

-- The loop over the registered descriptors.
unfoldable pub check_registered :
    String → List PluginDescriptor → Result PluginManifestError (Unit {0})
check_registered name [] = ok tt
check_registered name (existing ∷ descriptors) =
    raise_if (str_eq existing.identity.name name) (already_registered name)
    >> check_registered name descriptors

module _ (fingerprint : PluginManifest → String) where
  abbrev pub descriptor_of : ℕ → PluginManifest → PluginDescriptor
  descriptor_of now m = record {
    manifest_fingerprint = fingerprint m;
    identity = m.identity;
    capabilities = m.capabilities;
    granted_permissions = m.permissions;
    activation_status = inactive;
    entry_point = m.entry_point;
    registered_at = now;
  }

  unfoldable pub register :
      ℕ → PluginManifest → PluginRegistry → Result PluginManifestError PluginRegistry
  unfolding validate_manifest check_registered
  register now m registry =
      validate_manifest m
      >> (check_registered m.identity.name registry.descriptors
          >> ok (record {
            generation = registry.generation + 1;
            descriptors = registry.descriptors ++ descriptor_of now m ∷ [];
          }))

abbrev pub is_blocked : PluginActivationStatus → Bool
is_blocked blocked = true
is_blocked _ = false

-- `required_permission is not None and required_permission not in ...`
abbrev pub lacks_permission : Option String → PluginDescriptor → Bool
lacks_permission none d = false
lacks_permission (some permission) d = not (contains permission d.granted_permissions)

-- The `try` of `resolve`.
abbrev pub in_range_or_false : Result PluginManifestError Bool → Bool
in_range_or_false (ok b) = b
in_range_or_false (err e) = false

-- The loop over the capabilities of a descriptor.
unfoldable pub offers : String → String → List PluginCapability → Bool
offers name contract_range [] = false
offers name contract_range (declared ∷ capabilities) =
    let rest = offers name contract_range capabilities in
    if not (str_eq declared.name name)
    then rest
    else if in_range_or_false (version_in_range declared.contract_version contract_range)
    then true
    else rest

-- `resolve`
unfoldable pub resolve :
    String → String → Option String → List PluginDescriptor → Option PluginDescriptor
unfolding offers
resolve name contract_range required_permission [] = none
resolve name contract_range required_permission (d ∷ descriptors) =
    let rest = resolve name contract_range required_permission descriptors in
    if is_blocked d.activation_status
    then rest
    else if lacks_permission required_permission d
    then rest
    else if offers name contract_range d.capabilities
    then some d
    else rest

-- `public_id` and `descriptor_ids`
abbrev pub public_id : PluginDescriptor → String
public_id d = str_append d.identity.name (str_append "@" d.identity.version)

abbrev pub descriptor_ids : PluginRegistry → List String
descriptor_ids registry = map public_id registry.descriptors
