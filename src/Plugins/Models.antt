-- ===== src/Plugins/Models.antt =====
-- plugins/models.py: identities, capabilities, manifests and descriptors. An instant is a number.
use nl2data_core.Common.{ℕ, Option, List, String}
use nl2data_core.Common.Dict.{Dict}

pub record PluginIdentity : Type 0 where
  pub name : String
  pub version : String
  pub package_name : String

pub record PluginCapability : Type 0 where
  pub name : String
  pub contract_version : String
  pub description : Option String

pub record Compatibility : Type 0 where
  pub core_version_range : String
  pub adapter_contracts : Dict String

pub record PluginManifest : Type 0 where
  pub schema_version : ℕ
  pub identity : PluginIdentity
  pub entry_point : String
  pub categories : List String
  pub capabilities : List PluginCapability
  pub permissions : List String
  pub compatibility : Compatibility
  pub content_digest : String

pub data PluginActivationStatus : Type 0 where
  inactive active blocked : PluginActivationStatus

pub record PluginDescriptor : Type 0 where
  pub manifest_fingerprint : String
  pub identity : PluginIdentity
  pub capabilities : List PluginCapability
  pub granted_permissions : List String
  pub activation_status : PluginActivationStatus
  pub entry_point : String
  pub registered_at : ℕ

-- Where a version or a range was read.
pub data Place : Type 0 where
  version_comparison core_range : Place
  adapter_contract capability : String → Place

-- `PluginManifestError`
pub data PluginManifestError : Type 0 where
  unsupported_schema : ℕ → PluginManifestError
  malformed_permission : String → PluginManifestError
  malformed_range invalid_version : String → Place → PluginManifestError
  duplicate_capability already_registered : String → PluginManifestError
