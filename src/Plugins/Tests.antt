-- ===== src/Plugins/Tests.antt =====
-- A registry of one plugin, and the theorems about registries at it.
use nl2data_core.Common.{◌≡◌, refl, none, some, [], ◌∷◌, String, ok, err, true}
use nl2data_core.Plugins.Models.{
  PluginCapability, PluginManifest, version_comparison, already_registered,
}
use nl2data_core.Plugins.Versions.{parse_version, version_in_range, parse_range}
use nl2data_core.Plugins.Registry.{PluginRegistry, register, descriptor_of, resolve, is_permission}
use nl2data_core.Plugins.Resolve.{IsAnswer, or_last, resolve-IsAnswer, resolve-register}
use nl2data_core.Plugins.Reach.{new, registering, IsRegistry, Reach-IsRegistry}

read_back :
    parse_version " 1.20.3 " version_comparison ≡ ok (record { major = 1; minor = 20; patch = 3 })
unfolding parse_version
read_back = refl

newer : version_in_range "1.20.3" ">= 1.9.10" ≡ ok true
unfolding version_in_range
newer = refl

abbrev fingerprint : PluginManifest → String
fingerprint m = "sha256:0123456789abcdef0123456789abcdef0123456789abcdef0123456789abcdef"

abbrev query : PluginCapability
query = record { name = "query"; contract_version = "1.2.0"; description = none }

abbrev manifest : PluginManifest
manifest = record {
  schema_version = 1;
  identity = record { name = "warehouse"; version = "0.1.0"; package_name = "warehouse" };
  entry_point = "warehouse.plugin";
  categories = [];
  capabilities = query ∷ [];
  permissions = "data.read" ∷ [];
  compatibility = record { core_version_range = ">=1.0.0"; adapter_contracts = [] };
  content_digest = "sha256:0123456789abcdef0123456789abcdef0123456789abcdef0123456789abcdef";
}

abbrev empty : PluginRegistry
empty = record { generation = 0; descriptors = [] }

abbrev one : PluginRegistry
one = record { generation = 1; descriptors = descriptor_of fingerprint 5 manifest ∷ [] }

one_by : register fingerprint 5 manifest empty ≡ ok one
unfolding register is_permission parse_range parse_version
one_by = refl

twice : register fingerprint 6 manifest one ≡ err (already_registered "warehouse")
unfolding register is_permission parse_range parse_version
twice = refl

found_by :
    resolve "query" ">=1.0.0" (some "data.read") one.descriptors
    ≡ some (descriptor_of fingerprint 5 manifest)
unfolding resolve version_in_range
found_by = refl

Reach-IsRegistry_example : IsRegistry fingerprint one
Reach-IsRegistry_example = Reach-IsRegistry fingerprint (registering 5 manifest new one_by)

resolve-IsAnswer_example :
    IsAnswer "query" ">=1.0.0"
      (some "data.read")
      one.descriptors
      (resolve "query" ">=1.0.0" (some "data.read") one.descriptors)
resolve-IsAnswer_example = resolve-IsAnswer "query" ">=1.0.0" (some "data.read") one.descriptors

resolve-register_example :
    resolve "query" ">=1.0.0" (some "data.read") one.descriptors
    ≡ or_last "query" ">=1.0.0"
        (some "data.read")
        (descriptor_of fingerprint 5 manifest)
        (resolve "query" ">=1.0.0" (some "data.read") [])
resolve-register_example =
    resolve-register "query" ">=1.0.0" (some "data.read") fingerprint 5 manifest empty one_by
