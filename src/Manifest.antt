-- ===== src/Manifest.antt =====
-- What the containers of a manifest may use (shared/protocol/src/manifest_resources.rs).
pub mod Text
pub mod Quantity
pub mod Measure
pub mod Tests
use podmesh.Prelude.{
  String, ℕ, ◌+◌, ◌*◌, Result, ok, err, ensure, leb, u32_max, u64_max, ◌>>=◌, if◌then◌else◌,
}

pub record ManifestResources : Type 0 where
  pub cpu_milli : ℕ
  pub memory_bytes : ℕ
  pub storage_bytes : ℕ

abbrev pub default_sidecar_cpu_milli : ℕ
default_sidecar_cpu_milli = 100

abbrev pub default_sidecar_memory_bytes : ℕ
default_sidecar_memory_bytes = 128 * 1024 * 1024

abbrev pub default_sidecar_storage_bytes : ℕ
default_sidecar_storage_bytes = 1024 * 1024 * 1024

-- `checked_add` and `checked_mul` of an integer type with this largest value.
unfoldable pub checked_add : ℕ → ℕ → ℕ → String → Result ℕ
checked_add largest a b message = if leb (a + b) largest then ok (a + b) else err message

unfoldable pub checked_mul : ℕ → ℕ → ℕ → String → Result ℕ
checked_mul largest a b message = if leb (a * b) largest then ok (a * b) else err message

pub with_default_sidecar : ManifestResources → Result ManifestResources
unfolding checked_add
with_default_sidecar m = do
  cpu ←
      checked_add u32_max m.cpu_milli default_sidecar_cpu_milli
        "CPU limit overflow after sidecar injection"
  memory ←
      checked_add u64_max m.memory_bytes default_sidecar_memory_bytes
        "memory limit overflow after sidecar injection"
  storage ←
      checked_add u64_max m.storage_bytes default_sidecar_storage_bytes
        "storage limit overflow after sidecar injection"
  ok (record { cpu_milli = cpu; memory_bytes = memory; storage_bytes = storage })
