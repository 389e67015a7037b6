-- ===== src/Manifest/Measure.antt =====
-- `validate_and_measure_manifest` of shared/protocol/src/manifest_resources.rs: the limits of every
-- container of a manifest, added up. The YAML values and what they are parsed from are parameters.
pub mod Sums
pub mod Whole
use Prim.Native.String.{◌++◌ as text_append}
use podmesh.Manifest.Quantity.{parse_bytes, parse_cpu}
use podmesh.Manifest.Text.{Bytes}
use podmesh.Prelude.{
  saturating_add, u32_max, leb, ltb, u64_max, ◌==◌, if◌then◌else◌, context, ensure, List, String,
  Option, Result, ℕ, none, some, ◌>>=◌, ◌>>◌, ok, err, [], ◌∷◌, string_eq, Bool, nat_eq, list_eq,
}
use podmesh.Manifest.{ManifestResources, checked_add}

-- What the code asks of a YAML value.
pub record Yaml (V : Type 0) : Type 0 where
  pub get : V → String → Option V
  pub as_str : V → Option Bytes
  pub as_sequence : V → Option (List V)

-- `Option::and_then`, which `?` on an option is too.
abbrev pub and_then {ℓ κ} : {A : Type ℓ} {B : Type κ} → Option A → (A → Option B) → Option B
and_then none f = none
and_then (some a) f = f a

pub record Totals : Type 0 where
  pub cpu_milli : ℕ
  pub memory_bytes : ℕ
  pub storage_bytes : ℕ
  pub container_count : ℕ

abbrev pub container_fields : List String
container_fields = "containers" ∷ "initContainers" ∷ []

abbrev pub pod_kind : Bytes
pod_kind = b'P' ∷ b'o' ∷ b'd' ∷ []

module _ {V : Type 0} (y : Yaml V) where
  unfoldable pub pod_spec : V → Bytes → Option V
  pod_spec document kind =
      if kind == pod_kind
      then y.get document "spec"
      else and_then (y.get document "spec")
          (λ spec. and_then (y.get spec "template") (λ template. y.get template "spec"))

  unfoldable pub containers : V → String → Option (List V)
  unfolding pod_spec
  containers document field = and_then (and_then (y.get document "kind") y.as_str) (λ kind.
      and_then (pod_spec document kind) (λ spec. and_then (y.get spec field) y.as_sequence))

  unfoldable pub required_quantity : V → String → Result Bytes
  required_quantity limits key =
      context (and_then (y.get limits key) y.as_str)
        (text_append "resource limit " (text_append key " must be a string quantity"))

  unfoldable pub limits_of : V → Result V
  limits_of container =
      context (and_then (y.get container "resources") (λ resources. y.get resources "limits"))
        "container resource limits are required"

  unfoldable pub quantity : V → String → (Bytes → Result ℕ) → Result ℕ
  unfolding required_quantity
  quantity limits key parse = do text ← required_quantity limits key; parse text

  unfoldable pub add_container : Totals → V → Result Totals
  unfolding limits_of quantity checked_add
  add_container t container = do
    limits ← limits_of container
    cpu ← quantity limits "cpu" parse_cpu
    cpu_milli ← checked_add u64_max t.cpu_milli cpu "aggregate CPU limit overflow"
    memory ← quantity limits "memory" parse_bytes
    memory_bytes ← checked_add u64_max t.memory_bytes memory "aggregate memory limit overflow"
    storage ← quantity limits "ephemeral-storage" parse_bytes
    storage_bytes ← checked_add u64_max t.storage_bytes storage "aggregate storage limit overflow"
    ok (record {
      cpu_milli = cpu_milli;
      memory_bytes = memory_bytes;
      storage_bytes = storage_bytes;
      container_count = saturating_add t.container_count 1;
    })

  unfoldable pub add_containers : Totals → List V → Result Totals
  add_containers t [] = ok t
  add_containers t (c ∷ cs) = add_container t c >>= λ u. add_containers u cs

  -- The fields that a document does not have are passed over.
  unfoldable pub add_fields : Totals → V → List String → Result Totals
  add_fields t document [] = ok t
  add_fields t document (field ∷ fields) = elim (containers document field) [
    | none ↦ add_fields t document fields
    | some cs ↦ add_containers t cs >>= λ u. add_fields u document fields
  ]

  unfoldable pub add_documents : Totals → List V → Result Totals
  add_documents t [] = ok t
  add_documents t (document ∷ documents) =
      add_fields t document container_fields >>= λ u. add_documents u documents

  unfoldable pub measure : List V → Result ManifestResources
  measure documents = do
    t ←
        add_documents
          (record { cpu_milli = 0; memory_bytes = 0; storage_bytes = 0; container_count = 0 })
          documents
    ensure (ltb 0 t.container_count) "workload contains no containers"
    ensure (leb t.cpu_milli u32_max) "aggregate CPU exceeds u32"
    ok (record {
      cpu_milli = t.cpu_milli;
      memory_bytes = t.memory_bytes;
      storage_bytes = t.storage_bytes;
    })

  -- The text is checked as UTF-8, checked and completed by the policy, and parsed as YAML.
  pub validate_and_measure_manifest :
      Result Bytes
      → (Bytes → Result Bytes)
      → (Bytes → Result (List V))
      → Result (Bytes × ManifestResources)
  unfolding measure
  validate_and_measure_manifest utf8 policy parse = do
    manifest ← utf8
    mutated ← policy manifest
    documents ← parse mutated
    resources ← measure documents
    ok (mutated, resources)
