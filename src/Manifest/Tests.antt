-- ===== src/Manifest/Tests.antt =====
-- Quantities and manifests at concrete inputs.
use podmesh.Prelude.{nat_eq, string_eq}
use podmesh.Manifest.Quantity.Worth.{parse_bytes-IsWorth}
use podmesh.Manifest.Quantity.Rounding.{IsWorth}
use podmesh.Manifest.Measure.Whole.{measure-Measures, Measures}
use podmesh.Manifest.Quantity.Printing.{parse_cpu-print, print}
use podmesh.Manifest.Text.{Bytes, split_once, strip_suffix, parse_number}
use podmesh.Manifest.{ManifestResources, checked_mul, checked_add}
use podmesh.Manifest.Quantity.{parse_cpu, parse_bytes}
use podmesh.Manifest.Measure.{
  pod_kind, Yaml, measure, add_documents, add_fields, containers, add_containers, add_container,
}
use podmesh.Prelude.{
  ◌*◌, ◌==◌, ◌++◌, if◌then◌else◌, ◌↔◌, Option, String, ℕ, ◌≡◌, arith, ok, err, none, some, [], ◌∷◌,
  refl,
}

-- "1.5K" and "0.1K".
abbrev one_and_a_half : Bytes
one_and_a_half = b'1' ∷ b'.' ∷ b'5' ∷ b'K' ∷ []

abbrev a_tenth : Bytes
a_tenth = b'0' ∷ b'.' ∷ b'1' ∷ b'K' ∷ []

abbrev half_milli : Bytes
half_milli = b'5' ∷ b'0' ∷ b'0' ∷ b'm' ∷ []

abbrev eighth : Bytes
eighth = b'0' ∷ b'.' ∷ b'1' ∷ b'2' ∷ b'5' ∷ []

reads_bytes : (parse_bytes one_and_a_half ≡ ok 1500) × (parse_bytes a_tenth ≡ ok 100)
unfolding parse_bytes split_once strip_suffix parse_number checked_mul checked_add
reads_bytes = (refl, refl)

reads_cpu : (parse_cpu half_milli ≡ ok 500) × (parse_cpu eighth ≡ ok 125)
unfolding parse_cpu strip_suffix parse_number split_once checked_mul checked_add
reads_cpu = (refl, refl)

-- A sign is accepted before thousandths and refused before processors.
signed :
    (parse_cpu (b'+' ∷ half_milli) ≡ ok 500)
    × (parse_cpu (b'+' ∷ b'2' ∷ []) ≡ err "unsupported CPU quantity")
unfolding parse_cpu strip_suffix parse_number split_once
signed = (refl, refl)

parse_bytes-IsWorth_example : (parse_bytes one_and_a_half ≡ ok 1500) ↔ IsWorth one_and_a_half 1500
parse_bytes-IsWorth_example = parse_bytes-IsWorth one_and_a_half 1500

parse_cpu-print_example :
    (parse_cpu (print 250 ++ b'm' ∷ []) ≡ ok 250) × (parse_cpu (print 2) ≡ ok (2 * 1000))
parse_cpu-print_example =
    parse_cpu-print 250 2 (omega arith) (omega arith) (omega arith) (omega arith)

-- A pod with one container, as values that are numbered: 0 the document, 1 its specification, 2 the
-- container, 3 its resources, 4 its limits, 5 to 7 the quantities and 8 the kind.
abbrev child : ℕ → String → Option ℕ
child v key =
    if v == 0
    then (if key == "kind" then some 8 else if key == "spec" then some 1 else none)
    else if v == 1
    then (if key == "containers" then some 9 else none)
    else if v == 2
    then (if key == "resources" then some 3 else none)
    else if v == 3
    then (if key == "limits" then some 4 else none)
    else if v == 4
    then (if key == "cpu"
        then some 5
        else if key == "memory"
        then some 6
        else if key == "ephemeral-storage"
        then some 7
        else none)
    else none

abbrev text : ℕ → Option Bytes
text v =
    if v == 5
    then some half_milli
    else if v == 6
    then some one_and_a_half
    else if v == 7
    then some a_tenth
    else if v == 8
    then some pod_kind
    else none

abbrev tree : Yaml ℕ
tree = record {
  get = child;
  as_str = text;
  as_sequence = λ v. if v == 9 then some (2 ∷ []) else none;
}

abbrev pod_resources : ManifestResources
pod_resources = record { cpu_milli = 500; memory_bytes = 1500; storage_bytes = 100 }

measures_pod : measure tree (0 ∷ []) ≡ ok pod_resources
unfolding measure add_documents add_fields containers add_containers add_container parse_cpu
    strip_suffix parse_number parse_bytes split_once checked_mul
measures_pod = refl

measure-Measures_example :
    (measure tree (0 ∷ []) ≡ ok pod_resources) ↔ Measures tree (0 ∷ []) pod_resources
measure-Measures_example = measure-Measures tree (0 ∷ []) pod_resources
