-- ===== src/Agent/Usage.antt =====
-- `ResourceUsage` of podmesh-agent/src/service.rs: sums that saturate at the largest u64.
use podmesh.Prelude.{ℕ, ◌≤◌, ◌≡◌, String, Bool, ◌&&◌, [], ◌∷◌, leb, saturating_add, u64_max, arith}
use podmesh.Map.{Map, total}

pub record ResourceUsage : Type 0 where
  pub cpu_milli : ℕ
  pub memory_bytes : ℕ
  pub storage_bytes : ℕ

abbrev pub no_usage : ResourceUsage
no_usage = record { cpu_milli = 0; memory_bytes = 0; storage_bytes = 0 }

-- `add` mutates and `plus` copies; both give these sums.
unfoldable pub plus : ResourceUsage → ℕ → ℕ → ℕ → ResourceUsage
plus u cpu_milli memory_bytes storage_bytes = record {
  cpu_milli = saturating_add u.cpu_milli cpu_milli;
  memory_bytes = saturating_add u.memory_bytes memory_bytes;
  storage_bytes = saturating_add u.storage_bytes storage_bytes;
}

unfoldable pub fits_within : ResourceUsage → ℕ → ℕ → ℕ → Bool
fits_within u cpu_milli memory_bytes storage_bytes =
    leb u.cpu_milli cpu_milli
    && leb u.memory_bytes memory_bytes
    && leb u.storage_bytes storage_bytes

-- What one record of a map uses.
pub record Charged (V : Type 0) : Type 0 where
  pub cpu : V → ℕ
  pub memory : V → ℕ
  pub storage : V → ℕ

module _ {V : Type 0} (of : Charged V) where
  -- The loop that adds the values of a map to a sum.
  unfoldable pub add_all : ResourceUsage → Map String V → ResourceUsage
  unfolding plus
  add_all u [] = u
  add_all u ((k, v) ∷ m) = add_all (plus u (of.cpu v) (of.memory v) (of.storage v)) m

  pub cpu_add_all :
      (u : ResourceUsage) (m : Map String V)
      → u.cpu_milli ≤ u64_max
      → (add_all u m).cpu_milli ≡ saturating_add u.cpu_milli (total of.cpu m)
  unfolding add_all total
  cpu_add_all u [] h = omega arith
  cpu_add_all u ((k, v) ∷ m) h =
      omega (arith, cpu_add_all (plus u (of.cpu v) (of.memory v) (of.storage v)) m (omega arith))

  pub memory_add_all :
      (u : ResourceUsage) (m : Map String V)
      → u.memory_bytes ≤ u64_max
      → (add_all u m).memory_bytes ≡ saturating_add u.memory_bytes (total of.memory m)
  unfolding add_all total
  memory_add_all u [] h = omega arith
  memory_add_all u ((k, v) ∷ m) h =
      omega (arith, memory_add_all (plus u (of.cpu v) (of.memory v) (of.storage v)) m (omega arith))

  pub storage_add_all :
      (u : ResourceUsage) (m : Map String V)
      → u.storage_bytes ≤ u64_max
      → (add_all u m).storage_bytes ≡ saturating_add u.storage_bytes (total of.storage m)
  unfolding add_all total
  storage_add_all u [] h = omega arith
  storage_add_all u ((k, v) ∷ m) h =
      omega
        (arith, storage_add_all (plus u (of.cpu v) (of.memory v) (of.storage v)) m (omega arith))
