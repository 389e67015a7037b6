-- ===== src/Protocol/Tests.antt =====
-- The theorems on messages and their validity at concrete values.
use podmesh.Prelude.{◌+◌, ◌≤◌, ◌<◌, ◌≡◌, ◌↔◌, some, ok, arith}
use podmesh.Protocol.Freshness.{validate_validity_window, validate_validity_window_lem}
use podmesh.Protocol.Messages.{insufficient_capacity, as_str, from_reason, from_reason-as_str}

validate_validity_window_lem_example :
    (validate_validity_window 100 200 230 ≡ ok tt)
    ↔ ((100 ≤ 230 + 60) × (230 ≤ 200 + 60) × (100 < 200) × (200 ≤ 100 + 300))
validate_validity_window_lem_example =
    validate_validity_window_lem 100 200 230 (omega arith) (omega arith)

from_reason-as_str_example : from_reason (as_str insufficient_capacity) ≡ some insufficient_capacity
from_reason-as_str_example = from_reason-as_str insufficient_capacity
