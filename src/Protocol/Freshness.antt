-- ===== src/Protocol/Freshness.antt =====
-- The validity window of owner-signed agent messages (shared/protocol/src/agent.rs).
use podmesh.Prelude.{
  ℕ, ◌+◌, ◌-◌, ◌≤◌, ◌<◌, ◌≡◌, ◌↔◌, ensure, Result, ok, ◌>>◌, leb, ltb, saturating_add, arith,
  u64_max,
}

abbrev pub max_agent_message_lifetime_secs : ℕ
max_agent_message_lifetime_secs = 300

abbrev pub max_agent_clock_skew_secs : ℕ
max_agent_clock_skew_secs = 60

unfoldable pub validate_validity_window : ℕ → ℕ → ℕ → Result (Unit {0})
validate_validity_window issued_at expires_at now = do
  ensure (leb issued_at (saturating_add now max_agent_clock_skew_secs))
      "issued too far in the future"
  ensure (ltb issued_at expires_at) "expires before it was issued"
  ensure (leb (expires_at - issued_at) max_agent_message_lifetime_secs) "lifetime exceeds the limit"
  ensure (leb now (saturating_add expires_at max_agent_clock_skew_secs)) "expired"

-- Where neither time comes within a minute of the largest u64, a validity window is accepted
-- exactly when the message was issued no later than 60 seconds from now, expired no earlier than 60
-- seconds ago, and has a lifetime of 1 to 300 seconds.
pub validate_validity_window_lem :
    (issued_at expires_at now : ℕ)
    → now + 60 ≤ u64_max
    → expires_at + 60 ≤ u64_max
    → (validate_validity_window issued_at expires_at now ≡ ok tt) ↔ (
        (issued_at ≤ now + 60)
        × (now ≤ expires_at + 60)
        × (issued_at < expires_at)
        × (expires_at ≤ issued_at + 300))
unfolding validate_validity_window
validate_validity_window_lem issued_at expires_at now p q = (λ h. ground arith, λ h. ground arith)
