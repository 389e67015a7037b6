-- ===== src/Agent/World/Verified.antt =====
-- The checks of shared/protocol/src/agent.rs in place of those that the environment is free to choose.
use podmesh.Prelude.{false}
use podmesh.Protocol.Signed.Accepted.{verify_update_lem}
use podmesh.Agent.World.Reachable.{Reach-Ordered}
use podmesh.Agent.World.Coherence.{Inv}
use podmesh.Agent.World.{Reach, World}
use podmesh.Agent.World.{Reach, World}
use podmesh.Agent.State.{Config}
use podmesh.Protocol.Signed.{
  verify_update, verify_grant, verify_reservation, verify_admission, Codec,
}
use podmesh.Crypto.Signing.{Ed25519}
use podmesh.Agent.Admission.{Env}

verified : Env → Ed25519 → Codec → Env
verified env k codec = record env {
  verify_admission = verify_admission k codec;
  verify_reservation = verify_reservation k codec;
  verify_grant = verify_grant k codec;
  verify_update = verify_update k codec;
}

-- With these checks every verified update carries a grant for its own workload, so that the order of
-- records and requests is kept without a hypothesis on the checks.
verified-Inv :
    (env : Env) (k : Ed25519) (codec : Codec) (c : Config) {s t : World}
    → Reach (verified env k codec) c s t
    → Inv false s
    → Inv false t
unfolding verified
verified-Inv env k codec c r h =
    Reach-Ordered (verified env k codec) c (λ q now e. (verify_update_lem k codec q now e).2) r h
