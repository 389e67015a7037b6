-- ===== src/Protocol/Replay/Tests.antt =====
-- Tests of the replay registry, and the theorems on it at a small registry.
use podmesh.Prelude.{◌≡◌, refl, String, List, [], ◌∷◌, ok, err, arith, string_eq}
use podmesh.Map.{get, insert, remove}
use podmesh.Protocol.Replay.{
  ReplayLimits, ReplayState, Call, check_and_insert, run, check_arguments, record_nonce, add_peer,
  make_peer_room,
}
use podmesh.Protocol.Replay.Peers.{IsValid}
use podmesh.Protocol.Replay.Bounds.{check_and_insert-IsValid}
use podmesh.Protocol.Replay.Refusal.{replay_refused}

-- Room for three peers and three nonces each, for a minute.
abbrev small_limits : ReplayLimits
small_limits = record {
  max_peers = 3;
  nonces_per_peer = 3;
  max_nonce_bytes = 64;
  retention = 60000000000;
}

abbrev fresh_state : ReplayState
fresh_state = record { peers = []; peer_order = [] }

abbrev nonce_a : String
nonce_a = "aaaaaaaa-aaaa-aaaa-aaaa-aaaaaaaaaaaa"

abbrev nonce_b : String
nonce_b = "bbbbbbbb-bbbb-bbbb-bbbb-bbbbbbbbbbbb"

abbrev between : List Call
between =
    record { peer_id = "peer2"; nonce = nonce_a; now = 20 }
    ∷ record { peer_id = "peer1"; nonce = nonce_b; now = 30 }
    ∷ []

fresh_state-IsValid : IsValid small_limits fresh_state
unfolding get
fresh_state-IsValid = record {
  unique = tt;
  distinct = tt;
  agree = λ k. refl;
  peers_valid = λ k p e. absurd (ground arith);
  bounded = omega arith;
}

first_accepted : (check_and_insert small_limits "peer1" nonce_a 10 fresh_state).1 ≡ ok tt
unfolding check_and_insert check_arguments record_nonce get
first_accepted = refl

check_and_insert-IsValid_example :
    IsValid small_limits (check_and_insert small_limits "peer1" nonce_a 10 fresh_state).0
check_and_insert-IsValid_example =
    check_and_insert-IsValid small_limits "peer1" nonce_a 10 fresh_state (omega arith) (omega arith)
      fresh_state-IsValid

replay_refused_example :
    (check_and_insert small_limits "peer1" nonce_a 40
      (run small_limits between (check_and_insert small_limits "peer1" nonce_a 10 fresh_state).0)).1
    ≡ err "envelope replay detected"
unfolding check_and_insert check_arguments record_nonce get add_peer insert remove make_peer_room
replay_refused_example =
    replay_refused small_limits "peer1" nonce_a 10 fresh_state between 40 fresh_state-IsValid
      first_accepted (omega arith, (omega arith, tt)) (omega arith) (omega arith) (omega arith)
