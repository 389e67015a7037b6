-- ===== src/Protocol/Replay.antt =====
-- The replay registry of workload envelopes (shared/protocol/src/replay_registry.rs). Instants and
-- durations are counted in nanoseconds; the registry's mutex makes each call one step.
pub mod Peers
pub mod Bounds
pub mod Memory
pub mod Refusal
pub mod Tests
use Prim.Native.String.{len}
use podmesh.Prelude.{
  ℕ, ◌+◌, ◌-◌, ◌*◌, ◌^◌, ◌≡◌, String, Bool, not, ◌&&◌, Option, none, some, List, [], ◌∷◌, ◌++◌,
  ◌==◌, string_eq, nat_eq, leb, ltb, if◌then◌else◌, Result, ok, err, ensure, ◌>>=◌, ◌>>◌, retain,
}
use podmesh.Map.{Map, size, get, contains_key, remove, insert, retain_entries, map_values}
use podmesh.Fifo.{Fifo, empty, prune, add}

abbrev pub from_secs : ℕ → ℕ
from_secs n = n * 1000000000

abbrev pub max_replay_peers : ℕ
max_replay_peers = 10000

abbrev pub max_replay_nonces_per_peer : ℕ
max_replay_nonces_per_peer = 1000

abbrev pub min_replay_nonce_bytes : ℕ
min_replay_nonce_bytes = 36

abbrev pub max_replay_nonce_bytes : ℕ
max_replay_nonce_bytes = 128

abbrev pub min_replay_retention : ℕ
min_replay_retention = from_secs 60

abbrev pub max_replay_retention : ℕ
max_replay_retention = from_secs 300

pub record ReplayLimits : Type 0 where
  pub max_peers : ℕ
  pub nonces_per_peer : ℕ
  pub max_nonce_bytes : ℕ
  pub retention : ℕ

abbrev pub default_limits : ReplayLimits
default_limits = record {
  max_peers = 10000;
  nonces_per_peer = 1000;
  max_nonce_bytes = 128;
  retention = from_secs 120;
}

abbrev pub in_range : ℕ → ℕ → ℕ → Bool
in_range lo hi n = leb lo n && leb n hi

pub validate : ReplayLimits → Result ReplayLimits
validate l = do
  ensure (in_range 1 max_replay_peers l.max_peers) "replay peer limit is outside its allowed range"
  ensure (in_range 1 max_replay_nonces_per_peer l.nonces_per_peer)
      "replay per-peer nonce limit is outside its allowed range"
  ensure (in_range min_replay_nonce_bytes max_replay_nonce_bytes l.max_nonce_bytes)
      "replay nonce byte limit is outside its allowed range"
  ensure (in_range min_replay_retention max_replay_retention l.retention)
      "replay retention is outside its allowed range"
  ok l

-- The instant at which each nonce was recorded, and the nonces from the oldest.
abbrev pub PeerNonces : Type 0
PeerNonces = Fifo ℕ

-- `now.saturating_duration_since(recorded) >= retention`
abbrev pub expired : ℕ → ℕ → ℕ → Bool
expired now retention recorded = leb retention (now - recorded)

pub prune_expired : ℕ → ℕ → PeerNonces → PeerNonces
prune_expired now retention = prune (expired now retention)

pub insert_nonce : String → ℕ → ℕ → PeerNonces → PeerNonces
insert_nonce nonce now limit = add limit nonce now

pub record ReplayState : Type 0 where
  pub peers : Map String PeerNonces
  pub peer_order : List String

abbrev pub new_state : ReplayState
new_state = record { peers = []; peer_order = [] }

-- Nothing recorded is left.
abbrev pub has_nonces : String → PeerNonces → Bool
has_nonces id peer = not (size peer.seen == 0)

pub prune_expired_peers : ReplayLimits → ℕ → ReplayState → ReplayState
prune_expired_peers l now s =
    let kept = retain_entries has_nonces (map_values (prune_expired now l.retention) s.peers) in
    record { peers = kept; peer_order = retain (contains_key kept) s.peer_order }

evict_front : Map String PeerNonces → List String → ReplayState
evict_front peers [] = record { peers = peers; peer_order = [] }
evict_front peers (oldest ∷ order) = record { peers = remove peers oldest; peer_order = order }

evict_if_full : ReplayLimits → ReplayState → ReplayState
unfolding evict_front
evict_if_full l s = if leb l.max_peers (size s.peers) then evict_front s.peers s.peer_order else s

-- The two tests on a full registry before a new peer is added.
pub make_peer_room : ReplayLimits → ℕ → ReplayState → ReplayState
unfolding prune_expired_peers evict_if_full
make_peer_room l now s =
    evict_if_full l (if leb l.max_peers (size s.peers) then prune_expired_peers l now s else s)

pub known_peer :
    ReplayLimits → String → String → ℕ → PeerNonces → ReplayState → ReplayState × Result (Unit {0})
known_peer l peer_id nonce now peer s =
    let pruned = prune_expired now l.retention peer in
    if contains_key pruned.seen nonce
    then (record s { peers = insert s.peers peer_id pruned }, err "envelope replay detected")
    else (
      record s { peers = insert s.peers peer_id (insert_nonce nonce now l.nonces_per_peer pruned) },
      ok tt,
    )

pub add_peer : ReplayLimits → String → String → ℕ → ReplayState → ReplayState
add_peer l peer_id nonce now s = record {
  peers = insert s.peers peer_id (insert_nonce nonce now l.nonces_per_peer empty);
  peer_order = s.peer_order ++ peer_id ∷ [];
}

-- The three tests of the arguments.
pub check_arguments : ReplayLimits → String → String → Result (Unit {0})
check_arguments l peer_id nonce = do
  ensure (not (peer_id == "")) "replay peer id is empty"
  ensure (not (nonce == "")) "envelope nonce is empty"
  ensure (leb (len nonce) l.max_nonce_bytes) "envelope nonce exceeds configured byte limit"

pub record_nonce :
    ReplayLimits → String → String → ℕ → ReplayState → ReplayState × Result (Unit {0})
record_nonce l peer_id nonce now s = elim (get s.peers peer_id) [
  | some peer ↦ known_peer l peer_id nonce now peer s
  | none ↦ (add_peer l peer_id nonce now (make_peer_room l now s), ok tt)
]

pub check_and_insert :
    ReplayLimits → String → String → ℕ → ReplayState → ReplayState × Result (Unit {0})
check_and_insert l peer_id nonce now s = elim (check_arguments l peer_id nonce) [
  | err e ↦ (s, err e)
  | ok _ ↦ record_nonce l peer_id nonce now s
]

-- One call, and the registry after a sequence of calls.
pub record Call : Type 0 where
  pub peer_id : String
  pub nonce : String
  pub now : ℕ

pub run : ReplayLimits → List Call → ReplayState → ReplayState
run l [] s = s
run l (c ∷ cs) s = run l cs (check_and_insert l c.peer_id c.nonce c.now s).0
