-- ===== src/Simulation/Peers.antt =====
-- pkg/simulator/peers.go, and emitLLDPPacketViaPeer of pkg/simulator/device.go. `dials` says whether
-- grpc.Dial connects to a domain.
use fabric_sim.Prelude.{
  bytes_eq, Bytes, codes, has_prefix, contains, [], ◌∷◌, Bool, true, Option, none, some, is_some,
  if◌then◌else◌, ◌≡◌, arith, Bool-cases, inl, inr,
}
use fabric_sim.GoMap.{lookup, insert}
use fabric_sim.Outcome.{Outcome, done, panic}
use fabric_sim.Simulation.Ports.{PeerPacket, Simulation}

abbrev delimiter : Bytes
delimiter = codes "::"

-- strings.Split(id, "::")[0]
unfoldable pub first_field : Bytes → Bytes
first_field [] = []
first_field (c ∷ s) =
    let rest = first_field s in if has_prefix delimiter (c ∷ s) then [] else c ∷ rest

-- What follows the first delimiter, if there is one.
unfoldable pub after_delimiter : Bytes → Option Bytes
after_delimiter [] = none
after_delimiter (c ∷ s) =
    let rest = after_delimiter s in if has_prefix delimiter (c ∷ s) then some (drop_one s) else rest
  where
    drop_one : Bytes → Bytes
    drop_one [] = []
    drop_one (d ∷ t) = t

-- getPeer: the peers after it, and whether the peer has a client.
unfoldable pub get_peer : (Bytes → Bool) → Bytes → Simulation → Simulation × Bool
get_peer dials domain s = elim (lookup domain s.peers) [
  | some true ↦ (s, true)
  | _ ↦ (record s { peers = insert domain (dials domain) s.peers }, dials domain)
]

-- emitLLDPPacketViaPeer: fields[1] is out of range for an id without a delimiter.
unfoldable pub emit_via_peer : (Bytes → Bool) → Bytes → Bytes → Simulation → Outcome Simulation
unfolding first_field after_delimiter get_peer
emit_via_peer dials payload remote s = elim (after_delimiter remote) [
  | none ↦ panic
  | some rest ↦
      let (s', connected) = get_peer dials (first_field remote) s in
      let packet : PeerPacket = record {
        domain = first_field remote;
        payload = payload;
        port_id = first_field rest;
      } in
      if connected then done (record s' { sent_to_peers = packet ∷ s'.sent_to_peers }) else done s'
]

-- An id that contains the delimiter has a second field.
pub after_delimiter_found :
    (id : Bytes) → contains delimiter id ≡ true → is_some (after_delimiter id) ≡ true
unfolding after_delimiter
after_delimiter_found [] h = cc
after_delimiter_found (c ∷ s) h = elim (Bool-cases (has_prefix delimiter (c ∷ s))) [
  | inl here ↦ ground arith
  | inr there ↦ ground (arith, after_delimiter_found s)
]
