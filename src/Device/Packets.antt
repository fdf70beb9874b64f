-- ===== src/Device/Packets.antt =====
-- SendPacketIn and matchesMetaData of pkg/simulator/device.go. `encode` stands for the codec that
-- p4utils makes from the pipeline configuration.
use fabric_sim.Prelude.{
  ℕ, nat_eq, bytes_eq, ◌==◌, Bytes, List, [], ◌∷◌, Bool, true, false, Option, none, some,
  if◌then◌else◌,
}
use fabric_sim.Device.Pipeline.{PipelineConfig}
use fabric_sim.Device.Streams.{RoleConfig, PacketMetadata, PacketIn, packet_in, Stream, send}
use fabric_sim.Device.State.{DeviceSim}

-- p4utils.PacketInMetadata
pub record PacketInMetadata : Type 0 where
  pub ingress_port : ℕ
  pub role_agent_id : ℕ

-- The loop of matchesMetaData: the first metadata with the id decides.
unfoldable pub first_matches : ℕ → Bytes → List PacketMetadata → Bool
first_matches id value [] = false
first_matches id value (md ∷ mds) =
    let rest = first_matches id value mds in
    if md.metadata_id == id then md.value == value else rest

-- matchesMetaData
unfoldable pub matches_metadata : Option RoleConfig → List PacketMetadata → Bool
unfolding first_matches
matches_metadata none mds = true
matches_metadata (some rc) mds =
    if rc.receives_packet_ins
    then elim rc.packet_in_filter [ none ↦ true | some (id, value) ↦ first_matches id value mds ]
    else false

-- The loop of SendPacketIn over the responders.
unfoldable pub deliver : PacketIn → List Stream → List Stream
unfolding matches_metadata send
deliver p [] = []
deliver p (st ∷ sts) =
    let rest = deliver p sts in
    if matches_metadata st.role_config p.metadata then send (packet_in p) st ∷ rest else st ∷ rest

-- SendPacketIn
unfoldable pub send_packet_in :
    (PipelineConfig → PacketInMetadata → List PacketMetadata)
    → Bytes
    → PacketInMetadata
    → DeviceSim
    → DeviceSim
unfolding deliver
send_packet_in encode payload md d =
    if d.pipeline.codec_set
    then record d {
      streams =
          deliver (record { payload = payload; metadata = encode d.pipeline.config md }) d.streams;
    }
    else d
