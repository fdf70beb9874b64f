-- ===== src/Entries/Replication.antt =====
-- pkg/simulator/entries/replication.go: multicast groups and clone sessions.
use fabric_sim.Prelude.{
  ℕ, nat_eq, ◌≡◌, arith, List, [], map, Bool, not, none, some, is_some, if◌then◌else◌, ◌==◌,
}
use fabric_sim.GoMap.{GoMap, lookup, insert, delete, values, lookup-insert}
use fabric_sim.Outcome.{not_found, already_exists, Outcome, done, failed, lift}
use fabric_sim.Entries.Message.{
  MulticastGroupEntry, CloneSessionEntry, Entity, replication_entry, multicast_group, clone_session,
}
use fabric_sim.Entries.Buffer.{BatchSender, Buffer, read_entities}

-- PacketReplication
pub record PacketReplication : Type 0 where
  pub multicasts : GoMap ℕ MulticastGroupEntry
  pub clone_sessions : GoMap ℕ CloneSessionEntry

-- NewPacketReplication
abbrev pub new_packet_replication : PacketReplication
new_packet_replication = record { multicasts = []; clone_sessions = [] }

-- ModifyMulticastGroupEntry
unfoldable pub modify_multicast :
    MulticastGroupEntry → Bool → PacketReplication → Outcome PacketReplication
modify_multicast e is_insert pr =
    let write = record pr { multicasts = insert e.multicast_group_id e pr.multicasts } in
    elim (lookup e.multicast_group_id pr.multicasts) [
      | some old ↦ if is_insert then failed already_exists pr else done write
      | none ↦ if is_insert then done write else failed not_found pr
    ]

-- DeleteMulticastGroupEntry
unfoldable pub delete_multicast :
    MulticastGroupEntry → PacketReplication → Outcome PacketReplication
delete_multicast e pr = done (record pr { multicasts = delete e.multicast_group_id pr.multicasts })

-- ModifyCloneSessionEntry
unfoldable pub modify_clone_session :
    CloneSessionEntry → Bool → PacketReplication → Outcome PacketReplication
modify_clone_session e is_insert pr =
    let write = record pr { clone_sessions = insert e.session_id e pr.clone_sessions } in
    elim (lookup e.session_id pr.clone_sessions) [
      | some old ↦ if is_insert then failed already_exists pr else done write
      | none ↦ if is_insert then done write else failed not_found pr
    ]

-- DeleteCloneSessionEntry
unfoldable pub delete_clone_session :
    CloneSessionEntry → PacketReplication → Outcome PacketReplication
delete_clone_session e pr =
    done (record pr { clone_sessions = delete e.session_id pr.clone_sessions })

-- ReadMulticastGroupEntries
unfoldable pub read_multicasts :
    BatchSender Entity → PacketReplication → List (List Entity) → Outcome (List (List Entity))
read_multicasts sender pr sent =
    lift (λ (b : Buffer Entity). b.sent)
      (read_entities sender
        (map (λ (m : MulticastGroupEntry). replication_entry (multicast_group m))
          (values pr.multicasts))
        sent)

-- ReadCloneSessionEntries
unfoldable pub read_clone_sessions :
    BatchSender Entity → PacketReplication → List (List Entity) → Outcome (List (List Entity))
read_clone_sessions sender pr sent =
    lift (λ (b : Buffer Entity). b.sent)
      (read_entities sender
        (map (λ (c : CloneSessionEntry). replication_entry (clone_session c))
          (values pr.clone_sessions))
        sent)

-- MulticastGroups and CloneSessions
unfoldable pub multicast_groups : PacketReplication → List MulticastGroupEntry
multicast_groups pr = values pr.multicasts

unfoldable pub clone_sessions_list : PacketReplication → List CloneSessionEntry
clone_sessions_list pr = values pr.clone_sessions

-- What a group is after a write, at every id; an insert wants a free id and an update a used one,
-- and the clone sessions are left alone.
pub modify_multicast-done :
    (e : MulticastGroupEntry) (is_insert : Bool) (pr pr' : PacketReplication)
    → modify_multicast e is_insert pr ≡ done pr'
    → (is_some (lookup e.multicast_group_id pr.multicasts) ≡ not is_insert)
      × ((id : ℕ)
          → lookup id pr'.multicasts
            ≡ (if e.multicast_group_id == id then some e else lookup id pr.multicasts))
      × (pr'.clone_sessions ≡ pr.clone_sessions)
unfolding modify_multicast
modify_multicast-done e is_insert pr pr' h = (
  ground arith,
  λ id. ground (arith, lookup-insert e.multicast_group_id id e pr.multicasts),
  ground arith,
)
