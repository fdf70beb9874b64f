-- ===== src/Device/Streams.antt =====
-- The packet streams of a device: streamState of pkg/northbound/device/p4runtime/v1/p4runtime.go, and
-- RunMastershipArbitration of pkg/simulator/device.go, which notifies them of an election.
pub mod Orderly
use fabric_sim.Prelude.{
  ap, sym, ℕ, nat_eq, bytes_eq, ◌==◌, ◌≢◌, Bytes, List, [], ◌∷◌, Bool, true, false, ◌||◌, not,
  Option, none, some, if◌then◌else◌, ◌≡◌, refl, arith, All,
}
use fabric_sim.Device.Election.{
  ElectionId, Elections, Checked, checked, nil_pointer, same_id, record_role_election,
}

-- stratum.P4RoleConfig, as far as the program reads it: the filter is the id and the value of a
-- metadata field.
pub record RoleConfig : Type 0 where
  pub receives_packet_ins : Bool
  pub packet_in_filter : Option (ℕ × Bytes)

-- The google.protobuf.Any that holds the configuration of a role.
pub record RoleAny : Type 0 where
  pub type_url : Bytes
  pub value : Bytes

-- A p4api.Role: a pointer to it is its address.
pub record Role : Type 0 where
  pub address : ℕ
  pub name : Bytes
  pub config : Option RoleAny

-- p4api.MasterArbitrationUpdate, as it is sent
pub record Arbitration : Type 0 where
  pub device_id : ℕ
  pub role : Option Role
  pub election_id : Option ElectionId
  pub status : ℕ

-- p4api.PacketMetadata
pub record PacketMetadata : Type 0 where
  pub metadata_id : ℕ
  pub value : Bytes

-- p4api.PacketIn
pub record PacketIn : Type 0 where
  pub payload : Bytes
  pub metadata : List PacketMetadata

-- p4api.StreamMessageResponse, the two kinds that are sent
pub data Message : Type 0 where
  arbitration : Arbitration → Message
  packet_in : PacketIn → Message

-- streamState: a pointer to it is its address. `sent` is what was put into the channel, the newest
-- first, and `connection` the address that the peer information holds, if there is any.
pub record Stream : Type 0 where
  pub address : ℕ
  pub device_id : ℕ
  pub role : Option Role
  pub role_config : Option RoleConfig
  pub election_id : Option ElectionId
  pub sent_code : Option ℕ
  pub sent : List Message
  pub connection : Option Bytes

-- The streamState that StreamChannel makes.
abbrev pub new_stream : ℕ → Option Bytes → Stream
new_stream address connection = record {
  address = address;
  device_id = 0;
  role = none;
  role_config = none;
  election_id = none;
  sent_code = none;
  sent = [];
  connection = connection;
}

-- streamState.Send: the channel is taken to have room.
unfoldable pub send : Message → Stream → Stream
send m st = record st { sent = m ∷ st.sent }

-- The codes of google.golang.org/genproto/googleapis/rpc/code
abbrev pub code_ok : ℕ
code_ok = 0

abbrev pub code_invalid_argument : ℕ
code_invalid_argument = 3

abbrev pub code_not_found : ℕ
code_not_found = 5

abbrev pub code_already_exists : ℕ
code_already_exists = 6

-- Go's comparisons of two pointers.
abbrev pub same_role : Option Role → Option Role → Bool
same_role none none = true
same_role (some a) (some b) = a.address == b.address
same_role _ _ = false

abbrev pub same_election : Option ElectionId → Option ElectionId → Bool
same_election none none = true
same_election (some a) (some b) = a.address == b.address
same_election _ _ = false

abbrev pub same_code : Option ℕ → ℕ → Bool
same_code none code = false
same_code (some c) code = c == code

-- LatchMastershipArbitration, of an update that is not nil. `read_any` stands for gogo.UnmarshalAny
-- into a role configuration that receives packets.
unfoldable pub latch :
    (RoleAny → RoleConfig) → ℕ → Option Role → Option ElectionId → Stream → Stream
latch read_any device_id role id st =
    let latched : Stream = record st { device_id = device_id; role = role; election_id = id } in
    elim role [
      | none ↦ latched
      | some r ↦ elim r.config [
        | none ↦ latched
        | some any ↦ record latched { role_config = some (read_any any) }
      ]
    ]

-- The status of SendMastershipArbitration, for a stream of the role.
unfoldable pub election_status : Option ElectionId → ℕ → Stream → ℕ
election_status master fail_code st =
    if same_election st.election_id master then code_ok else fail_code

-- SendMastershipArbitration
unfoldable pub send_arbitration : Option Role → Option ElectionId → ℕ → Stream → Stream
unfolding election_status send
send_arbitration role master fail_code st =
    if not (same_role role st.role)
    then st
    else (let code = election_status master fail_code st in
        let update : Arbitration = record {
          device_id = st.device_id;
          role = st.role;
          election_id = master;
          status = code;
        } in
        if same_code st.sent_code code
        then st
        else record (send (arbitration update) st) { sent_code = some code })

-- The first half of streamState.IsMaster.
abbrev pub has_role : Option Role → Option Role → Bool
has_role (some a) (some b) = (a.address == b.address) || (a.name == b.name)
has_role none none = true
has_role _ _ = false

-- streamState.IsMaster, of an id that is not nil
unfoldable pub stream_is_master : Option Role → ElectionId → Stream → Checked Bool
unfolding same_id
stream_is_master role master st =
    if has_role st.role role
    then elim st.election_id [ none ↦ nil_pointer | some e ↦ checked (same_id e master) ]
    else checked false

-- The first loop of RunMastershipArbitration.
unfoldable pub any_master : Option Role → ElectionId → List Stream → Checked Bool
unfolding stream_is_master
any_master role master [] = checked false
any_master role master (st ∷ sts) =
    let rest = any_master role master sts in
    elim (stream_is_master role master st) [
      | nil_pointer ↦ nil_pointer
      | checked found ↦ if found then checked true else rest
    ]

-- The code for those that are not master.
unfoldable pub fail_code : Option Role → Option ElectionId → List Stream → Checked ℕ
unfolding any_master
fail_code role none sts = checked code_invalid_argument
fail_code role (some master) sts = elim (any_master role master sts) [
  | nil_pointer ↦ nil_pointer
  | checked found ↦ checked (if found then code_already_exists else code_not_found)
]

abbrev pub role_name : Option Role → Bytes
role_name none = []
role_name (some r) = r.name

-- The second loop.
unfoldable pub notify : Option Role → Option ElectionId → ℕ → List Stream → List Stream
unfolding send_arbitration
notify role master code [] = []
notify role master code (st ∷ sts) =
    send_arbitration role master code st ∷ notify role master code sts

-- RunMastershipArbitration, after the election was recorded.
unfoldable pub notify_streams :
    Option Role → Elections × Option ElectionId → List Stream → Checked (Elections × List Stream)
unfolding fail_code notify
notify_streams role (after, master) sts = elim (fail_code role master sts) [
  | nil_pointer ↦ nil_pointer
  | checked code ↦ checked (after, notify role master code sts)
]

-- RunMastershipArbitration
unfoldable pub run_arbitration :
    Option Role → Option ElectionId → Elections → List Stream → Checked (Elections × List Stream)
unfolding record_role_election notify_streams
run_arbitration role id elections sts = elim (record_role_election (role_name role) id elections) [
  | nil_pointer ↦ nil_pointer
  | checked recorded ↦ notify_streams role recorded sts
]
