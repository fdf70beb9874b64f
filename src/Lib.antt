-- ===== src/Lib.antt =====
-- Verification of fabric-sim, a simulator of a fabric of P4 switches with hosts.
--
-- A simulation (pkg/simulator/core.go) is an inventory of devices, of the links between their ports
-- and of the hosts attached to them. A device (pkg/simulator/device.go) answers P4Runtime requests:
-- a controller sets a pipeline, which makes the stores of pkg/simulator/entries (tables, counters,
-- meters, action profiles, packet replication), and then writes and reads their entries. Each write
-- of a table entry makes the device search its tables for entries that punt packets to the CPU. A
-- packet that a controller sends out, or an ARP request of a host, becomes a packet-in of the device
-- that it arrives at. Topologies (pkg/topo) are generated from recipes and loaded into a simulation.
--
-- Files and the code that they model:
--   Entries/Message      the fields that the code uses of the P4Runtime messages
--   Entries/Sorting      sort.SliceStable, as a stable insertion sort
--   Entries/Key          entryKey, validateMatch, writeHash, sortFieldMatches of entries/table.go
--   Entries/Table        one table of entries/table.go: its rows by key and its default row
--   Entries/Buffer       entityBuffer of entries/table.go, which sends a read in batches of 64
--   Entries/Tables       the tables of a device, by id, and their reads
--   Entries/Cells        entries/counter.go and entries/meter.go
--   Entries/Profile      entries/profile.go
--   Entries/Replication  entries/replication.go
--   Device/Pipeline      SetPipelineConfig and findPuntToCPUTables of device.go
--   Device/Punt          checkPuntToCPU, findRoleAgentID and HasPuntRuleForEthType
--   Device/Write         ProcessWrite, processModify and processDelete
--   Device/Read          ProcessRead and processRead
--   Device/Election      IsMaster and RecordRoleElection
--   Device/Streams       streamState of pkg/northbound/device/p4runtime/v1/p4runtime.go, and
--                        RunMastershipArbitration, which notifies the streams of an election
--   Device/Service       Write, SetForwardingPipelineConfig and GetForwardingPipelineConfig of
--                        pkg/northbound/device/p4runtime/v1/p4runtime.go
--   Device/IoStats       UpdateIOStats and addAndResetStats
--   Device/State         NewDeviceSimulator, the ports and the stream responders of a device
--   Device/Channel       the streams of a device that open, ask for mastership and close
--   Device/Packets       SendPacketIn and matchesMetaData
--   Device/Snapshot      the pipeline information for the management API
--   Simulation/Ports     the state of core.go, devices, ExtractDeviceID and validatePort
--   Simulation/Links     AddLinkSimulator, RemoveLinkSimulator, GetLinkFromPort
--   Simulation/Hosts     AddHostSimulator, RemoveHostSimulator
--   Simulation/Status    EnablePort and DisablePort
--   Simulation/Peers     pkg/simulator/peers.go and emitLLDPPacketViaPeer
--   Simulation/Lldp      ProcessPacketOut, processLLDPPacket and EmitLLDPPacket
--   Simulation/Arp       the ARP requests of pkg/simulator/host.go, and EmitARPs
--   Simulation/Stats     pkg/simulator/stats.go
--   Simulation/RandomHost  GetRandomHostSimulator
--   Simulation/Channel   StreamChannel and processRequest of the P4Runtime server
--   Simulation/Exclusive, Simulation/Attached  invariants of what calls and packets reach
--   Topo/Schema, Topo/Text, Topo/Position  the files of pkg/topo/schema.go, fmt and grid positions
--   Topo/Builder, Topo/RackHosts  the Builder of pkg/topo/generator.go and what it makes
--   Topo/Fabrics, Topo/SuperSpines  the recipes of pkg/topo
--   Topo/Wired           the ports that the builder gives out
--   Topo/Loader          pkg/topo/loader.go, which adds a topology to a simulation or clears it
--   Topo/Robot           pkg/topo/robot.go
--   Topo/Netcfg          pkg/topo/netcfg.go, of which genPortConfig is false
-- Prelude, GoMap (Go's maps) and Outcome (a call that returns nil, returns an error, or panics) are
-- shared. Tests runs the definitions, and the theorems at concrete values.
--
-- A call that changes state takes the state and leaves a new one, also beside an error; a nil
-- pointer that is read and an index out of range are the outcome panic. A Go map is an association
-- list with a lookup that finds the first entry; the order in which a map is ranged over is that of
-- the list. Unsigned fields are natural numbers; signed ones that are compared are integers. A
-- loop over a slice or a map is structural recursion, so no fuel is needed; a counted loop recurs on
-- the rounds that are left. The decimal digits of a number take fuel, of which one more than the
-- number is given. The hash sha1, the decoder p4utils.DecodeValueAsUint32, the codec of packet
-- metadata, gopacket, grpc.Dial, packet.ARPRequestPacket, the growth of append and
-- NewLinkID are parameters; no theorem assumes anything of them but one on keys, which assumes
-- that the hash tells the two inputs at hand apart, and one on statistics, which assumes that an
-- array that append makes has room for more. Random numbers are a list of draws. The numbers of a topology recipe are natural
-- numbers, and a switch has fewer than 2 ^ 32 - 1 ports; positions are integers.
--
-- A packet-in is put at once into the list of messages that a stream has been sent, and what a
-- peer is sent into a list of the simulation.
--
-- Not modelled: logging, locks (each operation runs under one), background loops and timers, the
-- stops of the agent of a device and of the loop of a host when they are removed (the latter may
-- wait without end), the gNMI configuration tree of a library (also its port status), gRPC servers,
-- a server whose device was removed, an array too large for make, the reading and writing of files,
-- commands and tests.
pub mod Prelude
pub mod GoMap
pub mod Outcome
pub mod Entries
pub mod Device
pub mod Simulation
pub mod Topo
pub mod Tests
