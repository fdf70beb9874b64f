-- ===== src/Device/Channel/Lifecycle.antt =====
-- Streams that come and go, and one that has not asked for mastership.
use fabric_sim.Prelude.{
  ℕ, suc, nat_eq, bytes_eq, ◌==◌, Bytes, List, [], ◌∷◌, ◌++◌, false, Option, none, some, ◌≡◌, arith,
  All,
}
use fabric_sim.Outcome.{done, panic}
use fabric_sim.Device.Election.{ElectionId, Elections, checked, nil_pointer, record_role_election}
use fabric_sim.Device.Streams.{
  Stream, new_stream, stream_is_master, any_master, fail_code, notify_streams, run_arbitration,
}
use fabric_sim.Device.State.{
  DeviceSim, add_stream_responder, remove_stream, remove_connection, remove_stream_responder,
}
use fabric_sim.Device.Channel.{arbitrate, open_stream}

-- No stream of the list is the one at the address.
abbrev pub HasNoStream : ℕ → List Stream → Type 0
HasNoStream address = All (λ st. (st.address == address) ≡ false)

-- Every connection of the list is known, and from another address.
abbrev pub HasNoConnection : Bytes → List (Option Bytes) → Type 0
HasNoConnection from = All (λ c. (other : Bytes) × (c ≡ some other) × ((other == from) ≡ false))

remove_stream-append :
    (st : Stream) (sts : List Stream)
    → HasNoStream st.address sts
    → remove_stream st.address (sts ++ st ∷ []) ≡ sts
unfolding remove_stream
remove_stream-append st [] h = ground arith
remove_stream-append st (x ∷ sts) h = ground (arith, remove_stream-append st sts h.1)

remove_connection-append :
    (from : Bytes) (cs : List (Option Bytes))
    → HasNoConnection from cs
    → remove_connection (some from) (cs ++ some from ∷ []) ≡ some cs
unfolding remove_connection
remove_connection-append from [] h = ground (arith, bytes_eq.beq_iff from from)
remove_connection-append from (none ∷ cs) h = absurd (ground arith)
remove_connection-append from (some c ∷ cs) h = ground (arith, remove_connection-append from cs h.1)

-- A stream that opens and is removed again, from an address from which no other stream is, leaves
-- the streams and the connections of the device as they were, in order, and one more connection in
-- the total.
pub remove_stream_responder-open_stream :
    (address : ℕ) (from : Bytes) (d : DeviceSim)
    → HasNoStream address d.streams
    → HasNoConnection from d.device.connections
    → remove_stream_responder (new_stream address (some from)) (open_stream address (some from) d)
      ≡ done (record d {
        device = record d.device { total_connections = suc d.device.total_connections };
      })
unfolding remove_stream_responder open_stream add_stream_responder
remove_stream_responder-open_stream address from d no_stream no_connection = ground (
  arith,
  remove_stream-append (new_stream address (some from)) d.streams no_stream,
  remove_connection-append from d.device.connections no_connection,
)

any_master-nil_pointer :
    (winner : ElectionId) (before after : List Stream) (st : Stream)
    → All (λ s. stream_is_master none winner s ≡ checked false) before
    → st.role ≡ none
    → st.election_id ≡ none
    → any_master none winner (before ++ st ∷ after) ≡ nil_pointer
unfolding any_master
any_master-nil_pointer winner [] after st h role id =
    let crash : stream_is_master none winner st ≡ nil_pointer =
      unfold stream_is_master in (ground arith) in
    ground arith
any_master-nil_pointer winner (s ∷ before) after st h role id =
    ground (arith, any_master-nil_pointer winner before after st h.1 role id)

-- An arbitration for the nil role that elects an id panics, if it meets a stream that has sent no
-- arbitration yet before the stream of that id.
pub arbitrate_panics :
    (id winner : ElectionId) (elections : Elections) (before after : List Stream) (st : Stream)
    (d : DeviceSim)
    → d.streams ≡ before ++ st ∷ after
    → record_role_election [] (some id) d.elections ≡ checked (elections, some winner)
    → All (λ s. stream_is_master none winner s ≡ checked false) before
    → st.role ≡ none
    → st.election_id ≡ none
    → arbitrate none (some id) d ≡ panic
unfolding arbitrate run_arbitration notify_streams fail_code
arbitrate_panics id winner elections before after st d split recorded h role no_id =
    let crash : any_master none winner d.streams ≡ nil_pointer =
      rw split (any_master-nil_pointer winner before after st h role no_id) in
    rw (recorded, arbitrate) (ground arith)
