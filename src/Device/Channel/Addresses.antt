-- ===== src/Device/Channel/Addresses.antt =====
-- Which streams a device has, by their addresses, as streams open, ask for mastership and close.
use fabric_sim.Prelude.{
  ℕ, nat_eq, bytes_eq, ◌==◌, beq_refl, Bytes, List, [], ◌∷◌, ◌++◌, false, Option, none, some,
  length, length-append, All, ◌≡◌, refl, sym, ap, ◌∙◌, arith, Bool-cases, Option-cases, inl, inr,
  if◌then◌else◌,
}
use fabric_sim.Outcome.{Leaves, returned, crashed}
use fabric_sim.Outcome.Rules.{Leaves-option, Leaves->>=, Leaves-mono}
use fabric_sim.Device.Pipeline.{PipelineConfig}
use fabric_sim.Device.Election.{
  ElectionId, Elections, Checked, checked, nil_pointer, record_role_election,
}
use fabric_sim.Device.Streams.{
  RoleAny, RoleConfig, Role, Stream, send, PacketIn, PacketMetadata, latch, send_arbitration,
  notify, fail_code, notify_streams, role_name, run_arbitration,
}
use fabric_sim.Device.State.{
  DeviceSim, add_stream_responder, remove_stream, remove_stream_responder, remove_connection,
}
use fabric_sim.Device.Packets.{PacketInMetadata, matches_metadata, deliver, send_packet_in}
use fabric_sim.Device.Channel.{
  arbitrate, find_stream, update_stream, open_stream, close_stream, request_mastership,
}

-- The addresses of the streams, in order.
abbrev pub addresses : List Stream → List ℕ
addresses [] = []
addresses (st ∷ sts) = st.address ∷ addresses sts

abbrev remove_address : ℕ → List ℕ → List ℕ
remove_address a [] = []
remove_address a (b ∷ bs) = if b == a then bs else b ∷ remove_address a bs

addresses-append :
    (sts : List Stream) (st : Stream)
    → addresses (sts ++ st ∷ []) ≡ addresses sts ++ st.address ∷ []
addresses-append [] st = refl
addresses-append (x ∷ sts) st = ap (λ as'. x.address ∷ as') (addresses-append sts st)

remove_address-append :
    (a : ℕ) (bs : List ℕ) → All (λ b. (b == a) ≡ false) bs → remove_address a (bs ++ a ∷ []) ≡ bs
remove_address-append a [] h = rw (beq_refl a) refl
remove_address-append a (b ∷ bs) h = rw h.0 (ap (λ as'. b ∷ as') (remove_address-append a bs h.1))

addresses-remove_stream :
    (a : ℕ) (sts : List Stream) → addresses (remove_stream a sts) ≡ remove_address a (addresses sts)
unfolding remove_stream
addresses-remove_stream a [] = refl
addresses-remove_stream a (st ∷ sts) = elim (Bool-cases (st.address == a)) [
  | inl here ↦ rw here refl
  | inr there ↦ rw there (ap (λ as'. st.address ∷ as') (addresses-remove_stream a sts))
]

find_stream_absent :
    (a : ℕ) (sts : List Stream)
    → find_stream a sts ≡ none
    → remove_address a (addresses sts) ≡ addresses sts
unfolding find_stream
find_stream_absent a [] h = refl
find_stream_absent a (st ∷ sts) h = elim (Bool-cases (st.address == a)) [
  | inl here ↦ absurd (ground (arith, h, here))
  | inr there ↦
      rw there (ap (λ as'. st.address ∷ as') (find_stream_absent a sts (ground (arith, h, there))))
]

find_stream_found :
    (a : ℕ) (sts : List Stream) (st : Stream) → find_stream a sts ≡ some st → st.address ≡ a
unfolding find_stream
find_stream_found a [] st h = absurd (ground (arith, h))
find_stream_found a (x ∷ sts) st h = elim (Bool-cases (x.address == a)) [
  | inl here ↦ ground (arith, h, here)
  | inr there ↦ find_stream_found a sts st (ground (arith, h, there))
]

pub addresses-deliver :
    (p : PacketIn) (sts : List Stream) → addresses (deliver p sts) ≡ addresses sts
unfolding deliver send
addresses-deliver p [] = refl
addresses-deliver p (st ∷ sts) =
    let rest = ap (λ as'. st.address ∷ as') (addresses-deliver p sts) in
    elim (Bool-cases (matches_metadata st.role_config p.metadata)) [
      | inl wanted ↦ rw wanted rest
      | inr unwanted ↦ rw unwanted rest
    ]

latch-address :
    (read_any : RoleAny → RoleConfig) (device_id : ℕ) (role : Option Role) (id : Option ElectionId)
    (st : Stream)
    → (latch read_any device_id role id st).address ≡ st.address
unfolding latch
latch-address read_any device_id none id st = refl
latch-address read_any device_id (some r) id st = elim (Option-cases r.config) [
  | inl unset ↦ rw unset refl
  | inr (any, set) ↦ rw set refl
]

addresses-update_stream :
    (read_any : RoleAny → RoleConfig) (device_id : ℕ) (role : Option Role) (id : Option ElectionId)
    (a : ℕ) (sts : List Stream)
    → addresses (update_stream (latch read_any device_id role id) a sts) ≡ addresses sts
unfolding update_stream
addresses-update_stream read_any device_id role id a [] = refl
addresses-update_stream read_any device_id role id a (st ∷ sts) =
    elim (Bool-cases (st.address == a)) [
      | inl here ↦
          rw here (ap (λ b. b ∷ addresses sts) (latch-address read_any device_id role id st))
      | inr there ↦
          rw there (
            ap (λ as'. st.address ∷ as') (addresses-update_stream read_any device_id role id a sts))
    ]

send_arbitration-address :
    (role : Option Role) (master : Option ElectionId) (code : ℕ) (st : Stream)
    → (send_arbitration role master code st).address ≡ st.address
unfolding send_arbitration send
send_arbitration-address role master code st = ground arith

addresses-notify :
    (role : Option Role) (master : Option ElectionId) (code : ℕ) (sts : List Stream)
    → addresses (notify role master code sts) ≡ addresses sts
unfolding notify
addresses-notify role master code [] = refl
addresses-notify role master code (st ∷ sts) =
    ap (λ b. b ∷ addresses (notify role master code sts))
      (send_arbitration-address role master code st)
    ∙ ap (λ as'. st.address ∷ as') (addresses-notify role master code sts)

-- A call of a device leaves it with the streams at these addresses.
abbrev pub HasStreams : List ℕ → DeviceSim → Type 0
HasStreams as' d = addresses d.streams ≡ as'

abbrev streams_or : List Stream → Checked (Elections × List Stream) → List Stream
streams_or sts nil_pointer = sts
streams_or sts (checked (elections, streams)) = streams

addresses-run_arbitration :
    (role : Option Role) (id : Option ElectionId) (elections : Elections) (sts : List Stream)
    → addresses (streams_or sts (run_arbitration role id elections sts)) ≡ addresses sts
unfolding run_arbitration notify_streams
addresses-run_arbitration role id elections sts =
    go (record_role_election (role_name role) id elections) refl
  where
    notified :
        (after : Elections) (master : Option ElectionId) (c : Checked ℕ)
        → fail_code role master sts ≡ c
        → addresses (streams_or sts (notify_streams role (after, master) sts)) ≡ addresses sts
    notified after master nil_pointer f = rw (f, notify_streams) refl
    notified after master (checked code) f =
        rw (f, notify_streams) (addresses-notify role master code sts)

    go :
        (c : Checked (Elections × Option ElectionId))
        → record_role_election (role_name role) id elections ≡ c
        → addresses (streams_or sts (run_arbitration role id elections sts)) ≡ addresses sts
    go nil_pointer e = rw (e, run_arbitration) refl
    go (checked (after, master)) e =
        rw (e, run_arbitration) (notified after master (fail_code role master sts) refl)

arbitrate-HasStreams :
    (role : Option Role) (id : Option ElectionId) (d : DeviceSim)
    → Leaves (HasStreams (addresses d.streams)) (arbitrate role id d)
unfolding arbitrate
arbitrate-HasStreams role id d = go (run_arbitration role id d.elections d.streams) refl
  where
    go :
        (c : Checked (Elections × List Stream))
        → run_arbitration role id d.elections d.streams ≡ c
        → Leaves (HasStreams (addresses d.streams)) (arbitrate role id d)
    go nil_pointer e = rw (e, arbitrate) crashed
    go (checked (elections, streams)) e =
        rw (e, arbitrate)
          (returned (
            ap (λ c. addresses (streams_or d.streams c)) (sym e)
            ∙ addresses-run_arbitration role id d.elections d.streams))

pub request_mastership-HasStreams :
    (read_any : RoleAny → RoleConfig) (a device_id : ℕ) (role : Option Role)
    (id : Option ElectionId) (as' : List ℕ) (d : DeviceSim)
    → HasStreams as' d
    → Leaves (HasStreams as') (request_mastership read_any a device_id role id d)
unfolding request_mastership
request_mastership-HasStreams read_any a device_id role id as' d h =
    Leaves-mono _
      (λ d' same. same ∙ addresses-update_stream read_any device_id role id a d.streams ∙ h)
      (arbitrate-HasStreams role id _)

-- The deferred function takes the stream away that was opened last.
pub close_stream-HasStreams :
    (a : ℕ) (as' : List ℕ) (d : DeviceSim)
    → All (λ b. (b == a) ≡ false) as'
    → HasStreams (as' ++ a ∷ []) d
    → Leaves (HasStreams as') (close_stream a d)
unfolding close_stream remove_stream_responder
close_stream-HasStreams a as' d new h =
    let removed : remove_address a (addresses d.streams) ≡ as' =
      ap (remove_address a) h ∙ remove_address-append a as' new in
    elim (Option-cases (find_stream a d.streams)) [
      | inl absent ↦
          let same : as' ≡ as' ++ a ∷ [] =
            sym removed ∙ find_stream_absent a d.streams absent ∙ h in
          absurd (omega (arith, ap length same, length-append as' (a ∷ [])))
      | inr (st, found) ↦
          rw (found, close_stream)
            (Leaves->>= (remove_stream_responder st d) (arbitrate st.role st.election_id)
              (Leaves-option (remove_connection st.connection d.device.connections) crashed
                (λ cs held. returned (
                  ap (λ b. addresses (remove_stream b d.streams))
                    (find_stream_found a d.streams st found)
                  ∙ addresses-remove_stream a d.streams
                  ∙ removed)))
              (λ d' k.
                Leaves-mono _ (λ d'' same. same ∙ k)
                  (arbitrate-HasStreams st.role st.election_id d')))
    ]

pub open_stream-HasStreams :
    (a : ℕ) (connection : Option Bytes) (as' : List ℕ) (d : DeviceSim)
    → HasStreams as' d
    → HasStreams (as' ++ a ∷ []) (open_stream a connection d)
unfolding open_stream add_stream_responder
open_stream-HasStreams a connection as' d h =
    addresses-append d.streams _ ∙ ap (λ bs. bs ++ a ∷ []) h

pub send_packet_in-addresses :
    (encode : PipelineConfig → PacketInMetadata → List PacketMetadata) (payload : Bytes)
    (md : PacketInMetadata) (d : DeviceSim)
    → addresses (send_packet_in encode payload md d).streams ≡ addresses d.streams
unfolding send_packet_in
send_packet_in-addresses encode payload md d = elim (Bool-cases d.pipeline.codec_set) [
  | inl set ↦ rw (set, send_packet_in) (addresses-deliver _ d.streams)
  | inr unset ↦ rw (unset, send_packet_in) refl
]
