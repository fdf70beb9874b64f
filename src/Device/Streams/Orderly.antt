-- ===== src/Device/Streams/Orderly.antt =====
-- The arbitration messages that a stream is sent.
use fabric_sim.Prelude.{
  ap, sym, ℕ, nat_eq, bytes_eq, ◌≢◌, Bytes, List, [], ◌∷◌, Bool, true, false, not, Option, none,
  some, if◌then◌else◌, ◌≡◌, refl, arith, All,
}
use fabric_sim.Device.Election.{
  ElectionId, Elections, Checked, checked, nil_pointer, record_role_election,
}
use fabric_sim.Device.Streams.{
  Role, Arbitration, Message, arbitration, packet_in, Stream, new_stream, same_role, same_code,
  election_status, send_arbitration, fail_code, role_name, notify, notify_streams, run_arbitration,
}

-- The newest code is the last one sent, and no code was sent twice in a row, packets aside.
abbrev pub NeverRepeats : Option ℕ → List Message → Type 0
NeverRepeats last [] = last ≡ none
NeverRepeats last (packet_in p ∷ ms) = NeverRepeats last ms
NeverRepeats last (arbitration m ∷ ms) =
    (last ≡ some m.status)
    × ((before : Option ℕ) × NeverRepeats before ms × (before ≢ some m.status))

unfoldable pub IsOrderly : Stream → Type 0
IsOrderly st = NeverRepeats st.sent_code st.sent

IsOrderly-if :
    (b : Bool) (x y : Stream)
    → IsOrderly x
    → (b ≡ false → IsOrderly y)
    → IsOrderly (if b then x else y)
IsOrderly-if true x y p q = p
IsOrderly-if false x y p q = q refl

other_code : (last : Option ℕ) (code : ℕ) → same_code last code ≡ false → last ≢ some code
other_code none code h e = cc
other_code (some c) code h e = ground (arith, nat_eq.beq_iff c code)

pub new_stream-IsOrderly :
    (address : ℕ) (connection : Option Bytes) → IsOrderly (new_stream address connection)
unfolding IsOrderly
new_stream-IsOrderly address connection = refl

sent_once :
    (st : Stream) (code : ℕ) (m : Arbitration)
    → m.status ≡ code
    → IsOrderly st
    → same_code st.sent_code code ≡ false
    → IsOrderly (record st { sent_code = some code; sent = arbitration m ∷ st.sent })
unfolding IsOrderly
sent_once st code m e v new =
    (ap some (sym e), (st.sent_code, v, rw e (other_code st.sent_code code new)))

send_arbitration-IsOrderly :
    (role : Option Role) (master : Option ElectionId) (code : ℕ) (st : Stream)
    → IsOrderly st
    → IsOrderly (send_arbitration role master code st)
unfolding send_arbitration
send_arbitration-IsOrderly role master code st v =
    let status = election_status master code st in
    let message : Arbitration = record {
      device_id = st.device_id;
      role = st.role;
      election_id = master;
      status = status;
    } in
    let after : Stream = record st {
      sent_code = some status;
      sent = arbitration message ∷ st.sent;
    } in
    IsOrderly-if (not (same_role role st.role)) st
      (if same_code st.sent_code status then st else after) v
      (λ same.
        IsOrderly-if (same_code st.sent_code status) st after v
          (sent_once st status message refl v))

notify-IsOrderly :
    (role : Option Role) (master : Option ElectionId) (code : ℕ) (sts : List Stream)
    → All IsOrderly sts
    → All IsOrderly (notify role master code sts)
unfolding notify
notify-IsOrderly role master code [] v = v
notify-IsOrderly role master code (st ∷ sts) v =
    (send_arbitration-IsOrderly role master code st v.0, notify-IsOrderly role master code sts v.1)

notify_streams-IsOrderly :
    (role : Option Role) (after s' : Elections) (master : Option ElectionId)
    (sts sts' : List Stream)
    → notify_streams role (after, master) sts ≡ checked (s', sts')
    → All IsOrderly sts
    → All IsOrderly sts'
unfolding notify_streams
notify_streams-IsOrderly role after s' master sts sts' h v = go (fail_code role master sts) h
  where
    go :
        (c : Checked ℕ)
        → ◌≡◌ {A = Checked (Elections × List Stream)}
            (elim c [
              | nil_pointer ↦ nil_pointer
              | checked code ↦ checked (after, notify role master code sts)
            ])
            (checked (s', sts'))
        → All IsOrderly sts'
    go nil_pointer g = cc
    go (checked code) g =
        let same : sts' ≡ notify role master code sts = ground arith in
        rw same (notify-IsOrderly role master code sts v)

-- An arbitration that returns never sends a stream the code that it was sent last: on every stream
-- that was so before, the code that is kept is that of the newest message, and no two messages in a
-- row have one code.
pub run_arbitration-IsOrderly :
    (role : Option Role) (id : Option ElectionId) (s s' : Elections) (sts sts' : List Stream)
    → run_arbitration role id s sts ≡ checked (s', sts')
    → All IsOrderly sts
    → All IsOrderly sts'
unfolding run_arbitration
run_arbitration-IsOrderly role id s s' sts sts' h v =
    go (record_role_election (role_name role) id s) h
  where
    go :
        (c : Checked (Elections × Option ElectionId))
        → ◌≡◌ {A = Checked (Elections × List Stream)}
            (elim c [
              | nil_pointer ↦ nil_pointer
              | checked recorded ↦ notify_streams role recorded sts
            ])
            (checked (s', sts'))
        → All IsOrderly sts'
    go nil_pointer g = cc
    go (checked (after, master)) g = notify_streams-IsOrderly role after s' master sts sts' g v
