-- ===== src/Device/Read.antt =====
-- ProcessRead and processRead of pkg/simulator/device.go.
use mathlib.Core.List.{Memᴰ}
use fabric_sim.Prelude.{suc, ◌≡◌, refl, length, arith, ℕ, List, [], ◌∷◌, Option, none, some}
use fabric_sim.Outcome.{Error, Outcome, done, failed, panic}
use fabric_sim.Entries.Message.{
  TableEntry, DirectCounterEntry, DirectMeterEntry, Entity, ReplicationEntry,
}
use fabric_sim.Entries.Buffer.{BatchSender}
use fabric_sim.Entries.Tables.{
  read_table_entry, read_direct_counter, read_direct_meter, read_table_entries,
}
use fabric_sim.Entries.Profile.{read_members, read_groups}
use fabric_sim.Entries.Replication.{read_multicasts, read_clone_sessions}
use fabric_sim.Device.Pipeline.{Stores}

-- request.GetTableEntry()
abbrev pub get_table_entry : Entity → Option TableEntry
get_table_entry (Entity.table_entry e) = some e
get_table_entry _ = none

-- processRead, where the stores are set; the state is what the sender was given. Counters and
-- meters are not read, and the two direct kinds pass the request's table entry on.
unfoldable pub process_read :
    Entity → BatchSender Entity → Stores → List (List Entity) → Outcome (List (List Entity))
process_read (Entity.table_entry e) sender s sent =
    read_table_entries (get_table_entry (Entity.table_entry e)) read_table_entry sender s.tables
      sent
process_read (Entity.direct_counter_entry d) sender s sent =
    read_table_entries (get_table_entry (Entity.direct_counter_entry d)) read_direct_counter sender
      s.tables sent
process_read (Entity.direct_meter_entry d) sender s sent =
    read_table_entries (get_table_entry (Entity.direct_meter_entry d)) read_direct_meter sender
      s.tables sent
process_read (Entity.action_profile_group g) sender s sent = read_groups g sender s.profiles sent
process_read (Entity.action_profile_member m) sender s sent = read_members m sender s.profiles sent
process_read (Entity.replication_entry (ReplicationEntry.multicast_group g)) sender s sent =
    read_multicasts sender s.pre sent
process_read (Entity.replication_entry (ReplicationEntry.clone_session c)) sender s sent =
    read_clone_sessions sender s.pre sent
process_read _ sender s sent = done sent

-- errors[i] = ...
abbrev pub with_result :
    Option Error
    → Option (List (Option Error) × List (List Entity))
    → Option (List (Option Error) × List (List Entity))
with_result r none = none
with_result r (some (rs, sent)) = some (r ∷ rs, sent)

-- The loop of ProcessRead: one error, or nil, for each request; a failed request does not stop
-- the others. The result is absent when one panics.
unfoldable pub process_reads :
    List Entity
    → BatchSender Entity
    → Stores
    → List (List Entity)
    → Option (List (Option Error) × List (List Entity))
unfolding process_read
process_reads [] sender s sent = some ([], sent)
process_reads (e ∷ es) sender s sent = elim (process_read e sender s sent) [
  | panic ↦ none
  | done after ↦ with_result none (process_reads es sender s after)
  | failed x after ↦ with_result (some x) (process_reads es sender s after)
]

-- The entity of a direct counter or of a direct meter.
pub data IsDirect : Entity → Type 0 where
  of_counter : (d : DirectCounterEntry) → IsDirect (Entity.direct_counter_entry d)
  of_meter : (d : DirectMeterEntry) → IsDirect (Entity.direct_meter_entry d)

-- A read request that names a direct counter or a direct meter anywhere never returns, whatever else
-- it names, the stores hold and the sender answers: the table entry that is passed on for it is
-- nil, and its table id is read.
pub process_reads-direct_crashes :
    (e : Entity) (es : List Entity) (sender : BatchSender Entity) (s : Stores)
    (sent : List (List Entity))
    → Memᴰ e es
    → IsDirect e
    → process_reads es sender s sent ≡ none
unfolding process_reads process_read read_table_entries
process_reads-direct_crashes e [] sender s sent m h = elim m [ ]
process_reads-direct_crashes e (x ∷ es) sender s sent (Memᴰ.head same) (of_counter d) =
    rw (← same, process_reads) refl
process_reads-direct_crashes e (x ∷ es) sender s sent (Memᴰ.head same) (of_meter d) =
    rw (← same, process_reads) refl
process_reads-direct_crashes e (x ∷ es) sender s sent (Memᴰ.tail m) h =
    go (process_read x sender s sent) refl
      (λ after. process_reads-direct_crashes e es sender s after m h)
  where
    go :
        (o : Outcome (List (List Entity)))
        → process_read x sender s sent ≡ o
        → ((after : List (List Entity)) → process_reads es sender s after ≡ none)
        → process_reads (x ∷ es) sender s sent ≡ none
    go panic f rest = rw (f, process_reads) refl
    go (done after) f rest = rw (f, process_reads) (rw (rest after) refl)
    go (failed error after) f rest = rw (f, process_reads) (rw (rest after) refl)

length-with_result :
    (r : Option Error) (o : Option (List (Option Error) × List (List Entity))) (n : ℕ)
    (rs : List (Option Error)) (after : List (List Entity))
    → ((rs' : List (Option Error)) (sent : List (List Entity))
        → o ≡ some (rs', sent)
        → length rs' ≡ n)
    → with_result r o ≡ some (rs, after)
    → length rs ≡ suc n
length-with_result r none n rs after rest h = cc
length-with_result r (some (rs', sent)) n rs after rest h =
    let same : rs ≡ r ∷ rs' = ground arith in rw (same, rest rs' sent refl) refl

-- ProcessRead answers each request once, whatever the errors are.
pub length-process_reads :
    (es : List Entity) (sender : BatchSender Entity) (s : Stores) (sent : List (List Entity))
    (rs : List (Option Error)) (after : List (List Entity))
    → process_reads es sender s sent ≡ some (rs, after)
    → length rs ≡ length es
unfolding process_reads
length-process_reads [] sender s sent rs after h = let same : rs ≡ [] = ground arith in rw same refl
length-process_reads (e ∷ es) sender s sent rs after h =
    go (length-process_reads es sender s) (process_read e sender s sent) h
  where
    go :
        ((sent' : List (List Entity)) (rs' : List (Option Error)) (after' : List (List Entity))
          → process_reads es sender s sent' ≡ some (rs', after')
          → length rs' ≡ length es)
        → (m : Outcome (List (List Entity)))
        → elim m [
          | panic ↦ none
          | done after' ↦ with_result none (process_reads es sender s after')
          | failed x after' ↦ with_result (some x) (process_reads es sender s after')
        ]
          ≡ some (rs, after)
        → length rs ≡ suc (length es)
    go rest panic g = cc
    go rest (done after') g =
        length-with_result none (process_reads es sender s after') (length es) rs after
          (rest after') g
    go rest (failed x after') g =
        length-with_result (some x) (process_reads es sender s after') (length es) rs after
          (rest after') g
