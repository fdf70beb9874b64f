-- ===== src/Entries/Buffer/Batches.antt =====
-- The batches that a read sends.
use mathlib.Core.List.{flatten, append_assoc, append-nil}
use fabric_sim.Prelude.{
  ◌<◌, ◌≡◌, refl, ◌∙◌, ap, none, some, List, [], ◌∷◌, ◌++◌, length, length-append, arith,
  Bool-cases, Option-cases, inl, inr, if◌then◌else◌, nat_eq, ◌==◌,
}
use fabric_sim.Outcome.{Error, done, failed, ◌>>=◌}
use fabric_sim.Entries.Buffer.{
  capacity, BatchSender, Buffer, new_buffer, flush, send_entity, send_entities, read_entities,
}

module _ {ℓ} {E : Type ℓ} where
  -- Full batches and then one that is not full.
  abbrev pub Batched : List (List E) → Type 0
  Batched [] = ⊥
  Batched (b ∷ []) = length b < capacity
  Batched (b ∷ c ∷ bs) = (length b ≡ capacity) × Batched (c ∷ bs)

  -- What the buffer holds and what is to come, in batches behind those already sent.
  pub record IsSentFrom (b : Buffer E) (es : List E) (after : Buffer E) : Type ℓ where
    pub batches : List (List E)
    pub emptied : after.entities ≡ []
    pub behind : after.sent ≡ b.sent ++ batches
    pub complete : flatten batches ≡ b.entities ++ es
    pub batched : Batched batches

  Batched-cons :
      (b : List E) (bs : List (List E)) → length b ≡ capacity → Batched bs → Batched (b ∷ bs)
  Batched-cons b (c ∷ bs) full rest = (full, rest)
  Batched-cons b [] full rest = elim rest [ ]

  flush-accepted :
      (sender : BatchSender E) (b : Buffer E)
      → sender b.sent b.entities ≡ none
      → flush sender b ≡ done (record { entities = []; sent = b.sent ++ b.entities ∷ [] })
  unfolding flush
  flush-accepted sender b h = rw (h, flush)

  flush-given :
      (sender : BatchSender E) (b : Buffer E) {y : Error}
      → sender b.sent b.entities ≡ some y
      → flush sender b ≡ failed y (record { entities = []; sent = b.sent ++ b.entities ∷ [] })
  unfolding flush
  flush-given sender b h = rw (h, flush)

  send_entity_eq :
      (sender : BatchSender E) (e : E) (b : Buffer E)
      → send_entity sender e b ≡ (
          if length (b.entities ++ e ∷ []) == capacity
          then flush sender (record b { entities = b.entities ++ e ∷ [] })
          else done (record b { entities = b.entities ++ e ∷ [] }))
  unfolding send_entity
  send_entity_eq sender e b = refl

  -- One entity: the buffer grows, or is sent when it is full.
  send_entity_lem :
      (sender : BatchSender E) (e : E) (b : Buffer E)
      → ((sent : List (List E)) (batch : List E) → sender sent batch ≡ none)
      → send_entity sender e b ≡ (
          if length (b.entities ++ e ∷ []) == capacity
          then done (record { entities = []; sent = b.sent ++ (b.entities ++ e ∷ []) ∷ [] })
          else done (record b { entities = b.entities ++ e ∷ [] }))
  unfolding send_entity
  send_entity_lem sender e b accepts = rw (
      flush-accepted sender (record b { entities = b.entities ++ e ∷ [] })
        (accepts b.sent (b.entities ++ e ∷ [])))

  send_entities-flush :
      (sender : BatchSender E) (es : List E) (b : Buffer E)
      → ((sent : List (List E)) (batch : List E) → sender sent batch ≡ none)
      → length b.entities < capacity
      → (after : Buffer E) × ((send_entities sender es b >>= flush sender) ≡ done after)
        × IsSentFrom b es after
  unfolding send_entities flatten
  send_entities-flush sender [] b accepts small = (
    record { entities = []; sent = b.sent ++ b.entities ∷ [] },
    flush-accepted sender b (accepts b.sent b.entities),
    record {
      batches = b.entities ∷ [];
      emptied = refl;
      behind = refl;
      complete = refl;
      batched = small;
    },
  )
  send_entities-flush sender (e ∷ es) b accepts small =
      elim (Bool-cases (length (b.entities ++ e ∷ []) == capacity)) [
        | inl full ↦
            let next : Buffer E = record {
              entities = [];
              sent = b.sent ++ (b.entities ++ e ∷ []) ∷ [];
            } in
            let (after, run, sent) = send_entities-flush sender es next accepts (omega arith) in
            (
              after,
              rw (send_entity_lem sender e b accepts, full) run,
              record {
                batches = (b.entities ++ e ∷ []) ∷ sent.batches;
                emptied = sent.emptied;
                behind =
                    sent.behind ∙ append_assoc b.sent ((b.entities ++ e ∷ []) ∷ []) sent.batches;
                complete =
                    ap (λ (l : List E). (b.entities ++ e ∷ []) ++ l) sent.complete
                    ∙ append_assoc b.entities (e ∷ []) es;
                batched =
                    Batched-cons (b.entities ++ e ∷ []) sent.batches (ground arith) sent.batched;
              },
            )
        | inr room ↦
            let next : Buffer E = record b { entities = b.entities ++ e ∷ [] } in
            let (after, run, sent) =
              send_entities-flush sender es next accepts
                (ground (arith, length-append b.entities (e ∷ []))) in
            (
              after,
              rw (send_entity_lem sender e b accepts, room) run,
              record {
                batches = sent.batches;
                emptied = sent.emptied;
                behind = sent.behind;
                complete = sent.complete ∙ append_assoc b.entities (e ∷ []) es;
                batched = sent.batched;
              },
            )
      ]

  -- With a sender that takes every batch, a read of the entities sends each of them once and in
  -- order, in full batches and one last batch that is not full and may be empty.
  pub read_entities-batches :
      (sender : BatchSender E) (es : List E) (sent : List (List E))
      → ((past : List (List E)) (batch : List E) → sender past batch ≡ none)
      → (after : Buffer E) × (batches : List (List E)) × (read_entities sender es sent ≡ done after)
        × (after.sent ≡ sent ++ batches)
        × (flatten batches ≡ es)
        × Batched batches
  unfolding read_entities new_buffer
  read_entities-batches sender es sent accepts =
      let (after, run, s) = send_entities-flush sender es (new_buffer sent) accepts (omega arith) in
      (after, s.batches, run, s.behind, s.complete, s.batched)

  -- A read that was cut short by the sender's error.
  pub record IsCutShort (sender : BatchSender E) (b : Buffer E) (es : List E) (x : Error)
      (after : Buffer E) : Type ℓ where
    pub before : List (List E)
    pub last : List E
    pub rest : List E
    pub answer : sender (b.sent ++ before) last ≡ some x
    pub behind : after.sent ≡ (b.sent ++ before) ++ last ∷ []
    pub in_order : flatten before ++ last ++ rest ≡ b.entities ++ es

  flush_failed :
      (sender : BatchSender E) (b : Buffer E) {x : Error} {after : Buffer E}
      → flush sender b ≡ failed x after
      → (sender b.sent b.entities ≡ some x) × (after.sent ≡ b.sent ++ b.entities ∷ [])
  unfolding flush
  flush_failed sender b h = ground arith

  flush-IsCutShort :
      (sender : BatchSender E) (b : Buffer E) (es : List E) {x : Error} {after : Buffer E}
      → flush sender b ≡ failed x after
      → IsCutShort sender b es x after
  unfolding flatten
  flush-IsCutShort sender b es {x} {after} h =
      let (answer, behind) = flush_failed sender b {x = x} {after = after} h in
      record {
        before = [];
        last = b.entities;
        rest = es;
        answer = rw append-nil answer;
        behind = rw append-nil behind;
        in_order = refl;
      }

  -- One more entity in the buffer, or one more batch behind it.
  IsCutShort-grown :
      (sender : BatchSender E) (b : Buffer E) (e : E) (es : List E) {x : Error} {after : Buffer E}
      → IsCutShort sender (record b { entities = b.entities ++ e ∷ [] }) es x after
      → IsCutShort sender b (e ∷ es) x after
  IsCutShort-grown sender b e es c = record {
    before = c.before;
    last = c.last;
    rest = c.rest;
    answer = c.answer;
    behind = c.behind;
    in_order = c.in_order ∙ append_assoc b.entities (e ∷ []) es;
  }

  IsCutShort-sent :
      (sender : BatchSender E) (b : Buffer E) (es : List E) {x : Error} {after : Buffer E}
      → IsCutShort sender (record { entities = []; sent = b.sent ++ b.entities ∷ [] }) es x after
      → IsCutShort sender b es x after
  unfolding flatten
  IsCutShort-sent sender b es c = record {
    before = b.entities ∷ c.before;
    last = c.last;
    rest = c.rest;
    answer = rw (← append_assoc b.sent (b.entities ∷ []) c.before) c.answer;
    behind = rw (← append_assoc b.sent (b.entities ∷ []) c.before) c.behind;
    in_order =
        simp append_assoc (ap (λ (l : List E). b.entities ++ l) (simp append_assoc at c.in_order));
  }

  send_entities-IsCutShort :
      (sender : BatchSender E) (es : List E) (b : Buffer E) {x : Error} {after : Buffer E}
      → (send_entities sender es b >>= flush sender) ≡ failed x after
      → IsCutShort sender b es x after
  unfolding send_entities
  send_entities-IsCutShort sender [] b h = flush-IsCutShort sender b [] h
  send_entities-IsCutShort sender (e ∷ es) b {x} {after} h =
      elim (Bool-cases (length longer.entities == capacity)) [
        | inr room ↦ IsCutShort-grown sender b e es (
            send_entities-IsCutShort sender es longer {x = x} {after = after}
              (rw (send_entity_eq sender e b, room) at h))
        | inl full ↦
            IsCutShort-grown sender b e es
              (elim (Option-cases (sender longer.sent longer.entities)) [
                | inl taken ↦ IsCutShort-sent sender longer es (
                    send_entities-IsCutShort sender es _ {x = x} {after = after} (
                      rw (send_entity_eq sender e b, full, flush-accepted sender longer taken) at
                        h))
                | inr (y, given) ↦ flush-IsCutShort sender longer es {x = x} {after = after} (
                    flush-given sender longer given
                    ∙ (rw (send_entity_eq sender e b, full, flush-given sender longer given) at h))
              ])
      ]
    where
      longer : Buffer E
      longer = record b { entities = b.entities ++ e ∷ [] }

  -- A read that returns an error got it from the sender for the last batch that it gave it; the
  -- batches before it and that one are, in order, what the read had to send first.
  pub read_entities-IsCutShort :
      (sender : BatchSender E) (es : List E) (sent : List (List E)) {x : Error} {after : Buffer E}
      → read_entities sender es sent ≡ failed x after
      → IsCutShort sender (new_buffer sent) es x after
  unfolding read_entities
  read_entities-IsCutShort sender es sent {x} {after} h =
      send_entities-IsCutShort sender es (new_buffer sent) {x = x} {after = after} h
