-- ===== src/Device/Write/Batch.antt =====
-- A batch of updates that ProcessWrite is given.
use fabric_sim.Prelude.{ℕ, Bytes, List, ◌++◌, ◌≡◌}
use fabric_sim.Outcome.{Error, failed, ◌>>=◌}
use fabric_sim.Outcome.Each.{each-append, IsStopped, each_failed}
use fabric_sim.Device.Pipeline.{Pipeline}
use fabric_sim.Device.Write.{Update, process_update, process_write}

module _ (sha1 : Bytes → Bytes) (decode : Bytes → ℕ) where
  -- Two batches written one after the other are one batch, if the first returns no error; if it
  -- does, nothing of the second is written.
  pub process_write-append :
      (us vs : List Update) (p : Pipeline)
      → process_write sha1 decode (us ++ vs) p
        ≡ (process_write sha1 decode us p >>= process_write sha1 decode vs)
  unfolding process_write
  process_write-append us vs p = each-append (process_update sha1 decode) us vs p

  -- A batch that returns an error has written all updates before some update of it, in order, and
  -- the error and the state are those of that update: the earlier ones are not undone, and the
  -- later ones are not tried.
  pub process_write_failed :
      (us : List Update) (p : Pipeline) (e : Error) (p' : Pipeline)
      → process_write sha1 decode us p ≡ failed e p'
      → IsStopped (process_update sha1 decode) us p e p'
  unfolding process_write
  process_write_failed us p e p' h = each_failed (process_update sha1 decode) us p e p' h
