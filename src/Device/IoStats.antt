-- ===== src/Device/IoStats.antt =====
-- The I/O counters of a device: UpdateIOStats and addAndResetStats of pkg/simulator/device.go. The
-- counters are 32 bits wide and wrap around; `now` is the time that the clock gives.
use fabric_sim.Prelude.{ℕ, ◌+◌, ◌%◌, ◌^◌, Bool, if◌then◌else◌}

-- misc.IOStats
pub record IoStats : Type 0 where
  pub in_bytes : ℕ
  pub in_messages : ℕ
  pub out_bytes : ℕ
  pub out_messages : ℕ
  pub first_update_time : ℕ
  pub last_update_time : ℕ

-- Addition of uint32.
abbrev pub add32 : ℕ → ℕ → ℕ
add32 a b = (a + b) % 2 ^ 32

-- UpdateIOStats
unfoldable pub update_io_stats : ℕ → ℕ → Bool → IoStats → IoStats
update_io_stats now byte_count input s =
    if input
    then record s {
      in_messages = add32 s.in_messages 1;
      in_bytes = add32 s.in_bytes byte_count;
      last_update_time = now;
    }
    else record s {
      out_messages = add32 s.out_messages 1;
      out_bytes = add32 s.out_bytes byte_count;
      last_update_time = now;
    }

-- addAndResetStats: the device's counters and the total after it.
unfoldable pub add_and_reset_stats : ℕ → IoStats → IoStats → IoStats × IoStats
add_and_reset_stats now s total = (
  record s {
    in_bytes = 0;
    in_messages = 0;
    out_bytes = 0;
    out_messages = 0;
    first_update_time = now;
  },
  record total {
    in_bytes = add32 total.in_bytes s.in_bytes;
    in_messages = add32 total.in_messages s.in_messages;
    out_bytes = add32 total.out_bytes s.out_bytes;
    out_messages = add32 total.out_messages s.out_messages;
  },
)
