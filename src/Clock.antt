-- ===== src/Clock.antt =====
-- What the transfer managers take from the crate `embedded_time`: instants, and durations in the
-- units of the clock.
use cyphal_rs.Base.{ℕ, Bool, Option}

pub record Clock : Type 1 where
  pub Instant : Type 0
  pub Generic : Type 0
  -- `now - then`; `none` where that panics.
  pub since : Instant → Instant → Option Generic
  -- `Milliseconds(ms).to_generic(SCALING_FACTOR)`; `none` for a `ConversionError`.
  pub to_generic : ℕ → Option Generic
  -- `a > b`.
  pub longer : Generic → Generic → Bool
