-- ===== src/Tests/Time.antt =====
-- The clocks at concrete times.
use cyphal_rs.Base.{ℕ, ◌+◌, ◌-◌, ◌*◌, ◌%◌, ◌^◌, ◌≤◌, ◌<◌, ◌≡◌, refl, [], ◌∷◌, ok, err, arith}
use cyphal_rs.Time.StdClock
use cyphal_rs.Time.StdClock.{try_now-new}
use cyphal_rs.Time.TestClock.{Ticks, TestClock, add_ticks, add_duration, to_owned, try_now}

data ClockError : Type 0 where
  unspecified : ClockError

-- Ticks of 32 bits, and milliseconds.
instance abbrev ticks : Ticks
ticks = record {
  TickType = ℕ;
  default = 0;
  wrapping_add = λ a b. (a + b) % 2 ^ 32;
  Duration = ℕ;
  ConversionError = ⊥;
  to_ticks = λ ms. ok (ms * 1000);
  Instant = ℕ;
  instant = λ n. n;
}

abbrev first_clock : TestClock
first_clock = record { cell = 0 }

-- `add_ticks` leaves the clock where it is.
add_ticks_dropped : add_ticks {E = ⊥} (5 ∷ (9 ∷ [])) first_clock 7 ≡ ok (5 ∷ (9 ∷ []))
unfolding add_ticks
add_ticks_dropped = refl

-- Two milliseconds are added, and a clone reads them.
add_duration_shared : add_duration (5 ∷ (9 ∷ [])) first_clock 2 ≡ ok (2005 ∷ (9 ∷ []))
unfolding add_duration
add_duration_shared = refl

try_now_shared : try_now {E = ⊥} (2005 ∷ (9 ∷ [])) (to_owned first_clock) ≡ ok 2005
unfolding try_now
try_now_shared = refl

try_now-new_example :
    (before after : ℕ) × (StdClock.try_now unspecified (StdClock.new 500) 500 ≡ ok 0)
    × (StdClock.try_now unspecified (StdClock.new 500) 2400 ≡ ok before)
    × (StdClock.try_now unspecified (StdClock.new 500) 9700 ≡ ok after)
    × (before ≤ after)
    × (after * 1000 ≤ 9700 - 500)
    × (9700 - 500 < after * 1000 + 1000)
    × (StdClock.try_now unspecified (StdClock.new 500) (1000 + 2 ^ 64 * 1000) ≡ err unspecified)
try_now-new_example =
    try_now-new unspecified 500 2400 9700 (1000 + 2 ^ 64 * 1000) (omega arith) (omega arith)
      (omega arith) (omega arith)
