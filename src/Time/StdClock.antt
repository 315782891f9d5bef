-- ===== src/Time/StdClock.antt =====
-- `StdClock` of cyphal/src/time.rs. An `Instant` of `std::time` is a number of nanoseconds; its
-- difference to a later one is zero. An instant of `embedded_time` is the number of its ticks.
use cyphal_rs.Base.{
  ℕ, ◌-◌, ◌/◌, ◌^◌, ◌≤◌, ◌<◌, ◌≡◌, refl, ltb, if◌then◌else◌, Result, ok, err, ◌+◌, ◌*◌, true, false,
  arith,
}

pub record StdClock : Type 0 where
  pub start : ℕ

-- `StdClock::new` at the time `now`.
abbrev pub new : ℕ → StdClock
new now = record { start = now }

-- `embedded_time::clock::Error::Unspecified`.
module _ {E : Type 0} (unspecified : E) where
  -- `try_now` at the time `now`: microseconds in a `u64`.
  unfoldable pub try_now : StdClock → ℕ → Result E ℕ
  try_now clock now =
      let time_passed = (now - clock.start) / 1000 in
      if ltb time_passed (2 ^ 64) then ok time_passed else err unspecified

  -- A clock that is made at the time `made` reads zero then. Later, `try_now` answers the whole
  -- microseconds since, as long as they fit 64 bits, and an error from then on; what it answers does
  -- not fall.
  pub try_now-new :
      (made first later late : ℕ)
      → made ≤ first
      → first ≤ later
      → later - made < 2 ^ 64 * 1000
      → made + 2 ^ 64 * 1000 ≤ late
      → (before after : ℕ) × (try_now (new made) made ≡ ok 0)
        × (try_now (new made) first ≡ ok before)
        × (try_now (new made) later ≡ ok after)
        × (before ≤ after)
        × (after * 1000 ≤ later - made)
        × (later - made < after * 1000 + 1000)
        × (try_now (new made) late ≡ err unspecified)
  unfolding try_now
  try_now-new made first later late h h' small long =
      let none : made - made ≡ 0 = omega arith in
      let fits : ltb ((first - made) / 1000) (2 ^ 64) ≡ true = ground arith in
      let fits' : ltb ((later - made) / 1000) (2 ^ 64) ≡ true = ground arith in
      let over : ltb ((late - made) / 1000) (2 ^ 64) ≡ false = ground arith in
      (
        (first - made) / 1000,
        (later - made) / 1000,
        rw (try_now, none) refl,
        rw (try_now, fits) refl,
        rw (try_now, fits') refl,
        omega arith,
        omega arith,
        omega arith,
        rw (try_now, over) refl,
      )
