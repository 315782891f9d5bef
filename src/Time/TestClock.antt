-- ===== src/Time/TestClock.antt =====
-- `TestClock` of cyphal/src/time.rs: a shared cell of ticks, which every clone points to.
use cyphal_rs.Base.{
  ℕ, zero, suc, ◌≡◌, ◌≢◌, refl, ap, some, List, [], ◌∷◌, ◌++◌, length, get_elem?, set, Result, ok,
  ◌>>=◌, unwrap,
}

-- What the clock takes from `embedded_time` and `num`: a type of ticks, a type of durations with
-- its conversion to the clock's scale, and the point in time that has so many ticks.
pub record Ticks : Type 1 where
  pub TickType : Type 0
  pub default : TickType
  pub wrapping_add : TickType → TickType → TickType
  pub Duration : Type 0
  pub ConversionError : Type 0
  -- `duration.to_generic(SCALING_FACTOR)?.integer()`, at a tick of a microsecond.
  pub to_ticks : Duration → Result ConversionError TickType
  pub Instant : Type 0
  pub instant : TickType → Instant

module _ ⦃t : Ticks⦄ where
  -- The cells that the `Rc`s point to, and a clock as the number of its cell.
  abbrev pub Cells : Type 0
  Cells = List t.TickType

  pub record TestClock : Type 0 where
    pub cell : ℕ

  abbrev pub default : Cells → Cells × TestClock
  default cells = (cells ++ (t.default ∷ []), record { cell = length cells })

  -- The sum is computed, and dropped.
  unfoldable pub add_ticks : {E : Type 0} → Cells → TestClock → t.TickType → Result E Cells
  add_ticks cells clock ticks = do
    tick_count ← unwrap (get_elem? cells clock.cell)
    let sum = t.wrapping_add tick_count ticks
    ok cells

  unfoldable pub add_duration : Cells → TestClock → t.Duration → Result t.ConversionError Cells
  add_duration cells clock duration = do
    tick_count ← unwrap (get_elem? cells clock.cell)
    ticks ← t.to_ticks duration
    ok (set cells clock.cell (t.wrapping_add tick_count ticks))

  abbrev pub to_owned : TestClock → TestClock
  to_owned clock = clock

  unfoldable pub try_now : {E : Type 0} → Cells → TestClock → Result E t.Instant
  try_now cells clock = do
    tick_count ← unwrap (get_elem? cells clock.cell)
    ok (t.instant tick_count)

  get_elem?-set :
      (cells : Cells) (i : ℕ) (old new : t.TickType)
      → get_elem? cells i ≡ some old
      → get_elem? (set cells i new) i ≡ some new
  get_elem?-set [] i old new e = cc
  get_elem?-set (x ∷ xs) zero old new e = refl
  get_elem?-set (x ∷ xs) (suc i) old new e = get_elem?-set xs i old new e

  get_elem?-set_other :
      (cells : Cells) (i j : ℕ) (new : t.TickType)
      → i ≢ j
      → get_elem? (set cells i new) j ≡ get_elem? cells j
  get_elem?-set_other [] i j new apart = refl
  get_elem?-set_other (x ∷ xs) zero zero new apart = absurd (apart refl)
  get_elem?-set_other (x ∷ xs) zero (suc j) new apart = refl
  get_elem?-set_other (x ∷ xs) (suc i) zero new apart = refl
  get_elem?-set_other (x ∷ xs) (suc i) (suc j) new apart =
      get_elem?-set_other xs i j new (λ e. apart (ap suc e))

  -- A duration that can be converted is added to the ticks of the clock: it and its clones then read
  -- the sum, and a clock with another cell reads what it did.
  try_now-add_duration :
      {E : Type 0} (cells : Cells) (clock other : TestClock) (duration : t.Duration)
      (old ticks : t.TickType)
      → get_elem? cells clock.cell ≡ some old
      → t.to_ticks duration ≡ ok ticks
      → clock.cell ≢ other.cell
      → (cells' : Cells) × (add_duration cells clock duration ≡ ok cells')
        × (try_now {E = E} cells' clock ≡ ok (t.instant (t.wrapping_add old ticks)))
        × (try_now {E = E} cells' (to_owned clock) ≡ try_now cells' clock)
        × (try_now {E = E} cells' other ≡ try_now cells other)
  unfolding add_duration try_now
  try_now-add_duration cells clock other duration old ticks found converted apart =
      let sum = t.wrapping_add old ticks in
      let here = get_elem?-set cells clock.cell old sum found in
      let there = get_elem?-set_other cells clock.cell other.cell sum apart in
      (
        set cells clock.cell sum,
        rw (add_duration, found, converted) refl,
        rw (try_now, here) refl,
        refl,
        rw (try_now, there) refl,
      )
