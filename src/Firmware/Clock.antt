-- ===== src/Firmware/Clock.antt =====
-- The clock of examples/embedded/src/clock.rs: a counter of the interrupts of a timer.
use cyphal_rs.Base.{ℕ, Bool, true, ◌+◌, ◌%◌, ◌^◌, Option, none, some, Result, ok}

-- The timer of `stm32g4xx_hal`, with a frequency of 1000 Hz and listening to its time-outs.
pub record Tim7 : Type 1 where
  pub CountDownTimer : Type 0
  pub listening : CountDownTimer
  pub clear_interrupt : CountDownTimer → CountDownTimer

module _ ⦃tim : Tim7⦄ where
  -- `CLOCK_COUNTER`, `TIMER_TIM7`, and whether the interrupt is unmasked.
  pub record Statics : Type 0 where
    pub clock_counter : ℕ
    pub timer_tim7 : Option tim.CountDownTimer
    pub unmasked : Bool

  abbrev pub cleared : Option tim.CountDownTimer → Option tim.CountDownTimer
  cleared none = none
  cleared (some timer) = some (tim.clear_interrupt timer)

  -- The interrupt handler; `fetch_add` wraps around.
  unfoldable pub tim7 : Statics → Statics
  tim7 s = record s {
    clock_counter = (s.clock_counter + 1) % 2 ^ 32;
    timer_tim7 = cleared s.timer_tim7;
  }

  -- `StmClock::new`.
  unfoldable pub new : Statics → Statics
  new s = record s { timer_tim7 = some tim.listening; unmasked = true }

  unfoldable pub try_now : {E : Type 0} → Statics → Result E ℕ
  try_now s = ok s.clock_counter
