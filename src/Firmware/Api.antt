-- ===== src/Firmware/Api.antt =====
-- What examples/embedded/src/main.rs uses of the crates `stm32g4xx_hal` and `nb`. It is a parameter.
use cyphal_rs.Base.{ℕ, Bool, Option, List, Result}

-- `nb::Error`.
pub data NbError : Type 0 where
  would_block other : NbError

pub data FrameFormat : Type 0 where
  standard fdcan : FrameFormat

pub record TxFrameHeader (Identifier : Type 0) : Type 0 where
  pub bit_rate_switching : Bool
  pub frame_format : FrameFormat
  pub id : Identifier
  pub len : ℕ
  pub marker : Option ℕ

-- `FdCan::transmit` hands the words of a buffer of the device to the closure, or would block.
pub record Hal : Type 1 where
  pub FdCan : Type 0
  pub ExtendedId : Type 0
  pub extended_id : ℕ → Option ExtendedId
  pub transmit :
      FdCan
      → TxFrameHeader ExtendedId
      → (List ℕ → Result NbError (List ℕ))
      → FdCan × Result NbError (Unit {0})
