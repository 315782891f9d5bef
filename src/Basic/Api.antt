-- ===== src/Basic/Api.antt =====
-- What examples/basic/src/main.rs uses of the crates `socketcan` and `arrayvec`, and of the receiving
-- side of `uavcan`, as it was when the example was written. They are parameters.
use cyphal_rs.Base.{ℕ, Bool, Option, List, Result}
use cyphal_rs.Types.{TransferKind}
use cyphal_rs.Uavcan.{Uavcan}

-- Frames with a time of the type `Instant`, and their reception.
pub record Receiving (u : Uavcan) (Instant : Type 0) : Type 1 where
  pub ExtendedId : Type 0
  pub extended_id : ℕ → Option ExtendedId
  pub ArrayVec : Type 0
  pub array_new : ArrayVec
  pub extend : ArrayVec → List ℕ → ArrayVec
  pub can_frame : Instant → ExtendedId → ArrayVec → u.Frame
  pub Error : Type 0
  pub try_receive_frame : u.Node → u.Frame → u.Node × Result Error (Option u.Transfer)
  pub transfer_kind : u.Transfer → TransferKind
  pub transfer_payload : u.Transfer → List ℕ

pub record Socketcan : Type 1 where
  pub CanSocket : Type 0
  pub CanFrame : Type 0
  -- `read_frame().ok()`.
  pub read_frame : CanSocket → CanSocket × Option CanFrame
  pub id : CanFrame → ℕ
  -- `data()`.
  pub bytes : CanFrame → List ℕ
  -- `CANFrame::new`, with `rtr` and `err`.
  pub new : ℕ → List ℕ → Bool → Bool → Option CanFrame
  -- Whether the frame was written.
  pub write_frame : CanSocket → CanFrame → CanSocket × Bool
