-- ===== src/Types.antt =====
-- The data that every part shares: cyphal/src/lib.rs, cyphal/src/types.rs and
-- cyphal/src/transfer/mod.rs. A `u8` or a `u16` is a native number.
pub mod Hashing
pub mod Sessions
use cyphal_rs.Base.{ℕ, ◌<◌, arith, Bool, true, false, Option, List, ◌==◌, ◌&&◌}

-- `NodeId` and `PortId` are `u16`, `TransferId` is `u8`.
abbrev pub NodeId : Type 0
NodeId = ℕ

abbrev pub PortId : Type 0
PortId = ℕ

abbrev pub TransferId : Type 0
TransferId = ℕ

-- The errors of reception.
pub data RxError : Type 0 where
  transfer_start_missing_toggle anon_not_single_frame non_last_under_utilization : RxError
  frame_empty invalid_can_id new_session_no_start timeout invalid_frame_ordering : RxError
  crc_error invalid_payload message_with_remote_id : RxError

-- The errors of transmission.
pub data TxError : Type 0 where
  anon_not_single_frame service_no_source_id service_no_destination_id : TxError

pub data Priority : Type 0 where
  exceptional immediate fast high nominal low slow optional : Priority

-- The discriminant, `priority as u8`.
abbrev pub priority_as_u8 : Priority → ℕ
priority_as_u8 exceptional = 0
priority_as_u8 immediate = 1
priority_as_u8 fast = 2
priority_as_u8 high = 3
priority_as_u8 nominal = 4
priority_as_u8 low = 5
priority_as_u8 slow = 6
priority_as_u8 optional = 7

pub priority-lt : (p : Priority) → priority_as_u8 p < 8
priority-lt exceptional = omega arith
priority-lt _ = omega arith

pub data TransferKind : Type 0 where
  message response request : TransferKind

-- The discriminant, `transfer_kind as u8`.
abbrev pub kind_as_u8 : TransferKind → ℕ
kind_as_u8 message = 0
kind_as_u8 response = 1
kind_as_u8 request = 2

-- The derived `==` of `TransferKind`.
abbrev pub kind_eq : TransferKind → TransferKind → Bool
kind_eq a b = kind_as_u8 a == kind_as_u8 b

-- Errors of a transfer's reception, which no code here returns.
pub data TransferError : Type 0 where
  out_of_space timeout new_session_no_start invalid_transfer_id bad_metadata : TransferError

-- `I` is the clock's instant.
pub record TransferMetadata (I : Type 0) : Type 0 where
  pub timestamp : I
  pub priority : Priority
  pub transfer_kind : TransferKind
  pub port_id : PortId
  pub source_node_id : Option NodeId
  pub destination_node_id : Option NodeId
  pub transfer_id : TransferId

-- `transfer::Frame`, one frame's share of a transfer.
pub record TransferFrame (I : Type 0) : Type 0 where
  pub metadata : TransferMetadata I
  pub payload : List ℕ
  pub first_frame : Bool
  pub last_frame : Bool

-- `Subscription`; the timeout is a number of milliseconds.
pub record Subscription : Type 0 where
  pub transfer_kind : TransferKind
  pub port_id : PortId
  pub extent : ℕ
  pub timeout : ℕ

-- `PartialEq for Subscription`.
abbrev pub subscription_eq : Subscription → Subscription → Bool
subscription_eq a b = kind_eq a.transfer_kind b.transfer_kind && (a.port_id == b.port_id)
