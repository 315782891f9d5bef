-- ===== src/Fd/Api.antt =====
-- What fd.rs takes from modules that the crate does not have: the trait `Transfer`, by its
-- accessors, and the constructors of `InternalRxFrame`.
use cyphal_rs.Base.{ℕ, Bool, Option, List}
use cyphal_rs.Types.{NodeId, PortId, TransferId, Priority, TransferKind}

pub record FdApi : Type 1 where
  pub Timestamp : Type 0
  pub Transfer : Type 0
  pub timestamp : Transfer → Timestamp
  pub priority : Transfer → Priority
  pub transfer_kind : Transfer → TransferKind
  pub port_id : Transfer → PortId
  pub remote_node_id : Transfer → Option NodeId
  pub transfer_id : Transfer → TransferId
  pub payload : Transfer → List ℕ
  pub InternalRxFrame : Type 0
  pub as_service :
      (timestamp : Timestamp) (priority : Priority) (transfer_kind : TransferKind)
      (service_id : PortId) (source destination : NodeId) (transfer_id : TransferId)
      (start_of_transfer end_of_transfer : Bool) (payload : List ℕ)
      → InternalRxFrame
  pub as_message :
      (timestamp : Timestamp) (priority : Priority) (subject_id : PortId) (source : Option NodeId)
      (transfer_id : TransferId) (start_of_transfer end_of_transfer : Bool) (payload : List ℕ)
      → InternalRxFrame
