-- ===== src/Node/Data.antt =====
-- The data of cyphal/src/node.rs, and the start of a transmission.
use cyphal_rs.Base.{ℕ, Option, none, some, List, Result}
use cyphal_rs.Clock.{Clock}
use cyphal_rs.Manager.{TransferManager, TokenAccessError, CreateTransferError, InternalOrUserError}
use cyphal_rs.Transport.{Transport}
use cyphal_rs.Types.{
  NodeId, PortId, TransferId, Priority, TransferKind, message, request, response, TransferMetadata,
  TxError,
}

pub data TransmitFrameError : Type 0 where
  token_error : TokenAccessError → TransmitFrameError
  tx_error : TxError → TransmitFrameError
  invalid_handling : TransmitFrameError

pub data TransmissionType : Type 0 where
  request_to response_to : NodeId → TransmissionType
  broadcast : TransmissionType

abbrev pub transfer_kind_of : TransmissionType → TransferKind
transfer_kind_of (response_to id) = response
transfer_kind_of (request_to id) = request
transfer_kind_of broadcast = message

abbrev pub destination_of : TransmissionType → Option NodeId
destination_of (response_to id) = some id
destination_of (request_to id) = some id
destination_of broadcast = none

module _ {clock : Clock} {T : Transport clock.Instant} (M : TransferManager clock T) where
  pub record Node : Type 0 where
    pub id : Option NodeId
    pub transfer_manager : M.Manager

  -- `Node::new`.
  abbrev pub new : Option NodeId → M.Manager → Node
  new id session_manager = record { id = id; transfer_manager = session_manager }

  -- The metadata that `start_tx_transfer` makes.
  abbrev pub tx_metadata :
      Node
      → clock.Instant
      → Priority
      → PortId
      → TransmissionType
      → TransferId
      → TransferMetadata clock.Instant
  tx_metadata node timestamp priority port_id tx_kind transfer_id = record {
    timestamp = timestamp;
    priority = priority;
    transfer_kind = transfer_kind_of tx_kind;
    port_id = port_id;
    source_node_id = node.id;
    destination_node_id = destination_of tx_kind;
    transfer_id = transfer_id;
  }

  unfoldable pub start_tx_transfer :
      {E : Type 0}
      → Node
      → ℕ
      → clock.Instant
      → Priority
      → PortId
      → TransmissionType
      → TransferId
      → (List ℕ → List ℕ × Result E ℕ)
      → Node × Result (InternalOrUserError CreateTransferError E) M.TxToken
  start_tx_transfer node requested_buffer_size timestamp priority port_id tx_kind transfer_id cb =
      let (manager, result) =
        M.create_transmission node.transfer_manager requested_buffer_size
          (tx_metadata node timestamp priority port_id tx_kind transfer_id) cb in
      (record node { transfer_manager = manager }, result)
