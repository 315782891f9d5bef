-- ===== src/Fd/Ids.antt =====
-- The CAN IDs of CAN FD, cyphal/src/transport/can/fd.rs, and of classic CAN,
-- cyphal/src/transport/can/legacy.rs.
use cyphal_rs.Base.{ℕ, ◌≡◌, refl, Bool, true, false, not, ◌&&◌, Option, leb, ltb, length, arith}
use cyphal_rs.Bitfields.CanMessageId
use cyphal_rs.Can.Transmit
use cyphal_rs.Crates.{Crates}
use cyphal_rs.Fd.Api.{FdApi}
use cyphal_rs.Fd.ArrayVec.{ArrayVec}
use cyphal_rs.Fd.Iterator.{frame_id, service_frame_id}
use cyphal_rs.Types.{NodeId, TransferMetadata, TransferKind, message, request, response, kind_eq}

module _ ⦃c : Crates⦄ ⦃v : ArrayVec⦄ ⦃api : FdApi⦄ where
  -- The metadata that classic CAN would have of the transfer.
  abbrev pub metadata_of : api.Transfer → Option NodeId → TransferMetadata api.Timestamp
  metadata_of transfer node_id = record {
    timestamp = api.timestamp transfer;
    priority = api.priority transfer;
    transfer_kind = api.transfer_kind transfer;
    port_id = api.port_id transfer;
    source_node_id = node_id;
    destination_node_id = api.remote_node_id transfer;
    transfer_id = api.transfer_id transfer;
  }

  over : (b : Bool) (n : ℕ) → (b && ltb 63 n) ≡ (not (leb n 63) && b)
  over b n = ground arith

  service_lem :
      (transfer : api.Transfer) (node_id : Option NodeId) (is_request : Bool)
      → kind_eq (api.transfer_kind transfer) request ≡ is_request
      → service_frame_id transfer node_id is_request
        ≡ Transmit.service_frame_id (metadata_of transfer node_id) node_id
  unfolding service_frame_id Transmit.service_frame_id
  service_lem transfer node_id is_request e = rw (← e) refl

  kind_lem :
      (transfer : api.Transfer) (node_id : Option NodeId) (kind : TransferKind)
      → api.transfer_kind transfer ≡ kind
      → frame_id transfer node_id
        ≡ Transmit.frame_id
            (metadata_of transfer node_id)
            (leb (length (api.payload transfer)) 63)
            node_id
  unfolding frame_id Transmit.frame_id
  kind_lem transfer node_id message e =
      let same = over (CanMessageId.is_none node_id) (length (api.payload transfer)) in
      rw (frame_id, Transmit.frame_id, e, same) refl
  kind_lem transfer node_id request e =
      let same = service_lem transfer node_id true (rw e refl) in
      rw (frame_id, Transmit.frame_id, e, same) refl
  kind_lem transfer node_id response e =
      let same = service_lem transfer node_id false (rw e refl) in
      rw (frame_id, Transmit.frame_id, e, same) refl

  -- For the same transfer and node, the CAN FD iterator takes the ID, or the error, that classic CAN
  -- gives a frame that is the last exactly when the payload has at most 63 bytes.
  frame_id_lem :
      (transfer : api.Transfer) (node_id : Option NodeId)
      → frame_id transfer node_id
        ≡ Transmit.frame_id
            (metadata_of transfer node_id)
            (leb (length (api.payload transfer)) 63)
            node_id
  frame_id_lem transfer node_id = kind_lem transfer node_id (api.transfer_kind transfer) refl
