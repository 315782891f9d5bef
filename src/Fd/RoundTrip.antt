-- ===== src/Fd/RoundTrip.antt =====
-- A CAN FD transfer of one frame, from `FdCanIter` to `rx_process_frame`,
-- cyphal/src/transport/can/fd.rs.
use cyphal_rs.Base.{
  ℕ, ◌%◌, ◌≤◌, ◌≡◌, refl, ap, ◌∙◌, Bool, Bool-cases, inl, inr, true, false, ◌&&◌, Option, some,
  none, ltb, [], ◌∷◌, ◌++◌, length, if◌then◌else◌, ok, arith,
}
use cyphal_rs.Bitfields.CanMessageId
use cyphal_rs.Bitfields.CanServiceId
use cyphal_rs.Bitfields.TailByte
use cyphal_rs.Crates.{Crates}
use cyphal_rs.Fd.Api.{FdApi}
use cyphal_rs.Fd.ArrayVec.{ArrayVec}
use cyphal_rs.Fd.Frame.{FdCanFrame}
use cyphal_rs.Fd.Iterator.{FdCanIter, frame_id, service_frame_id, new, advance}
use cyphal_rs.Fd.Padding.{size}
use cyphal_rs.Fd.Reading.{advance_exact, rx_process_frame_whole}
use cyphal_rs.Fd.Receive.{is_for, service_frame, message_frame, rx_process_frame}
use cyphal_rs.Fd.Single.{behind, tail_of, new-begun}
use cyphal_rs.Types.{
  NodeId, PortId, Priority, TransferKind, message, request, response, kind_eq, TxError,
}

-- What an ID holds of the sender.
abbrev pub low_bits : Option NodeId → Option NodeId
low_bits none = none
low_bits (some id) = some (id % 128)

module _ ⦃c : Crates⦄ ⦃v : ArrayVec⦄ ⦃api : FdApi⦄ where
  new-IsMessage :
      (transfer : api.Transfer) (node_id : Option NodeId) (it : FdCanIter)
      → api.transfer_kind transfer ≡ message
      → new transfer node_id ≡ ok it
      → CanMessageId.IsMessage
          (api.priority transfer)
          (api.port_id transfer)
          node_id
          (c.as_raw it.frame_id)
  unfolding frame_id
  new-IsMessage transfer node_id it kind made =
      let (id, named, same) = new-begun transfer node_id it made in
      let (id', named', read) =
        CanMessageId.new-IsMessage {E = TxError} (api.priority transfer) (api.port_id transfer)
          node_id in
      let equal : id' ≡ it.frame_id =
        elim (Bool-cases (CanMessageId.is_none node_id && ltb 63 (length (api.payload transfer)))) [
          | inl e ↦ absurd (ground arith)
          | inr e ↦
              let given : CanMessageId.new {E = TxError} (api.priority transfer)
                    (api.port_id transfer) node_id
                  ≡ ok id =
                ground arith in
              cc
        ] in
      rw (← equal) read

  message_frame_lem :
      (transfer : api.Transfer) (node_id : Option NodeId) (frame : FdCanFrame)
      → CanMessageId.IsMessage
          (api.priority transfer)
          (api.port_id transfer)
          node_id
          (c.as_raw frame.id)
      → message_frame frame (tail_of transfer)
        ≡ ok (
            some (
              api.as_message frame.timestamp
                (api.priority transfer)
                (api.port_id transfer % 8192)
                (low_bits node_id)
                (api.transfer_id transfer % 32)
                true
                true
                (v.items frame.payload)))
  unfolding message_frame
  message_frame_lem transfer none frame read =
      let (_, tail) = TailByte.new-IsTail true true true (api.transfer_id transfer) in
      let named = ap c.from_u8 read.priority_eq ∙ c.from_u8_lem (api.priority transfer) in
      rw
        (
          message_frame, read.is_anon_eq, read.valid_eq, read.subject_id_eq, named, tail.start_eq,
          tail.end_eq, tail.transfer_id_eq,
        )
        refl
  message_frame_lem transfer (some id) frame read =
      let (_, tail) = TailByte.new-IsTail true true true (api.transfer_id transfer) in
      let named = ap c.from_u8 read.priority_eq ∙ c.from_u8_lem (api.priority transfer) in
      rw
        (
          message_frame, read.is_anon_eq, read.valid_eq, read.subject_id_eq, read.source_id_eq,
          named, tail.start_eq, tail.end_eq, tail.transfer_id_eq,
        )
        refl

  no_service :
      {p : Priority} {subject : PortId} {source : Option NodeId} {raw : ℕ}
      → CanMessageId.IsMessage p subject source raw
      → CanServiceId.is_svc raw ≡ false
  unfolding CanServiceId.is_svc CanMessageId.is_svc
  no_service read = read.is_svc_eq

  -- A message of at most 48 bytes, as many as a CAN FD frame can have. The iterator that `new` makes
  -- goes on to a frame from which `rx_process_frame`, at any node, reads the message: its time, its
  -- priority, the low bits of its subject, of its sender, if it has one, and of its transfer ID; a
  -- start and an end; and its payload, behind which the tail byte is left.
  pub rx_process_frame-advance_message :
      {E : Type 0} (transfer : api.Transfer) (node_id receiver : Option NodeId) (it : FdCanIter)
      → api.transfer_kind transfer ≡ message
      → new transfer node_id ≡ ok it
      → length (api.payload transfer) ≤ 48
      → size (length (api.payload transfer)) ≡ length (api.payload transfer)
      → (frame : FdCanFrame) × (advance {E = E} it ≡ ok (behind transfer it.frame_id frame))
        × (rx_process_frame receiver frame
            ≡ ok (
                some (
                  api.as_message
                    (api.timestamp transfer)
                    (api.priority transfer)
                    (api.port_id transfer % 8192)
                    (low_bits node_id)
                    (api.transfer_id transfer % 32)
                    true
                    true
                    (api.payload transfer ++ (tail_of transfer ∷ [])))))
  rx_process_frame-advance_message {E} transfer node_id receiver it kind made short exact =
      let (frame, steps, at, named, all) =
        advance_exact {E = E} transfer node_id it made short exact in
      let read : CanMessageId.IsMessage (api.priority transfer) (api.port_id transfer) node_id
          (c.as_raw frame.id) =
        rw named (new-IsMessage transfer node_id it kind made) in
      let reads = message_frame_lem transfer node_id frame read in
      (
        frame,
        steps,
        rx_process_frame_whole receiver frame (api.payload transfer) transfer all
            ∙ rw (no_service read, reads, at, all) refl,
      )

  new-IsService :
      (transfer : api.Transfer) (source remote : NodeId) (it : FdCanIter) (is_request : Bool)
      → frame_id transfer (some source) ≡ service_frame_id transfer (some source) is_request
      → api.remote_node_id transfer ≡ some remote
      → new transfer (some source) ≡ ok it
      → CanServiceId.IsService
          (api.priority transfer)
          is_request
          (api.port_id transfer)
          remote
          source
          (c.as_raw it.frame_id)
  unfolding service_frame_id
  new-IsService transfer source remote it is_request kind to made =
      let (id, named, same) = new-begun transfer (some source) it made in
      let (id', named', read) =
        CanServiceId.new-IsService {E = TxError} (api.priority transfer) is_request
          (api.port_id transfer) remote source in
      let given : service_frame_id transfer (some source) is_request
          ≡ CanServiceId.new (api.priority transfer) is_request (api.port_id transfer) remote
              source =
        rw (service_frame_id, to) refl in
      let equal : id' ≡ it.frame_id = cc in rw (← equal) read

  service_frame_lem :
      (transfer : api.Transfer) (source remote : NodeId) (frame : FdCanFrame) (is_request : Bool)
      (receiver : Option NodeId)
      → is_for receiver (remote % 128) ≡ true
      → CanServiceId.IsService
          (api.priority transfer)
          is_request
          (api.port_id transfer)
          remote
          source
          (c.as_raw frame.id)
      → service_frame receiver frame (tail_of transfer)
        ≡ ok (
            some (
              api.as_service frame.timestamp
                (api.priority transfer)
                (if is_request then request else response)
                (api.port_id transfer % 512)
                (source % 128)
                (remote % 128)
                (api.transfer_id transfer % 32)
                true
                true
                (v.items frame.payload)))
  unfolding service_frame
  service_frame_lem transfer source remote frame is_request receiver here read =
      let (_, tail) = TailByte.new-IsTail true true true (api.transfer_id transfer) in
      let named = ap c.from_u8 read.priority_eq ∙ c.from_u8_lem (api.priority transfer) in
      rw
        (
          service_frame, read.valid_eq, read.destination_id_eq, here, read.is_req_eq,
          read.service_id_eq, read.source_id_eq, named, tail.start_eq, tail.end_eq,
          tail.transfer_id_eq,
        )
        refl

  service_frame_other :
      (transfer : api.Transfer) (source remote : NodeId) (frame : FdCanFrame) (is_request : Bool)
      (receiver : Option NodeId)
      → is_for receiver (remote % 128) ≡ false
      → CanServiceId.IsService
          (api.priority transfer)
          is_request
          (api.port_id transfer)
          remote
          source
          (c.as_raw frame.id)
      → service_frame receiver frame (tail_of transfer) ≡ ok none
  unfolding service_frame
  service_frame_other transfer source remote frame is_request receiver other read =
      rw (service_frame, read.valid_eq, read.destination_id_eq, other) refl

  service_kind :
      (transfer : api.Transfer) (node_id : Option NodeId) (kind : TransferKind)
      → api.transfer_kind transfer ≡ kind
      → kind_eq kind message ≡ false
      → frame_id transfer node_id ≡ service_frame_id transfer node_id (kind_eq kind request)
  unfolding frame_id
  service_kind transfer node_id message e no_message = cc
  service_kind transfer node_id request e no_message = rw (frame_id, e) refl
  service_kind transfer node_id response e no_message = rw (frame_id, e) refl

  -- A request or a response of at most 48 bytes, as many as a CAN FD frame can have, from one node to
  -- another. The iterator that `new` makes goes on to a frame from which the node that it is for
  -- reads the time, the priority, whether it is a request, the low bits of the service, of both
  -- nodes and of the transfer ID, a start and an end, and the payload, behind which the tail byte is
  -- left. At another node, or one without an ID, `rx_process_frame` answers nothing.
  pub rx_process_frame-advance_service :
      {E : Type 0} (transfer : api.Transfer) (source remote : NodeId) (receiver : Option NodeId)
      (it : FdCanIter)
      → kind_eq (api.transfer_kind transfer) message ≡ false
      → api.remote_node_id transfer ≡ some remote
      → new transfer (some source) ≡ ok it
      → length (api.payload transfer) ≤ 48
      → size (length (api.payload transfer)) ≡ length (api.payload transfer)
      → (frame : FdCanFrame) × (advance {E = E} it ≡ ok (behind transfer it.frame_id frame))
        × (rx_process_frame receiver frame ≡ (
            if is_for receiver (remote % 128)
            then ok (
                some (
                  api.as_service
                    (api.timestamp transfer)
                    (api.priority transfer)
                    (if kind_eq (api.transfer_kind transfer) request then request else response)
                    (api.port_id transfer % 512)
                    (source % 128)
                    (remote % 128)
                    (api.transfer_id transfer % 32)
                    true
                    true
                    (api.payload transfer ++ (tail_of transfer ∷ []))))
            else ok none))
  rx_process_frame-advance_service {E} transfer source remote receiver it kind to made short exact =
      let is_request = kind_eq (api.transfer_kind transfer) request in
      let (frame, steps, at, named, all) =
        advance_exact {E = E} transfer (some source) it made short exact in
      let read : CanServiceId.IsService (api.priority transfer) is_request (api.port_id transfer)
          remote source (c.as_raw frame.id) =
        rw named (
          new-IsService transfer source remote it is_request
            (service_kind transfer (some source) (api.transfer_kind transfer) refl kind) to made) in
      let whole = rx_process_frame_whole receiver frame (api.payload transfer) transfer all in
      (
        frame,
        steps,
        elim (Bool-cases (is_for receiver (remote % 128))) [
          | inl e ↦
              let reads =
                service_frame_lem transfer source remote frame is_request receiver e read in
              whole ∙ rw (read.is_svc_eq, reads, e, at, all) refl
          | inr e ↦
              let passes =
                service_frame_other transfer source remote frame is_request receiver e read in
              whole ∙ rw (read.is_svc_eq, passes, e) refl
        ],
      )
