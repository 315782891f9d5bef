-- ===== src/Can/Transmit.antt =====
-- Classic CAN, cyphal/src/transport/can/legacy.rs: the making of one frame.
use cyphal_rs.Base.{
  ℕ, min, Bool, false, not, ◌&&◌, Option, List, [], ◌∷◌, ◌++◌, leb, if◌then◌else◌, length, take,
  Result, ok, err, ◌>>=◌, ok_or,
}
use cyphal_rs.Bitfields.CanMessageId
use cyphal_rs.Bitfields.CanServiceId
use cyphal_rs.Bitfields.TailByte
use cyphal_rs.CrcAny.{CrcAny}
use cyphal_rs.Can.Data.{
  FrameMetadata, CanFrame, TxMetadata, tx_default, RxMetadata, rx_default, mtu_size, crc_size,
  get_crc_padded_size, update_rx_metadata, process_tx_crc,
}
use cyphal_rs.Can.Receive.{rx_process_frame}
use cyphal_rs.Crates.{Crates}
use cyphal_rs.Transport.{Transport}
use cyphal_rs.Types.{NodeId, message, request, response, TransferMetadata, TxError, kind_eq}

module _ ⦃c : Crates⦄ where
  -- A request or a response.
  unfoldable pub service_frame_id :
      {I : Type 0} → TransferMetadata I → Option NodeId → Result TxError c.ExtendedId
  service_frame_id md node_id = do
    source ← ok_or node_id TxError.service_no_source_id
    destination ← ok_or md.destination_node_id TxError.service_no_destination_id
    CanServiceId.new md.priority (kind_eq md.transfer_kind request) md.port_id destination source

  abbrev pub message_frame_id :
      {I : Type 0} → TransferMetadata I → Bool → Option NodeId → Result TxError c.ExtendedId
  message_frame_id md last_frame node_id =
      if not last_frame && CanMessageId.is_none node_id
      then err TxError.anon_not_single_frame
      else CanMessageId.new md.priority md.port_id node_id

  -- `match transfer_metadata.transfer_kind`.
  unfoldable pub frame_id :
      {I : Type 0} → TransferMetadata I → Bool → Option NodeId → Result TxError c.ExtendedId
  frame_id md last_frame node_id = elim md.transfer_kind [
    | message ↦ message_frame_id md last_frame node_id
    | request ↦ service_frame_id md node_id
    | response ↦ service_frame_id md node_id
  ]

  unfoldable pub transmit_frame :
      {I : Type 0}
      → TransferMetadata I
      → TxMetadata
      → List ℕ
      → Option NodeId
      → I
      → TxMetadata × Result TxError (CanFrame I × ℕ)
  transmit_frame md tx bytes node_id timestamp =
      let last_frame = leb (length bytes) 7 in
      let tx' : TxMetadata = record { first_frame = false; toggle_bit = not tx.toggle_bit } in
      let tail_byte = TailByte.new tx.first_frame last_frame tx.toggle_bit md.transfer_id in
      let consume_len = min 7 (length bytes) in
      (
        tx',
        do
          id ← frame_id md last_frame node_id
          ok (
            record {
              timestamp = timestamp;
              id = id;
              payload = take consume_len bytes ++ (tail_byte ∷ []);
            },
            consume_len,
          ),
      )

-- `impl Transport for Can`.
abbrev pub can : ⦃c : Crates⦄ ⦃k : CrcAny⦄ (I : Type 0) → Transport I
can I = record {
  Frame = CanFrame I;
  FrameMetadata = FrameMetadata;
  TxMetadata = TxMetadata;
  tx_default = tx_default;
  RxMetadata = RxMetadata;
  rx_default = rx_default;
  mtu_size = mtu_size;
  crc_size = crc_size;
  get_crc_padded_size = get_crc_padded_size;
  update_rx_metadata = update_rx_metadata;
  process_tx_crc = λ {E}. process_tx_crc;
  rx_process_frame = rx_process_frame;
  transmit_frame = transmit_frame;
}
