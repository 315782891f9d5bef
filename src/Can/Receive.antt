-- ===== src/Can/Receive.antt =====
-- Classic CAN, cyphal/src/transport/can/legacy.rs: the reading of one frame.
use cyphal_rs.Base.{
  ℕ, ◌+◌, ◌*◌, not, ◌&&◌, Option, none, some, List, ltb, if◌then◌else◌, length, get_elem?, take,
  Result, ok, err, ◌>>=◌, unwrap,
}
use cyphal_rs.Bitfields.CanMessageId
use cyphal_rs.Bitfields.CanServiceId
use cyphal_rs.Bitfields.TailByte
use cyphal_rs.Can.Data.{FrameMetadata, CanFrame, is_empty, last, mtu_size, sub_usize}
use cyphal_rs.Crates.{Crates}
use cyphal_rs.Types.{message, request, response, TransferMetadata, TransferFrame, RxError}

module _ ⦃c : Crates⦄ where
  -- The checksum that closes a multi-frame transfer, and the length of the payload proper.
  unfoldable pub split_crc : List ℕ → ℕ → Result RxError (Option ℕ × ℕ)
  split_crc payload tail =
      if not (TailByte.start_of_transfer tail) && TailByte.end_of_transfer tail
      then (if ltb (length payload) 3 then err RxError.invalid_payload else (do
        high_at ← sub_usize (length payload) 3
        high ← unwrap (get_elem? payload high_at)
        low_at ← sub_usize (length payload) 2
        low ← unwrap (get_elem? payload low_at)
        payload_len ← sub_usize (length payload) 3
        ok (some (high * 256 + low), payload_len)))
      else (do payload_len ← sub_usize (length payload) 1; ok (none, payload_len))

  -- The branch of a service ID.
  unfoldable pub service_metadata : {I : Type 0} → I → ℕ → ℕ → Result RxError (TransferMetadata I)
  service_metadata timestamp id tail =
      if not (CanServiceId.valid id) then err RxError.invalid_can_id else (do
        priority ← unwrap (c.from_u8 (CanServiceId.priority id))
        ok (record {
          timestamp = timestamp;
          priority = priority;
          transfer_kind = if CanServiceId.is_req id then request else response;
          port_id = CanServiceId.service_id id;
          source_node_id = some (CanServiceId.source_id id);
          destination_node_id = some (CanServiceId.destination_id id);
          transfer_id = TailByte.transfer_id tail;
        }))

  -- The branch of a message ID.
  unfoldable pub message_metadata : {I : Type 0} → I → ℕ → ℕ → Result RxError (TransferMetadata I)
  message_metadata timestamp id tail =
      if CanMessageId.is_anon id
        && not (TailByte.start_of_transfer tail && TailByte.end_of_transfer tail)
      then err RxError.anon_not_single_frame
      else if not (CanMessageId.valid id)
      then err RxError.invalid_can_id
      else (do
        priority ← unwrap (c.from_u8 (CanMessageId.priority id))
        ok (record {
          timestamp = timestamp;
          priority = priority;
          transfer_kind = message;
          port_id = CanMessageId.subject_id id;
          source_node_id = some (CanMessageId.source_id id);
          destination_node_id = none;
          transfer_id = TailByte.transfer_id tail;
        }))

  -- `if CanServiceId(raw).is_svc()`.
  unfoldable pub frame_metadata : {I : Type 0} → I → ℕ → ℕ → Result RxError (TransferMetadata I)
  frame_metadata timestamp id tail =
      if CanServiceId.is_svc id
      then service_metadata timestamp id tail
      else message_metadata timestamp id tail

  -- The checks on the tail byte.
  unfoldable pub check_tail : ℕ → ℕ → Result RxError (Unit {0})
  check_tail len tail =
      if TailByte.start_of_transfer tail && not (TailByte.toggle tail)
      then err RxError.transfer_start_missing_toggle
      else if not (TailByte.end_of_transfer tail) && ltb len mtu_size
      then err RxError.non_last_under_utilization
      else ok tt

  unfoldable pub rx_process_frame :
      {I : Type 0} → CanFrame I → Result RxError (TransferFrame I × FrameMetadata)
  rx_process_frame frame = if is_empty frame.payload then err RxError.frame_empty else (do
    tail ← unwrap (last frame.payload)
    (crc_val, payload_len) ← split_crc frame.payload tail
    _ ← check_tail (length frame.payload) tail
    metadata ← frame_metadata frame.timestamp (c.as_raw frame.id) tail
    ok (
      record {
        metadata = metadata;
        payload = take payload_len frame.payload;
        first_frame = TailByte.start_of_transfer tail;
        last_frame = TailByte.end_of_transfer tail;
      },
      record { toggle_bit = TailByte.toggle tail; crc_val = crc_val },
    ))
