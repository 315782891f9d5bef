-- ===== src/Fd/Receive.antt =====
-- CAN FD, cyphal/src/transport/can/fd.rs: the reading of one frame.
use cyphal_rs.Base.{
  ℕ, Bool, false, not, ◌&&◌, Option, none, some, ltb, ◌==◌, if◌then◌else◌, length, Result, ok, err,
  ◌>>=◌, unwrap,
}
use cyphal_rs.Bitfields.CanMessageId
use cyphal_rs.Bitfields.CanServiceId
use cyphal_rs.Bitfields.TailByte
use cyphal_rs.Can.Data.{is_empty, last}
use cyphal_rs.Crates.{Crates}
use cyphal_rs.Fd.Api.{FdApi}
use cyphal_rs.Fd.ArrayVec.{ArrayVec}
use cyphal_rs.Fd.Frame.{FdCanFrame, mtu_size}
use cyphal_rs.Types.{NodeId, request, response, RxError}

module _ ⦃c : Crates⦄ ⦃v : ArrayVec⦄ ⦃api : FdApi⦄ where
  -- `node_id.is_some()`, and the destination is that node.
  abbrev pub is_for : Option NodeId → NodeId → Bool
  is_for none destination = false
  is_for (some node_id) destination = destination == node_id

  -- The branch of a service ID.
  unfoldable pub service_frame :
      Option NodeId → FdCanFrame → ℕ → Result RxError (Option api.InternalRxFrame)
  service_frame node_id frame tail =
      let id = c.as_raw frame.id in
      if not (CanServiceId.valid id)
      then err RxError.invalid_can_id
      else if not (is_for node_id (CanServiceId.destination_id id))
      then ok none
      else (do
        priority ← unwrap (c.from_u8 (CanServiceId.priority id))
        ok (
            some (
              api.as_service frame.timestamp priority
                (if CanServiceId.is_req id then request else response) (CanServiceId.service_id id)
                (CanServiceId.source_id id) (CanServiceId.destination_id id)
                (TailByte.transfer_id tail) (TailByte.start_of_transfer tail)
                (TailByte.end_of_transfer tail) (v.items frame.payload))))

  -- The branch of a message ID.
  unfoldable pub message_frame : FdCanFrame → ℕ → Result RxError (Option api.InternalRxFrame)
  message_frame frame tail =
      let id = c.as_raw frame.id in
      if CanMessageId.is_anon id
        && not (TailByte.start_of_transfer tail && TailByte.end_of_transfer tail)
      then err RxError.anon_not_single_frame
      else if not (CanMessageId.valid id)
      then err RxError.invalid_can_id
      else (do
        priority ← unwrap (c.from_u8 (CanMessageId.priority id))
        ok (
            some (
              api.as_message frame.timestamp priority (CanMessageId.subject_id id)
                (if CanMessageId.is_anon id then none else some (CanMessageId.source_id id))
                (TailByte.transfer_id tail) (TailByte.start_of_transfer tail)
                (TailByte.end_of_transfer tail) (v.items frame.payload))))

  unfoldable pub rx_process_frame :
      Option NodeId → FdCanFrame → Result RxError (Option api.InternalRxFrame)
  rx_process_frame node_id frame =
      if is_empty (v.items frame.payload) then err RxError.frame_empty else (do
        tail ← unwrap (last (v.items frame.payload))
        (if TailByte.start_of_transfer tail && not (TailByte.toggle tail)
            then err RxError.transfer_start_missing_toggle
            else if not (TailByte.end_of_transfer tail)
                && ltb (length (v.items frame.payload)) mtu_size
            then err RxError.non_last_under_utilization
            else if CanServiceId.is_svc (c.as_raw frame.id)
            then service_frame node_id frame tail
            else message_frame frame tail))
