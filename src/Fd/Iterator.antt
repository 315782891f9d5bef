-- ===== src/Fd/Iterator.antt =====
-- `FdCanIter`, cyphal/src/transport/can/fd.rs: the frames of a transfer, one after the other.
use cyphal_rs.Base.{
  ℕ, ◌+◌, ◌-◌, ◌/◌, ◌%◌, min, Bool, true, false, not, ◌&&◌, Option, none, some, leb, ltb, ◌==◌,
  if◌then◌else◌, length, take, drop, Result, ok, err, panic, ◌>>=◌, unwrap, ok_or,
}
use cyphal_rs.Bitfields.CanMessageId
use cyphal_rs.Bitfields.CanServiceId
use cyphal_rs.Bitfields.TailByte
use cyphal_rs.Crates.{Crates}
use cyphal_rs.Crc16
use cyphal_rs.Fd.Api.{FdApi}
use cyphal_rs.Fd.ArrayVec.{ArrayVec}
use cyphal_rs.Fd.Frame
use cyphal_rs.Fd.Frame.{FdCanFrame, set_dlc}
use cyphal_rs.Types.{NodeId, message, request, response, TxError}

module _ ⦃c : Crates⦄ ⦃v : ArrayVec⦄ ⦃api : FdApi⦄ where
  pub record FdCanIter : Type 0 where
    pub transfer : api.Transfer
    pub frame_id : c.ExtendedId
    pub payload_offset : ℕ
    pub crc : ℕ
    pub crc_left : ℕ
    pub toggle : Bool
    pub is_start : Bool
    pub can_frame : Option FdCanFrame

  -- A request or a response.
  unfoldable pub service_frame_id :
      api.Transfer → Option NodeId → Bool → Result TxError c.ExtendedId
  service_frame_id transfer node_id is_request = do
    source ← ok_or node_id TxError.service_no_source_id
    destination ← ok_or (api.remote_node_id transfer) TxError.service_no_destination_id
    CanServiceId.new (api.priority transfer) is_request (api.port_id transfer) destination source

  -- `match transfer.transfer_kind()`.
  unfoldable pub frame_id : api.Transfer → Option NodeId → Result TxError c.ExtendedId
  frame_id transfer node_id = elim (api.transfer_kind transfer) [
    | message ↦
        if CanMessageId.is_none node_id && ltb 63 (length (api.payload transfer))
        then err TxError.anon_not_single_frame
        else CanMessageId.new (api.priority transfer) (api.port_id transfer) node_id
    | request ↦ service_frame_id transfer node_id true
    | response ↦ service_frame_id transfer node_id false
  ]

  unfoldable pub new : api.Transfer → Option NodeId → Result TxError FdCanIter
  new transfer node_id = do
    frame_id ← frame_id transfer node_id
    ok (record {
      transfer = transfer;
      frame_id = frame_id;
      payload_offset = 0;
      crc = Crc16.init;
      crc_left = 2;
      toggle = true;
      is_start = true;
      can_frame = none;
    })

  -- `FdCan::transmit`.
  abbrev pub transmit : api.Transfer → Result TxError FdCanIter
  transmit transfer = new transfer (some 1)

  -- `get_or_insert_with`.
  unfoldable pub current_frame : {E : Type 0} → FdCanIter → Result E FdCanFrame
  current_frame self = elim self.can_frame [
    | some frame ↦ ok frame
    | none ↦ Frame.new (api.timestamp self.transfer) (c.as_raw self.frame_id)
  ]

  -- The only frame of a transfer.
  unfoldable pub single :
      {E : Type 0} → FdCanIter → FdCanFrame → ℕ → Result E (FdCanIter × FdCanFrame)
  single self frame bytes_left =
      let payload = v.extend frame.payload (take (min bytes_left 63) (api.payload self.transfer)) in
      do
        payload ←
            unwrap (
              v.push_unchecked payload
                (TailByte.new true true true (api.transfer_id self.transfer)))
        ok (
          record self { payload_offset = self.payload_offset + bytes_left },
          record frame { payload = payload },
        )

  -- The bytes of the checksum that there is room for: the payload, how many are left to send, and
  -- how many bytes there are now.
  unfoldable pub put_crc :
      {E : Type 0} → v.Vec → (crc crc_left bytes_left copy_len : ℕ) → Result E (v.Vec × ℕ × ℕ)
  put_crc payload crc crc_left bytes_left copy_len =
      let high = Crc16.get_crc crc / 256 % 256 in
      let low = Crc16.get_crc crc % 256 in
      if crc_left == 2
      then (if leb 2 (63 - bytes_left)
          then (do
            payload ← unwrap (v.push payload high)
            payload ← unwrap (v.push payload low)
            ok (payload, 0, copy_len + 2))
          else (do payload ← unwrap (v.push_unchecked payload high); ok (payload, 1, copy_len + 1)))
      else if crc_left == 1
      then (do payload ← unwrap (v.push_unchecked payload low); ok (payload, 0, copy_len + 1))
      else ok (payload, crc_left, copy_len)

  -- One of several frames; the number is how many bytes it has.
  unfoldable pub several :
      {E : Type 0} → FdCanIter → FdCanFrame → ℕ → Result E (FdCanIter × FdCanFrame × ℕ)
  several self frame bytes_left =
      let out_data =
        take (min bytes_left 63) (drop self.payload_offset (api.payload self.transfer)) in
      let is_end = leb bytes_left 63 in
      do
        crc ← Crc16.digest self.crc out_data
        let payload = v.extend frame.payload out_data
        (payload, crc_left, copy_len) ←
            if ltb bytes_left 63
            then put_crc payload crc self.crc_left bytes_left (min bytes_left 63)
            else ok (payload, self.crc_left, min bytes_left 63)
        payload ← unwrap (
            v.push_unchecked payload
              (TailByte.new self.is_start is_end self.toggle (api.transfer_id self.transfer)))
        ok (
          record self {
            payload_offset = self.payload_offset + min bytes_left 63;
            crc = crc;
            crc_left = crc_left;
            toggle = not self.toggle;
          },
          record frame { payload = payload },
          copy_len + 1,
        )

  -- `advance`, where something is left; an offset behind the payload would panic.
  unfoldable pub next_frame : {E : Type 0} → FdCanIter → ℕ → Result E FdCanIter
  next_frame {E} self bytes_left = do
    frame ← current_frame self
    (self', frame', copy_len) ←
        (if self.is_start && leb bytes_left 63
          then (do
            (self', frame') ← single {E = E} self frame bytes_left
            ok (self', frame', min bytes_left 63))
          else several self frame bytes_left)
    frame″ ← set_dlc frame' copy_len
    ok (record self' { is_start = false; can_frame = some frame″ })

  unfoldable pub advance : {E : Type 0} → FdCanIter → Result E FdCanIter
  advance self =
      let len = length (api.payload self.transfer) in
      if ltb len self.payload_offset
      then panic
      else if (len - self.payload_offset == 0) && (self.crc_left == 0)
      then ok (record self { can_frame = none })
      else next_frame self (len - self.payload_offset)

  -- `size_hint`; both numbers that it returns are this one.
  unfoldable pub size_hint : {E : Type 0} → FdCanIter → Result E ℕ
  size_hint self =
      let len = length (api.payload self.transfer) in
      if ltb len self.payload_offset
      then panic
      else (let bytes_left = len - self.payload_offset in
          if self.is_start && leb bytes_left 7
          then ok 1
          else (let frames = (bytes_left + 2) / 7 in
              ok (if ltb 0 ((bytes_left + 2) % 7) then frames + 1 else frames)))
