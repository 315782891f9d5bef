-- ===== src/Tests/Can.antt =====
-- Classic CAN at concrete frames.
use cyphal_rs.Base.{ℕ, ◌<◌, ◌≡◌, refl, true, false, none, some, List, ok}
use cyphal_rs.Bitfields.CanMessageId
use cyphal_rs.Bitfields.CanServiceId
use cyphal_rs.Bitfields.TailByte
use cyphal_rs.Can.Data.{CanFrame}
use cyphal_rs.Can.Ids.{wire_metadata, frame_metadata-frame_id}
use cyphal_rs.Can.Receive.{frame_metadata}
use cyphal_rs.Can.Transmit.{frame_id, service_frame_id}
use cyphal_rs.Link.Sender.{manager}
use cyphal_rs.Node.Data.{request_to, tx_metadata}
use cyphal_rs.Tests.Concrete.{crates, crc_any, extended_id}
use cyphal_rs.Tests.Nodes.{clock, hasher, node_12}
use cyphal_rs.Types.{TransferMetadata, RxError, nominal, optional}

abbrev sent : TransferMetadata ℕ
sent = tx_metadata manager node_12 0 nominal 300 (request_to 42) 5

abbrev pub id_300 : ℕ
id_300 = 323687692

-- The first tail byte and the second.
abbrev pub first_tail : ℕ
first_tail = 0xa5

abbrev second_tail : ℕ
second_tail = 0x45

frame_metadata-frame_id_example :
    frame_metadata 17 id_300 first_tail ≡ ok (wire_metadata sent (some 12) 17)
unfolding frame_id TailByte.new service_frame_id CanServiceId.new extended_id
frame_metadata-frame_id_example =
    frame_metadata-frame_id sent 17 first_tail (TailByte.new-IsTail true false true 5).1 false
      (some 12) id_300 refl (λ e. absurd (cc))

pub first_ids : frame_metadata 17 id_300 first_tail ≡ ok (wire_metadata sent (some 12) 17)
unfolding frame_id TailByte.new service_frame_id CanServiceId.new extended_id
first_ids =
    frame_metadata-frame_id sent 17 first_tail (TailByte.new-IsTail true false true 5).1 false
      (some 12) id_300 refl (λ e. absurd (cc))

last_ids : frame_metadata 17 id_300 second_tail ≡ ok (wire_metadata sent (some 12) 17)
unfolding frame_id TailByte.new service_frame_id CanServiceId.new extended_id
last_ids =
    frame_metadata-frame_id sent 17 second_tail (TailByte.new-IsTail false true false 5).1 true
      (some 12) id_300 refl (λ e. absurd (cc))

abbrev frame : List ℕ → CanFrame ℕ
frame payload = record { timestamp = 17; id = id_300; payload = payload }

new-IsMessage_example :
    (id : crates.ExtendedId) × (CanMessageId.new {E = RxError} optional 9000 none ≡ ok id)
    × CanMessageId.IsMessage optional 9000 none (crates.as_raw id)
new-IsMessage_example = CanMessageId.new-IsMessage optional 9000 none

new-IsService_example :
    (id : crates.ExtendedId) × (CanServiceId.new {E = RxError} nominal true 300 42 12 ≡ ok id)
    × CanServiceId.IsService nominal true 300 42 12 (crates.as_raw id)
new-IsService_example = CanServiceId.new-IsService nominal true 300 42 12

new-IsTail_example :
    (TailByte.new true false true 37 < 256)
    × TailByte.IsTail true false true 37 (TailByte.new true false true 37)
new-IsTail_example = TailByte.new-IsTail true false true 37
