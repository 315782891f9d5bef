-- ===== src/Tests/Interleaved.antt =====
-- The frames of a transfer among others.
use cyphal_rs.Base.{
  ℕ, ◌/◌, ◌%◌, ◌≡◌, ◌≢◌, panic, refl, true, false, none, some, List, [], take, ◌==◌, ◌∷◌, ok, arith,
}
use cyphal_rs.Bitfields.TailByte
use cyphal_rs.Bitfields.CanServiceId
use cyphal_rs.Can
use cyphal_rs.Node
use cyphal_rs.Can.Data.{CanFrame, get_crc_padded_size, process_tx_crc, new_frame}
use cyphal_rs.Can.Receive.{
  split_crc, service_metadata, frame_metadata, check_tail, rx_process_frame,
}
use cyphal_rs.Can.Transmit.{can, service_frame_id, frame_id}
use cyphal_rs.HashMap.{get, insert, remove}
use cyphal_rs.MapManager.Transmit.{
  store_transmission, create_transmission, transmit_active, transmit,
}
use cyphal_rs.Node.Transmit.{make_frame, clean_up, frame_result}
use cyphal_rs.Link.Delivery.{CanRxTransfer}
use cyphal_rs.Link.Interleaved.{transmit_all}
use cyphal_rs.Link.RoundTrip.{receive_all-start_tx_transfer}
use cyphal_rs.Link.Sender.{manager, CanNode, CanTxTransfer}
use cyphal_rs.Can.Ids.{frame_id-some}
use cyphal_rs.Link.Sending.{sender_after, CarriesAll, transmit_all-CarriesAll}
use cyphal_rs.MapManager.State.{active, timed_out, hash_metadata}
use cyphal_rs.Node.Data.{request_to, start_tx_transfer}
use cyphal_rs.Node.Interleaving.{receive_all, own_frames, entry, answers, receive_all-own_frames}
use cyphal_rs.Link.Robust.{try_receive_frame-panic}
use cyphal_rs.Node.Receive.{try_receive_frame}
use cyphal_rs.Tests.Concrete.{crates, crc_any, from_u8, extended_id}
use cyphal_rs.Tests.Link.{sent, received, again}
use cyphal_rs.Tests.Nodes.{mix, clock, hasher, node_12, node_42, ten_bytes, write_ten, times}
use cyphal_rs.Types.Hashing.{hash_writes}
use cyphal_rs.Types.{nominal}

-- A frame of the next transfer of the same session, and one that cannot be read.
abbrev of_transfer_6 : CanFrame ℕ
of_transfer_6 = record again { payload = 8 ∷ (TailByte.new true true true 6 ∷ []) }

abbrev unreadable : CanFrame ℕ
unreadable = record again { payload = [] }

abbrev first_sent : CanFrame ℕ
first_sent = record again { timestamp = times 1 }

abbrev checksum : ℕ
checksum = crc_any.get_crc (crc_any.digest crc_any.crc16ccitt_false ten_bytes)

abbrev last_sent : CanFrame ℕ
last_sent = record again {
  timestamp = times 0;
  payload = 8 ∷ (9 ∷ (10 ∷ (checksum / 256 % 256 ∷ (checksum % 256 ∷ (0x45 ∷ [])))));
}

abbrev mixed : List (CanFrame ℕ)
mixed = unreadable ∷ (first_sent ∷ (of_transfer_6 ∷ (last_sent ∷ [])))

own_frames-mixed :
    own_frames (can ℕ) (hash_metadata (received 0)) (some 42) mixed
    ≡ transmit_all times 2
        (start_tx_transfer manager node_12 10 0 nominal 300 (request_to 42) 5 write_ten).0
        (hash_metadata sent)
unfolding get insert remove transmit_all hash_metadata hash_writes mix TailByte.new
    TailByte.start_of_transfer TailByte.end_of_transfer TailByte.toggle TailByte.transfer_id
    CanServiceId.priority CanServiceId.is_svc CanServiceId.is_req CanServiceId.service_id
    CanServiceId.destination_id CanServiceId.source_id CanServiceId.valid CanServiceId.new from_u8
    extended_id get_crc_padded_size process_tx_crc new_frame split_crc service_metadata
    frame_metadata check_tail rx_process_frame service_frame_id frame_id Can.Transmit.transmit_frame
    store_transmission create_transmission transmit_active transmit start_tx_transfer make_frame
    clean_up frame_result Node.Transmit.transmit_frame
own_frames-mixed = refl

receive_all-start_tx_transfer_example :
    ((start_tx_transfer manager node_12 10 0 nominal 300 (request_to 42) 5 write_ten).1
      ≡ ok (hash_metadata sent))
    × ((transfer : CanRxTransfer) × (get
            (hash_metadata (received 0))
            (receive_all (can ℕ) node_42 mixed).transfer_manager.rx_transfers
          ≡ some (active transfer))
        × (transfer.transfer_metadata ≡ received 99)
        × (transfer.payload ≡ ten_bytes))
unfolding get
receive_all-start_tx_transfer_example =
    receive_all-start_tx_transfer times node_12 node_42 12 10 0 nominal 300 (request_to 42) 5
      write_ten ten_bytes 10 1 mixed refl refl refl refl (omega arith) refl refl (λ h. omega arith)
      (omega arith) own_frames-mixed

-- Node 42, with a transfer that timed out under another token.
abbrev busy_42 : CanNode
busy_42 = record node_42 {
  transfer_manager = record node_42.transfer_manager { rx_transfers = (1, timed_out) ∷ [] };
}

receive_all-own_frames_example :
    (let own = own_frames (can ℕ) (hash_metadata (received 0)) (some 42) mixed in
      (entry (can ℕ) (hash_metadata (received 0)) (receive_all (can ℕ) busy_42 mixed)
        ≡ entry (can ℕ) (hash_metadata (received 0)) (receive_all (can ℕ) node_42 own))
      × (answers (can ℕ) (hash_metadata (received 0)) busy_42 mixed
          ≡ answers (can ℕ) (hash_metadata (received 0)) node_42 own))
unfolding get hash_metadata hash_writes mix
receive_all-own_frames_example =
    receive_all-own_frames (can ℕ) (hash_metadata (received 0)) busy_42 node_42 mixed refl refl

-- Node 12 in the middle of ten bytes, under token 5.
abbrev halfway_sent : CanTxTransfer
halfway_sent = record {
  transfer_metadata = sent;
  transport_metadata = record { first_frame = false; toggle_bit = false };
  consumed = 7;
  payload = ten_bytes;
}

abbrev sending_12 : CanNode
sending_12 = record node_12 {
  transfer_manager = record node_12.transfer_manager {
    tx_transfers = (5, active halfway_sent) ∷ [];
  };
}

transmit_all-CarriesAll_example :
    CarriesAll times sent
      (some 12)
      false
      false
      (8 ∷ (9 ∷ (10 ∷ [])))
      (transmit_all times 1 sending_12 5)
    × ((sender_after times 1 sending_12 5).1 ≡ none)
    × (get 5 (sender_after times 1 sending_12 5).0.transfer_manager.tx_transfers ≡ none)
    × ((other : ℕ)
        → (5 == other) ≡ false
        → get other (sender_after times 1 sending_12 5).0.transfer_manager.tx_transfers
          ≡ get other sending_12.transfer_manager.tx_transfers)
unfolding get
transmit_all-CarriesAll_example =
    transmit_all-CarriesAll times 0 sending_12 5 halfway_sent (take 7 ten_bytes)
      (8 ∷ (9 ∷ (10 ∷ []))) refl refl refl
      (λ last. frame_id-some sent (some 12) 12 last refl (λ service. (42, refl))) (omega arith)

try_receive_frame-panic_example : (try_receive_frame manager busy_42 unreadable).1 ≢ panic
try_receive_frame-panic_example = try_receive_frame-panic busy_42 unreadable
