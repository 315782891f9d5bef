-- ===== src/Tests/Manager.antt =====
-- The transfer manager and the node at concrete states.
use mathlib.Core.Option
use cyphal_rs.Base.{
  true, min, ℕ, ◌-◌, ◌^◌, ◌<◌, ◌≤◌, ◌≡◌, ◌↔◌, refl, none, some, [], ◌∷◌, ok, err, panic, arith, inl,
  inr, length, drop,
}
use cyphal_rs.Can.Data.{FrameMetadata, TxMetadata, mtu_size, tx_default}
use cyphal_rs.Can.Receive.{rx_process_frame}
use cyphal_rs.Can.Safety.{Safe, rx_process_frame-Safe, transmit_frame_bounds}
use cyphal_rs.Can.Transmit.{can}
use cyphal_rs.Can
use cyphal_rs.HashMap.{get}
use cyphal_rs.Link.Sender.{manager, CanNode, fresh}
use cyphal_rs.MapManager.Expiry.{Ordered, after, rx_started, tx_started, update_transfers_lem}
use cyphal_rs.MapManager.Failure.{transmit_frame_cancelled}
use cyphal_rs.MapManager.Kept.{Kept}
use cyphal_rs.MapManager.Reachable.{created, begun, claimed, Reachable-transmit}
use cyphal_rs.MapManager.State.{
  active, timed_out, TxTransfer, MapTransferManager, new, hash_metadata,
}
use cyphal_rs.MapManager.Timeout.{update_transfers}
use cyphal_rs.MapManager.Transmit.{create_transmission, transmit, transmit_active}
use cyphal_rs.MapManager.Refinement.{RxStep, TxStep, grouped, MapTransferManager-Table}
use cyphal_rs.MapManager.Table.{append_step, new_step, with_step, cancel_step, transmit_step}
use cyphal_rs.MapManager.Receive.{append_frame, new_transfer, with_rx_transfer, cancel_rx_transfer}
use cyphal_rs.MapManager.Transmit.{cancel_tx_transfer}
use cyphal_rs.Base.{List, ◌+◌}
use cyphal_rs.Node.Data.{invalid_handling, tx_error, request_to, tx_metadata}
use cyphal_rs.Node.Filter.{ForNode, try_receive_frame_refused}
use cyphal_rs.Node.Receive.{try_receive_frame}
use cyphal_rs.Node.Transmit.{make_frame, transmit_frame}
use cyphal_rs.Bitfields.CanServiceId
use cyphal_rs.Bitfields.TailByte
use cyphal_rs.Can.Transmit.{frame_id, service_frame_id}
use cyphal_rs.Tests.Link.{received, again, reads_again}
use cyphal_rs.Tests.Concrete.{crates, crc_any, extended_id}
use cyphal_rs.Tests.Nodes.{clock, hasher, node_12, ten_bytes, write_ten}
use cyphal_rs.Types.{TransferMetadata, TransferFrame, TxError, nominal}
use cyphal_rs.Types.Hashing.{hash_writes}
use cyphal_rs.Types.Sessions.{SameSession, hash_writes_iff}

abbrev outgoing : TransferMetadata ℕ
outgoing = tx_metadata manager node_12 0 nominal 300 (request_to 42) 5

-- A manager that has one transfer to send.
abbrev busy : MapTransferManager (can ℕ)
busy = (create_transmission (can ℕ) (new (can ℕ)) 10 outgoing write_ten).0

Reachable-transmit_example :
    Kept (can ℕ) busy
    × ((transmit
            (can ℕ)
            busy
            (hash_metadata outgoing)
            (err invalid_handling)
            (make_frame manager (some 12) 7)).2
          ≡ panic
        → (t : TxTransfer (can ℕ)) × (get (hash_metadata outgoing) busy.tx_transfers
            ≡ some (active t))
          × (length (drop t.consumed t.payload)
              < claimed (can ℕ) t (err invalid_handling) (make_frame manager (some 12) 7))
          × (2 ^ 64
              ≤ t.consumed
                + claimed (can ℕ) t (err invalid_handling) (make_frame manager (some 12) 7)))
Reachable-transmit_example =
    Reachable-transmit (can ℕ) (hash_metadata outgoing) (err invalid_handling)
      (make_frame manager (some 12) 7) (begun 10 outgoing write_ten created)

-- A callback that claims more than there is makes the count overflow, if something is sent already.
transmit_overflow :
    (transmit_active
      (can ℕ)
      {R = ℕ}
      (new (can ℕ))
      3
      (record (fresh outgoing ten_bytes) { consumed = 7 })
      0
      (λ md tx bytes captured. (captured, tx, 2 ^ 64 - 1))).2
    ≡ panic
unfolding transmit_active
transmit_overflow = refl

since-le : (now before : ℕ) → before ≤ now → clock.since now before ≡ some (now - before)
since-le now before not_later = ground arith

abbrev ordered : Ordered
ordered = record {
  NotLater = λ before now. before ≤ now;
  elapsed = λ now before. now - before;
  elapsed_eq = since-le;
}

-- One transfer that has timed out already, an old one and a young one.
abbrev three : MapTransferManager (can ℕ)
three = record {
  rx_transfers = [];
  tx_transfers =
      (3, active (fresh outgoing ten_bytes))
      ∷ ((4, timed_out) ∷ ((5, active (fresh (record outgoing { timestamp = 4500 }) [])) ∷ []));
}

update_transfers_lem_example :
    (m' : MapTransferManager (can ℕ)) × (update_transfers {E = ⊥} (can ℕ) three 5000 1000 ≡ ok m')
    × ((k : ℕ)
        → get k m'.rx_transfers
          ≡ Option.map (after ordered (rx_started (can ℕ)) 5000 1000) (get k three.rx_transfers))
    × ((k : ℕ)
        → get k m'.tx_transfers
          ≡ Option.map (after ordered (tx_started (can ℕ)) 5000 1000) (get k three.tx_transfers))
update_transfers_lem_example =
    update_transfers_lem (can ℕ) ordered three 5000 1000 1000 refl tt
      (omega arith, (tt, (omega arith, tt)))

-- A node without an ID cannot send a request.
abbrev nameless : CanNode
nameless = record {
  id = none;
  transfer_manager = record {
    rx_transfers = [];
    tx_transfers = (3, active (fresh outgoing ten_bytes)) ∷ [];
  };
}

transmit_frame_cancelled_example :
    ((transmit_frame manager nameless 3 17).1 ≡ err (tx_error TxError.service_no_source_id))
    × (get 3 (transmit_frame manager nameless 3 17).0.transfer_manager.tx_transfers ≡ none)
unfolding get Can.Transmit.transmit_frame frame_id service_frame_id
transmit_frame_cancelled_example =
    transmit_frame_cancelled (can ℕ) nameless 3 17 (fresh outgoing ten_bytes)
      TxError.service_no_source_id refl (omega arith) refl

-- A request to node 42 at node 12.
not_for_12 : ¬ (ForNode (some 12) (received 17))
not_for_12 (inl absent) = cc
not_for_12 (inr (service, (id, own, here))) = ground arith

try_receive_frame_refused_example : try_receive_frame manager node_12 again ≡ (node_12, ok none)
try_receive_frame_refused_example =
    try_receive_frame_refused manager node_12 again _ _ reads_again not_for_12

rx_process_frame-Safe_example : Safe again (rx_process_frame again)
rx_process_frame-Safe_example = rx_process_frame-Safe again

transmit_frame_bounds_example :
    (length again.payload ≡ 8) × (length again.payload ≤ mtu_size) × (7 ≡ min 7 (length ten_bytes))
unfolding Can.Transmit.transmit_frame frame_id service_frame_id CanServiceId.new extended_id
    TailByte.new
transmit_frame_bounds_example =
    transmit_frame_bounds outgoing tx_default ten_bytes (some 12) 17 again 7 refl

abbrev later : TransferMetadata ℕ
later = record outgoing { timestamp = 99 }

hash_writes_iff_example : (hash_writes outgoing ≡ hash_writes later) ↔ SameSession outgoing later
hash_writes_iff_example = hash_writes_iff outgoing later 12 12 refl refl

abbrev peek : TransferMetadata ℕ → List ℕ → ℕ → ℕ
peek md bytes seen = seen + length bytes

-- Node 42's manager in the middle of the transfer.
-- A frame of the transfer itself, a callback that counts bytes, and one that sends three.
abbrev outgoing_frame : TransferFrame ℕ
outgoing_frame = record {
  metadata = outgoing;
  payload = ten_bytes;
  first_frame = true;
  last_frame = true;
}

abbrev frame_metadata : FrameMetadata
frame_metadata = record { toggle_bit = true; crc_val = none }

abbrev send_three : TransferMetadata ℕ → TxMetadata → List ℕ → ℕ → ℕ × TxMetadata × ℕ
send_three md tx bytes count = (count + length bytes, tx, 3)

MapTransferManager-Table_example :
    (let key = hash_metadata outgoing in
      RxStep
        (can ℕ)
        busy
        (append_frame (can ℕ) busy outgoing_frame frame_metadata)
        key
        (append_step (can ℕ) key outgoing_frame frame_metadata)
      × RxStep
          (can ℕ)
          busy
          (new_transfer (can ℕ) busy outgoing_frame frame_metadata)
          key
          (new_step (can ℕ) key outgoing_frame frame_metadata)
      × RxStep
          (can ℕ)
          busy
          (grouped (can ℕ) (with_rx_transfer (can ℕ) busy key 0 peek))
          key
          (with_step (can ℕ) 0 peek)
      × RxStep (can ℕ) busy (cancel_rx_transfer (can ℕ) busy key) key cancel_step
      × TxStep
          (can ℕ)
          busy
          (grouped (can ℕ) (transmit (can ℕ) busy key 0 send_three))
          key
          (transmit_step (can ℕ) key 0 send_three)
      × TxStep (can ℕ) busy (cancel_tx_transfer (can ℕ) busy key) key cancel_step)
MapTransferManager-Table_example =
    MapTransferManager-Table (can ℕ) busy outgoing_frame frame_metadata (hash_metadata outgoing) 0
      peek send_three
