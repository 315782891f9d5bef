-- ===== src/Link/Receiver.antt =====
-- `Node::try_receive_frame` over classic CAN and the map manager, one frame at a time.
use cyphal_rs.Base.{
  ℕ, ◌+◌, ◌*◌, ◌≤◌, ◌<◌, ◌≡◌, refl, ap, ◌∙◌, min, true, false, not, ◌&&◌, ◌||◌, Option, none, some,
  List, [], ◌∷◌, ◌++◌, leb, length, take, take_all, length-take, ok, err, arith, if◌then◌else◌, ◌⊎◌,
}
use cyphal_rs.Bitfields.CanMessageId
use cyphal_rs.Bitfields.TailByte
use cyphal_rs.Can.Data.{CanFrame, FrameMetadata, TxMetadata, update_rx_metadata}
use cyphal_rs.Can.Frames.{rx_process_frame_plain, rx_process_frame_last, rx_process_frame_short}
use cyphal_rs.Can.Ids.{wire_metadata, frame_metadata-frame_id}
use cyphal_rs.Can.Receive.{rx_process_frame, frame_metadata}
use cyphal_rs.Can.Transmit.{frame_id, can}
use cyphal_rs.Clock.{Clock}
use cyphal_rs.Crates.{Crates}
use cyphal_rs.CrcAny.{CrcAny}
use cyphal_rs.HashMap.{get, insert}
use cyphal_rs.Link.Sender.{manager, CanNode, next_frame}
use cyphal_rs.MapManager.Receive.{append_frame, append_active, new_transfer, insert_new}
use cyphal_rs.MapManager.State.{Hasher, active, RxTransfer, hash_metadata}
use cyphal_rs.Node.Receive.{try_receive_frame, addressed, for_us}
use cyphal_rs.Types.{NodeId, TransferMetadata, TransferFrame, RxError}

-- What the receiver reads from the frame that carries the next bytes of `rest`.
module _ ⦃c : Crates⦄ {I : Type 0} (md : TransferMetadata I) (tx : TxMetadata) (rest : List ℕ)
    (node_id : Option NodeId) (id : c.ExtendedId) (timestamp : I)
    (named : frame_id md (leb (length rest) 7) node_id ≡ ok id)
    (alone : CanMessageId.is_none node_id ≡ true
      → (tx.first_frame && leb (length rest) 7) ≡ true) where
  abbrev frame : CanFrame I
  frame = next_frame md tx rest id timestamp

  abbrev tail_byte : ℕ
  tail_byte = TailByte.new tx.first_frame (leb (length rest) 7) tx.toggle_bit md.transfer_id

  tail :
      (tail_byte < 256)
      × TailByte.IsTail tx.first_frame (leb (length rest) 7) tx.toggle_bit md.transfer_id tail_byte
  tail = TailByte.new-IsTail tx.first_frame (leb (length rest) 7) tx.toggle_bit md.transfer_id

  ids : frame_metadata timestamp (c.as_raw id) tail_byte ≡ ok (wire_metadata md node_id timestamp)
  ids =
      frame_metadata-frame_id md timestamp tail_byte tail.1 (leb (length rest) 7) node_id id named
        alone

  whole : length rest ≤ 7 → take (min 7 (length rest)) rest ≡ rest
  whole h = take_all (min 7 (length rest)) rest (omega arith)

  pub read_plain :
      (tx.first_frame ≡ true → tx.toggle_bit ≡ true)
      → (tx.first_frame || not (leb (length rest) 7)) ≡ true
      → rx_process_frame frame
        ≡ ok (
          record {
            metadata = wire_metadata md node_id timestamp;
            payload = take (min 7 (length rest)) rest;
            first_frame = tx.first_frame;
            last_frame = leb (length rest) 7;
          },
          record { toggle_bit = tx.toggle_bit; crc_val = none },
        )
  read_plain toggled plain =
      rx_process_frame_plain frame tail_byte tail.1 (wire_metadata md node_id timestamp) ids
        (take (min 7 (length rest)) rest) refl toggled (λ more. ground (arith, length-take 7 rest))
        plain

  pub read_last :
      (body : List ℕ) (high low : ℕ)
      → tx.first_frame ≡ false
      → rest ≡ body ++ (high ∷ (low ∷ []))
      → length rest ≤ 7
      → rx_process_frame frame
        ≡ ok (
          record {
            metadata = wire_metadata md node_id timestamp;
            payload = body;
            first_frame = tx.first_frame;
            last_frame = leb (length rest) 7;
          },
          record { toggle_bit = tx.toggle_bit; crc_val = some (high * 256 + low) },
        )
  read_last body high low later split h =
      rx_process_frame_last frame tail_byte tail.1 (wire_metadata md node_id timestamp) ids body
        high low (ap (λ (xs : List ℕ). xs ++ (tail_byte ∷ [])) (whole h ∙ split)) later
        (ground arith)

  pub read_short :
      tx.first_frame ≡ false
      → length rest < 2
      → rx_process_frame frame ≡ err RxError.invalid_payload
  read_short later h =
      rx_process_frame_short frame tail_byte tail.1 (wire_metadata md node_id timestamp) ids rest
        (ap (λ (xs : List ℕ). xs ++ (tail_byte ∷ [])) (whole (omega arith))) later (ground arith) h

module _ ⦃clock : Clock⦄ ⦃c : Crates⦄ ⦃k : CrcAny⦄ ⦃hasher : Hasher⦄ (node : CanNode)
    (frame : CanFrame clock.Instant) (read : TransferFrame clock.Instant) (meta : FrameMetadata)
    (reads : rx_process_frame frame ≡ ok (read, meta))
    (ours : addressed node.id read.metadata ≡ for_us) where
  abbrev token : ℕ
  token = hash_metadata read.metadata

  -- The node after a transfer has been stored under the frame's token.
  abbrev stored : RxTransfer (can clock.Instant) → CanNode
  stored transfer = record node {
    transfer_manager = record node.transfer_manager {
      rx_transfers = insert token (active transfer) node.transfer_manager.rx_transfers;
    };
  }

  abbrev outcome : Option ℕ
  outcome = if read.last_frame then some token else none

  -- The first frame of a transfer makes an entry.
  pub try_receive_frame_start :
      get token node.transfer_manager.rx_transfers ≡ none
      → read.first_frame ≡ true
      → meta.toggle_bit ≡ true
      → meta.crc_val ≡ none
      → try_receive_frame manager node frame ≡ (
        stored (record {
          transfer_metadata = read.metadata;
          transport_metadata = record {
            crc =
                if read.last_frame
                then k.crc16ccitt_false
                else k.digest k.crc16ccitt_false read.payload;
            toggle_bit = true;
          };
          payload = read.payload;
        }),
        ok outcome,
      )
  unfolding try_receive_frame append_frame new_transfer insert_new update_rx_metadata
  try_receive_frame_start absent first toggled no_crc = ground arith

  -- A later frame with the other toggle bit and, if it is the last, the right checksum, joins
  -- the entry.
  pub try_receive_frame_more :
      (transfer : RxTransfer (can clock.Instant))
      → get token node.transfer_manager.rx_transfers ≡ some (active transfer)
      → read.first_frame ≡ false
      → meta.toggle_bit ≡ not transfer.transport_metadata.toggle_bit
      → (meta.crc_val ≡ none)
        ⊎ (meta.crc_val ≡ some (k.get_crc (k.digest transfer.transport_metadata.crc read.payload)))
      → try_receive_frame manager node frame ≡ (
        stored (record transfer {
          transport_metadata = record {
            crc = k.digest transfer.transport_metadata.crc read.payload;
            toggle_bit = meta.toggle_bit;
          };
          payload = transfer.payload ++ read.payload;
        }),
        ok outcome,
      )
  unfolding try_receive_frame append_frame append_active update_rx_metadata
  try_receive_frame_more transfer found later toggled crc = ground arith

  -- A readable frame addressed to the node, of a transfer that is active, with the toggle bit of
  -- the frame before it: `try_receive_frame` answers `InvalidFrameOrdering`, and the transfer stays
  -- as it was.
  pub try_receive_frame_repeated :
      (transfer : RxTransfer (can clock.Instant))
      → get token node.transfer_manager.rx_transfers ≡ some (active transfer)
      → meta.toggle_bit ≡ transfer.transport_metadata.toggle_bit
      → try_receive_frame manager node frame ≡ (stored transfer, err RxError.invalid_frame_ordering)
  unfolding try_receive_frame append_frame append_active update_rx_metadata
  try_receive_frame_repeated transfer found same = ground arith
