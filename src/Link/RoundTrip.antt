-- ===== src/Link/RoundTrip.antt =====
-- A transfer from `start_tx_transfer` at one node to the token at the other.
use cyphal_rs.Base.{
  ℕ, suc, ◌+◌, ◌*◌, ◌%◌, ◌≤◌, ◌<◌, ◌≡◌, ◌≢◌, refl, Option, none, some, List, length, take,
  length-take, replicate, Result, ok, arith, ==-refl,
}
use cyphal_rs.Can.Data.{CanFrame}
use cyphal_rs.Can.Transmit.{can}
use cyphal_rs.Can.Ids.{wire_metadata, frame_id-some}
use cyphal_rs.Clock.{Clock}
use cyphal_rs.Crates.{Crates}
use cyphal_rs.CrcAny.{CrcAny}
use cyphal_rs.HashMap.{get, insert, get-insert_self}
use cyphal_rs.Link.Delivery.{CanRxTransfer, Delivered, hash_metadata-wire_metadata}
use cyphal_rs.Link.Exchange.{exchange}
use cyphal_rs.Link.Interleaved.{transmit_all, Delivered-mixed}
use cyphal_rs.Link.Sender.{manager, CanNode, fresh}
use cyphal_rs.Link.Start.{start_tx_transfer_lem}
use cyphal_rs.Link.Loop.{Ready}
use cyphal_rs.Link.Start.{sealed}
use cyphal_rs.Link.Split.{Refused, sealed-Refused}
use cyphal_rs.Link.Whole.{arrives}
use cyphal_rs.Manager.{InternalOrUserError, CreateTransferError}
use cyphal_rs.MapManager.State.{Hasher, active, hash_metadata}
use cyphal_rs.Node.Data.{
  TransmissionType, request_to, response_to, broadcast, tx_metadata, start_tx_transfer,
  transfer_kind_of, destination_of,
}
use cyphal_rs.Node.Interleaving.{receive_all, own_frames}
use cyphal_rs.Node.Receive.{addressed, for_us}
use cyphal_rs.Types.{TransferMetadata, Priority, PortId, TransferId, NodeId, message}

-- Which receivers a transmission is for; a node ID has seven bits on the bus.
abbrev pub Listens : TransmissionType → Option NodeId → Type 0
Listens broadcast own = Unit {0}
Listens (request_to id) own = own ≡ some (id % 128)
Listens (response_to id) own = own ≡ some (id % 128)

known_destination :
    (tx_kind : TransmissionType)
    → transfer_kind_of tx_kind ≢ message
    → (id : NodeId) × (destination_of tx_kind ≡ some id)
known_destination (request_to id) h = (id, refl)
known_destination (response_to id) h = (id, refl)
known_destination broadcast h = absurd (h refl)

module _ ⦃clock : Clock⦄ ⦃c : Crates⦄ ⦃k : CrcAny⦄ ⦃hasher : Hasher⦄ where
  addressed-Listens :
      (sender : CanNode) (timestamp t : clock.Instant) (priority : Priority) (port_id : PortId)
      (tx_kind : TransmissionType) (transfer_id : TransferId) (own : Option NodeId)
      → Listens tx_kind own
      → addressed own (
          wire_metadata
            (tx_metadata manager sender timestamp priority port_id tx_kind transfer_id)
            sender.id
            t)
        ≡ for_us
  addressed-Listens sender timestamp t priority port_id broadcast transfer_id own h = refl
  addressed-Listens sender timestamp t priority port_id (request_to id) transfer_id own h =
      rw (h, ==-refl (id % 128))
  addressed-Listens sender timestamp t priority port_id (response_to id) transfer_id own h =
      rw (h, ==-refl (id % 128))

module _ ⦃clock : Clock⦄ ⦃c : Crates⦄ ⦃k : CrcAny⦄ ⦃hasher : Hasher⦄ {E : Type 0}
    (time : ℕ → clock.Instant) (sender receiver : CanNode) (source : NodeId) (requested : ℕ)
    (timestamp : clock.Instant) (priority : Priority) (port_id : PortId)
    (tx_kind : TransmissionType) (transfer_id : TransferId) (cb : List ℕ → List ℕ × Result E ℕ)
    (written : List ℕ) (used : ℕ) where
  abbrev metadata : TransferMetadata clock.Instant
  metadata = tx_metadata manager sender timestamp priority port_id tx_kind transfer_id

  abbrev sent_as : ℕ
  sent_as = hash_metadata metadata

  abbrev received_as : ℕ
  received_as = hash_metadata (wire_metadata metadata sender.id timestamp)

  abbrev started : CanNode × Result (InternalOrUserError CreateTransferError E) ℕ
  started =
      start_tx_transfer manager sender requested timestamp priority port_id tx_kind transfer_id cb

  -- The sender once the transfer has started.
  abbrev stored : CanNode
  stored = record sender {
    transfer_manager = record sender.transfer_manager {
      tx_transfers =
          insert sent_as (active (fresh metadata (sealed (take used written))))
            sender.transfer_manager.tx_transfers;
    };
  }

  stored-Ready :
      sender.id ≡ some source
      → Listens tx_kind receiver.id
      → get received_as receiver.transfer_manager.rx_transfers ≡ none
      → Ready time sent_as received_as stored receiver metadata (sealed (take used written))
  stored-Ready known listens absent = record {
    named = λ last_frame.
        frame_id-some metadata sender.id source last_frame known (known_destination tx_kind);
    known = rw known;
    sending = get-insert_self sent_as _ _;
    ours = λ t.
        addressed-Listens sender timestamp t priority port_id tx_kind transfer_id receiver.id
          listens;
    hashed = λ t. hash_metadata-wire_metadata metadata sender.id t timestamp;
    absent = absent;
  }

  -- A node with an ID starts a transfer, with a callback that returns its buffer at the length it
  -- was given and has used no more than that, under a token that is free; the receiver is one that
  -- the transmission is for, and has no transfer under the token of the metadata that the frames
  -- carry. Unless the transfer has more than seven bytes and six of them in its last frame, the
  -- start returns the token, and sending frame after frame, one round for every seven bytes of
  -- the data and two of checksum, ends with the last frame. The receiver then holds the metadata,
  -- cut to their widths, and the very bytes under the token that it returned, and the sender has
  -- freed the transfer.
  pub exchange-start_tx_transfer :
      (fuel : ℕ)
      → sender.id ≡ some source
      → get sent_as sender.transfer_manager.tx_transfers ≡ none
      → cb (replicate requested 0) ≡ (written, ok used)
      → length written ≡ requested
      → used ≤ requested
      → Listens tx_kind receiver.id
      → get received_as receiver.transfer_manager.rx_transfers ≡ none
      → (7 < used → used % 7 ≢ 6)
      → used + 2 ≤ 7 * suc fuel
      → (started.1 ≡ ok sent_as)
        × Delivered sent_as received_as
            (wire_metadata metadata sender.id (time fuel))
            (take used written)
            (exchange time (suc fuel) started.0 sent_as receiver)
  exchange-start_tx_transfer fuel known free wrote kept fits listens absent whole enough =
      let starts =
        start_tx_transfer_lem sender requested timestamp priority port_id tx_kind transfer_id cb
          written used wrote kept free fits in
      let len : length (take used written) ≡ used = omega (arith, length-take used written) in
      let sender' : CanNode = started.0 in
      rw starts (
        refl,
        arrives time sent_as received_as fuel stored receiver metadata (take used written)
            (stored-Ready known listens absent) (rw len whole) (rw len enough),
      )

  -- Under the same conditions, a transfer that has more than seven bytes and six of them in its
  -- last frame does not arrive: two bytes of checksum make it longer by a frame that carries a
  -- single byte, which the receiver refuses as `InvalidPayload`. The start returns the token, and
  -- the exchange ends with the last frame, its refusal, and a sender that has freed the transfer.
  pub exchange-start_tx_transfer-Refused :
      (fuel : ℕ)
      → sender.id ≡ some source
      → get sent_as sender.transfer_manager.tx_transfers ≡ none
      → cb (replicate requested 0) ≡ (written, ok used)
      → length written ≡ requested
      → used ≤ requested
      → Listens tx_kind receiver.id
      → get received_as receiver.transfer_manager.rx_transfers ≡ none
      → 7 < used
      → used % 7 ≡ 6
      → used + 2 ≤ 7 * suc fuel
      → (started.1 ≡ ok sent_as)
        × Refused sent_as (exchange time (suc fuel) started.0 sent_as receiver)
  exchange-start_tx_transfer-Refused fuel known free wrote kept fits listens absent long half
        enough =
      let starts =
        start_tx_transfer_lem sender requested timestamp priority port_id tx_kind transfer_id cb
          written used wrote kept free fits in
      let bytes = take used written in
      let len : length bytes ≡ used = omega (arith, length-take used written) in
      rw starts (
        refl,
        sealed-Refused time sent_as received_as fuel stored receiver metadata bytes
            (stored-Ready known listens absent) (rw len long) (rw len half) (rw len enough),
      )

  -- Under the conditions of `exchange-start_tx_transfer`, but with the frames among others: what reaches the
  -- receiver is any sequence of frames of which those that the receiver reads as frames of this
  -- transfer, by the token that their metadata have there, are the ones sent, in order. Whatever the
  -- others are, frames of other transfers, for other nodes or unreadable, and whatever they are
  -- answered, a loop that hands frame after frame to the receiver leaves it with the metadata, cut
  -- to their widths, and the very bytes under the token.
  pub receive_all-start_tx_transfer :
      (fuel : ℕ) (mixed : List (CanFrame clock.Instant))
      → sender.id ≡ some source
      → get sent_as sender.transfer_manager.tx_transfers ≡ none
      → cb (replicate requested 0) ≡ (written, ok used)
      → length written ≡ requested
      → used ≤ requested
      → Listens tx_kind receiver.id
      → get received_as receiver.transfer_manager.rx_transfers ≡ none
      → (7 < used → used % 7 ≢ 6)
      → used + 2 ≤ 7 * suc fuel
      → own_frames (can clock.Instant) received_as receiver.id mixed
        ≡ transmit_all time (suc fuel) started.0 sent_as
      → (started.1 ≡ ok sent_as)
        × ((transfer : CanRxTransfer) × (get received_as
                (receive_all (can clock.Instant) receiver mixed).transfer_manager.rx_transfers
              ≡ some (active transfer))
            × (transfer.transfer_metadata ≡ wire_metadata metadata sender.id (time fuel))
            × (transfer.payload ≡ take used written))
  receive_all-start_tx_transfer fuel mixed known free wrote kept fits listens absent whole enough
        own =
      let (starts, delivered) =
        exchange-start_tx_transfer fuel known free wrote kept fits listens absent whole enough in
      (
        starts,
        Delivered-mixed time (suc fuel) sent_as received_as started.0 receiver _ _ mixed delivered
            own,
      )
