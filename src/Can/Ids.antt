-- ===== src/Can/Ids.antt =====
-- The CAN ID that `transmit_frame` builds, as `rx_process_frame` reads it.
use mathlib.Core.Option
use cyphal_rs.Base.{
  ℕ, ◌%◌, ◌≡◌, ◌≢◌, refl, Bool, true, ◌&&◌, Option, none, some, ◌⊎◌, inl, inr, Option-cases, ok,
  arith,
}
use cyphal_rs.Bitfields.CanMessageId
use cyphal_rs.Bitfields.CanServiceId
use cyphal_rs.Bitfields.TailByte
use cyphal_rs.Can.Receive.{frame_metadata, service_metadata, message_metadata}
use cyphal_rs.Can.Transmit.{frame_id, service_frame_id}
use cyphal_rs.Crates.{Crates}
use cyphal_rs.Types.{
  NodeId, TransferKind, message, request, response, TransferMetadata, TxError, kind_eq,
}

-- A port ID and a destination as an ID of that kind can carry them.
abbrev wire_port : TransferKind → ℕ → ℕ
wire_port message port = port % 8192
wire_port request port = port % 512
wire_port response port = port % 512

abbrev wire_destination : TransferKind → Option NodeId → Option NodeId
wire_destination message id = none
wire_destination request id = Option.map (λ n. n % 128) id
wire_destination response id = Option.map (λ n. n % 128) id

Kind-cases : (kind : TransferKind) → (kind ≡ message) ⊎ (kind ≢ message)
Kind-cases message = inl refl
Kind-cases request = inr (λ e. cc)
Kind-cases response = inr (λ e. cc)

module _ {I : Type 0} where
  -- The metadata of a transfer as a receiver sees it: each field cut to its width, the time of
  -- the frame, and the source node, or 4 if the sender is anonymous.
  abbrev pub wire_metadata : TransferMetadata I → Option NodeId → I → TransferMetadata I
  wire_metadata md node_id timestamp = record {
    timestamp = timestamp;
    priority = md.priority;
    transfer_kind = md.transfer_kind;
    port_id = wire_port md.transfer_kind md.port_id;
    source_node_id = some (CanMessageId.source_or_four node_id % 128);
    destination_node_id = wire_destination md.transfer_kind md.destination_node_id;
    transfer_id = md.transfer_id % 32;
  }

module _ ⦃c : Crates⦄ where
  -- Both views of an ID agree on whether it is a service's.
  is_svc-is_svc : (raw : ℕ) → CanServiceId.is_svc raw ≡ CanMessageId.is_svc raw
  unfolding CanServiceId.is_svc CanMessageId.is_svc
  is_svc-is_svc raw = refl

module _ ⦃c : Crates⦄ {I : Type 0} (md : TransferMetadata I) where
  -- A message's ID is what `CanMessageId::new` makes.
  frame_id-IsMessage :
      (last_frame : Bool) (node_id : Option NodeId) (id : c.ExtendedId)
      → md.transfer_kind ≡ message
      → frame_id md last_frame node_id ≡ ok id
      → CanMessageId.IsMessage md.priority md.port_id node_id (c.as_raw id)
  unfolding frame_id
  frame_id-IsMessage last_frame node_id id k made =
      let (id', made', w) =
        CanMessageId.new-IsMessage {E = TxError} md.priority md.port_id node_id in
      let same : id' ≡ id = ground arith in rw same at w

  -- A service frame's ID is what `CanServiceId::new` makes, and both nodes are known.
  frame_id-IsService :
      (last_frame : Bool) (node_id : Option NodeId) (id : c.ExtendedId)
      → md.transfer_kind ≢ message
      → frame_id md last_frame node_id ≡ ok id
      → (source : NodeId) × (destination : NodeId) × (node_id ≡ some source)
        × (md.destination_node_id ≡ some destination)
        × CanServiceId.IsService md.priority
            (kind_eq md.transfer_kind request)
            md.port_id
            destination
            source
            (c.as_raw id)
  unfolding frame_id service_frame_id
  frame_id-IsService last_frame node_id id k made = elim (Option-cases node_id) [
    | inl none_s ↦ absurd (ground arith)
    | inr (source, some_s) ↦ elim (Option-cases md.destination_node_id) [
      | inl none_d ↦ absurd (ground arith)
      | inr (destination, some_d) ↦
          let (id', made', w) =
            CanServiceId.new-IsService {E = TxError} md.priority (kind_eq md.transfer_kind request)
              md.port_id destination source in
          let same : id' ≡ id = ground arith in (source, destination, some_s, some_d, rw same at w)
    ]
  ]

module _ ⦃c : Crates⦄ {I : Type 0} (md : TransferMetadata I) (timestamp : I) {s e t : Bool}
    (tail : ℕ) (read : TailByte.IsTail s e t md.transfer_id tail) where
  message_read :
      (node_id : Option NodeId) (raw : ℕ)
      → md.transfer_kind ≡ message
      → (CanMessageId.is_none node_id ≡ true → (s && e) ≡ true)
      → CanMessageId.IsMessage md.priority md.port_id node_id raw
      → frame_metadata timestamp raw tail ≡ ok (wire_metadata md node_id timestamp)
  unfolding frame_metadata message_metadata
  message_read node_id raw k anon w = ground (arith, is_svc-is_svc raw, c.from_u8_lem md.priority)

  service_read :
      (source destination raw : ℕ)
      → md.transfer_kind ≢ message
      → md.destination_node_id ≡ some destination
      → CanServiceId.IsService md.priority
          (kind_eq md.transfer_kind request)
          md.port_id
          destination
          source
          raw
      → frame_metadata timestamp raw tail ≡ ok (wire_metadata md (some source) timestamp)
  unfolding frame_metadata service_metadata
  service_read source destination raw k d w = ground (arith, c.from_u8_lem md.priority)

  -- Whatever ID `frame_id` returns for the metadata, the receiver reads from it, and from a tail
  -- byte with their transfer ID, the same metadata, each field cut to its width on the wire and
  -- 4 as the source of an anonymous sender, the ID that stands in for a random one; an anonymous
  -- sender's frame must be a single one.
  pub frame_metadata-frame_id :
      (last_frame : Bool) (node_id : Option NodeId) (id : c.ExtendedId)
      → frame_id md last_frame node_id ≡ ok id
      → (CanMessageId.is_none node_id ≡ true → (s && e) ≡ true)
      → frame_metadata timestamp (c.as_raw id) tail ≡ ok (wire_metadata md node_id timestamp)
  unfolding frame_id service_frame_id
  frame_metadata-frame_id last_frame node_id id made anon = elim (Kind-cases md.transfer_kind) [
    | inl k ↦
        message_read node_id (c.as_raw id) k anon
          (frame_id-IsMessage md last_frame node_id id k made)
    | inr k ↦
        let (source, destination, some_s, some_d, w) =
          frame_id-IsService md last_frame node_id id k made in
        rw some_s (service_read source destination (c.as_raw id) k some_d w)
  ]

module _ ⦃c : Crates⦄ {I : Type 0} (md : TransferMetadata I) where
  -- A node with an ID can name every frame of a message, and of a service transfer whose
  -- destination is known.
  pub frame_id-some :
      (node_id : Option NodeId) (source : NodeId) (last_frame : Bool)
      → node_id ≡ some source
      → ((md.transfer_kind ≢ message) → (d : NodeId) × (md.destination_node_id ≡ some d))
      → (id : c.ExtendedId) × (frame_id md last_frame node_id ≡ ok id)
  unfolding frame_id service_frame_id
  frame_id-some node_id source last_frame sender known = elim (Kind-cases md.transfer_kind) [
    | inl k ↦
        let (id, made, _) =
          CanMessageId.new-IsMessage {E = TxError} md.priority md.port_id (some source) in
        (id, ground arith)
    | inr k ↦
        let (d, e) = known k in
        let (id, made, _) =
          CanServiceId.new-IsService {E = TxError} md.priority (kind_eq md.transfer_kind request)
            md.port_id d source in
        (id, ground arith)
  ]
