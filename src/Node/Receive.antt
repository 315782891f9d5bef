-- ===== src/Node/Receive.antt =====
-- `Node::try_receive_frame` of cyphal/src/node.rs.
use cyphal_rs.Base.{not, Option, none, some, ◌==◌, if◌then◌else◌, Result, ok, err, panic}
use cyphal_rs.Clock.{Clock}
use cyphal_rs.Manager.{TransferManager, UpdateTransferError, CreateTransferError}
use cyphal_rs.Node.Data.{Node}
use cyphal_rs.Transport.{Transport}
use cyphal_rs.Types.{
  NodeId, TransferKind, message, request, response, TransferMetadata, TransferFrame, RxError,
}

-- What becomes of a frame before the transfer manager sees it.
pub data Addressed : Type 0 where
  for_us not_for_us broken : Addressed

-- `match self.id`.
abbrev pub addressed_to : Option NodeId → NodeId → Addressed
addressed_to none node_id = not_for_us
addressed_to (some id) node_id = if not (node_id == id) then not_for_us else for_us

-- `match frame.metadata.transfer_kind`.
abbrev pub addressed_kind : TransferKind → Option NodeId → NodeId → Addressed
addressed_kind message own node_id = broken
addressed_kind request own node_id = addressed_to own node_id
addressed_kind response own node_id = addressed_to own node_id

-- `if let Some(node_id) = frame.metadata.destination_node_id`.
abbrev pub addressed : {I : Type 0} → Option NodeId → TransferMetadata I → Addressed
addressed own md = elim md.destination_node_id [
  | none ↦ for_us
  | some node_id ↦ addressed_kind md.transfer_kind own node_id
]

-- What `try_receive_frame` makes of the result of `new_transfer`.
abbrev pub of_new {ℓ} :
    {T : Type ℓ} → Result CreateTransferError (Option T) → Result RxError (Option T)
of_new (ok token) = ok token
of_new (err CreateTransferError.already_exists) = ok none
of_new (err CreateTransferError.no_space) = ok none
of_new (err (CreateTransferError.rx_error e)) = ok none
of_new panic = panic

module _ {clock : Clock} {T : Transport clock.Instant} (M : TransferManager clock T) where
  -- The arm for a frame that belongs to no transfer.
  unfoldable pub receive_new :
      M.Manager
      → TransferFrame clock.Instant
      → T.FrameMetadata
      → M.Manager × Result RxError (Option M.RxToken)
  receive_new manager frame metadata =
      if not frame.first_frame
      then (manager, err RxError.new_session_no_start)
      else (let (manager', result) = M.new_transfer manager frame metadata in
          (manager', of_new result))

  -- `match self.transfer_manager.append_frame(…)`.
  unfoldable pub receive_frame :
      M.Manager
      → TransferFrame clock.Instant
      → T.FrameMetadata
      → M.Manager × Result RxError (Option M.RxToken)
  unfolding receive_new
  receive_frame manager frame metadata =
      let (manager', result) = M.append_frame manager frame metadata in
      elim result [
        | ok token ↦ (manager', ok token)
        | err UpdateTransferError.no_space ↦ (manager', ok none)
        | err UpdateTransferError.does_not_exist ↦ receive_new manager' frame metadata
        | err (UpdateTransferError.rx_error e) ↦ (manager', err e)
        | err UpdateTransferError.timed_out ↦ (manager', err RxError.timeout)
        | panic ↦ (manager', panic)
      ]

  -- The frame as `rx_process_frame` has read it.
  unfoldable pub receive_read :
      Node M
      → TransferFrame clock.Instant
      → T.FrameMetadata
      → Node M × Result RxError (Option M.RxToken)
  unfolding receive_frame
  receive_read node frame metadata =
      let (manager, result) = receive_frame node.transfer_manager frame metadata in
      elim (addressed node.id frame.metadata) [
        | broken ↦ (node, err RxError.message_with_remote_id)
        | not_for_us ↦ (node, ok none)
        | for_us ↦ (record node { transfer_manager = manager }, result)
      ]

  unfoldable pub try_receive_frame : Node M → T.Frame → Node M × Result RxError (Option M.RxToken)
  unfolding receive_read
  try_receive_frame node frame = elim (T.rx_process_frame frame) [
    | err e ↦ (node, err e)
    | panic ↦ (node, panic)
    | ok (read, metadata) ↦ receive_read node read metadata
  ]
