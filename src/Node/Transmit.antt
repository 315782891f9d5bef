-- ===== src/Node/Transmit.antt =====
-- `Node::transmit_frame` of cyphal/src/node.rs.
use cyphal_rs.Base.{ℕ, Option, none, some, List, Result, ok, err, panic}
use cyphal_rs.Clock.{Clock}
use cyphal_rs.Manager.{TransferManager}
use cyphal_rs.Node.Data.{Node, TransmitFrameError, token_error, tx_error, invalid_handling}
use cyphal_rs.Transport.{Transport}
use cyphal_rs.Types.{NodeId, TransferMetadata}

module _ {clock : Clock} {T : Transport clock.Instant} (M : TransferManager clock T) where
  -- The closure that `transmit_frame` hands to the manager; it captures `frame_out`.
  unfoldable pub make_frame :
      Option NodeId
      → clock.Instant
      → TransferMetadata clock.Instant
      → T.TxMetadata
      → List ℕ
      → Result TransmitFrameError T.Frame
      → Result TransmitFrameError T.Frame × T.TxMetadata × ℕ
  make_frame id timestamp md tx bytes frame_out =
      let (tx', frame) = T.transmit_frame md tx bytes id timestamp in
      elim frame [
        | ok (made, consumed) ↦ (ok made, tx', consumed)
        | err e ↦ (err (tx_error e), tx', 0)
        | panic ↦ (panic, tx', 0)
      ]

  -- `if let Some(token) = token { let _ = cancel_tx_transfer(token); }`
  unfoldable pub clean_up : M.Manager → Option M.TxToken → M.Manager
  clean_up manager none = manager
  clean_up manager (some token) = (M.cancel_tx_transfer manager token).0

  -- `match res`, after the manager's call.
  unfoldable pub frame_result :
      Node M
      → Result TransmitFrameError T.Frame
      → Option M.TxToken
      → Node M × Result TransmitFrameError (T.Frame × Option M.TxToken)
  frame_result node (ok frame) token = (node, ok (frame, token))
  frame_result node (err (tx_error e)) token =
      (record node { transfer_manager = clean_up node.transfer_manager token }, err (tx_error e))
  frame_result node (err (token_error e)) token = (node, err (token_error e))
  frame_result node (err invalid_handling) token = (node, err invalid_handling)
  frame_result node panic token = (node, panic)

  unfoldable pub transmit_frame :
      Node M
      → M.TxToken
      → clock.Instant
      → Node M × Result TransmitFrameError (T.Frame × Option M.TxToken)
  unfolding make_frame clean_up frame_result
  transmit_frame node token timestamp =
      let (manager, frame_out, res) =
        M.transmit node.transfer_manager token (err invalid_handling)
          (make_frame node.id timestamp) in
      let node' : Node M = record node { transfer_manager = manager } in
      elim res [
        | ok token ↦ frame_result node' frame_out token
        | err e ↦ (node', err (token_error e))
        | panic ↦ (node', panic)
      ]
