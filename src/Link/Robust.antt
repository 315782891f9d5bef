-- ===== src/Link/Robust.antt =====
-- `Node::try_receive_frame` over classic CAN and the map manager, on any frame in any state.
use cyphal_rs.Base.{
  ℕ, ◌≢◌, sym, ap, ◌∙◌, Option, none, some, Result-cases, inl, inr, Result, panic, arith,
}
use cyphal_rs.Can.Data.{CanFrame, FrameMetadata, RxMetadata, rx_default, update_rx_metadata}
use cyphal_rs.Can.Receive.{rx_process_frame}
use cyphal_rs.Can.Safety.{rx_process_frame-panic}
use cyphal_rs.Can.Transmit.{can}
use cyphal_rs.Clock.{Clock}
use cyphal_rs.Crates.{Crates}
use cyphal_rs.CrcAny.{CrcAny}
use cyphal_rs.HashMap.{get}
use cyphal_rs.Link.Sender.{manager, CanNode}
use cyphal_rs.MapManager.State.{Hasher, active, timed_out, hash_metadata}
use cyphal_rs.MapManager.Table.{Rx}
use cyphal_rs.Node.Entry.{receive_step, start_step, receive_frame-Acts}
use cyphal_rs.Node.Interleaving.{Addressed-cases}
use cyphal_rs.Node.Receive.{addressed, receive_read, try_receive_frame}
use cyphal_rs.Types.{TransferFrame, RxError}

module _ ⦃k : CrcAny⦄ where
  update_rx_metadata-panic :
      {I : Type 0} (rx : RxMetadata) (meta : FrameMetadata) (frame : TransferFrame I)
      → (update_rx_metadata rx meta frame).1 ≢ panic
  unfolding update_rx_metadata
  update_rx_metadata-panic rx meta frame = ground arith

module _ ⦃clock : Clock⦄ ⦃c : Crates⦄ ⦃k : CrcAny⦄ ⦃hasher : Hasher⦄ where
  start_step-panic :
      (token : ℕ) (frame : TransferFrame clock.Instant) (meta : FrameMetadata)
      (entry : Rx (can clock.Instant))
      → (start_step (can clock.Instant) token frame meta entry).1 ≢ panic
  start_step-panic token frame meta (some s) = ground arith
  start_step-panic token frame meta none =
      let fails = update_rx_metadata-panic rx_default meta frame in
      elim (Result-cases ((update_rx_metadata rx_default meta frame).1)) [
        | inl e ↦ absurd (fails e)
        | inr (inl (x, e)) ↦ ground arith
        | inr (inr (x, e)) ↦ ground arith
      ]

  receive_step-panic :
      (token : ℕ) (frame : TransferFrame clock.Instant) (meta : FrameMetadata)
      (entry : Rx (can clock.Instant))
      → (receive_step (can clock.Instant) token frame meta entry).1 ≢ panic
  receive_step-panic token frame meta none = start_step-panic token frame meta none
  receive_step-panic token frame meta (some timed_out) = λ p. cc
  receive_step-panic token frame meta (some (active t)) =
      let fails = update_rx_metadata-panic t.transport_metadata meta frame in
      elim (Result-cases ((update_rx_metadata t.transport_metadata meta frame).1)) [
        | inl e ↦ absurd (fails e)
        | inr (inl (x, e)) ↦ ground arith
        | inr (inr (x, e)) ↦ ground arith
      ]

  receive_read-panic :
      (node : CanNode) (read : TransferFrame clock.Instant) (meta : FrameMetadata)
      → (receive_read manager node read meta).1 ≢ panic
  unfolding receive_read
  receive_read-panic node read meta =
      let token = hash_metadata read.metadata in
      let acts = (receive_frame-Acts (can clock.Instant) node.transfer_manager read meta).0 in
      let step =
        receive_step-panic token read meta (get token node.transfer_manager.rx_transfers) in
      elim (Addressed-cases (addressed node.id read.metadata)) [
        | inl e ↦
            rw (receive_read, e)
              (λ p. step (
                sym (ap (λ (q : Rx (can clock.Instant) × Result RxError (Option ℕ)). q.1) acts)
                ∙ p))
        | inr (inl e) ↦ rw (receive_read, e) (λ p. cc)
        | inr (inr e) ↦ rw (receive_read, e) (λ p. cc)
      ]

  -- Whatever frame a node receives, and whatever its transfers are, the call returns, with a token,
  -- with none or with an error: it does not panic. So the loop of a user goes on to the last frame.
  pub try_receive_frame-panic :
      (node : CanNode) (frame : CanFrame clock.Instant)
      → (try_receive_frame manager node frame).1 ≢ panic
  unfolding try_receive_frame
  try_receive_frame-panic node frame = elim (Result-cases (rx_process_frame frame)) [
    | inl e ↦ absurd (rx_process_frame-panic frame e)
    | inr (inl (x, e)) ↦ rw (try_receive_frame, e) (λ p. cc)
    | inr (inr ((read, meta), e)) ↦ rw (try_receive_frame, e) (receive_read-panic node read meta)
  ]
