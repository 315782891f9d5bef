-- ===== src/MapManager/Failure.antt =====
-- `Node::transmit_frame` over `MapTransferManager`, for a frame that the transport does not make.
use cyphal_rs.Base.{
  ℕ, ◌+◌, ◌≤◌, ◌≡◌, none, some, leb, length, drop, Bool-cases, inl, inr, err, arith,
}
use cyphal_rs.Clock.{Clock}
use cyphal_rs.HashMap.{get, insert, get-remove_self, get-insert_self}
use cyphal_rs.MapManager.State.{Hasher, active, TxTransfer}
use cyphal_rs.MapManager.Timeout.{map_manager}
use cyphal_rs.MapManager.Transmit.{transmit, transmit_active, cancel_tx_transfer}
use cyphal_rs.Node.Data.{Node, tx_error}
use cyphal_rs.Node.Transmit.{transmit_frame}
use cyphal_rs.Transport.{Transport}
use cyphal_rs.Types.{TxError}

module _ ⦃clock : Clock⦄ ⦃hasher : Hasher⦄ (T : Transport clock.Instant) where
  -- Over any transport: if the transport makes no frame of what is left of an active transfer,
  -- `transmit_frame` returns the transport's error and the transfer is gone.
  pub transmit_frame_cancelled :
      (node : Node (map_manager clock T)) (token : ℕ) (timestamp : clock.Instant) (t : TxTransfer T)
      (e : TxError)
      → get token node.transfer_manager.tx_transfers ≡ some (active t)
      → t.consumed ≤ length t.payload
      → (T.transmit_frame t.transfer_metadata t.transport_metadata
          (drop t.consumed t.payload)
          node.id
          timestamp).1
        ≡ err e
      → ((transmit_frame (map_manager clock T) node token timestamp).1 ≡ err (tx_error e))
        × (get token
              (transmit_frame
                (map_manager clock T)
                node
                token
                timestamp).0.transfer_manager.tx_transfers
            ≡ none)
  unfolding transmit_frame transmit transmit_active cancel_tx_transfer
  transmit_frame_cancelled node token timestamp t e found room fails =
      let md =
        (T.transmit_frame t.transfer_metadata t.transport_metadata (drop t.consumed t.payload)
          node.id timestamp).0 in
      let instead : TxTransfer T = record t {
        transport_metadata = md;
        consumed = t.consumed + 0;
      } in
      let gone = get-remove_self token node.transfer_manager.tx_transfers in
      elim (Bool-cases (leb (length t.payload) (t.consumed + 0))) [
        | inl done ↦ ground (arith, gone)
        | inr more ↦ ground (
          arith,
          gone,
          get-insert_self token (active instead) node.transfer_manager.tx_transfers,
          get-remove_self token (insert token (active instead) node.transfer_manager.tx_transfers),
        )
      ]
