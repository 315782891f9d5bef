-- ===== src/MapManager/Tokens.antt =====
-- A token after its transfer is cancelled, cyphal/src/transfer/map_manager.rs.
use cyphal_rs.Base.{none, ◌==◌, if◌then◌else◌, ℕ, ◌≡◌, some, List, ok, err, arith}
use cyphal_rs.Clock.{Clock}
use cyphal_rs.HashMap.{get, get-remove, get-remove_self}
use cyphal_rs.Manager.{TokenAccessError}
use cyphal_rs.MapManager.Receive.{with_rx_transfer, cancel_rx_transfer}
use cyphal_rs.MapManager.State.{Hasher, TransferStatus, RxTransfer, TxTransfer, MapTransferManager}
use cyphal_rs.MapManager.Transmit.{transmit, cancel_tx_transfer}
use cyphal_rs.Transport.{Transport}
use cyphal_rs.Types.{TransferMetadata}

module _ ⦃clock : Clock⦄ ⦃hasher : Hasher⦄ (T : Transport clock.Instant) where
  -- Cancelling a transfer to receive, active or timed out, succeeds; `with_rx_transfer` then says
  -- that the token is invalid and does not call back, and all other transfers stay.
  with_rx_transfer-cancel_rx_transfer :
      {R : Type 0} (m : MapTransferManager T) (token : ℕ) (s : TransferStatus (RxTransfer T))
      (captured : R) (cb : TransferMetadata clock.Instant → List ℕ → R → R)
      → get token m.rx_transfers ≡ some s
      → (let cancelled = cancel_rx_transfer T m token in
          (cancelled.1 ≡ ok tt)
          × (with_rx_transfer T cancelled.0 token captured cb
              ≡ (cancelled.0, captured, err TokenAccessError.invalid_token))
          × (cancelled.0.tx_transfers ≡ m.tx_transfers)
          × ((other : ℕ)
              → get other cancelled.0.rx_transfers
                ≡ (if token == other then none else get other m.rx_transfers)))
  unfolding cancel_rx_transfer with_rx_transfer
  with_rx_transfer-cancel_rx_transfer m token s captured cb found =
      let gone = get-remove_self token m.rx_transfers in
      (
        ground arith,
        ground arith,
        ground arith,
        λ other. let kept = get-remove token other m.rx_transfers in ground arith,
      )

  -- Cancelling a transfer to send, active or timed out, succeeds; `transmit` then says that the
  -- token is invalid and does not call back, and all other transfers stay.
  transmit-cancel_tx_transfer :
      {R : Type 0} (m : MapTransferManager T) (token : ℕ) (s : TransferStatus (TxTransfer T))
      (captured : R)
      (cb : TransferMetadata clock.Instant → T.TxMetadata → List ℕ → R → R × T.TxMetadata × ℕ)
      → get token m.tx_transfers ≡ some s
      → (let cancelled = cancel_tx_transfer T m token in
          (cancelled.1 ≡ ok tt)
          × (transmit T cancelled.0 token captured cb
              ≡ (cancelled.0, captured, err TokenAccessError.invalid_token))
          × (cancelled.0.rx_transfers ≡ m.rx_transfers)
          × ((other : ℕ)
              → get other cancelled.0.tx_transfers
                ≡ (if token == other then none else get other m.tx_transfers)))
  unfolding cancel_tx_transfer transmit
  transmit-cancel_tx_transfer m token s captured cb found =
      let gone = get-remove_self token m.tx_transfers in
      (
        ground arith,
        ground arith,
        ground arith,
        λ other. let kept = get-remove token other m.tx_transfers in ground arith,
      )
