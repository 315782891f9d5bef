-- ===== src/MapManager/Timeout.antt =====
-- `update_transfers` of cyphal/src/transfer/map_manager.rs, and the manager as an instance of the
-- trait.
use cyphal_rs.Base.{ℕ, some, if◌then◌else◌, Result, ok, ◌>>=◌}
use cyphal_rs.Clock.{Clock}
use cyphal_rs.HashMap.{for_values}
use cyphal_rs.Manager.{TransferManager, timestamp_expired}
use cyphal_rs.MapManager.Receive.{append_frame, new_transfer, with_rx_transfer, cancel_rx_transfer}
use cyphal_rs.MapManager.State.{
  Hasher, TransferStatus, active, timed_out, RxTransfer, TxTransfer, MapTransferManager,
}
use cyphal_rs.MapManager.Transmit.{create_transmission, transmit, cancel_tx_transfer}
use cyphal_rs.Transport.{Transport}

module _ ⦃clock : Clock⦄ where
  -- The body of both loops, with the start of a transfer read from it by `started`.
  unfoldable pub expire :
      {D E : Type 0}
      → (D → clock.Instant)
      → clock.Instant
      → ℕ
      → TransferStatus D
      → Result E (TransferStatus D)
  expire started timestamp timeout timed_out = ok timed_out
  expire started timestamp timeout (active transfer) = do
    expired ← timestamp_expired timeout timestamp (some (started transfer))
    ok (if expired then timed_out else active transfer)

  unfoldable pub update_transfers :
      {E : Type 0} (T : Transport clock.Instant)
      → MapTransferManager T
      → clock.Instant
      → ℕ
      → Result E (MapTransferManager T)
  update_transfers T m timestamp timeout = do
    tx ←
        for_values (expire (λ (t : TxTransfer T). t.transfer_metadata.timestamp) timestamp timeout)
          m.tx_transfers
    rx ←
        for_values (expire (λ (t : RxTransfer T). t.transfer_metadata.timestamp) timestamp timeout)
          m.rx_transfers
    ok (record { rx_transfers = rx; tx_transfers = tx })

-- `impl TransferManager for MapTransferManager`.
abbrev pub map_manager :
    (clock : Clock) ⦃hasher : Hasher⦄ (T : Transport clock.Instant) → TransferManager clock T
map_manager clock T =
    let instance here = clock in
    record {
      Manager = MapTransferManager T;
      RxToken = ℕ;
      TxToken = ℕ;
      append_frame = append_frame T;
      new_transfer = new_transfer T;
      with_rx_transfer = with_rx_transfer T;
      cancel_rx_transfer = cancel_rx_transfer T;
      create_transmission = create_transmission T;
      transmit = transmit T;
      cancel_tx_transfer = cancel_tx_transfer T;
      update_transfers = update_transfers T;
    }
