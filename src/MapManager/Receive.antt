-- ===== src/MapManager/Receive.antt =====
-- The receiving half of `TransferManager for MapTransferManager`,
-- cyphal/src/transfer/map_manager.rs.
use cyphal_rs.Base.{ℕ, Option, none, some, List, ◌++◌, if◌then◌else◌, Result, ok, err, panic}
use cyphal_rs.Clock.{Clock}
use cyphal_rs.HashMap.{get, insert, remove}
use cyphal_rs.Manager.{UpdateTransferError, CreateTransferError, TokenAccessError}
use cyphal_rs.MapManager.State.{
  Hasher, active, timed_out, RxTransfer, MapTransferManager, hash_metadata,
}
use cyphal_rs.Transport.{Transport}
use cyphal_rs.Types.{TransferMetadata, TransferFrame}

module _ ⦃clock : Clock⦄ ⦃hasher : Hasher⦄ (T : Transport clock.Instant) where
  -- The arm of `append_frame` for an active transfer. The entry is changed in place: what
  -- `update_rx_metadata` wrote stays there when it fails.
  unfoldable pub append_active :
      MapTransferManager T
      → ℕ
      → RxTransfer T
      → TransferFrame clock.Instant
      → T.FrameMetadata
      → MapTransferManager T × Result UpdateTransferError (Option ℕ)
  append_active m token transfer frame metadata =
      let (md, result) = T.update_rx_metadata transfer.transport_metadata metadata frame in
      let updated : RxTransfer T = record transfer { transport_metadata = md } in
      let appended : RxTransfer T = record updated {
        payload = transfer.payload ++ frame.payload;
      } in
      elim result [
        | err e ↦ (
          record m { rx_transfers = insert token (active updated) m.rx_transfers },
          err (UpdateTransferError.rx_error e),
        )
        | panic ↦ (record m { rx_transfers = insert token (active updated) m.rx_transfers }, panic)
        | ok _ ↦ (
          record m { rx_transfers = insert token (active appended) m.rx_transfers },
          ok (if frame.last_frame then some token else none),
        )
      ]

  unfoldable pub append_frame :
      MapTransferManager T
      → TransferFrame clock.Instant
      → T.FrameMetadata
      → MapTransferManager T × Result UpdateTransferError (Option ℕ)
  append_frame m frame metadata =
      let token = hash_metadata frame.metadata in
      elim (get token m.rx_transfers) [
        | none ↦ (m, err UpdateTransferError.does_not_exist)
        | some timed_out ↦ (m, err UpdateTransferError.timed_out)
        | some (active transfer) ↦ append_active m token transfer frame metadata
      ]

  unfoldable pub insert_new :
      MapTransferManager T
      → ℕ
      → TransferFrame clock.Instant
      → T.FrameMetadata
      → MapTransferManager T × Result CreateTransferError (Option ℕ)
  insert_new m token frame metadata =
      let (md, result) = T.update_rx_metadata T.rx_default metadata frame in
      let transfer : RxTransfer T = record {
        transfer_metadata = frame.metadata;
        transport_metadata = md;
        payload = frame.payload;
      } in
      elim result [
        | err e ↦ (m, err (CreateTransferError.rx_error e))
        | panic ↦ (m, panic)
        | ok _ ↦ (
          record m { rx_transfers = insert token (active transfer) m.rx_transfers },
          ok (if frame.last_frame then some (hash_metadata frame.metadata) else none),
        )
      ]

  unfoldable pub new_transfer :
      MapTransferManager T
      → TransferFrame clock.Instant
      → T.FrameMetadata
      → MapTransferManager T × Result CreateTransferError (Option ℕ)
  new_transfer m frame metadata =
      let token = hash_metadata frame.metadata in
      elim (get token m.rx_transfers) [
        | some _ ↦ (m, err CreateTransferError.already_exists)
        | none ↦ insert_new m token frame metadata
      ]

  unfoldable pub with_rx_transfer :
      {R : Type 0}
      → MapTransferManager T
      → ℕ
      → R
      → (TransferMetadata clock.Instant → List ℕ → R → R)
      → MapTransferManager T × R × Result TokenAccessError (Unit {0})
  with_rx_transfer m token captured cb = elim (get token m.rx_transfers) [
    | some timed_out ↦ (m, captured, err TokenAccessError.transfer_timeout)
    | some (active transfer) ↦ (m, cb transfer.transfer_metadata transfer.payload captured, ok tt)
    | none ↦ (m, captured, err TokenAccessError.invalid_token)
  ]

  unfoldable pub cancel_rx_transfer :
      MapTransferManager T → ℕ → MapTransferManager T × Result TokenAccessError (Unit {0})
  cancel_rx_transfer m token = elim (get token m.rx_transfers) [
    | some _ ↦ (record m { rx_transfers = remove token m.rx_transfers }, ok tt)
    | none ↦ (m, err TokenAccessError.invalid_token)
  ]
