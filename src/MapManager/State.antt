-- ===== src/MapManager/State.antt =====
-- The state of `MapTransferManager`, cyphal/src/transfer/map_manager.rs.
use cyphal_rs.Base.{ℕ, List, []}
use cyphal_rs.Clock.{Clock}
use cyphal_rs.Transport.{Transport}
use cyphal_rs.Types.{TransferMetadata}
use cyphal_rs.Types.Hashing.{HashWrite, hash_writes}

-- `DefaultHasher`: the hash of a sequence of writes.
pub record Hasher : Type 0 where
  pub finish : List HashWrite → ℕ

pub data TransferStatus (D : Type 0) : Type 0 where
  active : D → TransferStatus D
  timed_out : TransferStatus D

module _ ⦃clock : Clock⦄ (T : Transport clock.Instant) where
  pub record RxTransfer : Type 0 where
    pub transfer_metadata : TransferMetadata clock.Instant
    pub transport_metadata : T.RxMetadata
    pub payload : List ℕ

  pub record TxTransfer : Type 0 where
    pub transfer_metadata : TransferMetadata clock.Instant
    pub transport_metadata : T.TxMetadata
    pub consumed : ℕ
    pub payload : List ℕ

  -- `RxToken` and `TxToken` are the keys.
  pub record MapTransferManager : Type 0 where
    pub rx_transfers : List (ℕ × TransferStatus RxTransfer)
    pub tx_transfers : List (ℕ × TransferStatus TxTransfer)

  -- `MapTransferManager::new`.
  abbrev pub new : MapTransferManager
  new = record { rx_transfers = []; tx_transfers = [] }

module _ ⦃hasher : Hasher⦄ {I : Type 0} where
  unfoldable pub hash_metadata : TransferMetadata I → ℕ
  hash_metadata md = hasher.finish (hash_writes md)
