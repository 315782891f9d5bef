-- ===== src/Link/Sender.antt =====
-- `Node::transmit_frame` over classic CAN and the map manager, one frame at a time.
use cyphal_rs.Base.{
  ℕ, ◌+◌, ◌≤◌, ◌<◌, ◌≡◌, min, false, not, none, some, List, [], ◌∷◌, ◌++◌, leb, length,
  length-append, drop, drop-append, take, ok, arith,
}
use cyphal_rs.Bitfields.TailByte
use cyphal_rs.Can.Data.{CanFrame, TxMetadata, tx_default}
use cyphal_rs.Can
use cyphal_rs.Can.Transmit.{frame_id, can}
use cyphal_rs.Clock.{Clock}
use cyphal_rs.Crates.{Crates}
use cyphal_rs.CrcAny.{CrcAny}
use cyphal_rs.HashMap.{get, insert, remove}
use cyphal_rs.Manager.{TransferManager}
use cyphal_rs.MapManager.State.{Hasher, active, TxTransfer}
use cyphal_rs.MapManager.Timeout.{map_manager}
use cyphal_rs.MapManager.Transmit.{transmit, transmit_active}
use cyphal_rs.Node.Data.{Node}
use cyphal_rs.Node.Transmit.{transmit_frame}
use cyphal_rs.Types.{TransferMetadata}

-- The frame that carries the next bytes of `rest`.
abbrev pub next_frame :
    ⦃c : Crates⦄ {I : Type 0}
    → TransferMetadata I
    → TxMetadata
    → List ℕ
    → c.ExtendedId
    → I
    → CanFrame I
next_frame md tx rest id timestamp = record {
  timestamp = timestamp;
  id = id;
  payload =
      take (min 7 (length rest)) rest
      ++ (TailByte.new tx.first_frame (leb (length rest) 7) tx.toggle_bit md.transfer_id ∷ []);
}

module _ ⦃clock : Clock⦄ ⦃c : Crates⦄ ⦃k : CrcAny⦄ ⦃hasher : Hasher⦄ where
  -- The node that the theorems are about.
  abbrev pub manager : TransferManager clock (can clock.Instant)
  manager = map_manager clock (can clock.Instant)

  abbrev pub CanNode : Type 0
  CanNode = Node manager

  abbrev pub CanTxTransfer : Type 0
  CanTxTransfer = TxTransfer (can clock.Instant)

  -- A transfer as `create_transmission` stores it.
  abbrev pub fresh : TransferMetadata clock.Instant → List ℕ → CanTxTransfer
  fresh md payload = record {
    transfer_metadata = md;
    transport_metadata = tx_default;
    consumed = 0;
    payload = payload;
  }

  module _ (node : CanNode) (token : ℕ) (timestamp : clock.Instant) (transfer : CanTxTransfer)
      (found : get token node.transfer_manager.tx_transfers ≡ some (active transfer))
      (sent rest : List ℕ) (split : transfer.payload ≡ sent ++ rest)
      (used : transfer.consumed ≡ length sent) (id : c.ExtendedId)
      (named : frame_id transfer.transfer_metadata (leb (length rest) 7) node.id ≡ ok id) where
    rest_lem : drop transfer.consumed transfer.payload ≡ rest
    rest_lem = rw (split, used) (drop-append sent rest)

    -- More than seven bytes are left: the frame takes seven, and the token stays good.
    pub transmit_frame_more :
        7 < length rest
        → transmit_frame manager node token timestamp ≡ (
          record node {
            transfer_manager = record node.transfer_manager {
              tx_transfers =
                  insert token
                    (active (record transfer {
                      transport_metadata = record {
                        first_frame = false;
                        toggle_bit = not transfer.transport_metadata.toggle_bit;
                      };
                      consumed = transfer.consumed + 7;
                    }))
                    node.transfer_manager.tx_transfers;
            };
          },
          ok (
            next_frame transfer.transfer_metadata transfer.transport_metadata rest id timestamp,
            some token,
          ),
        )
    unfolding transmit_frame Can.Transmit.transmit_frame transmit transmit_active
    transmit_frame_more h = ground (arith, rest_lem, length-append sent rest)

    -- At most seven bytes are left: the frame takes all, and the transfer is gone.
    pub transmit_frame_last :
        length rest ≤ 7
        → transmit_frame manager node token timestamp ≡ (
          record node {
            transfer_manager = record node.transfer_manager {
              tx_transfers = remove token node.transfer_manager.tx_transfers;
            };
          },
          ok (
            next_frame transfer.transfer_metadata transfer.transport_metadata rest id timestamp,
            none,
          ),
        )
    unfolding transmit_frame Can.Transmit.transmit_frame transmit transmit_active
    transmit_frame_last h = ground (arith, rest_lem, length-append sent rest)
