-- ===== src/Transport.antt =====
-- The trait `Transport` of cyphal/src/transport/mod.rs as a record: what a node and a transfer
-- manager ask of a link layer. A `&mut` argument is taken and returned.
use cyphal_rs.Base.{ℕ, List, Option, Result}
use cyphal_rs.Types.{TransferMetadata, TransferFrame, NodeId, RxError, TxError}

pub record Transport (I : Type 0) : Type 1 where
  pub Frame : Type 0
  pub FrameMetadata : Type 0
  pub TxMetadata : Type 0
  pub tx_default : TxMetadata
  pub RxMetadata : Type 0
  pub rx_default : RxMetadata
  pub mtu_size : ℕ
  pub crc_size : ℕ
  pub get_crc_padded_size : ℕ → ℕ
  pub update_rx_metadata :
      RxMetadata → FrameMetadata → TransferFrame I → RxMetadata × Result RxError (Unit {0})
  pub process_tx_crc : {E : Type 0} → List ℕ → ℕ → Result E (List ℕ × ℕ)
  pub rx_process_frame : Frame → Result RxError (TransferFrame I × FrameMetadata)
  pub transmit_frame :
      TransferMetadata I
      → TxMetadata
      → List ℕ
      → Option NodeId
      → I
      → TxMetadata × Result TxError (Frame × ℕ)
