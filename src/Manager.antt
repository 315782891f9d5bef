-- ===== src/Manager.antt =====
-- cyphal/src/transfer/manager.rs: the errors, the trait `TransferManager` as a record, and
-- `timestamp_expired`.
use cyphal_rs.Base.{ℕ, Bool, false, List, Option, none, some, Result, ok, ◌>>=◌, unwrap}
use cyphal_rs.Clock.{Clock}
use cyphal_rs.Transport.{Transport}
use cyphal_rs.Types.{TransferMetadata, TransferFrame, RxError}

pub data UpdateTransferError : Type 0 where
  no_space does_not_exist timed_out : UpdateTransferError
  rx_error : RxError → UpdateTransferError

pub data CreateTransferError : Type 0 where
  no_space already_exists : CreateTransferError
  rx_error : RxError → CreateTransferError

pub data TokenAccessError : Type 0 where
  invalid_token transfer_timeout : TokenAccessError

pub data InternalOrUserError (I U : Type 0) : Type 0 where
  internal_error : I → InternalOrUserError I U
  user_error : U → InternalOrUserError I U

-- The trait. A `&mut self` is taken and returned. A callback is a function on what it captures
-- (`R`) and on its arguments; a `&mut` argument of the callback is returned beside its result.
pub record TransferManager (clock : Clock) (T : Transport clock.Instant) : Type 1 where
  pub Manager : Type 0
  pub RxToken : Type 0
  pub TxToken : Type 0
  pub append_frame :
      Manager
      → TransferFrame clock.Instant
      → T.FrameMetadata
      → Manager × Result UpdateTransferError (Option RxToken)
  pub new_transfer :
      Manager
      → TransferFrame clock.Instant
      → T.FrameMetadata
      → Manager × Result CreateTransferError (Option RxToken)
  pub with_rx_transfer :
      {R : Type 0}
      → Manager
      → RxToken
      → R
      → (TransferMetadata clock.Instant → List ℕ → R → R)
      → Manager × R × Result TokenAccessError (Unit {0})
  pub cancel_rx_transfer : Manager → RxToken → Manager × Result TokenAccessError (Unit {0})
  pub create_transmission :
      {E : Type 0}
      → Manager
      → ℕ
      → TransferMetadata clock.Instant
      → (List ℕ → List ℕ × Result E ℕ)
      → Manager × Result (InternalOrUserError CreateTransferError E) TxToken
  pub transmit :
      {R : Type 0}
      → Manager
      → TxToken
      → R
      → (TransferMetadata clock.Instant → T.TxMetadata → List ℕ → R → R × T.TxMetadata × ℕ)
      → Manager × R × Result TokenAccessError (Option TxToken)
  pub cancel_tx_transfer : Manager → TxToken → Manager × Result TokenAccessError (Unit {0})
  pub update_transfers : Manager → clock.Instant → ℕ → Result ⊥ Manager

module _ ⦃clock : Clock⦄ where
  unfoldable pub timestamp_expired :
      {E : Type 0} → ℕ → clock.Instant → Option clock.Instant → Result E Bool
  timestamp_expired timeout now none = ok false
  timestamp_expired timeout now (some before) = do
    elapsed ← unwrap (clock.since now before)
    limit ← unwrap (clock.to_generic timeout)
    ok (clock.longer elapsed limit)
