-- ===== src/Sessions/Api.antt =====
-- What heap_manager.rs and std_vec.rs take from modules that the crate does not have: the frame,
-- the session metadata of a transport, the errors, and the transfer that a manager hands out.
use cyphal_rs.Base.{ℕ, Bool, Option, List}
use cyphal_rs.Clock.{Clock}
use cyphal_rs.Types.{NodeId, TransferId, Subscription}

pub record SessionApi (clock : Clock) : Type 1 where
  -- `InternalRxFrame`, by its fields.
  pub Frame : Type 0
  pub timestamp : Frame → clock.Instant
  pub source_node_id : Frame → Option NodeId
  pub transfer_id : Frame → TransferId
  pub payload : Frame → List ℕ
  pub start_of_transfer : Frame → Bool
  pub end_of_transfer : Frame → Bool
  -- The trait `SessionMetadata`; `update` answers how many bytes of the frame are payload.
  pub Metadata : Type 0
  pub new : Metadata
  pub update : Metadata → Frame → Metadata × Option ℕ
  pub is_valid : Metadata → Frame → Bool
  -- `SessionError` and `SubscriptionError`.
  pub SessionError : Type 0
  pub new_session_no_start : SessionError
  pub timeout : SessionError
  pub bad_metadata : SessionError
  pub SubscriptionError : Type 0
  pub subscription_exists : SubscriptionError
  pub subscription_does_not_exist : SubscriptionError
  -- `SessionManager::matches_sub`.
  pub matches_sub : Subscription → Frame → Bool
  -- `RefTransfer::from_frame` and `Transfer::from_frame`.
  pub Transfer : Type 0
  pub from_frame : Frame → clock.Instant → List ℕ → Transfer
