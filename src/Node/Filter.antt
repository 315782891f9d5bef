-- ===== src/Node/Filter.antt =====
-- Which frames change a node, cyphal/src/node.rs: over any transport and any manager.
use cyphal_rs.Base.{
  ◌≡◌, ◌≢◌, ◌⊎◌, inl, inr, refl, Option, none, some, Option-cases, Result, ok, err, ◌==◌, ==_iff,
  ap, sym, Bool-cases, arith,
}
use cyphal_rs.Clock.{Clock}
use cyphal_rs.Manager.{TransferManager}
use cyphal_rs.Node.Data.{Node}
use cyphal_rs.Node.Receive.{
  Addressed, not_for_us, broken, addressed_kind, addressed_to, try_receive_frame,
}
use cyphal_rs.Transport.{Transport}
use cyphal_rs.Types.{
  NodeId, message, request, response, TransferKind, TransferMetadata, TransferFrame, RxError,
}

-- A transfer that a node takes: one without a destination, or a service transfer to the node.
abbrev pub ForNode : {I : Type 0} → Option NodeId → TransferMetadata I → Type 0
ForNode own md =
    (md.destination_node_id ≡ none)
    ⊎ ((md.transfer_kind ≢ message)
        × ((id : NodeId) × (own ≡ some id) × (md.destination_node_id ≡ some id)))

-- The answer to a frame that is refused.
abbrev pub refusal {ℓ} : {A : Type ℓ} → TransferKind → Result RxError (Option A)
refusal message = err RxError.message_with_remote_id
refusal request = ok none
refusal response = ok none

-- The verdict on such a transfer.
abbrev verdict : TransferKind → Addressed
verdict message = broken
verdict request = not_for_us
verdict response = not_for_us

to_another :
    (own : Option NodeId) (node_id : NodeId)
    → own ≢ some node_id
    → addressed_to own node_id ≡ not_for_us
to_another none node_id other = refl
to_another (some id) node_id other = elim (Bool-cases (node_id == id)) [
  | inl same ↦ absurd (other (ap some (sym ((==_iff node_id id).0 same))))
  | inr differ ↦ rw differ
]

Kind-cases : (k : TransferKind) → (k ≡ message) ⊎ ((k ≡ request) ⊎ (k ≡ response))
Kind-cases message = inl refl
Kind-cases request = inr (inl refl)
Kind-cases response = inr (inr refl)

addressed_kind-refused :
    (kind : TransferKind) (own : Option NodeId) (node_id : NodeId)
    → (kind ≢ message → own ≢ some node_id)
    → addressed_kind kind own node_id ≡ verdict kind
addressed_kind-refused message own node_id other = refl
addressed_kind-refused request own node_id other = to_another own node_id (other (λ e. cc))
addressed_kind-refused response own node_id other = to_another own node_id (other (λ e. cc))

module _ {clock : Clock} {T : Transport clock.Instant} (M : TransferManager clock T) where
  -- A readable frame that is not for the node leaves the node, its manager included, as it was:
  -- the answer is `MessageWithRemoteId` if it is a message, and otherwise that there is nothing.
  pub try_receive_frame_refused :
      (node : Node M) (frame : T.Frame) (read : TransferFrame clock.Instant)
      (metadata : T.FrameMetadata)
      → T.rx_process_frame frame ≡ ok (read, metadata)
      → ¬ (ForNode node.id read.metadata)
      → try_receive_frame M node frame ≡ (node, refusal read.metadata.transfer_kind)
  unfolding try_receive_frame
  try_receive_frame_refused node frame read metadata reads other =
      elim (Option-cases read.metadata.destination_node_id) [
        | inl absent ↦ absurd (other (inl absent))
        | inr (node_id, found) ↦
            let refused =
              addressed_kind-refused read.metadata.transfer_kind node.id node_id
                (λ service own. other (inr (service, (node_id, own, found)))) in
            elim (Kind-cases read.metadata.transfer_kind) [
              | inl k ↦ ground arith
              | inr (inl k) ↦ ground arith
              | inr (inr k) ↦ ground arith
            ]
      ]
