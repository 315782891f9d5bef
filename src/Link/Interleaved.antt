-- ===== src/Link/Interleaved.antt =====
-- A transfer whose frames arrive among those of others.
use cyphal_rs.Base.{
  ℕ, zero, suc, ◌≡◌, refl, ap, ◌∙◌, Option, none, some, List, [], ◌∷◌, Result, ok, err, panic,
}
use cyphal_rs.Can.Data.{CanFrame}
use cyphal_rs.Can.Transmit.{can}
use cyphal_rs.Clock.{Clock}
use cyphal_rs.Crates.{Crates}
use cyphal_rs.CrcAny.{CrcAny}
use cyphal_rs.HashMap.{get}
use cyphal_rs.Link.Delivery.{CanRxTransfer, Delivered}
use cyphal_rs.Link.Exchange.{finished, exchange}
use cyphal_rs.Link.Sender.{manager, CanNode}
use cyphal_rs.MapManager.State.{Hasher, active}
use cyphal_rs.Node.Data.{TransmitFrameError}
use cyphal_rs.Node.Interleaving.{receive_all, own_frames, receive_all-own_frames}
use cyphal_rs.Node.Receive.{try_receive_frame}
use cyphal_rs.Node.Transmit.{transmit_frame}
use cyphal_rs.Types.{RxError, TransferMetadata}

module _ ⦃clock : Clock⦄ ⦃c : Crates⦄ ⦃k : CrcAny⦄ ⦃hasher : Hasher⦄
    (time : ℕ → clock.Instant) where
  -- The frames that the loop sends, when it goes on up to the last one.
  unfoldable pub transmit_all : ℕ → CanNode → ℕ → List (CanFrame clock.Instant)
  transmit_all zero sender token = []
  transmit_all (suc fuel) sender token =
      let (sender', sent) = transmit_frame manager sender token (time fuel) in
      elim sent [
        | err e ↦ []
        | panic ↦ []
        | ok (frame, token') ↦
            frame ∷ elim token' [ none ↦ [] | some token' ↦ transmit_all fuel sender' token' ]
      ]

  -- The rest of an exchange that ends with a last frame: its receiver has received all that is sent.
  abbrev Receives : ℕ → Result RxError (Option ℕ) → Type 0
  Receives fuel end =
      (sender : CanNode) (token : ℕ) (receiver : CanNode)
      → (exchange time fuel sender token receiver).2 ≡ finished end
      → receive_all (can clock.Instant) receiver (transmit_all fuel sender token)
        ≡ (exchange time fuel sender token receiver).1

  -- A round in which a frame is sent that is not the last one, by what is answered.
  received :
      (fuel : ℕ) (end : Result RxError (Option ℕ)) (sender : CanNode) (token : ℕ)
      (receiver : CanNode) (frame : CanFrame clock.Instant) (token' : ℕ)
      (got : Result RxError (Option ℕ))
      → (transmit_frame manager sender token (time fuel)).1 ≡ ok (frame, some token')
      → (try_receive_frame manager receiver frame).1 ≡ got
      → Receives fuel end
      → (exchange time (suc fuel) sender token receiver).2 ≡ finished end
      → receive_all (can clock.Instant) receiver (transmit_all (suc fuel) sender token)
        ≡ (exchange time (suc fuel) sender token receiver).1
  unfolding transmit_all receive_all exchange
  received fuel end sender token receiver frame token' (err x) e g go ends =
      absurd (let ends' = rw (exchange, e, g) at ends in cc)
  received fuel end sender token receiver frame token' panic e g go ends =
      absurd (let ends' = rw (exchange, e, g) at ends in cc)
  received fuel end sender token receiver frame token' (ok (some early)) e g go ends =
      absurd (let ends' = rw (exchange, e, g) at ends in cc)
  received fuel end sender token receiver frame token' (ok none) e g go ends =
      rw (exchange, transmit_all, e, g)
        (go (transmit_frame manager sender token (time fuel)).0 token'
          (try_receive_frame manager receiver frame).0 (rw (exchange, e, g) at ends))

  -- A round, by what is sent.
  round :
      (fuel : ℕ) (end : Result RxError (Option ℕ)) (sender : CanNode) (token : ℕ)
      (receiver : CanNode) (sent : Result TransmitFrameError (CanFrame clock.Instant × Option ℕ))
      → (transmit_frame manager sender token (time fuel)).1 ≡ sent
      → Receives fuel end
      → (exchange time (suc fuel) sender token receiver).2 ≡ finished end
      → receive_all (can clock.Instant) receiver (transmit_all (suc fuel) sender token)
        ≡ (exchange time (suc fuel) sender token receiver).1
  unfolding transmit_all receive_all exchange
  round fuel end sender token receiver (err x) e go ends =
      absurd (let ends' = rw (exchange, e) at ends in cc)
  round fuel end sender token receiver panic e go ends =
      absurd (let ends' = rw (exchange, e) at ends in cc)
  round fuel end sender token receiver (ok (frame, none)) e go ends =
      rw (exchange, transmit_all, e) refl
  round fuel end sender token receiver (ok (frame, some token')) e go ends =
      received fuel end sender token receiver frame token' _ e refl go ends

  exchange-Receives : (fuel : ℕ) (end : Result RxError (Option ℕ)) → Receives fuel end
  unfolding exchange
  exchange-Receives zero end sender token receiver ends = absurd (let ends' = ends in cc)
  exchange-Receives (suc fuel) end sender token receiver ends =
      round fuel end sender token receiver _ refl (exchange-Receives fuel end) ends

  -- What an exchange delivers also arrives when the frames come among others: those that belong to
  -- its transfer for the receiver are the ones sent, in order.
  pub Delivered-mixed :
      (fuel token token' : ℕ) (sender receiver : CanNode) (md : TransferMetadata clock.Instant)
      (payload : List ℕ) (mixed : List (CanFrame clock.Instant))
      → Delivered token token' md payload (exchange time fuel sender token receiver)
      → own_frames (can clock.Instant) token' receiver.id mixed ≡ transmit_all fuel sender token
      → (transfer : CanRxTransfer) × (get token'
            (receive_all (can clock.Instant) receiver mixed).transfer_manager.rx_transfers
          ≡ some (active transfer))
        × (transfer.transfer_metadata ≡ md)
        × (transfer.payload ≡ payload)
  Delivered-mixed fuel token token' sender receiver md payload mixed delivered own =
      let alone = exchange-Receives fuel (ok (some token')) sender token receiver delivered.ended in
      let among =
        (receive_all-own_frames (can clock.Instant) token' receiver receiver mixed refl refl).0 in
      (
        delivered.transfer,
        among
            ∙ ap
                (λ (frames : List (CanFrame clock.Instant)).
                  get token'
                    (receive_all (can clock.Instant) receiver frames).transfer_manager.rx_transfers)
                own
            ∙ ap (λ (node : CanNode). get token' node.transfer_manager.rx_transfers) alone
            ∙ delivered.stored,
        delivered.metadata_eq,
        delivered.payload_eq,
      )
