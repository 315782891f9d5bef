-- ===== src/Link/Exchange.antt =====
-- A user's loop over two nodes: send the next frame of a transfer, hand it to the receiver, and go
-- on until the last frame or the first error.
use cyphal_rs.Base.{ℕ, zero, suc, ◌≡◌, Option, none, some, Result, ok, err, panic, arith}
use cyphal_rs.Can.Data.{CanFrame}
use cyphal_rs.Clock.{Clock}
use cyphal_rs.Crates.{Crates}
use cyphal_rs.CrcAny.{CrcAny}
use cyphal_rs.Link.Sender.{manager, CanNode}
use cyphal_rs.MapManager.State.{Hasher}
use cyphal_rs.Node.Data.{TransmitFrameError}
use cyphal_rs.Node.Receive.{try_receive_frame}
use cyphal_rs.Node.Transmit.{transmit_frame}
use cyphal_rs.Types.{RxError}

-- How the loop ended: with the last frame, or in its middle.
pub data Outcome : Type 0 where
  finished stopped : Result RxError (Option ℕ) → Outcome
  not_sent : TransmitFrameError → Outcome
  broken out_of_fuel : Outcome

module _ ⦃clock : Clock⦄ ⦃c : Crates⦄ ⦃k : CrcAny⦄ ⦃hasher : Hasher⦄ where
  -- `time fuel` is when the frame is sent. Each round sends a frame, so as many rounds as the
  -- transfer has frames are enough.
  unfoldable pub exchange :
      (ℕ → clock.Instant) → ℕ → CanNode → ℕ → CanNode → CanNode × CanNode × Outcome
  exchange time zero sender token receiver = (sender, receiver, out_of_fuel)
  exchange time (suc fuel) sender token receiver =
      let (sender', sent) = transmit_frame manager sender token (time fuel) in
      elim sent [
        | err e ↦ (sender', receiver, not_sent e)
        | panic ↦ (sender', receiver, broken)
        | ok (frame, token') ↦
            let (receiver', got) = try_receive_frame manager receiver frame in
            elim token' [
              | none ↦ (sender', receiver', finished got)
              | some token' ↦ elim got [
                | ok none ↦ exchange time fuel sender' token' receiver'
                | ok (some early) ↦ (sender', receiver', stopped (ok (some early)))
                | err e ↦ (sender', receiver', stopped (err e))
                | panic ↦ (sender', receiver', broken)
              ]
            ]
      ]

  module _ (time : ℕ → clock.Instant) (fuel : ℕ) (sender sender' receiver receiver' : CanNode)
      (token : ℕ) (frame : CanFrame clock.Instant) where
    pub exchange_more :
        (got : Result RxError (Option ℕ))
        → transmit_frame manager sender token (time fuel) ≡ (sender', ok (frame, some token))
        → try_receive_frame manager receiver frame ≡ (receiver', got)
        → got ≡ ok none
        → exchange time (suc fuel) sender token receiver
          ≡ exchange time fuel sender' token receiver'
    unfolding exchange
    exchange_more got sends receives none_yet = ground arith

    pub exchange_last :
        (got : Result RxError (Option ℕ))
        → transmit_frame manager sender token (time fuel) ≡ (sender', ok (frame, none))
        → try_receive_frame manager receiver frame ≡ (receiver', got)
        → exchange time (suc fuel) sender token receiver ≡ (sender', receiver', finished got)
    unfolding exchange
    exchange_last got sends receives = ground arith

    pub exchange_stopped :
        (e : RxError)
        → transmit_frame manager sender token (time fuel) ≡ (sender', ok (frame, some token))
        → try_receive_frame manager receiver frame ≡ (receiver', err e)
        → exchange time (suc fuel) sender token receiver ≡ (sender', receiver', stopped (err e))
    unfolding exchange
    exchange_stopped e sends receives = ground arith
