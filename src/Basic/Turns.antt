-- ===== src/Basic/Turns.antt =====
-- A turn of the main loop of examples/basic/src/main.rs.
use mathlib.Core.List.{append_assoc, append-nil}
use cyphal_rs.Base.{
  ℕ, zero, suc, ◌+◌, ◌%◌, ◌^◌, ◌<◌, ◌≡◌, refl, sym, ap, ◌∙◌, Bool, false, true, Option, none, some,
  List, [], ◌∷◌, ◌++◌, if◌then◌else◌, length, ok, arith,
}
use cyphal_rs.Basic.Api.{Receiving, Socketcan}
use cyphal_rs.Basic.Main.{
  Output, message_received, request_received, response_received, Variables, describe, write,
  write_loop, uavcan_frame, print_received, receive, publish, publish_due, turn,
}
use cyphal_rs.Clock.{Clock}
use cyphal_rs.Types.{TransferKind, message, request, response}
use cyphal_rs.Uavcan.{Uavcan, Yields}

-- A socket that writes what it is given.
pub record Line (socketcan : Socketcan) : Type 0 where
  pub sent : socketcan.CanSocket → List socketcan.CanFrame
  pub reads : (sock : socketcan.CanSocket) → sent (socketcan.read_frame sock).0 ≡ sent sock
  pub writes :
      (sock : socketcan.CanSocket) (frame : socketcan.CanFrame)
      → ((socketcan.write_frame sock frame).1 ≡ true)
        × (sent (socketcan.write_frame sock frame).0 ≡ sent sock ++ (frame ∷ []))

module _ ⦃u : Uavcan⦄ ⦃socketcan : Socketcan⦄ where
  -- The frames of the interface that the frames of the node make.
  abbrev pub Made : List u.Frame → List socketcan.CanFrame → Type 0
  Made [] [] = Unit
  Made [] (_ ∷ _) = ⊥
  Made (_ ∷ _) [] = ⊥
  Made (frame ∷ frames) (can_frame ∷ can_frames) =
      (socketcan.new (u.as_raw frame) (u.payload frame) false false ≡ some can_frame)
      × Made frames can_frames

  length-Made :
      (frames : List u.Frame) (can_frames : List socketcan.CanFrame)
      → Made frames can_frames
      → length frames ≡ length can_frames
  length-Made [] [] made = refl
  length-Made [] (can_frame ∷ can_frames) made = elim made [ ]
  length-Made (frame ∷ frames) [] made = elim made [ ]
  length-Made (frame ∷ frames) (can_frame ∷ can_frames) (_, made) =
      omega (arith, length-Made frames can_frames made)

  module _ (line : Line socketcan) where
    write_loop-sent :
        (E : Type 0) (fuel : ℕ) (iter : u.FrameIter) (sock : socketcan.CanSocket)
        (frames : List u.Frame) (can_frames : List socketcan.CanFrame)
        → Yields iter frames
        → Made frames can_frames
        → length frames < fuel
        → (sock' : socketcan.CanSocket) × (write_loop {E = E} fuel iter sock ≡ some (ok sock'))
          × (line.sent sock' ≡ line.sent sock ++ can_frames)
    unfolding write write_loop
    write_loop-sent E zero iter sock frames can_frames yields made enough = absurd (omega arith)
    write_loop-sent E (suc fuel) iter sock [] [] yields made enough =
        (sock, rw (write_loop, yields) refl, sym (append-nil (line.sent sock)))
    write_loop-sent E (suc fuel) iter sock [] (can_frame ∷ can_frames) yields made enough =
        elim made [ ]
    write_loop-sent E (suc fuel) iter sock (frame ∷ frames) [] yields made enough = elim made [ ]
    write_loop-sent E (suc fuel) iter sock (frame ∷ frames) (can_frame ∷ can_frames) (first, yields)
          (one, made) enough =
        let (written, sends) = line.writes sock can_frame in
        let next = (socketcan.write_frame sock can_frame).0 in
        let writes : write {E = E} sock frame ≡ ok next = rw (write, one, written) refl in
        let (sock', ends, sent) =
          write_loop-sent E fuel (u.next iter).0 next frames can_frames yields made (omega arith) in
        (
          sock',
          rw (write_loop, first, writes) ends,
          sent ∙ rw sends (append_assoc (line.sent sock) (can_frame ∷ []) can_frames),
        )

-- A length, a zero and "Hello Python!".
abbrev pub greeting : List ℕ
greeting = 13 ∷ 0 ∷ 72 ∷ 101 ∷ 108 ∷ 108 ∷ 111 ∷ 32 ∷ 80 ∷ 121 ∷ 116 ∷ 104 ∷ 111 ∷ 110 ∷ 33 ∷ []

-- A message is told by its bytes, a request as a request and a response as a response.
pub data Says {Error : Type 0} (payload : List ℕ) : TransferKind → Output Error → Type 0 where
  says_message : Says payload message (message_received payload)
  says_request : Says payload request request_received
  says_response : Says payload response response_received

describe-Says :
    {Error : Type 0} (payload : List ℕ) (kind : TransferKind) (line : Output Error)
    → Says payload kind line
    → describe kind payload ≡ line
describe-Says payload kind line says_message = refl
describe-Says payload kind line says_request = refl
describe-Says payload kind line says_response = refl

module _ ⦃clock : Clock⦄ ⦃u : Uavcan⦄ ⦃socketcan : Socketcan⦄
    (api : Receiving u clock.Instant) where
  -- What the node makes of what was read from the socket, the node after it, and what `main` prints.
  pub data Heard (stamp : clock.Instant) (node : u.Node) (read : Option socketcan.CanFrame)
      : u.Node → List (Output api.Error) → Type 0 where
    nothing : read ≡ none → Heard stamp node read node []
    no_transfer :
        (frame : socketcan.CanFrame) (id : api.ExtendedId) (node' : u.Node)
        → read ≡ some frame
        → api.extended_id (socketcan.id frame) ≡ some id
        → api.try_receive_frame node
            (api.can_frame stamp id (api.extend api.array_new (socketcan.bytes frame)))
          ≡ (node', ok none)
        → Heard stamp node read node' []
    transfer :
        (frame : socketcan.CanFrame) (id : api.ExtendedId) (node' : u.Node) (xfer : u.Transfer)
        (line : Output api.Error)
        → read ≡ some frame
        → api.extended_id (socketcan.id frame) ≡ some id
        → api.try_receive_frame node
            (api.can_frame stamp id (api.extend api.array_new (socketcan.bytes frame)))
          ≡ (node', ok (some xfer))
        → Says (api.transfer_payload xfer) (api.transfer_kind xfer) line
        → Heard stamp node read node' (line ∷ [])

  -- `v` with the node `node`, and `out` printed.
  abbrev heard : Variables api → u.Node → List (Output api.Error) → Variables api
  heard v node out = record v { node = node; printed = v.printed ++ out }

  receive-Heard :
      (received : clock.Instant) (v : Variables api) (read : Option socketcan.CanFrame)
      (node' : u.Node) (out : List (Output api.Error))
      → Heard received v.node read node' out
      → receive api received read v ≡ ok (heard v node' out)
  unfolding receive uavcan_frame print_received
  receive-Heard received v read node' out (nothing none_read) =
      rw none_read (ap (λ l. ok (record v { printed = l })) (sym (append-nil v.printed)))
  receive-Heard received v read node' out (no_transfer frame id after is_read extended answers) =
      rw (is_read, extended, answers)
        (ap (λ l. ok (record v { node = after; printed = l })) (sym (append-nil v.printed)))
  receive-Heard received v read node' out
        (transfer frame id after xfer line is_read extended answers says) =
      rw (is_read, extended, answers)
        (ap (λ l. ok (record v { node = after; printed = v.printed ++ (l ∷ []) }))
          (describe-Says (api.transfer_payload xfer) (api.transfer_kind xfer) line says))

  module _ (transfer_of : clock.Instant → ℕ → List ℕ → u.Transfer) (period : clock.Generic) where
    -- Whether the period is over, the node after it, and the frames that it makes of the message.
    pub data Publishes (now stamp last : clock.Instant) (node : u.Node) (transfer_id : ℕ)
        : Bool → u.Node → List socketcan.CanFrame → Type 0 where
      early :
          (elapsed : clock.Generic)
          → clock.since now last ≡ some elapsed
          → clock.longer elapsed period ≡ false
          → Publishes now stamp last node transfer_id false node []
      due :
          (elapsed : clock.Generic) (node' : u.Node) (iter : u.FrameIter) (frames : List u.Frame)
          (can_frames : List socketcan.CanFrame)
          → clock.since now last ≡ some elapsed
          → clock.longer elapsed period ≡ true
          → u.transmit node (transfer_of stamp transfer_id greeting) ≡ some (node', iter)
          → Yields iter frames
          → Made frames can_frames
          → Publishes now stamp last node transfer_id true node' can_frames

    module _ (line : Line socketcan) where
      publish_due-Publishes :
          (now stamp done : clock.Instant) (v : Variables api) (is_due : Bool) (node' : u.Node)
          (can_frames : List socketcan.CanFrame)
          → Publishes now stamp v.last_publish v.node v.transfer_id is_due node' can_frames
          → (sock' : socketcan.CanSocket) × (publish_due api transfer_of period
                (suc (length can_frames))
                now
                stamp
                done
                v
              ≡ some (
                  ok (record v {
                    node = node';
                    sock = sock';
                    transfer_id = if is_due then (v.transfer_id + 1) % 2 ^ 8 else v.transfer_id;
                    last_publish = if is_due then done else v.last_publish;
                  })))
            × (line.sent sock' ≡ line.sent v.sock ++ can_frames)
      unfolding publish_due publish
      publish_due-Publishes now stamp done v is_due node' can_frames (early elapsed since waits) =
          (v.sock, rw (publish_due, since, waits) refl, sym (append-nil (line.sent v.sock)))
      publish_due-Publishes now stamp done v is_due node' can_frames
            (due elapsed after iter frames made_frames since over starts yields made) =
          let (sock', ends, sent) =
            write_loop-sent line (List (Output api.Error)) (suc (length made_frames)) iter v.sock
              frames made_frames yields made (omega (arith, length-Made frames made_frames made)) in
          (sock', rw (publish_due, since, over, publish, starts, ends) refl, sent)

      -- Of a socket that writes what it is given, and a turn in which nothing is read, or a frame with
      -- an extended ID that the node accepts; in which the clock does not go back; and in which the
      -- message, if the period is over, makes frames that fit the interface: the turn returns. Of the
      -- transfer that the node answers with, a message is printed with its bytes, and a request and a
      -- response as what they are. If the period is over, every frame of the message, which holds 13, 0
      -- and "Hello Python!", is written to the socket, once and in order, the transfer ID counts up,
      -- modulo 256, and the time is kept; otherwise these stay as they are. A turn of the `while let` loop for each
      -- frame and one more are enough.
      pub turn-Publishes :
          (received now stamp done : clock.Instant) (v : Variables api) (node' node'' : u.Node)
          (out : List (Output api.Error)) (is_due : Bool) (can_frames : List socketcan.CanFrame)
          → Heard received v.node (socketcan.read_frame v.sock).1 node' out
          → Publishes now stamp v.last_publish node' v.transfer_id is_due node'' can_frames
          → (sock' : socketcan.CanSocket) × (turn api transfer_of period
                (suc (length can_frames))
                received
                now
                stamp
                done
                v
              ≡ some (
                  ok (record {
                    node = node'';
                    sock = sock';
                    transfer_id = if is_due then (v.transfer_id + 1) % 2 ^ 8 else v.transfer_id;
                    last_publish = if is_due then done else v.last_publish;
                    printed = v.printed ++ out;
                  })))
            × (line.sent sock' ≡ line.sent v.sock ++ can_frames)
      unfolding turn
      turn-Publishes received now stamp done v node' node'' out is_due can_frames hears publishes =
          let (sock, read) = socketcan.read_frame v.sock in
          let before = record v { sock = sock } in
          let (sock', ends, sent) =
            publish_due-Publishes now stamp done (heard before node' out) is_due node'' can_frames
              publishes in
          (
            sock',
            rw (turn, receive-Heard received before read node' out hears) ends,
            sent ∙ ap (λ l. l ++ can_frames) (line.reads v.sock),
          )
