-- ===== src/Basic/Main.antt =====
-- The main loop of examples/basic/src/main.rs, behind the set-up.
use cyphal_rs.Base.{
  ℕ, zero, suc, ◌+◌, ◌%◌, ◌^◌, false, Option, none, some, List, [], ◌∷◌, ◌++◌, if◌then◌else◌,
  length, Result, ok, err, panic, unwrap, ◌>>=◌,
}
use cyphal_rs.Basic.Api.{Receiving, Socketcan}
use cyphal_rs.Clock.{Clock}
use cyphal_rs.Types.{TransferKind, message, request, response}
use cyphal_rs.Uavcan.{Uavcan}

-- "Hello Python!".
abbrev pub hello : List ℕ
hello =
    72
    ∷ (101
        ∷ (108 ∷ (108 ∷ (111 ∷ (32 ∷ (80 ∷ (121 ∷ (116 ∷ (104 ∷ (111 ∷ (110 ∷ (33 ∷ []))))))))))))

-- `str`, a length and the bytes.
abbrev pub str : List ℕ
str = length hello % 2 ^ 8 ∷ (0 ∷ hello)

-- What is printed.
pub data Output (Error : Type 0) : Type 0 where
  message_received : List ℕ → Output Error
  request_received response_received : Output Error
  try_receive_frame_error : Error → Output Error

module _ {E : Type 0} ⦃u : Uavcan⦄ ⦃socketcan : Socketcan⦄ where
  -- One turn of the `while let` loop.
  unfoldable pub write : socketcan.CanSocket → u.Frame → Result E socketcan.CanSocket
  write sock frame = elim (socketcan.new (u.as_raw frame) (u.payload frame) false false) [
    | none ↦ panic
    | some can_frame ↦
        let (sock', written) = socketcan.write_frame sock can_frame in
        if written then ok sock' else panic
  ]

  -- The loop, on fuel.
  unfoldable pub write_loop :
      ℕ → u.FrameIter → socketcan.CanSocket → Option (Result E socketcan.CanSocket)
  write_loop zero iter sock = none
  write_loop (suc fuel) iter sock =
      let (iter', item) = u.next iter in
      elim item [
        | none ↦ some (ok sock)
        | some frame ↦ elim (write sock frame) [
          | panic ↦ some panic
          | err e ↦ some (err e)
          | ok sock' ↦ write_loop fuel iter' sock'
        ]
      ]

abbrev pub describe : {Error : Type 0} → TransferKind → List ℕ → Output Error
describe message payload = message_received payload
describe request payload = request_received
describe response payload = response_received

-- The variables of `main`, and what it has printed. An `err` is the return of `main`, with what it has
-- printed.
module _ ⦃clock : Clock⦄ ⦃u : Uavcan⦄ ⦃socketcan : Socketcan⦄
    (api : Receiving u clock.Instant) where
  pub record Variables : Type 0 where
    pub node : u.Node
    pub sock : socketcan.CanSocket
    pub last_publish : clock.Instant
    pub transfer_id : ℕ
    pub printed : List (Output api.Error)

  abbrev pub Run : Type 0 → Type 0
  Run A = Result (List (Output api.Error)) A

  -- `uavcan_frame`, of a frame that was read at the time `stamp`.
  unfoldable pub uavcan_frame : clock.Instant → socketcan.CanFrame → Run u.Frame
  uavcan_frame stamp socketcan_frame = do
    id ← unwrap (api.extended_id (socketcan.id socketcan_frame))
    ok (api.can_frame stamp id (api.extend api.array_new (socketcan.bytes socketcan_frame)))

  -- What follows on `try_receive_frame`.
  unfoldable pub print_received :
      Variables → u.Node × Result api.Error (Option u.Transfer) → Run Variables
  print_received v (node, panic) = panic
  print_received v (node, err e) = err (v.printed ++ (try_receive_frame_error e ∷ []))
  print_received v (node, ok none) = ok (record v { node = node })
  print_received v (node, ok (some xfer)) = ok (record v {
    node = node;
    printed = v.printed ++ (describe (api.transfer_kind xfer) (api.transfer_payload xfer) ∷ []);
  })

  -- The first `if` of the loop.
  unfoldable pub receive : clock.Instant → Option socketcan.CanFrame → Variables → Run Variables
  receive stamp none v = ok v
  receive stamp (some socketcan_frame) v = do
    frame ← uavcan_frame stamp socketcan_frame
    print_received v (api.try_receive_frame v.node frame)

  -- `transfer_of` is a message of nominal priority on port 100, and `period` is 500 ms in the unit of
  -- the clock.
  module _ (transfer_of : clock.Instant → ℕ → List ℕ → u.Transfer) (period : clock.Generic) where
    -- The body of the second `if`.
    unfoldable pub publish : ℕ → clock.Instant → clock.Instant → Variables → Option (Run Variables)
    publish fuel stamp done v =
        let transfer = transfer_of stamp v.transfer_id str in
        elim (u.transmit v.node transfer) [
          | none ↦ some panic
          | some (node, frame_iter) ↦ elim (write_loop fuel frame_iter v.sock) [
            | none ↦ none
            | some panic ↦ some panic
            | some (err e) ↦ some (err e)
            | some (ok sock) ↦ some (
                ok (record v {
                  node = node;
                  sock = sock;
                  transfer_id = (v.transfer_id + 1) % 2 ^ 8;
                  last_publish = done;
                }))
          ]
        ]

    -- The second `if`, at the time `now`.
    unfoldable pub publish_due :
        ℕ → clock.Instant → clock.Instant → clock.Instant → Variables → Option (Run Variables)
    publish_due fuel now stamp done v = elim (clock.since now v.last_publish) [
      | none ↦ some panic
      | some elapsed ↦
          if clock.longer elapsed period then publish fuel stamp done v else some (ok v)
    ]

    -- A turn of the loop. The clock reads `received` if a frame was read, then `now`, and `stamp` and
    -- `done` if there is something to publish.
    unfoldable pub turn :
        ℕ
        → clock.Instant
        → clock.Instant
        → clock.Instant
        → clock.Instant
        → Variables
        → Option (Run Variables)
    turn fuel received now stamp done v =
        let (sock, socketcan_frame) = socketcan.read_frame v.sock in
        elim (receive received socketcan_frame (record v { sock = sock })) [
          | panic ↦ some panic
          | err printed ↦ some (err printed)
          | ok v' ↦ publish_due fuel now stamp done v'
        ]
