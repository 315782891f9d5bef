-- ===== src/Tests/Basic.antt =====
-- A turn of the basic example that prints a transfer of one frame and publishes at the wrap of its
-- transfer ID.
use cyphal_rs.Base.{ℕ, ◌≡◌, refl, true, Option, some, List, [], ◌∷◌, ◌++◌, take, ok}
use cyphal_rs.Basic.Api.{Receiving, Socketcan}
use cyphal_rs.Basic.Main.{Variables, turn, message_received}
use cyphal_rs.Basic.Turns.{Line, turn-Publishes, transfer, due, says_message}
use cyphal_rs.Tests.Firmware.{pop}
use cyphal_rs.Tests.Nodes.{clock}
use cyphal_rs.Types.{message}
use cyphal_rs.Uavcan.{Uavcan}

abbrev Frame : Type 0
Frame = ℕ × List ℕ

-- A transfer is its frames, with raw IDs.
instance abbrev uavcan : Uavcan
uavcan = record {
  Node = Unit {0};
  Transfer = List Frame;
  FrameIter = List Frame;
  Frame = Frame;
  transmit = λ node transfer. some (node, transfer);
  next = pop;
  as_raw = λ frame. frame.0;
  payload = λ frame. frame.1;
}

record Sock : Type 0 where
  incoming : List Frame
  sent : List Frame

abbrev read_frame : Sock → Sock × Option Frame
read_frame sock = let (left, first) = pop sock.incoming in (record sock { incoming = left }, first)

instance abbrev socketcan : Socketcan
socketcan = record {
  CanSocket = Sock;
  CanFrame = Frame;
  read_frame = read_frame;
  id = λ frame. frame.0;
  bytes = λ frame. frame.1;
  new = λ id bytes rtr error. some (id, bytes);
  write_frame = λ sock frame. (record sock { sent = sock.sent ++ (frame ∷ []) }, true);
}

abbrev line : Line socketcan
line = record {
  sent = λ sock. sock.sent;
  reads = λ sock. refl;
  writes = λ sock frame. (refl, refl);
}

abbrev bytes_of : List Frame → List ℕ
bytes_of [] = []
bytes_of (frame ∷ frames) = frame.1 ++ bytes_of frames

-- A node that takes each frame for a message.
abbrev api : Receiving uavcan ℕ
api = record {
  ExtendedId = ℕ;
  extended_id = λ n. some n;
  ArrayVec = List ℕ;
  array_new = [];
  extend = λ array bytes. take 8 (array ++ bytes);
  can_frame = λ stamp id payload. (id, payload);
  Error = ⊥;
  try_receive_frame = λ node frame. (node, ok (some (frame ∷ [])));
  transfer_kind = λ xfer. message;
  transfer_payload = λ xfer. bytes_of xfer;
}

abbrev message_of : ℕ → ℕ → List ℕ → List Frame
message_of stamp id bytes = (300, take 7 bytes ++ (id ∷ [])) ∷ []

abbrev variables : Variables api
variables = record {
  node = tt;
  sock = record { incoming = (77, 1 ∷ (2 ∷ [])) ∷ []; sent = [] };
  last_publish = 100;
  transfer_id = 255;
  printed = [];
}

abbrev hello_255 : List Frame
hello_255 = (300, 13 ∷ (0 ∷ (72 ∷ (101 ∷ (108 ∷ (108 ∷ (111 ∷ (255 ∷ [])))))))) ∷ []

turn-Publishes_example :
    (sock : Sock) × (turn api message_of 500 2 700 700 701 702 variables
      ≡ some (
          ok (record {
            node = tt;
            sock = sock;
            last_publish = 702;
            transfer_id = 0;
            printed = message_received (1 ∷ (2 ∷ [])) ∷ [];
          })))
    × (sock.sent ≡ hello_255)
turn-Publishes_example =
    turn-Publishes api message_of 500 line 700 700 701 702 variables tt tt
      (message_received (1 ∷ (2 ∷ [])) ∷ []) true hello_255
      (transfer (77, 1 ∷ (2 ∷ [])) 77 tt ((77, 1 ∷ (2 ∷ [])) ∷ []) (message_received (1 ∷ (2 ∷ [])))
        refl refl refl says_message)
      (due 600 tt hello_255 hello_255 hello_255 refl refl refl (refl, refl) (refl, tt))
