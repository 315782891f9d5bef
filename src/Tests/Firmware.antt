-- ===== src/Tests/Firmware.antt =====
-- The firmware on a device that would block twice before it takes a frame.
use cyphal_rs.Base.{
  ℕ, ◌≤◌, ◌<◌, ◌≡◌, refl, ◌⊎◌, inl, inr, false, Option, none, some, List, [], ◌∷◌, ◌++◌, Result, ok,
  err, panic, arith,
}
use cyphal_rs.Firmware.Api.{Hal, NbError, would_block, standard, TxFrameHeader}
use cyphal_rs.Uavcan.{Uavcan}
use cyphal_rs.Firmware.Main.{turn, publish_hello}
use cyphal_rs.Firmware.Publish.{publish}
use cyphal_rs.Firmware.Sending.{Device, publish-sent}
use cyphal_rs.Packing.{slice_into_u32, insert_u8_array_in_u32_array, fill_words}
use cyphal_rs.Tests.Nodes.{clock}

abbrev Sent : Type 0
Sent = TxFrameHeader ℕ × List ℕ

data Waiting : Type 0 where
  ready once twice : Waiting

record Can : Type 0 where
  waiting : Waiting
  sent : List Sent

abbrev taken : Can → TxFrameHeader ℕ → Result NbError (List ℕ) → Can × Result NbError (Unit {0})
taken can head (ok words) =
    (record { waiting = twice; sent = can.sent ++ ((head, words) ∷ []) }, ok tt)
taken can head (err e) = (can, err e)
taken can head panic = (can, panic)

abbrev words_3 : List ℕ
words_3 = 0 ∷ (0 ∷ (0 ∷ []))

abbrev try_send :
    Waiting
    → Can
    → TxFrameHeader ℕ
    → (List ℕ → Result NbError (List ℕ))
    → Can × Result NbError (Unit {0})
try_send ready can head write = taken can head (write words_3)
try_send once can head write = (record can { waiting = ready }, err would_block)
try_send twice can head write = (record can { waiting = once }, err would_block)

instance abbrev hal : Hal
hal = record {
  FdCan = Can;
  ExtendedId = ℕ;
  extended_id = λ n. some n;
  transmit = λ can head write. try_send can.waiting can head write;
}

abbrev waits : Waiting → ℕ
waits ready = 0
waits once = 1
waits twice = 2

waits-le : (w : Waiting) → waits w ≤ 2
waits-le ready = omega arith
waits-le once = omega arith
waits-le twice = omega arith

try_send_lem :
    (w : Waiting) (before : List Sent) (head : TxFrameHeader ℕ)
    (write : List ℕ → Result NbError (List ℕ)) (words : List ℕ)
    → write words_3 ≡ ok words
    → (let can : Can = record { waiting = w; sent = before } in
        let (can', result) = try_send w can head write in
        ((result ≡ err would_block) × (waits can'.waiting < waits w) × (can'.sent ≡ before))
        ⊎ ((result ≡ ok tt) × (can'.sent ≡ before ++ ((head, words) ∷ []))))
try_send_lem ready before head write words writes = inr (rw writes refl, rw writes refl)
try_send_lem once before head write words writes = inl (refl, omega arith, refl)
try_send_lem twice before head write words writes = inl (refl, omega arith, refl)

abbrev device : Device hal
device = record {
  sent = λ can. can.sent;
  buffer = words_3;
  busy = λ can. waits can.waiting;
  bound = 2;
  busy-le = λ can. waits-le can.waiting;
  tries = λ can head write words writes. try_send_lem can.waiting can.sent head write words writes;
}

abbrev pub pop : List (ℕ × List ℕ) → List (ℕ × List ℕ) × Option (ℕ × List ℕ)
pop [] = ([], none)
pop (frame ∷ frames) = (frames, some frame)

-- A transfer is its frames, with raw IDs.
instance abbrev uavcan : Uavcan
uavcan = record {
  Node = Unit {0};
  Transfer = List (ℕ × List ℕ);
  FrameIter = List (ℕ × List ℕ);
  Frame = ℕ × List ℕ;
  transmit = λ node transfer. some (node, transfer);
  next = pop;
  as_raw = λ frame. frame.0;
  payload = λ frame. frame.1;
}

abbrev two_frames : List (ℕ × List ℕ)
two_frames = (300, 1 ∷ (2 ∷ (3 ∷ (4 ∷ (5 ∷ []))))) ∷ ((300, 6 ∷ []) ∷ [])

abbrev idle : Can
idle = record { waiting = once; sent = [] }

abbrev wire : ℕ → List ℕ → Sent
wire len words = (
  record {
    bit_rate_switching = false;
    frame_format = standard;
    id = 300;
    len = len;
    marker = none;
  },
  words,
)

publish-sent_example :
    (can : Can) × (publish {E = ⊥} 3 3 tt two_frames idle ≡ some (ok (tt, can)))
    × (can.sent
        ≡ wire 5 (0x1020304 ∷ (0x5000000 ∷ (0 ∷ []))) ∷ (wire 1 (0x6000000 ∷ (0 ∷ (0 ∷ []))) ∷ []))
unfolding insert_u8_array_in_u32_array fill_words slice_into_u32
publish-sent_example =
    publish-sent device ⊥ tt tt two_frames two_frames idle two_frames
      (
        record {
          id = 300;
          named = refl;
          words = 0x1020304 ∷ (0x5000000 ∷ (0 ∷ []));
          written = refl;
        },
        (record { id = 300; named = refl; words = 0x6000000 ∷ (0 ∷ (0 ∷ [])); written = refl }, tt),
      )
      refl (refl, (refl, refl))

-- The 256th transfer overflows `transfer_id`.
turn_overflow :
    turn
      (λ stamp id bytes. two_frames)
      1000
      {E = ⊥}
      3
      3
      5000
      5000
      5000
      (record { node = tt; can = idle; transfer_id = 255; last_published = 100; led = false })
    ≡ some panic
unfolding turn publish_hello
turn_overflow = refl
