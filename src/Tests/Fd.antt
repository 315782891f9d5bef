-- ===== src/Tests/Fd.antt =====
-- CAN FD on concrete transfers.
use cyphal_rs.Base.{
  ℕ, zero, suc, ◌+◌, ◌-◌, ◌≤◌, ◌<◌, ◌≡◌, refl, true, false, Option, some, none, List, [], ◌∷◌, ◌++◌,
  length, take, replicate, ltb, leb, if◌then◌else◌, All, ok, err, panic, arith, min,
}
use cyphal_rs.Bitfields.CanMessageId
use cyphal_rs.Bitfields.CanServiceId
use cyphal_rs.Bitfields.TailByte
use cyphal_rs.Fd.Api.{FdApi}
use cyphal_rs.Fd.ArrayVec.{ArrayVec}
use cyphal_rs.Fd.Frame.{FdCanFrame, set_dlc}
use cyphal_rs.Fd.Frame
use cyphal_rs.Fd.Iterator.{
  FdCanIter, frame_id, service_frame_id, new, advance, next_frame, current_frame, single,
}
use cyphal_rs.Fd.Reading.{rx_process_frame-advance_padded}
use cyphal_rs.Fd.Receive.{rx_process_frame}
use cyphal_rs.Fd.RoundTrip.{rx_process_frame-advance_message, rx_process_frame-advance_service}
use cyphal_rs.Fd.Several.{advance-advance_panic, IsByte}
use cyphal_rs.Fd.Single.{begun, behind, tail_of, advance-new}
use cyphal_rs.Tests.Concrete.{crates, extended_id, max_id}
use cyphal_rs.Types.{
  NodeId, PortId, TransferId, Priority, TransferKind, nominal, message, request, RxError,
}

abbrev push : List ℕ → ℕ → Option (List ℕ)
push vec byte = if ltb (length vec) 64 then some (vec ++ (byte ∷ [])) else none

abbrev try_extend : List ℕ → List ℕ → Option (List ℕ)
try_extend vec bytes = if leb (length vec + length bytes) 64 then some (vec ++ bytes) else none

push_room :
    (vec : List ℕ) (byte : ℕ)
    → length vec < 64
    → (vec' : List ℕ) × (push vec byte ≡ some vec') × (vec' ≡ vec ++ (byte ∷ []))
push_room vec byte h = (vec ++ (byte ∷ []), ground arith, refl)

push_none : (vec : List ℕ) (byte : ℕ) → length vec ≡ 64 → push vec byte ≡ none
push_none vec byte h = ground arith

extend_room :
    (vec bytes : List ℕ)
    → length vec + length bytes ≤ 64
    → (vec' : List ℕ) × (try_extend vec bytes ≡ some vec') × (vec' ≡ vec ++ bytes)
extend_room vec bytes h = (vec ++ bytes, ground arith, refl)

extend_over : (vec bytes : List ℕ) → 64 < length vec + length bytes → try_extend vec bytes ≡ none
extend_over vec bytes h = ground arith

instance abbrev array_vec : ArrayVec
array_vec = record {
  Vec = List ℕ;
  items = λ vec. vec;
  new = [];
  extend = λ vec bytes. vec ++ take (64 - length vec) bytes;
  push = push;
  push_unchecked = push;
  try_extend_from_slice = try_extend;
  new_lem = refl;
  extend_lem = λ vec bytes. refl;
  push_lem = push_room;
  push_full = push_none;
  push_unchecked_lem = push_room;
  push_unchecked_full = push_none;
  try_extend_lem = extend_room;
  try_extend_over = extend_over;
}

record TestTransfer : Type 0 where
  kind : TransferKind
  remote : Option NodeId
  bytes : List ℕ

-- What was read.
data Read : Type 0 where
  service : ℕ → Priority → TransferKind → PortId → NodeId → NodeId → TransferId → List ℕ → Read
  subject : ℕ → Priority → PortId → Option NodeId → TransferId → List ℕ → Read

instance abbrev api : FdApi
api = record {
  Timestamp = ℕ;
  Transfer = TestTransfer;
  timestamp = λ t. 1000;
  priority = λ t. nominal;
  transfer_kind = λ t. t.kind;
  port_id = λ t. 100;
  remote_node_id = λ t. t.remote;
  transfer_id = λ t. 3;
  payload = λ t. t.bytes;
  InternalRxFrame = Read;
  as_service = λ time p kind port source destination tid start end bytes.
      service time p kind port source destination tid bytes;
  as_message = λ time p port source tid start end bytes. subject time p port source tid bytes;
}

abbrev a_message : ℕ → TestTransfer
a_message n = record { kind = message; remote = none; bytes = replicate n 7 }

abbrev a_request : TestTransfer
a_request = record { kind = request; remote = some 42; bytes = 1 ∷ 2 ∷ 3 ∷ [] }

-- The iterator of a message from node 12.
abbrev message_iter : ℕ → FdCanIter
message_iter n = begun (a_message n) 0x1060640c

abbrev request_iter : FdCanIter
request_iter = begun a_request 0x1319150c

message_made : (n : ℕ) → n ≤ 100 → new (a_message n) (some 12) ≡ ok (message_iter n)
unfolding new frame_id CanMessageId.new extended_id
message_made n h = refl

request_made : new a_request (some 12) ≡ ok request_iter
unfolding new frame_id service_frame_id CanServiceId.new extended_id
request_made = refl

-- Five bytes, the tail byte, and no zeroes.
sent_five :
    advance {E = ⊥} (message_iter 5)
    ≡ ok (
        behind (a_message 5) 0x1060640c (record {
          timestamp = 1000;
          id = 0x1060640c;
          dlc = 5;
          payload = 7 ∷ 7 ∷ 7 ∷ 7 ∷ 7 ∷ 0xe3 ∷ [];
        }))
unfolding advance next_frame current_frame Frame.new single set_dlc extended_id TailByte.new
sent_five = refl

advance-new_example :
    (frame : FdCanFrame) × (advance {E = ⊥} (message_iter 10)
      ≡ ok (behind (a_message 10) 0x1060640c frame))
    × (frame.timestamp ≡ 1000)
    × (min frame.id max_id ≡ 0x1060640c)
    × (frame.dlc ≡ 9)
    × (frame.payload ≡ (replicate 10 7 ++ (tail_of (a_message 10) ∷ [])) ++ (0 ∷ (0 ∷ [])))
    × (length frame.payload ≡ 13)
advance-new_example =
    advance-new {E = ⊥} (a_message 10) (some 12) (message_iter 10) (message_made 10 (omega arith))
      (omega arith)

rx_process_frame-advance_message_example :
    (frame : FdCanFrame) × (advance {E = ⊥} (message_iter 12)
      ≡ ok (behind (a_message 12) 0x1060640c frame))
    × (rx_process_frame none frame
        ≡ ok (
            some (
              subject 1000 nominal 100
                (some 12)
                3
                (replicate 12 7 ++ (tail_of (a_message 12) ∷ [])))))
rx_process_frame-advance_message_example =
    rx_process_frame-advance_message {E = ⊥} (a_message 12) (some 12) none (message_iter 12) refl
      (message_made 12 (omega arith)) (omega arith) refl

rx_process_frame-advance_service_example :
    (frame : FdCanFrame) × (advance {E = ⊥} request_iter ≡ ok (behind a_request 0x1319150c frame))
    × (rx_process_frame (some 42) frame
        ≡ ok (
            some (service 1000 nominal request 100 12 42 3 (1 ∷ 2 ∷ 3 ∷ (tail_of a_request ∷ [])))))
rx_process_frame-advance_service_example =
    rx_process_frame-advance_service {E = ⊥} a_request 12 42 (some 42) request_iter refl refl
      request_made (omega arith) refl

rx_process_frame-advance_padded_example :
    (frame : FdCanFrame) × (advance {E = ⊥} (message_iter 10)
      ≡ ok (behind (a_message 10) 0x1060640c frame))
    × (rx_process_frame (some 42) frame ≡ err RxError.non_last_under_utilization)
rx_process_frame-advance_padded_example =
    rx_process_frame-advance_padded {E = ⊥} (a_message 10) (some 12) (some 42) (message_iter 10)
      (message_made 10 (omega arith)) (omega arith) (omega arith)

-- All bytes of a transfer.
sevens-IsByte : (n : ℕ) → All IsByte (replicate n 7)
sevens-IsByte zero = tt
sevens-IsByte (suc n) = (omega arith, sevens-IsByte n)

advance-advance_panic_example :
    (next : FdCanIter) × (frame : FdCanFrame) × (advance {E = ⊥} (message_iter 64) ≡ ok next)
    × (next.can_frame ≡ some frame)
    × (frame.payload ≡ replicate 63 7 ++ (TailByte.new true false true 3 ∷ []))
    × (frame.dlc ≡ 15)
    × (advance {E = ⊥} next ≡ panic)
advance-advance_panic_example =
    advance-advance_panic {E = ⊥} (a_message 64) (some 12) (message_iter 64)
      (message_made 64 (omega arith)) (omega arith) (sevens-IsByte 64)
