-- ===== src/Tests/Link.antt =====
-- Whole transfers between two nodes.
use cyphal_rs.Base.{
  ℕ, ◌≡◌, refl, true, false, none, some, List, [], ◌∷◌, take, Result, ok, panic, arith,
}
use cyphal_rs.Can.Data.{CanFrame}
use cyphal_rs.Can.Ids.{wire_metadata}
use cyphal_rs.Bitfields.TailByte
use cyphal_rs.Can.Frames.{rx_process_frame_plain}
use cyphal_rs.Can.Receive.{rx_process_frame}
use cyphal_rs.HashMap.{get, insert}
use cyphal_rs.Link.Delivery.{Delivered}
use cyphal_rs.Link.Exchange.{exchange}
use cyphal_rs.Link.RoundTrip.{exchange-start_tx_transfer, exchange-start_tx_transfer-Refused}
use cyphal_rs.Link.Split.{Refused}
use cyphal_rs.Link.Sender.{manager, fresh}
use cyphal_rs.Link.Start.{sealed, start_tx_transfer_lem, start_tx_transfer_overrun}
use cyphal_rs.MapManager.State.{active, hash_metadata}
use cyphal_rs.Tests.Can.{id_300, first_tail, first_ids}
use cyphal_rs.Node.Data.{request_to, tx_metadata, start_tx_transfer}
use cyphal_rs.Tests.Concrete.{crates, crc_any}
use cyphal_rs.Tests.Nodes.{clock, hasher, node_12, node_42, ten_bytes, write_ten, times}
use cyphal_rs.Types.{TransferMetadata, nominal}

abbrev pub sent : TransferMetadata ℕ
sent = tx_metadata manager node_12 0 nominal 300 (request_to 42) 5

abbrev pub received : ℕ → TransferMetadata ℕ
received t = wire_metadata sent (some 12) t

exchange-start_tx_transfer_example :
    ((start_tx_transfer manager node_12 10 0 nominal 300 (request_to 42) 5 write_ten).1
      ≡ ok (hash_metadata sent))
    × Delivered (hash_metadata sent) (hash_metadata (received 0)) (received 99) ten_bytes (
        exchange times 2
          (start_tx_transfer manager node_12 10 0 nominal 300 (request_to 42) 5 write_ten).0
          (hash_metadata sent)
          node_42)
unfolding get
exchange-start_tx_transfer_example =
    exchange-start_tx_transfer times node_12 node_42 12 10 0 nominal 300 (request_to 42) 5 write_ten
      ten_bytes 10 1 refl refl refl refl (omega arith) refl refl (λ h. omega arith) (omega arith)

start_tx_transfer_lem_example :
    start_tx_transfer manager node_12 10 0 nominal 300 (request_to 42) 5 write_ten ≡ (
      record node_12 {
        transfer_manager = record node_12.transfer_manager {
          tx_transfers =
              insert
                (hash_metadata sent)
                (active (fresh sent (sealed ten_bytes)))
                node_12.transfer_manager.tx_transfers;
        };
      },
      ok (hash_metadata sent),
    )
unfolding get
start_tx_transfer_lem_example =
    start_tx_transfer_lem node_12 10 0 nominal 300 (request_to 42) 5 write_ten ten_bytes 10 refl
      refl refl (omega arith)

-- A callback that claims one byte more than its buffer has.
abbrev claim_eleven : List ℕ → List ℕ × Result ⊥ ℕ
claim_eleven buffer = (ten_bytes, ok 11)

start_tx_transfer_overrun_example :
    (start_tx_transfer manager node_12 10 0 nominal 300 (request_to 42) 5 claim_eleven).1 ≡ panic
unfolding get
start_tx_transfer_overrun_example =
    start_tx_transfer_overrun node_12 10 0 nominal 300 (request_to 42) 5 claim_eleven ten_bytes 11
      refl refl refl (omega arith) (omega arith)

-- The first frame once more.
abbrev pub again : CanFrame ℕ
again = record {
  timestamp = 17;
  id = id_300;
  payload = 1 ∷ (2 ∷ (3 ∷ (4 ∷ (5 ∷ (6 ∷ (7 ∷ (first_tail ∷ [])))))));
}

pub reads_again :
    rx_process_frame again
    ≡ ok (
      record {
        metadata = received 17;
        payload = take 7 ten_bytes;
        first_frame = true;
        last_frame = false;
      },
      record { toggle_bit = true; crc_val = none },
    )
unfolding TailByte.new
reads_again =
    rx_process_frame_plain again first_tail (TailByte.new-IsTail true false true 5).1 (received 17)
      first_ids (take 7 ten_bytes) refl (λ e. e) (λ e. omega arith) refl

abbrev thirteen : List ℕ
thirteen = 1 ∷ 2 ∷ 3 ∷ 4 ∷ 5 ∷ 6 ∷ 7 ∷ 8 ∷ 9 ∷ 10 ∷ 11 ∷ 12 ∷ 13 ∷ []

abbrev write_thirteen : List ℕ → List ℕ × Result ⊥ ℕ
write_thirteen buffer = (thirteen, ok 13)

exchange-start_tx_transfer-Refused_example :
    ((start_tx_transfer manager node_12 13 0 nominal 300 (request_to 42) 5 write_thirteen).1
      ≡ ok (hash_metadata sent))
    × Refused (hash_metadata sent) (
        exchange times 3
          (start_tx_transfer manager node_12 13 0 nominal 300 (request_to 42) 5 write_thirteen).0
          (hash_metadata sent)
          node_42)
unfolding get
exchange-start_tx_transfer-Refused_example =
    exchange-start_tx_transfer-Refused times node_12 node_42 12 13 0 nominal 300 (request_to 42) 5
      write_thirteen thirteen 13 2 refl refl refl refl (omega arith) refl refl (omega arith) refl
      (omega arith)
