-- ===== src/MapManager/Transmit.antt =====
-- The sending half of `TransferManager for MapTransferManager`,
-- cyphal/src/transfer/map_manager.rs.
use cyphal_rs.Base.{
  ℕ, ◌+◌, ◌^◌, min, not, Bool, ◌&&◌, ltb, Option, none, some, List, ◌++◌, leb, if◌then◌else◌,
  length, take, drop, replicate, Result, ok, err, panic,
}
use cyphal_rs.Clock.{Clock}
use cyphal_rs.HashMap.{get, insert, remove}
use cyphal_rs.Manager.{
  CreateTransferError, TokenAccessError, InternalOrUserError, internal_error, user_error,
}
use cyphal_rs.MapManager.State.{
  Hasher, active, timed_out, TxTransfer, MapTransferManager, hash_metadata,
}
use cyphal_rs.Transport.{Transport}
use cyphal_rs.Types.{TransferMetadata}

-- `Vec::resize(len, 0)`.
abbrev pub resize : List ℕ → ℕ → List ℕ
resize xs len = take len (xs ++ replicate len 0)

-- Whether a sum of type `usize` overflows, with a `Vec` of length `len` in memory: its length is a
-- `usize`, so what is at most that does not.
abbrev pub overflows : ℕ → ℕ → Bool
overflows len sum = leb (2 ^ 64) sum && ltb len sum

module _ ⦃clock : Clock⦄ ⦃hasher : Hasher⦄ (T : Transport clock.Instant) where
  -- The arm of `create_transmission` for a callback that used `used` bytes of `buf`.
  unfoldable pub store_transmission :
      {E : Type 0}
      → MapTransferManager T
      → ℕ
      → TransferMetadata clock.Instant
      → List ℕ
      → ℕ
      → MapTransferManager T × Result (InternalOrUserError CreateTransferError E) ℕ
  store_transmission {E} m token metadata buf used =
      let consumed = min (length buf) used in
      elim (T.process_tx_crc {E = InternalOrUserError CreateTransferError E} buf consumed) [
        | err e ↦ (m, err e)
        | panic ↦ (m, panic)
        | ok (buf', real_len) ↦ if not (leb real_len (length buf')) then (m, panic) else (
          record m {
            tx_transfers =
                insert token
                  (active (record {
                    transfer_metadata = metadata;
                    transport_metadata = T.tx_default;
                    consumed = 0;
                    payload = resize buf' real_len;
                  }))
                  m.tx_transfers;
          },
          ok (hash_metadata metadata),
        )
      ]

  -- The callback is given the first `requested_buffer_size` bytes, and what it makes of them is
  -- written back.
  unfoldable pub create_transmission :
      {E : Type 0}
      → MapTransferManager T
      → ℕ
      → TransferMetadata clock.Instant
      → (List ℕ → List ℕ × Result E ℕ)
      → MapTransferManager T × Result (InternalOrUserError CreateTransferError E) ℕ
  create_transmission m requested_buffer_size metadata cb =
      let token = hash_metadata metadata in
      let final_buf_size = T.get_crc_padded_size requested_buffer_size in
      let buf : List ℕ = replicate final_buf_size 0 in
      elim (get token m.tx_transfers) [
        | some _ ↦ (m, err (internal_error CreateTransferError.already_exists))
        | none ↦
            if not (leb requested_buffer_size (length buf))
            then (m, panic)
            else (let (written, result) = cb (take requested_buffer_size buf) in
                elim result [
                  | err e ↦ (m, err (user_error e))
                  | panic ↦ (m, panic)
                  | ok used ↦
                      store_transmission m token metadata
                        (written ++ drop requested_buffer_size buf) used
                ])
      ]

  -- The arm of `transmit` for an active transfer. `payload[consumed..]` panics past the end, and `+=`
  -- on overflow, when the callback has changed the metadata.
  unfoldable pub transmit_active :
      {R : Type 0}
      → MapTransferManager T
      → ℕ
      → TxTransfer T
      → R
      → (TransferMetadata clock.Instant → T.TxMetadata → List ℕ → R → R × T.TxMetadata × ℕ)
      → MapTransferManager T × R × Result TokenAccessError (Option ℕ)
  transmit_active m token transfer captured cb =
      if not (leb transfer.consumed (length transfer.payload))
      then (m, captured, panic)
      else (let (captured', md, consumed) =
            cb transfer.transfer_metadata transfer.transport_metadata
              (drop transfer.consumed transfer.payload) captured in
          let transfer' : TxTransfer T = record transfer {
            transport_metadata = md;
            consumed = transfer.consumed + consumed;
          } in
          if overflows (length transfer.payload) (transfer.consumed + consumed)
          then (
            record m {
              tx_transfers =
                  insert token (active (record transfer { transport_metadata = md }))
                    m.tx_transfers;
            },
            captured',
            panic,
          )
          else if leb (length transfer'.payload) transfer'.consumed
          then (record m { tx_transfers = remove token m.tx_transfers }, captured', ok none)
          else (
            record m { tx_transfers = insert token (active transfer') m.tx_transfers },
            captured',
            ok (some token),
          ))

  unfoldable pub transmit :
      {R : Type 0}
      → MapTransferManager T
      → ℕ
      → R
      → (TransferMetadata clock.Instant → T.TxMetadata → List ℕ → R → R × T.TxMetadata × ℕ)
      → MapTransferManager T × R × Result TokenAccessError (Option ℕ)
  transmit m token captured cb = elim (get token m.tx_transfers) [
    | none ↦ (m, captured, err TokenAccessError.invalid_token)
    | some timed_out ↦ (m, captured, err TokenAccessError.transfer_timeout)
    | some (active transfer) ↦ transmit_active m token transfer captured cb
  ]

  unfoldable pub cancel_tx_transfer :
      MapTransferManager T → ℕ → MapTransferManager T × Result TokenAccessError (Unit {0})
  cancel_tx_transfer m token = elim (get token m.tx_transfers) [
    | some _ ↦ (record m { tx_transfers = remove token m.tx_transfers }, ok tt)
    | none ↦ (m, err TokenAccessError.invalid_token)
  ]
