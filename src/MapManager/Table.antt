-- ===== src/MapManager/Table.antt =====
-- What `TransferManager` (cyphal/src/transfer/manager.rs) promises of a table of transfers under
-- tokens: a step at one entry for each operation of `MapTransferManager`.
use mathlib.Core.Path.{fun_ext}
use cyphal_rs.Base.{
  ℕ, ◌+◌, ◌^◌, ◌&&◌, ltb, ◌≡◌, refl, sym, ap, ◌∙◌, not, Bool-cases, Option, none, some, inl, inr,
  List, ◌++◌, ◌==◌, leb, if◌then◌else◌, length, drop, Result, ok, err, panic, arith,
}
use cyphal_rs.Clock.{Clock}
use cyphal_rs.HashMap.{get, insert, remove, get-insert, get-remove}
use cyphal_rs.Manager.{UpdateTransferError, CreateTransferError, TokenAccessError}
use cyphal_rs.MapManager.State.{TransferStatus, active, timed_out, RxTransfer, TxTransfer}
use cyphal_rs.Transport.{Transport}
use cyphal_rs.Types.{TransferMetadata, TransferFrame}

abbrev pub Table : Type 0 → Type 0
Table V = ℕ → Option V

module _ {V : Type 0} where
  -- The table that a map stands for.
  abbrev pub view : List (ℕ × V) → Table V
  view m = λ k. get k m

  abbrev pub put : ℕ → Option V → Table V → Table V
  put token entry table = λ k. if token == k then entry else table k

  -- A step at one entry, as a step of the table.
  abbrev pub at : {A : Type 0} → ℕ → (Option V → Option V × A) → Table V → Table V × A
  at token step table = let (entry, a) = step (table token) in (put token entry table, a)

  -- A transfer of either kind is given up.
  abbrev pub cancel_step : Option V → Option V × Result TokenAccessError (Unit {0})
  cancel_step none = (none, err TokenAccessError.invalid_token)
  cancel_step (some s) = (none, ok tt)

  pub view-insert :
      (k : ℕ) (v : V) (m : List (ℕ × V)) → view (insert k v m) ≡ put k (some v) (view m)
  view-insert k v m = fun_ext (λ j. get-insert k j v m)

  pub view-remove : (k : ℕ) (m : List (ℕ × V)) → view (remove k m) ≡ put k none (view m)
  view-remove k m = fun_ext (λ j. get-remove k j m)

  pub put_same : (k : ℕ) (v : Option V) (t : Table V) → t k ≡ v → put k v t ≡ t
  put_same k v t e = fun_ext (λ j. elim (Bool-cases (k == j)) [
    | inl hit ↦ let same : k ≡ j = ground arith in rw hit (sym e ∙ ap t same)
    | inr miss ↦ rw miss refl
  ])

module _ ⦃clock : Clock⦄ (T : Transport clock.Instant) where
  abbrev pub Rx : Type 0
  Rx = Option (TransferStatus (RxTransfer T))

  abbrev pub Tx : Type 0
  Tx = Option (TransferStatus (TxTransfer T))

  -- A frame for a transfer that is there. The transport's metadata change even if it refuses.
  abbrev pub append_step :
      ℕ
      → TransferFrame clock.Instant
      → T.FrameMetadata
      → Rx
      → Rx × Result UpdateTransferError (Option ℕ)
  append_step token frame metadata none = (none, err UpdateTransferError.does_not_exist)
  append_step token frame metadata (some timed_out) =
      (some timed_out, err UpdateTransferError.timed_out)
  append_step token frame metadata (some (active transfer)) =
      let (md, result) = T.update_rx_metadata transfer.transport_metadata metadata frame in
      elim result [
        | err e ↦ (
          some (active (record transfer { transport_metadata = md })),
          err (UpdateTransferError.rx_error e),
        )
        | panic ↦ (some (active (record transfer { transport_metadata = md })), panic)
        | ok _ ↦ (
          some (
              active (record transfer {
                transport_metadata = md;
                payload = transfer.payload ++ frame.payload;
              })),
          ok (if frame.last_frame then some token else none),
        )
      ]

  -- The first frame of a transfer.
  abbrev pub new_step :
      ℕ
      → TransferFrame clock.Instant
      → T.FrameMetadata
      → Rx
      → Rx × Result CreateTransferError (Option ℕ)
  new_step token frame metadata (some s) = (some s, err CreateTransferError.already_exists)
  new_step token frame metadata none =
      let (md, result) = T.update_rx_metadata T.rx_default metadata frame in
      elim result [
        | err e ↦ (none, err (CreateTransferError.rx_error e))
        | panic ↦ (none, panic)
        | ok _ ↦ (
          some (
              active (record {
                transfer_metadata = frame.metadata;
                transport_metadata = md;
                payload = frame.payload;
              })),
          ok (if frame.last_frame then some token else none),
        )
      ]

  abbrev pub with_step :
      {R : Type 0}
      → R
      → (TransferMetadata clock.Instant → List ℕ → R → R)
      → Rx
      → Rx × (R × Result TokenAccessError (Unit {0}))
  with_step captured cb none = (none, (captured, err TokenAccessError.invalid_token))
  with_step captured cb (some timed_out) =
      (some timed_out, (captured, err TokenAccessError.transfer_timeout))
  with_step captured cb (some (active transfer)) =
      (some (active transfer), (cb transfer.transfer_metadata transfer.payload captured, ok tt))

  -- A part of a transfer is sent, and it is dropped once all of it is. The count of what is sent is
  -- 64 bits wide.
  abbrev pub transmit_step :
      {R : Type 0}
      → ℕ
      → R
      → (TransferMetadata clock.Instant → T.TxMetadata → List ℕ → R → R × T.TxMetadata × ℕ)
      → Tx
      → Tx × (R × Result TokenAccessError (Option ℕ))
  transmit_step token captured cb none = (none, (captured, err TokenAccessError.invalid_token))
  transmit_step token captured cb (some timed_out) =
      (some timed_out, (captured, err TokenAccessError.transfer_timeout))
  transmit_step token captured cb (some (active transfer)) =
      if not (leb transfer.consumed (length transfer.payload))
      then (some (active transfer), (captured, panic))
      else (let (captured', md, consumed) =
            cb transfer.transfer_metadata transfer.transport_metadata
              (drop transfer.consumed transfer.payload) captured in
          if leb (2 ^ 64) (transfer.consumed + consumed)
            && ltb (length transfer.payload) (transfer.consumed + consumed)
          then (some (active (record transfer { transport_metadata = md })), (captured', panic))
          else if leb (length transfer.payload) (transfer.consumed + consumed)
          then (none, (captured', ok none))
          else (
            some (
                active (record transfer {
                  transport_metadata = md;
                  consumed = transfer.consumed + consumed;
                })),
            (captured', ok (some token)),
          ))
