-- ===== src/MapManager/Refinement.antt =====
-- `MapTransferManager`, cyphal/src/transfer/map_manager.rs, as an implementation of a table of
-- transfers.
use mathlib.Core.Path.{subst}
use cyphal_rs.Base.{
  ℕ, ◌+◌, ◌≡◌, refl, sym, Option, Bool-cases, Option-cases, Result-cases, none, some, inl, inr,
  List, leb, length, drop, Result,
}
use cyphal_rs.Clock.{Clock}
use cyphal_rs.HashMap.{get}
use cyphal_rs.Manager.{UpdateTransferError, CreateTransferError, TokenAccessError}
use cyphal_rs.MapManager.Receive.{
  append_frame, append_active, new_transfer, insert_new, with_rx_transfer, cancel_rx_transfer,
}
use cyphal_rs.MapManager.State.{
  Hasher, active, timed_out, RxTransfer, TxTransfer, MapTransferManager, hash_metadata,
}
use cyphal_rs.MapManager.Table.{
  view, at, view-insert, view-remove, put_same, Rx, Tx, append_step, new_step, with_step,
  cancel_step, transmit_step,
}
use cyphal_rs.MapManager.Transmit.{overflows, transmit_active, transmit, cancel_tx_transfer}
use cyphal_rs.Transport.{Transport}
use cyphal_rs.Types.{TransferMetadata, TransferFrame}

module _ ⦃clock : Clock⦄ ⦃hasher : Hasher⦄ (T : Transport clock.Instant) where
  -- What an operation did to the table of transfers to receive, if it left those to send.
  abbrev pub RxStep :
      {A : Type 0}
      → MapTransferManager T
      → MapTransferManager T × A
      → ℕ
      → (Rx T → Rx T × A)
      → Type 0
  RxStep m out token step =
      ((view out.0.rx_transfers, out.1) ≡ at token step (view m.rx_transfers))
      × (out.0.tx_transfers ≡ m.tx_transfers)

  abbrev pub TxStep :
      {A : Type 0}
      → MapTransferManager T
      → MapTransferManager T × A
      → ℕ
      → (Tx T → Tx T × A)
      → Type 0
  TxStep m out token step =
      ((view out.0.tx_transfers, out.1) ≡ at token step (view m.tx_transfers))
      × (out.0.rx_transfers ≡ m.rx_transfers)

  -- What a callback captured counts with the result.
  abbrev pub grouped :
      {R A : Type 0} → MapTransferManager T × R × A → MapTransferManager T × (R × A)
  grouped (m, captured, a) = (m, (captured, a))

  append_active_lem :
      (m : MapTransferManager T) (token : ℕ) (t : RxTransfer T)
      (frame : TransferFrame clock.Instant) (metadata : T.FrameMetadata)
      → get token m.rx_transfers ≡ some (active t)
      → RxStep m
          (append_active T m token t frame metadata)
          token
          (append_step T token frame metadata)
  unfolding append_active
  append_active_lem m token t frame metadata e =
      elim (Result-cases ((T.update_rx_metadata t.transport_metadata metadata frame).1)) [
        | inl r ↦
            (rw (append_active, e, append_step, r, view-insert) refl, rw (append_active, r) refl)
        | inr (inl (_, r)) ↦
            (rw (append_active, e, append_step, r, view-insert) refl, rw (append_active, r) refl)
        | inr (inr (_, r)) ↦
            (rw (append_active, e, append_step, r, view-insert) refl, rw (append_active, r) refl)
      ]

  pub append_frame_lem :
      (m : MapTransferManager T) (frame : TransferFrame clock.Instant) (metadata : T.FrameMetadata)
      → (let token = hash_metadata frame.metadata in
          RxStep m (append_frame T m frame metadata) token (append_step T token frame metadata))
  unfolding append_frame
  append_frame_lem m frame metadata =
      let token = hash_metadata frame.metadata in
      elim (Option-cases (get token m.rx_transfers)) [
        | inl e ↦
            let same = put_same token none (view m.rx_transfers) e in
            (rw (append_frame, e, same) refl, rw (append_frame, e) refl)
        | inr (timed_out, e) ↦
            let same = put_same token (some timed_out) (view m.rx_transfers) e in
            (rw (append_frame, e, same) refl, rw (append_frame, e) refl)
        | inr (active t, e) ↦
            let arm : append_frame T m frame metadata ≡ append_active T m token t frame metadata =
              rw (append_frame, e) refl in
            subst
              (λ (out : MapTransferManager T × Result UpdateTransferError (Option ℕ)).
                RxStep m out token (append_step T token frame metadata))
              (sym arm) (append_active_lem m token t frame metadata e)
      ]

  insert_new_lem :
      (m : MapTransferManager T) (frame : TransferFrame clock.Instant) (metadata : T.FrameMetadata)
      → (let token = hash_metadata frame.metadata in
          (get token m.rx_transfers ≡ none)
          → RxStep m (insert_new T m token frame metadata) token (new_step T token frame metadata))
  unfolding insert_new
  insert_new_lem m frame metadata e =
      let token = hash_metadata frame.metadata in
      let same = put_same token none (view m.rx_transfers) e in
      elim (Result-cases ((T.update_rx_metadata T.rx_default metadata frame).1)) [
        | inl r ↦ (rw (insert_new, e, new_step, r, same) refl, rw (insert_new, r) refl)
        | inr (inl (_, r)) ↦ (rw (insert_new, e, new_step, r, same) refl, rw (insert_new, r) refl)
        | inr (inr (_, r)) ↦
            (rw (insert_new, e, new_step, r, view-insert) refl, rw (insert_new, r) refl)
      ]

  pub new_transfer_lem :
      (m : MapTransferManager T) (frame : TransferFrame clock.Instant) (metadata : T.FrameMetadata)
      → (let token = hash_metadata frame.metadata in
          RxStep m (new_transfer T m frame metadata) token (new_step T token frame metadata))
  unfolding new_transfer
  new_transfer_lem m frame metadata =
      let token = hash_metadata frame.metadata in
      elim (Option-cases (get token m.rx_transfers)) [
        | inl e ↦
            let arm : new_transfer T m frame metadata ≡ insert_new T m token frame metadata =
              rw (new_transfer, e) refl in
            subst
              (λ (out : MapTransferManager T × Result CreateTransferError (Option ℕ)).
                RxStep m out token (new_step T token frame metadata))
              (sym arm) (insert_new_lem m frame metadata e)
        | inr (s, e) ↦
            let same = put_same token (some s) (view m.rx_transfers) e in
            (rw (new_transfer, e, same) refl, rw (new_transfer, e) refl)
      ]

  with_rx_transfer_lem :
      {R : Type 0} (m : MapTransferManager T) (token : ℕ) (captured : R)
      (cb : TransferMetadata clock.Instant → List ℕ → R → R)
      → RxStep m (grouped (with_rx_transfer T m token captured cb)) token (with_step T captured cb)
  unfolding with_rx_transfer
  with_rx_transfer_lem m token captured cb = elim (Option-cases (get token m.rx_transfers)) [
    | inl e ↦
        let same = put_same token none (view m.rx_transfers) e in
        (rw (with_rx_transfer, e, same) refl, rw (with_rx_transfer, e) refl)
    | inr (timed_out, e) ↦
        let same = put_same token (some timed_out) (view m.rx_transfers) e in
        (rw (with_rx_transfer, e, same) refl, rw (with_rx_transfer, e) refl)
    | inr (active t, e) ↦
        let same = put_same token (some (active t)) (view m.rx_transfers) e in
        (rw (with_rx_transfer, e, same) refl, rw (with_rx_transfer, e) refl)
  ]

  cancel_rx_transfer_lem :
      (m : MapTransferManager T) (token : ℕ)
      → RxStep m (cancel_rx_transfer T m token) token cancel_step
  unfolding cancel_rx_transfer
  cancel_rx_transfer_lem m token = elim (Option-cases (get token m.rx_transfers)) [
    | inl e ↦
        let same = put_same token none (view m.rx_transfers) e in
        (rw (cancel_rx_transfer, e, same) refl, rw (cancel_rx_transfer, e) refl)
    | inr (s, e) ↦ (rw (cancel_rx_transfer, e, view-remove) refl, rw (cancel_rx_transfer, e) refl)
  ]

  cancel_tx_transfer_lem :
      (m : MapTransferManager T) (token : ℕ)
      → TxStep m (cancel_tx_transfer T m token) token cancel_step
  unfolding cancel_tx_transfer
  cancel_tx_transfer_lem m token = elim (Option-cases (get token m.tx_transfers)) [
    | inl e ↦
        let same = put_same token none (view m.tx_transfers) e in
        (rw (cancel_tx_transfer, e, same) refl, rw (cancel_tx_transfer, e) refl)
    | inr (s, e) ↦ (rw (cancel_tx_transfer, e, view-remove) refl, rw (cancel_tx_transfer, e) refl)
  ]

  transmit_active_lem :
      {R : Type 0} (m : MapTransferManager T) (token : ℕ) (t : TxTransfer T) (captured : R)
      (cb : TransferMetadata clock.Instant → T.TxMetadata → List ℕ → R → R × T.TxMetadata × ℕ)
      → get token m.tx_transfers ≡ some (active t)
      → TxStep m
          (grouped (transmit_active T m token t captured cb))
          token
          (transmit_step T token captured cb)
  unfolding transmit_active
  transmit_active_lem m token t captured cb e =
      let same = put_same token (some (active t)) (view m.tx_transfers) e in
      let used =
        (cb t.transfer_metadata t.transport_metadata (drop t.consumed t.payload) captured).2 in
      elim (Bool-cases (leb t.consumed (length t.payload))) [
        | inr over ↦ (
          rw (transmit_active, e, transmit_step, over, same) refl,
          rw (transmit_active, over) refl,
        )
        | inl fits ↦ elim (Bool-cases (overflows (length t.payload) (t.consumed + used))) [
          | inl over ↦ (
            rw (transmit_active, e, transmit_step, fits, over, view-insert) refl,
            rw (transmit_active, fits, over) refl,
          )
          | inr small ↦ elim (Bool-cases (leb (length t.payload) (t.consumed + used))) [
            | inl done ↦ (
              rw (transmit_active, e, transmit_step, fits, small, done, view-remove) refl,
              rw (transmit_active, fits, small, done) refl,
            )
            | inr more ↦ (
              rw (transmit_active, e, transmit_step, fits, small, more, view-insert) refl,
              rw (transmit_active, fits, small, more) refl,
            )
          ]
        ]
      ]

  transmit_lem :
      {R : Type 0} (m : MapTransferManager T) (token : ℕ) (captured : R)
      (cb : TransferMetadata clock.Instant → T.TxMetadata → List ℕ → R → R × T.TxMetadata × ℕ)
      → TxStep m
          (grouped (transmit T m token captured cb))
          token
          (transmit_step T token captured cb)
  unfolding transmit
  transmit_lem {R} m token captured cb = elim (Option-cases (get token m.tx_transfers)) [
    | inl e ↦
        let same = put_same token none (view m.tx_transfers) e in
        (rw (transmit, e, same) refl, rw (transmit, e) refl)
    | inr (timed_out, e) ↦
        let same = put_same token (some timed_out) (view m.tx_transfers) e in
        (rw (transmit, e, same) refl, rw (transmit, e) refl)
    | inr (active t, e) ↦
        let arm : transmit T m token captured cb ≡ transmit_active T m token t captured cb =
          rw (transmit, e) refl in
        subst
          (λ (out : MapTransferManager T × R × Result TokenAccessError (Option ℕ)).
            TxStep m (grouped out) token (transmit_step T token captured cb))
          (sym arm) (transmit_active_lem m token t captured cb e)
  ]

  -- `MapTransferManager` implements a table of transfers under tokens: `append_frame` and
  -- `new_transfer` act on the entry under the hash of the frame's metadata, `with_rx_transfer`,
  -- `cancel_rx_transfer`, `transmit` and `cancel_tx_transfer` on the entry under the token that they
  -- are given. What they return and what the entry becomes is a function of the entry before; every
  -- other entry stays, and so do the transfers of the other direction.
  pub MapTransferManager-Table :
      {R : Type 0} (m : MapTransferManager T) (frame : TransferFrame clock.Instant)
      (metadata : T.FrameMetadata) (token : ℕ) (captured : R)
      (read : TransferMetadata clock.Instant → List ℕ → R → R)
      (send : TransferMetadata clock.Instant → T.TxMetadata → List ℕ → R → R × T.TxMetadata × ℕ)
      → (let key = hash_metadata frame.metadata in
          RxStep m (append_frame T m frame metadata) key (append_step T key frame metadata)
          × RxStep m (new_transfer T m frame metadata) key (new_step T key frame metadata)
          × RxStep m
              (grouped (with_rx_transfer T m token captured read))
              token
              (with_step T captured read)
          × RxStep m (cancel_rx_transfer T m token) token cancel_step
          × TxStep m
              (grouped (transmit T m token captured send))
              token
              (transmit_step T token captured send)
          × TxStep m (cancel_tx_transfer T m token) token cancel_step)
  MapTransferManager-Table m frame metadata token captured read send = (
    append_frame_lem m frame metadata,
    new_transfer_lem m frame metadata,
    with_rx_transfer_lem m token captured read,
    cancel_rx_transfer_lem m token,
    transmit_lem m token captured send,
    cancel_tx_transfer_lem m token,
  )
