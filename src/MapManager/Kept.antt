-- ===== src/MapManager/Kept.antt =====
-- What every operation of `MapTransferManager` keeps, cyphal/src/transfer/map_manager.rs.
use native.Mathlib.Decide.{ℕ_discrete}
use cyphal_rs.Base.{
  ℕ, ◌+◌, ◌≤◌, ◌≡◌, refl, true, some, List, leb, length, drop, replicate, take, min, Bool-cases,
  Option-cases, Result-cases, inl, inr, Result, arith,
}
use cyphal_rs.Clock.{Clock}
use cyphal_rs.HashMap.{get, insert, remove, get-insert, get-remove}
use cyphal_rs.Manager.{CreateTransferError, InternalOrUserError}
use cyphal_rs.MapManager.Receive.{
  append_frame, append_active, new_transfer, insert_new, cancel_rx_transfer,
}
use cyphal_rs.MapManager.State.{
  Hasher, TransferStatus, active, timed_out, RxTransfer, TxTransfer, MapTransferManager,
  hash_metadata,
}
use cyphal_rs.MapManager.Transmit.{
  create_transmission, overflows, store_transmission, transmit, transmit_active, cancel_tx_transfer,
}
use cyphal_rs.Transport.{Transport}
use cyphal_rs.Types.{TransferMetadata, TransferFrame}

-- A property of every active entry of a map.
module _ {D : Type 0} (P : ℕ → D → Type 0) where
  abbrev pub Each : List (ℕ × TransferStatus D) → Type 0
  Each m = (k : ℕ) (t : D) → get k m ≡ some (active t) → P k t

  Each-insert :
      (token : ℕ) (t : D) (m : List (ℕ × TransferStatus D))
      → Each m
      → P token t
      → Each (insert token (active t) m)
  Each-insert token t m each here k u e =
      let found = get-insert token k (active t) m in
      elim (ℕ_discrete token k) [
        | yes same ↦ let t_u : t ≡ u = ground arith in rw (← same, ← t_u) here
        | no other ↦ each k u (ground arith)
      ]

  Each-remove : (token : ℕ) (m : List (ℕ × TransferStatus D)) → Each m → Each (remove token m)
  Each-remove token m each k t e = let found = get-remove token k m in each k t (ground arith)

module _ ⦃clock : Clock⦄ ⦃hasher : Hasher⦄ (T : Transport clock.Instant) where
  -- A transfer to receive stands under the hash of its metadata.
  abbrev pub RxKept : ℕ → RxTransfer T → Type 0
  RxKept k t = hash_metadata t.transfer_metadata ≡ k

  -- So does one to send, and no more of it is sent than it holds.
  abbrev pub TxKept : ℕ → TxTransfer T → Type 0
  TxKept k t = (hash_metadata t.transfer_metadata ≡ k) × (t.consumed ≤ length t.payload)

  pub record Kept (m : MapTransferManager T) : Type 0 where
    pub rx_each : Each RxKept m.rx_transfers
    pub tx_each : Each TxKept m.tx_transfers

  -- Three shapes of change: an entry to receive is written, one to send is written, or removed.
  module _ (m : MapTransferManager T) (token : ℕ) (kept : Kept m) where
    store_rx-Kept :
        (t : RxTransfer T)
        → RxKept token t
        → Kept (record m { rx_transfers = insert token (active t) m.rx_transfers })
    store_rx-Kept t here = record {
      rx_each = Each-insert RxKept token t m.rx_transfers kept.rx_each here;
      tx_each = kept.tx_each;
    }

    store_tx-Kept :
        (t : TxTransfer T)
        → TxKept token t
        → Kept (record m { tx_transfers = insert token (active t) m.tx_transfers })
    store_tx-Kept t here = record {
      rx_each = kept.rx_each;
      tx_each = Each-insert TxKept token t m.tx_transfers kept.tx_each here;
    }

    remove_rx-Kept : Kept (record m { rx_transfers = remove token m.rx_transfers })
    remove_rx-Kept = record {
      rx_each = Each-remove RxKept token m.rx_transfers kept.rx_each;
      tx_each = kept.tx_each;
    }

    remove_tx-Kept : Kept (record m { tx_transfers = remove token m.tx_transfers })
    remove_tx-Kept = record {
      rx_each = kept.rx_each;
      tx_each = Each-remove TxKept token m.tx_transfers kept.tx_each;
    }

  append_active-Kept :
      (m : MapTransferManager T) (token : ℕ) (t : RxTransfer T)
      (frame : TransferFrame clock.Instant) (metadata : T.FrameMetadata)
      → Kept m
      → RxKept token t
      → Kept (append_active T m token t frame metadata).0
  unfolding append_active
  append_active-Kept m token t frame metadata kept here =
      let (md, result) = T.update_rx_metadata t.transport_metadata metadata frame in
      elim (Result-cases result) [
        | inl e ↦ rw (append_active, e) (store_rx-Kept m token kept _ here)
        | inr (inl (_, e)) ↦ rw (append_active, e) (store_rx-Kept m token kept _ here)
        | inr (inr (_, e)) ↦ rw (append_active, e) (store_rx-Kept m token kept _ here)
      ]

  pub append_frame-Kept :
      (m : MapTransferManager T) (frame : TransferFrame clock.Instant) (metadata : T.FrameMetadata)
      → Kept m
      → Kept (append_frame T m frame metadata).0
  unfolding append_frame
  append_frame-Kept m frame metadata kept =
      let token = hash_metadata frame.metadata in
      elim (Option-cases (get token m.rx_transfers)) [
        | inl absent ↦ rw (append_frame, absent) kept
        | inr (timed_out, found) ↦ rw (append_frame, found) kept
        | inr (active t, found) ↦
            rw (append_frame, found)
              (append_active-Kept m token t frame metadata kept (kept.rx_each token t found))
      ]

  pub new_transfer-Kept :
      (m : MapTransferManager T) (frame : TransferFrame clock.Instant) (metadata : T.FrameMetadata)
      → Kept m
      → Kept (new_transfer T m frame metadata).0
  unfolding new_transfer insert_new
  new_transfer-Kept m frame metadata kept =
      let token = hash_metadata frame.metadata in
      let (md, result) = T.update_rx_metadata T.rx_default metadata frame in
      elim (Option-cases (get token m.rx_transfers)) [
        | inr (_, found) ↦ rw (new_transfer, found) kept
        | inl absent ↦ elim (Result-cases result) [
          | inl e ↦ rw (new_transfer, absent, insert_new, e) kept
          | inr (inl (_, e)) ↦ rw (new_transfer, absent, insert_new, e) kept
          | inr (inr (_, e)) ↦
              rw (new_transfer, absent, insert_new, e) (store_rx-Kept m token kept _ refl)
        ]
      ]

  pub cancel_rx_transfer-Kept :
      (m : MapTransferManager T) (token : ℕ) → Kept m → Kept (cancel_rx_transfer T m token).0
  unfolding cancel_rx_transfer
  cancel_rx_transfer-Kept m token kept = elim (Option-cases (get token m.rx_transfers)) [
    | inl e ↦ rw (cancel_rx_transfer, e) kept
    | inr (_, e) ↦ rw (cancel_rx_transfer, e) (remove_rx-Kept m token kept)
  ]

  pub cancel_tx_transfer-Kept :
      (m : MapTransferManager T) (token : ℕ) → Kept m → Kept (cancel_tx_transfer T m token).0
  unfolding cancel_tx_transfer
  cancel_tx_transfer-Kept m token kept = elim (Option-cases (get token m.tx_transfers)) [
    | inl e ↦ rw (cancel_tx_transfer, e) kept
    | inr (_, e) ↦ rw (cancel_tx_transfer, e) (remove_tx-Kept m token kept)
  ]

  transmit_active-Kept :
      {R : Type 0} (m : MapTransferManager T) (token : ℕ) (t : TxTransfer T) (captured : R)
      (cb : TransferMetadata clock.Instant → T.TxMetadata → List ℕ → R → R × T.TxMetadata × ℕ)
      → Kept m
      → TxKept token t
      → Kept (transmit_active T m token t captured cb).0
  unfolding transmit_active
  transmit_active-Kept m token t captured cb kept (named, room) =
      let (captured', md, n) =
        cb t.transfer_metadata t.transport_metadata (drop t.consumed t.payload) captured in
      let fits : leb t.consumed (length t.payload) ≡ true = ground arith in
      elim (Bool-cases (overflows (length t.payload) (t.consumed + n))) [
        | inl over ↦ rw (transmit_active, fits, over) (store_tx-Kept m token kept _ (named, room))
        | inr small ↦ elim (Bool-cases (leb (length t.payload) (t.consumed + n))) [
          | inl done ↦ rw (transmit_active, fits, small, done) (remove_tx-Kept m token kept)
          | inr more ↦
              rw (transmit_active, fits, small, more)
                (store_tx-Kept m token kept _ (named, ground arith))
        ]
      ]

  pub transmit-Kept :
      {R : Type 0} (m : MapTransferManager T) (token : ℕ) (captured : R)
      (cb : TransferMetadata clock.Instant → T.TxMetadata → List ℕ → R → R × T.TxMetadata × ℕ)
      → Kept m
      → Kept (transmit T m token captured cb).0
  unfolding transmit
  transmit-Kept m token captured cb kept = elim (Option-cases (get token m.tx_transfers)) [
    | inl e ↦ rw (transmit, e) kept
    | inr (timed_out, e) ↦ rw (transmit, e) kept
    | inr (active t, e) ↦
        rw (transmit, e) (transmit_active-Kept m token t captured cb kept (kept.tx_each token t e))
  ]

  store_transmission-Kept :
      (E : Type 0) (m : MapTransferManager T) (md : TransferMetadata clock.Instant) (buf : List ℕ)
      (used : ℕ)
      → Kept m
      → Kept (store_transmission T {E = E} m (hash_metadata md) md buf used).0
  unfolding store_transmission
  store_transmission-Kept E m md buf used kept =
      elim (Result-cases (
        T.process_tx_crc {E = InternalOrUserError CreateTransferError E} buf
          (min (length buf) used))) [
            | inl e ↦ rw (store_transmission, e) kept
            | inr (inl (_, e)) ↦ rw (store_transmission, e) kept
            | inr (inr ((buf', real_len), e)) ↦ elim (Bool-cases (leb real_len (length buf'))) [
              | inl fits ↦
                  rw (store_transmission, e, fits)
                    (store_tx-Kept m (hash_metadata md) kept _ (refl, omega arith))
              | inr over ↦ rw (store_transmission, e, over) kept
            ]
          ]

  pub create_transmission-Kept :
      {E : Type 0} (m : MapTransferManager T) (requested : ℕ) (md : TransferMetadata clock.Instant)
      (cb : List ℕ → List ℕ × Result E ℕ)
      → Kept m
      → Kept (create_transmission T m requested md cb).0
  unfolding create_transmission
  create_transmission-Kept {E} m requested md cb kept =
      let buf : List ℕ = replicate (T.get_crc_padded_size requested) 0 in
      elim (Option-cases (get (hash_metadata md) m.tx_transfers)) [
        | inr (_, e) ↦ rw (create_transmission, e) kept
        | inl free ↦ elim (Bool-cases (leb requested (length buf))) [
          | inr over ↦ rw (create_transmission, free, over) kept
          | inl fits ↦ elim (Result-cases (cb (take requested buf)).1) [
            | inl e ↦ rw (create_transmission, free, fits, e) kept
            | inr (inl (_, e)) ↦ rw (create_transmission, free, fits, e) kept
            | inr (inr (used, e)) ↦
                rw (create_transmission, free, fits, e) (store_transmission-Kept E m md _ used kept)
          ]
        ]
      ]
