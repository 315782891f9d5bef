-- ===== src/MapManager/Reachable.antt =====
-- The states that a user of `MapTransferManager` can reach, cyphal/src/transfer/map_manager.rs.
use cyphal_rs.Base.{
  ℕ, ◌+◌, ◌^◌, ◌≤◌, ◌<◌, ◌≡◌, ap, ◌∙◌, some, List, length, drop, length-drop, Option-cases, inl,
  inr, Result, ok, panic, >>=-eq-ok, arith,
}
use cyphal_rs.Clock.{Clock}
use cyphal_rs.HashMap.{get, for_values, get-for_values_before}
use cyphal_rs.Manager.{timestamp_expired}
use cyphal_rs.MapManager.Kept.{
  Each, RxKept, TxKept, Kept, append_frame-Kept, new_transfer-Kept, cancel_rx_transfer-Kept,
  cancel_tx_transfer-Kept, transmit-Kept, create_transmission-Kept,
}
use cyphal_rs.MapManager.Receive.{append_frame, new_transfer, cancel_rx_transfer}
use cyphal_rs.MapManager.State.{
  Hasher, TransferStatus, active, timed_out, RxTransfer, TxTransfer, MapTransferManager, new,
}
use cyphal_rs.MapManager.Timeout.{expire, update_transfers}
use cyphal_rs.MapManager.Transmit.{
  create_transmission, transmit, transmit_active, cancel_tx_transfer,
}
use cyphal_rs.Transport.{Transport}
use cyphal_rs.Types.{TransferMetadata, TransferFrame}

module _ ⦃clock : Clock⦄ where
  -- What is active after the timeouts was so before.
  expire-active :
      {D E : Type 0} (started : D → clock.Instant) (now : clock.Instant) (timeout : ℕ)
      (s : TransferStatus D) (t : D)
      → expire {E = E} started now timeout s ≡ ok (active t)
      → s ≡ active t
  unfolding expire
  expire-active started now timeout timed_out t e = cc
  expire-active {E = E} started now timeout (active u) t e =
      let (expired, _, left) =
        >>=-eq-ok (timestamp_expired {E = E} timeout now (some (started u))) _ e in
      ground arith

  Each-expire :
      {D E : Type 0} (P : ℕ → D → Type 0) (started : D → clock.Instant) (now : clock.Instant)
      (timeout : ℕ) (m m' : List (ℕ × TransferStatus D))
      → for_values (expire {E = E} started now timeout) m ≡ ok m'
      → Each P m
      → Each P m'
  Each-expire P started now timeout m m' e each k t found =
      let (s, before, left) =
        get-for_values_before (expire started now timeout) m m' k (active t) e found in
      each k t (before ∙ ap some (expire-active started now timeout s t left))

module _ ⦃clock : Clock⦄ ⦃hasher : Hasher⦄ (T : Transport clock.Instant) where
  update_transfers-Kept :
      {E : Type 0} (m m' : MapTransferManager T) (now : clock.Instant) (timeout : ℕ)
      → update_transfers {E = E} T m now timeout ≡ ok m'
      → Kept T m
      → Kept T m'
  unfolding update_transfers
  update_transfers-Kept {E} m m' now timeout e kept =
      let (tx, sent, rest) =
        >>=-eq-ok
          (for_values
            (expire {E = E} (λ (t : TxTransfer T). t.transfer_metadata.timestamp) now timeout)
            m.tx_transfers)
          _ e in
      let (rx, received, left) =
        >>=-eq-ok
          (for_values
            (expire {E = E} (λ (t : RxTransfer T). t.transfer_metadata.timestamp) now timeout)
            m.rx_transfers)
          _ rest in
      let both : record { rx_transfers = rx; tx_transfers = tx } ≡ m' = cc in
      rw (← both) (record {
        rx_each =
            Each-expire {E = E} (RxKept T) _ now timeout m.rx_transfers rx received kept.rx_each;
        tx_each = Each-expire {E = E} (TxKept T) _ now timeout m.tx_transfers tx sent kept.tx_each;
      })

  -- A manager after any sequence of operations. Where one panics, the program is over, and
  -- nothing is reached through it that the theorems would need.
  pub data Reachable : MapTransferManager T → Type 1 where
    created : Reachable (new T)
    appended :
        {m : MapTransferManager T} (frame : TransferFrame clock.Instant)
        (metadata : T.FrameMetadata)
        → Reachable m
        → Reachable (append_frame T m frame metadata).0
    received :
        {m : MapTransferManager T} (frame : TransferFrame clock.Instant)
        (metadata : T.FrameMetadata)
        → Reachable m
        → Reachable (new_transfer T m frame metadata).0
    cancelled_rx :
        {m : MapTransferManager T} (token : ℕ)
        → Reachable m
        → Reachable (cancel_rx_transfer T m token).0
    begun :
        {m : MapTransferManager T} {E : Type 0} (requested : ℕ)
        (md : TransferMetadata clock.Instant) (cb : List ℕ → List ℕ × Result E ℕ)
        → Reachable m
        → Reachable (create_transmission T m requested md cb).0
    sent :
        {m : MapTransferManager T} {R : Type 0} (token : ℕ) (captured : R)
        (cb : TransferMetadata clock.Instant → T.TxMetadata → List ℕ → R → R × T.TxMetadata × ℕ)
        → Reachable m
        → Reachable (transmit T m token captured cb).0
    cancelled_tx :
        {m : MapTransferManager T} (token : ℕ)
        → Reachable m
        → Reachable (cancel_tx_transfer T m token).0
    updated :
        {m m' : MapTransferManager T} (now : clock.Instant) (timeout : ℕ)
        → update_transfers {E = ⊥} T m now timeout ≡ ok m'
        → Reachable m
        → Reachable m'

  pub Reachable-Kept : {m : MapTransferManager T} → Reachable m → Kept T m
  unfolding get
  Reachable-Kept created = record { rx_each = λ k t e. cc; tx_each = λ k t e. cc }
  Reachable-Kept (appended frame metadata r) =
      append_frame-Kept T _ frame metadata (Reachable-Kept r)
  Reachable-Kept (received frame metadata r) =
      new_transfer-Kept T _ frame metadata (Reachable-Kept r)
  Reachable-Kept (cancelled_rx token r) = cancel_rx_transfer-Kept T _ token (Reachable-Kept r)
  Reachable-Kept (begun requested md cb r) =
      create_transmission-Kept T _ requested md cb (Reachable-Kept r)
  Reachable-Kept (sent token captured cb r) = transmit-Kept T _ token captured cb (Reachable-Kept r)
  Reachable-Kept (cancelled_tx token r) = cancel_tx_transfer-Kept T _ token (Reachable-Kept r)
  Reachable-Kept (updated now timeout e r) =
      update_transfers-Kept _ _ now timeout e (Reachable-Kept r)

  -- What a callback of `transmit` says that it has consumed of a transfer.
  abbrev pub claimed :
      {R : Type 0}
      → TxTransfer T
      → R
      → (TransferMetadata clock.Instant → T.TxMetadata → List ℕ → R → R × T.TxMetadata × ℕ)
      → ℕ
  claimed t captured cb =
      (cb t.transfer_metadata t.transport_metadata (drop t.consumed t.payload) captured).2

  -- In every state that the operations reach, a transfer to receive and one to send stand under
  -- the hash of their metadata, and no more of a transfer is sent than it holds. There, if `transmit`
  -- panics, the callback has claimed more bytes of an active transfer than it was given, and so many
  -- that the count of what is consumed does not fit 64 bits: the slice of what is left to send is
  -- always in range.
  pub Reachable-transmit :
      {m : MapTransferManager T} {R : Type 0} (token : ℕ) (captured : R)
      (cb : TransferMetadata clock.Instant → T.TxMetadata → List ℕ → R → R × T.TxMetadata × ℕ)
      → Reachable m
      → Kept T m
        × ((transmit T m token captured cb).2 ≡ panic
            → (t : TxTransfer T) × (get token m.tx_transfers ≡ some (active t))
              × (length (drop t.consumed t.payload) < claimed t captured cb)
              × (2 ^ 64 ≤ t.consumed + claimed t captured cb))
  unfolding transmit transmit_active
  Reachable-transmit {m} token captured cb r =
      let kept = Reachable-Kept r in
      (
        kept,
        elim (Option-cases (get token m.tx_transfers)) [
          | inl e ↦ λ p. absurd (ground arith)
          | inr (timed_out, e) ↦ λ p. absurd (ground arith)
          | inr (active t, e) ↦ λ p.
              let here = kept.tx_each token t e in
              let len = length-drop t.consumed t.payload in (t, e, ground arith, ground arith)
        ],
      )
