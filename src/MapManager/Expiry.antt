-- ===== src/MapManager/Expiry.antt =====
-- Timeouts: `update_transfers` of cyphal/src/transfer/map_manager.rs.
use mathlib.Core.Option
use cyphal_rs.Base.{
  ℕ, ◌≡◌, refl, Bool-cases, inl, inr, some, List, [], ◌∷◌, All, ◌==◌, if◌then◌else◌, Result, ok,
}
use cyphal_rs.Clock.{Clock}
use cyphal_rs.HashMap.{get, for_values}
use cyphal_rs.Manager.{timestamp_expired}
use cyphal_rs.MapManager.State.{
  Hasher, TransferStatus, active, timed_out, RxTransfer, TxTransfer, MapTransferManager,
}
use cyphal_rs.MapManager.Timeout.{expire, update_transfers}
use cyphal_rs.Transport.{Transport}

-- A loop whose body returns on every value of the map.
for_values-map :
    {V E : Type 0} (body : V → Result E V) (f : V → V) (m : List (ℕ × V))
    → All (λ (entry : ℕ × V). body entry.1 ≡ ok (f entry.1)) m
    → (m' : List (ℕ × V)) × (for_values body m ≡ ok m')
      × ((k : ℕ) → get k m' ≡ Option.map f (get k m))
unfolding for_values get
for_values-map body f [] all = ([], refl, λ k. refl)
for_values-map body f ((i, v) ∷ m) (here, all) =
    let (m', e, found) = for_values-map body f m all in
    (
      (i, f v) ∷ m',
      rw (here, e) refl,
      λ k. elim (Bool-cases (i == k)) [ inl hit ↦ rw (hit) refl | inr miss ↦ rw (miss) (found k) ],
    )

module _ ⦃clock : Clock⦄ where
  -- A clock as `embedded_time` documents it: `now - before` is a duration if `before` is not later
  -- than `now`.
  pub record Ordered : Type 1 where
    pub NotLater : clock.Instant → clock.Instant → Type 0
    pub elapsed : clock.Instant → clock.Instant → clock.Generic
    pub elapsed_eq :
        (now before : clock.Instant)
        → NotLater before now
        → clock.since now before ≡ some (elapsed now before)

  module _ (ordered : Ordered) {D : Type 0} (started : D → clock.Instant)
      (now : clock.Instant) where
    -- An entry of a transfer that is active and did not start later than `now`, or that is not.
    abbrev pub Past : ℕ × TransferStatus D → Type 0
    Past (token, timed_out) = Unit
    Past (token, active t) = ordered.NotLater (started t) now

    -- An entry after the timeouts.
    abbrev pub after : clock.Generic → TransferStatus D → TransferStatus D
    after limit timed_out = timed_out
    after limit (active t) =
        if clock.longer (ordered.elapsed now (started t)) limit then timed_out else active t

    expire_lem :
        (E : Type 0) (timeout : ℕ) (limit : clock.Generic)
        → clock.to_generic timeout ≡ some limit
        → (entry : ℕ × TransferStatus D) → Past entry
        → expire {E = E} started now timeout entry.1 ≡ ok (after limit entry.1)
    unfolding expire timestamp_expired
    expire_lem E timeout limit converts (token, timed_out) past = refl
    expire_lem E timeout limit converts (token, active t) past =
        rw (ordered.elapsed_eq now (started t) past, converts) refl

    expire-each :
        (E : Type 0) (timeout : ℕ) (limit : clock.Generic)
        → clock.to_generic timeout ≡ some limit
        → (m : List (ℕ × TransferStatus D)) → All Past m
        → All
            (λ (entry : ℕ × TransferStatus D).
              expire {E = E} started now timeout entry.1 ≡ ok (after limit entry.1))
            m
    expire-each E timeout limit converts [] past = tt
    expire-each E timeout limit converts (entry ∷ m) (here, past) = (
      expire_lem E timeout limit converts entry here,
      expire-each E timeout limit converts m past,
    )

  module _ ⦃hasher : Hasher⦄ (T : Transport clock.Instant) where
    abbrev pub rx_started : RxTransfer T → clock.Instant
    rx_started t = t.transfer_metadata.timestamp

    abbrev pub tx_started : TxTransfer T → clock.Instant
    tx_started t = t.transfer_metadata.timestamp

    -- If no active transfer of either map started later than `now`, and the timeout can be had in
    -- the unit of the clock, `update_transfers` returns, and every entry of either map is then what
    -- it was, but for an active transfer that started longer ago than the timeout: that one is
    -- marked as timed out. No entry is added or removed, a complete or timed-out transfer neither.
    pub update_transfers_lem :
        {E : Type 0} (ordered : Ordered) (m : MapTransferManager T) (now : clock.Instant)
        (timeout : ℕ) (limit : clock.Generic)
        → clock.to_generic timeout ≡ some limit
        → All (Past ordered rx_started now) m.rx_transfers
        → All (Past ordered tx_started now) m.tx_transfers
        → (m' : MapTransferManager T) × (update_transfers {E = E} T m now timeout ≡ ok m')
          × ((k : ℕ)
              → get k m'.rx_transfers
                ≡ Option.map (after ordered rx_started now limit) (get k m.rx_transfers))
          × ((k : ℕ)
              → get k m'.tx_transfers
                ≡ Option.map (after ordered tx_started now limit) (get k m.tx_transfers))
    unfolding update_transfers
    update_transfers_lem {E} ordered m now timeout limit converts rx_past tx_past =
        let (tx, sent, tx_found) =
          for_values-map (expire {E = E} tx_started now timeout)
            (after ordered tx_started now limit) m.tx_transfers
            (expire-each ordered tx_started now E timeout limit converts m.tx_transfers tx_past) in
        let (rx, received, rx_found) =
          for_values-map (expire {E = E} rx_started now timeout)
            (after ordered rx_started now limit) m.rx_transfers
            (expire-each ordered rx_started now E timeout limit converts m.rx_transfers rx_past) in
        (
          record { rx_transfers = rx; tx_transfers = tx },
          rw (sent, received) refl,
          rx_found,
          tx_found,
        )
