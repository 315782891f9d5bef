-- ===== src/Link/Start.antt =====
-- `Node::start_tx_transfer` over classic CAN and the map manager.
use mathlib.Core.List.{append_assoc}
use native.Mathlib.Decide.{dec_le}
use cyphal_rs.Base.{
  ℕ, zero, suc, ◌+◌, ◌≤◌, ◌<◌, ◌≡◌, refl, sym, ap, ◌∙◌, min, none, List, [], ◌∷◌, ◌++◌, leb,
  if◌then◌else◌, length, length-append, length-take, length-replicate, replicate, take, drop,
  take-append, drop-append, take-append-drop, Result, ok, panic, arith,
}
use cyphal_rs.Can.Checksum.{
  crc_high, crc_low, process_tx_crc_short, process_tx_crc_long, process_tx_crc_overrun,
}
use cyphal_rs.Can.Data.{get_crc_padded_size}
use cyphal_rs.Can.Transmit.{can}
use cyphal_rs.Clock.{Clock}
use cyphal_rs.Crates.{Crates}
use cyphal_rs.CrcAny.{CrcAny}
use cyphal_rs.HashMap.{get, insert}
use cyphal_rs.Link.Sender.{manager, CanNode, fresh}
use cyphal_rs.Manager.{CreateTransferError, InternalOrUserError}
use cyphal_rs.MapManager.State.{Hasher, active, MapTransferManager, hash_metadata}
use cyphal_rs.MapManager.Transmit.{create_transmission, store_transmission, resize}
use cyphal_rs.Node.Data.{TransmissionType, tx_metadata, start_tx_transfer}
use cyphal_rs.Transport.{Transport}
use cyphal_rs.Types.{TransferMetadata, Priority, PortId, TransferId}

resize-append : (xs ys : List ℕ) → resize (xs ++ ys) (length xs) ≡ xs
resize-append xs ys = rw append_assoc (take-append xs (ys ++ replicate (length xs) 0))

-- The first bytes of the callback's buffer and what stands behind them, the two spare bytes of
-- `get_crc_padded_size` included.
module _ (written : List ℕ) (used : ℕ) (fits : used ≤ length written) where
  abbrev behind : List ℕ
  behind = drop used written ++ (0 ∷ (0 ∷ []))

  split_buffer : written ++ (0 ∷ (0 ∷ [])) ≡ take used written ++ behind
  split_buffer =
      ap (λ (xs : List ℕ). xs ++ (0 ∷ (0 ∷ []))) (sym (take-append-drop used written))
      ∙ append_assoc (take used written) (drop used written) (0 ∷ (0 ∷ []))

  length_used : length (take used written) ≡ used
  length_used = omega (arith, length-take used written)

-- Two elements at the front of a list that has them.
two_cells :
    (xs : List ℕ) → 2 ≤ length xs → (x : ℕ) × (y : ℕ) × (pad : List ℕ) × (xs ≡ x ∷ (y ∷ pad))
two_cells [] h = absurd (omega arith)
two_cells (x ∷ []) h = absurd (omega arith)
two_cells (x ∷ (y ∷ pad)) h = (x, y, pad, refl)

abbrev zeros : ℕ → List ℕ
zeros n = replicate n 0

-- A callback that returns leaves the rest to `store_transmission`, over any transport.
create_transmission_lem :
    ⦃clock : Clock⦄ ⦃hasher : Hasher⦄ (T : Transport clock.Instant) {E : Type 0}
    (m : MapTransferManager T) (requested size : ℕ) (md : TransferMetadata clock.Instant)
    (cb : List ℕ → List ℕ × Result E ℕ) (front back written : List ℕ) (used : ℕ)
    → T.get_crc_padded_size requested ≡ size
    → requested ≤ size
    → take requested (zeros size) ≡ front
    → drop requested (zeros size) ≡ back
    → cb front ≡ (written, ok used)
    → get (hash_metadata md) m.tx_transfers ≡ none
    → create_transmission T m requested md cb
      ≡ store_transmission T m (hash_metadata md) md (written ++ back) used
unfolding create_transmission
create_transmission_lem T m requested size md cb front back written used padded room f b wrote
      free =
    ground (arith, length-replicate {A = ℕ} size 0)

module _ ⦃clock : Clock⦄ ⦃c : Crates⦄ ⦃k : CrcAny⦄ ⦃hasher : Hasher⦄ where
  -- What a transfer of `bytes` puts on the bus.
  abbrev pub sealed : List ℕ → List ℕ
  sealed bytes =
      if leb (length bytes) 7 then bytes else bytes ++ (crc_high bytes ∷ (crc_low bytes ∷ []))

  store_transmission_lem :
      {E : Type 0} (m : MapTransferManager (can clock.Instant)) (token : ℕ)
      (md : TransferMetadata clock.Instant) (bytes spare : List ℕ)
      → 2 ≤ length spare
      → store_transmission (can clock.Instant) {E = E} m token md (bytes ++ spare) (length bytes)
        ≡ (
          record m {
            tx_transfers = insert token (active (fresh md (sealed bytes))) m.tx_transfers;
          },
          ok (hash_metadata md),
        )
  unfolding store_transmission
  store_transmission_lem {E} m token md bytes spare room =
      let Error = InternalOrUserError CreateTransferError E in
      let (x, y, pad, split) = two_cells spare room in
      let len = length-append bytes spare in
      let n : min (length (bytes ++ spare)) (length bytes) ≡ length bytes = omega arith in
      let high = crc_high bytes in
      let low = crc_low bytes in
      let whole = bytes ++ (high ∷ (low ∷ pad)) in
      let len' = length-append bytes (high ∷ (low ∷ pad)) in
      let resized = resize-append (bytes ++ (high ∷ (low ∷ []))) pad in
      let same = append_assoc bytes (high ∷ (low ∷ [])) pad in
      let len″ = length-append bytes (high ∷ (low ∷ [])) in
      elim (dec_le (length bytes) 7) [
        | yes h ↦ ground (
          arith,
          process_tx_crc_short {E = Error} (bytes ++ spare) (length bytes) h,
          resize-append bytes spare,
        )
        | no h ↦
            ground
              (arith, process_tx_crc_long {E = Error} bytes pad x y (omega arith), resized, same)
      ]

take_exact : (n : ℕ) (xs ys : List ℕ) → length xs ≡ n → take n (xs ++ ys) ≡ xs
take_exact n xs ys e = rw (← e) (take-append xs ys)

drop_exact : (n : ℕ) (xs ys : List ℕ) → length xs ≡ n → drop n (xs ++ ys) ≡ ys
drop_exact n xs ys e = rw (← e) (drop-append xs ys)

-- The buffer that `create_transmission` makes, for the callback and for the checksum.
two_more : (n i : ℕ) → i ≡ n + 2 → zeros i ≡ zeros n ++ (0 ∷ (0 ∷ []))
two_more zero i e = rw e refl
two_more (suc n) zero e = absurd (omega arith)
two_more (suc n) (suc i) e = ap (◌∷◌ 0) (two_more n i (omega arith))

take-zeros : (n : ℕ) → take n (zeros (n + 2)) ≡ zeros n
take-zeros n =
    rw (two_more n (n + 2) refl) (take_exact n (zeros n) (0 ∷ (0 ∷ [])) (length-replicate n 0))

drop-zeros : (n : ℕ) → drop n (zeros (n + 2)) ≡ 0 ∷ (0 ∷ [])
drop-zeros n =
    rw (two_more n (n + 2) refl) (drop_exact n (zeros n) (0 ∷ (0 ∷ [])) (length-replicate n 0))

module _ ⦃clock : Clock⦄ ⦃c : Crates⦄ ⦃k : CrcAny⦄ ⦃hasher : Hasher⦄ {E : Type 0} (node : CanNode)
    (requested : ℕ) (timestamp : clock.Instant) (priority : Priority) (port_id : PortId)
    (tx_kind : TransmissionType) (transfer_id : TransferId) (cb : List ℕ → List ℕ × Result E ℕ)
    (written : List ℕ) (used : ℕ) (wrote : cb (replicate requested 0) ≡ (written, ok used))
    (kept : length written ≡ requested) where
  abbrev pub md : TransferMetadata clock.Instant
  md = tx_metadata manager node timestamp priority port_id tx_kind transfer_id

  -- Under a token that is free, with a callback that returns its buffer at the length it was given
  -- and has used no more than that, `start_tx_transfer` returns the token and stores a transfer of
  -- which nothing is sent: what the callback used of its buffer, followed by the checksum if that
  -- is more than seven bytes.
  pub start_tx_transfer_lem :
      get (hash_metadata md) node.transfer_manager.tx_transfers ≡ none
      → used ≤ requested
      → start_tx_transfer manager node requested timestamp priority port_id tx_kind transfer_id cb
        ≡ (
          record node {
            transfer_manager = record node.transfer_manager {
              tx_transfers =
                  insert
                    (hash_metadata md)
                    (active (fresh md (sealed (take used written))))
                    node.transfer_manager.tx_transfers;
            };
          },
          ok (hash_metadata md),
        )
  unfolding start_tx_transfer get_crc_padded_size
  start_tx_transfer_lem free fits =
      let h : used ≤ length written = omega arith in
      let stores =
        store_transmission_lem {E = E} node.transfer_manager (hash_metadata md) md
          (take used written) (behind written used h)
          (omega (arith, length-append (drop used written) (0 ∷ (0 ∷ [])))) in
      let bridge : store_transmission (can clock.Instant) {E = E} node.transfer_manager
            (hash_metadata md) md (written ++ (0 ∷ (0 ∷ []))) used
          ≡ store_transmission (can clock.Instant) {E = E} node.transfer_manager (hash_metadata md)
              md (take used written ++ behind written used h) (length (take used written)) =
        rw (split_buffer written used h, length_used written used h) in
      let created =
        create_transmission_lem (can clock.Instant) node.transfer_manager requested (requested + 2)
          md cb (zeros requested) (0 ∷ (0 ∷ [])) written used refl (omega arith)
          (take-zeros requested) (drop-zeros requested) wrote free in
      ap
        (λ (r : MapTransferManager (can clock.Instant)
            × Result (InternalOrUserError CreateTransferError E) ℕ).
          (record node { transfer_manager = r.0 }, r.1))
        (created ∙ bridge ∙ stores)

  -- Under a token that is free, a callback that returns its buffer of seven bytes or more at the
  -- length it was given, and claims to have used more than that, makes `start_tx_transfer` panic:
  -- the claim is cut to the buffer with the two bytes of the checksum, which then has no place.
  pub start_tx_transfer_overrun :
      get (hash_metadata md) node.transfer_manager.tx_transfers ≡ none
      → 7 ≤ requested
      → requested < used
      → (start_tx_transfer manager node requested timestamp priority port_id tx_kind transfer_id
          cb).1
        ≡ panic
  unfolding start_tx_transfer store_transmission get_crc_padded_size
  start_tx_transfer_overrun free long over =
      let created =
        create_transmission_lem (can clock.Instant) node.transfer_manager requested (requested + 2)
          md cb (zeros requested) (0 ∷ (0 ∷ [])) written used refl (omega arith)
          (take-zeros requested) (drop-zeros requested) wrote free in
      let overruns =
        process_tx_crc_overrun {E = InternalOrUserError CreateTransferError E}
          (written ++ (0 ∷ (0 ∷ []))) (min (length (written ++ (0 ∷ (0 ∷ [])))) used) in
      ground (arith, created, overruns, length-append written (0 ∷ (0 ∷ [])))
