-- ===== src/Link/Whole.antt =====
-- A transfer from `start_tx_transfer` at one node to the token at the other.
use native.Mathlib.Decide.{dec_le}
use cyphal_rs.Base.{
  ℕ, suc, ◌+◌, ◌*◌, ◌%◌, ◌≤◌, ◌<◌, ◌≡◌, ◌≢◌, refl, min, true, List, [], ◌∷◌, ◌++◌, leb,
  if◌then◌else◌, length, length-drop, take, take_all, drop, take-append-drop, arith,
}
use cyphal_rs.Can.Checksum.{crc_high, crc_low, crc_bytes}
use cyphal_rs.Can.Data.{tx_default}
use cyphal_rs.Can.Ids.{wire_metadata}
use cyphal_rs.Clock.{Clock}
use cyphal_rs.Crates.{Crates}
use cyphal_rs.CrcAny.{CrcAny}
use cyphal_rs.HashMap.{get-insert_self, get-remove_self}
use cyphal_rs.Link.Delivery.{Delivered}
use cyphal_rs.Link.Exchange.{exchange, exchange_last}
use cyphal_rs.Link.Loop.{Ready, first_Between, exchange-Delivered}
use cyphal_rs.Link.Receiver.{read_plain, try_receive_frame_start}
use cyphal_rs.Link.Sender.{CanNode, fresh, transmit_frame_last}
use cyphal_rs.Link.Start.{sealed}
use cyphal_rs.MapManager.State.{Hasher}
use cyphal_rs.Types.{TransferMetadata}

module _ ⦃clock : Clock⦄ ⦃c : Crates⦄ ⦃k : CrcAny⦄ ⦃hasher : Hasher⦄ (time : ℕ → clock.Instant)
    (token token' : ℕ) (fuel : ℕ) (sender receiver : CanNode)
    (md : TransferMetadata clock.Instant) where
  -- Up to seven bytes arrive in a single frame.
  single_Delivered :
      (bytes : List ℕ)
      → Ready time token token' sender receiver md bytes
      → length bytes ≤ 7
      → Delivered token token'
          (wire_metadata md sender.id (time fuel))
          bytes
          (exchange time (suc fuel) sender token receiver)
  single_Delivered bytes ready h =
      let l : leb (length bytes) 7 ≡ true = ground arith in
      let (id, n) = ready.named (leb (length bytes) 7) in
      let e₁ =
        transmit_frame_last sender token (time fuel) (fresh md bytes) ready.sending [] bytes refl
          refl id n h in
      let r =
        read_plain md tx_default bytes sender.id id (time fuel) n (λ e. cc) (λ e. refl) refl in
      let e₂ =
        try_receive_frame_start receiver _ _ _ r (ready.ours (time fuel))
          (rw (ready.hashed (time fuel)) ready.absent) refl refl refl in
      let e₃ = exchange_last time fuel sender _ receiver _ token _ _ e₁ e₂ in
      rw e₃ (record {
        ended = rw (l, ready.hashed (time fuel));
        transfer = record {
          transfer_metadata = wire_metadata md sender.id (time fuel);
          transport_metadata = record {
            crc =
                if leb (length bytes) 7
                then k.crc16ccitt_false
                else k.digest k.crc16ccitt_false (take (min 7 (length bytes)) bytes);
            toggle_bit = true;
          };
          payload = take (min 7 (length bytes)) bytes;
        };
        stored = rw (ready.hashed (time fuel)) (get-insert_self token' _ _);
        metadata_eq = refl;
        payload_eq = take_all (min 7 (length bytes)) bytes (omega arith);
        freed = get-remove_self token _;
      })

  -- More than seven bytes arrive in several.
  several_Delivered :
      (bytes : List ℕ)
      → Ready time token token' sender receiver md
          (bytes ++ (crc_high bytes ∷ (crc_low bytes ∷ [])))
      → 7 < length bytes
      → length bytes % 7 ≢ 6
      → length bytes + 2 ≤ 7 * suc fuel
      → Delivered token token'
          (wire_metadata md sender.id (time fuel))
          bytes
          (exchange time (suc fuel) sender token receiver)
  several_Delivered bytes ready long whole enough =
      let (sender', receiver', tx', rx', e, b, md_eq, payload_eq) =
        first_Between time token token' fuel sender receiver md bytes (crc_high bytes)
          (crc_low bytes) ready (omega arith) (crc_bytes bytes) in
      let len = length-drop 7 bytes in
      let rest =
        exchange-Delivered time token token' fuel sender' receiver' (take 7 bytes) (drop 7 bytes)
          (crc_high bytes) (crc_low bytes) tx' rx' b (omega arith) (omega arith) in
      let same : rx'.payload ++ drop 7 bytes ≡ bytes = rw payload_eq (take-append-drop 7 bytes) in
      rw (e, ← md_eq) (rw same at rest)

  pub arrives :
      (bytes : List ℕ)
      → Ready time token token' sender receiver md (sealed bytes)
      → (7 < length bytes → length bytes % 7 ≢ 6)
      → length bytes + 2 ≤ 7 * suc fuel
      → Delivered token token'
          (wire_metadata md sender.id (time fuel))
          bytes
          (exchange time (suc fuel) sender token receiver)
  arrives bytes ready whole enough = elim (dec_le (length bytes) 7) [
    | yes h ↦
        let e : sealed bytes ≡ bytes = ground arith in single_Delivered bytes (rw e at ready) h
    | no h ↦
        let e : sealed bytes ≡ bytes ++ (crc_high bytes ∷ (crc_low bytes ∷ [])) = ground arith in
        several_Delivered bytes (rw e at ready) (omega arith) (whole (omega arith)) enough
  ]
