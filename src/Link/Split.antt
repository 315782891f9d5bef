-- ===== src/Link/Split.antt =====
-- A transfer whose checksum is split between its last two frames.
use mathlib.Core.List.{append_assoc}
use native.Mathlib.Decide.{dec_le}
use cyphal_rs.Base.{
  ℕ, zero, suc, ◌+◌, ◌*◌, ◌%◌, ◌≤◌, ◌<◌, ◌≡◌, refl, sym, ap, ◌∙◌, Bool, true, false, not, none,
  some, List, [], ◌∷◌, ◌++◌, leb, length, take, drop, length-append, length-drop, inl, ok, err,
  arith,
}
use cyphal_rs.Bitfields.CanMessageId
use cyphal_rs.Can.Checksum.{crc_high, crc_low, crc_bytes}
use cyphal_rs.Can.Data.{CanFrame}
use cyphal_rs.Can.Receive.{rx_process_frame}
use cyphal_rs.Can.Transmit.{frame_id}
use cyphal_rs.Clock.{Clock}
use cyphal_rs.Crates.{Crates}
use cyphal_rs.CrcAny.{CrcAny}
use cyphal_rs.HashMap.{get, get-insert_self, get-remove_self}
use cyphal_rs.Link.Delivery.{CanRxTransfer, Between, more_Between}
use cyphal_rs.Link.Exchange.{Outcome, finished, exchange, exchange_more, exchange_last}
use cyphal_rs.Link.Loop.{Ready, first_Between}
use cyphal_rs.Link.Receiver.{read_plain, read_short, try_receive_frame_more}
use cyphal_rs.Link.Sender.{
  manager, CanNode, CanTxTransfer, transmit_frame_more, transmit_frame_last,
}
use cyphal_rs.Link.Start.{sealed}
use cyphal_rs.MapManager.State.{Hasher, active}
use cyphal_rs.Node.Receive.{try_receive_frame}
use cyphal_rs.Types.{TransferMetadata, RxError}

module _ ⦃clock : Clock⦄ ⦃c : Crates⦄ ⦃k : CrcAny⦄ ⦃hasher : Hasher⦄ where
  -- The end of an exchange in which the receiver refused the last frame, and the sender has freed
  -- the transfer all the same.
  pub record Refused (token : ℕ) (x : CanNode × CanNode × Outcome) : Type 0 where
    pub ended : x.2 ≡ finished (err RxError.invalid_payload)
    pub freed : get token x.0.transfer_manager.tx_transfers ≡ none

  unread :
      (node : CanNode) (frame : CanFrame clock.Instant) (e : RxError)
      → rx_process_frame frame ≡ err e
      → try_receive_frame manager node frame ≡ (node, err e)
  unfolding try_receive_frame
  unread node frame e h = ground arith

  module _ (time : ℕ → clock.Instant) (token token' : ℕ) where
    -- A byte is left: the receiver refuses the frame, whatever it has.
    short_Refused :
        (fuel : ℕ) (sender receiver : CanNode) (sent : List ℕ) (low : ℕ) (tx : CanTxTransfer)
        → ((last_frame : Bool)
            → (id : c.ExtendedId) × (frame_id tx.transfer_metadata last_frame sender.id ≡ ok id))
        → CanMessageId.is_none sender.id ≡ false
        → get token sender.transfer_manager.tx_transfers ≡ some (active tx)
        → tx.payload ≡ sent ++ (low ∷ [])
        → tx.consumed ≡ length sent
        → tx.transport_metadata.first_frame ≡ false
        → Refused token (exchange time (suc fuel) sender token receiver)
    short_Refused fuel sender receiver sent low tx named known sending split used later =
        let (id, n) = named true in
        let sends =
          transmit_frame_last sender token (time fuel) tx sending sent (low ∷ []) split used id n
            (omega arith) in
        let reads =
          read_short tx.transfer_metadata tx.transport_metadata (low ∷ []) sender.id id (time fuel)
            n (λ e. cc known) later (omega arith) in
        let ends =
          exchange_last time fuel sender _ receiver receiver token _ _ sends
            (unread receiver _ RxError.invalid_payload reads) in
        rw ends (record { ended = refl; freed = get-remove_self token _ })

    -- Six bytes and the checksum are left: one frame takes the six and half of the checksum, and
    -- the next has but a byte.
    last_Refused :
        (fuel : ℕ) (sender receiver : CanNode) (sent body : List ℕ) (high low : ℕ)
        (tx : CanTxTransfer) (rx : CanRxTransfer)
        → Between time token token' sender receiver sent body high low tx rx
        → length body ≡ 6
        → Refused token (exchange time (suc (suc fuel)) sender token receiver)
    last_Refused fuel sender receiver sent body high low tx rx b six =
        let rest = body ++ (high ∷ (low ∷ [])) in
        let len = length-append body (high ∷ (low ∷ [])) in
        let len' = length-append body (high ∷ []) in
        let h : 7 < length rest = omega arith in
        let l : leb (length rest) 7 ≡ false = ground arith in
        let now = time (suc fuel) in
        let (id, n) = b.named (leb (length rest) 7) in
        let e₁ =
          transmit_frame_more sender token now tx b.sending sent rest b.split b.used id n h in
        let r =
          read_plain tx.transfer_metadata tx.transport_metadata rest sender.id id now n
            (λ e. cc (b.known)) (λ e. cc (b.later)) (rw (b.later, l)) in
        let e₂ =
          try_receive_frame_more receiver _ _ _ r (b.ours now) rx (rw (b.hashed now) b.receiving)
            b.later b.toggled (inl refl) in
        let e₃ = exchange_more time (suc fuel) sender _ receiver _ token _ _ e₁ e₂ (rw l) in
        let split : tx.payload ≡ (sent ++ (body ++ (high ∷ []))) ++ (low ∷ []) =
          b.split
          ∙ ap (◌++◌ sent) (sym (append_assoc body (high ∷ []) (low ∷ [])))
          ∙ sym (append_assoc sent (body ++ (high ∷ [])) (low ∷ [])) in
        rw e₃ (
          short_Refused fuel _ _ (sent ++ (body ++ (high ∷ []))) low
            (record tx {
              transport_metadata = record {
                first_frame = false;
                toggle_bit = not tx.transport_metadata.toggle_bit;
              };
              consumed = tx.consumed + 7;
            })
            b.named b.known (get-insert_self token _ _) split
            (omega (arith, b.used, length-append sent (body ++ (high ∷ [])))) refl)

    -- From the second frame on.
    exchange-Refused :
        (fuel : ℕ) (sender receiver : CanNode) (sent body : List ℕ) (high low : ℕ)
        (tx : CanTxTransfer) (rx : CanRxTransfer)
        → Between time token token' sender receiver sent body high low tx rx
        → length body % 7 ≡ 6
        → length body + 2 ≤ 7 * fuel
        → Refused token (exchange time fuel sender token receiver)
    exchange-Refused zero sender receiver sent body high low tx rx b half enough =
        absurd (omega arith)
    exchange-Refused (suc zero) sender receiver sent body high low tx rx b half enough =
        absurd (omega arith)
    exchange-Refused (suc (suc fuel)) sender receiver sent body high low tx rx b half enough =
        elim (dec_le (length body) 6) [
          | yes short ↦ last_Refused fuel sender receiver sent body high low tx rx b (omega arith)
          | no long ↦
              let (sender', receiver', tx', rx', e, b', _, _) =
                more_Between time token token' (suc fuel) sender receiver sent body high low tx rx b
                  (omega arith) in
              let len = length-drop 7 body in
              let rest =
                exchange-Refused (suc fuel) sender' receiver' (sent ++ take 7 body) (drop 7 body)
                  high low tx' rx' b' (omega arith) (omega arith) in
              rw e rest
        ]

    -- A transfer of 13, 20, 27, … bytes.
    several_Refused :
        (fuel : ℕ) (sender receiver : CanNode) (md : TransferMetadata clock.Instant)
        (bytes : List ℕ)
        → Ready time token token' sender receiver md
            (bytes ++ (crc_high bytes ∷ (crc_low bytes ∷ [])))
        → 7 < length bytes
        → length bytes % 7 ≡ 6
        → length bytes + 2 ≤ 7 * suc fuel
        → Refused token (exchange time (suc fuel) sender token receiver)
    several_Refused fuel sender receiver md bytes ready long half enough =
        let (sender', receiver', tx', rx', e, b, _, _) =
          first_Between time token token' fuel sender receiver md bytes (crc_high bytes)
            (crc_low bytes) ready (omega arith) (crc_bytes bytes) in
        let len = length-drop 7 bytes in
        rw e (
          exchange-Refused fuel sender' receiver' (take 7 bytes) (drop 7 bytes) (crc_high bytes)
            (crc_low bytes) tx' rx' b (omega arith) (omega arith))

    -- The same, of what `start_tx_transfer` stores.
    pub sealed-Refused :
        (fuel : ℕ) (sender receiver : CanNode) (md : TransferMetadata clock.Instant)
        (bytes : List ℕ)
        → Ready time token token' sender receiver md (sealed bytes)
        → 7 < length bytes
        → length bytes % 7 ≡ 6
        → length bytes + 2 ≤ 7 * suc fuel
        → Refused token (exchange time (suc fuel) sender token receiver)
    sealed-Refused fuel sender receiver md bytes ready long half enough =
        let e : sealed bytes ≡ bytes ++ (crc_high bytes ∷ (crc_low bytes ∷ [])) = ground arith in
        several_Refused fuel sender receiver md bytes (rw e at ready) long half enough
