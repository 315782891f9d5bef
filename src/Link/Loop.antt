-- ===== src/Link/Loop.antt =====
-- A whole transfer of several frames: the first frame, and the loop over the others.
use mathlib.Core.List.{append_assoc}
use native.Mathlib.Decide.{dec_le}
use cyphal_rs.Base.{
  ℕ, zero, suc, ◌+◌, ◌*◌, ◌%◌, ◌≤◌, ◌<◌, ◌≡◌, ◌≢◌, refl, sym, ap, ◌∙◌, Bool, true, false, none,
  some, List, [], ◌∷◌, ◌++◌, leb, length, take, drop, length-append, length-take, length-drop,
  take_prefix, take-append-drop, min, if◌then◌else◌, ok, arith,
}
use cyphal_rs.Bitfields.CanMessageId
use cyphal_rs.Can.Data.{tx_default}
use cyphal_rs.Can.Ids.{wire_metadata}
use cyphal_rs.Can.Transmit.{frame_id}
use cyphal_rs.Clock.{Clock}
use cyphal_rs.Crates.{Crates}
use cyphal_rs.CrcAny.{CrcAny}
use cyphal_rs.HashMap.{get, get-insert_self}
use cyphal_rs.Link.Delivery.{CanRxTransfer, Delivered, Between, last_Delivered, more_Between}
use cyphal_rs.Link.Exchange.{exchange, exchange_more}
use cyphal_rs.Link.Receiver.{read_plain, try_receive_frame_start}
use cyphal_rs.Link.Sender.{CanNode, CanTxTransfer, fresh, transmit_frame_more}
use cyphal_rs.MapManager.State.{Hasher, active, hash_metadata}
use cyphal_rs.Node.Receive.{addressed, for_us}
use cyphal_rs.Types.{TransferMetadata}

module _ ⦃clock : Clock⦄ ⦃c : Crates⦄ ⦃k : CrcAny⦄ ⦃hasher : Hasher⦄ (time : ℕ → clock.Instant)
    (token token' : ℕ) where
  -- From the second frame on, all of `body` arrives, unless the checksum would be split between
  -- the last two frames.
  pub exchange-Delivered :
      (fuel : ℕ) (sender receiver : CanNode) (sent body : List ℕ) (high low : ℕ)
      (tx : CanTxTransfer) (rx : CanRxTransfer)
      → Between time token token' sender receiver sent body high low tx rx
      → length body % 7 ≢ 6
      → length body + 2 ≤ 7 * fuel
      → Delivered token token' rx.transfer_metadata
          (rx.payload ++ body)
          (exchange time fuel sender token receiver)
  exchange-Delivered zero sender receiver sent body high low tx rx b whole enough =
      absurd (omega arith)
  exchange-Delivered (suc fuel) sender receiver sent body high low tx rx b whole enough =
      elim (dec_le (length body) 5) [
        | yes short ↦
            last_Delivered time token token' fuel sender receiver sent body high low tx rx b short
        | no long ↦
            let (sender', receiver', tx', rx', e, b', md_eq, payload_eq) =
              more_Between time token token' fuel sender receiver sent body high low tx rx b
                (omega arith) in
            let len = length-drop 7 body in
            let rest =
              exchange-Delivered fuel sender' receiver' (sent ++ take 7 body) (drop 7 body) high low
                tx' rx' b' (omega arith) (omega arith) in
            let same : rx'.payload ++ drop 7 body ≡ rx.payload ++ body =
              rw (payload_eq, append_assoc, take-append-drop) in
            rw (e, ← md_eq, ← same) rest
      ]

  -- A sender that is about to send a transfer, and a receiver that has nothing of it yet.
  pub record Ready (sender receiver : CanNode) (md : TransferMetadata clock.Instant)
      (payload : List ℕ) : Type 0 where
    pub named :
        (last_frame : Bool) → (id : c.ExtendedId) × (frame_id md last_frame sender.id ≡ ok id)
    pub known : CanMessageId.is_none sender.id ≡ false
    pub sending : get token sender.transfer_manager.tx_transfers ≡ some (active (fresh md payload))
    pub ours : (t : clock.Instant) → addressed receiver.id (wire_metadata md sender.id t) ≡ for_us
    pub hashed : (t : clock.Instant) → hash_metadata (wire_metadata md sender.id t) ≡ token'
    pub absent : get token' receiver.transfer_manager.rx_transfers ≡ none

  -- The first of several frames makes the receiver's entry.
  pub first_Between :
      (fuel : ℕ) (sender receiver : CanNode) (md : TransferMetadata clock.Instant) (body : List ℕ)
      (high low : ℕ)
      → Ready sender receiver md (body ++ (high ∷ (low ∷ [])))
      → 7 ≤ length body
      → high * 256 + low ≡ k.get_crc (k.digest k.crc16ccitt_false body)
      → (sender' : CanNode) × (receiver' : CanNode) × (tx' : CanTxTransfer) × (rx' : CanRxTransfer)
        × (exchange time (suc fuel) sender token receiver
            ≡ exchange time fuel sender' token receiver')
        × Between time token token' sender' receiver' (take 7 body) (drop 7 body) high low tx' rx'
        × (rx'.transfer_metadata ≡ wire_metadata md sender.id (time fuel))
        × (rx'.payload ≡ take 7 body)
  first_Between fuel sender receiver md body high low ready long crc =
      let rest = body ++ (high ∷ (low ∷ [])) in
      let len = length-append body (high ∷ (low ∷ [])) in
      let h : 7 < length rest = omega arith in
      let l : leb (length rest) 7 ≡ false = ground arith in
      let seven : take (min 7 (length rest)) rest ≡ take 7 body =
        let m : min 7 (length rest) ≡ 7 = omega arith in
        rw m (take_prefix 7 body (high ∷ (low ∷ [])) long) in
      let started : (if leb (length rest) 7
            then k.crc16ccitt_false
            else k.digest k.crc16ccitt_false (take (min 7 (length rest)) rest))
          ≡ k.digest k.crc16ccitt_false (take 7 body) =
        rw (l, seven) in
      let (id, n) = ready.named (leb (length rest) 7) in
      let e₁ =
        transmit_frame_more sender token (time fuel) (fresh md rest) ready.sending [] rest refl refl
          id n h in
      let r = read_plain md tx_default rest sender.id id (time fuel) n (λ e. cc) (λ e. refl) refl in
      let e₂ =
        try_receive_frame_start receiver _ _ _ r (ready.ours (time fuel))
          (rw (ready.hashed (time fuel)) ready.absent) refl refl refl in
      let e₃ = exchange_more time fuel sender _ receiver _ token _ _ e₁ e₂ (rw l) in
      (
        _,
        _,
        record {
          transfer_metadata = md;
          transport_metadata = record { first_frame = false; toggle_bit = false };
          consumed = 7;
          payload = rest;
        },
        record {
          transfer_metadata = wire_metadata md sender.id (time fuel);
          transport_metadata = record {
            crc =
                if leb (length rest) 7
                then k.crc16ccitt_false
                else k.digest k.crc16ccitt_false (take (min 7 (length rest)) rest);
            toggle_bit = true;
          };
          payload = take (min 7 (length rest)) rest;
        },
        e₃,
        record {
          named = ready.named;
          known = ready.known;
          sending = get-insert_self token _ _;
          split =
              ap (λ (xs : List ℕ). xs ++ (high ∷ (low ∷ []))) (sym (take-append-drop 7 body))
              ∙ append_assoc (take 7 body) (drop 7 body) (high ∷ (low ∷ []));
          used = omega (arith, length-take 7 body);
          later = refl;
          ours = ready.ours;
          hashed = ready.hashed;
          receiving = rw (ready.hashed (time fuel)) (get-insert_self token' _ _);
          toggled = refl;
          checked =
              crc
              ∙ ap k.get_crc (
                  ap (k.digest k.crc16ccitt_false) (sym (take-append-drop 7 body))
                  ∙ k.digest-append k.crc16ccitt_false (take 7 body) (drop 7 body)
                  ∙ ap (λ (crc : k.CrcU16). k.digest crc (drop 7 body)) (sym started));
        },
        refl,
        seven,
      )
