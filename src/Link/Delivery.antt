-- ===== src/Link/Delivery.antt =====
-- A transfer of several frames, from the second frame on.
use cyphal_rs.Base.{
  ℕ, suc, ◌+◌, ◌*◌, ◌≤◌, ◌<◌, ◌≡◌, refl, sym, ap, ◌∙◌, Bool, true, false, not, Option, none, some,
  List, [], ◌∷◌, ◌++◌, leb, length, take, drop, length-append, length-take, take_prefix,
  take-append-drop, min, ok, inl, inr, arith,
}
use mathlib.Core.List.{append_assoc}
use cyphal_rs.Bitfields.CanMessageId
use cyphal_rs.Can.Ids.{wire_metadata}
use cyphal_rs.Can.Transmit.{can, frame_id}
use cyphal_rs.Clock.{Clock}
use cyphal_rs.Crates.{Crates}
use cyphal_rs.CrcAny.{CrcAny}
use cyphal_rs.HashMap.{get, get-insert_self, get-remove_self}
use cyphal_rs.Link.Exchange.{Outcome, finished, exchange, exchange_more, exchange_last}
use cyphal_rs.Link.Receiver.{read_plain, read_last, try_receive_frame_more}
use cyphal_rs.Link.Sender.{CanNode, CanTxTransfer, transmit_frame_more, transmit_frame_last}
use cyphal_rs.MapManager.State.{Hasher, active, RxTransfer, hash_metadata}
use cyphal_rs.Node.Receive.{addressed, for_us}
use cyphal_rs.Types.{NodeId, TransferMetadata}
use cyphal_rs.Types.Hashing.{hash_writes}

module _ ⦃hasher : Hasher⦄ {I : Type 0} where
  -- The receiver's token does not depend on when a frame was sent.
  pub hash_metadata-wire_metadata :
      (md : TransferMetadata I) (node_id : Option NodeId) (t u : I)
      → hash_metadata (wire_metadata md node_id t) ≡ hash_metadata (wire_metadata md node_id u)
  unfolding hash_metadata hash_writes
  hash_metadata-wire_metadata md node_id t u = refl

module _ ⦃clock : Clock⦄ ⦃c : Crates⦄ ⦃k : CrcAny⦄ ⦃hasher : Hasher⦄ where
  abbrev pub CanRxTransfer : Type 0
  CanRxTransfer = RxTransfer (can clock.Instant)

  -- The end of an exchange in which the receiver got a whole transfer.
  pub record Delivered (token token' : ℕ) (md : TransferMetadata clock.Instant) (payload : List ℕ)
      (x : CanNode × CanNode × Outcome) : Type 0 where
    pub ended : x.2 ≡ finished (ok (some token'))
    pub transfer : CanRxTransfer
    pub stored : get token' x.1.transfer_manager.rx_transfers ≡ some (active transfer)
    pub metadata_eq : transfer.transfer_metadata ≡ md
    pub payload_eq : transfer.payload ≡ payload
    pub freed : get token x.0.transfer_manager.tx_transfers ≡ none

  module _ (time : ℕ → clock.Instant) (token token' : ℕ) where
    -- Sender and receiver in the middle of a transfer, with `body` and the checksum to come.
    pub record Between (sender receiver : CanNode) (sent body : List ℕ) (high low : ℕ)
        (tx : CanTxTransfer) (rx : CanRxTransfer) : Type 0 where
      pub named :
          (last_frame : Bool)
          → (id : c.ExtendedId) × (frame_id tx.transfer_metadata last_frame sender.id ≡ ok id)
      pub known : CanMessageId.is_none sender.id ≡ false
      pub sending : get token sender.transfer_manager.tx_transfers ≡ some (active tx)
      pub split : tx.payload ≡ sent ++ (body ++ (high ∷ (low ∷ [])))
      pub used : tx.consumed ≡ length sent
      pub later : tx.transport_metadata.first_frame ≡ false
      pub ours :
          (t : clock.Instant)
          → addressed receiver.id (wire_metadata tx.transfer_metadata sender.id t) ≡ for_us
      pub hashed :
          (t : clock.Instant)
          → hash_metadata (wire_metadata tx.transfer_metadata sender.id t) ≡ token'
      pub receiving : get token' receiver.transfer_manager.rx_transfers ≡ some (active rx)
      pub toggled : tx.transport_metadata.toggle_bit ≡ not rx.transport_metadata.toggle_bit
      pub checked : high * 256 + low ≡ k.get_crc (k.digest rx.transport_metadata.crc body)

    -- The last frame.
    pub last_Delivered :
        (fuel : ℕ) (sender receiver : CanNode) (sent body : List ℕ) (high low : ℕ)
        (tx : CanTxTransfer) (rx : CanRxTransfer)
        → Between sender receiver sent body high low tx rx
        → length body ≤ 5
        → Delivered token token' rx.transfer_metadata
            (rx.payload ++ body)
            (exchange time (suc fuel) sender token receiver)
    last_Delivered fuel sender receiver sent body high low tx rx b short =
        let rest = body ++ (high ∷ (low ∷ [])) in
        let h : length rest ≤ 7 = omega (arith, length-append body (high ∷ (low ∷ []))) in
        let (id, n) = b.named (leb (length rest) 7) in
        let e₁ =
          transmit_frame_last sender token (time fuel) tx b.sending sent rest b.split b.used id n
            h in
        let r =
          read_last tx.transfer_metadata tx.transport_metadata rest sender.id id (time fuel) n
            (λ e. cc (b.known)) body high low b.later refl h in
        let e₂ =
          try_receive_frame_more receiver _ _ _ r (b.ours (time fuel)) rx
            (rw (b.hashed (time fuel)) b.receiving) b.later b.toggled (inr (ap some b.checked)) in
        let e₃ = exchange_last time fuel sender _ receiver _ token _ _ e₁ e₂ in
        let l : leb (length rest) 7 ≡ true = ground arith in
        rw e₃ (record {
          ended = rw (l, b.hashed (time fuel));
          transfer = record {
            transfer_metadata = rx.transfer_metadata;
            transport_metadata = record {
              crc = k.digest rx.transport_metadata.crc body;
              toggle_bit = tx.transport_metadata.toggle_bit;
            };
            payload = rx.payload ++ body;
          };
          stored = rw (b.hashed (time fuel)) (get-insert_self token' _ _);
          metadata_eq = refl;
          payload_eq = refl;
          freed = get-remove_self token _;
        })

    -- A frame in the middle carries the next seven bytes.
    pub more_Between :
        (fuel : ℕ) (sender receiver : CanNode) (sent body : List ℕ) (high low : ℕ)
        (tx : CanTxTransfer) (rx : CanRxTransfer)
        → Between sender receiver sent body high low tx rx
        → 7 ≤ length body
        → (sender' : CanNode) × (receiver' : CanNode) × (tx' : CanTxTransfer)
          × (rx' : CanRxTransfer) × (exchange time (suc fuel) sender token receiver
              ≡ exchange time fuel sender' token receiver')
          × Between sender' receiver' (sent ++ take 7 body) (drop 7 body) high low tx' rx'
          × (rx'.transfer_metadata ≡ rx.transfer_metadata)
          × (rx'.payload ≡ rx.payload ++ take 7 body)
    more_Between fuel sender receiver sent body high low tx rx b long =
        let rest = body ++ (high ∷ (low ∷ [])) in
        let len = length-append body (high ∷ (low ∷ [])) in
        let h : 7 < length rest = omega arith in
        let l : leb (length rest) 7 ≡ false = ground arith in
        let seven : take (min 7 (length rest)) rest ≡ take 7 body =
          let m : min 7 (length rest) ≡ 7 = omega arith in
          rw m (take_prefix 7 body (high ∷ (low ∷ [])) long) in
        let (id, n) = b.named (leb (length rest) 7) in
        let e₁ =
          transmit_frame_more sender token (time fuel) tx b.sending sent rest b.split b.used id n
            h in
        let r =
          read_plain tx.transfer_metadata tx.transport_metadata rest sender.id id (time fuel) n
            (λ e. cc (b.known)) (λ e. cc (b.later)) (rw (b.later, l)) in
        let e₂ =
          try_receive_frame_more receiver _ _ _ r (b.ours (time fuel)) rx
            (rw (b.hashed (time fuel)) b.receiving) b.later b.toggled (inl refl) in
        let e₃ = exchange_more time fuel sender _ receiver _ token _ _ e₁ e₂ (rw l) in
        (
          _,
          _,
          record tx {
            transport_metadata = record {
              first_frame = false;
              toggle_bit = not tx.transport_metadata.toggle_bit;
            };
            consumed = tx.consumed + 7;
          },
          record rx {
            transport_metadata = record {
              crc = k.digest rx.transport_metadata.crc (take (min 7 (length rest)) rest);
              toggle_bit = tx.transport_metadata.toggle_bit;
            };
            payload = rx.payload ++ take (min 7 (length rest)) rest;
          },
          e₃,
          record {
            named = b.named;
            known = b.known;
            sending = get-insert_self token _ _;
            split =
                b.split
                ∙ ap (◌++◌ sent) (
                    ap (λ (xs : List ℕ). xs ++ (high ∷ (low ∷ []))) (sym (take-append-drop 7 body))
                    ∙ append_assoc (take 7 body) (drop 7 body) (high ∷ (low ∷ [])))
                ∙ sym (append_assoc sent (take 7 body) (drop 7 body ++ (high ∷ (low ∷ []))));
            used = omega (arith, b.used, length-append sent (take 7 body), length-take 7 body);
            later = refl;
            ours = b.ours;
            hashed = b.hashed;
            receiving = rw (b.hashed (time fuel)) (get-insert_self token' _ _);
            toggled = refl;
            checked =
                b.checked
                ∙ ap k.get_crc (
                    ap (k.digest rx.transport_metadata.crc) (sym (take-append-drop 7 body))
                    ∙ k.digest-append rx.transport_metadata.crc (take 7 body) (drop 7 body)
                    ∙ ap
                        (λ (xs : List ℕ).
                          k.digest (k.digest rx.transport_metadata.crc xs) (drop 7 body))
                        (sym seven));
          },
          refl,
          ap (◌++◌ rx.payload) seven,
        )
