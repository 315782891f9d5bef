-- ===== src/Link/Sending.antt =====
-- A user's loop over `Node::transmit_frame` (cyphal/src/node.rs) on classic CAN: what it sends of a
-- transfer, and what becomes of the sender.
use native.Mathlib.Decide.{dec_le}
use mathlib.Core.List.{append_assoc}
use mathlib.Core.Path.{subst}
use cyphal_rs.Base.{
  ℕ, zero, suc, ◌+◌, ◌*◌, ◌≤◌, ◌<◌, ◌≡◌, refl, sym, ap, ◌∙◌, Bool, true, false, not, Option, none,
  some, List, [], ◌∷◌, ◌++◌, ◌==◌, leb, length, length-append, length-take, length-drop, take,
  take_all, drop, take-append-drop, min, ok, err, panic, arith,
}
use cyphal_rs.Bitfields.TailByte
use cyphal_rs.Can.Data.{CanFrame, TxMetadata}
use cyphal_rs.Can.Transmit.{frame_id}
use cyphal_rs.Clock.{Clock}
use cyphal_rs.Crates.{Crates}
use cyphal_rs.CrcAny.{CrcAny}
use cyphal_rs.HashMap.{get, insert, get-insert, get-remove, get-insert_self, get-remove_self}
use cyphal_rs.Link.Interleaved.{transmit_all}
use cyphal_rs.Link.Sender.{
  manager, CanNode, CanTxTransfer, next_frame, transmit_frame_more, transmit_frame_last,
}
use cyphal_rs.MapManager.State.{Hasher, active}
use cyphal_rs.Node.Transmit.{transmit_frame}
use cyphal_rs.Types.{TransferMetadata, NodeId}

module _ ⦃clock : Clock⦄ ⦃c : Crates⦄ ⦃k : CrcAny⦄ ⦃hasher : Hasher⦄
    (time : ℕ → clock.Instant) where
  -- The sender after the same loop, and the token if there is more to send.
  unfoldable pub sender_after : ℕ → CanNode → ℕ → CanNode × Option ℕ
  sender_after zero sender token = (sender, some token)
  sender_after (suc fuel) sender token =
      let (sender', sent) = transmit_frame manager sender token (time fuel) in
      elim sent [
        | err e ↦ (sender', some token)
        | panic ↦ (sender', some token)
        | ok (frame, token') ↦ elim token' [
          | none ↦ (sender', none)
          | some token' ↦ sender_after fuel sender' token'
        ]
      ]

  loop_more :
      (fuel : ℕ) (sender sender' : CanNode) (token : ℕ) (frame : CanFrame clock.Instant)
      → transmit_frame manager sender token (time fuel) ≡ (sender', ok (frame, some token))
      → (transmit_all time (suc fuel) sender token ≡ frame ∷ transmit_all time fuel sender' token)
        × (sender_after (suc fuel) sender token ≡ sender_after fuel sender' token)
  unfolding transmit_all sender_after
  loop_more fuel sender sender' token frame e = (ground arith, ground arith)

  loop_last :
      (fuel : ℕ) (sender sender' : CanNode) (token : ℕ) (frame : CanFrame clock.Instant)
      → transmit_frame manager sender token (time fuel) ≡ (sender', ok (frame, none))
      → (transmit_all time (suc fuel) sender token ≡ frame ∷ [])
        × (sender_after (suc fuel) sender token ≡ (sender', none))
  unfolding transmit_all sender_after
  loop_last fuel sender sender' token frame e = (ground arith, ground arith)

  -- The frames carry the bytes in order, seven in each but the last, which has at most seven; each
  -- ends with its tail byte, the first one alone is the start, the last one alone the end, and the
  -- toggle bit changes from frame to frame; the ID is that of the metadata.
  module _ (md : TransferMetadata clock.Instant) (own : Option NodeId) where
    abbrev pub Carries : Bool → Bool → Bool → List ℕ → CanFrame clock.Instant → Type 0
    Carries first last toggle bytes frame =
        (tail : ℕ) × (frame.payload ≡ bytes ++ (tail ∷ []))
        × TailByte.IsTail first last toggle md.transfer_id tail
        × (frame_id md last own ≡ ok frame.id)

    abbrev pub CarriesAll : Bool → Bool → List ℕ → List (CanFrame clock.Instant) → Type 0
    CarriesAll first toggle rest [] = ⊥
    CarriesAll first toggle rest (frame ∷ []) =
        (length rest ≤ 7) × Carries first true toggle rest frame
    CarriesAll first toggle rest (frame ∷ (next ∷ frames)) =
        (7 < length rest)
        × Carries first false toggle (take 7 rest) frame
        × CarriesAll false (not toggle) (drop 7 rest) (next ∷ frames)

    next_frame-Carries :
        (tx : TxMetadata) (rest : List ℕ) (id : c.ExtendedId) (timestamp : clock.Instant)
        (last : Bool) (bytes : List ℕ)
        → leb (length rest) 7 ≡ last
        → frame_id md (leb (length rest) 7) own ≡ ok id
        → take (min 7 (length rest)) rest ≡ bytes
        → Carries tx.first_frame last tx.toggle_bit bytes (next_frame md tx rest id timestamp)
    next_frame-Carries tx rest id timestamp last bytes ends named taken =
        let tail_byte =
          TailByte.new tx.first_frame (leb (length rest) 7) tx.toggle_bit md.transfer_id in
        let tail =
          (TailByte.new-IsTail tx.first_frame (leb (length rest) 7) tx.toggle_bit
            md.transfer_id).1 in
        (
          tail_byte,
          ap (λ (xs : List ℕ). xs ++ (tail_byte ∷ [])) taken,
          subst
              (λ (end : Bool).
                TailByte.IsTail tx.first_frame end tx.toggle_bit md.transfer_id tail_byte)
              ends tail,
          subst (λ (end : Bool). frame_id md end own ≡ ok id) ends named,
        )

    CarriesAll-more :
        (first toggle : Bool) (rest : List ℕ) (frame : CanFrame clock.Instant)
        (frames : List (CanFrame clock.Instant))
        → 7 < length rest
        → Carries first false toggle (take 7 rest) frame
        → CarriesAll false (not toggle) (drop 7 rest) frames
        → CarriesAll first toggle rest (frame ∷ frames)
    CarriesAll-more first toggle rest frame [] long carries others = absurd others
    CarriesAll-more first toggle rest frame (next ∷ frames) long carries others =
        (long, carries, others)

  -- What is promised of the loop at a transfer with `rest` to send.
  abbrev Sent : ℕ → CanNode → ℕ → CanTxTransfer → List ℕ → Type 0
  Sent fuel sender token tx rest =
      CarriesAll tx.transfer_metadata sender.id tx.transport_metadata.first_frame
        tx.transport_metadata.toggle_bit rest (transmit_all time fuel sender token)
      × ((sender_after fuel sender token).1 ≡ none)
      × (get token (sender_after fuel sender token).0.transfer_manager.tx_transfers ≡ none)
      × ((other : ℕ)
          → (token == other) ≡ false
          → get other (sender_after fuel sender token).0.transfer_manager.tx_transfers
            ≡ get other sender.transfer_manager.tx_transfers)

  -- A transfer that `sent` is sent of and `rest` is not.
  record Sending (sender : CanNode) (token : ℕ) (tx : CanTxTransfer) (sent rest : List ℕ)
      : Type 0 where
    found : get token sender.transfer_manager.tx_transfers ≡ some (active tx)
    split : tx.payload ≡ sent ++ rest
    used : tx.consumed ≡ length sent
    named :
        (last_frame : Bool)
        → (id : c.ExtendedId) × (frame_id tx.transfer_metadata last_frame sender.id ≡ ok id)

  last-Sent :
      (fuel : ℕ) (sender : CanNode) (token : ℕ) (tx : CanTxTransfer) (sent rest : List ℕ)
      → Sending sender token tx sent rest
      → length rest ≤ 7
      → Sent (suc fuel) sender token tx rest
  last-Sent fuel sender token tx sent rest s short =
      let md = tx.transfer_metadata in
      let (id, n) = s.named (leb (length rest) 7) in
      let e =
        transmit_frame_last sender token (time fuel) tx s.found sent rest s.split s.used id n
          short in
      let (frames, after) = loop_last fuel sender _ token _ e in
      let bytes : take (min 7 (length rest)) rest ≡ rest =
        take_all (min 7 (length rest)) rest (omega arith) in
      let carries =
        next_frame-Carries md sender.id tx.transport_metadata rest id (time fuel) true rest
          (ground arith) n bytes in
      (
        rw frames (short, carries),
        rw after refl,
        rw after (get-remove_self token _),
        λ other apart. rw after (get-remove token other _ ∙ rw apart refl),
      )

  more-Sent :
      (fuel : ℕ) (sender : CanNode) (token : ℕ) (tx : CanTxTransfer) (sent rest : List ℕ)
      → Sending sender token tx sent rest
      → 7 < length rest
      → ((sender' : CanNode) (tx' : CanTxTransfer)
          → Sending sender' token tx' (sent ++ take 7 rest) (drop 7 rest)
          → Sent fuel sender' token tx' (drop 7 rest))
      → Sent (suc fuel) sender token tx rest
  more-Sent fuel sender token tx sent rest s over go =
      let tx_md = tx.transport_metadata in
      let md = tx.transfer_metadata in
      let (id, n) = s.named (leb (length rest) 7) in
      let tx' : CanTxTransfer = record tx {
        transport_metadata = record { first_frame = false; toggle_bit = not tx_md.toggle_bit };
        consumed = tx.consumed + 7;
      } in
      let sender' : CanNode = record sender {
        transfer_manager = record sender.transfer_manager {
          tx_transfers = insert token (active tx') sender.transfer_manager.tx_transfers;
        };
      } in
      let e =
        transmit_frame_more sender token (time fuel) tx s.found sent rest s.split s.used id n
          over in
      let (frames, after) = loop_more fuel sender sender' token _ e in
      let m : min 7 (length rest) ≡ 7 = omega arith in
      let carries =
        next_frame-Carries md sender.id tx_md rest id (time fuel) false (take 7 rest) (ground arith)
          n (rw m refl) in
      let (others, done, freed, kept) = go sender' tx' (record {
        found = get-insert_self token _ _;
        split =
            s.split
            ∙ ap (◌++◌ sent) (sym (take-append-drop 7 rest))
            ∙ sym (append_assoc sent (take 7 rest) (drop 7 rest));
        used = omega (arith, s.used, length-append sent (take 7 rest), length-take 7 rest);
        named = s.named;
      }) in
      (
        rw frames (
            CarriesAll-more md sender.id tx_md.first_frame tx_md.toggle_bit rest
              (next_frame md tx_md rest id (time fuel)) (transmit_all time fuel sender' token) over
              carries others),
        rw after done,
        rw after freed,
        λ other apart. rw after (kept other apart ∙ get-insert token other _ _ ∙ rw apart refl),
      )

  Sending-Sent :
      (fuel : ℕ) (sender : CanNode) (token : ℕ) (tx : CanTxTransfer) (sent rest : List ℕ)
      → Sending sender token tx sent rest
      → length rest ≤ 7 * suc fuel
      → Sent (suc fuel) sender token tx rest
  Sending-Sent zero sender token tx sent rest s enough =
      last-Sent zero sender token tx sent rest s (omega arith)
  Sending-Sent (suc fuel) sender token tx sent rest s enough = elim (dec_le (length rest) 7) [
    | yes short ↦ last-Sent (suc fuel) sender token tx sent rest s short
    | no long ↦ more-Sent (suc fuel) sender token tx sent rest s (omega arith) (λ sender' tx' s'.
        Sending-Sent fuel sender' token tx' (sent ++ take 7 rest) (drop 7 rest) s'
          (omega (arith, length-drop 7 rest)))
  ]

  -- Of a transfer that a node is sending, with as much sent as it has consumed, and whose metadata
  -- have an ID: a loop over `transmit_frame` with a round for every seven bytes that are left sends
  -- them all. The frames carry the bytes in order, seven in each but the last; each ends with its
  -- tail byte, in which the start is marked in the first frame of the transfer alone, the end in the
  -- last one alone, and the toggle bit changes from frame to frame, and has the ID of the metadata.
  -- The last call returns no token, the transfer is freed, and the node's other transfers stay.
  pub transmit_all-CarriesAll :
      (fuel : ℕ) (sender : CanNode) (token : ℕ) (tx : CanTxTransfer) (sent rest : List ℕ)
      → get token sender.transfer_manager.tx_transfers ≡ some (active tx)
      → tx.payload ≡ sent ++ rest
      → tx.consumed ≡ length sent
      → ((last_frame : Bool)
          → (id : c.ExtendedId) × (frame_id tx.transfer_metadata last_frame sender.id ≡ ok id))
      → length rest ≤ 7 * suc fuel
      → CarriesAll tx.transfer_metadata sender.id tx.transport_metadata.first_frame
          tx.transport_metadata.toggle_bit rest
          (transmit_all time (suc fuel) sender token)
        × ((sender_after (suc fuel) sender token).1 ≡ none)
        × (get token (sender_after (suc fuel) sender token).0.transfer_manager.tx_transfers ≡ none)
        × ((other : ℕ)
            → (token == other) ≡ false
            → get other (sender_after (suc fuel) sender token).0.transfer_manager.tx_transfers
              ≡ get other sender.transfer_manager.tx_transfers)
  transmit_all-CarriesAll fuel sender token tx sent rest found split used named enough =
      Sending-Sent fuel sender token tx sent rest
        (record { found = found; split = split; used = used; named = named }) enough
