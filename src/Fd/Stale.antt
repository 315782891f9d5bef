-- ===== src/Fd/Stale.antt =====
-- What `FdCanIter` does behind a transfer of one frame, cyphal/src/transport/can/fd.rs.
use mathlib.Core.List.{append-nil, append_assoc}
use cyphal_rs.Base.{
  ℕ, ◌+◌, ◌≤◌, ◌≡◌, refl, ap, ◌∙◌, true, false, not, ltb, leb, min, take, drop, Option, some, List,
  [], ◌∷◌, ◌++◌, length, length-append, ok, arith,
}
use cyphal_rs.Bitfields.TailByte
use cyphal_rs.Crates.{Crates}
use cyphal_rs.Crc16
use cyphal_rs.Fd.Api.{FdApi}
use cyphal_rs.Fd.ArrayVec.{ArrayVec, extend_all}
use cyphal_rs.Fd.Frame.{FdCanFrame}
use cyphal_rs.Fd.Iterator.{FdCanIter, new, current_frame, put_crc, several, advance}
use cyphal_rs.Fd.Padding.{set_dlc_lem, size}
use cyphal_rs.Fd.Single.{behind, advance-new}
use cyphal_rs.Fd.Steps.{advance-next_frame, next_frame-several}
use cyphal_rs.Types.{NodeId}

module _ ⦃c : Crates⦄ ⦃v : ArrayVec⦄ ⦃api : FdApi⦄ where
  -- The checksum of no bytes.
  put_crc_none :
      {E : Type 0} (payload : v.Vec)
      → length (v.items payload) + 2 ≤ 64
      → (payload' : v.Vec) × (put_crc {E = E} payload Crc16.init 2 0 0 ≡ ok (payload', 0, 2))
        × (v.items payload' ≡ v.items payload ++ (255 ∷ (255 ∷ [])))
  unfolding put_crc Crc16.get_crc
  put_crc_none payload room =
      let (payload₁, first, all₁) = v.push_lem payload 255 (omega arith) in
      let len = ap length all₁ ∙ length-append (v.items payload) (255 ∷ []) in
      let (payload₂, second, all₂) = v.push_lem payload₁ 255 (omega arith) in
      (
        payload₂,
        rw (put_crc, first, second) refl,
        all₂
            ∙ ap (λ (xs : List ℕ). xs ++ (255 ∷ [])) all₁
            ∙ append_assoc (v.items payload) (255 ∷ []) (255 ∷ []),
      )

  several_end :
      {E : Type 0} (self : FdCanIter) (frame : FdCanFrame) (n k crc left copied : ℕ)
      (closed payload : v.Vec)
      → ltb n 63 ≡ true
      → min n 63 ≡ k
      → Crc16.digest {E = E} self.crc
          (take k (drop self.payload_offset (api.payload self.transfer)))
        ≡ ok crc
      → put_crc {E = E}
          (v.extend frame.payload (take k (drop self.payload_offset (api.payload self.transfer))))
          crc
          self.crc_left
          n
          k
        ≡ ok (closed, left, copied)
      → v.push_unchecked closed
          (TailByte.new self.is_start (leb n 63) self.toggle (api.transfer_id self.transfer))
        ≡ some payload
      → several {E = E} self frame n
        ≡ ok (
          record self {
            payload_offset = self.payload_offset + k;
            crc = crc;
            crc_left = left;
            toggle = not self.toggle;
          },
          record frame { payload = payload },
          copied + 1,
        )
  unfolding several
  several_end self frame n k crc left copied closed payload few least sum checked pushed =
      rw (several, least, sum, few, checked, pushed) refl

  -- Behind the last byte, with the whole checksum to send.
  several_stale :
      {E : Type 0} (transfer : api.Transfer) (id : c.ExtendedId) (frame : FdCanFrame)
      → length (v.items frame.payload) + 3 ≤ 64
      → (payload : v.Vec) × (several {E = E} (behind transfer id frame) frame 0
          ≡ ok (
            record (behind transfer id frame) {
              payload_offset = length (api.payload transfer) + 0;
              crc_left = 0;
              toggle = false;
            },
            record frame { payload = payload },
            3,
          ))
        × (v.items payload
            ≡ v.items frame.payload
              ++ (255 ∷ (255 ∷ (TailByte.new false true true (api.transfer_id transfer) ∷ []))))
  unfolding Crc16.digest
  several_stale {E} transfer id frame room =
      let tail = TailByte.new false true true (api.transfer_id transfer) in
      let kept = extend_all frame.payload [] (omega arith) ∙ append-nil (v.items frame.payload) in
      let len = ap length kept in
      let (closed, checked, all) = put_crc_none {E = E} (v.extend frame.payload []) (omega arith) in
      let len' =
        ap length all ∙ length-append (v.items (v.extend frame.payload [])) (255 ∷ (255 ∷ [])) in
      let (payload, pushed, all') = v.push_unchecked_lem closed tail (omega arith) in
      (
        payload,
        several_end (behind transfer id frame) frame 0 0 Crc16.init 0 2 closed payload refl refl
            refl checked pushed,
        all'
            ∙ ap (λ (xs : List ℕ). xs ++ (tail ∷ []))
                (all ∙ ap (λ (xs : List ℕ). xs ++ (255 ∷ (255 ∷ []))) kept)
            ∙ append_assoc (v.items frame.payload) (255 ∷ (255 ∷ [])) (tail ∷ []),
      )

  -- The iterator behind the last byte of the checksum.
  abbrev pub closed_with : api.Transfer → c.ExtendedId → FdCanFrame → FdCanIter
  closed_with transfer id frame = record (behind transfer id frame) {
    payload_offset = length (api.payload transfer) + 0;
    crc_left = 0;
    toggle = false;
  }

  advance_stale :
      {E : Type 0} (transfer : api.Transfer) (id : c.ExtendedId) (frame : FdCanFrame)
      → length (v.items frame.payload) + 3 ≤ 64
      → (again : FdCanFrame) × (advance {E = E} (behind transfer id frame)
          ≡ ok (closed_with transfer id again))
        × (v.items again.payload
            ≡ v.items frame.payload
              ++ (255 ∷ (255 ∷ (TailByte.new false true true (api.transfer_id transfer) ∷ []))))
        × (again.dlc ≡ 3)
  unfolding current_frame
  advance_stale {E} transfer id frame room =
      let self = behind transfer id frame in
      let (payload, sent, all) = several_stale {E = E} transfer id frame room in
      let len' =
        ap length all
        ∙ length-append (v.items frame.payload)
            (255 ∷ (255 ∷ (TailByte.new false true true (api.transfer_id transfer) ∷ []))) in
      let (payload', padded, all') =
        set_dlc_lem {E = E} (record frame { payload = payload }) 3 (omega arith) (omega arith) in
      (
        record frame { dlc = 3; payload = payload' },
        advance-next_frame self 0 (omega arith) (omega arith) refl
            ∙ next_frame-several self _ frame _ 0 3 refl refl sent
            ∙ rw padded refl,
        all' ∙ append-nil (v.items payload) ∙ all,
        refl,
      )

  -- A transfer of at most 48 bytes, which the first `advance` sends whole. The iterator does not
  -- end: the second `advance` goes on to a frame again, with the bytes of the first, the checksum of
  -- no bytes and a second tail byte, an end and no start, and a DLC of 3.
  advance-advance_stale :
      {E : Type 0} (transfer : api.Transfer) (node_id : Option NodeId) (it : FdCanIter)
      → new transfer node_id ≡ ok it
      → length (api.payload transfer) ≤ 48
      → (frame again : FdCanFrame) × (next : FdCanIter) × (advance {E = E} it
          ≡ ok (behind transfer it.frame_id frame))
        × (advance {E = E} (behind transfer it.frame_id frame) ≡ ok next)
        × (next.can_frame ≡ some again)
        × (v.items again.payload
            ≡ v.items frame.payload
              ++ (255 ∷ (255 ∷ (TailByte.new false true true (api.transfer_id transfer) ∷ []))))
        × (again.dlc ≡ 3)
  advance-advance_stale {E} transfer node_id it made short =
      let n = length (api.payload transfer) in
      let (frame, first, _, _, _, _, len) = advance-new {E = E} transfer node_id it made short in
      let wide : size n ≤ 48 = ground arith in
      let (again, second, all, code) =
        advance_stale {E = E} transfer it.frame_id frame (omega arith) in
      (frame, again, closed_with transfer it.frame_id again, first, second, refl, all, code)
