-- ===== src/Fd/Several.antt =====
-- The frame that `FdCanIter` keeps between two calls of `advance`, cyphal/src/transport/can/fd.rs.
use mathlib.Core.List.{append-nil}
use cyphal_rs.Base.{
  ℕ, zero, suc, ◌+◌, ◌-◌, ◌/◌, ◌%◌, ◌^◌, ◌≤◌, ◌<◌, ◌≡◌, refl, ap, ◌∙◌, Bool-cases, inl, inr, Bool,
  true, false, not, ◌&&◌, Option, some, leb, ltb, ◌==◌, min, List, [], ◌∷◌, ◌++◌, All, take, drop,
  length, length-take, length-append, ok, panic, arith,
}
use cyphal_rs.Bitfields.TailByte
use cyphal_rs.Crates.{Crates}
use cyphal_rs.Crc16
use cyphal_rs.Crc16.Bitwise.{bitwise}
use cyphal_rs.Crc16.Table.{digest-bitwise, bitwise-lt}
use cyphal_rs.Fd.Api.{FdApi}
use cyphal_rs.Fd.ArrayVec.{ArrayVec, extend_all, extend_none}
use cyphal_rs.Fd.Frame.{FdCanFrame}
use cyphal_rs.Fd.Iterator.{FdCanIter, new, current_frame, put_crc, several, advance}
use cyphal_rs.Fd.Padding.{set_dlc_lem}
use cyphal_rs.Fd.Single.{begun, new-begun, current_frame_new}
use cyphal_rs.Fd.Steps.{advance-next_frame, next_frame-several, next_frame-several_panic}
use cyphal_rs.Types.{NodeId}

abbrev pub IsByte : ℕ → Type 0
IsByte n = n < 256

All-take : (n : ℕ) (xs : List ℕ) → All IsByte xs → All IsByte (take n xs)
All-take zero xs h = tt
All-take (suc n) [] h = tt
All-take (suc n) (x ∷ xs) (b, bs) = (b, All-take n xs bs)

All-drop : (n : ℕ) (xs : List ℕ) → All IsByte xs → All IsByte (drop n xs)
All-drop zero xs h = h
All-drop (suc n) [] h = tt
All-drop (suc n) (x ∷ xs) (b, bs) = All-drop n xs bs

and_false : (b : Bool) → (b && false) ≡ false
and_false true = refl
and_false false = refl

above : (n : ℕ) → 64 ≤ n → leb n 63 ≡ false
above n h = ground arith

module _ ⦃c : Crates⦄ ⦃v : ArrayVec⦄ ⦃api : FdApi⦄ where
  first_length :
      (transfer : api.Transfer) (bytes : List ℕ)
      → bytes
        ≡ take 63 (api.payload transfer)
          ++ (TailByte.new true false true (api.transfer_id transfer) ∷ [])
      → 64 ≤ length (api.payload transfer)
      → length bytes ≡ 64
  first_length transfer bytes all long =
      let tail = TailByte.new true false true (api.transfer_id transfer) ∷ [] in
      let len = ap length all in
      omega (
        arith,
        length-append (take 63 (api.payload transfer)) tail,
        length-take 63 (api.payload transfer),
      )

  put_crc_full :
      {E : Type 0} (payload : v.Vec) (crc left copied : ℕ)
      → length (v.items payload) ≡ 64
      → put_crc {E = E} payload crc 2 left copied ≡ panic
  unfolding put_crc
  put_crc_full payload crc left copied full =
      let high = v.push_full payload (Crc16.get_crc crc / 256 % 256) full in
      let high' = v.push_unchecked_full payload (Crc16.get_crc crc / 256 % 256) full in
      elim (Bool-cases (leb 2 (63 - left))) [
        | inl e ↦ rw (put_crc, e, high) refl
        | inr e ↦ rw (put_crc, e, high') refl
      ]

  -- A frame that is full already takes neither the checksum nor a tail byte.
  several_full :
      {E : Type 0} (self : FdCanIter) (frame : FdCanFrame) (n : ℕ)
      → length (v.items frame.payload) ≡ 64
      → self.crc_left ≡ 2
      → self.crc < 2 ^ 16
      → All IsByte (api.payload self.transfer)
      → several {E = E} self frame n ≡ panic
  unfolding several
  several_full {E} self frame n full left small bytes =
      let out_data = take (min n 63) (drop self.payload_offset (api.payload self.transfer)) in
      let sum =
        digest-bitwise {E = E} self.crc out_data small
          (All-take (min n 63) _ (All-drop self.payload_offset _ bytes)) in
      let kept = ap length (extend_none frame.payload out_data full) in
      let crc_panics =
        put_crc_full {E = E} (v.extend frame.payload out_data) (bitwise self.crc out_data) n
          (min n 63) (kept ∙ full) in
      let tail_panics =
        v.push_unchecked_full (v.extend frame.payload out_data)
          (TailByte.new self.is_start (leb n 63) self.toggle (api.transfer_id self.transfer))
          (kept ∙ full) in
      elim (Bool-cases (ltb n 63)) [
        | inl e ↦ rw (several, sum, e, left, crc_panics) refl
        | inr e ↦ rw (several, sum, e, tail_panics) refl
      ]

  several_more :
      {E : Type 0} (self : FdCanIter) (frame : FdCanFrame) (n k crc : ℕ) (payload : v.Vec)
      → ltb n 63 ≡ false
      → leb n 63 ≡ false
      → min n 63 ≡ k
      → Crc16.digest {E = E} self.crc
          (take k (drop self.payload_offset (api.payload self.transfer)))
        ≡ ok crc
      → v.push_unchecked
          (v.extend frame.payload (take k (drop self.payload_offset (api.payload self.transfer))))
          (TailByte.new self.is_start false self.toggle (api.transfer_id self.transfer))
        ≡ some payload
      → several {E = E} self frame n
        ≡ ok (
          record self {
            payload_offset = self.payload_offset + k;
            crc = crc;
            toggle = not self.toggle;
          },
          record frame { payload = payload },
          k + 1,
        )
  unfolding several
  several_more self frame n k crc payload much more least sum pushed =
      rw (several, least, sum, much, more, pushed) refl

  -- The first of several frames: 63 bytes and the tail byte.
  several_first :
      {E : Type 0} (transfer : api.Transfer) (id : c.ExtendedId) (frame : FdCanFrame)
      → v.items frame.payload ≡ []
      → 64 ≤ length (api.payload transfer)
      → All IsByte (api.payload transfer)
      → (payload : v.Vec) × (several {E = E}
            (begun transfer id)
            frame
            (length (api.payload transfer))
          ≡ ok (
            record (begun transfer id) {
              payload_offset = 63;
              crc = bitwise Crc16.init (take 63 (api.payload transfer));
              toggle = false;
            },
            record frame { payload = payload },
            64,
          ))
        × (v.items payload
            ≡ take 63 (api.payload transfer)
              ++ (TailByte.new true false true (api.transfer_id transfer) ∷ []))
  several_first {E} transfer id frame empty long bytes =
      let n = length (api.payload transfer) in
      let out_data = take 63 (api.payload transfer) in
      let tail = TailByte.new true false true (api.transfer_id transfer) in
      let least : min n 63 ≡ 63 = omega arith in
      let more : leb n 63 ≡ false = ground arith in
      let much : ltb n 63 ≡ false = ground arith in
      let sum =
        digest-bitwise {E = E} Crc16.init out_data (omega arith)
          (All-take 63 (api.payload transfer) bytes) in
      let len = length-take 63 (api.payload transfer) in
      let start = ap length empty in
      let copied : v.items (v.extend frame.payload out_data) ≡ out_data =
        extend_all frame.payload out_data (omega arith)
        ∙ ap (λ (xs : List ℕ). xs ++ out_data) empty in
      let len' = ap length copied in
      let (payload, pushed, all) =
        v.push_unchecked_lem (v.extend frame.payload out_data) tail (omega arith) in
      (
        payload,
        several_more (begun transfer id) frame n 63 (bitwise Crc16.init out_data) payload much more
            least sum pushed,
        all ∙ ap (λ (xs : List ℕ). xs ++ (tail ∷ [])) copied,
      )

  -- The iterator behind the first of several frames.
  abbrev pub underway : api.Transfer → c.ExtendedId → FdCanFrame → FdCanIter
  underway transfer id frame = record (begun transfer id) {
    payload_offset = 63;
    crc = bitwise Crc16.init (take 63 (api.payload transfer));
    toggle = false;
    is_start = false;
    can_frame = some frame;
  }

  advance_first :
      {E : Type 0} (transfer : api.Transfer) (id : c.ExtendedId)
      → 64 ≤ length (api.payload transfer)
      → All IsByte (api.payload transfer)
      → (frame : FdCanFrame) × (advance {E = E} (begun transfer id)
          ≡ ok (underway transfer id frame))
        × (v.items frame.payload
            ≡ take 63 (api.payload transfer)
              ++ (TailByte.new true false true (api.transfer_id transfer) ∷ []))
        × (frame.dlc ≡ 15)
  advance_first {E} transfer id long bytes =
      let n = length (api.payload transfer) in
      let start = begun transfer id in
      let (empty_frame, got, empty, _, _) = current_frame_new {E = E} start refl in
      let (payload, sent, all) = several_first {E = E} transfer id empty_frame empty long bytes in
      let len = first_length transfer (v.items payload) all long in
      let (payload', padded, all') =
        set_dlc_lem {E = E} (record empty_frame { payload = payload }) 64 (omega arith)
          (omega arith) in
      (
        record empty_frame { dlc = 15; payload = payload' },
        advance-next_frame start n (omega arith) (omega arith) (and_false (n == 0))
            ∙ next_frame-several start _ empty_frame _ n 64 (above n long) got sent
            ∙ rw padded refl,
        all' ∙ append-nil (v.items payload) ∙ all,
        refl,
      )

  -- Where something is left to send and the frame that is kept is full, `advance` panics.
  advance_full :
      {E : Type 0} (transfer : api.Transfer) (id : c.ExtendedId) (frame : FdCanFrame)
      → length (v.items frame.payload) ≡ 64
      → 64 ≤ length (api.payload transfer)
      → All IsByte (api.payload transfer)
      → advance {E = E} (underway transfer id frame) ≡ panic
  unfolding current_frame
  advance_full transfer id frame full long bytes =
      let next = underway transfer id frame in
      let n = length (api.payload transfer) - 63 in
      let small =
        bitwise-lt Crc16.init (take 63 (api.payload transfer)) (omega arith)
          (All-take 63 (api.payload transfer) bytes) in
      advance-next_frame next n (omega arith) refl (and_false (n == 0))
      ∙ next_frame-several_panic next frame n refl refl
          (several_full next frame n full refl small bytes)

  -- A transfer of at least 64 bytes: the first `advance` makes a full frame of 63 bytes and a tail
  -- byte that is a start and no end. The frame is kept and not emptied, so the second `advance` has
  -- no room for its bytes, and panics.
  pub advance-advance_panic :
      {E : Type 0} (transfer : api.Transfer) (node_id : Option NodeId) (it : FdCanIter)
      → new transfer node_id ≡ ok it
      → 64 ≤ length (api.payload transfer)
      → All IsByte (api.payload transfer)
      → (next : FdCanIter) × (frame : FdCanFrame) × (advance {E = E} it ≡ ok next)
        × (next.can_frame ≡ some frame)
        × (v.items frame.payload
            ≡ take 63 (api.payload transfer)
              ++ (TailByte.new true false true (api.transfer_id transfer) ∷ []))
        × (frame.dlc ≡ 15)
        × (advance {E = E} next ≡ panic)
  advance-advance_panic {E} transfer node_id it made long bytes =
      let (id, _, same) = new-begun transfer node_id it made in
      let (frame, first, all, code) = advance_first {E = E} transfer id long bytes in
      let len = first_length transfer (v.items frame.payload) all long in
      rw (← same) (
        underway transfer id frame,
        frame,
        first,
        refl,
        all,
        code,
        advance_full {E = E} transfer id frame len long bytes,
      )
