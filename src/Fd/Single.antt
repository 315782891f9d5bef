-- ===== src/Fd/Single.antt =====
-- A CAN FD transfer of one frame, cyphal/src/transport/can/fd.rs.
use cyphal_rs.Base.{
  ℕ, zero, ◌+◌, ◌-◌, ◌≤◌, ◌<◌, ◌≡◌, refl, ap, ◌∙◌, true, false, Option, some, none, List, min, [],
  ◌∷◌, ◌++◌, replicate, take, length, length-replicate, length-append, take_all, ok, panic, ◌>>=◌,
  >>=-eq-ok, arith,
}
use cyphal_rs.Bitfields.TailByte
use cyphal_rs.Crates.{Crates}
use cyphal_rs.Crc16
use cyphal_rs.Fd.Api.{FdApi}
use cyphal_rs.Fd.ArrayVec.{ArrayVec, extend_all}
use cyphal_rs.Fd.Steps.{advance-next_frame, next_frame-single}
use cyphal_rs.Fd.Frame
use cyphal_rs.Fd.Frame.{FdCanFrame, set_dlc}
use cyphal_rs.Fd.Iterator.{FdCanIter, frame_id, new, current_frame, single, advance}
use cyphal_rs.Fd.Padding.{size, code, set_dlc_lem, set_dlc_over}
use cyphal_rs.Types.{NodeId}

module _ ⦃c : Crates⦄ ⦃v : ArrayVec⦄ ⦃api : FdApi⦄ where
  -- The iterator that `new` returns for an ID.
  abbrev pub begun : api.Transfer → c.ExtendedId → FdCanIter
  begun transfer id = record {
    transfer = transfer;
    frame_id = id;
    payload_offset = 0;
    crc = Crc16.init;
    crc_left = 2;
    toggle = true;
    is_start = true;
    can_frame = none;
  }

  pub new-begun :
      (transfer : api.Transfer) (node_id : Option NodeId) (it : FdCanIter)
      → new transfer node_id ≡ ok it
      → (id : c.ExtendedId) × (frame_id transfer node_id ≡ ok id) × (begun transfer id ≡ it)
  unfolding new
  new-begun transfer node_id it e =
      let (id, named, made) = >>=-eq-ok (frame_id transfer node_id) _ e in (id, named, cc)

  -- The first frame is empty, with the ID of the iterator.
  pub current_frame_new :
      {E : Type 0} (it : FdCanIter)
      → it.can_frame ≡ none
      → (frame : FdCanFrame) × (current_frame {E = E} it ≡ ok frame)
        × (v.items frame.payload ≡ [])
        × (frame.timestamp ≡ api.timestamp it.transfer)
        × (c.as_raw frame.id ≡ c.as_raw it.frame_id)
  unfolding current_frame Frame.new
  current_frame_new it fresh =
      let (id, made, raw) = c.extended_id_lem (c.as_raw it.frame_id) (c.as_raw_le it.frame_id) in
      (
        record { timestamp = api.timestamp it.transfer; id = id; dlc = 0; payload = v.new },
        rw (current_frame, fresh, Frame.new, made) refl,
        v.new_lem,
        refl,
        raw,
      )

  abbrev pub tail_of : api.Transfer → ℕ
  tail_of transfer = TailByte.new true true true (api.transfer_id transfer)

  single_lem :
      {E : Type 0} (it : FdCanIter) (frame : FdCanFrame) (offset : ℕ)
      → v.items frame.payload ≡ []
      → offset ≡ it.payload_offset + length (api.payload it.transfer)
      → length (api.payload it.transfer) ≤ 63
      → (payload : v.Vec) × (single {E = E} it frame (length (api.payload it.transfer))
          ≡ ok (record it { payload_offset = offset }, record frame { payload = payload }))
        × (v.items payload ≡ api.payload it.transfer ++ (tail_of it.transfer ∷ []))
  unfolding single
  single_lem it frame offset empty after short =
      let bytes = api.payload it.transfer in
      let cut : take (min (length bytes) 63) bytes ≡ bytes =
        take_all (min (length bytes) 63) bytes (omega arith) in
      let start = ap length empty in
      let copied : v.items (v.extend frame.payload bytes) ≡ bytes =
        extend_all frame.payload bytes (omega arith) ∙ ap (λ (xs : List ℕ). xs ++ bytes) empty in
      let len = ap length copied in
      let (payload, pushed, all) =
        v.push_unchecked_lem (v.extend frame.payload bytes) (tail_of it.transfer) (omega arith) in
      (
        payload,
        rw (single, cut, pushed, after) refl,
        all ∙ ap (λ (xs : List ℕ). xs ++ (tail_of it.transfer ∷ [])) copied,
      )

  -- The iterator behind its first frame.
  abbrev pub behind : api.Transfer → c.ExtendedId → FdCanFrame → FdCanIter
  behind transfer id frame = record (begun transfer id) {
    payload_offset = length (api.payload transfer);
    is_start = false;
    can_frame = some frame;
  }

  -- The first `advance` of a transfer that fits a frame, up to the padding.
  advance_unpadded :
      {E : Type 0} (transfer : api.Transfer) (id : c.ExtendedId)
      → length (api.payload transfer) ≤ 63
      → (frame : FdCanFrame) × (v.items frame.payload
          ≡ api.payload transfer ++ (tail_of transfer ∷ []))
        × (frame.timestamp ≡ api.timestamp transfer)
        × (c.as_raw frame.id ≡ c.as_raw id)
        × (advance {E = E} (begun transfer id) ≡ (do
          padded ← set_dlc frame (length (api.payload transfer))
          ok (behind transfer id padded)))
  advance_unpadded {E} transfer id short =
      let it = begun transfer id in
      let n = length (api.payload transfer) in
      let (frame, got, empty, at, named) = current_frame_new {E = E} it refl in
      let (payload, made, all) = single_lem {E = E} it frame n empty (omega arith) short in
      (
        record frame { payload = payload },
        all,
        at,
        named,
        advance-next_frame it n (omega arith) (omega arith) (ground arith)
            ∙ next_frame-single it _ frame _ n (ground arith) got made,
      )

  -- A transfer of at most 48 bytes: the first `advance` makes a frame with the time of the
  -- transfer, the ID of the iterator, the DLC of the least size that takes the bytes, and the bytes,
  -- a tail byte, and behind it the zeroes up to that size. So it has one byte more than its DLC says.
  pub advance-new :
      {E : Type 0} (transfer : api.Transfer) (node_id : Option NodeId) (it : FdCanIter)
      → new transfer node_id ≡ ok it
      → length (api.payload transfer) ≤ 48
      → (frame : FdCanFrame) × (advance {E = E} it ≡ ok (behind transfer it.frame_id frame))
        × (frame.timestamp ≡ api.timestamp transfer)
        × (c.as_raw frame.id ≡ c.as_raw it.frame_id)
        × (frame.dlc ≡ code (length (api.payload transfer)))
        × (v.items frame.payload
            ≡ (api.payload transfer ++ (tail_of transfer ∷ []))
              ++ replicate (size (length (api.payload transfer)) - length (api.payload transfer)) 0)
        × (length (v.items frame.payload) ≡ size (length (api.payload transfer)) + 1)
  advance-new {E} transfer node_id it made short =
      let n = length (api.payload transfer) in
      let (id, _, same) = new-begun transfer node_id it made in
      let (frame, all, at, named, steps) = advance_unpadded {E = E} transfer id (omega arith) in
      let whole = ap length all ∙ length-append (api.payload transfer) (tail_of transfer ∷ []) in
      let room : length (v.items frame.payload) + (size n - n) ≤ 64 = ground arith in
      let (payload, padded, zeroes) = set_dlc_lem {E = E} frame n (omega arith) room in
      let items = zeroes ∙ ap (λ (xs : List ℕ). xs ++ replicate (size n - n) 0) all in
      let len =
        ap length zeroes ∙ length-append (v.items frame.payload) (replicate (size n - n) 0) in
      let wide : n ≤ size n = ground arith in
      let zeroes_len = length-replicate (size n - n) zero in
      rw (← same) (
        record frame { dlc = code n; payload = payload },
        steps ∙ rw padded refl,
        at,
        named,
        refl,
        items,
        omega arith,
      )

  -- A transfer of 49 to 63 bytes: the tail byte and the zeroes do not fit, and `advance` panics.
  advance-new_panic :
      {E : Type 0} (transfer : api.Transfer) (node_id : Option NodeId) (it : FdCanIter)
      → new transfer node_id ≡ ok it
      → 48 < length (api.payload transfer)
      → length (api.payload transfer) ≤ 63
      → advance {E = E} it ≡ panic
  advance-new_panic {E} transfer node_id it made long short =
      let n = length (api.payload transfer) in
      let (id, _, same) = new-begun transfer node_id it made in
      let (frame, all, at, named, steps) = advance_unpadded {E = E} transfer id short in
      let whole = ap length all ∙ length-append (api.payload transfer) (tail_of transfer ∷ []) in
      let over : 64 < length (v.items frame.payload) + (size n - n) = ground arith in
      let padded = set_dlc_over {E = E} frame n (omega arith) (omega arith) over in
      rw (← same) (steps ∙ rw padded refl)
