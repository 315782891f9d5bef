-- ===== src/Fd/Reading.antt =====
-- What `rx_process_frame` makes of the frames of `FdCanIter`, cyphal/src/transport/can/fd.rs.
use cyphal_rs.Base.{
  ℕ, zero, suc, ◌-◌, ◌≤◌, ◌<◌, ◌≡◌, refl, sym, ap, ◌∙◌, true, false, Option, some, List, [], ◌∷◌,
  ◌++◌, replicate, length, if◌then◌else◌, ok, err, arith,
}
use mathlib.Core.List.{append-nil, append_assoc}
use cyphal_rs.Bitfields.CanServiceId
use cyphal_rs.Bitfields.TailByte
use cyphal_rs.Can.Data.{is_empty, last}
use cyphal_rs.Can.Frames.{last-snoc, is_empty-snoc}
use cyphal_rs.Crates.{Crates}
use cyphal_rs.Fd.Api.{FdApi}
use cyphal_rs.Fd.ArrayVec.{ArrayVec}
use cyphal_rs.Fd.Frame.{FdCanFrame, mtu_size}
use cyphal_rs.Fd.Iterator.{FdCanIter, new, advance}
use cyphal_rs.Fd.Padding.{size}
use cyphal_rs.Fd.Receive.{service_frame, message_frame, rx_process_frame}
use cyphal_rs.Fd.Single.{behind, tail_of, advance-new}
use cyphal_rs.Types.{NodeId, RxError}

replicate-snoc : (n a : ℕ) → replicate (suc n) a ≡ replicate n a ++ (a ∷ [])
replicate-snoc zero a = refl
replicate-snoc (suc n) a = ap (◌∷◌ a) (replicate-snoc n a)

-- Zeroes at the end.
zeroes-last : (xs : List ℕ) (n : ℕ) → 0 < n → last (xs ++ replicate n 0) ≡ some 0
zeroes-last xs zero h = absurd (omega arith)
zeroes-last xs (suc n) h =
    let whole : xs ++ replicate (suc n) 0 ≡ (xs ++ replicate n 0) ++ (0 ∷ []) =
      ap (λ (zs : List ℕ). xs ++ zs) (replicate-snoc n 0)
      ∙ sym (append_assoc xs (replicate n 0) (0 ∷ [])) in
    ap last whole ∙ last-snoc (xs ++ replicate n 0) 0

is_empty-longer : (xs : List ℕ) (t : ℕ) (ys : List ℕ) → is_empty ((xs ++ (t ∷ [])) ++ ys) ≡ false
is_empty-longer [] t ys = refl
is_empty-longer (x ∷ xs) t ys = refl

module _ ⦃c : Crates⦄ ⦃v : ArrayVec⦄ ⦃api : FdApi⦄ where
  zero_tail : (TailByte.start_of_transfer 0 ≡ false) × (TailByte.end_of_transfer 0 ≡ false)
  unfolding TailByte.start_of_transfer TailByte.end_of_transfer
  zero_tail = (c.bit_lem 0 7, c.bit_lem 0 6)

  rx_process_frame_zero :
      (node_id : Option NodeId) (frame : FdCanFrame)
      → last (v.items frame.payload) ≡ some 0
      → is_empty (v.items frame.payload) ≡ false
      → length (v.items frame.payload) < mtu_size
      → rx_process_frame node_id frame ≡ err RxError.non_last_under_utilization
  unfolding rx_process_frame
  rx_process_frame_zero node_id frame ends some_left short =
      let (not_first, not_last) = zero_tail in ground arith

  pub rx_process_frame_whole :
      (node_id : Option NodeId) (frame : FdCanFrame) (bytes : List ℕ) (transfer : api.Transfer)
      → v.items frame.payload ≡ bytes ++ (tail_of transfer ∷ [])
      → rx_process_frame node_id frame ≡ (
          if CanServiceId.is_svc (c.as_raw frame.id)
          then service_frame node_id frame (tail_of transfer)
          else message_frame frame (tail_of transfer))
  unfolding rx_process_frame
  rx_process_frame_whole node_id frame bytes transfer all =
      let (_, tail) = TailByte.new-IsTail true true true (api.transfer_id transfer) in
      let starts = tail.start_eq in
      let ends = tail.end_eq in
      let toggled = tail.toggle_eq in
      let found = last-snoc bytes (tail_of transfer) in
      let some_left = is_empty-snoc bytes (tail_of transfer) in
      let found' : last (v.items frame.payload) ≡ some (tail_of transfer) = ap last all ∙ found in
      let some_left' : is_empty (v.items frame.payload) ≡ false = ap is_empty all ∙ some_left in
      ground arith

  -- A transfer of at most 48 bytes, whose first frame is padded, since no frame has just its size.
  -- `rx_process_frame` takes the last zero for the tail byte, and refuses the frame.
  pub rx_process_frame-advance_padded :
      {E : Type 0} (transfer : api.Transfer) (node_id receiver : Option NodeId) (it : FdCanIter)
      → new transfer node_id ≡ ok it
      → length (api.payload transfer) ≤ 48
      → length (api.payload transfer) < size (length (api.payload transfer))
      → (frame : FdCanFrame) × (advance {E = E} it ≡ ok (behind transfer it.frame_id frame))
        × (rx_process_frame receiver frame ≡ err RxError.non_last_under_utilization)
  rx_process_frame-advance_padded {E} transfer node_id receiver it made short padded =
      let n = length (api.payload transfer) in
      let bytes = api.payload transfer ++ (tail_of transfer ∷ []) in
      let (frame, steps, _, _, _, all, len) = advance-new {E = E} transfer node_id it made short in
      let ends = ap last all ∙ zeroes-last bytes (size n - n) (omega arith) in
      let some_left =
        ap is_empty all
        ∙ is_empty-longer (api.payload transfer) (tail_of transfer) (replicate (size n - n) 0) in
      let small : size n ≤ 48 = ground arith in
      (frame, steps, rx_process_frame_zero receiver frame ends some_left (omega arith))

  -- With no zeroes, the payload ends with the tail byte.
  pub advance_exact :
      {E : Type 0} (transfer : api.Transfer) (node_id : Option NodeId) (it : FdCanIter)
      → new transfer node_id ≡ ok it
      → length (api.payload transfer) ≤ 48
      → size (length (api.payload transfer)) ≡ length (api.payload transfer)
      → (frame : FdCanFrame) × (advance {E = E} it ≡ ok (behind transfer it.frame_id frame))
        × (frame.timestamp ≡ api.timestamp transfer)
        × (c.as_raw frame.id ≡ c.as_raw it.frame_id)
        × (v.items frame.payload ≡ api.payload transfer ++ (tail_of transfer ∷ []))
  advance_exact {E} transfer node_id it made short exact =
      let n = length (api.payload transfer) in
      let bytes = api.payload transfer ++ (tail_of transfer ∷ []) in
      let (frame, steps, at, named, _, all, _) =
        advance-new {E = E} transfer node_id it made short in
      let no_zeroes : size n - n ≡ 0 = omega arith in
      (
        frame,
        steps,
        at,
        named,
        all ∙ ap (λ (k : ℕ). bytes ++ replicate k 0) no_zeroes ∙ append-nil bytes,
      )
