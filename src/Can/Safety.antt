-- ===== src/Can/Safety.antt =====
-- `rx_process_frame` and `transmit_frame` stay within their buffers.
use cyphal_rs.Base.{
  ℕ, zero, suc, ◌+◌, ◌-◌, ◌≤◌, ◌<◌, ◌≡◌, ◌≢◌, refl, ap, sym, ◌∙◌, min, false, Option, some, List,
  [], ◌∷◌, ◌++◌, length, get_elem?, take, length-append, length-take, leb, ltb, Result-cases,
  Bool-cases, inl, inr, Result, ok, err, panic, >>=-eq-ok, arith,
}
use cyphal_rs.Bitfields.CanMessageId
use cyphal_rs.Bitfields.CanServiceId
use cyphal_rs.Bitfields.TailByte
use cyphal_rs.Can.Data.{FrameMetadata, CanFrame, TxMetadata, is_empty, last, mtu_size}
use cyphal_rs.Can.Receive.{
  split_crc, check_tail, frame_metadata, service_metadata, message_metadata, rx_process_frame,
}
use cyphal_rs.Can.Transmit.{frame_id, transmit_frame}
use cyphal_rs.Crates.{Crates}
use cyphal_rs.Types.{
  Priority, priority_as_u8, exceptional, immediate, fast, high, nominal, low, slow, optional,
  RxError, TransferMetadata, TransferFrame, NodeId,
}

-- Three bits name a priority.
priority_of : (n : ℕ) → n < 8 → (p : Priority) × (priority_as_u8 p ≡ n)
priority_of zero h = (exceptional, refl)
priority_of (suc zero) h = (immediate, refl)
priority_of (suc (suc zero)) h = (fast, refl)
priority_of (suc (suc (suc zero))) h = (high, refl)
priority_of (suc (suc (suc (suc zero)))) h = (nominal, refl)
priority_of (suc (suc (suc (suc (suc zero))))) h = (low, refl)
priority_of (suc (suc (suc (suc (suc (suc zero)))))) h = (slow, refl)
priority_of (suc (suc (suc (suc (suc (suc (suc zero))))))) h = (optional, refl)
priority_of (suc (suc (suc (suc (suc (suc (suc (suc n)))))))) h = absurd (omega arith)

-- `get_elem?` in range.
get_elem?-lt {ℓ} :
    {A : Type ℓ} (xs : List A) (i : ℕ) → i < length xs → (x : A) × (get_elem? xs i ≡ some x)
get_elem?-lt [] i h = absurd (omega arith)
get_elem?-lt (x ∷ xs) zero h = (x, refl)
get_elem?-lt (x ∷ xs) (suc i) h = get_elem?-lt xs i (omega arith)

-- A payload that is not empty has a last byte.
last_of : (xs : List ℕ) → is_empty xs ≡ false → (0 < length xs) × ((t : ℕ) × (last xs ≡ some t))
last_of [] h = cc
last_of (x ∷ xs) h = (omega arith, get_elem?-lt (x ∷ xs) (length (x ∷ xs) - 1) (omega arith))

module _ ⦃c : Crates⦄ where
  from_u8-bits : (n : ℕ) → n < 8 → (p : Priority) × (c.from_u8 n ≡ some p)
  from_u8-bits n h = let (p, e) = priority_of n h in (p, ap c.from_u8 (sym e) ∙ c.from_u8_lem p)

  frame_metadata-panic :
      {I : Type 0} (timestamp : I) (id tail : ℕ) → frame_metadata timestamp id tail ≢ panic
  unfolding frame_metadata service_metadata message_metadata CanServiceId.priority
      CanMessageId.priority
  frame_metadata-panic timestamp id tail p =
      let (s, e) =
        from_u8-bits (CanServiceId.priority id) (omega (arith, c.bit_range_lem id 28 26)) in
      let (m, e') =
        from_u8-bits (CanMessageId.priority id) (omega (arith, c.bit_range_lem id 28 26)) in
      ground arith

  split_crc-panic :
      (payload : List ℕ) (tail : ℕ) → 0 < length payload → split_crc payload tail ≢ panic
  unfolding split_crc
  split_crc-panic payload tail room p = elim (Bool-cases (ltb (length payload) 3)) [
    | inl short ↦ ground arith
    | inr long ↦
        let (x, e) = get_elem?-lt payload (length payload - 3) (ground arith) in
        let (y, e') = get_elem?-lt payload (length payload - 2) (ground arith) in ground arith
  ]

  split_crc-lt :
      (payload : List ℕ) (tail : ℕ) (crc : Option ℕ) (n : ℕ)
      → 0 < length payload
      → split_crc payload tail ≡ ok (crc, n)
      → n < length payload
  unfolding split_crc
  split_crc-lt payload tail crc n room e = ground arith

  check_tail-panic : (n tail : ℕ) → check_tail n tail ≢ panic
  unfolding check_tail
  check_tail-panic n tail p = ground arith

  rx_process_frame_facts :
      {I : Type 0} (frame : CanFrame I)
      → (rx_process_frame frame ≢ panic)
        × ((read : TransferFrame I) (metadata : FrameMetadata)
            → rx_process_frame frame ≡ ok (read, metadata)
            → length read.payload < length frame.payload)
  unfolding rx_process_frame
  rx_process_frame_facts frame = elim (Bool-cases (is_empty frame.payload)) [
    | inl none_left ↦ (λ p. ground arith, λ read metadata e. ground arith)
    | inr some_left ↦
        let (room, (t, found)) = last_of frame.payload some_left in
        let split = split_crc-panic frame.payload t room in
        let shorter = split_crc-lt frame.payload t in
        let check = check_tail-panic (length frame.payload) t in
        let ids = frame_metadata-panic frame.timestamp (c.as_raw frame.id) t in
        (
          λ p. ground arith,
          λ read metadata e. elim (Result-cases (split_crc frame.payload t)) [
            | inl s ↦ absurd (split s)
            | inr (inl (_, s)) ↦ ground arith
            | inr (inr ((crc, n), s)) ↦
                let short = shorter crc n room s in
                let cut = length-take n frame.payload in ground arith
          ],
        )
  ]

  pub rx_process_frame-panic : {I : Type 0} (frame : CanFrame I) → rx_process_frame frame ≢ panic
  rx_process_frame-panic frame = (rx_process_frame_facts frame).0

  -- What `rx_process_frame` may answer: an error, or a payload shorter than the frame's.
  abbrev pub Safe :
      {I : Type 0} → CanFrame I → Result RxError (TransferFrame I × FrameMetadata) → Type 0
  Safe frame panic = ⊥
  Safe frame (err e) = Unit {0}
  Safe frame (ok (read, metadata)) = length read.payload < length frame.payload

  -- Whatever its payload and its ID, a frame makes `rx_process_frame` return: no subtraction of a
  -- length goes below zero, no index is out of range and every priority has a name. It answers an error or a payload that is shorter than the
  -- frame's.
  pub rx_process_frame-Safe :
      {I : Type 0} (frame : CanFrame I) → Safe frame (rx_process_frame frame)
  rx_process_frame-Safe frame =
      let (no_panic, shorter) = rx_process_frame_facts frame in
      elim (Result-cases (rx_process_frame frame)) [
        | inl e ↦ absurd (no_panic e)
        | inr (inl (_, e)) ↦ rw e tt
        | inr (inr ((read, metadata), e)) ↦ rw e (shorter read metadata e)
      ]

  -- A frame that `transmit_frame` returns has one byte more than it consumes of what it is given,
  -- which is all up to seven bytes and seven of more: it fits the eight bytes of classic CAN.
  pub transmit_frame_bounds :
      {I : Type 0} (md : TransferMetadata I) (tx : TxMetadata) (bytes : List ℕ)
      (node_id : Option NodeId) (timestamp : I) (frame : CanFrame I) (consumed : ℕ)
      → (transmit_frame md tx bytes node_id timestamp).1 ≡ ok (frame, consumed)
      → (length frame.payload ≡ consumed + 1)
        × (length frame.payload ≤ mtu_size)
        × (consumed ≡ min 7 (length bytes))
  unfolding transmit_frame
  transmit_frame_bounds md tx bytes node_id timestamp frame consumed e =
      let (id, named, rest) = >>=-eq-ok (frame_id md (leb (length bytes) 7) node_id) _ e in
      let len = length-take (min 7 (length bytes)) bytes in
      let tail_byte =
        TailByte.new tx.first_frame (leb (length bytes) 7) tx.toggle_bit md.transfer_id in
      let whole = length-append (take (min 7 (length bytes)) bytes) (tail_byte ∷ []) in
      let used : min 7 (length bytes) ≡ consumed = cc in
      let payload : take (min 7 (length bytes)) bytes ++ (tail_byte ∷ []) ≡ frame.payload = cc in
      let same = ap length payload in ground arith
