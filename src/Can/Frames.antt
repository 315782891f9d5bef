-- ===== src/Can/Frames.antt =====
-- `rx_process_frame` on a frame whose payload is data and a tail byte.
use cyphal_rs.Base.{
  ℕ, ◌+◌, ◌-◌, ◌*◌, ◌≤◌, ◌<◌, ◌≡◌, refl, ap, ◌∙◌, Bool, true, false, not, ◌||◌, none, some, List,
  [], ◌∷◌, ◌++◌, length, get_elem?, take, length-append, take-append, get_elem?-append, ok, err,
  arith,
}
use mathlib.Core.List.{append_assoc}
use cyphal_rs.Bitfields.TailByte
use cyphal_rs.Can.Data.{CanFrame, is_empty, last}
use cyphal_rs.Can.Receive.{split_crc, check_tail, frame_metadata, rx_process_frame}
use cyphal_rs.Crates.{Crates}
use cyphal_rs.Types.{TransferMetadata, TransferId, RxError}

pub length-snoc : (xs : List ℕ) (t : ℕ) → length (xs ++ (t ∷ [])) ≡ length xs + 1
length-snoc xs t = length-append xs (t ∷ [])

pub last-snoc : (xs : List ℕ) (t : ℕ) → last (xs ++ (t ∷ [])) ≡ some t
last-snoc xs t =
    let e : length (xs ++ (t ∷ [])) - 1 ≡ length xs = omega (arith, length-snoc xs t) in
    rw e (get_elem?-append xs t [])

pub is_empty-snoc : (xs : List ℕ) (t : ℕ) → is_empty (xs ++ (t ∷ [])) ≡ false
is_empty-snoc [] t = refl
is_empty-snoc (x ∷ xs) t = refl

-- The two bytes before the last.
module _ (body : List ℕ) (high low t : ℕ) where
  abbrev closing : List ℕ
  closing = (body ++ (high ∷ (low ∷ []))) ++ (t ∷ [])

  closing_lem : closing ≡ body ++ (high ∷ (low ∷ (t ∷ [])))
  closing_lem = append_assoc body (high ∷ (low ∷ [])) (t ∷ [])

  length-closing : length closing ≡ length body + 3
  length-closing = ap length closing_lem ∙ length-append body (high ∷ (low ∷ (t ∷ [])))

  high_byte : get_elem? closing (length closing - 3) ≡ some high
  high_byte =
      let e : length closing - 3 ≡ length body = omega (arith, length-closing) in
      rw (e, closing_lem) (get_elem?-append body high (low ∷ (t ∷ [])))

  low_byte : get_elem? closing (length closing - 2) ≡ some low
  low_byte =
      let e : length closing - 2 ≡ length (body ++ (high ∷ [])) =
        omega (arith, length-closing, length-append body (high ∷ [])) in
      rw (e, closing_lem, ← append_assoc body (high ∷ []) (low ∷ (t ∷ [])))
        (get_elem?-append (body ++ (high ∷ [])) low (t ∷ []))

  take-closing : take (length closing - 3) closing ≡ body
  take-closing =
      let e : length closing - 3 ≡ length body = omega (arith, length-closing) in
      rw (e, closing_lem) (take-append body (high ∷ (low ∷ (t ∷ []))))

module _ ⦃c : Crates⦄ {I : Type 0} (frame : CanFrame I) (tail : ℕ) {s e t : Bool} {tid : TransferId}
    (read : TailByte.IsTail s e t tid tail) (md : TransferMetadata I)
    (ids : frame_metadata frame.timestamp (c.as_raw frame.id) tail ≡ ok md) where
  -- A frame that is the first or is not the last, with an ID that can be read, the toggle bit set
  -- if it is the first, and eight bytes if it is not the last: `rx_process_frame` returns all its
  -- bytes but the tail byte as payload, and no checksum.
  pub rx_process_frame_plain :
      (chunk : List ℕ)
      → frame.payload ≡ chunk ++ (tail ∷ [])
      → (s ≡ true → t ≡ true)
      → (e ≡ false → 7 ≤ length chunk)
      → (s || not e) ≡ true
      → rx_process_frame frame
        ≡ ok (
          record { metadata = md; payload = chunk; first_frame = s; last_frame = e },
          record { toggle_bit = t; crc_val = none },
        )
  unfolding rx_process_frame split_crc check_tail
  rx_process_frame_plain chunk p toggled full plain = ground (
    arith,
    is_empty-snoc chunk tail,
    last-snoc chunk tail,
    length-snoc chunk tail,
    take-append chunk (tail ∷ []),
  )

  -- A frame that is the last of several, with an ID that can be read, and two bytes before its
  -- tail byte: `rx_process_frame` returns these as the checksum, high byte first, and the bytes
  -- before them as payload.
  pub rx_process_frame_last :
      (body : List ℕ) (high low : ℕ)
      → frame.payload ≡ (body ++ (high ∷ (low ∷ []))) ++ (tail ∷ [])
      → s ≡ false
      → e ≡ true
      → rx_process_frame frame
        ≡ ok (
          record { metadata = md; payload = body; first_frame = s; last_frame = e },
          record { toggle_bit = t; crc_val = some (high * 256 + low) },
        )
  unfolding rx_process_frame split_crc check_tail
  rx_process_frame_last body high low p not_first is_last =
      let chunk = body ++ (high ∷ (low ∷ [])) in
      ground (
        arith,
        is_empty-snoc chunk tail,
        last-snoc chunk tail,
        length-closing body high low tail,
        high_byte body high low tail,
        low_byte body high low tail,
        take-closing body high low tail,
      )

  -- The last of several frames is refused where it holds less than a checksum.
  pub rx_process_frame_short :
      (chunk : List ℕ)
      → frame.payload ≡ chunk ++ (tail ∷ [])
      → s ≡ false
      → e ≡ true
      → length chunk < 2
      → rx_process_frame frame ≡ err RxError.invalid_payload
  unfolding rx_process_frame split_crc
  rx_process_frame_short chunk p not_first is_last short =
      ground (arith, is_empty-snoc chunk tail, last-snoc chunk tail, length-snoc chunk tail)
