-- ===== src/Can/Checksum.antt =====
-- `process_tx_crc` on a buffer that has room for the checksum behind its data.
use cyphal_rs.Base.{
  ℕ, ◌+◌, ◌*◌, ◌/◌, ◌%◌, ◌≤◌, ◌<◌, ◌≡◌, refl, List, ◌∷◌, ◌++◌, length, length-append, take,
  take-append, set, length-set, set-append, set-append_next, ok, panic, arith,
}
use cyphal_rs.Can.Data.{process_tx_crc}
use cyphal_rs.CrcAny.{CrcAny}

module _ ⦃k : CrcAny⦄ where
  -- The checksum of data, and its bytes as they are sent.
  abbrev pub checksum : List ℕ → ℕ
  checksum bytes = k.get_crc (k.digest k.crc16ccitt_false bytes)

  abbrev pub crc_high : List ℕ → ℕ
  crc_high bytes = checksum bytes / 256 % 256

  abbrev pub crc_low : List ℕ → ℕ
  crc_low bytes = checksum bytes % 256

  -- The receiver puts the two bytes together again.
  pub crc_bytes : (bytes : List ℕ) → crc_high bytes * 256 + crc_low bytes ≡ checksum bytes
  crc_bytes bytes = omega (arith, k.get_crc-lt (k.digest k.crc16ccitt_false bytes))

  -- Up to seven bytes go without a checksum.
  pub process_tx_crc_short :
      {E : Type 0} (buffer : List ℕ) (n : ℕ)
      → n ≤ 7
      → process_tx_crc {E = E} buffer n ≡ ok (buffer, n)
  unfolding process_tx_crc
  process_tx_crc_short buffer n h = ground arith

  -- In a buffer with two bytes or more behind its data, data of more than seven bytes are followed
  -- by their checksum, high byte first, and nothing else of the buffer changes.
  pub process_tx_crc_long :
      {E : Type 0} (bytes pad : List ℕ) (x y : ℕ)
      → 7 < length bytes
      → process_tx_crc {E = E} (bytes ++ (x ∷ (y ∷ pad))) (length bytes)
        ≡ ok (bytes ++ (crc_high bytes ∷ (crc_low bytes ∷ pad)), length bytes + 2)
  unfolding process_tx_crc
  process_tx_crc_long bytes pad x y h =
      let high = crc_high bytes in
      let len = length-append bytes (x ∷ (y ∷ pad)) in
      let len' = length-append bytes (high ∷ (y ∷ pad)) in
      let second : set (bytes ++ (high ∷ (y ∷ pad))) (length bytes + 1) (crc_low bytes)
          ≡ bytes ++ (high ∷ (crc_low bytes ∷ pad)) =
        set-append_next bytes high y (crc_low bytes) pad (length bytes + 1) refl in
      ground (arith, take-append bytes (x ∷ (y ∷ pad)), set-append bytes x high (y ∷ pad), second)

  -- With less than two bytes behind the data the checksum does not fit: a panic.
  pub process_tx_crc_overrun :
      {E : Type 0} (buffer : List ℕ) (n : ℕ)
      → 7 < n
      → length buffer < n + 2
      → process_tx_crc {E = E} buffer n ≡ panic
  unfolding process_tx_crc
  process_tx_crc_overrun buffer n long short =
      let high = k.get_crc (k.digest k.crc16ccitt_false (take n buffer)) / 256 % 256 in
      ground (arith, length-set buffer n high)
