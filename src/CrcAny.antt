-- ===== src/CrcAny.antt =====
-- What the CAN transport takes from the crate `crc_any`: `CRCu16`, a running 16-bit checksum.
use cyphal_rs.Base.{ℕ, ◌^◌, ◌<◌, ◌≡◌, List, ◌++◌}

pub record CrcAny : Type 1 where
  pub CrcU16 : Type 0
  pub crc16ccitt_false : CrcU16
  pub digest : CrcU16 → List ℕ → CrcU16
  pub get_crc : CrcU16 → ℕ
  -- Data may come in pieces, and the sum is a `u16`.
  pub digest-append :
      (crc : CrcU16) (xs ys : List ℕ) → digest crc (xs ++ ys) ≡ digest (digest crc xs) ys
  pub get_crc-lt : (crc : CrcU16) → get_crc crc < 2 ^ 16
