-- ===== src/Tests/Crc.antt =====
-- Runs of the checksum.
use cyphal_rs.Base.{◌≡◌, refl, ◌∷◌, [], ok, arith}
use cyphal_rs.Crc16.{init, digest}
use cyphal_rs.Crc16.Bitwise.{bitwise}
use cyphal_rs.Crc16.Table.{digest-bitwise}

-- The check value of CRC-16/CCITT-FALSE, on "123456789".
digest_check : digest {E = ⊥} init (49 ∷ 50 ∷ 51 ∷ 52 ∷ 53 ∷ 54 ∷ 55 ∷ 56 ∷ 57 ∷ []) ≡ ok 0x29b1
unfolding digest
digest_check = refl

bitwise_check : bitwise init (49 ∷ 50 ∷ 51 ∷ 52 ∷ 53 ∷ 54 ∷ 55 ∷ 56 ∷ 57 ∷ []) ≡ 0x29b1
unfolding bitwise
bitwise_check = refl

digest-bitwise_example :
    digest {E = ⊥} init (49 ∷ 50 ∷ 255 ∷ []) ≡ ok (bitwise init (49 ∷ 50 ∷ 255 ∷ []))
digest-bitwise_example =
    digest-bitwise {E = ⊥} init (49 ∷ 50 ∷ 255 ∷ []) (omega arith)
      (omega arith, (omega arith, (omega arith, tt)))
