-- ===== src/Crc16/Bitwise.antt =====
-- CRC-16/CCITT-FALSE one bit at a time: polynomial 0x1021, highest bit first, start 0xffff. It
-- describes the checksum independently of the table.
use Prim.Native.Nat.{bit_xor}
use cyphal_rs.Base.{ℕ, zero, suc, ◌*◌, ◌%◌, ◌^◌, ◌≡◌, refl, List, [], ◌∷◌, ◌++◌, ltb, if◌then◌else◌}

-- One bit leaves the register at the top.
unfoldable pub shift : ℕ → ℕ
shift crc = if ltb crc (2 ^ 15) then crc * 2 else bit_xor (crc * 2 % 2 ^ 16) 0x1021

unfoldable pub shifts : ℕ → ℕ → ℕ
shifts zero crc = crc
shifts (suc n) crc = shifts n (shift crc)

unfoldable pub feed : ℕ → ℕ → ℕ
unfolding shift shifts
feed crc byte = shifts 8 (bit_xor crc (byte * 256))

unfoldable pub bitwise : ℕ → List ℕ → ℕ
unfolding feed
bitwise crc [] = crc
bitwise crc (byte ∷ rest) = bitwise (feed crc byte) rest

pub bitwise-append :
    (crc : ℕ) (xs ys : List ℕ) → bitwise crc (xs ++ ys) ≡ bitwise (bitwise crc xs) ys
unfolding bitwise
bitwise-append crc [] ys = refl
bitwise-append crc (byte ∷ xs) ys = bitwise-append (feed crc byte) xs ys
