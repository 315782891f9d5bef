-- ===== src/Packing.antt =====
-- examples/embedded/src/util.rs: bytes into the 32-bit words of a message memory.
pub mod Words
use cyphal_rs.Base.{
  ℕ, zero, suc, ◌+◌, ◌-◌, ◌*◌, ◌/◌, ◌%◌, ◌^◌, not, List, [], ◌∷◌, leb, ltb, ◌==◌, if◌then◌else◌,
  length, set, take, drop, Result, ok, panic, ◌>>=◌,
}

-- The bits of the shifted bytes do not meet, so their `|` is their sum.
unfoldable pub slice_into_u32 : List ℕ → ℕ
slice_into_u32 (a ∷ []) = a * 2 ^ 24
slice_into_u32 (a ∷ (b ∷ [])) = a * 2 ^ 24 + b * 2 ^ 16
slice_into_u32 (a ∷ (b ∷ (c ∷ []))) = a * 2 ^ 24 + b * 2 ^ 16 + c * 2 ^ 8
slice_into_u32 (a ∷ (b ∷ (c ∷ (d ∷ [])))) = a * 2 ^ 24 + b * 2 ^ 16 + c * 2 ^ 8 + d
slice_into_u32 _ = 0

-- The loop over the first `count` words, from the one at `index`; a slice of the bytes that is out
-- of range panics.
unfoldable pub fill_words : {E : Type 0} → ℕ → ℕ → List ℕ → List ℕ → Result E (List ℕ)
fill_words zero index u8_array words = ok words
fill_words (suc count) index u8_array [] = ok []
fill_words (suc count) index u8_array (word ∷ words) = do
  filled ← fill_words count (suc index) u8_array words
  (if not (leb (index * 4 + 4) (length u8_array))
      then panic
      else ok (slice_into_u32 (take 4 (drop (index * 4) u8_array)) ∷ filled))

-- No bytes make `u32_final_len - 1` underflow: a panic.
unfoldable pub insert_u8_array_in_u32_array : {E : Type 0} → List ℕ → List ℕ → Result E (List ℕ)
insert_u8_array_in_u32_array u8_array u32_array =
    let u32_final_len = (length u8_array + 3) / 4 in
    let remaining = if length u8_array % 4 == 0 then 4 else length u8_array % 4 in
    if u32_final_len == 0 then panic else (do
      words ← fill_words (u32_final_len - 1) 0 u8_array u32_array
      (if not (ltb (u32_final_len - 1) (length words))
          then panic
          else ok (
              set words (u32_final_len - 1)
                (slice_into_u32 (drop (length u8_array - remaining) u8_array)))))
