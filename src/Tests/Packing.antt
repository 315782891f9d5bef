-- ===== src/Tests/Packing.antt =====
-- Bytes into words at concrete arrays.
use cyphal_rs.Base.{◌≡◌, refl, [], ◌∷◌, ok, panic, arith}
use cyphal_rs.Packing.{slice_into_u32, insert_u8_array_in_u32_array}
use cyphal_rs.Packing.Words.{insert_u8_array_in_u32_array_lem}

insert_u8_array_in_u32_array_lem_example :
    insert_u8_array_in_u32_array {E = ⊥} (23 ∷ 34 ∷ 23 ∷ 56 ∷ 54 ∷ 76 ∷ []) (0 ∷ 0 ∷ 7 ∷ [])
    ≡ ok (slice_into_u32 (23 ∷ 34 ∷ 23 ∷ 56 ∷ []) ∷ slice_into_u32 (54 ∷ 76 ∷ []) ∷ 7 ∷ [])
insert_u8_array_in_u32_array_lem_example =
    insert_u8_array_in_u32_array_lem ((23 ∷ 34 ∷ 23 ∷ 56 ∷ []) ∷ []) (54 ∷ 76 ∷ []) (0 ∷ [])
      (7 ∷ []) 0 (refl, tt) (omega arith) (omega arith) refl

-- No bytes at all.
insert_nothing : insert_u8_array_in_u32_array {E = ⊥} [] (0 ∷ []) ≡ panic
unfolding insert_u8_array_in_u32_array
insert_nothing = refl
