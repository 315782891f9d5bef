-- ===== src/Fd/ArrayVec.antt =====
-- What fd.rs takes from the crate `arrayvec`, version 0.5: `ArrayVec<[u8; 64]>`.
use mathlib.Core.List.{append-nil}
use cyphal_rs.Base.{
  ℕ, ◌+◌, ◌-◌, ◌≤◌, ◌<◌, ◌≡◌, Option, none, some, List, [], ◌∷◌, ◌++◌, length, take, take_all, ap,
  ◌∙◌, arith,
}

abbrev pub capacity : ℕ
capacity = 64

-- An operation that panics, or that has no defined result, answers `none`.
pub record ArrayVec : Type 1 where
  pub Vec : Type 0
  pub items : Vec → List ℕ
  pub new : Vec
  pub extend : Vec → List ℕ → Vec
  pub push : Vec → ℕ → Option Vec
  pub push_unchecked : Vec → ℕ → Option Vec
  pub try_extend_from_slice : Vec → List ℕ → Option Vec
  pub new_lem : items new ≡ []
  -- `extend` takes no more items than there is space for.
  pub extend_lem :
      (vec : Vec) (bytes : List ℕ)
      → items (extend vec bytes) ≡ items vec ++ take (capacity - length (items vec)) bytes
  pub push_lem :
      (vec : Vec) (byte : ℕ)
      → length (items vec) < capacity
      → (vec' : Vec) × (push vec byte ≡ some vec') × (items vec' ≡ items vec ++ (byte ∷ []))
  pub push_full : (vec : Vec) (byte : ℕ) → length (items vec) ≡ capacity → push vec byte ≡ none
  pub push_unchecked_lem :
      (vec : Vec) (byte : ℕ)
      → length (items vec) < capacity
      → (vec' : Vec) × (push_unchecked vec byte ≡ some vec')
        × (items vec' ≡ items vec ++ (byte ∷ []))
  pub push_unchecked_full :
      (vec : Vec) (byte : ℕ) → length (items vec) ≡ capacity → push_unchecked vec byte ≡ none
  pub try_extend_lem :
      (vec : Vec) (bytes : List ℕ)
      → length (items vec) + length bytes ≤ capacity
      → (vec' : Vec) × (try_extend_from_slice vec bytes ≡ some vec')
        × (items vec' ≡ items vec ++ bytes)
  pub try_extend_over :
      (vec : Vec) (bytes : List ℕ)
      → capacity < length (items vec) + length bytes
      → try_extend_from_slice vec bytes ≡ none

module _ ⦃v : ArrayVec⦄ where
  -- With space for all, `extend` takes all; with space for none, it takes none.
  pub extend_all :
      (vec : v.Vec) (bytes : List ℕ)
      → length (v.items vec) + length bytes ≤ capacity
      → v.items (v.extend vec bytes) ≡ v.items vec ++ bytes
  extend_all vec bytes room =
      v.extend_lem vec bytes
      ∙ ap (λ (xs : List ℕ). v.items vec ++ xs)
          (take_all (capacity - length (v.items vec)) bytes (omega arith))

  pub extend_none :
      (vec : v.Vec) (bytes : List ℕ)
      → length (v.items vec) ≡ capacity
      → v.items (v.extend vec bytes) ≡ v.items vec
  extend_none vec bytes full =
      let room : capacity - length (v.items vec) ≡ 0 = omega arith in
      v.extend_lem vec bytes ∙ rw room (append-nil (v.items vec))
