-- ===== src/Fd/Padding.antt =====
-- The DLC of a CAN FD frame and the zeroes behind its data, `advance` of
-- cyphal/src/transport/can/fd.rs.
use mathlib.Core.List.{append-nil}
use cyphal_rs.Base.{
  ℕ, zero, suc, ◌+◌, ◌-◌, ◌≤◌, ◌<◌, ◌≡◌, refl, sym, ap, ◌∙◌, Bool-cases, inl, inr, some, none, leb,
  List, ◌∷◌, ◌++◌, replicate, take, length, length-replicate, if◌then◌else◌, ok, panic, arith,
}
use cyphal_rs.Crates.{Crates}
use cyphal_rs.Fd.Api.{FdApi}
use cyphal_rs.Fd.ArrayVec.{ArrayVec}
use cyphal_rs.Fd.Frame.{FdCanFrame, fill, set_dlc}

-- The sizes that a CAN FD frame can have, and the code of each.
abbrev pub size : ℕ → ℕ
size n =
    if leb n 8
    then n
    else if leb n 12
    then 12
    else if leb n 16
    then 16
    else if leb n 20
    then 20
    else if leb n 24
    then 24
    else if leb n 32
    then 32
    else if leb n 48
    then 48
    else 64

abbrev pub code : ℕ → ℕ
code n =
    if leb n 8
    then n
    else if leb n 12
    then 9
    else if leb n 16
    then 10
    else if leb n 20
    then 11
    else if leb n 24
    then 12
    else if leb n 32
    then 13
    else if leb n 48
    then 14
    else 15

take-replicate {ℓ} : {A : Type ℓ} (k n : ℕ) (a : A) → k ≤ n → take k (replicate n a) ≡ replicate k a
take-replicate zero n a h = refl
take-replicate (suc k) zero a h = absurd (omega arith)
take-replicate (suc k) (suc n) a h = ap (◌∷◌ a) (take-replicate k n a (omega arith))

size_near : (n : ℕ) → n ≤ 64 → size n - n ≤ 16
size_near n h = ground arith

module _ ⦃c : Crates⦄ ⦃v : ArrayVec⦄ ⦃api : FdApi⦄ where
  set_dlc_short :
      {E : Type 0} (frame : FdCanFrame) (n : ℕ)
      → n ≤ 8
      → set_dlc {E = E} frame n ≡ ok (record frame { dlc = n })
  unfolding set_dlc
  set_dlc_short frame n h = ground arith

  set_dlc_long :
      {E : Type 0} (frame : FdCanFrame) (n : ℕ)
      → 8 < n
      → n ≤ 64
      → set_dlc {E = E} frame n ≡ fill frame n (size n) (code n)
  unfolding set_dlc
  set_dlc_long frame n h h' = ground arith

  fill_made :
      {E : Type 0} (frame : FdCanFrame) (n full dlc : ℕ) (payload : v.Vec)
      → v.try_extend_from_slice frame.payload (take (full - n) (replicate 16 0)) ≡ some payload
      → fill {E = E} frame n full dlc ≡ ok (record frame { dlc = dlc; payload = payload })
  fill_made frame n full dlc payload made = rw made refl

  fill_over :
      {E : Type 0} (frame : FdCanFrame) (n full dlc : ℕ)
      → v.try_extend_from_slice frame.payload (take (full - n) (replicate 16 0)) ≡ none
      → fill {E = E} frame n full dlc ≡ panic
  fill_over frame n full dlc over = rw over refl

  -- Where there is room, the zeroes fill the frame up to the next size that a frame can have.
  pub set_dlc_lem :
      {E : Type 0} (frame : FdCanFrame) (n : ℕ)
      → n ≤ 64
      → length (v.items frame.payload) + (size n - n) ≤ 64
      → (payload : v.Vec) × (set_dlc {E = E} frame n
          ≡ ok (record frame { dlc = code n; payload = payload }))
        × (v.items payload ≡ v.items frame.payload ++ replicate (size n - n) 0)
  set_dlc_lem frame n h room = elim (Bool-cases (leb n 8)) [
    | inl e ↦
        let short : n ≤ 8 = ground arith in
        let same : n - n ≡ 0 = omega arith in
        (
          frame.payload,
          rw (e, set_dlc_short frame n short) refl,
          rw (e, same) (sym (append-nil (v.items frame.payload))),
        )
    | inr e ↦
        let zeroes = take-replicate (size n - n) 16 zero (size_near n h) in
        let len = ap length zeroes ∙ length-replicate (size n - n) 0 in
        let (payload, made, all) =
          v.try_extend_lem frame.payload (take (size n - n) (replicate 16 0)) (omega arith) in
        (
          payload,
          set_dlc_long frame n (ground arith) h ∙ fill_made frame n (size n) (code n) payload made,
          all ∙ ap (λ (zs : List ℕ). v.items frame.payload ++ zs) zeroes,
        )
  ]

  -- Where there is none, the code panics.
  pub set_dlc_over :
      {E : Type 0} (frame : FdCanFrame) (n : ℕ)
      → 8 < n
      → n ≤ 64
      → 64 < length (v.items frame.payload) + (size n - n)
      → set_dlc {E = E} frame n ≡ panic
  set_dlc_over frame n h h' over =
      let zeroes = take-replicate (size n - n) 16 zero (size_near n h') in
      let len = ap length zeroes ∙ length-replicate (size n - n) 0 in
      let none_left =
        v.try_extend_over frame.payload (take (size n - n) (replicate 16 0)) (omega arith) in
      set_dlc_long frame n h h' ∙ fill_over frame n (size n) (code n) none_left
