-- ===== src/Bitfields/TailByte.antt =====
-- The tail byte of a frame, `TailByte` of cyphal/src/transport/can/bitfields.rs, as the `u8` that
-- the type wraps.
use cyphal_rs.Base.{ℕ, ◌+◌, ◌*◌, ◌%◌, ◌<◌, ◌≡◌, Bool, flag, flag_lem, arith}
use cyphal_rs.Crates.{Crates, bit_eq}
use cyphal_rs.Types.{TransferId}

module _ ⦃c : Crates⦄ where
  unfoldable pub start_of_transfer : ℕ → Bool
  start_of_transfer byte = c.bit byte 7

  set_start_of_transfer : ℕ → Bool → ℕ
  set_start_of_transfer byte = c.set_bit byte 7

  unfoldable pub end_of_transfer : ℕ → Bool
  end_of_transfer byte = c.bit byte 6

  set_end_of_transfer : ℕ → Bool → ℕ
  set_end_of_transfer byte = c.set_bit byte 6

  unfoldable pub toggle : ℕ → Bool
  toggle byte = c.bit byte 5

  set_toggle : ℕ → Bool → ℕ
  set_toggle byte = c.set_bit byte 5

  unfoldable pub transfer_id : ℕ → TransferId
  transfer_id byte = c.bit_range byte 4 0

  set_transfer_id : ℕ → TransferId → ℕ
  set_transfer_id byte = c.set_bit_range byte 4 0

  unfoldable pub new : Bool → Bool → Bool → TransferId → ℕ
  unfolding set_start_of_transfer set_end_of_transfer set_toggle set_transfer_id
  new is_start is_end toggle id =
      let byte = set_start_of_transfer 0 is_start in
      let byte = set_end_of_transfer byte is_end in
      let byte = set_toggle byte toggle in set_transfer_id byte id

  new_lem :
      (s e t : Bool) (id : TransferId)
      → new s e t id ≡ flag s 1 * 128 + flag e 1 * 64 + flag t 1 * 32 + id % 32
  unfolding new
  new_lem s e t id =
      let w₀ = c.set_bit 0 7 s in
      let w₁ = c.set_bit w₀ 6 e in
      let w₂ = c.set_bit w₁ 5 t in
      let (s', s″) = flag_lem s 128 in
      let (e', e″) = flag_lem e 64 in
      let (t', t″) = flag_lem t 32 in
      let e₀ : w₀ ≡ flag s 1 * 128 = omega (arith, c.set_bit_lem 0 7 s) in
      let e₁ : w₁ ≡ flag s 1 * 128 + flag e 1 * 64 = omega (arith, c.set_bit_lem w₀ 6 e) in
      let e₂ : w₂ ≡ flag s 1 * 128 + flag e 1 * 64 + flag t 1 * 32 =
        omega (arith, c.set_bit_lem w₁ 5 t) in
      omega (arith, c.set_bit_range_lem w₂ 4 0 id)

  -- What the accessors read from a byte.
  pub record IsTail (s e t : Bool) (id : TransferId) (byte : ℕ) : Type 0 where
    pub start_eq : start_of_transfer byte ≡ s
    pub end_eq : end_of_transfer byte ≡ e
    pub toggle_eq : toggle byte ≡ t
    pub transfer_id_eq : transfer_id byte ≡ id % 32

  -- `new` returns a byte from which the accessors read the three bits that it was given and the
  -- low five bits of the transfer ID.
  pub new-IsTail :
      (s e t : Bool) (id : TransferId) → (new s e t id < 256) × IsTail s e t id (new s e t id)
  unfolding start_of_transfer end_of_transfer toggle transfer_id
  new-IsTail s e t id =
      let byte = new s e t id in
      let w = new_lem s e t id in
      let s' = flag_lem s 1 in
      let e' = flag_lem e 1 in
      let t' = flag_lem t 1 in
      (
        omega arith,
        record {
          start_eq = bit_eq s byte 7 (omega arith);
          end_eq = bit_eq e byte 6 (omega arith);
          toggle_eq = bit_eq t byte 5 (omega arith);
          transfer_id_eq = omega (arith, c.bit_range_lem byte 4 0);
        },
      )
