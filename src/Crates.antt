-- ===== src/Crates.antt =====
-- What the CAN code takes from the crates `bitfield`, `num_derive` and `embedded_can`: the
-- operations, and the documented behaviour of each that the code relies on.
use cyphal_rs.Base.{
  ℕ, ◌+◌, ◌-◌, ◌*◌, ◌/◌, ◌%◌, ◌^◌, ◌≤◌, ◌≡◌, ◌∙◌, Bool, true, false, Option, some, ◌==◌, flag,
}
use cyphal_rs.Types.{Priority, priority_as_u8}

pub record Crates : Type 1 where
  -- `bitfield!`: bits `msb` down to `lsb` of a word, and one bit.
  pub bit_range : (word msb lsb : ℕ) → ℕ
  pub set_bit_range : (word msb lsb value : ℕ) → ℕ
  pub bit : (word n : ℕ) → Bool
  pub set_bit : (word n : ℕ) → Bool → ℕ
  -- `FromPrimitive` and `ToPrimitive`, derived for `Priority`.
  pub from_u8 : ℕ → Option Priority
  pub to_u8 : Priority → Option ℕ
  -- `embedded_can::ExtendedId`, a number of 29 bits.
  pub ExtendedId : Type 0
  pub extended_id : ℕ → Option ExtendedId
  pub as_raw : ExtendedId → ℕ
  pub bit_range_lem :
      (word msb lsb : ℕ) → lsb ≤ msb → bit_range word msb lsb ≡ word / 2 ^ lsb % 2 ^ (msb - lsb + 1)
  pub set_bit_range_lem :
      (word msb lsb value : ℕ)
      → lsb ≤ msb
      → set_bit_range word msb lsb value
        ≡ word / 2 ^ (msb + 1) * 2 ^ (msb + 1)
          + value % 2 ^ (msb - lsb + 1) * 2 ^ lsb
          + word % 2 ^ lsb
  pub bit_lem : (word n : ℕ) → bit word n ≡ (word / 2 ^ n % 2 == 1)
  pub set_bit_lem :
      (word n : ℕ) (b : Bool)
      → set_bit word n b ≡ word / 2 ^ (n + 1) * 2 ^ (n + 1) + flag b (2 ^ n) + word % 2 ^ n
  pub from_u8_lem : (p : Priority) → from_u8 (priority_as_u8 p) ≡ some p
  pub to_u8_lem : (p : Priority) → to_u8 p ≡ some (priority_as_u8 p)
  pub extended_id_lem :
      (raw : ℕ)
      → raw ≤ 0x1fff_ffff
      → (id : ExtendedId) × (extended_id raw ≡ some id) × (as_raw id ≡ raw)
  pub as_raw_le : (id : ExtendedId) → as_raw id ≤ 0x1fff_ffff

module _ ⦃c : Crates⦄ where
  -- Bit `n` of a word, from the arithmetic.
  pub bit_eq : (b : Bool) (word n : ℕ) → word / 2 ^ n % 2 ≡ flag b 1 → c.bit word n ≡ b
  bit_eq true word n h = c.bit_lem word n ∙ rw h
  bit_eq false word n h = c.bit_lem word n ∙ rw h
