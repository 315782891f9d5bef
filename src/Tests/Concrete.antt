-- ===== src/Tests/Concrete.antt =====
-- Values for what the program takes from other crates, which show that the laws can be met.
use cyphal_rs.Base.{
  ℕ, ◌+◌, ◌-◌, ◌*◌, ◌/◌, ◌%◌, ◌^◌, ◌≤◌, ◌<◌, ◌≡◌, refl, Option, none, some, ◌==◌, flag, arith,
  if◌then◌else◌, leb, min,
}
use cyphal_rs.CrcAny.{CrcAny}
use cyphal_rs.Crates.{Crates}
use cyphal_rs.Crc16.Bitwise.{bitwise, bitwise-append}
use cyphal_rs.Types.{
  Priority, priority_as_u8, exceptional, immediate, fast, high, nominal, low, slow, optional,
}

unfoldable pub from_u8 : ℕ → Option Priority
from_u8 n =
    if n == 0
    then some exceptional
    else if n == 1
    then some immediate
    else if n == 2
    then some fast
    else if n == 3
    then some high
    else if n == 4
    then some nominal
    else if n == 5
    then some low
    else if n == 6
    then some slow
    else if n == 7
    then some optional
    else none

pub from_u8_lem : (p : Priority) → from_u8 (priority_as_u8 p) ≡ some p
unfolding from_u8
from_u8_lem exceptional = refl
from_u8_lem _ = refl

abbrev pub max_id : ℕ
max_id = 0x1fff_ffff

unfoldable pub extended_id : ℕ → Option ℕ
extended_id raw = if leb raw max_id then some raw else none

pub extended_id_lem :
    (raw : ℕ) → raw ≤ 0x1fff_ffff → (id : ℕ) × (extended_id raw ≡ some id) × (min id max_id ≡ raw)
unfolding extended_id
extended_id_lem raw h = (raw, ground arith, omega arith)

pub min-le : (id : ℕ) → min id max_id ≤ 0x1fff_ffff
min-le id = omega arith

instance abbrev pub crates : Crates
crates = record {
  bit_range = λ word msb lsb. word / 2 ^ lsb % 2 ^ (msb - lsb + 1);
  set_bit_range = λ word msb lsb value.
      word / 2 ^ (msb + 1) * 2 ^ (msb + 1) + value % 2 ^ (msb - lsb + 1) * 2 ^ lsb + word % 2 ^ lsb;
  bit = λ word n. word / 2 ^ n % 2 == 1;
  set_bit = λ word n b. word / 2 ^ (n + 1) * 2 ^ (n + 1) + flag b (2 ^ n) + word % 2 ^ n;
  from_u8 = from_u8;
  to_u8 = λ p. some (priority_as_u8 p);
  ExtendedId = ℕ;
  extended_id = extended_id;
  as_raw = λ id. min id max_id;
  bit_range_lem = λ word msb lsb h. refl;
  set_bit_range_lem = λ word msb lsb value h. refl;
  bit_lem = λ word n. refl;
  set_bit_lem = λ word n b. refl;
  from_u8_lem = from_u8_lem;
  to_u8_lem = λ p. refl;
  extended_id_lem = extended_id_lem;
  as_raw_le = min-le;
}

pub bitwise-lt : (crc : ℕ) → crc % 2 ^ 16 < 2 ^ 16
bitwise-lt crc = omega arith

-- `crc_any` by the bitwise description.
instance abbrev pub crc_any : CrcAny
crc_any = record {
  CrcU16 = ℕ;
  crc16ccitt_false = 0xffff;
  digest = bitwise;
  get_crc = λ crc. crc % 2 ^ 16;
  digest-append = bitwise-append;
  get_crc-lt = bitwise-lt;
}
