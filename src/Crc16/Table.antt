-- ===== src/Crc16/Table.antt =====
-- The table of cyphal/src/crc16.rs computes what the checksum's bit by bit description says.
use Prim.Native.Nat.{bit_xor}
use cyphal_rs.Base.{
  ℕ, zero, suc, ◌+◌, ◌-◌, ◌*◌, ◌/◌, ◌%◌, ◌^◌, ◌<◌, ◌≡◌, refl, sym, ap, ◌∙◌, Bool, true, false,
  Bool-cases, inl, inr, ◌&&◌, Option, none, some, List, [], ◌∷◌, All, ltb, ◌==◌, get_elem?, ok,
  arith,
}
use cyphal_rs.Crc16.{table, digest, bits}
use cyphal_rs.Crc16.Bitwise.{shift, shifts, feed, bitwise}
use cyphal_rs.Crc16.Xor.{zero-bit_xor, bit_xor-lt, bit_xor_comm, bit_xor_assoc, bit_xor_parts}

-- A test of every number below `n`.
all_below : ℕ → (ℕ → Bool) → Bool
all_below zero p = true
all_below (suc n) p = p n && all_below n p

all_below-lt : (n : ℕ) (p : ℕ → Bool) (x : ℕ) → all_below n p ≡ true → x < n → p x ≡ true
unfolding all_below
all_below-lt zero p x h lt = absurd (omega arith)
all_below-lt (suc n) p x h lt = ground (arith, all_below-lt n p x)

abbrev is_entry : Option ℕ → ℕ → Bool
is_entry none x = false
is_entry (some y) x = y == x

is_entry_lem : (o : Option ℕ) (x : ℕ) → is_entry o x ≡ true → o ≡ some x
is_entry_lem none x h = cc
is_entry_lem (some y) x h = ground arith

entries : all_below 256 (λ i. is_entry (get_elem? table i) (shifts 8 (i * 256))) ≡ true
unfolding all_below shifts shift table
entries = refl

table_lem : (i : ℕ) → i < 256 → get_elem? table i ≡ some (shifts 8 (i * 256))
table_lem i h =
    is_entry_lem (get_elem? table i) (shifts 8 (i * 256)) (all_below-lt 256 _ i entries h)

low_bytes : all_below 256 (λ i. shifts 8 i == i * 256) ≡ true
unfolding all_below shifts shift
low_bytes = refl

shifts-low : (i : ℕ) → i < 256 → shifts 8 i ≡ i * 256
shifts-low i h = let e = all_below-lt 256 _ i low_bytes h in ground arith

bit_xor-zero : (a : ℕ) → a < 2 ^ 16 → bit_xor a 0 ≡ a
bit_xor-zero a h = bit_xor_comm 16 a 0 h (omega arith) ∙ zero-bit_xor a

-- The bit that leaves, times the polynomial.
shift_lem : (a : ℕ) → a < 2 ^ 16 → shift a ≡ bit_xor (a % 2 ^ 15 * 2) (a / 2 ^ 15 * 0x1021)
unfolding shift
shift_lem a h = elim (Bool-cases (ltb a (2 ^ 15))) [
  | inl e ↦
      let top : a / 2 ^ 15 * 0x1021 ≡ 0 = ground arith in
      let rest : a % 2 ^ 15 * 2 ≡ a * 2 = ground arith in
      let same = bit_xor-zero (a * 2) (ground arith) in rw (shift, e, top, rest, same) refl
  | inr e ↦
      let top : a / 2 ^ 15 * 0x1021 ≡ 0x1021 = ground arith in
      let rest : a % 2 ^ 15 * 2 ≡ a * 2 % 2 ^ 16 = ground arith in rw (shift, e, top, rest) refl
]

interchange :
    (a b x y : ℕ)
    → a < 2 ^ 16
    → b < 2 ^ 16
    → x < 2 ^ 16
    → y < 2 ^ 16
    → bit_xor (bit_xor a b) (bit_xor x y) ≡ bit_xor (bit_xor a x) (bit_xor b y)
interchange a b x y ha hb hx hy =
    bit_xor_assoc 16 a b (bit_xor x y) ha hb (bit_xor-lt 16 x y hx hy)
    ∙ ap (bit_xor a) (
        sym (bit_xor_assoc 16 b x y hb hx hy)
        ∙ ap (λ (z : ℕ). bit_xor z y) (bit_xor_comm 16 b x hb hx)
        ∙ bit_xor_assoc 16 x b y hx hb hy)
    ∙ sym (bit_xor_assoc 16 a x (bit_xor b y) ha hx (bit_xor-lt 16 b y hb hy))

poly : (n m : ℕ) → n < 2 → m < 2 → bit_xor n m * 0x1021 ≡ bit_xor (n * 0x1021) (m * 0x1021)
poly zero zero h h' = refl
poly zero (suc zero) h h' = refl
poly (suc zero) zero h h' = refl
poly (suc zero) (suc zero) h h' = refl
poly (suc (suc n)) m h h' = absurd (omega arith)
poly n (suc (suc m)) h h' = absurd (omega arith)

twice : (a b : ℕ) → bit_xor a b * 2 ≡ bit_xor (a * 2) (b * 2)
twice a b = omega (
  arith,
  zero-bit_xor 0,
  bit_xor_parts {x = a * 2} {y = b * 2} 1 a b 0 0 (omega arith) (omega arith) (omega arith)
      (omega arith),
)

-- Shifts do not mix what is added.
shift-bit_xor :
    (a b : ℕ) → a < 2 ^ 16 → b < 2 ^ 16 → shift (bit_xor a b) ≡ bit_xor (shift a) (shift b)
shift-bit_xor a b ha hb =
    let low = bit_xor-lt 15 (a % 2 ^ 15) (b % 2 ^ 15) (omega arith) (omega arith) in
    let top = bit_xor-lt 1 (a / 2 ^ 15) (b / 2 ^ 15) (omega arith) (omega arith) in
    let parts : bit_xor a b
        ≡ bit_xor (a / 2 ^ 15) (b / 2 ^ 15) * 2 ^ 15 + bit_xor (a % 2 ^ 15) (b % 2 ^ 15) =
      bit_xor_parts 15 (a / 2 ^ 15) (b / 2 ^ 15) (a % 2 ^ 15) (b % 2 ^ 15) (omega arith)
        (omega arith) (omega arith) (omega arith) in
    let quotient : bit_xor a b / 2 ^ 15 ≡ bit_xor (a / 2 ^ 15) (b / 2 ^ 15) = omega arith in
    let rest : bit_xor a b % 2 ^ 15 ≡ bit_xor (a % 2 ^ 15) (b % 2 ^ 15) = omega arith in
    let double : bit_xor (a % 2 ^ 15) (b % 2 ^ 15) * 2 ≡ bit_xor (a % 2 ^ 15 * 2) (b % 2 ^ 15 * 2) =
      twice (a % 2 ^ 15) (b % 2 ^ 15) in
    let times = poly (a / 2 ^ 15) (b / 2 ^ 15) (omega arith) (omega arith) in
    let whole : shift (bit_xor a b)
        ≡ bit_xor (bit_xor (a % 2 ^ 15 * 2) (b % 2 ^ 15 * 2))
            (bit_xor (a / 2 ^ 15 * 0x1021) (b / 2 ^ 15 * 0x1021)) =
      shift_lem (bit_xor a b) (bit_xor-lt 16 a b ha hb) ∙ rw (quotient, rest, double, times) refl in
    whole
    ∙ interchange (a % 2 ^ 15 * 2) (b % 2 ^ 15 * 2) (a / 2 ^ 15 * 0x1021) (b / 2 ^ 15 * 0x1021)
        (omega arith) (omega arith) (omega arith) (omega arith)
    ∙ rw (shift_lem a ha, shift_lem b hb) refl

shift-lt : (a : ℕ) → a < 2 ^ 16 → shift a < 2 ^ 16
shift-lt a h =
    let bound = bit_xor-lt 16 (a % 2 ^ 15 * 2) (a / 2 ^ 15 * 0x1021) (omega arith) (omega arith) in
    omega (arith, shift_lem a h)

shifts-bit_xor :
    (n a b : ℕ)
    → a < 2 ^ 16
    → b < 2 ^ 16
    → shifts n (bit_xor a b) ≡ bit_xor (shifts n a) (shifts n b)
unfolding shifts
shifts-bit_xor zero a b ha hb = refl
shifts-bit_xor (suc n) a b ha hb =
    ap (shifts n) (shift-bit_xor a b ha hb)
    ∙ shifts-bit_xor n (shift a) (shift b) (shift-lt a ha) (shift-lt b hb)

shifts-lt : (n a : ℕ) → a < 2 ^ 16 → shifts n a < 2 ^ 16
unfolding shifts
shifts-lt zero a h = h
shifts-lt (suc n) a h = shifts-lt n (shift a) (shift-lt a h)

-- What the high byte and the low byte of the register become.
feed_lem :
    (crc byte : ℕ)
    → crc < 2 ^ 16
    → byte < 256
    → feed crc byte ≡ bit_xor (crc % 256 * 256) (shifts 8 (bit_xor (crc / 256) byte * 256))
unfolding feed
feed_lem crc byte h h' =
    let i = bit_xor (crc / 256) byte in
    let low = crc % 256 in
    let bound = bit_xor-lt 8 (crc / 256) byte (omega arith) (omega arith) in
    let joined : bit_xor crc (byte * 256) ≡ i * 2 ^ 8 + low =
      bit_xor_parts 8 (crc / 256) byte low 0 (omega arith) (omega arith) (omega arith) (omega arith)
      ∙ ap (λ (x : ℕ). i * 2 ^ 8 + x) (bit_xor-zero low (omega arith)) in
    let apart : bit_xor low (i * 256) ≡ i * 2 ^ 8 + low = omega (
      arith,
      zero-bit_xor i,
      bit_xor-zero low (omega arith),
      bit_xor_parts {x = low} {y = i * 256} 8 0 i low 0 (omega arith) (omega arith) (omega arith)
          (omega arith),
    ) in
    ap (shifts 8) (joined ∙ sym apart)
    ∙ shifts-bit_xor 8 low (i * 256) (omega arith) (omega arith)
    ∙ ap (λ (x : ℕ). bit_xor x (shifts 8 (i * 256))) (shifts-low low (omega arith))

feed-lt : (crc byte : ℕ) → crc < 2 ^ 16 → byte < 256 → feed crc byte < 2 ^ 16
feed-lt crc byte h h' =
    let bound = bit_xor-lt 8 (crc / 256) byte (omega arith) (omega arith) in
    let i = bit_xor (crc / 256) byte in
    rw (feed_lem crc byte h h') (
      bit_xor-lt 16 (crc % 256 * 256) (shifts 8 (i * 256)) (omega arith)
        (shifts-lt 8 (i * 256) (omega arith)))

pub bitwise-lt :
    (crc : ℕ) (bytes : List ℕ)
    → crc < 2 ^ 16
    → All (λ byte. byte < 256) bytes
    → bitwise crc bytes < 2 ^ 16
unfolding bitwise
bitwise-lt crc [] h h' = h
bitwise-lt crc (byte ∷ rest) h (b, bs) = bitwise-lt (feed crc byte) rest (feed-lt crc byte h b) bs

-- On bytes, the table-driven `digest` never looks outside its table, and computes CRC-16 with the
-- polynomial 0x1021 bit by bit, from any 16-bit register.
pub digest-bitwise :
    {E : Type 0} (crc : ℕ) (bytes : List ℕ)
    → crc < 2 ^ 16
    → All (λ byte. byte < 256) bytes
    → digest {E = E} crc bytes ≡ ok (bitwise crc bytes)
unfolding digest bitwise
digest-bitwise crc [] h h' = refl
digest-bitwise {E} crc (byte ∷ rest) h (b, bs) =
    let i = bit_xor (crc / 256) byte in
    let bound = bit_xor-lt 8 (crc / 256) byte (omega arith) (omega arith) in
    let top : crc / 2 ^ (bits - 8) % 2 ^ 8 ≡ crc / 256 = omega arith in
    let low : crc * 2 ^ 8 % 2 ^ 16 ≡ crc % 256 * 256 = omega arith in
    let fed = feed_lem crc byte h b in
    let found = table_lem i bound in
    rw (top, low, found, ← fed) (digest-bitwise (feed crc byte) rest (feed-lt crc byte h b) bs)
