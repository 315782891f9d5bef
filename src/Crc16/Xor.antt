-- ===== src/Crc16/Xor.antt =====
-- Laws of `^` on the numbers of the checksum, cyphal/src/crc16.rs, by their binary digits.
use Prim.Native.Nat.{bit_xor, differ, digits, bit_xor-bitwise}
use native.Mathlib.Nat.{pow-suc, mul_assoc}
use cyphal_rs.Base.{ℕ, zero, suc, ◌+◌, ◌*◌, ◌/◌, ◌%◌, ◌^◌, ◌≤◌, ◌<◌, ◌≡◌, refl, sym, ap, ◌∙◌, arith}

-- How many digits are looked at makes no difference.
xor_digits : ℕ → ℕ → ℕ → ℕ
xor_digits n a b = digits (λ y. y) differ n a b

xor_digits_enough : (n m a b : ℕ) → a ≤ n → a ≤ m → xor_digits n a b ≡ xor_digits m a b
unfolding xor_digits
xor_digits_enough zero zero a b h h' = refl
xor_digits_enough zero (suc m) zero b h h' = refl
xor_digits_enough zero (suc m) (suc a) b h h' = absurd (omega arith)
xor_digits_enough (suc n) zero zero b h h' = refl
xor_digits_enough (suc n) zero (suc a) b h h' = absurd (omega arith)
xor_digits_enough (suc n) (suc m) zero b h h' = refl
xor_digits_enough (suc n) (suc m) (suc a) b h h' =
    let rest = xor_digits_enough n m (suc a / 2) (b / 2) (omega arith) (omega arith) in
    ap (λ (q : ℕ). q * 2 + differ (suc a % 2) (b % 2)) rest

pub zero-bit_xor : (b : ℕ) → bit_xor 0 b ≡ b
zero-bit_xor b = bit_xor-bitwise 0 b

-- The lowest digit.
pub bit_xor_step : (a b : ℕ) → bit_xor a b ≡ bit_xor (a / 2) (b / 2) * 2 + differ (a % 2) (b % 2)
unfolding xor_digits
bit_xor_step zero b = omega (arith, zero-bit_xor b, zero-bit_xor (b / 2))
bit_xor_step (suc a) b =
    let fewer = xor_digits_enough a (suc a / 2) (suc a / 2) (b / 2) (omega arith) (omega arith) in
    let whole = bit_xor-bitwise (suc a) b in
    let half = bit_xor-bitwise (suc a / 2) (b / 2) in omega arith

bit_of : (n : ℕ) → n < 2 → (m : ℕ) → m < 2 → differ n m < 2
bit_of zero h m h' = h'
bit_of (suc zero) h zero h' = omega arith
bit_of (suc zero) h (suc zero) h' = omega arith
bit_of (suc zero) h (suc (suc m)) h' = absurd (omega arith)
bit_of (suc (suc n)) h m h' = absurd (omega arith)

pub bit_xor-lt : (k a b : ℕ) → a < 2 ^ k → b < 2 ^ k → bit_xor a b < 2 ^ k
bit_xor-lt zero a b h h' =
    let none : a ≡ 0 = omega arith in
    let none' : b ≡ 0 = omega arith in rw (none, none') (omega (arith, zero-bit_xor 0))
bit_xor-lt (suc k) a b h h' =
    let width = pow-suc 2 k in
    let rest = bit_xor-lt k (a / 2) (b / 2) (omega arith) (omega arith) in
    let digit = bit_of (a % 2) (omega arith) (b % 2) (omega arith) in
    omega (arith, bit_xor_step a b)

twice : (a k : ℕ) → a * 2 ^ suc k ≡ a * 2 ^ k * 2
twice a k = rw (pow-suc 2 k) (sym (mul_assoc a (2 ^ k) 2))

-- Two digits.
differ_comm : (n m : ℕ) → n < 2 → m < 2 → differ n m ≡ differ m n
differ_comm zero zero h h' = refl
differ_comm zero (suc zero) h h' = refl
differ_comm (suc zero) zero h h' = refl
differ_comm (suc zero) (suc zero) h h' = refl
differ_comm (suc (suc n)) m h h' = absurd (omega arith)
differ_comm n (suc (suc m)) h h' = absurd (omega arith)

differ_assoc : (n m l : ℕ) → n < 2 → m < 2 → l < 2 → differ (differ n m) l ≡ differ n (differ m l)
differ_assoc zero m l h h' h″ = refl
differ_assoc (suc zero) zero l h h' h″ = refl
differ_assoc (suc zero) (suc zero) zero h h' h″ = refl
differ_assoc (suc zero) (suc zero) (suc zero) h h' h″ = refl
differ_assoc (suc zero) (suc zero) (suc (suc l)) h h' h″ = absurd (omega arith)
differ_assoc (suc zero) (suc (suc m)) l h h' h″ = absurd (omega arith)
differ_assoc (suc (suc n)) m l h h' h″ = absurd (omega arith)

-- A number and itself.
differ_same : (n : ℕ) → differ n n ≡ 0
differ_same zero = refl
differ_same (suc n) = differ_same n

pub bit_xor_comm : (k a b : ℕ) → a < 2 ^ k → b < 2 ^ k → bit_xor a b ≡ bit_xor b a
bit_xor_comm zero a b h h' =
    let none : a ≡ 0 = omega arith in let none' : b ≡ 0 = omega arith in rw (none, none') refl
bit_xor_comm (suc k) a b h h' =
    let width = pow-suc 2 k in
    let rest = bit_xor_comm k (a / 2) (b / 2) (omega arith) (omega arith) in
    let digit = differ_comm (a % 2) (b % 2) (omega arith) (omega arith) in
    omega (arith, bit_xor_step a b, bit_xor_step b a)

pub bit_xor_same : (k a : ℕ) → a < 2 ^ k → bit_xor a a ≡ 0
bit_xor_same zero a h = let none : a ≡ 0 = omega arith in rw (none, zero-bit_xor 0) refl
bit_xor_same (suc k) a h =
    let width = pow-suc 2 k in
    let rest = bit_xor_same k (a / 2) (omega arith) in
    omega (arith, bit_xor_step a a, differ_same (a % 2))

pub bit_xor_assoc :
    (k a b d : ℕ)
    → a < 2 ^ k
    → b < 2 ^ k
    → d < 2 ^ k
    → bit_xor (bit_xor a b) d ≡ bit_xor a (bit_xor b d)
bit_xor_assoc zero a b d h h' h″ =
    let none : a ≡ 0 = omega arith in rw (none, zero-bit_xor b, zero-bit_xor (bit_xor b d)) refl
bit_xor_assoc (suc k) a b d h h' h″ =
    let width = pow-suc 2 k in
    let rest = bit_xor_assoc k (a / 2) (b / 2) (d / 2) (omega arith) (omega arith) (omega arith) in
    let digit = differ_assoc (a % 2) (b % 2) (d % 2) (omega arith) (omega arith) (omega arith) in
    let low = bit_of (a % 2) (omega arith) (b % 2) (omega arith) in
    let low' = bit_of (b % 2) (omega arith) (d % 2) (omega arith) in
    let left = bit_xor_step a b in
    let right = bit_xor_step b d in
    let high : bit_xor a b / 2 ≡ bit_xor (a / 2) (b / 2) = omega arith in
    let high' : bit_xor b d / 2 ≡ bit_xor (b / 2) (d / 2) = omega arith in
    let last : bit_xor a b % 2 ≡ differ (a % 2) (b % 2) = omega arith in
    let last' : bit_xor b d % 2 ≡ differ (b % 2) (d % 2) = omega arith in
    let there : bit_xor (bit_xor a b) d
        ≡ bit_xor (bit_xor (a / 2) (b / 2)) (d / 2) * 2 + differ (differ (a % 2) (b % 2)) (d % 2) =
      bit_xor_step (bit_xor a b) d ∙ rw (high, last) refl in
    let back : bit_xor a (bit_xor b d)
        ≡ bit_xor (a / 2) (bit_xor (b / 2) (d / 2)) * 2 + differ (a % 2) (differ (b % 2) (d % 2)) =
      bit_xor_step a (bit_xor b d) ∙ rw (high', last') refl in
    there ∙ rw (rest, digit) (sym back)

-- High and low digits do not meet.
bit_xor_split :
    (k a b l m : ℕ)
    → l < 2 ^ k
    → m < 2 ^ k
    → bit_xor (a * 2 ^ k + l) (b * 2 ^ k + m) ≡ bit_xor a b * 2 ^ k + bit_xor l m
bit_xor_split zero a b l m h h' =
    let none : l ≡ 0 = omega arith in
    let none' : m ≡ 0 = omega arith in
    let one : a * 2 ^ 0 + 0 ≡ a = omega arith in
    let one' : b * 2 ^ 0 + 0 ≡ b = omega arith in
    rw (none, none', one, one') (omega (arith, zero-bit_xor 0))
bit_xor_split (suc k) a b l m h h' =
    let width = pow-suc 2 k in
    let wide : a * 2 ^ suc k ≡ a * 2 ^ k * 2 = twice a k in
    let wide' : b * 2 ^ suc k ≡ b * 2 ^ k * 2 = twice b k in
    let wide″ : bit_xor a b * 2 ^ suc k ≡ bit_xor a b * 2 ^ k * 2 = twice (bit_xor a b) k in
    let rest = bit_xor_split k a b (l / 2) (m / 2) (omega arith) (omega arith) in
    let high : (a * 2 ^ suc k + l) / 2 ≡ a * 2 ^ k + l / 2 = omega arith in
    let high' : (b * 2 ^ suc k + m) / 2 ≡ b * 2 ^ k + m / 2 = omega arith in
    let low : (a * 2 ^ suc k + l) % 2 ≡ l % 2 = omega arith in
    let low' : (b * 2 ^ suc k + m) % 2 ≡ m % 2 = omega arith in
    bit_xor_step (a * 2 ^ suc k + l) (b * 2 ^ suc k + m)
    ∙ rw (high, high', low, low', rest) (omega (arith, bit_xor_step l m))

pub bit_xor_parts :
    {x y : ℕ} (k a b l m : ℕ)
    → x ≡ a * 2 ^ k + l
    → y ≡ b * 2 ^ k + m
    → l < 2 ^ k
    → m < 2 ^ k
    → bit_xor x y ≡ bit_xor a b * 2 ^ k + bit_xor l m
bit_xor_parts k a b l m e e' h h' = rw (e, e') (bit_xor_split k a b l m h h')
