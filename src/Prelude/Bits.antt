-- ===== src/Prelude/Bits.antt =====
-- `bit_xor` at variables: its digit recursion, and the algebra that follows from it.
use Prim.Native.Nat.{differ, digits, bit_xor-bitwise}
use Prim.Native.Nat.{ℕ, zero, suc, ◌+◌, ◌*◌, ◌/◌, ◌%◌, ◌^◌, ◌≤◌, ◌<◌, bit_xor}
use mathlib.Core.Path.{◌≡◌, refl, sym, ap, ◌∙◌}
use mathlib.Core.WellFounded
use native.Mathlib.Nat.{pow-suc, one-le-pow, mul_comm, div-div-eq-div-mul}
use native.Mathlib.Omega.{arith}
use chats.Prelude.Order.{lt_wf}

abbrev xor_digits : ℕ → ℕ → ℕ → ℕ
xor_digits = digits (λ b. b) differ

xor_digits-zero : (n b : ℕ) → xor_digits n 0 b ≡ b
xor_digits-zero zero b = refl
xor_digits-zero (suc n) b = refl

-- Fuel beyond the first number changes nothing.
xor_fuel : (n m a b : ℕ) → a ≤ n → a ≤ m → xor_digits n a b ≡ xor_digits m a b
xor_fuel n m zero b p q = xor_digits-zero n b ∙ sym (xor_digits-zero m b)
xor_fuel zero m (suc a) b p q = absurd (omega arith)
xor_fuel (suc n) zero (suc a) b p q = absurd (omega arith)
xor_fuel (suc n) (suc m) (suc a) b p q =
    omega (arith, xor_fuel n m (suc a / 2) (b / 2) (omega arith) (omega arith))

differ-bits : (a b : ℕ) → a < 2 → b < 2 → differ a b ≡ (a + b) % 2
differ-bits zero b p q = omega arith
differ-bits (suc zero) zero p q = refl
differ-bits (suc zero) (suc zero) p q = refl
differ-bits (suc zero) (suc (suc b)) p q = absurd (omega arith)
differ-bits (suc (suc a)) b p q = absurd (omega arith)

pub zero-bit_xor : (b : ℕ) → bit_xor 0 b ≡ b
zero-bit_xor b = bit_xor-bitwise 0 b

-- The lowest digit, and the rest.
pub bit_xor_step : (a b : ℕ) → bit_xor a b ≡ bit_xor (a / 2) (b / 2) * 2 + (a + b) % 2
bit_xor_step zero b = omega (arith, zero-bit_xor b, zero-bit_xor (b / 2))
bit_xor_step (suc a) b = omega (
  arith,
  bit_xor-bitwise (suc a) b,
  bit_xor-bitwise (suc a / 2) (b / 2),
  xor_fuel a (suc a / 2) (suc a / 2) (b / 2) (omega arith) (omega arith),
  differ-bits (suc a % 2) (b % 2) (omega arith) (omega arith),
)

-- Strong induction by halves.
halves {ℓ} : (P : ℕ → Type ℓ) → P 0 → ((n : ℕ) → P (suc n / 2) → P (suc n)) → (n : ℕ) → P n
halves P base step n = WellFounded.induction lt_wf {C = P} n go
  where
    go : (k : ℕ) → ((m : ℕ) → m < k → P m) → P k
    go zero ih = base
    go (suc k) ih = step k (ih (suc k / 2) (omega arith))

pub bit_xor-zero : (a : ℕ) → bit_xor a 0 ≡ a
bit_xor-zero =
    halves (λ a. bit_xor a 0 ≡ a) (zero-bit_xor 0) (λ n ih. omega (arith, bit_xor_step (suc n) 0))

pub bit_xor_comm : (a b : ℕ) → bit_xor a b ≡ bit_xor b a
bit_xor_comm =
    halves (λ a. (b : ℕ) → bit_xor a b ≡ bit_xor b a) (λ b. zero-bit_xor b ∙ sym (bit_xor-zero b))
      (λ n ih b. omega (arith, bit_xor_step (suc n) b, bit_xor_step b (suc n), ih (b / 2)))

-- Halving goes through the operation, and the last digit is the parity of the sum.
pub bit_xor-half : (a b : ℕ) → bit_xor a b / 2 ≡ bit_xor (a / 2) (b / 2)
bit_xor-half a b = omega (arith, bit_xor_step a b)

pub bit_xor-parity : (a b : ℕ) → bit_xor a b % 2 ≡ (a + b) % 2
bit_xor-parity a b = omega (arith, bit_xor_step a b)

pub bit_xor_assoc : (a b c : ℕ) → bit_xor (bit_xor a b) c ≡ bit_xor a (bit_xor b c)
bit_xor_assoc =
    halves (λ a. (b c : ℕ) → bit_xor (bit_xor a b) c ≡ bit_xor a (bit_xor b c))
      (λ b c. rw (zero-bit_xor b, zero-bit_xor (bit_xor b c))) step
  where
    step :
        (n : ℕ)
        → ((b c : ℕ) → bit_xor (bit_xor (suc n / 2) b) c ≡ bit_xor (suc n / 2) (bit_xor b c))
        → (b c : ℕ) → bit_xor (bit_xor (suc n) b) c ≡ bit_xor (suc n) (bit_xor b c)
    step n ih b c =
        rw
          (
            bit_xor_step (bit_xor (suc n) b) c,
            bit_xor_step (suc n) (bit_xor b c),
            bit_xor-half (suc n) b,
            bit_xor-half b c,
            ih (b / 2) (c / 2),
          )
          (omega (arith, bit_xor-parity (suc n) b, bit_xor-parity b c))

-- Doubling goes through the operation.
pub bit_xor-double : (a b : ℕ) → bit_xor (a * 2) (b * 2) ≡ bit_xor a b * 2
bit_xor-double a b = rw (bit_xor_step (a * 2) (b * 2), omega_half a, omega_half b) (omega arith)
  where
    omega_half : (n : ℕ) → n * 2 / 2 ≡ n
    omega_half n = omega arith

-- The operation stays within a width.
pub bit_xor-lt : (k a b : ℕ) → a < 2 ^ k → b < 2 ^ k → bit_xor a b < 2 ^ k
bit_xor-lt zero zero zero p q = omega (arith, zero-bit_xor 0)
bit_xor-lt zero zero (suc b) p q = absurd (omega arith)
bit_xor-lt zero (suc a) b p q = absurd (omega arith)
bit_xor-lt (suc k) a b p q = omega (
  arith,
  bit_xor_step a b,
  pow-suc 2 k,
  bit_xor-lt k (a / 2) (b / 2) (omega (arith, pow-suc 2 k)) (omega (arith, pow-suc 2 k)),
)

-- A shift goes through the operation.
pub bit_xor-div : (k a b : ℕ) → bit_xor a b / 2 ^ k ≡ bit_xor (a / 2 ^ k) (b / 2 ^ k)
bit_xor-div zero a b = rw (div_one a, div_one b, div_one (bit_xor a b))
  where
    div_one : (n : ℕ) → n / 2 ^ 0 ≡ n
    div_one n = omega arith
bit_xor-div (suc k) a b =
    rw (div_suc a, div_suc b, div_suc (bit_xor a b), bit_xor-half a b)
      (bit_xor-div k (a / 2) (b / 2))
  where
    div_suc : (n : ℕ) → n / 2 ^ suc k ≡ n / 2 / 2 ^ k
    div_suc n = rw (pow-suc 2 k, mul_comm (2 ^ k) 2) (sym (div-div-eq-div-mul n 2 (2 ^ k)))

mod_suc : (k n : ℕ) → n % 2 ^ suc k ≡ (n / 2 % 2 ^ k) * 2 + n % 2
mod_suc k n = rw (pow-suc 2 k) (grind (arith, one-le-pow k 2))

-- So does a mask of low digits.
pub bit_xor-mod : (k a b : ℕ) → bit_xor a b % 2 ^ k ≡ bit_xor (a % 2 ^ k) (b % 2 ^ k)
bit_xor-mod zero a b = rw (mod_one a, mod_one b, mod_one (bit_xor a b)) (sym (zero-bit_xor 0))
  where
    mod_one : (n : ℕ) → n % 2 ^ 0 ≡ 0
    mod_one n = omega arith
bit_xor-mod (suc k) a b =
    let parity : (bit_xor (a % 2 ^ suc k) (b % 2 ^ suc k)) % 2 ≡ (a + b) % 2 =
      omega (arith, bit_xor-parity (a % 2 ^ suc k) (b % 2 ^ suc k), mod_suc k a, mod_suc k b) in
    let rest : bit_xor (a % 2 ^ suc k) (b % 2 ^ suc k) / 2 ≡ bit_xor (a / 2) (b / 2) % 2 ^ k =
      bit_xor-half (a % 2 ^ suc k) (b % 2 ^ suc k)
      ∙ rw (half_mod a, half_mod b) (sym (bit_xor-mod k (a / 2) (b / 2))) in
    omega (
      arith,
      mod_suc k (bit_xor a b),
      ap (λ t. t % 2 ^ k) (bit_xor-half a b),
      bit_xor-parity a b,
      parity,
      rest,
    )
  where
    half_mod : (n : ℕ) → n % 2 ^ suc k / 2 ≡ n / 2 % 2 ^ k
    half_mod n = omega (arith, mod_suc k n)

-- Digits that do not overlap add up.
pub bit_xor-fields : (k q r : ℕ) → r < 2 ^ k → bit_xor (q * 2 ^ k) r ≡ q * 2 ^ k + r
bit_xor-fields zero q r h = rw (none_left, mul_one_left) (omega (arith, bit_xor-zero q))
  where
    none_left : r ≡ 0
    none_left = omega arith

    mul_one_left : q * 2 ^ 0 ≡ q
    mul_one_left = omega arith
bit_xor-fields (suc k) q r h =
    let double : q * 2 ^ suc k ≡ q * 2 ^ k * 2 = rw (pow-suc 2 k) (omega arith) in
    let rest = bit_xor-fields k q (r / 2) (omega (arith, pow-suc 2 k)) in
    rw (double, bit_xor_step (q * 2 ^ k * 2) r, half_double (q * 2 ^ k), rest) (omega arith)
  where
    half_double : (n : ℕ) → n * 2 / 2 ≡ n
    half_double n = omega arith

-- A shift by a whole number of digits goes through the operation.
pub bit_xor-shift : (k a b : ℕ) → bit_xor (a * 2 ^ k) (b * 2 ^ k) ≡ bit_xor a b * 2 ^ k
bit_xor-shift zero a b = rw (mul_one a, mul_one b, mul_one (bit_xor a b))
  where
    mul_one : (n : ℕ) → n * 2 ^ 0 ≡ n
    mul_one n = omega arith
bit_xor-shift (suc k) a b =
    rw (twice a, twice b, twice (bit_xor a b), bit_xor-double (a * 2 ^ k) (b * 2 ^ k))
      (ap (λ t. t * 2) (bit_xor-shift k a b))
  where
    twice : (n : ℕ) → n * 2 ^ suc k ≡ n * 2 ^ k * 2
    twice n = rw (pow-suc 2 k) (omega arith)

-- Two numbers whose exclusive or is 0 are one.
pub eq_of_bit_xor-zero : (a b : ℕ) → bit_xor a b ≡ 0 → a ≡ b
eq_of_bit_xor-zero =
    halves (λ a. (b : ℕ) → bit_xor a b ≡ 0 → a ≡ b) (λ b h. omega (arith, zero-bit_xor b))
      (λ n ih b h.
        omega (arith, ih (b / 2) (omega (arith, bit_xor_step (suc n) b)), bit_xor_step (suc n) b))

pub bit_xor_self : (a : ℕ) → bit_xor a a ≡ 0
bit_xor_self =
    halves (λ a. bit_xor a a ≡ 0) (zero-bit_xor 0)
      (λ n ih. omega (arith, bit_xor_step (suc n) (suc n)))
