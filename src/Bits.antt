-- ===== src/Bits.antt =====
-- The bits of a number, and how `&`, `|` and `^` of the program act on each of them.
mod Step
use Prim.Native.Nat.{min, max}
use native.Mathlib.Nat.{pow-suc}
use chatd.Base.{
  ℕ, zero, suc, ◌+◌, ◌*◌, ◌/◌, ◌%◌, ◌^◌, ◌≤◌, ◌<◌, ◌≡◌, refl, arith, ◌==◌, if◌then◌else◌,
}
pub use Prim.Native.Nat.{bit_and, bit_or, bit_xor}
use Step.{and_parts, or_parts, xor_parts}

-- Bit `k` of `a`.
unfoldable pub bit : ℕ → ℕ → ℕ
bit zero a = a % 2
bit (suc k) a = bit k (a / 2)

pub bit-lt-two : (k a : ℕ) → bit k a < 2
unfolding bit
bit-lt-two zero a = omega arith
bit-lt-two (suc k) a = bit-lt-two k (a / 2)

pub bit_or_suc : (a b : ℕ) → bit_or a b ≡ bit_or (a / 2) (b / 2) * 2 + max (a % 2) (b % 2)
bit_or_suc a b = omega (arith, or_parts a b)

pub bit-and : (k a b : ℕ) → bit k (bit_and a b) ≡ min (bit k a) (bit k b)
unfolding bit
bit-and zero a b = (and_parts a b).1
bit-and (suc k) a b = rw (and_parts a b).0 (bit-and k (a / 2) (b / 2))

pub bit-or : (k a b : ℕ) → bit k (bit_or a b) ≡ max (bit k a) (bit k b)
unfolding bit
bit-or zero a b = (or_parts a b).1
bit-or (suc k) a b = rw (or_parts a b).0 (bit-or k (a / 2) (b / 2))

pub bit-xor : (k a b : ℕ) → bit k (bit_xor a b) ≡ (bit k a + bit k b) % 2
unfolding bit
bit-xor zero a b = (xor_parts a b).1
bit-xor (suc k) a b = rw (xor_parts a b).0 (bit-xor k (a / 2) (b / 2))

-- Numbers with the same bits are equal.
ext_fuel : (n a b : ℕ) → a ≤ n → b ≤ n → ((k : ℕ) → bit k a ≡ bit k b) → a ≡ b
unfolding bit
ext_fuel zero a b p q h = omega arith
ext_fuel (suc n) a b p q h =
    omega (arith, ext_fuel n (a / 2) (b / 2) (omega arith) (omega arith) (λ k. h (suc k)), h zero)

pub bit_ext : (a b : ℕ) → ((k : ℕ) → bit k a ≡ bit k b) → a ≡ b
bit_ext a b h = ext_fuel (a + b) a b (omega arith) (omega arith) h

-- `1 << k` has bit `k` and no other.
pub bit-zero : (k : ℕ) → bit k 0 ≡ 0
unfolding bit
bit-zero zero = refl
bit-zero (suc k) = bit-zero k

pub bit-one_shift : (k j : ℕ) → bit j (2 ^ k) ≡ (if k == j then 1 else 0)
unfolding bit
bit-one_shift zero zero = refl
bit-one_shift zero (suc j) = ground (arith, bit-zero j)
bit-one_shift (suc k) zero = grind (arith, pow-suc 2 k)
bit-one_shift (suc k) (suc j) =
    let e : 2 ^ suc k / 2 ≡ 2 ^ k = omega (arith, pow-suc 2 k) in
    rw e (ground (arith, bit-one_shift k j))
