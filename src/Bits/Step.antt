-- ===== src/Bits/Step.antt =====
-- The native `bit_and`, `bit_or` and `bit_xor` are recursions on the binary digits with fuel; here
-- are the lowest digit and the rest of each, with the fuel gone.
use Prim.Native.Nat.{
  min, max, bit_and, bit_or, bit_xor, digits, bitwise, differ, bit_and-bitwise, bit_or-bitwise,
  bit_xor-bitwise,
}
use chatd.Base.{ℕ, zero, suc, ◌+◌, ◌/◌, ◌%◌, ◌≤◌, ◌<◌, ◌≡◌, refl, arith}

module _ (rest : ℕ → ℕ) (op : ℕ → ℕ → ℕ) where
  spent : (fuel y : ℕ) → digits rest op fuel 0 y ≡ rest y
  spent zero y = refl
  spent (suc fuel) y = refl

  enough :
      (x y fuel more : ℕ) → x ≤ fuel → x ≤ more → digits rest op fuel x y ≡ digits rest op more x y
  enough zero y fuel more p q = rw (spent fuel y, spent more y)
  enough (suc x) y zero more p q = absurd (omega arith)
  enough (suc x) y (suc fuel) zero p q = absurd (omega arith)
  enough (suc x) y (suc fuel) (suc more) p q =
      rw (enough (suc x / 2) (y / 2) fuel more (omega arith) (omega arith))

  -- The rest and the lowest digit of the result.
  parts :
      (x y : ℕ)
      → op (suc x % 2) (y % 2) < 2
      → (bitwise rest op (suc x) y / 2 ≡ bitwise rest op (suc x / 2) (y / 2))
        × (bitwise rest op (suc x) y % 2 ≡ op (suc x % 2) (y % 2))
  parts x y digit =
      let same = enough (suc x / 2) (y / 2) x (suc x / 2) (omega arith) (omega arith) in
      omega (arith, same, digit)

pub and_parts :
    (x y : ℕ)
    → (bit_and x y / 2 ≡ bit_and (x / 2) (y / 2)) × (bit_and x y % 2 ≡ min (x % 2) (y % 2))
and_parts zero y = simp bit_and-bitwise (omega arith)
and_parts (suc x) y = simp bit_and-bitwise (parts (λ d. 0) min x y (omega arith))

pub or_parts :
    (x y : ℕ) → (bit_or x y / 2 ≡ bit_or (x / 2) (y / 2)) × (bit_or x y % 2 ≡ max (x % 2) (y % 2))
or_parts zero y = simp bit_or-bitwise (omega arith)
or_parts (suc x) y = simp bit_or-bitwise (parts (λ d. d) max x y (omega arith))

differ_digits : (x y : ℕ) → x < 2 → y < 2 → differ x y ≡ (x + y) % 2
differ_digits zero y p q = omega arith
differ_digits (suc zero) zero p q = refl
differ_digits (suc zero) (suc zero) p q = refl
differ_digits (suc zero) (suc (suc y)) p q = absurd (omega arith)
differ_digits (suc (suc x)) y p q = absurd (omega arith)

pub xor_parts :
    (x y : ℕ)
    → (bit_xor x y / 2 ≡ bit_xor (x / 2) (y / 2)) × (bit_xor x y % 2 ≡ (x % 2 + y % 2) % 2)
xor_parts zero y = simp bit_xor-bitwise (omega arith)
xor_parts (suc x) y =
    let digit = differ_digits (suc x % 2) (y % 2) (omega arith) (omega arith) in
    simp (bit_xor-bitwise, ← digit) (parts (λ d. d) differ x y (omega (arith, digit)))
