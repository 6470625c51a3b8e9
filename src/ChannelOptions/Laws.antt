-- ===== src/ChannelOptions/Laws.antt =====
-- The option sets, bit by bit: what a test, a union, a difference and the loops over `available`
-- do at every position.
use Prim.Native.Nat.{max}
use chatd.Base.{
  ℕ, ◌-◌, ◌^◌, Bool, false, ◌≡◌, refl, ap, inl, inr, List, [], ◌∷◌, arith, ◌==◌, ◌||◌, ltb,
  if◌then◌else◌, Bool-cases, ==_iff,
}
use chatd.Bits.{
  bit, bit-zero, bit-and, bit-or, bit-xor, bit_ext, bit-one_shift, bit-lt-two, bit_and, bit_or,
}
use chatd.ChannelOptions.{
  Options, or, xor, and, has_option, available, collect, get_options_from_u64,
}

masked : (k a : ℕ) → bit k a ≡ 1 → (j : ℕ) → bit j (bit_and a (2 ^ k)) ≡ bit j (2 ^ k)
masked k a h j = grind (arith, bit-and j a (2 ^ k), bit-one_shift k j, bit-lt-two j a)

-- The test of an option reads one bit.
pub has_option-bit : (k a : ℕ) → has_option a (2 ^ k) ≡ (bit k a == 1)
unfolding has_option and
has_option-bit k a = elim (Bool-cases (bit k a == 1)) [
  | inl set ↦
      let e : bit_and a (2 ^ k) ≡ 2 ^ k = bit_ext _ _ (masked k a ((==_iff _ _).0 set)) in
      rw set ((==_iff _ _).1 e)
  | inr clear ↦ ground (
    arith,
    λ (e : bit_and a (2 ^ k) ≡ 2 ^ k). ap (bit k) e,
    bit-and k a (2 ^ k),
    bit-one_shift k k,
    bit-lt-two k a,
  )
]

-- The options at the given positions.
unfoldable pub at : List ℕ → List Options
at [] = []
at (k ∷ ks) = 2 ^ k ∷ at ks

unfoldable pub member : ℕ → List ℕ → Bool
member j [] = false
member j (k ∷ ks) = k == j || member j ks

pub collect-bit :
    (modes j : ℕ) (ks : List ℕ) (options : Options)
    → bit j (collect modes (at ks) options)
      ≡ max (bit j options) (if member j ks then bit j modes else 0)
unfolding collect at member or
collect-bit modes j [] options = omega arith
collect-bit modes j (k ∷ ks) options = grind (
  arith,
  has_option-bit k modes,
  collect-bit modes j ks (if has_option modes (2 ^ k) then bit_or options (2 ^ k) else options),
  bit-or j options (2 ^ k),
  bit-one_shift k j,
  bit-lt-two j modes,
  bit-lt-two j options,
)

abbrev pub positions : List ℕ
positions = 0 ∷ 1 ∷ 2 ∷ 3 ∷ 4 ∷ 5 ∷ 6 ∷ 7 ∷ 8 ∷ 9 ∷ 10 ∷ 11 ∷ []

available-at : available ≡ at positions
unfolding at
available-at = refl

member-positions : (j : ℕ) → member j positions ≡ ltb j 12
unfolding member
member-positions j = ground arith

-- `get_options_from_u64` keeps the twelve bits of the options and drops all others.
pub get_options_from_u64-bit :
    (modes j : ℕ) → bit j (get_options_from_u64 modes) ≡ (if ltb j 12 then bit j modes else 0)
unfolding get_options_from_u64
get_options_from_u64-bit modes j =
    rw (available-at, collect-bit modes j positions 0, member-positions j, bit-zero j)
      (ground arith)

-- `or` of one option sets its bit and no other; `xor` flips it.
pub or-bit : (k j a : ℕ) → bit j (or a (2 ^ k)) ≡ (if k == j then 1 else bit j a)
unfolding or
or-bit k j a = grind (arith, bit-or j a (2 ^ k), bit-one_shift k j, bit-lt-two j a)

pub xor-bit : (k j a : ℕ) → bit j (xor a (2 ^ k)) ≡ (if k == j then 1 - bit j a else bit j a)
unfolding xor
xor-bit k j a = grind (arith, bit-xor j a (2 ^ k), bit-one_shift k j, bit-lt-two j a)
