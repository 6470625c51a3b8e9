-- ===== src/Commands/Modes/Laws.antt =====
-- What `set_channel_modes` does to the options of a channel, bit by bit.
use native.Mathlib.Nat.{pow-suc}
use chatd.Base.{
  ℕ, zero, suc, ◌+◌, ◌/◌, ◌^◌, ◌<◌, Bool-cases, inl, inr, ◌≡◌, refl, ap, List, [], ◌∷◌, arith, ◌==◌,
  ◌||◌, ltb, if◌then◌else◌,
}
use chatd.Bits.{bit, bit-lt-two, bit_or, bit_or_suc}
use chatd.ChannelOptions.{or, collect, available, has_option, get_options_from_u64}
use chatd.ChannelOptions.Laws.{at, get_options_from_u64-bit, has_option-bit, or-bit, xor-bit}
use chatd.Client.{Client, is_agent}
use chatd.Channel.{Channel, add_option, remove_option, set_options}
use chatd.Commands.Modes.{add_up, set_mode, set_public, change_modes}

-- `n` positions from `k` on.
range : ℕ → ℕ → List ℕ
range zero k = []
range (suc n) k = k ∷ range n (suc k)

or_above : (k a : ℕ) → a < 2 ^ k → bit_or a (2 ^ k) ≡ a + 2 ^ k
or_above zero zero h = refl
or_above zero (suc a) h = absurd (omega arith)
or_above (suc k) a h =
    let e : 2 ^ suc k / 2 ≡ 2 ^ k = omega (arith, pow-suc 2 k) in
    let ih : bit_or (a / 2) (2 ^ suc k / 2) ≡ a / 2 + 2 ^ k =
      rw e (or_above k (a / 2) (omega (arith, pow-suc 2 k))) in
    omega (arith, pow-suc 2 k, bit_or_suc a (2 ^ suc k), ih)

-- Below the positions that follow, the sum is the union.
add_up-range :
    (modes n k a : ℕ)
    → a < 2 ^ k
    → add_up modes (at (range n k)) a ≡ collect modes (at (range n k)) a
unfolding add_up collect at range or
add_up-range modes zero k a h = refl
add_up-range modes (suc n) k a h = elim (Bool-cases (has_option modes (2 ^ k))) [
  | inl set ↦
      rw (at, range, add_up, collect, set, or, or_above k a h)
        (add_up-range modes n (suc k) (a + 2 ^ k) (omega (arith, pow-suc 2 k)))
  | inr clear ↦
      rw (at, range, add_up, collect, clear)
        (add_up-range modes n (suc k) a (omega (arith, pow-suc 2 k)))
]

-- The number that `set_channel_modes` adds up from the options of `modes`, one by one, is the one
-- that `get_options_from_u64` makes of `modes` as a union.
pub add_up-collect : (modes : ℕ) → add_up modes available 0 ≡ get_options_from_u64 modes
unfolding at range get_options_from_u64
add_up-collect modes = add_up-range modes 12 0 0 (omega arith)

-- The options that the request is read as.
requested-bit :
    (modes j : ℕ)
    → bit j (get_options_from_u64 (add_up modes available 0))
      ≡ (if ltb j 12 then bit j modes else 0)
requested-bit modes j = grind (
  arith,
  get_options_from_u64-bit (add_up modes available 0) j,
  ap (bit j) (add_up-collect modes),
  get_options_from_u64-bit modes j,
)

-- One round of the loop makes the bit of its mode what was asked for, and keeps all others.
set_mode-bit :
    (options k j : ℕ) (ch : Channel)
    → bit j (set_mode options (2 ^ k) ch).options
      ≡ (if k == j then bit j options else bit j ch.options)
unfolding set_mode add_option remove_option
set_mode-bit options k j ch = grind (
  arith,
  has_option-bit k options,
  has_option-bit k ch.options,
  or-bit k j ch.options,
  xor-bit k j ch.options,
  bit-lt-two j options,
  bit-lt-two j ch.options,
)

-- What `set_channel_modes` makes of the options of a channel, at every bit: an agent gets all
-- twelve options as asked and no other bit; anyone else gets the bits 2 and 11, of `InviteOnly`
-- and `Secret`, as asked, and every other bit stays.
pub change_modes-bit :
    (me : Client) (modes j : ℕ) (ch : Channel)
    → bit j (change_modes me modes ch).options ≡ (
        if is_agent me
        then if ltb j 12 then bit j modes else 0
        else if 2 == j || 11 == j
        then bit j modes
        else bit j ch.options)
unfolding change_modes set_options set_public
change_modes-bit me modes j ch =
    let options = get_options_from_u64 (add_up modes available 0) in
    grind (
      arith,
      requested-bit modes j,
      set_mode-bit options 2 j ch,
      set_mode-bit options 11 j (set_mode options (2 ^ 2) ch),
    )
