-- ===== src/Auth/Hash.antt =====
-- The stored form of a password: the bytes of its hash in hexadecimal digits.
use chatd.Base.{
  ℕ, ◌+◌, ◌-◌, ◌*◌, ◌/◌, ◌%◌, ◌<◌, ◌≡◌, refl, ap, sym, ◌∙◌, List, [], ◌∷◌, ◌++◌, All, arith, ltb,
  if◌then◌else◌, length,
}
use chatd.Text.{Text, lit}
use chatd.Auth.{hex_digit, hex, hash_password}

unfoldable pub digit_of : ℕ → ℕ
digit_of c = if ltb c b'a' then c - b'0' else c - b'a' + 10

-- Reads pairs of hexadecimal digits.
unfoldable pub unhex : Text → List ℕ
unhex [] = []
unhex (c ∷ []) = []
unhex (c ∷ d ∷ s) = (digit_of c * 16 + digit_of d) ∷ unhex s

abbrev pub IsByte : ℕ → Type 0
IsByte b = b < 256

digit_of-hex_digit : (d : ℕ) → d < 16 → digit_of (hex_digit d) ≡ d
unfolding digit_of hex_digit
digit_of-hex_digit d h = ground arith

byte_back :
    (b : ℕ) → b < 256 → digit_of (hex_digit (b / 16)) * 16 + digit_of (hex_digit (b % 16)) ≡ b
byte_back b h =
    rw (digit_of-hex_digit (b / 16) (omega arith), digit_of-hex_digit (b % 16) (omega arith))
      (omega arith)

-- The digits of bytes give the bytes back.
pub unhex-hex : (bs : List ℕ) → All IsByte bs → unhex (hex bs) ≡ bs
unfolding unhex hex
unhex-hex [] h = refl
unhex-hex (b ∷ bs) (h, hs) = rw (byte_back b h, unhex-hex bs hs) refl

length-hex : (bs : List ℕ) → length (hex bs) ≡ 2 * length bs
unfolding hex
length-hex [] = omega arith
length-hex (b ∷ bs) = omega (arith, length-hex bs)

-- If the hash function gives bytes, then two passwords that are stored alike under one salt have
-- the same hash.
pub hash_password-injective :
    (sha256 : Text → List ℕ) (p q salt : Text)
    → ((t : Text) → All IsByte (sha256 t))
    → hash_password sha256 p salt ≡ hash_password sha256 q salt
    → sha256 (p ++ lit "+" ++ salt) ≡ sha256 (q ++ lit "+" ++ salt)
unfolding hash_password
hash_password-injective sha256 p q salt bytes h =
    sym (unhex-hex (sha256 (p ++ lit "+" ++ salt)) (bytes _))
    ∙ ap unhex h
    ∙ unhex-hex (sha256 (q ++ lit "+" ++ salt)) (bytes _)
