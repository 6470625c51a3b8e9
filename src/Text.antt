-- ===== src/Text.antt =====
-- Text as the list of its code points, with the standard library's operations that the program
-- uses on it.
use Prim.Native.Char.{code}
use Prim.Native.String.{String}
use chatd.Base.{
  ℕ, zero, suc, ◌≡◌, refl, ◌↔◌, Bool, true, false, ◌&&◌, ◌||◌, List, [], ◌∷◌, ◌++◌, arith, ◌==◌,
  leb, if◌then◌else◌, length,
}

abbrev pub Text : Type 0
Text = List ℕ

-- `[u8]`
abbrev pub Bytes : Type 0
Bytes = List ℕ

-- A literal of the source. It is shut, so that a text of fifty letters stays one name in a proof.
unfoldable pub lit : String → Text
lit String.[] = []
lit (String.◌∷◌ c s) = code c ∷ lit s

unfoldable pub text_eq : Text → Text → Bool
text_eq [] [] = true
text_eq [] (d ∷ t) = false
text_eq (c ∷ s) [] = false
text_eq (c ∷ s) (d ∷ t) = c == d && text_eq s t

pub text_eq_iff : (s t : Text) → (text_eq s t ≡ true) ↔ (s ≡ t)
unfolding text_eq
text_eq_iff [] [] = (λ h. refl, λ h. refl)
text_eq_iff [] (d ∷ t) = ground arith
text_eq_iff (c ∷ s) [] = ground arith
text_eq_iff (c ∷ s) (d ∷ t) = ground (arith, text_eq_iff s t)

-- `str::replace` of a single character.
unfoldable pub replace : ℕ → Text → Text → Text
replace c r [] = []
replace c r (x ∷ s) = let rest = replace c r s in if x == c then r ++ rest else x ∷ rest

-- The test `[a-zA-Z0-9 -]` of the name patterns.
unfoldable pub is_name_char : ℕ → Bool
is_name_char c =
    leb b'a' c && leb c b'z'
    || leb b'A' c && leb c b'Z'
    || leb b'0' c && leb c b'9'
    || c == b' '
    || c == b'-'

unfoldable pub all_name_chars : Text → Bool
all_name_chars [] = true
all_name_chars (c ∷ s) = is_name_char c && all_name_chars s

-- A match of `^[a-zA-Z0-9 -]{lo,hi}$`.
unfoldable pub is_match : ℕ → ℕ → Text → Bool
is_match lo hi s = leb lo (length s) && leb (length s) hi && all_name_chars s

-- The character classes of the pattern of a `Uuid`: `[0-9a-f]`, `[89ab]`, one character.
pub data CharClass : Type 0 where
  hex : CharClass
  variant : CharClass
  exactly : ℕ → CharClass

unfoldable pub in_class : CharClass → ℕ → Bool
in_class hex c = leb b'0' c && leb c b'9' || leb b'a' c && leb c b'f'
in_class variant c = c == b'8' || c == b'9' || c == b'a' || c == b'b'
in_class (exactly k) c = c == k

unfoldable pub times : ℕ → CharClass → List CharClass
times zero k = []
times (suc n) k = k ∷ times n k

-- A match at the beginning, with anything behind it.
unfoldable pub matches_prefix : List CharClass → Text → Bool
matches_prefix [] s = true
matches_prefix (k ∷ ks) [] = false
matches_prefix (k ∷ ks) (c ∷ s) = in_class k c && matches_prefix ks s

-- `^[0-9a-f]{8}-[0-9a-f]{4}-4[0-9a-f]{3}-[89ab][0-9a-f]{3}-[0-9a-f]{12}`
unfoldable pub is_uuid_v4 : Text → Bool
is_uuid_v4 = matches_prefix (
    times 8 hex
    ++ (exactly b'-' ∷ times 4 hex)
    ++ (exactly b'-' ∷ exactly b'4' ∷ times 3 hex)
    ++ (exactly b'-' ∷ variant ∷ times 3 hex)
    ++ (exactly b'-' ∷ times 12 hex))
