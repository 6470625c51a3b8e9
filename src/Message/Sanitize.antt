-- ===== src/Message/Sanitize.antt =====
-- src/message.rs: what `Message::sanitize_text_message` makes of a text.
use chatd.Base.{ℕ, Bool, false, ◌≡◌, refl, [], ◌∷◌, ◌++◌, ◌==◌, ◌||◌, arith}
use chatd.Text.{Text, lit, replace}
use chatd.Message.{sanitize_text_message}

unfoldable pub occurs : ℕ → Text → Bool
occurs c [] = false
occurs c (x ∷ s) = x == c || occurs c s

occurs-append : (c : ℕ) (r s : Text) → occurs c (r ++ s) ≡ (occurs c r || occurs c s)
unfolding occurs
occurs-append c [] s = refl
occurs-append c (x ∷ r) s = ground (arith, occurs-append c r s)

-- A replaced character is gone if the replacement has none of it.
replaced : (c : ℕ) (r s : Text) → occurs c r ≡ false → occurs c (replace c r s) ≡ false
unfolding occurs replace
replaced c r [] h = refl
replaced c r (x ∷ s) h = ground (arith, replaced c r s h, occurs-append c r (replace c r s))

-- Any other character stays away if the replacement has none of it.
kept_out :
    (c d : ℕ) (r s : Text)
    → occurs d r ≡ false
    → occurs d s ≡ false
    → occurs d (replace c r s) ≡ false
unfolding occurs replace
kept_out c d r [] h g = refl
kept_out c d r (x ∷ s) h g = ground (arith, kept_out c d r s h, occurs-append d r (replace c r s))

-- A sanitized text holds neither `<` (60) nor `>` (62), whatever the text was.
pub sanitize_text_message-has_no_tag :
    (s : Text)
    → (occurs 60 (sanitize_text_message s) ≡ false) × (occurs 62 (sanitize_text_message s) ≡ false)
unfolding sanitize_text_message lit occurs
sanitize_text_message-has_no_tag s = (
  kept_out 62 60 (lit "&gt;") _ refl (replaced 60 (lit "&lt;") s refl),
  replaced 62 (lit "&gt;") _ refl,
)
