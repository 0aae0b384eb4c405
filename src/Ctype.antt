-- ===== src/Ctype.antt =====
-- The C and C++ library functions on bytes that the program calls, in the "C" locale: isspace,
-- tolower, toupper, isalnum, strtol, std::string::find and rfind, operator>> and printf's %d and %zu.
pub mod Decimal
use mini_net.Prelude.{
  ℕ, zero, suc, ◌+◌, ◌-◌, ◌*◌, ◌^◌, Bool, true, false, ◌&&◌, ◌||◌, List, [], ◌∷◌, Option, none,
  some, map, Bytes, leb, ltb, ◌==◌, if◌then◌else◌, min,
}

-- Space, \t, \n, \v, \f and \r.
abbrev pub is_space : ℕ → Bool
is_space c = c == b' ' || (leb 9 c && leb c 13)

abbrev pub is_upper : ℕ → Bool
is_upper c = leb b'A' c && leb c b'Z'

abbrev pub is_lower : ℕ → Bool
is_lower c = leb b'a' c && leb c b'z'

abbrev pub is_digit : ℕ → Bool
is_digit c = leb b'0' c && leb c b'9'

abbrev pub is_alnum : ℕ → Bool
is_alnum c = is_digit c || (is_upper c || is_lower c)

abbrev pub to_upper : ℕ → ℕ
to_upper c = if is_lower c then c - 32 else c

abbrev pub to_lower : ℕ → ℕ
to_lower c = if is_upper c then c + 32 else c

-- s.rfind(prefix, 0) == 0
abbrev pub starts_with : Bytes → Bytes → Bool
starts_with [] s = true
starts_with (p ∷ ps) [] = false
starts_with (p ∷ ps) (c ∷ s) = p == c && starts_with ps s

-- s.find(needle) != npos
unfoldable pub contains : Bytes → Bytes → Bool
contains needle [] = starts_with needle []
contains needle (c ∷ s) = starts_with needle (c ∷ s) || contains needle s

-- What operator>> skips, the word that it reads, and what it leaves.
unfoldable pub skip_spaces : Bytes → Bytes
skip_spaces [] = []
skip_spaces (c ∷ s) = if is_space c then skip_spaces s else c ∷ s

unfoldable pub word : Bytes → Bytes
word [] = []
word (c ∷ s) = if is_space c then [] else c ∷ word s

unfoldable pub after_word : Bytes → Bytes
after_word [] = []
after_word (c ∷ s) = if is_space c then c ∷ s else after_word s

-- iss >> token, which fails where no byte but spaces is left.
unfoldable pub extract : Bytes → Option (Bytes × Bytes)
unfolding skip_spaces word after_word
extract s = elim (skip_spaces s) [ [] ↦ none | ◌∷◌ c r ↦ some (word (c ∷ r), after_word (c ∷ r)) ]

-- `negsuc n` is -(n + 1).
pub data ℤ : Type 0 where
  pos : ℕ → ℤ
  negsuc : ℕ → ℤ

-- The value of the digits that a text begins with, behind `n`.
unfoldable pub leading_value : ℕ → Bytes → ℕ
leading_value n [] = n
leading_value n (c ∷ s) =
    let more = leading_value (n * 10 + (c - b'0')) s in if is_digit c then more else n

abbrev pub long_max : ℕ
long_max = 2 ^ 63 - 1

-- Values that a long cannot hold are clamped.
unfoldable pub as_long : Bool → ℕ → ℤ
as_long false n = pos (min n long_max)
as_long true zero = pos 0
as_long true (suc n) = negsuc (min n long_max)

digits_value : Bool → Bytes → Option ℤ
unfolding as_long leading_value
digits_value negative [] = none
digits_value negative (c ∷ s) =
    if is_digit c then some (as_long negative (leading_value 0 (c ∷ s))) else none

signed_value : Bytes → Option ℤ
unfolding digits_value
signed_value [] = none
signed_value (c ∷ s) =
    if c == b'-'
    then digits_value true s
    else if c == b'+'
    then digits_value false s
    else digits_value false (c ∷ s)

-- strtol(s, &endp, 10); `none` means endp == s.
unfoldable pub strtol : Bytes → Option ℤ
unfolding signed_value skip_spaces
strtol s = signed_value (skip_spaces s)

unfoldable pub skip_sign : Bytes → Bytes
skip_sign [] = []
skip_sign (c ∷ s) = if c == b'-' || c == b'+' then s else c ∷ s

unfoldable pub skip_digits : Bytes → Bytes
skip_digits [] = []
skip_digits (c ∷ s) = let rest = skip_digits s in if is_digit c then rest else c ∷ s

-- What endp points to, where a number is read.
unfoldable pub strtol_rest : Bytes → Bytes
unfolding skip_digits skip_sign skip_spaces
strtol_rest s = skip_digits (skip_sign (skip_spaces s))

-- Whether a number of this sign and these digits sets errno to ERANGE.
abbrev is_too_large : Bytes → Bytes → Bool
is_too_large [] digits = false
is_too_large (c ∷ s) digits =
    ltb (if c == b'-' then long_max + 1 else long_max) (leading_value 0 digits)

unfoldable pub strtol_overflows : Bytes → Bool
unfolding leading_value skip_sign skip_spaces
strtol_overflows s = is_too_large (skip_spaces s) (skip_sign (skip_spaces s))
