-- ===== src/ShortUrlApp/Json/Utf8.antt =====
-- appendUtf8 against a decoder, and the \u escapes against the code points that they stand for.
use mini_net.Prelude.{
  ℕ, ◌+◌, ◌-◌, ◌*◌, ◌/◌, ◌%◌, ◌<◌, ◌≤◌, ◌≡◌, refl, ap, ◌∙◌, Bool, true, false, ◌&&◌, ◌||◌, not,
  ◌==◌, [], ◌∷◌, ◌++◌, Option, none, some, Bytes, ltb, leb, if◌then◌else◌, length, arith,
}
use mini_net.ShortUrlApp.Json.{
  append_utf8, hex_digit, hex_digits, hex4, unicode_escape, code_point, low_half, push, in_range,
}

-- RFC 3629: the number of bytes is in the first one, six bits are in each of the others. A code point
-- has one encoding, the shortest, and a surrogate has none.
abbrev is_tail : ℕ → Bool
is_tail c = leb 0x80 c && leb c 0xbf

pub utf8_decode : Bytes → Option ℕ
utf8_decode (a ∷ []) = if ltb a 0x80 then some a else none
utf8_decode (a ∷ b ∷ []) =
    if leb 0xc2 a && leb a 0xdf && is_tail b then some ((a - 0xc0) * 64 + (b - 0x80)) else none
utf8_decode (a ∷ b ∷ c ∷ []) =
    if leb 0xe0 a
      && leb a 0xef
      && is_tail b
      && is_tail c
      && (not (a == 0xe0) || leb 0xa0 b)
      && (not (a == 0xed) || leb b 0x9f)
    then some ((a - 0xe0) * 4096 + (b - 0x80) * 64 + (c - 0x80))
    else none
utf8_decode (a ∷ b ∷ c ∷ d ∷ []) =
    if leb 0xf0 a
      && leb a 0xf4
      && is_tail b
      && is_tail c
      && is_tail d
      && (not (a == 0xf0) || leb 0x90 b)
      && (not (a == 0xf4) || leb b 0x8f)
    then some ((a - 0xf0) * 262144 + (b - 0x80) * 4096 + (c - 0x80) * 64 + (d - 0x80))
    else none
utf8_decode _ = none

-- Every code point up to 0x10FFFF that is no surrogate is decoded from the bytes that appendUtf8
-- writes for it, by a decoder that takes the shortest encoding only; what it writes for a surrogate is
-- not UTF-8.
pub utf8_decode-append_utf8 :
    (cp : ℕ)
    → cp < 0x110000
    → utf8_decode (append_utf8 cp) ≡ (if in_range 0xd800 0xdfff cp then none else some cp)
unfolding utf8_decode append_utf8
utf8_decode-append_utf8 cp h = ground arith

-- Four hexadecimal digits, in lower case.
hex_letter : ℕ → ℕ
hex_letter d = if ltb d 10 then b'0' + d else b'a' + (d - 10)

pub hex4_print : ℕ → Bytes
unfolding hex_letter
hex4_print n =
    hex_letter (n / 4096 % 16)
    ∷ hex_letter (n / 256 % 16)
    ∷ hex_letter (n / 16 % 16)
    ∷ hex_letter (n % 16)
    ∷ []

hex_digit-hex_letter : (d : ℕ) → d < 16 → hex_digit (hex_letter d) ≡ some d
unfolding hex_digit hex_letter
hex_digit-hex_letter d h = ground arith

hex4-hex4_print : (n : ℕ) (rest : Bytes) → n < 65536 → hex4 (hex4_print n ++ rest) ≡ some n
unfolding hex4 hex_digits hex4_print
hex4-hex4_print n rest h = ground (
  arith,
  hex_digit-hex_letter (n / 4096 % 16) (omega arith),
  hex_digit-hex_letter (n / 256 % 16) (omega arith),
  hex_digit-hex_letter (n / 16 % 16) (omega arith),
  hex_digit-hex_letter (n % 16) (omega arith),
)

unicode_escape-hex4 :
    (n : ℕ) (rest : Bytes) → n < 65536 → unicode_escape (hex4_print n ++ rest) ≡ code_point n rest
unfolding unicode_escape
unicode_escape-hex4 n rest h =
    rw (hex4-hex4_print n rest h, unicode_escape) (ap (code_point n) (unfold hex4_print in refl))

code_point_plain :
    (cp : ℕ) (rest : Bytes)
    → in_range 0xd800 0xdbff cp ≡ false
    → code_point cp rest ≡ push (append_utf8 cp) 5
unfolding code_point
code_point_plain cp rest h = rw h

-- \uXXXX of a code point that is no surrogate gives that code point's UTF-8 bytes, and the reader
-- goes on behind the four digits.
unicode_escape-hex4_print :
    (cp : ℕ) (rest : Bytes)
    → cp < 0x10000
    → in_range 0xd800 0xdbff cp ≡ false
    → unicode_escape (hex4_print cp ++ rest) ≡ push (append_utf8 cp) 5
unicode_escape-hex4_print cp rest h plain =
    unicode_escape-hex4 cp rest (omega arith) ∙ code_point_plain cp rest plain

low_half_lem :
    (s : Bytes) (low : ℕ)
    → hex4 s ≡ some low
    → in_range 0xdc00 0xdfff low ≡ true
    → low_half (b'\\' ∷ b'u' ∷ s) ≡ some low
unfolding low_half
low_half_lem s low e h = rw (e, low_half) (rw h)

code_point_pair :
    (cp low : ℕ) (rest : Bytes)
    → in_range 0xd800 0xdbff cp ≡ true
    → leb 6 (length rest) ≡ true
    → low_half rest ≡ some low
    → code_point cp rest ≡ push (append_utf8 (0x10000 + ((cp - 0xd800) * 1024 + (low - 0xdc00)))) 11
unfolding code_point
code_point_pair cp low rest h k e = rw (h, k, e)

-- \uXXXX\uYYYY of the two halves of a code point above 0xFFFF gives that code point's UTF-8 bytes,
-- and the reader goes on behind the second half.
unicode_escape-pair :
    (cp : ℕ) (rest : Bytes)
    → 0x10000 ≤ cp
    → cp < 0x110000
    → let high = 0xd800 + (cp - 0x10000) / 1024 in
      let low = 0xdc00 + (cp - 0x10000) % 1024 in
      unicode_escape (hex4_print high ++ b'\\' ∷ b'u' ∷ (hex4_print low ++ rest))
      ≡ push (append_utf8 cp) 11
unicode_escape-pair cp rest lo hi =
    let high = 0xd800 + (cp - 0x10000) / 1024 in
    let low = 0xdc00 + (cp - 0x10000) % 1024 in
    let behind = b'\\' ∷ b'u' ∷ (hex4_print low ++ rest) in
    let sum : 0x10000 + ((high - 0xd800) * 1024 + (low - 0xdc00)) ≡ cp = omega arith in
    unicode_escape-hex4 high behind (omega arith)
    ∙ code_point_pair high low behind (ground arith) (unfold hex4_print in ground arith) (
        low_half_lem (hex4_print low ++ rest) low (hex4-hex4_print low rest (omega arith))
          (ground arith))
    ∙ ap (λ c. push (append_utf8 c) 11) sum
