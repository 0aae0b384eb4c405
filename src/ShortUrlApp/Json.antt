-- ===== src/ShortUrlApp/Json.antt =====
-- The JSON field reader of src/ShortUrlApp.cc. An index `i` into the body is the tail behind it.
pub mod Utf8
pub mod Strings
use mini_net.Prelude.{
  ℕ, zero, suc, ◌+◌, ◌-◌, ◌*◌, ◌/◌, ◌%◌, Bool, true, false, ◌&&◌, ◌||◌, [], ◌∷◌, ◌++◌, Option, none,
  some, Bytes, text, ltb, leb, ◌==◌, if◌then◌else◌, length, drop,
}
use mini_net.Ctype.{starts_with}
use mini_net.HttpParser.{after_mark}

unfoldable pub hex_digit : ℕ → Option ℕ
hex_digit c =
    if leb b'0' c && leb c b'9'
    then some (c - b'0')
    else if leb b'a' c && leb c b'f'
    then some (c - b'a' + 10)
    else if leb b'A' c && leb c b'F'
    then some (c - b'A' + 10)
    else none

-- v <<= 4; v |= digit;
unfoldable pub hex_digits : ℕ → ℕ → Bytes → Option ℕ
hex_digits zero v s = some v
hex_digits (suc k) v [] = none
hex_digits (suc k) v (c ∷ s) = elim (hex_digit c) [
  | none ↦ none
  | some d ↦ hex_digits k (v * 16 + d) s
]

-- hex4(s, i, &v), where the argument is s from i on.
unfoldable pub hex4 : Bytes → Option ℕ
hex4 s = if ltb (length s) 4 then none else hex_digits 4 0 s

-- The bytes that appendUtf8 appends for a code point below 2^21.
unfoldable pub append_utf8 : ℕ → Bytes
append_utf8 cp =
    if leb cp 0x7f
    then cp ∷ []
    else if leb cp 0x7ff
    then (0xc0 + cp / 64) ∷ (0x80 + cp % 64) ∷ []
    else if leb cp 0xffff
    then (0xe0 + cp / 4096) ∷ (0x80 + cp / 64 % 64) ∷ (0x80 + cp % 64) ∷ []
    else (0xf0 + cp / 262144)
      ∷ (0x80 + cp / 4096 % 64)
      ∷ (0x80 + cp / 64 % 64)
      ∷ (0x80 + cp % 64)
      ∷ []

pub data Extracted : Type 0 where
  value : Bytes → Extracted
  failed : Bytes → Extracted

abbrev pub is_json_space : ℕ → Bool
is_json_space c = c == b' ' || (c == b'\t' || (c == b'\r' || c == b'\n'))

-- body[body.find_first_not_of(" \t\r\n")]
unfoldable pub first_byte : Bytes → Option ℕ
first_byte [] = none
first_byte (c ∷ s) = if is_json_space c then first_byte s else some c

-- body[body.find_last_not_of(" \t\r\n")]
unfoldable pub last_byte : Bytes → Option ℕ
last_byte [] = none
last_byte (c ∷ s) = elim (last_byte s) [
  | some d ↦ some d
  | none ↦ if is_json_space c then none else some c
]

abbrev pub is_byte : ℕ → Option ℕ → Bool
is_byte c none = false
is_byte c (some d) = d == c

unfoldable pub is_object : Bytes → Bool
is_object body = is_byte b'{' (first_byte body) && is_byte b'}' (last_byte body)

-- What stands behind the first occurrence of `needle`.
unfoldable pub after_needle : Bytes → Bytes → Option Bytes
after_needle needle [] = none
after_needle needle (c ∷ s) =
    if starts_with needle (c ∷ s)
    then some (drop (length needle) (c ∷ s))
    else after_needle needle s

unfoldable pub skip_blanks : Bytes → Bytes
skip_blanks [] = []
skip_blanks (c ∷ s) = if c == b' ' || c == b'\t' then skip_blanks s else c ∷ s

-- What one round of the loop over the string does.
pub data Step : Type 0 where
  close : Step
  push : Bytes → ℕ → Step
  refuse : Bytes → Step

abbrev pub in_range : ℕ → ℕ → ℕ → Bool
in_range lo hi x = leb lo x && leb x hi

-- The low half of a surrogate pair, where the bytes behind the high half spell one.
unfoldable pub low_half : Bytes → Option ℕ
low_half [] = none
low_half (a ∷ []) = none
low_half (a ∷ b ∷ s) =
    if a == b'\\' && b == b'u'
    then elim (hex4 s) [
      | none ↦ none
      | some low ↦ if in_range 0xdc00 0xdfff low then some low else none
    ]
    else none

unfoldable pub code_point : ℕ → Bytes → Step
code_point cp rest =
    if in_range 0xd800 0xdbff cp && leb 6 (length rest)
    then elim (low_half rest) [
      | none ↦ push (append_utf8 cp) 5
      | some low ↦ push (append_utf8 (0x10000 + ((cp - 0xd800) * 1024 + (low - 0xdc00)))) 11
    ]
    else push (append_utf8 cp) 5

unfoldable pub unicode_escape : Bytes → Step
unicode_escape r = elim (hex4 r) [
  | none ↦ refuse (text "\\u 转义不完整")
  | some cp ↦ code_point cp (drop 4 r)
]

-- The switch on the byte behind a backslash; `push bytes k` also skips k bytes from that one on.
unfoldable pub escape_step : ℕ → Bytes → Step
escape_step e r =
    if e == b'n'
    then push (10 ∷ []) 1
    else if e == b't'
    then push (9 ∷ []) 1
    else if e == b'r'
    then push (13 ∷ []) 1
    else if e == b'b'
    then push (8 ∷ []) 1
    else if e == b'f'
    then push (12 ∷ []) 1
    else if e == b'u'
    then unicode_escape r
    else push (e ∷ []) 1

unfoldable pub string_step : ℕ → Bytes → Step
string_step c [] = if c == b'"' then close else push (c ∷ []) 0
string_step c (e ∷ r) =
    if c == b'"' then close else if c == b'\\' then escape_step e r else push (c ∷ []) 0

-- while (i < body.size() && body[i] != '"') { ... }, with the bytes that are still to be skipped.
unfoldable pub read_string : ℕ → Bytes → Bytes → Extracted
read_string skip [] out = failed (text "字符串没有结束引号")
read_string (suc k) (c ∷ s) out = read_string k s out
read_string zero (c ∷ s) out = elim (string_step c s) [
  | close ↦ value out
  | push bytes k ↦ read_string k s (out ++ bytes)
  | refuse detail ↦ failed detail
]

unfoldable pub read_value : Bytes → Bytes → Extracted
read_value key [] = failed (text "字段 " ++ (key ++ text " 必须是字符串"))
read_value key (c ∷ s) =
    if c == b'"' then read_string 0 s [] else failed (text "字段 " ++ (key ++ text " 必须是字符串"))

unfoldable pub read_field : Bytes → Option Bytes → Extracted
read_field key none = failed (text "缺少字段 " ++ key)
read_field key (some rest) = elim (after_mark b':' rest) [
  | none ↦ failed (text "字段格式非法")
  | some s ↦ read_value key (skip_blanks s)
]

unfoldable pub json_extract_string : Bytes → Bytes → Extracted
json_extract_string body key =
    if is_object body
    then read_field key (after_needle (b'"' ∷ (key ++ b'"' ∷ [])) body)
    else failed (text "请求体不是合法的 JSON 对象")
