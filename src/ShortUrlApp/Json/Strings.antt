-- ===== src/ShortUrlApp/Json/Strings.antt =====
-- Reading a field back from an object that holds it, escapes included.
use mini_net.Prelude.{
  ℕ, ◌≡◌, refl, sym, ap, ◌∙◌, true, false, [], ◌∷◌, ◌++◌, some, Bytes, ◌==◌, ==_refl, if◌then◌else◌,
  append_assoc, append-nil, arith, drop-append,
}
use mini_net.Ctype.{starts_with}
use mini_net.HttpParser.{after_mark}
use mini_net.ShortUrlApp.Json.{
  value, string_step, escape_step, read_string, read_value, read_field, skip_blanks, after_needle,
  first_byte, last_byte, is_object, is_json_space, json_extract_string,
}

-- The escapes of RFC 8259 that are a letter or the byte itself.
json_escape_byte : ℕ → Bytes
json_escape_byte c =
    if c == b'"'
    then b'\\' ∷ b'"' ∷ []
    else if c == b'\\'
    then b'\\' ∷ b'\\' ∷ []
    else if c == 10
    then b'\\' ∷ b'n' ∷ []
    else if c == 9
    then b'\\' ∷ b't' ∷ []
    else if c == 13
    then b'\\' ∷ b'r' ∷ []
    else if c == 8
    then b'\\' ∷ b'b' ∷ []
    else if c == 12
    then b'\\' ∷ b'f' ∷ []
    else c ∷ []

pub json_escape : Bytes → Bytes
unfolding json_escape_byte
json_escape [] = []
json_escape (c ∷ s) = json_escape_byte c ++ json_escape s

-- {"<key>":"<v>"}
pub json_object : Bytes → Bytes → Bytes
unfolding json_escape
json_object key v = b'{' ∷ b'"' ∷ (key ++ b'"' ∷ b':' ∷ b'"' ∷ (json_escape v ++ b'"' ∷ b'}' ∷ []))

read_string-escape_byte :
    (c : ℕ) (d : ℕ) (rest out : Bytes)
    → read_string 0 (json_escape_byte c ++ d ∷ rest) out ≡ read_string 0 (d ∷ rest) (out ++ c ∷ [])
unfolding read_string string_step escape_step json_escape_byte
read_string-escape_byte c d rest out = ground arith

read_string-close : (rest out : Bytes) → read_string 0 (b'"' ∷ rest) out ≡ value out
unfolding read_string string_step
read_string-close [] out = refl
read_string-close (c ∷ rest) out = refl

append-cons : (xs ys : Bytes) (c : ℕ) → (d : ℕ) × (r : Bytes) × (xs ++ c ∷ ys ≡ d ∷ r)
append-cons [] ys c = (c, ys, refl)
append-cons (x ∷ xs) ys c = (x, xs ++ c ∷ ys, refl)

-- The string reader undoes the escapes, and stops at the closing quote.
read_string-escape :
    (s out rest : Bytes) → read_string 0 (json_escape s ++ b'"' ∷ rest) out ≡ value (out ++ s)
unfolding json_escape
read_string-escape [] out rest = read_string-close rest out ∙ ap value (sym (append-nil out))
read_string-escape (c ∷ s) out rest =
    let (d, r, e) = append-cons (json_escape s) rest b'"' in
    ap (λ t. read_string 0 t out) (append_assoc (json_escape_byte c) (json_escape s) (b'"' ∷ rest))
    ∙ ap (λ t. read_string 0 (json_escape_byte c ++ t) out) e
    ∙ read_string-escape_byte c d r out
    ∙ ap (λ t. read_string 0 t (out ++ c ∷ [])) (sym e)
    ∙ read_string-escape s (out ++ c ∷ []) rest
    ∙ ap value (append_assoc out (c ∷ []) s)

starts_with-append : (p s : Bytes) → starts_with p (p ++ s) ≡ true
starts_with-append [] s = refl
starts_with-append (c ∷ p) s = rw ==_refl (starts_with-append p s)

last_byte-append : (s : Bytes) (c : ℕ) → is_json_space c ≡ false → last_byte (s ++ c ∷ []) ≡ some c
unfolding last_byte
last_byte-append [] c h = rw h
last_byte-append (x ∷ s) c h = rw (last_byte-append s c h)

after_needle-append : (c : ℕ) (n s : Bytes) → after_needle (c ∷ n) ((c ∷ n) ++ s) ≡ some s
unfolding after_needle
after_needle-append c n s = rw (==_refl, starts_with-append n s) (ap some (drop-append (c ∷ n) s))

-- The object's text behind its key.
abbrev behind_key : Bytes → Bytes
behind_key v = b':' ∷ b'"' ∷ (json_escape v ++ b'"' ∷ b'}' ∷ [])

is_object-json_object : (key v : Bytes) → is_object (json_object key v) ≡ true
unfolding is_object json_object first_byte
is_object-json_object key v =
    let front = b'{' ∷ b'"' ∷ (key ++ b'"' ∷ b':' ∷ b'"' ∷ (json_escape v ++ b'"' ∷ [])) in
    let e : json_object key v ≡ front ++ b'}' ∷ [] = simp append_assoc in
    rw (e, last_byte-append front b'}' refl)

after_needle-json_object :
    (key v : Bytes)
    → after_needle (b'"' ∷ (key ++ b'"' ∷ [])) (json_object key v) ≡ some (behind_key v)
unfolding json_object
after_needle-json_object key v =
    let e : key ++ b'"' ∷ behind_key v ≡ (key ++ b'"' ∷ []) ++ behind_key v = simp append_assoc in
    ap (λ t. after_needle (b'"' ∷ (key ++ b'"' ∷ [])) (b'{' ∷ b'"' ∷ t)) e
    ∙ (unfold after_needle in after_needle-append b'"' (key ++ b'"' ∷ []) (behind_key v))

-- Whatever key and bytes an object is made of, the field is read back.
pub json_extract_string-json_object :
    (key v : Bytes) → json_extract_string (json_object key v) key ≡ value v
unfolding json_extract_string read_field read_value skip_blanks after_mark
json_extract_string-json_object key v =
    rw (is_object-json_object key v, after_needle-json_object key v)
      (read_string-escape v [] (b'}' ∷ []))
