-- ===== src/EchoBench/Responses/ReadBack.antt =====
-- The client reads every response that the server writes, and finds where it ends.
use mini_net.Prelude.{
  ℕ, ◌+◌, ◌%◌, ◌^◌, ◌<◌, ◌≤◌, ◌≡◌, refl, sym, ap, ◌∙◌, Bool, true, false, ◌||◌, List, [], ◌∷◌, ◌++◌,
  append_assoc, append-nil, none, some, Bytes, text, ◌==◌, ltb, arith, length, length-append, drop,
}
use mini_net.Buffer.Search.{Lacks}
use mini_net.Ctype.{starts_with, ℤ, pos, strtol, contains}
use mini_net.Ctype.Decimal.{print_decimal}
use mini_net.Ctype.Decimal.ReadBack.{
  AllDigits, print_decimal-AllDigits, print_decimal-ne-nil, strtol-print_decimal,
}
use mini_net.HttpTypes.{HttpResponse, reason, serialize}
use mini_net.EchoBench.Helpers.{
  trim, trim_end, keep_last, skip_blanks, is_blank, atoi, atoll, to_int,
}
use mini_net.EchoBench.Responses.Lines.{ended, joined, cut-Lacks, cut-ended, split_lines-joined}
use mini_net.EchoBench.Responses.Written.{
  IsPlainHeader, ArePlain, IsWritable, status_line, length_line, type_line, connection_line,
  header_lines, lines_of, eol, serialize-ended, status_IsLine, lines_of-AreLines,
}
use mini_net.EchoBench.Responses.{
  complete, Framing, no_framing, cut, lower, read_field, read_line, read_lines, split_lines,
  frame_body, check_status, read_head, parse_one,
}

-- What the client makes of the lines.
read_line_named :
    (k v : Bytes) (f : Framing)
    → Lacks b':' k
    → read_line (k ++ (b':' ∷ v)) f ≡ read_field (lower k) (trim v) f
unfolding read_line cut
read_line_named k v f h =
    ap (λ o. elim o [ none ↦ f | some (key, val) ↦ read_field (lower key) (trim val) f ])
      (cut-Lacks b':' [] k (b':' ∷ v) h)
    ∙ ap (λ (x : Bytes). read_field (lower x) (trim v) f) (append-nil k)

trim_end_digits : (s : Bytes) → AllDigits s → trim_end s ≡ s
unfolding trim_end keep_last
trim_end_digits [] h = refl
trim_end_digits (c ∷ []) (d, h) = let e : (is_blank c || c == b'\r') ≡ false = ground arith in rw e
trim_end_digits (c ∷ d ∷ s) (a, h) = rw (trim_end_digits (d ∷ s) h)

trim_digits : (s : Bytes) → AllDigits s → 0 < length s → trim (b' ' ∷ s) ≡ s
unfolding trim skip_blanks
trim_digits [] h k = absurd (omega (arith, k))
trim_digits (c ∷ s) (d, h) k =
    let e : is_blank c ≡ false = ground arith in rw e (trim_end_digits (c ∷ s) (d, h))

atoll-print_decimal : (n : ℕ) → n < 2 ^ 63 → atoll (print_decimal n) ≡ pos n
unfolding atoll
atoll-print_decimal n h =
    ap (λ o. elim o [ none ↦ pos 0 | some v ↦ v ])
      (ap strtol (sym (append-nil (print_decimal n))) ∙ strtol-print_decimal n [] h refl)

read_length :
    (n : ℕ) (f : Framing)
    → n < 2 ^ 63
    → read_line (text "Content-Length: " ++ print_decimal n) f ≡ record f { content_length = pos n }
unfolding read_line read_field cut text contains
read_length n f h =
    ap (λ (v : ℤ). record f { content_length = v })
      (ap atoll (trim_digits (print_decimal n) (print_decimal-AllDigits n) (print_decimal-ne-nil n))
        ∙ atoll-print_decimal n h)

read_type : (v : Bytes) (f : Framing) → read_line (text "Content-Type: " ++ v) f ≡ f
unfolding read_line read_field cut text contains
read_type v f = refl

read_connection : (alive : Bool) (f : Framing) → read_line (connection_line alive) f ≡ f
unfolding read_line read_field cut text contains
read_connection true f = refl
read_connection false f = refl

plain_line :
    (k v : Bytes) (f : Framing) → IsPlainHeader k v → read_line (k ++ (text ": " ++ v)) f ≡ f
unfolding text read_field
plain_line k v f p =
    read_line_named k (b' ' ∷ v) f p.named ∙ rw (p.no_length, p.no_coding, read_field)

read_plain :
    (hs : List (Bytes × Bytes)) (f : Framing) → ArePlain hs → read_lines (header_lines hs) f ≡ f
unfolding read_lines
read_plain [] f h = refl
read_plain ((k, v) ∷ rest) f (p, h) =
    ap (read_lines (header_lines rest)) (plain_line k v f p) ∙ read_plain rest f h

read_lines_of :
    (r : HttpResponse)
    → IsWritable r
    → read_lines (lines_of r) no_framing
      ≡ record { content_length = pos (length r.body); chunked = false }
unfolding read_lines
read_lines_of r w =
    ap
      (λ f.
        read_lines (header_lines r.extra_headers)
          (read_line (connection_line r.keep_alive) (read_line (type_line r) f)))
      (read_length (length r.body) no_framing w.body_fits)
    ∙ ap
        (λ f.
          read_lines (header_lines r.extra_headers) (read_line (connection_line r.keep_alive) f))
        (read_type r.content_type _)
    ∙ ap (read_lines (header_lines r.extra_headers)) (read_connection r.keep_alive _)
    ∙ read_plain r.extra_headers _ w.plain

length-joined :
    (l : Bytes) (lines : List Bytes) → length (ended (l ∷ lines)) ≡ length (joined l lines) + 2
length-joined l [] = length-append l eol
length-joined l (m ∷ lines) = omega (
  arith,
  length-append l (b'\r' ∷ b'\n' ∷ ended (m ∷ lines)),
  length-append l (b'\r' ∷ b'\n' ∷ joined m lines),
  length-joined m lines,
)

-- The two functions, where their tests are known.
parse_one_is :
    (s head after : Bytes)
    → ltb (length s) 16 ≡ false
    → cut (text "\r\n\r\n") s ≡ some (head, after)
    → parse_one s ≡ read_head s (split_lines head) (length head + 4) (length after)
unfolding parse_one
parse_one_is s head after e c = rw (e, c, parse_one)

read_head_is :
    (s line : Bytes) (lines : List Bytes) (before behind : ℕ) (protocol after : Bytes) (status : ℕ)
    → (length line == 0) ≡ false
    → starts_with (text "HTTP/") s ≡ true
    → cut (b' ' ∷ []) line ≡ some (protocol, after)
    → check_status (atoi (drop (length protocol + 1) s)) ≡ some status
    → read_head s (line ∷ lines) before behind
      ≡ frame_body status before behind (read_lines lines no_framing)
unfolding read_head
read_head_is s line lines before behind protocol after status e h c k = rw (e, h, c, k, read_head)

blank_text : text "\r\n\r\n" ≡ b'\r' ∷ b'\n' ∷ b'\r' ∷ b'\n' ∷ []
unfolding text
blank_text = refl

status_kept : (n : ℕ) → 100 ≤ n → n ≤ 599 → check_status (to_int (pos n)) ≡ some n
unfolding check_status
status_kept n low high =
    let small : n % 2 ^ 32 ≡ n = omega (arith, high) in
    let positive : ltb n (2 ^ 31) ≡ true = ground (arith, high) in
    let not_low : ltb n 100 ≡ false = ground (arith, low) in
    let not_high : ltb 599 n ≡ false = ground (arith, high) in
    rw (small, positive, not_low, not_high)

read_status :
    (n : ℕ) (rest : Bytes)
    → 100 ≤ n
    → n ≤ 599
    → check_status (atoi (print_decimal n ++ (b' ' ∷ rest))) ≡ some n
unfolding check_status atoi atoll
read_status n rest low high =
    ap (λ o. check_status (to_int (elim o [ none ↦ pos 0 | some v ↦ v ])))
      (strtol-print_decimal n (b' ' ∷ rest) (omega (arith, high)) refl)
    ∙ status_kept n low high

status_fields :
    (r : HttpResponse)
    → cut (b' ' ∷ []) (status_line r)
      ≡ some (text "HTTP/1.1", print_decimal r.status ++ (text " " ++ reason r.status))
unfolding text cut
status_fields r = refl

-- The text is its lines, a blank line, and what follows.
text_lines :
    (r : HttpResponse) (rest : Bytes)
    → IsWritable r
    → serialize r ++ rest ≡ ended (status_line r ∷ lines_of r) ++ (b'\r' ∷ b'\n' ∷ (r.body ++ rest))
text_lines r rest w =
    ap (λ (x : Bytes). x ++ rest) (serialize-ended r w)
    ∙ append_assoc (ended (status_line r ∷ lines_of r)) (eol ++ r.body) rest

status_first :
    (r : HttpResponse) (behind : Bytes)
    → ended (status_line r ∷ lines_of r) ++ behind
      ≡ text "HTTP/1.1 "
        ++ (print_decimal r.status
            ++ (b' ' ∷ (reason r.status ++ (eol ++ (ended (lines_of r) ++ behind)))))
unfolding text
status_first r behind = simp append_assoc

status_read :
    (r : HttpResponse) (rest : Bytes)
    → IsWritable r
    → (starts_with (text "HTTP/") (serialize r ++ rest) ≡ true)
      × (check_status (atoi (drop 9 (serialize r ++ rest))) ≡ some r.status)
unfolding text
status_read r rest w =
    let e = text_lines r rest w ∙ status_first r _ in
    (
      ap (starts_with (text "HTTP/")) e,
      ap (λ (x : Bytes). check_status (atoi (drop 9 x))) e
          ∙ read_status r.status _ w.at_least w.at_most,
    )

status_long : (r : HttpResponse) → (length (status_line r) == 0) ≡ false
unfolding text
status_long r = ground (
  arith,
  length-append (text "HTTP/1.1 ") (print_decimal r.status ++ (text " " ++ reason r.status)),
)

body_read :
    (status before behind need : ℕ)
    → need ≤ behind
    → frame_body status before behind (record { content_length = pos need; chunked = false })
      ≡ complete status (before + need)
unfolding frame_body
body_read status before behind need h = let e : ltb behind need ≡ false = ground (arith, h) in rw e

length_serialized :
    (r : HttpResponse)
    → IsWritable r
    → length (joined (status_line r) (lines_of r)) + 4 + length r.body ≡ length (serialize r)
length_serialized r w = omega (
  arith,
  ap (λ (x : Bytes). length x) (serialize-ended r w),
  length-append (ended (status_line r ∷ lines_of r)) (eol ++ r.body),
  length-joined (status_line r) (lines_of r),
)

serialized_length :
    (r : HttpResponse) (rest : Bytes) → IsWritable r → 16 ≤ length (serialize r ++ rest)
unfolding text
serialized_length r rest w = omega (
  arith,
  length-append (serialize r) rest,
  ap (λ (x : Bytes). length x) (serialize-ended r w),
  length-append (ended (status_line r ∷ lines_of r)) (eol ++ r.body),
  length-append (status_line r) (b'\r' ∷ b'\n' ∷ ended (lines_of r)),
  length-append (text "HTTP/1.1 ") (print_decimal r.status ++ (text " " ++ reason r.status)),
  length-append (length_line r) (
      b'\r'
      ∷ b'\n'
      ∷ ended (type_line r ∷ connection_line r.keep_alive ∷ header_lines r.extra_headers)),
  length-append (text "Content-Length: ") (print_decimal (length r.body)),
)

long_enough :
    (r : HttpResponse) (rest : Bytes) → IsWritable r → ltb (length (serialize r ++ rest)) 16 ≡ false
unfolding text
long_enough r rest w = ground (arith, serialized_length r rest w)

-- The client reads a response that the server has written, whatever bytes follow it: it finds the
-- status, and takes exactly the bytes of that response. The status is from 100 to 599, the lines have
-- no \r of their own, the further headers are not Content-Length or Transfer-Encoding, and the body
-- has less than 2^63 bytes.
pub parse_one-serialize :
    (r : HttpResponse) (rest : Bytes)
    → IsWritable r
    → parse_one (serialize r ++ rest) ≡ complete r.status (length (serialize r))
unfolding text
parse_one-serialize r rest w =
    let s = serialize r ++ rest in
    let head = joined (status_line r) (lines_of r) in
    let (is_http, number) = status_read r rest w in
    parse_one_is s head (r.body ++ rest) (long_enough r rest w) (
      ap (cut _) (text_lines r rest w)
      ∙ cut-ended (status_line r) (lines_of r) (r.body ++ rest) (status_IsLine r)
          (lines_of-AreLines r w))
    ∙ ap (λ (x : List Bytes). read_head s x (length head + 4) (length (r.body ++ rest)))
        (split_lines-joined (status_line r) (lines_of r) (status_IsLine r) (lines_of-AreLines r w))
    ∙ read_head_is s (status_line r) (lines_of r) _ _ _ _ r.status (status_long r) is_http
        (status_fields r) number
    ∙ ap (frame_body r.status (length head + 4) (length (r.body ++ rest))) (read_lines_of r w)
    ∙ body_read r.status _ _ _ (omega (arith, length-append r.body rest))
    ∙ ap (complete r.status) (length_serialized r w)
