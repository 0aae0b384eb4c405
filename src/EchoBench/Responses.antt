-- ===== src/EchoBench/Responses.antt =====
-- parseOne: a response at the front of what a connection has received. The text is what lies behind
-- in_off.
pub mod Bounds
pub mod Lines
pub mod Written
pub mod ReadBack
use mini_net.Prelude.{
  ℕ, zero, suc, ◌+◌, ◌-◌, ◌*◌, Bool, true, false, ◌&&◌, List, [], ◌∷◌, ◌++◌, Option, none, some,
  map, Bytes, text, bytes_eq, ltb, ◌==◌, if◌then◌else◌, length, drop,
}
use mini_net.Ctype.{ℤ, pos, negsuc, to_lower, starts_with, contains}
use mini_net.EchoBench.Helpers.{trim, atoi, atoll}

-- What the text of `err` says.
pub data Refusal : Type 0 where
  head_too_long not_http no_status bad_status chunked_body no_length : Refusal

-- `complete` has the status and the bytes up to the response's end.
pub data ParseResult : Type 0 where
  need_more : ParseResult
  complete : ℕ → ℕ → ParseResult
  refused : Refusal → ParseResult

abbrev pub max_header_bytes : ℕ
max_header_bytes = 64 * 1024

abbrev pub consed : ℕ → Option (Bytes × Bytes) → Option (Bytes × Bytes)
consed c none = none
consed c (some (before, after)) = some (c ∷ before, after)

-- find: what stands before the first `needle`, and behind it.
unfoldable pub cut : Bytes → Bytes → Option (Bytes × Bytes)
cut needle [] = none
cut needle (c ∷ s) =
    let later = consed c (cut needle s) in
    if starts_with needle (c ∷ s) then some ([], drop (length needle) (c ∷ s)) else later

-- Content-Length as far as it has been read, -1 at first, and whether the body is chunked.
pub record Framing : Type 0 where
  pub content_length : ℤ
  pub chunked : Bool

abbrev pub no_framing : Framing
no_framing = record { content_length = negsuc 0; chunked = false }

abbrev pub lower : Bytes → Bytes
lower s = map to_lower s

unfoldable pub read_field : Bytes → Bytes → Framing → Framing
read_field key val f =
    if bytes_eq key (text "content-length")
    then record f { content_length = atoll val }
    else if bytes_eq key (text "transfer-encoding") && contains (text "chunked") (lower val)
    then record f { chunked = true }
    else f

-- A line of the header section; one without a colon is passed over.
unfoldable pub read_line : Bytes → Framing → Framing
read_line line f = elim (cut (b':' ∷ []) line) [
  | none ↦ f
  | some (key, val) ↦ read_field (lower key) (trim val) f
]

-- The lines of a text between its line ends.
abbrev pub first_line : ℕ → List Bytes → List Bytes
first_line c [] = (c ∷ []) ∷ []
first_line c (l ∷ lines) = (c ∷ l) ∷ lines

unfoldable pub split_lines : Bytes → List Bytes
split_lines [] = [] ∷ []
split_lines (c ∷ []) = (c ∷ []) ∷ []
split_lines (c ∷ d ∷ s) =
    let next = [] ∷ split_lines s in
    let same = first_line c (split_lines (d ∷ s)) in if c == b'\r' && d == b'\n' then next else same

unfoldable pub read_lines : List Bytes → Framing → Framing
read_lines [] f = f
read_lines (l ∷ lines) f = read_lines lines (read_line l f)

-- With the header section read: the head has `before` bytes with its blank line.
unfoldable pub frame_body : ℕ → ℕ → ℕ → Framing → ParseResult
frame_body status before behind f =
    if f.chunked then refused chunked_body else elim (f.content_length) [
      | negsuc n ↦ refused no_length
      | pos need ↦ if ltb behind need then need_more else complete status (before + need)
    ]

unfoldable pub check_status : ℤ → Option ℕ
check_status (negsuc n) = none
check_status (pos n) = if ltb n 100 then none else if ltb 599 n then none else some n

-- The status line is the first line of the head; the status is read from behind the first space.
unfoldable pub read_head : Bytes → List Bytes → ℕ → ℕ → ParseResult
read_head s [] before behind = refused not_http
read_head s (line ∷ lines) before behind =
    if length line == 0
    then refused not_http
    else if starts_with (text "HTTP/") s
    then elim (cut (b' ' ∷ []) line) [
      | none ↦ refused no_status
      | some (protocol, after) ↦ elim (check_status (atoi (drop (length protocol + 1) s))) [
        | none ↦ refused bad_status
        | some status ↦ frame_body status before behind (read_lines lines no_framing)
      ]
    ]
    else refused not_http

unfoldable pub parse_one : Bytes → ParseResult
parse_one s = if ltb (length s) 16 then need_more else elim (cut (text "\r\n\r\n") s) [
  | none ↦ if ltb max_header_bytes (length s) then refused head_too_long else need_more
  | some (head, after) ↦ read_head s (split_lines head) (length head + 4) (length after)
]
