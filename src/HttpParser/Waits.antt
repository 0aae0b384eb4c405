-- ===== src/HttpParser/Waits.antt =====
-- A step that asks for more bytes has taken none, and has changed nothing but header_bytes.
use mini_net.Prelude.{
  ℕ, ◌+◌, ◌≡◌, refl, Bool, true, false, Bytes, ltb, length, [], ◌∷◌, if◌then◌else◌, Bool-cases, inl,
  inr, Option, none, some, bytes_eq, text, drop,
}
use mini_net.Ctype.{starts_with, strtol, ℤ, pos, negsuc}
use mini_net.Buffer.{Buffer, readable_bytes}
use mini_net.Buffer.View.{IsValid}
use mini_net.Buffer.Lines.{line-cases}
use mini_net.HttpTypes.{HttpRequest, find_header}
use mini_net.HttpParser.{
  Parser, State, request_line, headers, body, done, Result, need_more, complete, error, Round,
  leave, again, advance, after_headers, take_request_line, wait_request_line, accept_line,
  accept_words, three_words, parse_body, take_header, header_line, add_header, end_headers,
  use_framing, framing, Framing, no_length, has_length, refused, chunked, checked_length,
  bad_request, headers_too_large, wait_headers, max_header_bytes, max_body_bytes, trim, after_mark,
  before_mark,
}
use mini_net.HttpParser.Lines.{request_line_waits, request_line_takes, headers_wait, headers_take}
use mini_net.HttpParser.Step.{step_at, lift}
use mini_net.HttpParser.Agree.{SameBut}

abbrev pub Waits : Parser → Buffer → Round → Type 0
Waits p b (leave (need_more, q, c)) = SameBut p q × (c ≡ b)
Waits p b (leave (complete, q, c)) = Unit {0}
Waits p b (leave (error e, q, c)) = Unit {0}
Waits p b (again q c) = Unit {0}

-- A result that does not ask for more.
abbrev Decides : Result → Type 0
Decides need_more = ⊥
Decides complete = Unit {0}
Decides (error e) = Unit {0}

Decides-Waits :
    (p q : Parser) (b c : Buffer) (next : Parser → State) (r : Result)
    → Decides r
    → Waits p b (advance next (r, q, c))
unfolding advance
Decides-Waits p q b c next need_more h = elim h [ ]
Decides-Waits p q b c next complete h = tt
Decides-Waits p q b c next (error e) h = tt

accept_words-Decides :
    (r : HttpRequest) (w : Option (Bytes × Bytes × Bytes)) → Decides (accept_words r w).0
unfolding accept_words bad_request
accept_words-Decides r none = tt
accept_words-Decides r (some (m, t, v)) = elim (Bool-cases (starts_with (text "HTTP/") v)) [
  | inr other ↦ rw other tt
  | inl http ↦ elim (Bool-cases (bytes_eq (drop 5 v) (text "1.0"))) [
    | inl old ↦ rw (http, old) tt
    | inr newer ↦ elim (Bool-cases (bytes_eq (drop 5 v) (text "1.1"))) [
      | inl is ↦ rw (http, newer, is) tt
      | inr is_not ↦ rw (http, newer, is_not) tt
    ]
  ]
]

accept_line-Decides : (r : HttpRequest) (line : Bytes) → Decides (accept_line r line).0
unfolding accept_line
accept_line-Decides r [] = unfold bad_request in tt
accept_line-Decides r (c ∷ line) = accept_words-Decides r (three_words (c ∷ line))

abbrev DecidesFraming : Framing → Type 0
DecidesFraming no_length = Unit {0}
DecidesFraming (has_length n) = Unit {0}
DecidesFraming (refused r) = Decides r

checked_length-Decides : (v : Option ℤ) → DecidesFraming (checked_length v)
unfolding checked_length bad_request
checked_length-Decides none = tt
checked_length-Decides (some (negsuc n)) = tt
checked_length-Decides (some (pos n)) = elim (Bool-cases (ltb max_body_bytes n)) [
  | inl large ↦ rw large tt
  | inr fits ↦ rw fits tt
]

framing-Decides : (v : Option Bytes) → DecidesFraming (framing v)
unfolding framing
framing-Decides none = tt
framing-Decides (some v) = checked_length-Decides (strtol v)

use_framing-Decides : (p : Parser) (f : Framing) → DecidesFraming f → Decides (use_framing p f).0
unfolding use_framing
use_framing-Decides p no_length h = tt
use_framing-Decides p (has_length n) h = tt
use_framing-Decides p (refused e) h = h

end_headers-Decides : (p : Parser) → Decides (end_headers p).0
unfolding end_headers
end_headers-Decides p =
    elim (Bool-cases (chunked (find_header p.req.headers (text "transfer-encoding")))) [
      | inl yes_chunked ↦ rw yes_chunked tt
      | inr plain ↦ rw plain (use_framing-Decides p _ (framing-Decides _))
    ]

header_line-Waits :
    (p q : Parser) (line : Bytes) (b c : Buffer) → Waits p b (lift (header_line q line c))
unfolding lift header_line
header_line-Waits p q [] b c = Decides-Waits p _ b c after_headers _ (end_headers-Decides q)
header_line-Waits p q (x ∷ line) b c = added (after_mark b':' (x ∷ line))
  where
    added : (v : Option Bytes) → Waits p b (lift (add_header q (before_mark b':' (x ∷ line)) v c))
    added none = unfold add_header lift bad_request advance in tt
    added (some v) = unfold add_header lift in tt

take_header-Waits :
    (p q : Parser) (line : Bytes) (b c : Buffer) → Waits p b (lift (take_header q line c))
unfolding lift take_header
take_header-Waits p q line b c =
    elim (Bool-cases (ltb max_header_bytes (q.header_bytes + (length line + 1)))) [
      | inl large ↦ rw large (unfold headers_too_large advance in tt)
      | inr fits ↦ rw fits (header_line-Waits p _ (trim line) b c)
    ]

wait-Waits :
    (p : Parser) (b : Buffer) (next : Parser → State) (t : Bool) (text : Bytes) (h : ℕ)
    → Waits p b (
        advance next
          (if t then headers_too_large text else need_more, record p { header_bytes = h }, b))
unfolding advance headers_too_large
wait-Waits p b next true text h = tt
wait-Waits p b next false text h = ((h, refl), refl)

pub step-Waits : (s : State) (p : Parser) (b : Buffer) → IsValid b → Waits p b (step_at s p b)
unfolding step_at
step-Waits request_line p b v = elim (line-cases b v) [
  | inl (e, l) ↦ rw (request_line_waits p b e) (unfold wait_request_line in wait-Waits p b _ _ _ _)
  | inr (eol, line, rest, t) ↦ rw (request_line_takes p b t) (
      unfold take_request_line in Decides-Waits p _ b _ _ _ (accept_line-Decides p.req (trim line)))
]
step-Waits headers p b v = elim (line-cases b v) [
  | inl (e, l) ↦ rw (headers_wait p b e) (unfold wait_headers lift in wait-Waits p b _ _ _ _)
  | inr (eol, line, rest, t) ↦ rw (headers_take p b t) (take_header-Waits p p line b _)
]
step-Waits body p b v = elim (Bool-cases (ltb (readable_bytes b) p.content_length)) [
  | inl short ↦ unfold parse_body advance in rw short ((p.header_bytes, refl), refl)
  | inr long ↦ unfold parse_body advance in rw long tt
]
step-Waits done p b v = tt
