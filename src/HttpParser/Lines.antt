-- ===== src/HttpParser/Lines.antt =====
-- What each stage of the parser does with the buffer: it keeps it valid and takes bytes off the
-- front only, and a round of the header loop that goes on has taken a line.
use mini_net.Prelude.{
  ℕ, ◌+◌, ◌<◌, ◌≡◌, inl, inr, refl, sym, ap, ◌∙◌, ◌++◌, [], ◌∷◌, none, arith, Bytes, length,
  length-append, append_assoc, take, take-append-drop, Bool-cases, ltb,
}
use mini_net.Buffer.{Buffer, readable_bytes, find_eol, retrieve_until}
use mini_net.Buffer.View.{contents, IsValid, length-contents}
use mini_net.Buffer.Refine.{retrieve_as_string-Refines}
use mini_net.Buffer.Lines.{TakesLine, line-cases}
use mini_net.HttpParser.{
  Parser, Round, leave, again, parse_request_line, headers_round, header_line, add_header,
  parse_body, max_header_bytes, take_request_line, wait_request_line, take_header, wait_headers,
}

-- The buffer stays valid, and its contents are a tail of what they were.
pub record Keeps (b b' : Buffer) : Type 0 where
  pub valid : IsValid b'
  pub used : Bytes
  pub cut : contents b ≡ used ++ contents b'

pub Keeps-refl : (b : Buffer) → IsValid b → Keeps b b
Keeps-refl b v = record { valid = v; used = []; cut = refl }

pub Keeps-trans : {b c d : Buffer} → Keeps b c → Keeps c d → Keeps b d
Keeps-trans k l = record {
  valid = l.valid;
  used = k.used ++ l.used;
  cut = k.cut ∙ ap (◌++◌ k.used) l.cut ∙ sym (append_assoc k.used l.used _);
}

TakesLine-Keeps :
    {b : Buffer} {eol : ℕ} {line rest : Bytes}
    → TakesLine b eol line rest
    → Keeps b (retrieve_until b (eol + 1))
TakesLine-Keeps {b} {eol} {line} {rest} t = record {
  valid = t.valid;
  used = line ++ b'\n' ∷ [];
  cut =
      t.before
      ∙ sym (append_assoc line (b'\n' ∷ []) rest)
      ∙ ap (λ r. (line ++ b'\n' ∷ []) ++ r) (sym t.after);
}

pub TakesLine-shrinks :
    {b : Buffer} {eol : ℕ} {line rest : Bytes}
    → IsValid b
    → TakesLine b eol line rest
    → readable_bytes (retrieve_until b (eol + 1)) < readable_bytes b
TakesLine-shrinks {b} {eol} {line} {rest} v t = omega (
  arith,
  length-contents b v,
  ap length t.before,
  length-append line (b'\n' ∷ rest),
  length-contents (retrieve_until b (eol + 1)) t.valid,
  ap length t.after,
)

-- The two branches of each line reader.
pub request_line_waits :
    (p : Parser) (b : Buffer) → find_eol b ≡ none → parse_request_line p b ≡ wait_request_line p b
unfolding parse_request_line
request_line_waits p b e = rw (e, parse_request_line)

pub request_line_takes :
    (p : Parser) (b : Buffer) {eol : ℕ} {line rest : Bytes}
    → TakesLine b eol line rest
    → parse_request_line p b ≡ take_request_line p line (retrieve_until b (eol + 1))
unfolding parse_request_line
request_line_takes p b {eol} t =
    rw (t.found, parse_request_line)
      (ap (λ l. take_request_line p l (retrieve_until b (eol + 1))) t.line_is)

pub headers_wait :
    (p : Parser) (b : Buffer) → find_eol b ≡ none → headers_round p b ≡ leave (wait_headers p b)
unfolding headers_round
headers_wait p b e = rw (e, headers_round)

pub headers_take :
    (p : Parser) (b : Buffer) {eol : ℕ} {line rest : Bytes}
    → TakesLine b eol line rest
    → headers_round p b ≡ take_header p line (retrieve_until b (eol + 1))
unfolding headers_round
headers_take p b {eol} t =
    rw (t.found, headers_round) (ap (λ l. take_header p l (retrieve_until b (eol + 1))) t.line_is)

pub parse_request_line-Keeps :
    (p : Parser) (b : Buffer) → IsValid b → Keeps b (parse_request_line p b).2
unfolding take_request_line wait_request_line
parse_request_line-Keeps p b v = elim (line-cases b v) [
  | inl (e, l) ↦ rw (request_line_waits p b e) (Keeps-refl b v)
  | inr (eol, line, rest, t) ↦ rw (request_line_takes p b t) (TakesLine-Keeps t)
]

abbrev pub round_buffer : Round → Buffer
round_buffer (leave (r, p, b)) = b
round_buffer (again p b) = b

pub header_line-buffer :
    (p : Parser) (line : Bytes) (b : Buffer) → round_buffer (header_line p line b) ≡ b
unfolding header_line add_header
header_line-buffer p [] b = refl
header_line-buffer p (c ∷ line) b = ground arith

-- The buffer of a round is a tail of what it was, and a round that goes on has made it shorter.
abbrev pub Shrinks : Buffer → Round → Type 0
Shrinks b (leave o) = Keeps b o.2
Shrinks b (again p b') = Keeps b b' × (readable_bytes b' < readable_bytes b)

Shrinks-of_buffer :
    (b b' : Buffer) (r : Round)
    → round_buffer r ≡ b'
    → Keeps b b'
    → readable_bytes b' < readable_bytes b
    → Shrinks b r
Shrinks-of_buffer b b' (leave (o, p, c)) e k h = rw (e) k
Shrinks-of_buffer b b' (again p c) e k h = rw e (k, h)

pub take_header-buffer :
    (p : Parser) (raw : Bytes) (b : Buffer) → round_buffer (take_header p raw b) ≡ b
unfolding take_header
take_header-buffer p raw b =
    elim (Bool-cases (ltb max_header_bytes (p.header_bytes + (length raw + 1)))) [
      | inl large ↦ rw (large, take_header)
      | inr fits ↦ rw (fits, take_header) (header_line-buffer _ _ b)
    ]

pub headers_round-Shrinks : (p : Parser) (b : Buffer) → IsValid b → Shrinks b (headers_round p b)
headers_round-Shrinks p b v = elim (line-cases b v) [
  | inl (e, l) ↦ rw (headers_wait p b e) (unfold wait_headers in Keeps-refl b v)
  | inr (eol, line, rest, t) ↦ rw (headers_take p b t) (
      Shrinks-of_buffer b _ (take_header p line (retrieve_until b (eol + 1)))
        (take_header-buffer _ _ _) (TakesLine-Keeps t) (TakesLine-shrinks v t))
]

pub parse_body-Keeps : (p : Parser) (b : Buffer) → IsValid b → Keeps b (parse_body p b).2
unfolding parse_body
parse_body-Keeps p b v = elim (Bool-cases (ltb (readable_bytes b) p.content_length)) [
  | inl short ↦ rw short (Keeps-refl b v)
  | inr long ↦
      rw long
        let (valid, taken, left) = retrieve_as_string-Refines b p.content_length v in
          (record {
            valid = valid;
            used = take p.content_length (contents b);
            cut =
                sym (take-append-drop p.content_length (contents b))
                ∙ ap (λ c. take p.content_length (contents b) ++ c) (sym left);
          })
]
