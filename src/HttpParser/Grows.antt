-- ===== src/HttpParser/Grows.antt =====
-- A step that goes on makes the same step when more bytes stand behind the ones that it reads.
use mini_net.Prelude.{
  ℕ, zero, suc, ◌+◌, ◌≤◌, ◌≡◌, Bool, inl, inr, refl, sym, ap, ◌∙◌, subst, Option, none, some, Bytes,
  arith, true, false, ltb, length, take, drop, text, ◌∷◌, [], ◌++◌, append_assoc, if◌then◌else◌,
  Bool-cases, length-append, ltb→le, le→ltb, List,
}
use mini_net.Buffer.{Buffer, readable_bytes, retrieve_until}
use mini_net.Buffer.View.{contents, IsValid, length-contents}
use mini_net.Buffer.Slices.{take-append_le}
use mini_net.Buffer.Refine.{retrieve_as_string-Refines}
use mini_net.Buffer.Lines.{TakesLine, line-cases, line_of}
use mini_net.HttpParser.{
  Parser, State, request_line, headers, body, done, Result, need_more, complete, error, Outcome,
  Round, leave, again, advance, after_headers, take_request_line, wait_request_line, parse_body,
  take_header, header_line, add_header, end_headers, headers_round, parse_request_line,
  headers_too_large, wait_headers, max_header_bytes, trim, after_mark, before_mark,
}
use mini_net.HttpParser.Lines.{
  request_line_waits, request_line_takes, headers_wait, headers_take, round_buffer,
  take_header-buffer, parse_request_line-Keeps, parse_body-Keeps, Shrinks, headers_round-Shrinks,
}
use mini_net.HttpParser.Step.{step, step_at, step_headers, lift}

-- The same round with another buffer.
abbrev rebuffer : Buffer → Round → Round
rebuffer c (leave (r, p, b)) = leave (r, p, c)
rebuffer c (again p b) = again p c

advance-rebuffer :
    (next : Parser → State) (r : Result) (p : Parser) (b c : Buffer)
    → advance next (r, p, c) ≡ rebuffer c (advance next (r, p, b))
unfolding advance
advance-rebuffer next complete p b c = refl
advance-rebuffer next need_more p b c = refl
advance-rebuffer next (error e) p b c = refl

header_line-rebuffer :
    (p : Parser) (line : Bytes) (b c : Buffer)
    → lift (header_line p line c) ≡ rebuffer c (lift (header_line p line b))
unfolding lift header_line
header_line-rebuffer p [] b c =
    advance-rebuffer after_headers (end_headers p).0 (end_headers p).1 b c
header_line-rebuffer p (x ∷ line) b c = added (after_mark b':' (x ∷ line))
  where
    added :
        (v : Option Bytes)
        → lift (add_header p (before_mark b':' (x ∷ line)) v c)
          ≡ rebuffer c (lift (add_header p (before_mark b':' (x ∷ line)) v b))
    added none = unfold add_header lift in advance-rebuffer after_headers _ p b c
    added (some v) = unfold add_header lift in refl

take_header-rebuffer :
    (p : Parser) (line : Bytes) (b c : Buffer)
    → lift (take_header p line c) ≡ rebuffer c (lift (take_header p line b))
unfolding lift take_header
take_header-rebuffer p line b c =
    elim (Bool-cases (ltb max_header_bytes (p.header_bytes + (length line + 1)))) [
      | inl large ↦ rw large (advance-rebuffer after_headers _ _ b c)
      | inr fits ↦ rw fits (header_line-rebuffer _ (trim line) b c)
    ]

-- Bytes behind the ones that are there.
pub record Longer (b : Buffer) (d : Bytes) (c : Buffer) : Type 0 where
  pub valid : IsValid c
  pub more : contents c ≡ contents b ++ d

-- A step that goes on makes the same step when more bytes are there.
abbrev pub Grows : Bytes → Parser → Buffer → Round → Type 0
Grows d p c (leave o) = Unit {0}
Grows d p c (again p' b') = (c' : Buffer) × (step p c ≡ again p' c') × Longer b' d c'

Grows-of :
    (d : Bytes) (p : Parser) (b c b' c' : Buffer) (r : Round)
    → step p c ≡ rebuffer c' r
    → round_buffer r ≡ b'
    → Longer b' d c'
    → Grows d p c r
Grows-of d p b c b' c' (leave o) e k l = tt
Grows-of d p b c b' c' (again p' b1) e k l = (c', e, rw k l)

Longer-line :
    {b : Buffer} {eol : ℕ} {line rest : Bytes} {d : Bytes} {c : Buffer}
    → TakesLine b eol line rest
    → Longer b d c
    → (eol' : ℕ) × TakesLine c eol' line (rest ++ d)
Longer-line {b} {eol} {line} {rest} {d} {c} t l =
    line_of c line (rest ++ d) l.valid
      (l.more ∙ ap (λ s. s ++ d) t.before ∙ append_assoc line (b'\n' ∷ rest) d) t.no_break

Longer-after :
    {b c : Buffer} {eol eol' : ℕ} {line rest d : Bytes}
    → TakesLine b eol line rest
    → TakesLine c eol' line (rest ++ d)
    → Longer (retrieve_until b (eol + 1)) d (retrieve_until c (eol' + 1))
Longer-after {d = d} t t' = record {
  valid = t'.valid;
  more = t'.after ∙ ap (λ s. s ++ d) (sym t.after);
}

advance-buffer : (next : Parser → State) (o : Outcome) → round_buffer (advance next o) ≡ o.2
unfolding advance
advance-buffer next (complete, p, b) = refl
advance-buffer next (need_more, p, b) = refl
advance-buffer next (error e, p, b) = refl

lift-buffer : (r : Round) → round_buffer (lift r) ≡ round_buffer r
unfolding lift
lift-buffer (leave o) = advance-buffer after_headers o
lift-buffer (again p b) = refl

-- What asks for more bytes or refuses the request leaves.
wait-Grows :
    (d : Bytes) (p : Parser) (c : Buffer) (next : Parser → State) (t : Bool) (text : Bytes)
    (q : Parser) (b : Buffer)
    → Grows d p c (advance next (if t then headers_too_large text else need_more, q, b))
unfolding advance headers_too_large
wait-Grows d p c next true text q b = tt
wait-Grows d p c next false text q b = tt

request_line-Grows :
    (d : Bytes) (p : Parser) (b c : Buffer)
    → p.state ≡ request_line
    → IsValid b
    → Longer b d c
    → Grows d p c (step_at request_line p b)
unfolding step_at take_request_line wait_request_line
request_line-Grows d p b c s v l = elim (line-cases b v) [
  | inl (e, lacks) ↦ rw (request_line_waits p b e) (wait-Grows d p c _ _ _ _ _)
  | inr (eol, line, rest, t) ↦
      let (eol', t') = Longer-line t l in
      let b' = retrieve_until b (eol + 1) in
      let c' = retrieve_until c (eol' + 1) in
      rw (request_line_takes p b t) (
        Grows-of d p b c b' c' _
          (ap (λ s. step_at s p c) s
            ∙ rw (request_line_takes p c t') (advance-rebuffer _ _ _ b' c'))
          (advance-buffer _ _) (Longer-after t t'))
]

headers-Grows :
    (d : Bytes) (p : Parser) (b c : Buffer)
    → p.state ≡ headers
    → IsValid b
    → Longer b d c
    → Grows d p c (step_at headers p b)
unfolding step_at lift
headers-Grows d p b c s v l = elim (line-cases b v) [
  | inl (e, lacks) ↦ rw (headers_wait p b e) (unfold wait_headers in wait-Grows d p c _ _ _ _ _)
  | inr (eol, line, rest, t) ↦
      let (eol', t') = Longer-line t l in
      let b' = retrieve_until b (eol + 1) in
      let c' = retrieve_until c (eol' + 1) in
      rw (headers_take p b t) (
        Grows-of d p b c b' c' _
          (step_headers p c _ s (headers_take p c t') ∙ take_header-rebuffer p line b' c')
          (lift-buffer (take_header p line b') ∙ take_header-buffer p line b') (Longer-after t t'))
]

drop-append_le :
    {A : Type 0} (n : ℕ) (xs ys : List A) → n ≤ length xs → drop n (xs ++ ys) ≡ drop n xs ++ ys
drop-append_le zero xs ys h = refl
drop-append_le (suc n) [] ys h = absurd (omega arith)
drop-append_le (suc n) (x ∷ xs) ys h = drop-append_le n xs ys (omega arith)

Longer-readable :
    {b : Buffer} {d : Bytes} {c : Buffer}
    → IsValid b
    → Longer b d c
    → readable_bytes b ≤ readable_bytes c
Longer-readable {b} {d} {c} v l = omega (
  arith,
  length-contents b v,
  length-contents c l.valid,
  ap length l.more,
  length-append (contents b) d,
)

body-Grows :
    (d : Bytes) (p : Parser) (b c : Buffer)
    → p.state ≡ body
    → IsValid b
    → Longer b d c
    → Grows d p c (step_at body p b)
unfolding step_at parse_body advance
body-Grows d p b c s v l = elim (Bool-cases (ltb (readable_bytes b) p.content_length)) [
  | inl short ↦ rw short tt
  | inr long ↦
      let n = p.content_length in
      let enough = ltb→le _ _ long in
      let (v1, out, left) = retrieve_as_string-Refines b n v in
      let (v2, out', left') = retrieve_as_string-Refines c n l.valid in
      let fits : n ≤ length (contents b) = omega (arith, length-contents b v, enough) in
      let long' = le→ltb (readable_bytes c) n (omega (arith, Longer-readable v l, enough)) in
      let same = ap (take n) l.more ∙ take-append_le n (contents b) d fits in
      rw long (
        _,
        ap (λ s. step_at s p c) s ∙ rw (long', out', same, ← out),
        record {
          valid = v2;
          more =
              left'
              ∙ ap (drop n) l.more
              ∙ drop-append_le n (contents b) d fits
              ∙ ap (λ t. t ++ d) (sym left);
        },
      )
]

pub step-Grows :
    (s : State) (d : Bytes) (p : Parser) (b c : Buffer)
    → p.state ≡ s
    → IsValid b
    → Longer b d c
    → Grows d p c (step_at s p b)
step-Grows request_line d p b c s v l = request_line-Grows d p b c s v l
step-Grows headers d p b c s v l = headers-Grows d p b c s v l
step-Grows body d p b c s v l = body-Grows d p b c s v l
step-Grows done d p b c s v l = unfold step_at in tt

Shrinks-IsValid : (b : Buffer) (r : Round) → Shrinks b r → IsValid (round_buffer r)
Shrinks-IsValid b (leave o) k = k.valid
Shrinks-IsValid b (again p b') (k, lt) = k.valid

pub step-IsValid :
    (s : State) (p : Parser) (b : Buffer) → IsValid b → IsValid (round_buffer (step_at s p b))
unfolding step_at
step-IsValid request_line p b v =
    subst IsValid (sym (advance-buffer _ (parse_request_line p b)))
      (parse_request_line-Keeps p b v).valid
step-IsValid headers p b v =
    subst IsValid (sym (lift-buffer (headers_round p b)))
      (Shrinks-IsValid b _ (headers_round-Shrinks p b v))
step-IsValid body p b v =
    subst IsValid (sym (advance-buffer _ (parse_body p b))) (parse_body-Keeps p b v).valid
step-IsValid done p b v = v
