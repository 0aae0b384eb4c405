-- ===== src/HttpParser/Agree.antt =====
-- The parser sees of a buffer only its unread bytes, and header_bytes decides only whether the
-- header section is refused as too large.
use mathlib.Core.Path.{subst₂}
use mini_net.Prelude.{
  ℕ, ◌+◌, ◌≡◌, ◌⊎◌, inl, inr, refl, sym, ap, ◌∙◌, subst, Option, none, some, Bytes, ltb, length,
  drop, text, ◌∷◌, [], Bool-cases,
}
use mini_net.Buffer.{Buffer, readable_bytes}
use mini_net.Buffer.View.{contents, IsValid, length-contents}
use mini_net.Buffer.Refine.{retrieve_as_string-Refines}
use mini_net.Buffer.Lines.{line-cases, line_of, no_line_of}
use mini_net.HttpParser.{
  Parser, State, request_line, headers, body, done, Result, need_more, complete, error, Error,
  Outcome, Round, leave, again, parse_body, advance, after_headers, take_request_line,
  wait_request_line, take_header, header_line, add_header, end_headers, use_framing, set_connection,
  chunked, Framing, no_length, has_length, refused, trim, before_mark, after_mark, wait_headers,
  max_header_bytes, headers_too_large,
}
use mini_net.HttpTypes.{find_header}
use mini_net.Buffer.Search.{Lacks}
use mini_net.HttpParser.Lines.{request_line_waits, request_line_takes, headers_wait, headers_take}
use mini_net.HttpParser.Step.{Run, stop, go, step, step_at, lift}

abbrev pub with_bytes : Parser → ℕ → Parser
with_bytes p h = record p { header_bytes = h }

-- Equal but for header_bytes.
abbrev pub SameBut : Parser → Parser → Type 0
SameBut p q = (h : ℕ) × (q ≡ with_bytes p h)

abbrev pub TooLarge : Outcome → Type 0
TooLarge o = (e : Error) × (o.0 ≡ error e) × (e.status ≡ 431)

-- The same result, parser and unread bytes, unless one of the two is refused as too large.
abbrev pub Agree : Outcome → Outcome → Type 0
Agree o o' =
    TooLarge o ⊎ (TooLarge o' ⊎ ((o.0 ≡ o'.0) × SameBut o.1 o'.1 × (contents o.2 ≡ contents o'.2)))

record Alike (b c : Buffer) : Type 0 where
  valid : IsValid b
  valid' : IsValid c
  same : contents b ≡ contents c

abbrev AgreeRound : Round → Round → Type 0
AgreeRound (leave o) (leave o') = Agree o o'
AgreeRound (leave o) (again q c) = TooLarge o
AgreeRound (again p b) (leave o') = TooLarge o'
AgreeRound (again p b) (again q c) = SameBut p q × Alike b c

refused_left : (o : Outcome) (r : Round) → TooLarge o → AgreeRound (leave o) r
refused_left o (leave o') t = inl t
refused_left o (again q c) t = t

refused_right : (r : Round) (o : Outcome) → TooLarge o → AgreeRound r (leave o)
refused_right (leave o') o t = inr (inl t)
refused_right (again q c) o t = t

advance-Agree :
    (next : Parser → State) (r : Result) (p : Parser) (h : ℕ) (b c : Buffer)
    → next (with_bytes p h) ≡ next p
    → Alike b c
    → AgreeRound (advance next (r, p, b)) (advance next (r, with_bytes p h, c))
unfolding advance
advance-Agree next complete p h b c e a =
    ((h, ap (λ s. record p { state = s; header_bytes = h }) e), a)
advance-Agree next need_more p h b c e a = inr (inr (refl, (h, refl), a.same))
advance-Agree next (error x) p h b c e a = inr (inr (refl, (h, refl), a.same))

readable-Alike : {b c : Buffer} → Alike b c → readable_bytes b ≡ readable_bytes c
readable-Alike {b} {c} a =
    sym (length-contents b a.valid) ∙ ap length a.same ∙ length-contents c a.valid'

request_line-Agree :
    (p : Parser) (h : ℕ) (b c : Buffer)
    → Alike b c
    → AgreeRound (step_at request_line p b) (step_at request_line (with_bytes p h) c)
unfolding step_at wait_request_line take_request_line
request_line-Agree p h b c a = elim (line-cases b a.valid) [
  | inl (e, l) ↦
      let l' = no_line_of c (subst (λ s. Lacks b'\n' s) a.same l) in
      rw (request_line_waits p b e, request_line_waits (with_bytes p h) c l', readable-Alike a)
        (advance-Agree _ _ (with_bytes p (readable_bytes c)) (readable_bytes c) b c refl a)
  | inr (eol, line, rest, t) ↦
      let (eol', t') = line_of c line rest a.valid' (sym a.same ∙ t.before) t.no_break in
      rw (request_line_takes p b t, request_line_takes (with_bytes p h) c t')
        (advance-Agree _ _ _ (h + (length line + 1)) _ _ refl
          (record { valid = t.valid; valid' = t'.valid; same = t.after ∙ sym t'.after }))
]

abbrev too_large : Bytes → Error
too_large d = record { status = 431; code = text "headers_too_large"; detail = d }

-- The result headers_too_large is a 431 whatever its message.
too_large_left :
    (d : Bytes) (p : Parser) (b : Buffer) (r : Round)
    → AgreeRound (advance after_headers (headers_too_large d, p, b)) r
unfolding advance headers_too_large
too_large_left d p b r = refused_left (headers_too_large d, p, b) r (too_large d, refl, refl)

too_large_right :
    (d : Bytes) (p : Parser) (b : Buffer) (r : Round)
    → AgreeRound r (advance after_headers (headers_too_large d, p, b))
unfolding advance headers_too_large
too_large_right d p b r = refused_right r (headers_too_large d, p, b) (too_large d, refl, refl)

wait_headers-Agree :
    (p : Parser) (h : ℕ) (b c : Buffer)
    → Alike b c
    → AgreeRound (lift (leave (wait_headers p b))) (lift (leave (wait_headers (with_bytes p h) c)))
unfolding lift wait_headers
wait_headers-Agree p h b c a =
    elim (Bool-cases (ltb max_header_bytes (p.header_bytes + readable_bytes b))) [
      | inl large ↦ rw large (too_large_left _ _ _ _)
      | inr fits ↦ elim (Bool-cases (ltb max_header_bytes (h + readable_bytes c))) [
        | inl large' ↦ rw large' (too_large_right _ _ _ _)
        | inr fits' ↦ rw (fits, fits') (advance-Agree after_headers need_more _ _ b c refl a)
      ]
    ]

use_framing-with :
    (p : Parser) (h : ℕ) (f : Framing)
    → use_framing (with_bytes p h) f ≡ ((use_framing p f).0, with_bytes (use_framing p f).1 h)
unfolding use_framing set_connection
use_framing-with p h no_length = refl
use_framing-with p h (has_length n) = refl
use_framing-with p h (refused e) = refl

end_headers-with :
    (p : Parser) (h : ℕ)
    → end_headers (with_bytes p h) ≡ ((end_headers p).0, with_bytes (end_headers p).1 h)
unfolding end_headers
end_headers-with p h =
    elim (Bool-cases (chunked (find_header p.req.headers (text "transfer-encoding")))) [
      | inl yes_chunked ↦ rw yes_chunked
      | inr plain ↦ rw plain (use_framing-with p h _)
    ]

header_line-Agree :
    (p : Parser) (h : ℕ) (line : Bytes) (b c : Buffer)
    → Alike b c
    → AgreeRound (lift (header_line p line b)) (lift (header_line (with_bytes p h) line c))
unfolding lift header_line
header_line-Agree p h [] b c a =
    rw (end_headers-with p h)
      (advance-Agree after_headers (end_headers p).0 (end_headers p).1 h b c refl a)
header_line-Agree p h (x ∷ line) b c a = add_header-Agree (after_mark b':' (x ∷ line))
  where
    add_header-Agree :
        (v : Option Bytes)
        → AgreeRound
            (lift (add_header p (before_mark b':' (x ∷ line)) v b))
            (lift (add_header (with_bytes p h) (before_mark b':' (x ∷ line)) v c))
    add_header-Agree none = unfold add_header lift in advance-Agree after_headers _ p h b c refl a
    add_header-Agree (some v) = unfold add_header lift in ((h, refl), a)

take_header-Agree :
    (p : Parser) (h : ℕ) (line : Bytes) (b c : Buffer)
    → Alike b c
    → AgreeRound (lift (take_header p line b)) (lift (take_header (with_bytes p h) line c))
unfolding take_header lift
take_header-Agree p h line b c a =
    elim (Bool-cases (ltb max_header_bytes (p.header_bytes + (length line + 1)))) [
      | inl large ↦ rw large (too_large_left _ _ _ _)
      | inr fits ↦ elim (Bool-cases (ltb max_header_bytes (h + (length line + 1)))) [
        | inl large' ↦ rw large' (too_large_right _ _ _ _)
        | inr fits' ↦
            rw (fits, fits')
              (header_line-Agree (with_bytes p (p.header_bytes + (length line + 1))) _ (trim line) b
                c a)
      ]
    ]

headers-Agree :
    (p : Parser) (h : ℕ) (b c : Buffer)
    → Alike b c
    → AgreeRound (step_at headers p b) (step_at headers (with_bytes p h) c)
unfolding step_at
headers-Agree p h b c a = elim (line-cases b a.valid) [
  | inl (e, l) ↦
      let l' = no_line_of c (subst (λ s. Lacks b'\n' s) a.same l) in
      rw (headers_wait p b e, headers_wait (with_bytes p h) c l') (wait_headers-Agree p h b c a)
  | inr (eol, line, rest, t) ↦
      let (eol', t') = line_of c line rest a.valid' (sym a.same ∙ t.before) t.no_break in
      rw (headers_take p b t, headers_take (with_bytes p h) c t')
        (take_header-Agree p h line _ _
          (record { valid = t.valid; valid' = t'.valid; same = t.after ∙ sym t'.after }))
]

body-Agree :
    (p : Parser) (h : ℕ) (b c : Buffer)
    → Alike b c
    → AgreeRound (step_at body p b) (step_at body (with_bytes p h) c)
unfolding step_at parse_body
body-Agree p h b c a = elim (Bool-cases (ltb (readable_bytes b) p.content_length)) [
  | inl short ↦ rw (← readable-Alike a, short) (advance-Agree _ need_more p h b c refl a)
  | inr long ↦
      let (v, out, left) = retrieve_as_string-Refines b p.content_length a.valid in
      let (v', out', left') = retrieve_as_string-Refines c p.content_length a.valid' in
      rw (← readable-Alike a, long, out, out', a.same)
        (advance-Agree _ complete _ h _ _ refl (record {
          valid = v;
          valid' = v';
          same = left ∙ ap (drop p.content_length) a.same ∙ sym left';
        }))
]

-- One step of two parsers that differ in header_bytes, on two buffers with the same unread bytes.
step-Agree :
    (s : State) (p : Parser) (h : ℕ) (b c : Buffer)
    → Alike b c
    → AgreeRound (step_at s p b) (step_at s (with_bytes p h) c)
step-Agree request_line p h b c a = request_line-Agree p h b c a
step-Agree headers p h b c a = headers-Agree p h b c a
step-Agree body p h b c a = body-Agree p h b c a
step-Agree done p h b c a = unfold step_at in inr (inr (refl, (h, refl), a.same))

-- Whole runs agree.
pub Run-Agree :
    {p : Parser} {b : Buffer} {r : Round} (o : Outcome) (h : ℕ) (q : Parser) (c : Buffer)
    {r' : Round} (o' : Outcome)
    → Run p b r
    → r ≡ leave o
    → IsValid b
    → IsValid c
    → contents b ≡ contents c
    → q ≡ with_bytes p h
    → Run q c r'
    → r' ≡ leave o'
    → Agree o o'
Run-Agree {p} {b} o h q c o' (stop e) eo v v' same k (stop e') eo' =
    subst₂ AgreeRound (e ∙ eo) (ap (λ t. step t c) (sym k) ∙ e' ∙ eo')
      (step-Agree p.state p h b c (record { valid = v; valid' = v'; same = same }))
Run-Agree {p} {b} o h q c o' (stop e) eo v v' same k (go q1 c1 e' s') eo' = inl (
    subst₂ AgreeRound (e ∙ eo) (ap (λ t. step t c) (sym k) ∙ e')
      (step-Agree p.state p h b c (record { valid = v; valid' = v'; same = same })))
Run-Agree {p} {b} o h q c o' (go p1 b1 e s) eo v v' same k (stop e') eo' = inr (
    inl (
      subst₂ AgreeRound e (ap (λ t. step t c) (sym k) ∙ e' ∙ eo')
        (step-Agree p.state p h b c (record { valid = v; valid' = v'; same = same }))))
Run-Agree {p} {b} o h q c o' (go p1 b1 e s) eo v v' same k (go q1 c1 e' s') eo' =
    let ((h1, k1), a) =
      subst₂ AgreeRound e (ap (λ t. step t c) (sym k) ∙ e')
        (step-Agree p.state p h b c (record { valid = v; valid' = v'; same = same })) in
    Run-Agree o h1 q1 c1 o' s eo a.valid a.valid' a.same k1 s' eo'
