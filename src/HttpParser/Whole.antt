-- ===== src/HttpParser/Whole.antt =====
-- A whole request, well written: the parser takes its request line, its fields, the blank line and
-- its body, and is done.
use mini_net.Prelude.{
  ℕ, ◌+◌, ◌≤◌, ◌≡◌, refl, sym, ap, ◌∙◌, false, List, [], ◌∷◌, ◌++◌, append_assoc, some, Bytes, text,
  ltb, ◌==◌, arith, length, length-append, take, drop, take-append, drop-append,
}
use mini_net.Buffer.{Buffer, retrieve_until, readable_bytes, retrieve_as_string}
use mini_net.Buffer.View.{contents, IsValid, length-contents}
use mini_net.Buffer.Refine.{retrieve_as_string-Refines}
use mini_net.Buffer.Lines.{TakesLine, line_of}
use mini_net.Buffer.Search.{Lacks}
use mini_net.Ctype.{is_space, skip_spaces, word, after_word, extract}
use mini_net.HttpTypes.{HttpRequest}
use mini_net.HttpParser.{
  Parser, headers, body, done, new_parser, Result, complete, Round, leave, again, trim, trim_end,
  keep_end, set_target, three_words, accept_words, accept_line, take_request_line, take_header,
  header_line, end_headers, max_header_bytes, parse_body, advance, after_headers, parse,
}
use mini_net.HttpParser.Lines.{headers_take, request_line_takes}
use mini_net.HttpParser.Step.{Run, go, stop, step, step_at, step_headers, lift, Run-parse}
use mini_net.HttpParser.Fields.{
  IsText, IsText-between, trim_return, Lacks-append, with_header, with_headers, length-written,
  raw_length, written, AreFields, take_fields,
}

abbrev pub AllVisible : Bytes → Type 0
AllVisible [] = Unit
AllVisible (c ∷ s) = (is_space c ≡ false) × AllVisible s

-- A word of the request line: it is not empty and has no space.
abbrev pub IsWord : Bytes → Type 0
IsWord [] = ⊥
IsWord (c ∷ s) = AllVisible (c ∷ s)

visible_line : (s : Bytes) → AllVisible s → Lacks b'\n' s
visible_line [] h = tt
visible_line (c ∷ s) (v, h) = ((λ e. absurd (cc (sym (ap is_space e) ∙ v))), visible_line s h)

visible_whole : (s : Bytes) → AllVisible s → trim_end s ≡ s
unfolding trim_end keep_end
visible_whole [] h = refl
visible_whole (c ∷ []) (v, h) = rw v
visible_whole (c ∷ d ∷ s) (v, h) = rw (visible_whole (d ∷ s) h)

pub word-IsText : (s : Bytes) → IsWord s → IsText s
word-IsText [] h = absurd h
word-IsText (c ∷ s) h = record {
  first = c;
  others = s;
  split = refl;
  visible = h.0;
  whole = visible_whole (c ∷ s) h;
  one_line = visible_line (c ∷ s) h;
}

word_visible :
    (s t : Bytes)
    → AllVisible s
    → (word (s ++ (b' ' ∷ t)) ≡ s) × (after_word (s ++ (b' ' ∷ t)) ≡ b' ' ∷ t)
unfolding word after_word
word_visible [] t h = (refl, refl)
word_visible (c ∷ s) t (v, h) = let (a, b) = word_visible s t h in (rw (v, a), rw (v, b))

extract_word : (s t : Bytes) → IsWord s → extract (s ++ (b' ' ∷ t)) ≡ some (s, b' ' ∷ t)
unfolding extract skip_spaces
extract_word [] t h = absurd h
extract_word (c ∷ s) t h =
    let (a, b) = word_visible (c ∷ s) t h in
    let e : is_space c ≡ false = h.0 in rw (e, extract) (λ i. some (a i, b i))

extract_space : (s : Bytes) → extract (b' ' ∷ s) ≡ extract s
unfolding extract skip_spaces
extract_space s = refl

abbrev pub http_1_1 : Bytes
http_1_1 = b'H' ∷ b'T' ∷ b'T' ∷ b'P' ∷ b'/' ∷ b'1' ∷ b'.' ∷ b'1' ∷ []

extract_version : extract (b' ' ∷ http_1_1) ≡ some (http_1_1, [])
unfolding extract skip_spaces word after_word
extract_version = refl

abbrev words : Bytes → Bytes → Bytes
words method target = method ++ ((b' ' ∷ (target ++ (b' ' ∷ []))) ++ http_1_1)

three_words_is :
    (method target : Bytes)
    → IsWord method
    → IsWord target
    → three_words (words method target) ≡ some (method, target, http_1_1)
unfolding three_words
three_words_is method target m t =
    let e1 = extract_word method ((target ++ (b' ' ∷ [])) ++ http_1_1) m in
    let e2 =
      extract_space ((target ++ (b' ' ∷ [])) ++ http_1_1)
      ∙ ap extract (append_assoc target (b' ' ∷ []) http_1_1)
      ∙ extract_word target http_1_1 t in
    rw (e1, three_words, e2, extract_version)

accept_http_1_1 :
    (r : HttpRequest) (method target : Bytes)
    → accept_words r (some (method, target, http_1_1))
      ≡ (complete, set_target r method target http_1_1)
unfolding accept_words text
accept_http_1_1 r method target = refl

words-IsText :
    (method target : Bytes) → IsWord method → IsWord target → IsText (words method target)
words-IsText method target m t =
    IsText-between method (b' ' ∷ (target ++ (b' ' ∷ []))) http_1_1 (word-IsText method m)
      (
        λ e. absurd (cc),
        Lacks-append b'\n' target (b' ' ∷ []) (word-IsText target t).one_line
            (λ e. absurd (cc), tt),
      )
      (word-IsText http_1_1 (refl, (refl, (refl, (refl, (refl, (refl, (refl, (refl, tt)))))))))

accept_line_is :
    (r : HttpRequest) (method target : Bytes)
    → IsWord method
    → IsWord target
    → accept_line r (words method target) ≡ (complete, set_target r method target http_1_1)
unfolding accept_line
accept_line_is r [] target m t = absurd m
accept_line_is r (c ∷ method) target m t =
    ap (accept_words r) (three_words_is (c ∷ method) target m t)
    ∙ accept_http_1_1 r (c ∷ method) target

-- The parser behind the request line.
abbrev pub with_line : Bytes → Bytes → Parser
with_line method target = record new_parser {
  state = headers;
  req = set_target new_parser.req method target http_1_1;
  header_bytes = 0 + (length (words method target ++ (b'\r' ∷ [])) + 1);
}

line_step :
    (method target rest : Bytes) (b : Buffer) {eol : ℕ}
    → TakesLine b eol (words method target ++ (b'\r' ∷ [])) rest
    → IsWord method
    → IsWord target
    → step new_parser b ≡ again (with_line method target) (retrieve_until b (eol + 1))
unfolding step_at advance take_request_line
line_step method target rest b {eol = eol} k m t =
    let after : Buffer = retrieve_until b (eol + 1) in
    let long : ℕ = 0 + (length (words method target ++ (b'\r' ∷ [])) + 1) in
    let read : accept_line new_parser.req (trim (words method target ++ (b'\r' ∷ [])))
        ≡ (complete, set_target new_parser.req method target http_1_1) =
      ap (accept_line new_parser.req) (trim_return _ (words-IsText method target m t))
      ∙ accept_line_is new_parser.req method target m t in
    ap (advance (λ p'. headers)) (request_line_takes new_parser b k)
    ∙ ap
        (λ (x : Result × HttpRequest).
          advance (λ p'. headers)
            (x.0, record new_parser { req = x.1; header_bytes = long }, after))
        read

take_line :
    (method target rest : Bytes) (b : Buffer)
    → IsValid b
    → IsWord method
    → IsWord target
    → contents b ≡ words method target ++ (b'\r' ∷ b'\n' ∷ rest)
    → (b' : Buffer) × IsValid b'
      × (contents b' ≡ rest)
      × ((r : Round) → Run (with_line method target) b' r → Run new_parser b r)
take_line method target rest b v m t e =
    let (eol, k) =
      line_of b (words method target ++ (b'\r' ∷ [])) rest v
        (e ∙ sym (append_assoc (words method target) (b'\r' ∷ []) (b'\n' ∷ rest)))
        (Lacks-append b'\n' (words method target) (b'\r' ∷ [])
          (words-IsText method target m t).one_line (λ e. absurd (cc), tt)) in
    (
      retrieve_until b (eol + 1),
      k.valid,
      k.after,
      λ r run.
          go (with_line method target) (retrieve_until b (eol + 1))
            (line_step method target rest b {eol = eol} k m t) run,
    )

blank_step :
    (p q : Parser) (rest : Bytes) (b : Buffer) {eol : ℕ}
    → TakesLine b eol (b'\r' ∷ []) rest
    → p.state ≡ headers
    → p.header_bytes + 2 ≤ max_header_bytes
    → end_headers (record p { header_bytes = p.header_bytes + 2 }) ≡ (complete, q)
    → step p b ≡ again (record q { state = after_headers q }) (retrieve_until b (eol + 1))
unfolding lift advance take_header header_line trim trim_end keep_end skip_spaces
blank_step p q rest b {eol = eol} k s fits e =
    let small : ltb max_header_bytes (p.header_bytes + 2) ≡ false = ground (arith, fits) in
    let after : Buffer = retrieve_until b (eol + 1) in
    let taken : take_header p (b'\r' ∷ []) after ≡ leave (complete, q, after) =
      rw (small) (ap (λ (x : Result × Parser). leave (x.0, x.1, after)) e) in
    step_headers p b _ s (headers_take p b k ∙ taken)

take_blank :
    (p q : Parser) (rest : Bytes) (b : Buffer)
    → IsValid b
    → p.state ≡ headers
    → contents b ≡ b'\r' ∷ b'\n' ∷ rest
    → p.header_bytes + 2 ≤ max_header_bytes
    → end_headers (record p { header_bytes = p.header_bytes + 2 }) ≡ (complete, q)
    → (b' : Buffer) × IsValid b'
      × (contents b' ≡ rest)
      × ((r : Round) → Run (record q { state = after_headers q }) b' r → Run p b r)
take_blank p q rest b v s c fits e =
    let (eol, k) = line_of b (b'\r' ∷ []) rest v c (λ e. absurd (cc), tt) in
    (
      retrieve_until b (eol + 1),
      k.valid,
      k.after,
      λ r run. go _ (retrieve_until b (eol + 1)) (blank_step p q rest b {eol = eol} k s fits e) run,
    )

body_is :
    (p : Parser) (content rest : Bytes) (b : Buffer)
    → IsValid b
    → contents b ≡ content ++ rest
    → p.content_length ≡ length content
    → (b' : Buffer) × IsValid b'
      × (contents b' ≡ rest)
      × (parse_body p b ≡ (complete, record p { req = record p.req { body = content } }, b'))
unfolding parse_body
body_is p content rest b v e n =
    let (valid, taken, left) = retrieve_as_string-Refines b p.content_length v in
    let enough : ltb (readable_bytes b) p.content_length ≡ false =
      ground (arith, n, length-contents b v, ap length e, length-append content rest) in
    (
      (retrieve_as_string b p.content_length).1,
      valid,
      left ∙ (λ i. drop (n i) (e i)) ∙ drop-append content rest,
      rw enough (
          ap
            (λ (x : Bytes). (
              complete,
              record p { req = record p.req { body = x } },
              (retrieve_as_string b p.content_length).1,
            ))
            (taken ∙ (λ i. take (n i) (e i)) ∙ take-append content rest)),
    )

stops : (p : Parser) (b : Buffer) → p.state ≡ done → Run p b (leave (complete, p, b))
unfolding step_at
stops p b s = stop (ap (λ t. step_at t p b) s)

-- What is left once the headers are read: a body, or none.
take_body :
    (q : Parser) (content rest : Bytes) (b : Buffer)
    → IsValid b
    → contents b ≡ content ++ rest
    → q.content_length ≡ length content
    → q.req.body ≡ []
    → (p' : Parser) × (b' : Buffer) × (p'.req ≡ record q.req { body = content })
      × (contents b' ≡ rest)
      × Run (record q { state = after_headers q }) b (leave (complete, p', b'))
unfolding step_at advance
take_body q [] rest b v e n none_yet =
    let moved : after_headers q ≡ done = rw n in
    let p' : Parser = record q { state = after_headers q } in
    (p', b, ap (λ (x : Bytes). record q.req { body = x }) none_yet, e, stops p' b moved)
take_body q (c ∷ content) rest b v e n none_yet =
    let some_bytes : (q.content_length == 0) ≡ false = ground (arith, n) in
    let moved : after_headers q ≡ body = rw some_bytes in
    let p1 : Parser = record q { state = after_headers q } in
    let (b', v', left, read) = body_is p1 (c ∷ content) rest b v e n in
    let p' : Parser = record p1 { state = done; req = record q.req { body = c ∷ content } } in
    (
      p',
      b',
      refl,
      left,
      go p' b' (ap (λ t. step_at t p1 b) moved ∙ ap (advance (λ x. done)) read) (stops p' b' refl),
    )

with_headers-state :
    (fields : List (Bytes × Bytes)) (p : Parser) → (with_headers p fields).state ≡ p.state
with_headers-state [] p = refl
with_headers-state (f ∷ fields) p = with_headers-state fields (with_header p f)

-- The text of a request.
abbrev pub request_text : Bytes → Bytes → List (Bytes × Bytes) → Bytes → Bytes
request_text method target fields content =
    words method target ++ (b'\r' ∷ b'\n' ∷ (written fields ++ (b'\r' ∷ b'\n' ∷ content)))

with_headers-bytes :
    (fields : List (Bytes × Bytes)) (p : Parser)
    → (with_headers p fields).header_bytes ≡ p.header_bytes + length (written fields)
with_headers-bytes [] p = omega arith
with_headers-bytes ((name, value) ∷ fields) p = omega (
  arith,
  with_headers-bytes fields (with_header p (name, value)),
  length-written name value fields,
  raw_length name value,
)

-- The parser behind the blank line, before the header section is judged.
abbrev pub with_blank : Bytes → Bytes → List (Bytes × Bytes) → Parser
with_blank method target fields =
    let p = with_headers (with_line method target) fields in
    record p { header_bytes = p.header_bytes + 2 }

length-words :
    (method target : Bytes) → length (words method target) ≡ length method + length target + 10
length-words method target = omega (
  arith,
  length-append method ((b' ' ∷ (target ++ (b' ' ∷ []))) ++ http_1_1),
  length-append (target ++ (b' ' ∷ [])) http_1_1,
  length-append target (b' ' ∷ []),
)

-- The parser reads a request that is well written, and leaves what is behind it.
pub parse-request_text :
    (method target : Bytes) (fields : List (Bytes × Bytes)) (content rest : Bytes) (b : Buffer)
    (q : Parser)
    → IsValid b
    → IsWord method
    → IsWord target
    → AreFields fields
    → length method + length target + length (written fields) + 14 ≤ max_header_bytes
    → end_headers (with_blank method target fields) ≡ (complete, q)
    → q.content_length ≡ length content
    → q.req.body ≡ []
    → contents b ≡ request_text method target fields (content ++ rest)
    → (p' : Parser) × (b' : Buffer) × (parse new_parser b ≡ some (complete, p', b'))
      × (p'.req ≡ record q.req { body = content })
      × (contents b' ≡ rest)
parse-request_text method target fields content rest b q v m t a fits judged n none_yet e =
    let blank_on : Bytes = b'\r' ∷ b'\n' ∷ (content ++ rest) in
    let p1 : Parser = with_line method target in
    let p2 : Parser = with_headers p1 fields in
    let long : p1.header_bytes ≡ length method + length target + 12 =
      omega (arith, length-words method target, length-append (words method target) (b'\r' ∷ [])) in
    let (b1, v1, e1, run1) = take_line method target (written fields ++ blank_on) b v m t e in
    let (b2, v2, e2, run2) =
      take_fields p1 fields blank_on b1 refl v1 a e1 (omega (arith, long, fits)) in
    let (b3, v3, e3, run3) =
      take_blank p2 q (content ++ rest) b2 v2 (with_headers-state fields p1) e2
        (omega (arith, long, fits, with_headers-bytes fields p1)) judged in
    let (p', b4, r4, e4, run4) = take_body q content rest b3 v3 e3 n none_yet in
    (p', b4, Run-parse new_parser b _ v (run1 _ (run2 _ (run3 _ run4))), r4, e4)
