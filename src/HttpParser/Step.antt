-- ===== src/HttpParser/Step.antt =====
-- The parser as one step relation: a step reads one line, or the body. `parse` is the run of these
-- steps to the first that leaves.
use mathlib.Core.Option.{some-injective}
use mini_net.Prelude.{
  ℕ, zero, suc, ◌+◌, ◌≡◌, refl, sym, ap, ◌∙◌, subst, Option, none, some, Bytes, arith, ltb, length,
  ◌∷◌, [], Bool-cases, inl, inr,
}
use mini_net.Buffer.{Buffer, readable_bytes}
use mini_net.Buffer.View.{IsValid}
use mini_net.HttpParser.{
  Parser, State, request_line, headers, body, done, complete, Outcome, Round, leave, again,
  headers_round, headers_loop, parse_headers, parse_request_line, parse_body, parse, parse_loop,
  parse_round, advance, after_headers, take_header, header_line, add_header, max_header_bytes,
}
use mini_net.Buffer.{retrieve_until}
use mini_net.Buffer.Lines.{line-cases}
use mini_net.HttpParser.Lines.{
  round_buffer, headers_wait, headers_take, Shrinks, headers_round-Shrinks,
}
use mini_net.HttpParser.Total.{rank, Steps, parse_round-Steps, parse-Ends, parse_headers-Ends}

-- The end of the header section moves on; another header line stays.
unfoldable pub lift : Round → Round
lift (leave o) = advance after_headers o
lift (again p b) = again p b

unfoldable pub step_at : State → Parser → Buffer → Round
step_at request_line p b = advance (λ p'. headers) (parse_request_line p b)
step_at headers p b = lift (headers_round p b)
step_at body p b = advance (λ p'. done) (parse_body p b)
step_at done p b = leave (complete, p, b)

abbrev pub step : Parser → Buffer → Round
step p b = step_at p.state p b

pub data Run : Parser → Buffer → Round → Type 0 where
  stop : {p : Parser} {b : Buffer} {r : Round} → step p b ≡ r → Run p b r
  go :
      {p : Parser} {b : Buffer} {r : Round} (p' : Parser) (b' : Buffer)
      → step p b ≡ again p' b'
      → Run p' b' r
      → Run p b r

abbrev pub round_parser : Round → Parser
round_parser (leave (r, p, b)) = p
round_parser (again p b) = p

Run-trans :
    {p : Parser} {b : Buffer} {q : Round} (p' : Parser) (b' : Buffer) {r : Round}
    → Run p b q
    → q ≡ again p' b'
    → Run p' b' r
    → Run p b r
Run-trans p' b' (stop e) h t = go p' b' (e ∙ h) t
Run-trans p' b' (go p1 b1 e s) h t = go p1 b1 e (Run-trans p' b' s h t)

-- Two runs that leave have left alike.
pub Run-unique :
    {p : Parser} {b : Buffer} {r r' : Round} (o o' : Outcome)
    → Run p b r
    → r ≡ leave o
    → Run p b r'
    → r' ≡ leave o'
    → o ≡ o'
Run-unique o o' (stop e) h (stop e') h' = cc
Run-unique o o' (stop e) h (go p1 b1 e' s) h' = absurd (cc)
Run-unique o o' (go p1 b1 e s) h (stop e') h' = absurd (cc)
Run-unique {p} {b} {r} {r'} o o' (go p1 b1 e s) h (go p2 b2 e' s') h' =
    Run-unique o o' s h (subst (λ t. Run (round_parser t) (round_buffer t) r') (sym e' ∙ e) s') h'

add_header-state :
    (p : Parser) (name : Bytes) (v : Option Bytes) (b : Buffer) (p' : Parser) (b' : Buffer)
    → add_header p name v b ≡ again p' b'
    → p'.state ≡ p.state
unfolding add_header
add_header-state p name none b p' b' e = absurd (cc)
add_header-state p name (some v) b p' b' e = ground arith

header_line-state :
    (p : Parser) (line : Bytes) (b : Buffer) (p' : Parser) (b' : Buffer)
    → header_line p line b ≡ again p' b'
    → p'.state ≡ p.state
unfolding header_line
header_line-state p [] b p' b' e = absurd (cc)
header_line-state p (c ∷ line) b p' b' e = add_header-state p _ _ b p' b' e

take_header-state :
    (p : Parser) (raw : Bytes) (b : Buffer) (p' : Parser) (b' : Buffer)
    → take_header p raw b ≡ again p' b'
    → p'.state ≡ p.state
unfolding take_header
take_header-state p raw b p' b' e =
    elim (Bool-cases (ltb max_header_bytes (p.header_bytes + (length raw + 1)))) [
      | inl large ↦ absurd (cc (rw (large, take_header) at e))
      | inr fits ↦ header_line-state _ _ b p' b' (rw (fits, take_header) at e)
    ]

headers_round-state :
    (p : Parser) (b : Buffer) (p' : Parser) (b' : Buffer)
    → IsValid b
    → headers_round p b ≡ again p' b'
    → p'.state ≡ p.state
headers_round-state p b p' b' v e = elim (line-cases b v) [
  | inl (none_found, l) ↦ absurd (cc (headers_wait p b none_found))
  | inr (eol, line, rest, t) ↦
      take_header-state p line (retrieve_until b (eol + 1)) p' b' (sym (headers_take p b t) ∙ e)
]

step_is : (s : State) (p : Parser) (b : Buffer) → p.state ≡ s → step p b ≡ step_at s p b
step_is s p b e = ap (λ t. step_at t p b) e

pub step_headers :
    (p : Parser) (b : Buffer) (r : Round)
    → p.state ≡ headers
    → headers_round p b ≡ r
    → step p b ≡ lift r
step_headers p b r s e = step_is headers p b s ∙ unfold step_at in ap lift e

loop_leaves :
    (fuel : ℕ) (p : Parser) (b : Buffer) (o : Outcome)
    → headers_round p b ≡ leave o
    → headers_loop (suc fuel) p b ≡ some o
unfolding headers_loop
loop_leaves fuel p b o e = rw (e, headers_loop)

loop_goes :
    (fuel : ℕ) (p : Parser) (b : Buffer) (p' : Parser) (b' : Buffer)
    → headers_round p b ≡ again p' b'
    → headers_loop (suc fuel) p b ≡ headers_loop fuel p' b'
unfolding headers_loop
loop_goes fuel p b p' b' e = rw (e, headers_loop)

-- The header loop is a run of steps to the end of the header section.
headers_loop-Run :
    (fuel : ℕ) (p : Parser) (b : Buffer) (o : Outcome) (r : Round)
    → IsValid b
    → p.state ≡ headers
    → headers_round p b ≡ r
    → headers_loop (suc fuel) p b ≡ some o
    → Run p b (advance after_headers o)
unfolding lift
headers_loop-Run fuel p b o (leave o') v s e h =
    let same = some-injective o' o (sym (loop_leaves fuel p b o' e) ∙ h) in
    stop (step_headers p b (leave o') s e ∙ ap (advance after_headers) same)
headers_loop-Run zero p b o (again p' b') v s e h =
    absurd (unfold headers_loop in cc (sym (loop_goes 0 p b p' b' e) ∙ h))
headers_loop-Run (suc fuel) p b o (again p' b') v s e h =
    let (k, lt) = subst (λ r. Shrinks b r) e (headers_round-Shrinks p b v) in
    go p' b' (step_headers p b (again p' b') s e) (
      headers_loop-Run fuel p' b' o (headers_round p' b') k.valid
        (headers_round-state p b p' b' v e ∙ s) refl (sym (loop_goes (suc fuel) p b p' b' e) ∙ h))

parse_round-Run :
    (s : State) (p : Parser) (b : Buffer) (r : Round)
    → IsValid b
    → p.state ≡ s
    → parse_round s p b ≡ some r
    → Run p b r
unfolding parse_round step_at
parse_round-Run request_line p b r v s e = stop (step_is request_line p b s ∙ some-injective _ r e)
parse_round-Run headers p b r v s e =
    let (o, is, k) = parse_headers-Ends p b v in
    let same = some-injective (advance after_headers o) r (sym (rw (is, parse_round)) ∙ e) in
    subst (λ t. Run p b t) same
      (headers_loop-Run (readable_bytes b) p b o (headers_round p b) v s refl
        (unfold parse_headers in is))
parse_round-Run body p b r v s e = stop (step_is body p b s ∙ some-injective _ r e)
parse_round-Run done p b r v s e = stop (step_is done p b s ∙ some-injective _ r e)

loop_stops :
    (fuel : ℕ) (p : Parser) (b : Buffer) (o : Outcome)
    → parse_round p.state p b ≡ some (leave o)
    → parse_loop (suc fuel) p b ≡ some o
unfolding parse_loop
loop_stops fuel p b o e = rw (e, parse_loop)

loop_fails :
    (fuel : ℕ) (p : Parser) (b : Buffer)
    → parse_round p.state p b ≡ none
    → parse_loop (suc fuel) p b ≡ none
unfolding parse_loop
loop_fails fuel p b e = rw (e, parse_loop)

loop_moves :
    (fuel : ℕ) (p : Parser) (b : Buffer) (p' : Parser) (b' : Buffer)
    → parse_round p.state p b ≡ some (again p' b')
    → parse_loop (suc fuel) p b ≡ parse_loop fuel p' b'
unfolding parse_loop
loop_moves fuel p b p' b' e = rw (e, parse_loop)

parse_loop-Run :
    (fuel : ℕ) (p : Parser) (b : Buffer) (o : Outcome) (r : Option Round)
    → IsValid b
    → parse_round p.state p b ≡ r
    → parse_loop (suc fuel) p b ≡ some o
    → Run p b (leave o)
parse_loop-Run fuel p b o none v e h = absurd (cc (sym (loop_fails fuel p b e) ∙ h))
parse_loop-Run fuel p b o (some (leave o')) v e h =
    let same = some-injective o' o (sym (loop_stops fuel p b o' e) ∙ h) in
    subst (λ t. Run p b (leave t)) same (parse_round-Run p.state p b (leave o') v refl e)
parse_loop-Run zero p b o (some (again p' b')) v e h =
    absurd (unfold parse_loop in cc (sym (loop_moves 0 p b p' b' e) ∙ h))
parse_loop-Run (suc fuel) p b o (some (again p' b')) v e h =
    let (k, lt) = subst (Steps (rank p.state) b) e (parse_round-Steps p.state p b v) in
    Run-trans p' b' (parse_round-Run p.state p b (again p' b') v refl e) refl (
      parse_loop-Run fuel p' b' o (parse_round p'.state p' b') k.valid refl
        (sym (loop_moves (suc fuel) p b p' b' e) ∙ h))

-- What `parse` returns, a run of steps leaves with.
pub parse-Run :
    (p : Parser) (b : Buffer) (o : Outcome) → IsValid b → parse p b ≡ some o → Run p b (leave o)
unfolding parse
parse-Run p b o v e = parse_loop-Run 3 p b o (parse_round p.state p b) v refl e

-- What a run of steps leaves with, `parse` returns.
pub Run-parse :
    (p : Parser) (b : Buffer) (o : Outcome) → IsValid b → Run p b (leave o) → parse p b ≡ some o
Run-parse p b o v t =
    let (o', e, k) = parse-Ends p b v in
    e ∙ ap some (Run-unique o' o (parse-Run p b o' v e) refl t refl)
