-- ===== src/HttpServer/Progress.antt =====
-- The loop of onMessage ends: every request that it answers and goes on from has taken a line.
use mathlib.Core.Option.{some-injective}
use mini_net.Prelude.{
  ℕ, zero, suc, ◌<◌, ◌≤◌, ◌≡◌, refl, sym, ap, ◌∙◌, subst, Bool, true, false, ◌&&◌, Option, some,
  arith, length, length-append, inl, inr, Bool-cases,
}
use mini_net.Buffer.{Buffer, readable_bytes}
use mini_net.Buffer.View.{IsValid, length-contents}
use mini_net.Buffer.Lines.{line-cases}
use mini_net.HttpTypes.{HttpRequest, HttpResponse, new_response}
use mini_net.HttpParser.{
  Parser, State, request_line, Result, need_more, complete, error, Round, leave, again, parse,
  new_parser, headers_too_large, advance, take_request_line, wait_request_line,
}
use mini_net.HttpParser.Lines.{Keeps, request_line_waits, request_line_takes, TakesLine-shrinks}
use mini_net.HttpParser.Step.{Run, stop, go, step_at, parse-Run, Run-parse}
use mini_net.HttpParser.Total.{parse-Ends}
use mini_net.HttpServer.Exchange.{Exchanged, RoundOf, react-RoundOf, then_Exchanged}
use mini_net.HttpServer.{
  Turn, Handler, react, answer, run_handler, handle_error, message_round, message_loop, answer_all,
}

Keeps-readable : {b b' : Buffer} → IsValid b → Keeps b b' → readable_bytes b' ≤ readable_bytes b
Keeps-readable {b} {b'} v k = omega (
  arith,
  length-contents b v,
  length-contents b' k.valid,
  ap length k.cut,
  length-append k.used _,
)

-- A step from the request line goes on with a shorter buffer, or leaves without a request.
abbrev Consumes : Buffer → Round → Type 0
Consumes b (again p b') = IsValid b' × (readable_bytes b' < readable_bytes b)
Consumes b (leave (complete, p, b')) = ⊥
Consumes b (leave (need_more, p, b')) = Unit {0}
Consumes b (leave (error e, p, b')) = Unit {0}

advance-Consumes :
    (b : Buffer) (next : Parser → State) (r : Result) (p : Parser) (b' : Buffer)
    → IsValid b'
    → readable_bytes b' < readable_bytes b
    → Consumes b (advance next (r, p, b'))
unfolding advance
advance-Consumes b next complete p b' v h = (v, h)
advance-Consumes b next need_more p b' v h = tt
advance-Consumes b next (error e) p b' v h = tt

wait-Consumes :
    (b : Buffer) (next : Parser → State) (p : Parser)
    → Consumes b (advance next (wait_request_line p b))
unfolding wait_request_line advance
wait-Consumes b next p = unfold headers_too_large in ground arith

step-Consumes : (p : Parser) (b : Buffer) → IsValid b → Consumes b (step_at request_line p b)
unfolding step_at
step-Consumes p b v = elim (line-cases b v) [
  | inl (e, l) ↦ rw (request_line_waits p b e) (wait-Consumes b _ p)
  | inr (eol, line, rest, t) ↦
      rw (request_line_takes p b t)
        (unfold take_request_line in advance-Consumes b _ _ _ _ t.valid (TakesLine-shrinks v t))
]

Run-consumes :
    {p : Parser} {b : Buffer} {r : Round} (p' : Parser) (b' : Buffer)
    → Run p b r
    → r ≡ leave (complete, p', b')
    → p.state ≡ request_line
    → IsValid b
    → readable_bytes b' < readable_bytes b
Run-consumes {p} {b} p' b' (stop e) h s v =
    absurd (subst (Consumes b) (ap (λ t. step_at t p b) (sym s) ∙ e ∙ h) (step-Consumes p b v))
Run-consumes {p} {b} p' b' (go p1 b1 e t) h s v =
    let (v1, lt) = subst (Consumes b) (ap (λ t. step_at t p b) (sym s) ∙ e) (step-Consumes p b v) in
    let (o, is, k) = parse-Ends p1 b1 v1 in
    let same = some-injective o _ (sym is ∙ Run-parse p1 b1 _ v1 (subst (Run p1 b1) h t)) in
    let shorter = Keeps-readable v1 (subst (λ o. Keeps b1 o.2) same k) in omega (arith, shorter, lt)

-- A request that a fresh parser completes has taken at least a byte.
parse-consumes :
    (p p' : Parser) (b b' : Buffer)
    → IsValid b
    → p.state ≡ request_line
    → parse p b ≡ some (complete, p', b')
    → readable_bytes b' < readable_bytes b
parse-consumes p p' b b' v s e = Run-consumes p' b' (parse-Run p b _ v e) refl s v

-- What a round does to the buffer: it stays valid and does not grow, and a round that goes on has
-- reset the parser and, from the request line, has made the buffer shorter.
record Advances (p : Parser) (b : Buffer) (goes_on : Bool) (p' : Parser) (b' : Buffer)
    : Type 0 where
  valid : IsValid b'
  shorter : readable_bytes b' ≤ readable_bytes b
  fresh : goes_on ≡ true → p' ≡ new_parser
  consumed : goes_on ≡ true → p.state ≡ request_line → readable_bytes b' < readable_bytes b

module _ {S : Type 0} where
  answer-input :
      (req : HttpRequest) (t : Turn S) (x : S × HttpResponse)
      → (answer req t x).1.conn.input ≡ t.conn.input
  unfolding answer
  answer-input req t (app, r) = elim (Bool-cases (req.keep_alive && r.keep_alive)) [
    | inl stays ↦ rw stays
    | inr closes ↦ rw closes
  ]

  answer-fresh :
      (req : HttpRequest) (t : Turn S) (x : S × HttpResponse)
      → (answer req t x).0 ≡ true
      → (answer req t x).1.conn.parser ≡ new_parser
  unfolding answer
  answer-fresh req t (app, r) = elim (Bool-cases (req.keep_alive && r.keep_alive)) [
    | inl stays ↦ rw stays (λ h. refl)
    | inr closes ↦ rw closes (λ h. absurd (cc))
  ]

  react-Advances :
      (handler : Option (Handler S)) (t : Turn S) (r : Result) (p : Parser) (b : Buffer)
      → IsValid t.conn.input
      → parse t.conn.parser t.conn.input ≡ some (r, p, b)
      → Keeps t.conn.input b
      → let (goes_on, t') =
          react handler r (record t { conn = record { input = b; parser = p } }) in
        Advances t.conn.parser t.conn.input goes_on t'.conn.parser t'.conn.input
  unfolding react
  react-Advances handler t need_more p b v e k = record {
    valid = k.valid;
    shorter = Keeps-readable v k;
    fresh = λ h. absurd (cc);
    consumed = λ h s. absurd (cc);
  }
  react-Advances handler t (error x) p b v e k =
      unfold handle_error in
      record {
        valid = k.valid;
        shorter = Keeps-readable v k;
        fresh = λ h. absurd (cc);
        consumed = λ h s. absurd (cc);
      }
  react-Advances handler t complete p b v e k =
      let t0 = record t { conn = record { input = b; parser = p } } in
      let x =
        run_handler handler t.app p.req (record new_response { keep_alive = p.req.keep_alive }) in
      let same = answer-input p.req t0 x in
      record {
        valid = subst IsValid (sym same) k.valid;
        shorter =
            subst (λ c. readable_bytes c ≤ readable_bytes t.conn.input) (sym same)
              (Keeps-readable v k);
        fresh = answer-fresh p.req t0 x;
        consumed = λ h s.
            subst (λ c. readable_bytes c < readable_bytes t.conn.input) (sym same)
              (parse-consumes t.conn.parser p t.conn.input b v s e);
      }

  -- The loop has come to an end, and has done what the message asks for.
  abbrev pub Ended : Option (Handler S) → Turn S → Option (Turn S) → Type 0
  Ended handler t o = (t' : Turn S) × (o ≡ some t') × IsValid t'.conn.input × Exchanged handler t t'

  round_is :
      (handler : Option (Handler S)) (t : Turn S) (r : Result) (p : Parser) (b : Buffer)
      → parse t.conn.parser t.conn.input ≡ some (r, p, b)
      → message_round handler t
        ≡ some (react handler r (record t { conn = record { input = b; parser = p } }))
  unfolding message_round
  round_is handler t r p b e = rw (e, message_round)

  round-Advances :
      (handler : Option (Handler S)) (t : Turn S)
      → IsValid t.conn.input
      → (goes_on : Bool) × (t' : Turn S) × (message_round handler t ≡ some (goes_on, t'))
        × Advances t.conn.parser t.conn.input goes_on t'.conn.parser t'.conn.input
        × RoundOf handler t goes_on t'
  round-Advances handler t v =
      let ((r, p, b), e, k) = parse-Ends t.conn.parser t.conn.input v in
      (
        _,
        _,
        round_is handler t r p b e,
        react-Advances handler t r p b v e k,
        react-RoundOf handler t r p b e,
      )

  loop_ends :
      (fuel : ℕ) (handler : Option (Handler S)) (t : Turn S) (goes_on : Bool) (t' : Turn S)
      → message_round handler t ≡ some (goes_on, t')
      → IsValid t'.conn.input
      → RoundOf handler t goes_on t'
      → (goes_on ≡ true → Ended handler t' (message_loop fuel handler t'))
      → Ended handler t (message_loop (suc fuel) handler t)
  unfolding message_loop
  loop_ends fuel handler t false t' e v k rest = (t', rw (e, message_loop), v, k)
  loop_ends fuel handler t true t' e v k rest =
      let (t2, is, v2, k2) = rest refl in
      (t2, rw (e, message_loop) is, v2, then_Exchanged handler t t' t2 k k2)

  -- From a fresh parser each round that goes on shortens the buffer.
  fresh_loop :
      (fuel : ℕ) (handler : Option (Handler S)) (t : Turn S)
      → IsValid t.conn.input
      → t.conn.parser.state ≡ request_line
      → readable_bytes t.conn.input < fuel
      → Ended handler t (message_loop fuel handler t)
  fresh_loop zero handler t v s h = absurd (omega arith)
  fresh_loop (suc fuel) handler t v s h =
      let (goes_on, t', e, a, k) = round-Advances handler t v in
      loop_ends fuel handler t goes_on t' e a.valid k (λ on.
        fresh_loop fuel handler t' a.valid (ap (λ p. p.state) (a.fresh on))
          (omega (arith, a.consumed on s, h)))

  pub answer_all-Ended :
      (handler : Option (Handler S)) (t : Turn S)
      → IsValid t.conn.input
      → Ended handler t (answer_all handler t)
  unfolding answer_all
  answer_all-Ended handler t v =
      let (goes_on, t', e, a, k) = round-Advances handler t v in
      loop_ends _ handler t goes_on t' e a.valid k (λ on.
        fresh_loop _ handler t' a.valid (ap (λ p. p.state) (a.fresh on)) (omega (arith, a.shorter)))
