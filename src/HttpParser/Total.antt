-- ===== src/HttpParser/Total.antt =====
-- The loops of the parser end: the fuel that the model gives them is enough.
use mini_net.Prelude.{ℕ, zero, suc, ◌<◌, ◌≤◌, ◌≡◌, refl, Option, none, some, arith}
use mini_net.Buffer.{Buffer, readable_bytes}
use mini_net.Buffer.View.{IsValid}
use mini_net.HttpParser.{
  Parser, State, request_line, headers, body, done, need_more, complete, error, Outcome, Round,
  leave, again, headers_round, headers_loop, parse_headers, parse_request_line, parse_body, parse,
  parse_loop, parse_round, advance,
}
use mini_net.HttpParser.Lines.{
  Keeps, Keeps-refl, Keeps-trans, Shrinks, headers_round-Shrinks, parse_request_line-Keeps,
  parse_body-Keeps,
}

-- A loop that has come to an end with `b'` left of `b`.
abbrev pub Ends : Buffer → Option Outcome → Type 0
Ends b o = (r : Outcome) × (o ≡ some r) × Keeps b r.2

headers_loop_step :
    (fuel : ℕ) (p : Parser) (b : Buffer) (r : Round)
    → headers_round p b ≡ r
    → Shrinks b r
    → readable_bytes b ≤ fuel
    → ((p' : Parser) (b' : Buffer)
        → IsValid b'
        → readable_bytes b' < fuel
        → Ends b' (headers_loop fuel p' b'))
    → Ends b (headers_loop (suc fuel) p b)
unfolding headers_loop
headers_loop_step fuel p b (leave o) e k h rest = (o, rw (e, headers_loop), k)
headers_loop_step fuel p b (again p' b') e (k, lt) h rest =
    let (o, is, l) = rest p' b' k.valid (omega arith) in
    (o, rw (e, headers_loop) is, Keeps-trans k l)

headers_loop-Ends :
    (fuel : ℕ) (p : Parser) (b : Buffer)
    → IsValid b
    → readable_bytes b < fuel
    → Ends b (headers_loop fuel p b)
headers_loop-Ends zero p b v h = elim h [ ]
headers_loop-Ends (suc fuel) p b v h =
    headers_loop_step fuel p b (headers_round p b) refl (headers_round-Shrinks p b v) (omega arith)
      (headers_loop-Ends fuel)

pub parse_headers-Ends : (p : Parser) (b : Buffer) → IsValid b → Ends b (parse_headers p b)
unfolding parse_headers
parse_headers-Ends p b v = headers_loop-Ends (suc (readable_bytes b)) p b v (omega arith)

-- How many rounds of the state machine are left.
abbrev pub rank : State → ℕ
rank request_line = 3
rank headers = 2
rank body = 1
rank done = 0

abbrev pub Steps : ℕ → Buffer → Option Round → Type 0
Steps n b none = ⊥
Steps n b (some (leave o)) = Keeps b o.2
Steps n b (some (again p b')) = Keeps b b' × (rank p.state < n)

advance-Steps :
    (n : ℕ) (b : Buffer) (next : Parser → State) (o : Outcome)
    → Keeps b o.2
    → ((p : Parser) → rank (next p) < n)
    → Steps n b (some (advance next o))
unfolding advance
advance-Steps n b next (complete, p, b') k h = (k, h p)
advance-Steps n b next (need_more, p, b') k h = k
advance-Steps n b next (error e, p, b') k h = k

pub parse_round-Steps :
    (s : State) (p : Parser) (b : Buffer) → IsValid b → Steps (rank s) b (parse_round s p b)
unfolding parse_round
parse_round-Steps request_line p b v =
    advance-Steps 3 b _ (parse_request_line p b) (parse_request_line-Keeps p b v)
      (λ p'. omega arith)
parse_round-Steps headers p b v =
    let (o, e, k) = parse_headers-Ends p b v in
    rw (e, parse_round) (advance-Steps 2 b _ o k (λ p'. ground arith))
parse_round-Steps body p b v =
    advance-Steps 1 b _ (parse_body p b) (parse_body-Keeps p b v) (λ p'. omega arith)
parse_round-Steps done p b v = Keeps-refl b v

parse_loop_step :
    (fuel : ℕ) (p : Parser) (b : Buffer) (r : Option Round)
    → parse_round p.state p b ≡ r
    → Steps (rank p.state) b r
    → rank p.state ≤ fuel
    → ((p' : Parser) (b' : Buffer)
        → IsValid b'
        → rank p'.state < fuel
        → Ends b' (parse_loop fuel p' b'))
    → Ends b (parse_loop (suc fuel) p b)
unfolding parse_loop
parse_loop_step fuel p b none e s h rest = absurd s
parse_loop_step fuel p b (some (leave o)) e k h rest = (o, rw (e, parse_loop), k)
parse_loop_step fuel p b (some (again p' b')) e (k, lt) h rest =
    let (o, is, l) = rest p' b' k.valid (omega arith) in (o, rw (e, parse_loop) is, Keeps-trans k l)

parse_loop-Ends :
    (fuel : ℕ) (p : Parser) (b : Buffer)
    → IsValid b
    → rank p.state < fuel
    → Ends b (parse_loop fuel p b)
parse_loop-Ends zero p b v h = elim h [ ]
parse_loop-Ends (suc fuel) p b v h =
    parse_loop_step fuel p b (parse_round p.state p b) refl (parse_round-Steps p.state p b v)
      (omega arith) (parse_loop-Ends fuel)

rank-le : (s : State) → rank s < 4
rank-le request_line = omega arith
rank-le _ = omega arith

-- In every state and on every valid buffer `parse` returns; it leaves the buffer valid, and what it
-- leaves of the unread bytes is a tail of them.
pub parse-Ends : (p : Parser) (b : Buffer) → IsValid b → Ends b (parse p b)
unfolding parse
parse-Ends p b v = parse_loop-Ends 4 p b v (rank-le p.state)
