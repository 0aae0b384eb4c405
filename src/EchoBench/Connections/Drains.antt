-- ===== src/EchoBench/Connections/Drains.antt =====
-- What drainHttp makes of the responses that a server has written.
use mini_net.Prelude.{
  ℕ, zero, suc, ◌+◌, ◌<◌, ◌≤◌, ◌≡◌, refl, sym, ap, ◌∙◌, inl, inr, Bool, true, false, List, [], ◌∷◌,
  ◌++◌, append_assoc, Bytes, text, ltb, ◌==◌, if◌then◌else◌, arith, length, drop, drop-drop,
  drop_all, drop-append, length-append, Bool-cases, subst,
}
use mini_net.HttpTypes.{HttpResponse, serialize}
use mini_net.EchoBench.Responses.{ParseResult, need_more, complete, refused, parse_one}
use mini_net.EchoBench.Responses.Bounds.{Within, parse_one-Within}
use mini_net.EchoBench.Responses.Written.{IsWritable}
use mini_net.EchoBench.Responses.ReadBack.{parse_one-serialize}
use mini_net.EchoBench.Connections.{Conn, At, Plan, Env, on_conn, fail_conn}
use mini_net.EchoBench.Connections.Receive.{
  refusal_text, is_expected, keep_latency, take_time, count_status, on_response_complete, compact,
  unread, consume, drain_loop, drain_http,
}

abbrev pub AreWritable : List HttpResponse → Type 0
AreWritable [] = Unit {0}
AreWritable (r ∷ rs) = IsWritable r × AreWritable rs

abbrev pub written : List HttpResponse → Bytes
written [] = []
written (r ∷ rs) = serialize r ++ written rs

-- How many of the responses have a status that is expected.
abbrev pub expected : List ℕ → List HttpResponse → ℕ
expected statuses [] = 0
expected statuses (r ∷ rs) = (if is_expected statuses r.status then 1 else 0) + expected statuses rs

-- A written response is not empty, since no text is whole without a byte.
serialized_some : (r : HttpResponse) → IsWritable r → 1 ≤ length (serialize r)
serialized_some r w =
    let found =
      subst (Within (length (serialize r ++ []))) (parse_one-serialize r [] w)
        (parse_one-Within (serialize r ++ [])) in
    omega (arith, found.0)

written_long : (rs : List HttpResponse) → AreWritable rs → length rs ≤ length (written rs)
written_long [] w = omega arith
written_long (r ∷ rs) w =
    omega
      (arith, length-append (serialize r) (written rs), serialized_some r w.0, written_long rs w.1)

module _ (o : Plan) (e : Env) where
  compact-unread : (c : Conn) → unread o e (compact o e c) ≡ unread o e c
  unfolding compact
  compact-unread c = elim (Bool-cases (c.in_off == length c.received)) [
    | inl all ↦ rw all (sym (drop_all c.in_off c.received (ground arith)))
    | inr some ↦
        rw some
          (elim (Bool-cases (ltb 8192 c.in_off)) [ inl long ↦ rw long | inr short ↦ rw short ])
  ]

  compact-done_req : (c : Conn) → (compact o e c).done_req ≡ c.done_req
  unfolding compact
  compact-done_req c = ground arith

  consume-unread : (n : ℕ) (a : At) → unread o e (consume o e n a).conn ≡ drop n (unread o e a.conn)
  consume-unread n a = sym (drop-drop n a.conn.in_off a.conn.received)

  -- What a response changes.
  record IsCounted (status : ℕ) (a b : At) : Type 0 where
    answered : b.conn.done_req ≡ a.conn.done_req + 1
    good :
        o.http_mode ≡ true
        → b.totals.ok ≡ a.totals.ok + (if is_expected o.expect_status status then 1 else 0)
    all : b.totals.ok + b.totals.bad_status ≡ a.totals.ok + a.totals.bad_status + 1

  complete-IsCounted :
      (status : ℕ) (a : At) → IsCounted status a (on_response_complete o e status a)
  unfolding on_response_complete take_time count_status keep_latency
  complete-IsCounted status a = record {
    answered = ground arith;
    good = λ http. ground arith;
    all = ground arith;
  }

  complete-unread :
      (status : ℕ) (a : At)
      → unread o e (on_response_complete o e status a).conn ≡ unread o e a.conn
  unfolding on_response_complete take_time
  complete-unread status a = ground arith

  -- What a drain of whole responses, and of a rest that is none, changes.
  pub record IsDrained (rs : List HttpResponse) (rest : Bytes) (a : At) (q : Bool × At)
      : Type 0 where
    pub goes_on : q.0 ≡ true
    pub left : unread o e q.1.conn ≡ rest
    pub answered : q.1.conn.done_req ≡ a.conn.done_req + length rs
    pub good : o.http_mode ≡ true → q.1.totals.ok ≡ a.totals.ok + expected o.expect_status rs
    pub all : q.1.totals.ok + q.1.totals.bad_status ≡ a.totals.ok + a.totals.bad_status + length rs

  IsDrained-more :
      (r : HttpResponse) (rs : List HttpResponse) (rest : Bytes) (a b : At) (q : Bool × At)
      → IsCounted r.status a b
      → IsDrained rs rest b q
      → IsDrained (r ∷ rs) rest a q
  IsDrained-more r rs rest a b q c d = record {
    goes_on = d.goes_on;
    left = d.left;
    answered = omega (arith, c.answered, d.answered);
    good = λ http. omega (arith, c.good http, d.good http);
    all = omega (arith, c.all, d.all);
  }

  -- A round of the loop, for what parseOne says.
  abbrev drain_next : ℕ → At → ParseResult → Bool × At
  drain_next fuel a r = elim r [
    | need_more ↦ (true, on_conn (compact o e) a)
    | refused why ↦ (false, fail_conn o e (text "响应解析失败") (refusal_text why) a)
    | complete status n ↦ drain_loop o e fuel (on_response_complete o e status (consume o e n a))
  ]

  drain_step :
      (fuel : ℕ) (a : At) (r : ParseResult)
      → parse_one (unread o e a.conn) ≡ r
      → drain_next fuel a r ≡ drain_loop o e (suc fuel) a
  unfolding drain_loop
  drain_step fuel a r h = ap (drain_next fuel a) (sym h)

  drain_loop-written :
      (rs : List HttpResponse) (fuel : ℕ) (rest : Bytes) (a : At)
      → AreWritable rs
      → unread o e a.conn ≡ written rs ++ rest
      → parse_one rest ≡ need_more
      → length rs < fuel
      → IsDrained rs rest a (drain_loop o e fuel a)
  drain_loop-written rs zero rest a w is ends h = absurd (omega (arith, h))
  drain_loop-written [] (suc fuel) rest a w is ends h =
      let e1 : parse_one (unread o e a.conn) ≡ need_more = ap parse_one is ∙ ends in
      subst (IsDrained [] rest a) (drain_step fuel a need_more e1) (record {
        goes_on = refl;
        left = compact-unread a.conn ∙ is;
        answered = omega (arith, compact-done_req a.conn);
        good = λ http. omega arith;
        all = omega arith;
      })
  drain_loop-written (r ∷ rs) (suc fuel) rest a w is ends h =
      let n = length (serialize r) in
      let s1 : unread o e a.conn ≡ serialize r ++ (written rs ++ rest) =
        is ∙ append_assoc (serialize r) (written rs) rest in
      let e1 : parse_one (unread o e a.conn) ≡ complete r.status n =
        ap parse_one s1 ∙ parse_one-serialize r (written rs ++ rest) w.0 in
      let a1 = consume o e n a in
      let b = on_response_complete o e r.status a1 in
      let c0 = complete-IsCounted r.status a1 in
      let c : IsCounted r.status a b = record {
        answered = c0.answered;
        good = c0.good;
        all = c0.all;
      } in
      let s2 : unread o e b.conn ≡ written rs ++ rest =
        complete-unread r.status a1
        ∙ consume-unread n a
        ∙ ap (drop n) s1
        ∙ drop-append (serialize r) (written rs ++ rest) in
      let rest_of = drain_loop-written rs fuel rest b w.1 s2 ends (omega (arith, h)) in
      subst (IsDrained (r ∷ rs) rest a) (drain_step fuel a (complete r.status n) e1)
        (IsDrained-more r rs rest a b _ c rest_of)

  -- Responses that a server has written, and that the client has received with a rest that is no
  -- whole response yet: drainHttp takes them all and nothing of the rest. It counts as many answers,
  -- and in http mode those with an expected status as good.
  pub drain_http-written :
      (rs : List HttpResponse) (rest : Bytes) (a : At)
      → AreWritable rs
      → unread o e a.conn ≡ written rs ++ rest
      → parse_one rest ≡ need_more
      → IsDrained rs rest a (drain_http o e a)
  unfolding drain_http
  drain_http-written rs rest a w is ends =
      drain_loop-written rs (suc (length (unread o e a.conn))) rest a w is ends (
        omega (
          arith,
          ap (λ (x : Bytes). length x) is,
          length-append (written rs) rest,
          written_long rs w,
        ))
