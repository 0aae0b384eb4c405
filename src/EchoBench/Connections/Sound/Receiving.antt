-- ===== src/EchoBench/Connections/Sound/Receiving.antt =====
-- drainHttp, onResponseComplete and doRead keep a connection sound.
use mini_net.Prelude.{
  ℕ, zero, suc, ◌+◌, ◌≤◌, ◌≡◌, refl, ap, ◌∙◌, ◌⊎◌, Bool, true, false, not, ◌&&◌, List, [], ◌∷◌,
  ◌++◌, Bytes, text, ltb, if◌then◌else◌, arith, length, Bool-cases, inl, inr, leb, length-append,
  length-drop,
}
use mini_net.Ctype.Decimal.{print_decimal}
use mini_net.EchoBench.Payload.{verify_chunk}
use mini_net.EchoBench.Responses.{parse_one, need_more, complete, refused, ParseResult}
use mini_net.EchoBench.Responses.Bounds.{Within, parse_one-Within}
use mini_net.EchoBench.Connections.{
  Conn, ConnState, connecting, waiting, ready, done, failed, At, Plan, Env, now, on_conn, ticked,
  is_over, is_connecting, fail_conn, close_conn, more_requests, RecvAnswer, got, recv_interrupted,
  recv_would_block, recv_failed,
}
use mini_net.EchoBench.Connections.Receive.{
  refusal_text, keep_latency, take_time, count_status, on_response_complete, compact, unread,
  consume, drain_loop, drain_http, spent, complete_echoes, take_echo, take_bytes, peer_closed,
  with_recvs, read_loop, do_read,
}
use mini_net.EchoBench.Connections.Sound.{
  Others, Sound, fail_conn-Sound, close_conn-Sound, more_requests_lem,
}

-- Only a connection that is at work, or waits for the start, reads.
abbrev pub is_open : ConnState → Bool
is_open waiting = true
is_open ready = true
is_open connecting = false
is_open done = false
is_open failed = false

module _ (o : Plan) (e : Env) (x : Others) where
  abbrev pub SoundOpen : At → Type 0
  SoundOpen a = Sound o e x a × (is_open a.conn.state ≡ true)

  -- Where the result is true, the connection is still open.
  abbrev pub Read : Bool → At → Type 0
  Read good a = Sound o e x a × ((good ≡ false) ⊎ (is_open a.conn.state ≡ true))

  Read-if :
      (b : Bool) (p q : Bool × At)
      → Read p.0 p.1
      → Read q.0 q.1
      → let r = if b then p else q in Read r.0 r.1
  Read-if true p q h k = h
  Read-if false p q h k = k

  open_live : (a : At) → is_open a.conn.state ≡ true → is_over a.conn.state ≡ false
  open_live a h = ground arith

  open_made : (a : At) → is_open a.conn.state ≡ true → is_connecting a.conn.state ≡ false
  open_made a h = ground arith

  on_response_complete-Sound :
      (status : ℕ) (a : At) → SoundOpen a → SoundOpen (on_response_complete o e status a)
  unfolding on_response_complete take_time count_status keep_latency
  on_response_complete-Sound status a s = ground arith

  compact-Sound : (a : At) → SoundOpen a → Read true (on_conn (compact o e) a)
  unfolding compact
  compact-Sound a s = ground arith

  consume-Sound :
      (n : ℕ) (a : At) → SoundOpen a → n ≤ length (unread o e a.conn) → SoundOpen (consume o e n a)
  consume-Sound n a s h = ground (arith, length-drop a.conn.in_off a.conn.received)

  drain_loop-Sound :
      (fuel : ℕ) (a : At) → SoundOpen a → Read (drain_loop o e fuel a).0 (drain_loop o e fuel a).1
  unfolding drain_loop
  drain_loop-Sound zero a s = compact-Sound a s
  drain_loop-Sound (suc fuel) a s =
      by_result
        (λ status n h.
          drain_loop-Sound fuel (on_response_complete o e status (consume o e n a))
            (on_response_complete-Sound status (consume o e n a) (consume-Sound n a s h)))
        (parse_one (unread o e a.conn)) (parse_one-Within (unread o e a.conn))
    where
      Next : ParseResult → Bool × At
      Next r = elim r [
        | need_more ↦ (true, on_conn (compact o e) a)
        | refused why ↦ (false, fail_conn o e (text "响应解析失败") (refusal_text why) a)
        | complete status n ↦
            drain_loop o e fuel (on_response_complete o e status (consume o e n a))
      ]

      by_result :
          ((status n : ℕ)
            → n ≤ length (unread o e a.conn)
            → Read (Next (complete status n)).0 (Next (complete status n)).1)
          → (r : ParseResult) → Within (length (unread o e a.conn)) r
          → Read (Next r).0 (Next r).1
      by_result next need_more h = compact-Sound a s
      by_result next (refused why) h =
          (fail_conn-Sound o e x (text "响应解析失败") (refusal_text why) a s.0, inl refl)
      by_result next (complete status n) h = next status n h.1

  drain_http-Sound : (a : At) → SoundOpen a → Read (drain_http o e a).0 (drain_http o e a).1
  unfolding drain_http
  drain_http-Sound a s = drain_loop-Sound (suc (length (unread o e a.conn))) a s

  complete_echoes-Sound : (fuel : ℕ) (a : At) → SoundOpen a → SoundOpen (complete_echoes o e fuel a)
  unfolding complete_echoes
  complete_echoes-Sound zero a s = s
  complete_echoes-Sound (suc fuel) a s =
      let rest =
        complete_echoes-Sound fuel (on_response_complete o e 0 (spent o e o.size a))
          (on_response_complete-Sound 0 (spent o e o.size a) s) in
      elim (Bool-cases (leb o.size a.conn.echo_partial)) [
        | inl more ↦ rw more rest
        | inr short ↦ rw short s
      ]

  take_echo-Sound :
      (bytes : Bytes) (a : At)
      → SoundOpen a
      → Read (take_echo o e bytes a).0 (take_echo o e bytes a).1
  unfolding take_echo
  take_echo-Sound bytes a s =
      elim (Bool-cases
        (o.verify && not (verify_chunk o.echo_payload e.behind a.conn.echo_recv bytes))) [
          | inl wrong ↦ rw wrong (fail_conn-Sound o e x _ _ a s.0, inl refl)
          | inr same ↦ rw same (
              let rest =
                complete_echoes-Sound (a.conn.echo_partial + length bytes)
                  (on_conn
                    (λ c. record c {
                      echo_recv = c.echo_recv + length bytes;
                      echo_partial = c.echo_partial + length bytes;
                    })
                    a)
                  s in
              (rest.0, inr rest.1))
        ]

  take_bytes-Sound :
      (bytes : Bytes) (a : At)
      → SoundOpen a
      → Read (take_bytes o e bytes a).0 (take_bytes o e bytes a).1
  unfolding take_bytes
  take_bytes-Sound bytes a s =
      let filled = record (ticked a) {
        conn = record a.conn { last_progress = now o e a };
        totals = record a.totals { total_bytes_in = a.totals.total_bytes_in + length bytes };
      } in
      let appended = on_conn (λ c. record c { received = c.received ++ bytes }) filled in
      let grown : SoundOpen appended = ground (arith, length-append a.conn.received bytes) in
      Read-if o.http_mode _ _ (drain_http-Sound appended grown) (take_echo-Sound bytes filled s)

  -- The peer has closed where nothing is in flight.
  closed_idle :
      (too_early : At → At) (more : Bool) (a : At)
      → SoundOpen a
      → a.conn.inflight ≡ 0
      → (more ≡ true) ⊎ ((o.duration_mode ≡ true) ⊎ (o.requests ≤ a.conn.sent_req))
      → ((b : At) → Sound o e x b → Sound o e x (too_early b))
      → Sound o e x (if more then too_early a else close_conn true a)
  closed_idle too_early true a s idle all early = early a s.0
  closed_idle too_early false a s idle all early =
      close_conn-Sound o e x a s.0 (open_live a s.1) (open_made a s.1) idle (ground arith)

  peer_closed-Sound : (a : At) → SoundOpen a → Sound o e x (peer_closed o e a)
  unfolding peer_closed
  peer_closed-Sound a s =
      let too_early = λ (b : At) (h : Sound o e x b).
        fail_conn-Sound o e x (text "对端提前关闭")
          (text "还有 "
            ++ (print_decimal a.conn.inflight
                ++ text " 个在途请求没收到响应，服务端就把连接关了（可能是 keep-alive 没实现，或者空闲超时设得太短）"))
          b h in
      let asked = more_requests_lem o e x a s.0 in
      let same = ap (λ (c : Conn). is_open c.state) asked.1 in
      elim (Bool-cases (ltb 0 a.conn.inflight)) [
        | inl waits ↦ simp waits (too_early a s.0)
        | inr idle ↦ simp idle (
            closed_idle
              (λ b.
                fail_conn o e (text "对端提前关闭")
                  (text "还有 "
                    ++ (print_decimal a.conn.inflight
                        ++ text " 个在途请求没收到响应，服务端就把连接关了（可能是 keep-alive 没实现，或者空闲超时设得太短）"))
                  b)
              (more_requests o e a).0 (more_requests o e a).1 (asked.0, same ∙ s.1) (ground arith)
              (ground arith) too_early)
      ]

  pub read_loop-Sound :
      (rounds : ℕ) (answers : List RecvAnswer) (a : At)
      → SoundOpen a
      → Read (read_loop o e rounds answers a).0 (read_loop o e rounds answers a).1
  unfolding read_loop
  read_loop-Sound zero answers a s = ground arith
  read_loop-Sound (suc rounds) [] a s = ground arith
  read_loop-Sound (suc rounds) (got [] ∷ answers) a s =
      (peer_closed-Sound (with_recvs o e answers a) s, inl refl)
  read_loop-Sound (suc rounds) (got (c ∷ bytes) ∷ answers) a s =
      let taken = take_bytes-Sound (c ∷ bytes) a s in
      ground (arith, read_loop-Sound rounds answers (take_bytes o e (c ∷ bytes) a).1)
  read_loop-Sound (suc rounds) (recv_interrupted ∷ answers) a s = read_loop-Sound rounds answers a s
  read_loop-Sound (suc rounds) (recv_would_block ∷ answers) a s = ground arith
  read_loop-Sound (suc rounds) (recv_failed errno ∷ answers) a s = (
    fail_conn-Sound o e x (text "接收失败") (text "recv: " ++ e.strerror errno)
        (with_recvs o e answers a) s.0,
    inl refl,
  )

  pub do_read-Sound : (a : At) → SoundOpen a → Read (do_read o e a).0 (do_read o e a).1
  unfolding do_read
  do_read-Sound a s = read_loop-Sound 16 a.world.recvs a s
