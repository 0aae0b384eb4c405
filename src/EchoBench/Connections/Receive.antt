-- ===== src/EchoBench/Connections/Receive.antt =====
-- How the connections receive: drainHttp, onResponseComplete and doRead.
use mini_net.Prelude.{
  ℕ, zero, suc, ◌+◌, ◌-◌, ◌%◌, ◌^◌, Bool, true, false, not, ◌&&◌, List, [], ◌∷◌, ◌++◌, Bytes, text,
  ltb, leb, ◌==◌, if◌then◌else◌, length, drop,
}
use mini_net.Ctype.Decimal.{print_decimal}
use mini_net.EchoBench.Payload.{verify_chunk}
use mini_net.EchoBench.Responses.{
  need_more, complete, refused, Refusal, head_too_long, not_http, no_status, bad_status,
  chunked_body, no_length, parse_one,
}
use mini_net.EchoBench.Connections.{
  Conn, Totals, At, Plan, Env, RecvAnswer, got, recv_interrupted, recv_would_block, recv_failed,
  on_conn, ticked, now, bump, fail_conn, close_conn, more_requests,
}

-- What parseOne's `err` says; the status that it quotes from the response is left out.
unfoldable pub refusal_text : Refusal → Bytes
refusal_text head_too_long = text "响应头超过 64 KiB 还没结束，服务端可能没有按 HTTP 格式回应"
refusal_text not_http = text "状态行不是 HTTP 格式（可能连到的不是 HTTP 服务）"
refusal_text no_status = text "状态行里找不到状态码"
refusal_text bad_status = text "状态码不合法：解析出 "
refusal_text chunked_body = text "响应用了 chunked 编码，本压测客户端不支持；接口契约要求所有响应都带 Content-Length，请检查服务端"
refusal_text no_length = text "响应缺少 Content-Length，无法判断响应到哪里结束（契约要求所有响应都带它）"

abbrev pub nat_eq : ℕ → ℕ → Bool
nat_eq a b = a == b

unfoldable pub is_expected : List ℕ → ℕ → Bool
is_expected [] status = false
is_expected (s ∷ expected) status = if s == status then true else is_expected expected status

-- The time is taken off the queue, and the queue that is used up is emptied.
abbrev pub pop_time : Conn → Conn
pop_time c =
    if c.ts_head + 1 == length c.ts
    then record c { ts = []; ts_head = 0 }
    else record c { ts_head = c.ts_head + 1 }

-- kMaxLatencySamples
abbrev pub max_latency_samples : ℕ
max_latency_samples = 4000000

unfoldable pub keep_latency : ℕ → Totals → Totals
keep_latency lat t =
    if lat == 0
    then t
    else if ltb (length t.lat_ns) max_latency_samples
    then record t { lat_ns = t.lat_ns ++ lat ∷ [] }
    else record t { lat_dropped = t.lat_dropped + 1 }

-- The byte at an index, 0 past the end.
abbrev pub time_at : List ℕ → ℕ → ℕ
time_at [] i = 0
time_at (t ∷ ts) zero = t
time_at (t ∷ ts) (suc i) = time_at ts i

module _ (o : Plan) (e : Env) where
  -- A difference of two uint64_t.
  abbrev pub elapsed : ℕ → ℕ → ℕ
  elapsed later earlier = (later + 2 ^ 64 - earlier) % 2 ^ 64

  -- The latency of the oldest request in flight, which is taken off the queue; 0 where there is none.
  unfoldable pub take_time : At → ℕ × At
  take_time a =
      if ltb a.conn.ts_head (length a.conn.ts)
      then (elapsed (now o e a) (time_at a.conn.ts a.conn.ts_head), on_conn pop_time (ticked a))
      else (0, a)

  unfoldable pub count_status : ℕ → Totals → Totals
  count_status status t =
      if o.http_mode
      then (let t1 = record t { status_hist = bump nat_eq status t.status_hist } in
          if is_expected o.expect_status status
          then record t1 { ok = t.ok + 1 }
          else record t1 { bad_status = t.bad_status + 1 })
      else record t { ok = t.ok + 1 }

  unfoldable pub on_response_complete : ℕ → At → At
  on_response_complete status a =
      let (lat, a1) = take_time a in
      record (ticked a1) {
        conn = record a1.conn {
          inflight = a1.conn.inflight - 1;
          done_req = a1.conn.done_req + 1;
          last_progress = now o e a1;
        };
        totals = keep_latency lat (count_status status a1.totals);
      }

  -- The prefix that has been read goes, where it is all or long.
  unfoldable pub compact : Conn → Conn
  compact c =
      if c.in_off == length c.received
      then record c { received = []; in_off = 0 }
      else if ltb 8192 c.in_off
      then record c { received = drop c.in_off c.received; in_off = 0 }
      else c

  abbrev pub unread : Conn → Bytes
  unread c = drop c.in_off c.received

  abbrev pub consume : ℕ → At → At
  consume n a = on_conn (λ c. record c { in_off = c.in_off + n }) a

  -- The result is false where the connection has failed.
  unfoldable pub drain_loop : ℕ → At → Bool × At
  drain_loop zero a = (true, on_conn compact a)
  drain_loop (suc fuel) a = elim (parse_one (unread a.conn)) [
    | need_more ↦ (true, on_conn compact a)
    | refused why ↦ (false, fail_conn o e (text "响应解析失败") (refusal_text why) a)
    | complete status n ↦ drain_loop fuel (on_response_complete status (consume n a))
  ]

  -- Each response has a byte at least, so the rounds are at most as many as the bytes, and one.
  unfoldable pub drain_http : At → Bool × At
  drain_http a = drain_loop (suc (length (unread a.conn))) a

  abbrev pub spent : ℕ → At → At
  spent n a = on_conn (λ c. record c { echo_partial = c.echo_partial - n }) a

  unfoldable pub complete_echoes : ℕ → At → At
  complete_echoes zero a = a
  complete_echoes (suc fuel) a =
      let rest = complete_echoes fuel (on_response_complete 0 (spent o.size a)) in
      if leb o.size a.conn.echo_partial then rest else a

  unfoldable pub take_echo : Bytes → At → Bool × At
  take_echo bytes a =
      if o.verify && not (verify_chunk o.echo_payload e.behind a.conn.echo_recv bytes)
      then (
        false,
        fail_conn o e (text "回显内容不对")
            (text "收到的字节和发出去的不一样（第 "
              ++ (print_decimal a.conn.echo_recv ++ text " 字节附近开始不一致），服务端回显逻辑可能有 bug"))
            a,
      )
      else (let a1 =
            on_conn
              (λ c. record c {
                echo_recv = c.echo_recv + length bytes;
                echo_partial = c.echo_partial + length bytes;
              })
              a in
          (true, complete_echoes a1.conn.echo_partial a1))

  unfoldable pub take_bytes : Bytes → At → Bool × At
  take_bytes bytes a =
      let a1 = record (ticked a) {
        conn = record a.conn { last_progress = now o e a };
        totals = record a.totals { total_bytes_in = a.totals.total_bytes_in + length bytes };
      } in
      if o.http_mode
      then drain_http (on_conn (λ c. record c { received = c.received ++ bytes }) a1)
      else take_echo bytes a1

  -- The peer has closed: it is a failure where a response is missing, or a request is still to be sent.
  unfoldable pub peer_closed : At → At
  peer_closed a =
      let too_early = fail_conn o e (text "对端提前关闭") (
        text "还有 "
        ++ (print_decimal a.conn.inflight
            ++ text " 个在途请求没收到响应，服务端就把连接关了（可能是 keep-alive 没实现，或者空闲超时设得太短）")) in
      if ltb 0 a.conn.inflight
      then too_early a
      else (let (more, a1) = more_requests o e a in
          if more then too_early a1 else close_conn true a1)

  abbrev pub with_recvs : List RecvAnswer → At → At
  with_recvs recvs a = record a { world = record a.world { recvs = recvs } }

  unfoldable pub read_loop : ℕ → List RecvAnswer → At → Bool × At
  read_loop zero answers a = (true, with_recvs answers a)
  read_loop (suc rounds) [] a = (true, with_recvs [] a)
  read_loop (suc rounds) (got [] ∷ answers) a = (false, peer_closed (with_recvs answers a))
  read_loop (suc rounds) (got (c ∷ bytes) ∷ answers) a =
      let (good, a1) = take_bytes (c ∷ bytes) a in
      let rest = read_loop rounds answers a1 in
      if good then rest else (false, with_recvs answers a1)
  read_loop (suc rounds) (recv_interrupted ∷ answers) a = read_loop rounds answers a
  read_loop (suc rounds) (recv_would_block ∷ answers) a = (true, with_recvs answers a)
  read_loop (suc rounds) (recv_failed errno ∷ answers) a = (
    false,
    fail_conn o e (text "接收失败") (text "recv: " ++ e.strerror errno) (with_recvs answers a),
  )

  -- kReadBudget rounds.
  unfoldable pub do_read : At → Bool × At
  do_read a = read_loop 16 a.world.recvs a
