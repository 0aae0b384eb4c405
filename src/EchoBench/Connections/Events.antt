-- ===== src/EchoBench/Connections/Events.antt =====
-- The events of the connections: onEvent, the end of a connection, the start of the run, the
-- timeouts, and a turn of the loop of run().
use mini_net.Prelude.{
  ℕ, zero, suc, ◌-◌, ◌/◌, Bool, true, false, not, ◌||◌, [], ◌++◌, none, some, Bytes, text, ltb,
  ◌==◌, if◌then◌else◌, length,
}
use mini_net.Ctype.Decimal.{print_decimal}
use mini_net.EchoBench.Connections.{
  Conn, ConnState, connecting, waiting, ready, done, failed, At, Plan, Env, on_conn, ticked, now,
  is_over, is_ready, is_connecting, fail_conn, close_conn, more_requests, pump, update_events,
}
use mini_net.EchoBench.Connections.Receive.{do_read, elapsed}

-- What getsockopt(SO_ERROR) answers: it fails, or it has the socket's error, 0 where it is connected.
pub data SocketError : Type 0 where
  unknown : ℕ → SocketError
  error_is : ℕ → SocketError

-- EPOLLIN, EPOLLHUP or EPOLLERR is there, and what getsockopt would say.
pub record Event : Type 0 where
  pub to_read : Bool
  pub socket_error : SocketError

abbrev pub alive : Conn → Bool
alive c = elim (c.fd) [ none ↦ false | some fd ↦ not (is_over c.state) ]

abbrev pub eaddrnotavail : ℕ
eaddrnotavail = 99

abbrev pub eaddrinuse : ℕ
eaddrinuse = 98

abbrev pub eacces : ℕ
eacces = 13

abbrev pub econnrefused : ℕ
econnrefused = 111

module _ (o : Plan) (e : Env) where
  unfoldable pub connect_failed : ℕ → At → At
  connect_failed so_err a =
      let detail = text "connect 返回错误：" ++ e.strerror so_err in
      if so_err == eaddrnotavail || (so_err == eaddrinuse || so_err == eacces)
      then fail_conn o e (text "本地端口耗尽")
          (detail ++ text "（客户端没端口可用了：用 --source-ip-count 或者按启动时的提示调大端口范围）") a
      else if so_err == econnrefused
      then fail_conn o e (text "建连被拒绝") (detail ++ text "（服务端没在监听？）") a
      else fail_conn o e (text "建连失败") detail a

  abbrev pub set_state : ConnState → At → At
  set_state s a = on_conn (λ c. record c { state = s }) a

  unfoldable pub connected : At → At
  connected a =
      let a1 = record (ticked a) {
        conn = record a.conn { last_progress = now o e a };
        totals = record a.totals { connecting_count = a.totals.connecting_count - 1 };
      } in
      let running = pump o e (set_state ready a1) in
      update_events o e (if a.totals.started then running else set_state waiting a1)

  unfoldable pub on_connect : SocketError → At → At
  on_connect (unknown errno) a =
      fail_conn o e (text "建连失败") (text "getsockopt(SO_ERROR): " ++ e.strerror errno) a
  on_connect (error_is zero) a = connected a
  on_connect (error_is (suc n)) a = connect_failed (suc n) a

  -- A connection that has nothing left to send and nothing to wait for is done.
  unfoldable pub maybe_finish : At → At
  maybe_finish a =
      if is_ready a.conn.state
      then (let (more, a1) = more_requests o e a in
          if more
          then a1
          else if ltb 0 a.conn.inflight
          then a1
          else if ltb a.conn.out_off (length a.conn.out)
          then a1
          else close_conn true a1)
      else a

  -- Behind the read: the pump runs whether or not the event says that it may.
  unfoldable pub after_read : At → At
  after_read a =
      let pumped = pump o e a in
      if alive a.conn then if alive pumped.conn then maybe_finish pumped else pumped else a

  unfoldable pub on_event : Event → At → At
  on_event event a =
      if alive a.conn
      then if is_connecting a.conn.state
        then on_connect event.socket_error a
        else if event.to_read
        then (let (good, a1) = do_read o e a in if good then after_read a1 else a1)
        else after_read a
      else a

  -- The run starts for a connection that waits.
  unfoldable pub start_conn : ℕ → At → At
  start_conn t0 a = elim (a.conn.state) [
    | waiting ↦ pump o e (on_conn (λ c. record c { state = ready; last_progress = t0 }) a)
    | connecting ↦ a
    | ready ↦ a
    | done ↦ a
    | failed ↦ a
  ]

  -- The option is a number of milliseconds, which run() has made nanoseconds.
  unfoldable pub connect_timeout_detail : SocketError → Bytes
  connect_timeout_detail socket =
      text "连接建立超时（"
      ++ (print_decimal (o.connect_timeout_ns / 1000000)
          ++ (text " ms）" ++ elim socket [
            | unknown errno ↦ []
            | error_is n ↦ if n == 0 then [] else text "，SO_ERROR=" ++ e.strerror n
          ]))

  unfoldable pub read_timeout_detail : ℕ → Bytes
  read_timeout_detail inflight =
      text "超过 "
      ++ (print_decimal (o.timeout_ns / 1000000)
          ++ (text " ms 没有任何进展（在途请求 " ++ (print_decimal inflight ++ text " 个）")))

  -- checkTimeouts, for one connection, at a time; with what getsockopt says of one that connects.
  unfoldable pub check_timeout : ℕ → SocketError → At → At
  check_timeout at_ns socket a =
      let late =
        ltb (if is_connecting a.conn.state then o.connect_timeout_ns else o.timeout_ns)
          (elapsed o e at_ns a.conn.last_progress) in
      if alive a.conn
      then elim (a.conn.state) [
        | connecting ↦
            if late then fail_conn o e (text "建连超时") (connect_timeout_detail socket) a else a
        | waiting ↦ a
        | ready ↦
            if late then fail_conn o e (text "读超时") (read_timeout_detail a.conn.inflight) a else a
        | done ↦ a
        | failed ↦ a
      ]
      else a
