-- ===== src/EchoBench/Connections/Sound/Events.antt =====
-- onEvent, maybeFinish, the start and the timeouts keep a connection sound.
use mini_net.Prelude.{
  ℕ, zero, suc, ◌-◌, ◌≡◌, inl, inr, Bool, true, false, ◌||◌, Bytes, text, ◌==◌, if◌then◌else◌,
  arith, Bool-cases,
}
use mini_net.EchoBench.Connections.{
  waiting, ready, At, Plan, Env, now, on_conn, ticked, is_connecting, more_requests, pump,
  update_events,
}
use mini_net.EchoBench.Connections.Receive.{do_read}
use mini_net.EchoBench.Connections.Events.{
  SocketError, unknown, error_is, Event, connect_failed, set_state, connected, on_connect,
  maybe_finish, after_read, on_event, start_conn, check_timeout, connect_timeout_detail,
  read_timeout_detail, eaddrnotavail, eaddrinuse, eacces, econnrefused,
}
use mini_net.EchoBench.Connections.Sound.{
  Others, Sound, fail_conn-Sound, close_conn-Sound, update_events-Sound, pump-Sound,
  more_requests_lem,
}
use mini_net.EchoBench.Connections.Sound.Receiving.{do_read-Sound}

module _ (o : Plan) (e : Env) (x : Others) where
  connect_failed-Sound :
      (so_err : ℕ) (a : At) → Sound o e x a → Sound o e x (connect_failed o e so_err a)
  unfolding connect_failed
  connect_failed-Sound so_err a s =
      let failing = λ (category detail : Bytes). fail_conn-Sound o e x category detail a s in
      elim (Bool-cases (so_err == eaddrnotavail || (so_err == eaddrinuse || so_err == eacces))) [
        | inl ports ↦ rw ports (failing _ _)
        | inr other ↦ rw other (elim (Bool-cases (so_err == econnrefused)) [
          | inl closed ↦ rw closed (failing _ _)
          | inr rest ↦ rw rest (failing _ _)
        ])
      ]

  updated_if :
      (b : Bool) (p q : At)
      → Sound o e x p
      → Sound o e x q
      → Sound o e x (update_events o e (if b then p else q))
  updated_if true p q h k = update_events-Sound o e x p h
  updated_if false p q h k = update_events-Sound o e x q k

  connected-Sound :
      (a : At) → Sound o e x a → is_connecting a.conn.state ≡ true → Sound o e x (connected o e a)
  unfolding connected
  connected-Sound a s h =
      let a1 = record (ticked a) {
        conn = record a.conn { last_progress = now o e a };
        totals = record a.totals { connecting_count = a.totals.connecting_count - 1 };
      } in
      let s_ready : Sound o e x (set_state o e ready a1) = ground arith in
      let s_waiting : Sound o e x (set_state o e waiting a1) = ground arith in
      let running = pump-Sound o e x (set_state o e ready a1) s_ready in
      updated_if a.totals.started _ _ running s_waiting

  on_connect-Sound :
      (answer : SocketError) (a : At)
      → Sound o e x a
      → is_connecting a.conn.state ≡ true
      → Sound o e x (on_connect o e answer a)
  unfolding on_connect
  on_connect-Sound (unknown errno) a s h = fail_conn-Sound o e x _ _ a s
  on_connect-Sound (error_is zero) a s h = connected-Sound a s h
  on_connect-Sound (error_is (suc n)) a s h = connect_failed-Sound (suc n) a s

  pub maybe_finish-Sound : (a : At) → Sound o e x a → Sound o e x (maybe_finish o e a)
  unfolding maybe_finish
  maybe_finish-Sound a s =
      ground (arith, more_requests_lem o e x a s, close_conn-Sound o e x (more_requests o e a).1)

  after_read-Sound : (a : At) → Sound o e x a → Sound o e x (after_read o e a)
  unfolding after_read
  after_read-Sound a s =
      let pumped = pump-Sound o e x a s in ground (arith, maybe_finish-Sound (pump o e a))

  pub on_event-Sound : (event : Event) (a : At) → Sound o e x a → Sound o e x (on_event o e event a)
  unfolding on_event
  on_event-Sound event a s = ground (
    arith,
    on_connect-Sound event.socket_error a s,
    do_read-Sound o e x a,
    after_read-Sound a s,
    after_read-Sound (do_read o e a).1,
  )

  pub start_conn-Sound : (t0 : ℕ) (a : At) → Sound o e x a → Sound o e x (start_conn o e t0 a)
  unfolding start_conn
  start_conn-Sound t0 a s =
      ground
        (arith, pump-Sound o e x (on_conn (λ c. record c { state = ready; last_progress = t0 }) a))

  pub check_timeout-Sound :
      (at_ns : ℕ) (socket : SocketError) (a : At)
      → Sound o e x a
      → Sound o e x (check_timeout o e at_ns socket a)
  unfolding check_timeout
  check_timeout-Sound at_ns socket a s =
      let f = fail_conn-Sound o e x (text "建连超时") (connect_timeout_detail o e socket) a s in
      let g = fail_conn-Sound o e x (text "读超时") (read_timeout_detail o e a.conn.inflight) a s in
      ground arith
