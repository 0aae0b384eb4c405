-- ===== src/EchoBench/Connections/Setup.antt =====
-- Before the loop: prepareSourceIps, startConnect and setupConns; and the whole of run().
use mini_net.Prelude.{
  ℕ, zero, suc, ◌+◌, ◌%◌, Bool, true, false, not, List, [], ◌∷◌, ◌++◌, Option, none, some, Bytes,
  text, bytes_eq, ◌*◌, ◌/◌, ◌==◌, if◌then◌else◌, length, get_or, max,
}
use mini_net.Ctype.{pos}
use mini_net.Ctype.Decimal.{print_decimal}
use mini_net.EchoBench.Helpers.{make_echo_payload}
use mini_net.EchoBench.Options.{Options, Double, finite, is_positive, seconds}
use mini_net.EchoBench.Requests.{host_header, build_http_request}
use mini_net.EchoBench.Connections.{
  Conn, connecting, waiting, failed, Totals, World, At, Plan, Env, on_conn, ticked, now, bump,
  set_first, is_connecting, epoll_in, epoll_out,
}
use mini_net.EchoBench.Connections.Events.{SocketError, Event}
use mini_net.EchoBench.Connections.Loop.{Bench, maybe_start, loop, exit_code}

-- What the options say of the server and of the request.
pub record Target : Type 0 where
  pub host : Bytes
  pub port : ℕ
  pub method : Bytes
  pub path : Bytes
  pub body : Bytes

pub data ConnectAnswer : Type 0 where
  at_once in_progress : ConnectAnswer
  connect_error : ℕ → ConnectAnswer

-- What socket, inet_pton, bind, connect and EPOLL_CTL_ADD answer for a connection; an errno where
-- they fail.
pub record Calls : Type 0 where
  pub fd : ℕ
  pub socket_error : Option ℕ
  pub is_address : Bool
  pub bind_error : Option ℕ
  pub connect : ConnectAnswer
  pub add_error : Option ℕ

abbrev pub new_conn : Conn
new_conn = record {
  fd = none;
  ev_mask = 0;
  state = connecting;
  req = [];
  out = [];
  out_off = 0;
  received = [];
  in_off = 0;
  sent_req = 0;
  done_req = 0;
  inflight = 0;
  ts = [];
  ts_head = 0;
  last_progress = 0;
  echo_recv = 0;
  echo_partial = 0;
}

abbrev pub new_totals : Totals
new_totals = record {
  alive_count = 0;
  connecting_count = 0;
  started = false;
  deadline_ns = 0;
  ok = 0;
  bad_status = 0;
  failed_requests = 0;
  conn_failed = 0;
  lat_dropped = 0;
  lat_ns = [];
  status_hist = [];
  err_hist = [];
  first_error = [];
  total_bytes_in = 0;
  total_bytes_out = 0;
}

-- static_cast<uint64_t>(d * 1e9), for what a run with a duration has; the product's own rounding is
-- left out.
unfoldable pub to_ns : Double → ℕ
to_ns (finite (pos n)) = n * 1000000000 / seconds 1
to_ns _ = 0

-- What run() makes of the options before anything else; timeouts are in milliseconds there.
unfoldable pub plan_of : Options → Plan
plan_of opts =
    let http_mode = bytes_eq opts.mode (text "http") in
    record {
      http_mode = http_mode;
      duration_mode = is_positive opts.duration;
      duration_ns = to_ns opts.duration;
      requests = opts.requests;
      pipeline = opts.pipeline;
      size = opts.size;
      verify = opts.verify;
      expect_status = opts.expect_status;
      timeout_ns = opts.timeout_ms * 1000000;
      connect_timeout_ns = opts.connect_timeout_ms * 1000000;
      echo_payload = if http_mode then [] else make_echo_payload opts.size;
    }

-- 127.0.0.1 and the ones behind it.
unfoldable pub loopback_ips : ℕ → ℕ → List Bytes
loopback_ips i zero = []
loopback_ips i (suc n) = (text "127.0.0." ++ print_decimal (i + 1)) ∷ loopback_ips (suc i) n

-- The empty address leaves the choice to the kernel.
unfoldable pub prepare_source_ips : Bool → ℕ → List Bytes
unfolding loopback_ips
prepare_source_ips false source_ip_count = [] ∷ []
prepare_source_ips true source_ip_count = loopback_ips 0 (max 1 source_ip_count)

module _ (o : Plan) (e : Env) (target : Target) where
  unfoldable pub request_of : ℕ → Bytes
  request_of index =
      if o.http_mode
      then build_http_request target.method target.path target.body
          (host_header target.host target.port) index
      else o.echo_payload

  -- socket(), inet_pton() and bind(): the text of the error, if there is one.
  unfoldable pub socket_trouble : Bytes → Calls → Option Bytes
  socket_trouble src_ip calls = elim (calls.socket_error) [
    | some errno ↦ some (text "创建 socket 失败：" ++ e.strerror errno)
    | none ↦
        if length src_ip == 0
        then none
        else if not calls.is_address
        then some (text "源地址格式不对：" ++ src_ip)
        else elim (calls.bind_error) [
          | some errno ↦ some (
              text "绑定源地址 "
              ++ (src_ip
                  ++ (text " 失败："
                      ++ (e.strerror errno ++ text "\n    （如果提示地址不可用，先确认它在不在本机：ip addr show lo）"))))
          | none ↦ none
        ]
  ]

  unfoldable pub connect_trouble : Bytes → ℕ → Bytes
  connect_trouble src_ip errno =
      text "connect 失败（"
      ++ (src_ip
          ++ (text " -> "
              ++ (target.host
                  ++ (text ":" ++ (print_decimal target.port ++ (text "）：" ++ e.strerror errno))))))

  -- startConnect, with the text of its error.
  unfoldable pub start_connect : ℕ → Bytes → Calls → At → Option Bytes × At
  start_connect index src_ip calls a =
      let made =
        on_conn
          (λ c. record c { fd = some calls.fd; req = request_of index; last_progress = now o e a })
          (ticked a) in
      elim (socket_trouble src_ip calls) [
        | some err ↦ (some err, a)
        | none ↦ elim (calls.connect) [
          | at_once ↦ (none, on_conn (λ c. record c { state = waiting }) made)
          | in_progress ↦ (none, on_conn (λ c. record c { state = connecting }) made)
          | connect_error errno ↦
              (some (connect_trouble src_ip errno), on_conn (λ c. record c { fd = none }) made)
        ]
      ]

  -- A connection that could not be made, where it is not the first.
  unfoldable pub not_made : Bytes → At → At
  not_made err a = record a {
    conn = record a.conn { state = failed; fd = none };
    totals = record a.totals {
      err_hist = bump bytes_eq (text "建连失败") a.totals.err_hist;
      first_error = set_first a.totals.first_error err [];
      failed_requests =
          if o.duration_mode
          then a.totals.failed_requests
          else a.totals.failed_requests + o.requests;
      conn_failed = a.totals.conn_failed + 1;
    };
  }

  -- A connection that is on its way is counted, and then added to epoll.
  unfoldable pub counted : At → At
  counted a = record a {
    totals = record a.totals {
      alive_count = a.totals.alive_count + 1;
      connecting_count =
          if is_connecting a.conn.state
          then a.totals.connecting_count + 1
          else a.totals.connecting_count;
    };
  }

  unfoldable pub added : At → At
  added a =
      on_conn
        (λ c. record c {
          ev_mask = if is_connecting c.state then epoll_in + epoll_out else epoll_in;
        })
        a

  -- What follows startConnect in a round of setupConns, with the error that ends it.
  unfoldable pub settle : ℕ → Option ℕ → Option Bytes → At → Option Bytes × At
  settle i (some errno) none a = (some (text "epoll_ctl(ADD) 失败：" ++ e.strerror errno), counted a)
  settle i none none a = (none, added (counted a))
  settle i add_error (some why) a = if i == 0 then (some why, a) else (none, not_made why a)

  unfoldable pub setup_conn : ℕ → Bytes → Calls → Totals → World → Option Bytes × At
  setup_conn i src_ip calls t w =
      let (err, a) =
        start_connect i src_ip calls (record { conn = new_conn; totals = t; world = w }) in
      settle i calls.add_error err a

  -- setupConns, from a connection on. An error ends it.
  unfoldable pub setup_conns :
      List Bytes → ℕ → List Calls → Totals → World → Option Bytes × (List Conn × Totals × World)
  setup_conns src_ips i [] t w = (none, ([], t, w))
  setup_conns src_ips i (calls ∷ later) t w =
      let (err, a) = setup_conn i (get_or src_ips (i % length src_ips) []) calls t w in
      let (err', (conns, t', w')) = setup_conns src_ips (suc i) later a.totals a.world in
      elim err [
        | none ↦ (err', (a.conn ∷ conns, t', w'))
        | some why ↦ (some why, (a.conn ∷ [], a.totals, a.world))
      ]

  -- Behind setupConns: the start, the loop and the exit code.
  unfoldable pub run_loop :
      List (List (ℕ × Event) × (ℕ → SocketError)) → List Conn → Totals → World → ℕ × Option Bench
  run_loop turns conns t w =
      let b = loop o e turns (
        maybe_start o e (record {
          conns = conns;
          totals = t;
          world = record w { tick = w.tick + 1 };
          last_scan_ns = e.clock w.tick;
        })) in
      (exit_code b.totals, some b)

  -- run(): the exit code, and the connections as the loop leaves them; it is 2 where a step before the
  -- loop fails, which `prepared` says of the address, the trial connection and epoll_create1.
  unfoldable pub run :
      Bool
      → List Bytes
      → List Calls
      → List (List (ℕ × Event) × (ℕ → SocketError))
      → World
      → ℕ × Option Bench
  run prepared src_ips calls turns w =
      let (err, (conns, t, w')) =
        setup_conns src_ips 0 calls new_totals (record w { tick = w.tick + 1 }) in
      if prepared
      then elim err [ some why ↦ (2, none) | none ↦ run_loop turns conns t w' ]
      else (2, none)
