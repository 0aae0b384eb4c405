-- ===== src/EchoBench/Connections.antt =====
-- bench/echo_bench.cc, the connections: their state, the totals that they share, and how they send.
-- What the kernel answers is in the world: the readings of the clock are numbered, and the answers of
-- epoll_ctl, send and recv are lists. Where epoll_ctl's list is at its end it succeeds, and where the
-- others are it is EAGAIN.
pub mod Receive
pub mod Events
pub mod Loop
pub mod Setup
pub mod Drains
pub mod Echoes
pub mod Sound
use mini_net.Prelude.{
  ℕ, zero, suc, ◌+◌, ◌-◌, ◌%◌, ◌^◌, Bool, true, false, ◌&&◌, ◌||◌, List, [], ◌∷◌, ◌++◌, Option,
  none, some, Bytes, text, bytes_eq, ltb, ◌==◌, if◌then◌else◌, length, drop, min,
}

pub data ConnState : Type 0 where
  connecting waiting ready done failed : ConnState

pub record Conn : Type 0 where
  pub fd : Option ℕ
  pub ev_mask : ℕ
  pub state : ConnState
  pub req : Bytes
  pub out : Bytes
  pub out_off : ℕ
  pub received : Bytes
  pub in_off : ℕ
  pub sent_req : ℕ
  pub done_req : ℕ
  pub inflight : ℕ
  pub ts : List ℕ
  pub ts_head : ℕ
  pub last_progress : ℕ
  pub echo_recv : ℕ
  pub echo_partial : ℕ

-- What Bench counts over all connections.
pub record Totals : Type 0 where
  pub alive_count : ℕ
  pub connecting_count : ℕ
  pub started : Bool
  pub deadline_ns : ℕ
  pub ok : ℕ
  pub bad_status : ℕ
  pub failed_requests : ℕ
  pub conn_failed : ℕ
  pub lat_dropped : ℕ
  pub lat_ns : List ℕ
  pub status_hist : List (ℕ × ℕ)
  pub err_hist : List (Bytes × ℕ)
  pub first_error : Bytes
  pub total_bytes_in : ℕ
  pub total_bytes_out : ℕ

-- `took n` is n + 1 bytes, and `send_failed` a 0 or any other errno.
pub data SendAnswer : Type 0 where
  took : ℕ → SendAnswer
  send_interrupted send_would_block : SendAnswer
  send_failed : ℕ → SendAnswer

-- `got []` is what recv says of a peer that has closed.
pub data RecvAnswer : Type 0 where
  got : Bytes → RecvAnswer
  recv_interrupted recv_would_block : RecvAnswer
  recv_failed : ℕ → RecvAnswer

-- epoll_ctl: `none`, or an errno.
pub record World : Type 0 where
  pub tick : ℕ
  pub mods : List (Option ℕ)
  pub sends : List SendAnswer
  pub recvs : List RecvAnswer

-- A connection, with what it shares.
pub record At : Type 0 where
  pub conn : Conn
  pub totals : Totals
  pub world : World

-- The options that the connections read, and the modes.
pub record Plan : Type 0 where
  pub http_mode : Bool
  pub duration_mode : Bool
  pub duration_ns : ℕ
  pub requests : ℕ
  pub pipeline : ℕ
  pub size : ℕ
  pub verify : Bool
  pub expect_status : List ℕ
  pub timeout_ns : ℕ
  pub connect_timeout_ns : ℕ
  pub echo_payload : Bytes

-- The clock, strerror, and the memory behind the payload.
pub record Env : Type 0 where
  pub clock : ℕ → ℕ
  pub strerror : ℕ → Bytes
  pub behind : Bytes

abbrev pub epoll_in : ℕ
epoll_in = 1

abbrev pub epoll_out : ℕ
epoll_out = 4

-- map[key] += 1
unfoldable pub bump {ℓ} : {A : Type ℓ} → (A → A → Bool) → A → List (A × ℕ) → List (A × ℕ)
bump same key [] = (key, 1) ∷ []
bump same key ((k, n) ∷ rest) =
    let later = (k, n) ∷ bump same key rest in if same k key then (k, n + 1) ∷ rest else later

abbrev pub is_over : ConnState → Bool
is_over done = true
is_over failed = true
is_over s = false

abbrev pub is_ready : ConnState → Bool
is_ready ready = true
is_ready s = false

abbrev pub is_connecting : ConnState → Bool
is_connecting connecting = true
is_connecting s = false

abbrev pub on_conn : (Conn → Conn) → At → At
on_conn f a = record a { conn = f a.conn }

abbrev pub ticked : At → At
ticked a = record a { world = record a.world { tick = a.world.tick + 1 } }

-- closeConn; the count of the living does not go below 0.
unfoldable pub close_conn : Bool → At → At
close_conn success a = record a {
  conn = record a.conn { fd = none; state = if success then done else failed };
  totals = record a.totals { alive_count = a.totals.alive_count - 1 };
}

abbrev pub set_first : Bytes → Bytes → Bytes → Bytes
set_first [] category [] = category
set_first [] category (d ∷ detail) = category ++ (text "：" ++ (d ∷ detail))
set_first (c ∷ s) category detail = c ∷ s

module _ (o : Plan) (e : Env) where
  abbrev pub now : At → ℕ
  now a = e.clock a.world.tick

  unfoldable pub lost_requests : Conn → ℕ
  lost_requests c = if o.duration_mode then c.inflight else o.requests - c.done_req

  unfoldable pub fail_conn : Bytes → Bytes → At → At
  fail_conn category detail a =
      if is_over a.conn.state
      then a
      else close_conn false (record a {
        totals = record a.totals {
          connecting_count =
              if is_connecting a.conn.state
              then a.totals.connecting_count - 1
              else a.totals.connecting_count;
          failed_requests = a.totals.failed_requests + lost_requests a.conn;
          conn_failed = a.totals.conn_failed + 1;
          err_hist = bump bytes_eq category a.totals.err_hist;
          first_error = set_first a.totals.first_error category detail;
        };
      })

  unfoldable pub wanted : Conn → ℕ
  wanted c =
      if is_connecting c.state || ltb c.out_off (length c.out)
      then epoll_in + epoll_out
      else epoll_in

  -- EPOLL_CTL_MOD, with its answer.
  unfoldable pub modify : List (Option ℕ) → At → At
  modify [] a = on_conn (λ c. record c { ev_mask = wanted c }) a
  modify (none ∷ mods) a =
      on_conn (λ c. record c { ev_mask = wanted c })
        (record a { world = record a.world { mods = mods } })
  modify (some errno ∷ mods) a =
      fail_conn (text "epoll 操作失败") (text "EPOLL_CTL_MOD: " ++ e.strerror errno)
        (record a { world = record a.world { mods = mods } })

  unfoldable pub update_events : At → At
  update_events a = elim (a.conn.fd) [
    | none ↦ a
    | some fd ↦ if wanted a.conn == a.conn.ev_mask then a else modify a.world.mods a
  ]

  -- The clock is read only where the run has a duration.
  unfoldable pub more_requests : At → Bool × At
  more_requests a =
      if o.duration_mode
      then (ltb (now a) a.totals.deadline_ns, ticked a)
      else (ltb a.conn.sent_req o.requests, a)

  -- The queue of sending times starts again where it has been used up.
  abbrev pub push_time : ℕ → Conn → Conn
  push_time t c =
      if c.ts_head == length c.ts
      then record c { ts = t ∷ []; ts_head = 0 }
      else record c { ts = c.ts ++ t ∷ [] }

  unfoldable pub queue_request : At → At
  queue_request a =
      on_conn
        (λ c. record (push_time (now a) c) {
          out = c.out ++ c.req;
          inflight = c.inflight + 1;
          sent_req = c.sent_req + 1;
        })
        (ticked a)

  unfoldable pub refill_loop : ℕ → At → At
  refill_loop zero a = a
  refill_loop (suc fuel) a =
      let (more, a1) = more_requests a in
      let rest = refill_loop fuel (queue_request a1) in
      if ltb a.conn.inflight o.pipeline then if more then rest else a1 else a

  -- Each round puts one more request in flight, so the rounds are at most as many as there is room.
  unfoldable pub refill : At → At
  refill a = if is_ready a.conn.state then refill_loop (o.pipeline - a.conn.inflight) a else a

  -- send takes at most what it is given.
  unfoldable pub progress : ℕ → At → At
  progress n a =
      let k = min n (length a.conn.out - a.conn.out_off) in
      record (ticked a) {
        conn = record a.conn { out_off = a.conn.out_off + k; last_progress = now a };
        totals = record a.totals { total_bytes_out = a.totals.total_bytes_out + k };
      }

  abbrev pub cleared : At → At
  cleared a = on_conn (λ c. record c { out = []; out_off = 0 }) a

  abbrev pub with_sends : List SendAnswer → At → At
  with_sends sends a = record a { world = record a.world { sends = sends } }

  unfoldable pub send_error : ℕ → At → At
  send_error errno a = fail_conn (text "发送失败") (text "send: " ++ e.strerror errno) a

  -- The result says whether all of `out` has been sent.
  unfoldable pub flush_loop : List SendAnswer → At → Bool × At
  flush_loop [] a =
      if ltb a.conn.out_off (length a.conn.out)
      then (false, update_events (with_sends [] a))
      else (true, update_events (cleared (with_sends [] a)))
  flush_loop (answer ∷ sends) a =
      if ltb a.conn.out_off (length a.conn.out)
      then elim answer [
        | took n ↦ flush_loop sends (progress (suc n) a)
        | send_interrupted ↦ flush_loop sends a
        | send_would_block ↦ (false, update_events (with_sends sends a))
        | send_failed errno ↦ (false, send_error errno (with_sends sends a))
      ]
      else (true, update_events (cleared (with_sends (answer ∷ sends) a)))

  unfoldable pub flush_out : At → Bool × At
  flush_out a = flush_loop a.world.sends a

  unfoldable pub pump_loop : ℕ → At → At
  pump_loop zero a = a
  pump_loop (suc rounds) a =
      let (flushed, a1) = flush_out a in
      let a2 = refill a1 in
      let rest = pump_loop rounds a2 in
      if is_ready a.conn.state
      then if flushed then if length a2.conn.out == 0 then a2 else rest else a1
      else a

  -- kWriteBudget rounds.
  unfoldable pub pump : At → At
  pump a = pump_loop 64 a
