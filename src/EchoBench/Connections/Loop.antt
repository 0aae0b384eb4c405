-- ===== src/EchoBench/Connections/Loop.antt =====
-- The whole client at work: maybeStart, periodicScan, the loop of run(), and its exit code.
use mini_net.Prelude.{ℕ, suc, ◌+◌, true, ◌&&◌, ◌||◌, List, [], ◌∷◌, ltb, leb, ◌==◌, if◌then◌else◌}
use mini_net.EchoBench.Connections.{Conn, Totals, World, At, Plan, Env}
use mini_net.EchoBench.Connections.Receive.{elapsed}
use mini_net.EchoBench.Connections.Events.{
  SocketError, Event, on_event, maybe_finish, start_conn, check_timeout,
}

pub record Bench : Type 0 where
  pub conns : List Conn
  pub totals : Totals
  pub world : World
  pub last_scan_ns : ℕ

-- for (c : conns_) f(c), from a position on.
unfoldable pub each : (ℕ → At → At) → ℕ → List Conn → Totals → World → List Conn × Totals × World
each f i [] t w = ([], t, w)
each f i (c ∷ conns) t w =
    let a = f i (record { conn = c; totals = t; world = w }) in
    let (rest, t1, w1) = each f (suc i) conns a.totals a.world in (a.conn ∷ rest, t1, w1)

unfoldable pub for_each : (ℕ → At → At) → Bench → Bench
for_each f b =
    let (conns, t, w) = each f 0 b.conns b.totals b.world in
    record b { conns = conns; totals = t; world = w }

-- An event's connection; the others stay as they are.
abbrev pub at_index : ℕ → (At → At) → ℕ → At → At
at_index k f i a = if k == i then f a else a

-- kScanIntervalNs
abbrev pub scan_interval_ns : ℕ
scan_interval_ns = 100000000

module _ (o : Plan) (e : Env) where
  abbrev pub now_of : Bench → ℕ
  now_of b = e.clock b.world.tick

  abbrev pub clock_read : Bench → Bench
  clock_read b = record b { world = record b.world { tick = b.world.tick + 1 } }

  -- The deadline counts only where the run has a duration.
  unfoldable pub begin : Bench → Bench
  begin b = record (clock_read b) {
    totals = record b.totals {
      started = true;
      deadline_ns = if o.duration_mode then now_of b + o.duration_ns else b.totals.deadline_ns;
    };
  }

  unfoldable pub maybe_start : Bench → Bench
  maybe_start b =
      if b.totals.started
      then b
      else if ltb 0 b.totals.connecting_count
      then b
      else for_each (λ i. maybe_finish o e) (for_each (λ i. start_conn o e (now_of b)) (begin b))

  -- checkFinishes, then checkTimeouts at one time.
  unfoldable pub periodic_scan : (ℕ → SocketError) → Bench → Bench
  periodic_scan sockets b =
      let b1 = for_each (λ i. maybe_finish o e) b in
      for_each (λ i. check_timeout o e (now_of b1) (sockets i)) (clock_read b1)

  unfoldable pub handle_events : List (ℕ × Event) → Bench → Bench
  handle_events [] b = b
  handle_events ((k, event) ∷ events) b =
      handle_events events (for_each (at_index k (on_event o e event)) b)

  -- A turn of the loop: what epoll_wait has returned, the start, and the scan where it is due.
  unfoldable pub turn : List (ℕ × Event) → (ℕ → SocketError) → Bench → Bench
  turn events sockets b =
      let b1 = maybe_start (handle_events events b) in
      let b2 = clock_read b1 in
      if leb scan_interval_ns (elapsed o e (now_of b1) b1.last_scan_ns)
      then periodic_scan sockets (record b2 { last_scan_ns = now_of b1 })
      else b2

  -- The loop, with what epoll_wait returns turn by turn; it ends where no connection is alive.
  unfoldable pub loop : List (List (ℕ × Event) × (ℕ → SocketError)) → Bench → Bench
  loop [] b = b
  loop ((events, sockets) ∷ turns) b =
      let rest = loop turns (turn events sockets b) in if b.totals.alive_count == 0 then b else rest

unfoldable pub exit_code : Totals → ℕ
exit_code t =
    if t.ok == 0 && ltb 0 t.failed_requests
    then 2
    else if ltb 0 t.failed_requests || ltb 0 t.bad_status
    then 3
    else 0
