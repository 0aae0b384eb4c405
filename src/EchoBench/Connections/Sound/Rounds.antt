-- ===== src/EchoBench/Connections/Sound/Rounds.antt =====
-- The loop of run() keeps every connection sound, and the totals are the sums over the connections.
use mini_net.Prelude.{
  ℕ, suc, ◌+◌, ◌≤◌, ◌≡◌, ◌⊎◌, inl, inr, Bool, true, false, not, List, [], ◌∷◌, leb, ◌==◌,
  if◌then◌else◌, arith, length, Bool-cases,
}
use mini_net.EchoBench.Connections.{Conn, Totals, World, At, Plan, Env, is_over, is_connecting}
use mini_net.EchoBench.Connections.Receive.{elapsed}
use mini_net.EchoBench.Connections.Events.{
  SocketError, Event, on_event, maybe_finish, start_conn, check_timeout,
}
use mini_net.EchoBench.Connections.Loop.{
  Bench, each, for_each, at_index, scan_interval_ns, now_of, clock_read, begin, maybe_start,
  periodic_scan, handle_events, turn, loop,
}
use mini_net.EchoBench.Connections.Sound.{Others, Sound, missing, is_done, one_if}
use mini_net.EchoBench.Connections.Sound.Events.{
  maybe_finish-Sound, on_event-Sound, start_conn-Sound, check_timeout-Sound,
}

-- What IsSound says of the connection itself.
pub record IsKept (o : Plan) (c : Conn) : Type 0 where
  pub in_room : c.inflight ≤ o.pipeline
  pub timed : length c.ts ≡ c.ts_head + c.inflight
  pub out_bound : c.out_off ≤ length c.out
  pub in_bound : c.in_off ≤ length c.received
  pub none_lost : c.sent_req ≤ c.done_req + c.inflight
  pub none_more : (o.duration_mode ≡ true) ⊎ (c.sent_req ≤ o.requests)
  pub finished : (o.duration_mode ≡ true) ⊎ ((is_done c.state ≡ false) ⊎ (o.requests ≤ c.done_req))
  pub settled : (is_done c.state ≡ false) ⊎ (c.inflight ≡ 0)

-- What it says of the totals.
pub record IsSummed (x : Others) (t : Totals) : Type 0 where
  pub counted : t.ok + t.bad_status ≡ x.answered
  pub accounted : t.failed_requests ≡ x.missing
  pub living : t.alive_count ≡ x.alive
  pub pending : t.connecting_count ≡ x.connecting

abbrev pub share : Plan → Conn → Others
share o c = record {
  answered = c.done_req;
  missing = missing o c.state c.inflight c.done_req;
  alive = one_if (not (is_over c.state));
  connecting = one_if (is_connecting c.state);
}

abbrev pub plus : Others → Others → Others
plus x y = record {
  answered = x.answered + y.answered;
  missing = x.missing + y.missing;
  alive = x.alive + y.alive;
  connecting = x.connecting + y.connecting;
}

abbrev pub shares : Plan → List Conn → Others
shares o [] = record { answered = 0; missing = 0; alive = 0; connecting = 0 }
shares o (c ∷ conns) = plus (share o c) (shares o conns)

abbrev pub AllKept : Plan → List Conn → Type 0
AllKept o [] = Unit {0}
AllKept o (c ∷ conns) = IsKept o c × AllKept o conns

module _ (o : Plan) (e : Env) where
  joined :
      (x y : Others) (c : Conn) (t : Totals) (w : World)
      → IsKept o c
      → IsSummed (plus x (plus (share o c) y)) t
      → Sound o e (plus x y) (record { conn = c; totals = t; world = w })
  joined x y c t w k s = ground arith

  parted_conn : (x y : Others) (a : At) → Sound o e (plus x y) a → IsKept o a.conn
  parted_conn x y a s = ground arith

  parted_totals :
      (x y : Others) (a : At)
      → Sound o e (plus x y) a
      → IsSummed (plus (plus x (share o a.conn)) y) a.totals
  parted_totals x y a s = ground arith

  abbrev pub Keeps : (ℕ → At → At) → Type 0
  Keeps f = (i : ℕ) (x : Others) (a : At) → Sound o e x a → Sound o e x (f i a)

  abbrev Whole : Others → List Conn × Totals × World → Type 0
  Whole x r = AllKept o r.0 × IsSummed (plus x (shares o r.0)) r.1

  moved :
      (x y z : Others) (t : Totals)
      → IsSummed (plus (plus x y) z) t
      → IsSummed (plus x (plus y z)) t
  moved x y z t s = ground arith

  each-Whole :
      (f : ℕ → At → At)
      → Keeps f
      → (x : Others) (i : ℕ) (conns : List Conn) (t : Totals) (w : World) → Whole x (conns, t, w)
      → Whole x (each f i conns t w)
  unfolding each
  each-Whole f keep x i [] t w h = h
  each-Whole f keep x i (c ∷ conns) t w h =
      let a0 : At = record { conn = c; totals = t; world = w } in
      let a = f i a0 in
      let s = keep i (plus x (shares o conns)) a0 (joined x (shares o conns) c t w h.0.0 h.1) in
      let (rest, sums) =
        each-Whole f keep (plus x (share o a.conn)) (suc i) conns a.totals a.world
          (h.0.1, parted_totals x (shares o conns) a s) in
      ((parted_conn x (shares o conns) a s, rest), moved x (share o a.conn) _ _ sums)

  -- Every connection is sound, and the totals are the sums.
  pub record IsWhole (b : Bench) : Type 0 where
    pub kept : AllKept o b.conns
    pub summed : IsSummed (shares o b.conns) b.totals

  for_each-IsWhole : (f : ℕ → At → At) → Keeps f → (b : Bench) → IsWhole b → IsWhole (for_each f b)
  unfolding for_each
  for_each-IsWhole f keep b h =
      let none : Others = record { answered = 0; missing = 0; alive = 0; connecting = 0 } in
      let before : IsSummed (plus none (shares o b.conns)) b.totals = ground (arith, h.summed) in
      let (kept, sums) = each-Whole f keep none 0 b.conns b.totals b.world (h.kept, before) in
      record { kept = kept; summed = ground (arith, sums) }

  at_index-Keeps :
      (k : ℕ) (f : At → At)
      → ((x : Others) (a : At) → Sound o e x a → Sound o e x (f a))
      → Keeps (at_index k f)
  at_index-Keeps k f keep i x a s = ground (arith, keep x a s)

  begin-IsWhole : (b : Bench) → IsWhole b → IsWhole (begin o e b)
  unfolding begin
  begin-IsWhole b h = record { kept = h.kept; summed = ground (arith, h.summed) }

  pub maybe_start-IsWhole : (b : Bench) → IsWhole b → IsWhole (maybe_start o e b)
  unfolding maybe_start
  maybe_start-IsWhole b h =
      let at_work =
        for_each-IsWhole (λ i. start_conn o e (now_of o e b))
          (λ i x. start_conn-Sound o e x (now_of o e b)) (begin o e b) (begin-IsWhole b h) in
      let all =
        for_each-IsWhole (λ i. maybe_finish o e) (λ i x. maybe_finish-Sound o e x) _ at_work in
      ground arith

  periodic_scan-IsWhole :
      (sockets : ℕ → SocketError) (b : Bench) → IsWhole b → IsWhole (periodic_scan o e sockets b)
  unfolding periodic_scan
  periodic_scan-IsWhole sockets b h =
      let b1 = for_each (λ i. maybe_finish o e) b in
      let h1 = for_each-IsWhole (λ i. maybe_finish o e) (λ i x. maybe_finish-Sound o e x) b h in
      for_each-IsWhole (λ i. check_timeout o e (now_of o e b1) (sockets i))
        (λ i x. check_timeout-Sound o e x (now_of o e b1) (sockets i)) (clock_read o e b1)
        (record { kept = h1.kept; summed = h1.summed })

  pub handle_events-IsWhole :
      (events : List (ℕ × Event)) (b : Bench) → IsWhole b → IsWhole (handle_events o e events b)
  unfolding handle_events
  handle_events-IsWhole [] b h = h
  handle_events-IsWhole ((k, event) ∷ events) b h = handle_events-IsWhole events _ (
      for_each-IsWhole (at_index k (on_event o e event))
        (at_index-Keeps k _ (λ x. on_event-Sound o e x event)) b h)

  turn-IsWhole :
      (events : List (ℕ × Event)) (sockets : ℕ → SocketError) (b : Bench)
      → IsWhole b
      → IsWhole (turn o e events sockets b)
  unfolding turn
  turn-IsWhole events sockets b h =
      let b1 = maybe_start o e (handle_events o e events b) in
      let h1 = maybe_start-IsWhole _ (handle_events-IsWhole events b h) in
      by_due (leb scan_interval_ns (elapsed o e (now_of o e b1) b1.last_scan_ns)) _ _
        (periodic_scan-IsWhole sockets _ (record { kept = h1.kept; summed = h1.summed }))
        (record { kept = h1.kept; summed = h1.summed })
    where
      by_due : (due : Bool) (p q : Bench) → IsWhole p → IsWhole q → IsWhole (if due then p else q)
      by_due true p q h k = h
      by_due false p q h k = k

  -- Whatever the kernel answers turn by turn, the loop keeps the client whole. Of each connection: what
  -- is in flight is within the pipeline and has its sending times queued, no offset is past its
  -- buffer, each request that was sent is answered or in flight, and where requests are counted, no
  -- more are sent than were asked for and one that is done has all its answers. The responses, the
  -- missing requests, the living and the connecting connections are counted right over all of them.
  pub loop-IsWhole :
      (turns : List (List (ℕ × Event) × (ℕ → SocketError))) (b : Bench)
      → IsWhole b
      → IsWhole (loop o e turns b)
  unfolding loop
  loop-IsWhole [] b h = h
  loop-IsWhole ((events, sockets) ∷ turns) b h =
      let later =
        loop-IsWhole turns (turn o e events sockets b) (turn-IsWhole events sockets b h) in
      elim (Bool-cases (b.totals.alive_count == 0)) [
        | inl over ↦ simp over h
        | inr more ↦ simp more later
      ]
