-- ===== src/EchoBench/Connections/Sound/Made.antt =====
-- setupConns makes sound connections, and counts them.
use mini_net.Prelude.{
  ℕ, suc, ◌%◌, ◌≡◌, Bool, true, false, List, [], ◌∷◌, Option, none, some, Bytes, ◌==◌,
  if◌then◌else◌, arith, length, get_or,
}
use mini_net.EchoBench.Connections.{
  Conn, Totals, World, At, Plan, Env, ConnState, connecting, waiting, ready, done, failed,
}
use mini_net.EchoBench.Connections.Setup.{
  Target, Calls, new_conn, start_connect, not_made, counted, added, settle, setup_conn, setup_conns,
}
use mini_net.EchoBench.Connections.Sound.{Others}
use mini_net.EchoBench.Connections.Sound.Rounds.{IsKept, IsSummed, AllKept, share, shares, plus}

abbrev is_set_up : ConnState → Bool
is_set_up connecting = true
is_set_up waiting = true
is_set_up ready = false
is_set_up done = false
is_set_up failed = false

-- A connection on which nothing has been sent or read.
record IsFresh (c : Conn) : Type 0 where
  nothing_out : c.out ≡ []
  none_out : c.out_off ≡ 0
  none_in : c.in_off ≡ 0
  none_sent : c.sent_req ≡ 0
  none_done : c.done_req ≡ 0
  none_inflight : c.inflight ≡ 0
  no_times : c.ts ≡ []
  at_head : c.ts_head ≡ 0

module _ (o : Plan) (e : Env) (target : Target) where
  abbrev Started : Totals → Option Bytes × At → Type 0
  Started t (none, a) = IsFresh a.conn × (a.totals ≡ t) × (is_set_up a.conn.state ≡ true)
  Started t (some why, a) = IsFresh a.conn × (a.totals ≡ t)

  start_connect-Started :
      (i : ℕ) (ip : Bytes) (calls : Calls) (t : Totals) (w : World)
      → Started t
          (start_connect o e target i ip calls (record { conn = new_conn; totals = t; world = w }))
  unfolding start_connect
  start_connect-Started i ip calls t w = ground arith

  started-IsKept :
      (a : At)
      → IsFresh a.conn
      → is_set_up a.conn.state ≡ true
      → IsKept o (added o e target (counted o e target a)).conn
  unfolding added counted
  started-IsKept a f h = ground arith

  started_summed :
      (x : Others) (a : At)
      → IsSummed x a.totals
      → IsFresh a.conn
      → is_set_up a.conn.state ≡ true
      → IsSummed
          (plus x (share o (added o e target (counted o e target a)).conn))
          (added o e target (counted o e target a)).totals
  unfolding added counted
  started_summed x a s f h = ground arith

  failed-IsKept :
      (why : Bytes) (a : At) → IsFresh a.conn → IsKept o (not_made o e target why a).conn
  unfolding not_made
  failed-IsKept why a f = ground arith

  failed_summed :
      (x : Others) (why : Bytes) (a : At)
      → IsSummed x a.totals
      → IsFresh a.conn
      → IsSummed
          (plus x (share o (not_made o e target why a).conn))
          (not_made o e target why a).totals
  unfolding not_made
  failed_summed x why a s f = ground arith

  -- A round of setupConns that goes on.
  abbrev Settled : Others → Option Bytes × At → Type 0
  Settled x (none, a) = IsKept o a.conn × IsSummed (plus x (share o a.conn)) a.totals
  Settled x (some why, a) = Unit {0}

  settle-Settled :
      (x : Others) (i : ℕ) (add_error : Option ℕ) (t : Totals) (err : Option Bytes) (a : At)
      → IsSummed x t
      → Started t (err, a)
      → Settled x (settle o e target i add_error err a)
  unfolding settle
  settle-Settled x i (some errno) t none a s h = tt
  settle-Settled x i none t none a s h =
      let s1 : IsSummed x a.totals = rw h.1 s in
      (started-IsKept a h.0 h.2, started_summed x a s1 h.0 h.2)
  settle-Settled x i add_error t (some why) a s h =
      let s1 : IsSummed x a.totals = rw h.1 s in by_first (i == 0) s1
    where
      by_first :
          (first : Bool)
          → IsSummed x a.totals
          → Settled x (if first then (some why, a) else (none, not_made o e target why a))
      by_first true s1 = tt
      by_first false s1 = (failed-IsKept why a h.0, failed_summed x why a s1 h.0)

  abbrev pub AllSettled : Others → Option Bytes × (List Conn × Totals × World) → Type 0
  AllSettled x (none, (conns, t, w)) = AllKept o conns × IsSummed (plus x (shares o conns)) t
  AllSettled x (some why, r) = Unit {0}

  pub setup_conns-Settled :
      (src_ips : List Bytes) (i : ℕ) (calls : List Calls) (x : Others) (t : Totals) (w : World)
      → IsSummed x t
      → AllSettled x (setup_conns o e target src_ips i calls t w)
  unfolding setup_conns setup_conn
  setup_conns-Settled src_ips i [] x t w s = (tt, ground arith)
  setup_conns-Settled src_ips i (calls ∷ later) x t w s =
      let ip = get_or src_ips (i % length src_ips) [] in
      let r =
        start_connect o e target i ip calls (record { conn = new_conn; totals = t; world = w }) in
      by_result (settle o e target i calls.add_error r.0 r.1)
        (settle-Settled x i calls.add_error t r.0 r.1 s (start_connect-Started i ip calls t w))
        (λ y a s1. setup_conns-Settled src_ips (suc i) later y a.totals a.world s1)
    where
      Rest : At → Option Bytes × (List Conn × Totals × World)
      Rest a = setup_conns o e target src_ips (suc i) later a.totals a.world

      by_rest :
          (a : At) (q : Option Bytes × (List Conn × Totals × World))
          → IsKept o a.conn
          → AllSettled (plus x (share o a.conn)) q
          → AllSettled x (q.0, (a.conn ∷ q.1.0, q.1.1, q.1.2))
      by_rest a (some why, rest) k h = tt
      by_rest a (none, (conns, t', w')) k h = ((k, h.0), ground (arith, h.1))

      by_result :
          (q : Option Bytes × At)
          → Settled x q
          → ((y : Others) (a : At) → IsSummed y a.totals → AllSettled y (Rest a))
          → AllSettled x (elim (q.0) [
            | none ↦ ((Rest q.1).0, (q.1.conn ∷ (Rest q.1).1.0, (Rest q.1).1.1, (Rest q.1).1.2))
            | some why ↦ (some why, (q.1.conn ∷ [], q.1.totals, q.1.world))
          ])
      by_result (some why, a) h next = tt
      by_result (none, a) h next = by_rest a (Rest a) h.0 (next (plus x (share o a.conn)) a h.1)
