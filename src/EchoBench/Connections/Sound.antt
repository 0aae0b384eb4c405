-- ===== src/EchoBench/Connections/Sound.antt =====
-- What holds of a connection of the client, and of the totals with it, and that sending keeps it.
pub mod Receiving
pub mod Events
pub mod Rounds
pub mod Made
pub mod Exit
use mini_net.Prelude.{
  ℕ, zero, suc, ◌+◌, ◌-◌, ◌<◌, ◌≤◌, ◌≡◌, refl, sym, ap, ◌∙◌, Bool, true, false, not, ◌⊎◌, List, [],
  ◌∷◌, ◌++◌, Option, none, some, Bytes, text, ltb, ◌==◌, if◌then◌else◌, Bool-cases, inl, inr, arith,
  length, length-append, min,
}
use mini_net.EchoBench.Connections.{
  Conn, ConnState, is_connecting, connecting, waiting, ready, done, failed, At, Plan, Env, now,
  on_conn, ticked, is_over, is_ready, fail_conn, lost_requests, close_conn, modify, update_events,
  wanted, more_requests, push_time, queue_request, refill_loop, refill, progress, cleared,
  with_sends, send_error, flush_loop, flush_out, pump_loop, pump, SendAnswer, took,
  send_interrupted, send_would_block, send_failed,
}

-- What the invariant reads of a connection and the totals.
pub record View : Type 0 where
  pub state : ConnState
  pub inflight : ℕ
  pub times : ℕ
  pub head : ℕ
  pub out_off : ℕ
  pub out_size : ℕ
  pub in_off : ℕ
  pub in_size : ℕ
  pub sent : ℕ
  pub answered : ℕ
  pub good : ℕ
  pub bad : ℕ
  pub missed : ℕ
  pub alive : ℕ
  pub connecting : ℕ

-- The other connections' shares of the totals.
pub record Others : Type 0 where
  pub answered : ℕ
  pub missing : ℕ
  pub alive : ℕ
  pub connecting : ℕ

abbrev pub one_if : Bool → ℕ
one_if true = 1
one_if false = 0

abbrev pub is_done : ConnState → Bool
is_done done = true
is_done s = false

abbrev pub view : At → View
view a = record {
  state = a.conn.state;
  inflight = a.conn.inflight;
  times = length a.conn.ts;
  head = a.conn.ts_head;
  out_off = a.conn.out_off;
  out_size = length a.conn.out;
  in_off = a.conn.in_off;
  in_size = length a.conn.received;
  sent = a.conn.sent_req;
  answered = a.conn.done_req;
  good = a.totals.ok;
  bad = a.totals.bad_status;
  missed = a.totals.failed_requests;
  alive = a.totals.alive_count;
  connecting = a.totals.connecting_count;
}

-- The requests that a failed connection has left without an answer.
abbrev pub missing : Plan → ConnState → ℕ → ℕ → ℕ
missing o failed inflight answered = if o.duration_mode then inflight else o.requests - answered
missing o done inflight answered = 0
missing o ready inflight answered = 0
missing o waiting inflight answered = 0
missing o connecting inflight answered = 0

-- The requests in flight are within the pipeline, each has its sending time in the queue, no offset
-- is past its buffer's end, a request that was sent is answered or in flight, and no more are sent than
-- were asked for. A connection that is done has all its answers. The totals are those of the other
-- connections, and this one's.
pub record IsSound (o : Plan) (x : Others) (v : View) : Type 0 where
  pub in_room : v.inflight ≤ o.pipeline
  pub timed : v.times ≡ v.head + v.inflight
  pub out_bound : v.out_off ≤ v.out_size
  pub in_bound : v.in_off ≤ v.in_size
  pub none_lost : v.sent ≤ v.answered + v.inflight
  pub none_more : (o.duration_mode ≡ true) ⊎ (v.sent ≤ o.requests)
  pub finished : (o.duration_mode ≡ true) ⊎ ((is_done v.state ≡ false) ⊎ (o.requests ≤ v.answered))
  pub settled : (is_done v.state ≡ false) ⊎ (v.inflight ≡ 0)
  pub counted : v.good + v.bad ≡ x.answered + v.answered
  pub accounted : v.missed ≡ x.missing + missing o v.state v.inflight v.answered
  pub living : v.alive ≡ x.alive + one_if (not (is_over v.state))
  pub pending : v.connecting ≡ x.connecting + one_if (is_connecting v.state)

module _ (o : Plan) (e : Env) (x : Others) where
  abbrev pub Sound : At → Type 0
  Sound a = IsSound o x (view a)

  pub fail_conn-Sound :
      (category detail : Bytes) (a : At) → Sound a → Sound (fail_conn o e category detail a)
  unfolding fail_conn lost_requests close_conn
  fail_conn-Sound category detail a s = ground arith

  modify-Sound : (mods : List (Option ℕ)) (a : At) → Sound a → Sound (modify o e mods a)
  unfolding modify
  modify-Sound [] a s = s
  modify-Sound (none ∷ mods) a s = s
  modify-Sound (some errno ∷ mods) a s = fail_conn-Sound _ _ _ s

  pub update_events-Sound : (a : At) → Sound a → Sound (update_events o e a)
  unfolding update_events
  update_events-Sound a s = ground (arith, modify-Sound a.world.mods a s)

  -- close_conn(true), where the state has not failed and all is answered.
  pub close_conn-Sound :
      (a : At)
      → Sound a
      → is_over a.conn.state ≡ false
      → is_connecting a.conn.state ≡ false
      → a.conn.inflight ≡ 0
      → (o.duration_mode ≡ true) ⊎ (o.requests ≤ a.conn.sent_req)
      → Sound (close_conn true a)
  unfolding close_conn
  close_conn-Sound a s live made idle all = ground arith

  queue_request-Sound :
      (a : At)
      → Sound a
      → is_ready a.conn.state ≡ true
      → a.conn.inflight < o.pipeline
      → (o.duration_mode ≡ true) ⊎ (a.conn.sent_req < o.requests)
      → Sound (queue_request o e a)
  unfolding queue_request
  queue_request-Sound a s at_work room more =
      ground (arith, length-append a.conn.ts (now o e a ∷ []), length-append a.conn.out a.conn.req)

  queue_request-ready :
      (a : At) → is_ready a.conn.state ≡ true → is_ready (queue_request o e a).conn.state ≡ true
  unfolding queue_request
  queue_request-ready a h = ground arith

  queued :
      (fuel : ℕ) (a : At)
      → is_ready a.conn.state ≡ true
      → Sound a
      → a.conn.inflight < o.pipeline
      → (o.duration_mode ≡ true) ⊎ (a.conn.sent_req < o.requests)
      → ((b : At) → is_ready b.conn.state ≡ true → Sound b → Sound (refill_loop o e fuel b))
      → Sound (refill_loop o e fuel (queue_request o e a))
  queued fuel a at_work s room more next =
      next (queue_request o e a) (queue_request-ready a at_work)
        (queue_request-Sound a s at_work room more)

  pub refill_loop-Sound :
      (fuel : ℕ) (a : At) → is_ready a.conn.state ≡ true → Sound a → Sound (refill_loop o e fuel a)
  unfolding refill_loop more_requests
  refill_loop-Sound zero a at_work s = s
  refill_loop-Sound (suc fuel) a at_work s =
      ground
        (arith, queued fuel a at_work s, queued fuel (ticked a) at_work s, refill_loop-Sound fuel)

  pub refill-Sound : (a : At) → Sound a → Sound (refill o e a)
  unfolding refill
  refill-Sound a s = ground (arith, refill_loop-Sound (o.pipeline - a.conn.inflight) a)

  progress-Sound : (n : ℕ) (a : At) → Sound a → Sound (progress o e n a)
  unfolding progress
  progress-Sound n a s = ground arith

  pub flush_loop-Sound :
      (answers : List SendAnswer) (a : At) → Sound a → Sound (flush_loop o e answers a).1
  unfolding flush_loop send_error
  flush_loop-Sound [] a s = ground (
    arith,
    update_events-Sound (with_sends o e [] a) s,
    update_events-Sound (cleared o e (with_sends o e [] a)),
  )
  flush_loop-Sound (took n ∷ answers) a s = ground (
    arith,
    flush_loop-Sound answers (progress o e (suc n) a) (progress-Sound (suc n) a s),
    update_events-Sound (cleared o e (with_sends o e (took n ∷ answers) a)),
  )
  flush_loop-Sound (send_interrupted ∷ answers) a s = ground (
    arith,
    flush_loop-Sound answers a s,
    update_events-Sound (cleared o e (with_sends o e (send_interrupted ∷ answers) a)),
  )
  flush_loop-Sound (send_would_block ∷ answers) a s = ground (
    arith,
    update_events-Sound (with_sends o e answers a) s,
    update_events-Sound (cleared o e (with_sends o e (send_would_block ∷ answers) a)),
  )
  flush_loop-Sound (send_failed errno ∷ answers) a s = ground (
    arith,
    fail_conn-Sound (text "发送失败") (text "send: " ++ e.strerror errno) (with_sends o e answers a) s,
    update_events-Sound (cleared o e (with_sends o e (send_failed errno ∷ answers) a)),
  )

  pump_loop-Sound : (rounds : ℕ) (a : At) → Sound a → Sound (pump_loop o e rounds a)
  unfolding pump_loop flush_out
  pump_loop-Sound zero a s = s
  pump_loop-Sound (suc rounds) a s =
      let s1 = flush_loop-Sound a.world.sends a s in
      let s2 = refill-Sound (flush_loop o e a.world.sends a).1 s1 in
      let s3 = pump_loop-Sound rounds (refill o e (flush_loop o e a.world.sends a).1) s2 in
      ground arith

  pub pump-Sound : (a : At) → Sound a → Sound (pump o e a)
  unfolding pump
  pump-Sound a s = pump_loop-Sound 64 a s

  -- What moreRequests tells where it says no, and that it leaves the connection as it is.
  pub more_requests_lem :
      (a : At)
      → Sound a
      → Sound (more_requests o e a).1
        × ((more_requests o e a).1.conn ≡ a.conn)
        × (((more_requests o e a).0 ≡ true)
            ⊎ ((o.duration_mode ≡ true) ⊎ (o.requests ≤ a.conn.sent_req)))
  unfolding more_requests
  more_requests_lem a s = ground arith
