-- ===== src/TcpServer/Starting.antt =====
-- TcpServer::start, and what the destructor takes back of it: the listening socket, its channel in the
-- base loop, the pool and the two timers. What socket, bind and listen answer is given.
use mini_net.Prelude.{
  ℕ, zero, suc, ◌+◌, ◌*◌, ◌<◌, ◌≡◌, refl, ap, ◌∙◌, Bool, true, List, [], ◌∷◌, ◌++◌, append_assoc,
  append-nil, Option, none, some, if◌then◌else◌, arith, length,
}
use mini_net.Ctype.{ℤ, pos}
use mini_net.Channel.{Channel, Ctl, Poller, Interest, new_channel, enable_reading}
use mini_net.Channel.Sync.{IsEpoll, IsSynced, Updated}
use mini_net.Channel.Operations.{reading_on, wanted, switch-Updated}
use mini_net.EventLoop.{EventLoop, TimedTask, add_timer, erase_timer, ns_per_ms}
use mini_net.EventLoopThreadPool.{LoopPool, new_loop_pool, set_thread_num, start, start_loops, stop}

-- The errors of socket, bind and listen are logged, and start returns.
pub record SocketCalls : Type 0 where
  pub made : Option ℕ
  pub bound : Bool
  pub listening : Bool

-- The base loop with its poller, and what start sets; `none` for -1 and for a null pointer.
pub record Base (K C : Type 0) : Type 0 where
  pub poller : Poller K
  pub loop : EventLoop C
  pub listen_fd : Option ℕ
  pub pool : Option LoopPool
  pub accept_channel : Option Channel
  pub idle_timer_id : Option ℕ
  pub stats_timer_id : Option ℕ
  pub closed : List ℕ

module _ {K C : Type 0} (ctl : Ctl K) (sweep report : C) where
  -- With a socket that listens, at two readings of the clock. The channel's address is given.
  unfoldable pub listen_on : ℕ → ℕ → ℕ → ℕ → ℤ → (ℕ → ℕ) → ℕ → Base K C → Base K C
  listen_on now later address base_loop thread_num start_loop fd b =
      let (p, ch) = enable_reading ctl b.poller (new_channel address fd) in
      let (idle, l1) = add_timer now (pos 1000) sweep b.loop in
      let (stats, l2) = add_timer later (pos 5000) report l1 in
      record b {
        poller = p;
        loop = l2;
        listen_fd = some fd;
        pool = some (start start_loop (set_thread_num thread_num (new_loop_pool base_loop)));
        accept_channel = some ch;
        idle_timer_id = some idle;
        stats_timer_id = some stats;
      }

  unfoldable pub start_server : ℕ → ℕ → ℕ → ℕ → ℤ → (ℕ → ℕ) → SocketCalls → Base K C → Base K C
  start_server now later address base_loop thread_num start_loop calls b = elim (calls.made) [
    | none ↦ record b { listen_fd = none }
    | some fd ↦
        if calls.bound
        then if calls.listening
          then listen_on now later address base_loop thread_num start_loop fd b
          else record b { listen_fd = some fd }
        else record b { listen_fd = some fd }
  ]

  abbrev pub cancel_if : Option ℕ → EventLoop C → EventLoop C
  cancel_if none l = l
  cancel_if (some id) l = record l { timers = erase_timer id l.timers }

  abbrev pub stop_if : Option LoopPool → Option LoopPool
  stop_if none = none
  stop_if (some p) = some (stop p)

  abbrev pub close_if : Option ℕ → List ℕ → List ℕ
  close_if none closed = closed
  close_if (some fd) closed = closed ++ fd ∷ []

  -- The destructor, without the connections (destroy): the timers, the pool and the listening socket.
  unfoldable pub stop_server : Base K C → Base K C
  stop_server b = record b {
    loop = cancel_if b.stats_timer_id (cancel_if b.idle_timer_id b.loop);
    pool = stop_if b.pool;
    closed = close_if b.listen_fd b.closed;
  }

  -- The loop has given out no id from its next one on.
  abbrev pub AreOld : ℕ → List (TimedTask C) → Type 0
  AreOld next [] = Unit {0}
  AreOld next (t ∷ timers) = (t.id < next) × AreOld next timers

  older : (next : ℕ) (timers : List (TimedTask C)) → AreOld next timers → AreOld (suc next) timers
  older next [] old = tt
  older next (t ∷ timers) old = (omega (arith, old.0), older next timers old.1)

  erase_new :
      (id : ℕ) (timers later : List (TimedTask C)) (t : TimedTask C)
      → AreOld id timers
      → t.id ≡ id
      → erase_timer id (timers ++ t ∷ later) ≡ timers ++ later
  unfolding erase_timer
  erase_new id [] later t old is = ground arith
  erase_new id (u ∷ timers) later t old is =
      let ih = erase_new id timers later t old.1 is in ground arith

  -- What a start that succeeds leaves, and what the destructor leaves of that.
  pub record IsListening (interest : K → ℕ → Option Interest) (now later fd threads : ℕ)
      (b c : Base K C) : Type 0 where
    pub channel : Channel
    pub idle : TimedTask C
    pub stats : TimedTask C
    pub accepts : c.accept_channel ≡ some channel
    pub reads : channel.events ≡ wanted reading_on (new_channel 0 fd).events
    pub updated : Updated ctl interest b.poller (c.poller, channel)
    pub timers : c.loop.timers ≡ b.loop.timers ++ idle ∷ stats ∷ []
    pub ids : (c.idle_timer_id ≡ some idle.id) × (c.stats_timer_id ≡ some stats.id)
    pub due : (idle.next ≡ now + 1000 * ns_per_ms) × (stats.next ≡ later + 5000 * ns_per_ms)
    pub loops : (p : LoopPool) × (c.pool ≡ some p) × (length p.loops ≡ threads)
    pub old_timers : (stop_server c).loop.timers ≡ b.loop.timers
    pub stopped : (stop_server c).closed ≡ b.closed ++ fd ∷ []

  length-start_loops : (n i : ℕ) (f : ℕ → ℕ) → length (start_loops n i f) ≡ n
  unfolding start_loops
  length-start_loops zero i f = refl
  length-start_loops (suc n) i f = ap suc (length-start_loops n (suc i) f)

  -- Where the socket can be made, bound and listened on: the accept channel asks to read, and the
  -- kernel waits for it or epoll_ctl failed and nothing has changed there; the pool has as many loops
  -- as threads were asked for; and the base loop has two timers more, due in one second and in five,
  -- whose ids the server keeps. The destructor takes back these timers and no other, and closes the
  -- socket. The base loop's poller agrees with its kernel, and none of its timers has an id that is
  -- still to be given out.
  start_server-IsListening :
      {interest : K → ℕ → Option Interest} (law : IsEpoll ctl interest)
      (now later address base_loop threads : ℕ) (start_loop : ℕ → ℕ) (fd : ℕ) (b : Base K C)
      → IsSynced interest b.poller
      → AreOld b.loop.next_timer_id b.loop.timers
      → IsListening interest now later fd threads b (
          start_server now later address base_loop
            (pos threads)
            start_loop
            (record { made = some fd; bound = true; listening = true })
            b)
  unfolding start_server listen_on add_timer stop_server set_thread_num start
  start_server-IsListening law now later address base_loop threads start_loop fd b synced old =
      let (events, writing, updated) =
        switch-Updated law reading_on b.poller (new_channel address fd) synced in
      let n = b.loop.next_timer_id in
      let idle : TimedTask C = record {
        id = n;
        interval_ms = 1000;
        next = now + 1000 * ns_per_ms;
        callback = sweep;
      } in
      let stats : TimedTask C = record {
        id = suc n;
        interval_ms = 5000;
        next = later + 5000 * ns_per_ms;
        callback = report;
      } in
      let listed : (b.loop.timers ++ idle ∷ []) ++ stats ∷ [] ≡ b.loop.timers ++ idle ∷ stats ∷ [] =
        append_assoc b.loop.timers (idle ∷ []) (stats ∷ []) in
      record {
        channel = (enable_reading ctl b.poller (new_channel address fd)).1;
        idle = idle;
        stats = stats;
        accepts = refl;
        reads = events;
        updated = updated;
        timers = listed;
        ids = (refl, refl);
        due = (refl, refl);
        loops = (_, refl, length-start_loops threads 0 start_loop);
        old_timers =
            ap (λ (l : List (TimedTask C)). erase_timer (suc n) (erase_timer n l)) listed
            ∙ ap (erase_timer (suc n)) (erase_new n b.loop.timers (stats ∷ []) idle old refl)
            ∙ erase_new (suc n) b.loop.timers [] stats (older n b.loop.timers old) refl
            ∙ append-nil b.loop.timers;
        stopped = refl;
      }
