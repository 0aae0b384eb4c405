-- ===== src/EventLoop.antt =====
-- src/EventLoop.cc and include/mini_net/EventLoop.h: timers, tasks from other threads and the bell
-- (an eventfd) that wakes the loop. What a callback does to the program is a function on a state S,
-- and what it asks of its own loop is a list of requests, carried out in order as they are made.
mod Tests
pub mod Pending
pub mod Timers
pub mod Rounds
use mini_net.Prelude.{
  ℕ, zero, suc, length, ◌+◌, ◌-◌, ◌*◌, ◌/◌, min, Bool, true, false, not, ◌||◌, List, [], ◌∷◌, ◌++◌,
  Option, none, some, if◌then◌else◌, ltb, leb, ◌==◌,
}
use mini_net.Ctype.{ℤ, pos, negsuc}

-- Times are nanoseconds of the steady clock, as its time_point counts.
abbrev pub ns_per_ms : ℕ
ns_per_ms = 1000000

pub record TimedTask (C : Type 0) : Type 0 where
  pub id : ℕ
  pub interval_ms : ℕ
  pub next : ℕ
  pub callback : C

-- `bell` counts the writes to the eventfd since it was last read; there is none if its creation
-- failed.
pub record EventLoop (C : Type 0) : Type 0 where
  pub has_bell : Bool
  pub bell : ℕ
  pub calling_pending : Bool
  pub timers : List (TimedTask C)
  pub next_timer_id : ℕ
  pub quit : Bool
  pub looping : Bool
  pub pending : List C

-- What a callback asks of the loop that runs it; a timer comes with the clock's reading.
pub data Request (C : Type 0) : Type 0 where
  queue_in_loop : C → Request C
  run_every : ℕ → ℤ → C → Request C
  cancel_timer : ℕ → Request C
  quit_loop : Request C

-- What another thread does: it queues a task, or calls quit.
pub data Foreign (C : Type 0) : Type 0 where
  foreign_task : C → Foreign C
  foreign_quit : Foreign C

-- While the active channels are handled: one calls back, the wakeup channel reads the bell, or
-- another thread comes between.
pub data Happening (C : Type 0) : Type 0 where
  calls : C → Happening C
  reads_bell : Happening C
  meanwhile : Foreign C → Happening C

-- A return of epoll_wait: what happens before the timers, the clock's reading there, and what other
-- threads do before the pending tasks are taken and after.
pub record Poll (C : Type 0) : Type 0 where
  pub events : List (Happening C)
  pub now : ℕ
  pub before_swap : List (Foreign C)
  pub after_swap : List (Foreign C)

abbrev pub interval_of : ℤ → ℕ
interval_of (pos zero) = 1
interval_of (pos (suc n)) = suc n
interval_of (negsuc n) = 1

abbrev pub due_in : ℕ → ℕ → ℕ
due_in now next = (next - now) / ns_per_ms

module _ {C : Type 0} where
  unfoldable pub new_loop : Bool → EventLoop C
  new_loop has_bell = record {
    has_bell = has_bell;
    bell = 0;
    calling_pending = false;
    timers = [];
    next_timer_id = 1;
    quit = false;
    looping = false;
    pending = [];
  }

  unfoldable pub wakeup : EventLoop C → EventLoop C
  wakeup l = if l.has_bell then record l { bell = suc l.bell } else l

  unfoldable pub handle_wakeup : EventLoop C → EventLoop C
  handle_wakeup l = record l { bell = 0 }

  -- queueInLoop, from the loop's own thread or another one.
  unfoldable pub queue : Bool → C → EventLoop C → EventLoop C
  queue in_loop_thread c l =
      let queued = record l { pending = l.pending ++ c ∷ [] } in
      if not in_loop_thread || l.calling_pending then wakeup queued else queued

  unfoldable pub quit_from : Bool → EventLoop C → EventLoop C
  quit_from in_loop_thread l =
      let asked = record l { quit = true } in if in_loop_thread then asked else wakeup asked

  unfoldable pub pending_count : EventLoop C → ℕ
  pending_count l = length l.pending

  unfoldable pub add_timer : ℕ → ℤ → C → EventLoop C → ℕ × EventLoop C
  add_timer now interval_ms c l = (
    l.next_timer_id,
    record l {
      next_timer_id = suc l.next_timer_id;
      timers =
          l.timers
          ++ record {
            id = l.next_timer_id;
            interval_ms = interval_of interval_ms;
            next = now + interval_of interval_ms * ns_per_ms;
            callback = c;
          }
            ∷ [];
    },
  )

  -- cancelTimer: the first timer with the id.
  unfoldable pub erase_timer : ℕ → List (TimedTask C) → List (TimedTask C)
  erase_timer id [] = []
  erase_timer id (t ∷ timers) =
      let rest = erase_timer id timers in if t.id == id then timers else t ∷ rest

  -- nextTimeoutMs: -1 where there is no timer.
  unfoldable pub soonest : ℕ → ℕ → List (TimedTask C) → ℕ
  soonest now best [] = best
  soonest now best (t ∷ timers) = soonest now (min best (due_in now t.next)) timers

  unfoldable pub next_timeout_ms : ℕ → List (TimedTask C) → ℤ
  next_timeout_ms now [] = negsuc 0
  next_timeout_ms now (t ∷ timers) = pos (soonest now 1000 (t ∷ timers))

  unfoldable pub request : Request C → EventLoop C → EventLoop C
  request (queue_in_loop c) l = queue true c l
  request (run_every now interval_ms c) l = (add_timer now interval_ms c l).1
  request (cancel_timer id) l = record l { timers = erase_timer id l.timers }
  request quit_loop l = quit_from true l

  unfoldable pub perform : List (Request C) → EventLoop C → EventLoop C
  perform [] l = l
  perform (r ∷ requests) l = perform requests (request r l)

  -- The timers after the first loop of runDueTimers, and the callbacks that it has collected.
  unfoldable pub restart : ℕ → List (TimedTask C) → List (TimedTask C)
  restart now [] = []
  restart now (t ∷ timers) =
      (if leb t.next now then record t { next = now + t.interval_ms * ns_per_ms } else t)
      ∷ restart now timers

  unfoldable pub due : ℕ → List (TimedTask C) → List C
  due now [] = []
  due now (t ∷ timers) =
      let rest = due now timers in if leb t.next now then t.callback ∷ rest else rest

  unfoldable pub foreign : Foreign C → EventLoop C → EventLoop C
  foreign (foreign_task c) l = queue false c l
  foreign foreign_quit l = quit_from false l

  unfoldable pub foreign_all : List (Foreign C) → EventLoop C → EventLoop C
  foreign_all [] l = l
  foreign_all (f ∷ rest) l = foreign_all rest (foreign f l)

module _ {C S : Type 0} where
  unfoldable pub done_calling : S × EventLoop C → S × EventLoop C
  done_calling (s, l) = (s, record l { calling_pending = false })

  abbrev pub others : List (Foreign C) → S × EventLoop C → S × EventLoop C
  others fs (s, l) = (s, foreign_all fs l)

  abbrev pub ended : S × EventLoop C → S × EventLoop C
  ended (s, l) = (s, record l { looping = false })

module _ {C S : Type 0} (run : C → S → S × List (Request C)) where
  -- A callback runs on the program's state and the loop.
  unfoldable pub call : C → S × EventLoop C → S × EventLoop C
  call c (s, l) = let (s', requests) = run c s in (s', perform requests l)

  unfoldable pub call_all : List C → S × EventLoop C → S × EventLoop C
  call_all [] x = x
  call_all (c ∷ rest) x = call_all rest (call c x)

  unfoldable pub happen : Happening C → S × EventLoop C → S × EventLoop C
  happen (calls c) x = call c x
  happen reads_bell (s, l) = (s, handle_wakeup l)
  happen (meanwhile f) (s, l) = (s, foreign f l)

  unfoldable pub happen_all : List (Happening C) → S × EventLoop C → S × EventLoop C
  happen_all [] x = x
  happen_all (h ∷ rest) x = happen_all rest (happen h x)

  unfoldable pub run_due_timers : ℕ → S × EventLoop C → S × EventLoop C
  run_due_timers now (s, l) =
      call_all (due now l.timers) (s, record l { timers = restart now l.timers })

  unfoldable pub do_pending_functors : S × EventLoop C → S × EventLoop C
  do_pending_functors (s, l) =
      done_calling (call_all l.pending (s, record l { calling_pending = true; pending = [] }))

  -- A round of the loop.
  unfoldable pub round : Poll C → S × EventLoop C → S × EventLoop C
  round p x =
      others p.after_swap
        (do_pending_functors (others p.before_swap (run_due_timers p.now (happen_all p.events x))))

  -- The while loop, on the returns of epoll_wait; the result says whether it has ended.
  unfoldable pub rounds : List (Poll C) → S × EventLoop C → Bool × (S × EventLoop C)
  rounds [] x = if x.1.quit then (true, ended x) else (false, x)
  rounds (p ∷ polls) x =
      let rest = rounds polls (round p x) in if x.1.quit then (true, ended x) else rest

  unfoldable pub loop : List (Poll C) → S × EventLoop C → Bool × (S × EventLoop C)
  loop polls (s, l) = rounds polls (s, record l { looping = true; quit = false })
