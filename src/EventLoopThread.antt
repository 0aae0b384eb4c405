-- ===== src/EventLoopThread.antt =====
-- src/EventLoopThread.cc: a thread with a loop of its own. A step is what the thread does up to its
-- next use of what it shares, a call of startLoop or stop up to its wait, or a quit from elsewhere.
mod Tests
pub mod Stop
use mini_net.Prelude.{ℕ, zero, suc, ◌≡◌, Bool, true, false, if◌then◌else◌}

-- Where the thread stands: not made yet, before it has set loop_, between that and the first line of
-- loop(), in the loop, out of it, or with loop_ cleared.
pub data Runner : Type 0 where
  absent starting told inside left ended : Runner

-- `loop` says whether loop_ is set, and `quit` is the quit_ of that loop.
pub record LoopThread : Type 0 where
  pub started : Bool
  pub loop : Bool
  pub quit : Bool
  pub runner : Runner

abbrev pub new_thread : LoopThread
new_thread = record { started = false; loop = false; quit = false; runner = absent }

-- startLoop, before it waits for loop_.
unfoldable pub start_loop : LoopThread → LoopThread
start_loop t = if t.started then t else record t { started = true; runner = starting }

-- What threadFunc does next; loop() begins by setting quit_ to false.
unfoldable pub thread_step : Runner → LoopThread → LoopThread
thread_step absent t = t
thread_step starting t = record t { runner = told; loop = true; quit = false }
thread_step told t = record t { runner = inside; quit = false }
thread_step inside t = if t.quit then record t { runner = left } else t
thread_step left t = record t { runner = ended; loop = false }
thread_step ended t = t

unfoldable pub thread_func : LoopThread → LoopThread
thread_func t = thread_step t.runner t

-- stop, before it joins; without a thread it returns at once.
unfoldable pub ask_stop : LoopThread → LoopThread
ask_stop t = if t.started then if t.loop then record t { quit = true } else t else t

-- Whoever has the pointer may call quit.
pub data Step (t : LoopThread) : LoopThread → Type 0 where
  starts : Step t (start_loop t)
  goes_on : Step t (thread_func t)
  stops : Step t (ask_stop t)
  quits : t.loop ≡ true → Step t (record t { quit = true })

pub data Reach : LoopThread → Type 0 where
  begins : Reach new_thread
  later : {t t' : LoopThread} → Reach t → Step t t' → Reach t'
