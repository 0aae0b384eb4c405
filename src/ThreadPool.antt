-- ===== src/ThreadPool.antt =====
-- src/ThreadPool.cc and include/mini_net/ThreadPool.h: workers that take tasks from one queue.
-- A step is what a thread does under the mutex, a notification, or the end of a task. A task is its
-- number, given out by submit's caller. `accepted`, `started` and `finished` are kept for the proofs.
mod Tests
pub mod Tally
pub mod Invariant
pub mod Safety
pub mod Ends
use mini_net.Prelude.{
  ℕ, zero, suc, ◌+◌, ◌-◌, ◌<◌, ◌≡◌, Bool, true, false, List, [], ◌∷◌, ◌++◌, map, if◌then◌else◌,
  ◌==◌, replicate,
}

-- Where a worker stands: before the test of cv_.wait, blocked in it, running a task, or returned.
pub data Worker : Type 0 where
  checking waiting exited : Worker
  running : ℕ → Worker

-- `signals` and `broadcast` are the calls of notify_one and notify_all that are still to come: the
-- mutex is released before them.
pub record Pool : Type 0 where
  pub workers : List Worker
  pub tasks : List ℕ
  pub stop : Bool
  pub signals : ℕ
  pub broadcast : Bool
  pub accepted : List ℕ
  pub started : List ℕ
  pub finished : List ℕ

unfoldable pub worker_count : ℕ → ℕ
worker_count threads = if threads == 0 then 1 else threads

unfoldable pub new_pool : ℕ → Pool
new_pool threads = record {
  workers = replicate (worker_count threads) checking;
  tasks = [];
  stop = false;
  signals = 0;
  broadcast = false;
  accepted = [];
  started = [];
  finished = [];
}

unfoldable pub submit : Pool → ℕ → Pool
submit p task = if p.stop then p else record p {
  tasks = p.tasks ++ task ∷ [];
  signals = suc p.signals;
  accepted = p.accepted ++ task ∷ [];
}

-- The destructor up to its joins.
unfoldable pub shut : Pool → Pool
shut p = record p { stop = true; broadcast = true }

-- A worker that holds the mutex and tests `stop_ || !tasks_.empty()`.
unfoldable pub check_queue : Pool → List ℕ → Worker × Pool
check_queue p [] = if p.stop then (exited, p) else (waiting, p)
check_queue p (task ∷ rest) =
    (running task, record p { tasks = rest; started = p.started ++ task ∷ [] })

-- What a worker does next. A blocked one does nothing until it is woken.
unfoldable pub worker_loop : Worker → Pool → Worker × Pool
worker_loop checking p = check_queue p p.tasks
worker_loop (running task) p = (checking, record p { finished = p.finished ++ task ∷ [] })
worker_loop waiting p = (waiting, p)
worker_loop exited p = (exited, p)

unfoldable pub wake : Worker → Worker
wake waiting = checking
wake checking = checking
wake exited = exited
wake (running task) = running task

-- Does anything wait?
abbrev pub is_waiting : Worker → ℕ
is_waiting waiting = 1
is_waiting checking = 0
is_waiting exited = 0
is_waiting (running task) = 0

abbrev pub tally : (Worker → ℕ) → List Worker → ℕ
tally w [] = 0
tally w (x ∷ l) = w x + tally w l

abbrev pub set_worker : Pool → List Worker → Worker → List Worker → Pool
set_worker p l x r = record p { workers = l ++ x ∷ r }

abbrev pub moved : List Worker → List Worker → Worker × Pool → Pool
moved l r (x, p) = set_worker p l x r

-- Any thread may submit, and the pool may be destroyed once nobody submits any more; a condition
-- variable may also wake a thread for no reason.
pub data Step (p : Pool) : Pool → Type 0 where
  submits : (task : ℕ) → Step p (submit p task)
  destroys : Step p (shut p)
  works :
      (l : List Worker) (x : Worker) (r : List Worker)
      → p.workers ≡ l ++ x ∷ r
      → Step p (moved l r (worker_loop x p))
  notifies_one :
      (l r : List Worker)
      → 0 < p.signals
      → p.workers ≡ l ++ waiting ∷ r
      → Step p (set_worker (record p { signals = p.signals - 1 }) l checking r)
  notifies_nobody :
      0 < p.signals → tally is_waiting p.workers ≡ 0 → Step p (record p { signals = p.signals - 1 })
  notifies_all :
      p.broadcast ≡ true → Step p (record p { workers = map wake p.workers; broadcast = false })
  wakes : (l r : List Worker) → p.workers ≡ l ++ waiting ∷ r → Step p (set_worker p l checking r)

pub data Reach (threads : ℕ) : Pool → Type 0 where
  start : Reach threads (new_pool threads)
  later : {p q : Pool} → Reach threads p → Step p q → Reach threads q
