-- ===== src/ThreadPool/Tests.antt =====
-- A run of a pool with one worker, and the theorems about it.
use mini_net.Prelude.{ℕ, ◌≡◌, ◌≤◌, refl, true, false, [], ◌∷◌, map, arith}
use mini_net.ThreadPool.{
  checking, exited, running, Pool, new_pool, worker_count, submit, shut, check_queue, worker_loop,
  submits, destroys, works, notifies_all, notifies_nobody, wake, Reach, start, later,
}
use mini_net.ThreadPool.Tally.{count}
use mini_net.ThreadPool.Safety.{AllExited, AllExited-done, quiet_is_done}
use mini_net.ThreadPool.Ends.{Moves, stays, moves, wakes_all, work_left, CanGoOn, stop-ends}

-- Task 5 is submitted and taken.
abbrev busy : Pool
busy = record {
  workers = running 5 ∷ [];
  tasks = [];
  stop = false;
  signals = 1;
  broadcast = false;
  accepted = 5 ∷ [];
  started = 5 ∷ [];
  finished = [];
}

busy-Reach : Reach 1 busy
unfolding new_pool worker_count submit worker_loop check_queue
busy-Reach = later (later start (submits 5)) (works [] checking [] refl)

-- It has finished, the pool is stopped, and the worker has returned.
abbrev over : Pool
over = record {
  workers = exited ∷ [];
  tasks = [];
  stop = true;
  signals = 0;
  broadcast = false;
  accepted = 5 ∷ [];
  started = 5 ∷ [];
  finished = 5 ∷ [];
}

over-Reach : Reach 1 over
unfolding shut worker_loop check_queue wake
over-Reach =
    later
      (later
        (later
          (later (later busy-Reach (works [] (running 5) [] refl))
            (notifies_nobody (omega arith) refl))
          destroys)
        (notifies_all refl))
      (works [] checking [] refl)

AllExited-done_example :
    (over.tasks ≡ [])
    × (over.started ≡ over.accepted)
    × ((a : ℕ) → count a over.finished ≡ count a over.accepted)
AllExited-done_example = AllExited-done over-Reach refl

quiet_is_done_example : (over.tasks ≡ []) × (over.stop ≡ true → AllExited over)
quiet_is_done_example = quiet_is_done over-Reach refl refl refl

-- The broadcast of the destructor is given first.
one_move :
    Moves 1
      (shut busy)
      (record (shut busy) { workers = map wake (shut busy).workers; broadcast = false })
unfolding shut
one_move = moves (wakes_all refl) stays

stop-ends_example :
    (1 ≤ work_left (shut busy))
    × CanGoOn (record (shut busy) { workers = map wake (shut busy).workers; broadcast = false })
stop-ends_example = stop-ends (later busy-Reach destroys) (unfold shut in refl) one_move
