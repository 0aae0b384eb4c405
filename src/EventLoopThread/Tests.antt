-- ===== src/EventLoopThread/Tests.antt =====
-- A thread that is stopped.
use mini_net.Prelude.{ℕ, ◌≡◌, ◌≢◌, refl}
use mini_net.EventLoopThread.{
  told, inside, ended, LoopThread, new_thread, start_loop, thread_func, thread_step, ask_stop,
  Reach, begins, later, starts, goes_on,
}
use mini_net.EventLoopThread.Stop.{alone, has_loop, ask_stop-ends}

abbrev in_loop : LoopThread
in_loop = thread_func (thread_func (start_loop new_thread))

in_loop-Reach : Reach in_loop
in_loop-Reach = later (later (later begins starts) goes_on) goes_on

ask_stop-ends_example :
    (in_loop.loop ≡ has_loop in_loop.runner)
    × (in_loop.runner ≡ inside → (alone 2 (ask_stop in_loop)).runner ≡ ended)
    × (in_loop.runner ≡ told → (n : ℕ) → (alone n (ask_stop in_loop)).runner ≢ ended)
ask_stop-ends_example = ask_stop-ends in_loop-Reach

is_inside : in_loop.runner ≡ inside
unfolding thread_func thread_step start_loop
is_inside = refl
