-- ===== src/EventLoop/Tests.antt =====
-- Runs of the loop, and its theorems at an input.
use mini_net.Prelude.{ℕ, ◌-◌, ◌*◌, ◌≤◌, ◌≡◌, refl, true, List, [], ◌∷◌, ◌++◌, if◌then◌else◌, ◌==◌}
use mini_net.Ctype.{pos}
use mini_net.EventLoop.{
  EventLoop, TimedTask, Request, queue_in_loop, Poll, calls, foreign_task, foreign_quit, new_loop,
  next_timeout_ms, ns_per_ms, round, rounds, ended,
}
use mini_net.EventLoop.Pending.{effects}
use mini_net.EventLoop.Rounds.{IsAwake, before_pending, round-runs, rounds-quit}
use mini_net.EventLoop.Timers.{next_timeout_ms-bound}

-- A task writes its number down and queues the number below.
abbrev tick_down : ℕ → List ℕ → List ℕ × List (Request ℕ)
tick_down c s = (s ++ c ∷ [], (if c == 0 then [] else queue_in_loop (c - 1) ∷ []))

abbrev waiting_loop : EventLoop ℕ
waiting_loop = record (new_loop true) { pending = 3 ∷ []; bell = 1 }

abbrev poll : Poll ℕ
poll = record {
  events = calls 7 ∷ [];
  now = 5;
  before_swap = foreign_quit ∷ [];
  after_swap = foreign_task 4 ∷ [];
}

round-runs_example :
    ((more : List ℕ) × (t : List ℕ) × ((round tick_down poll ([], waiting_loop)).0
        ≡ (effects tick_down (waiting_loop.pending ++ more) t).0))
    × IsAwake (round tick_down poll ([], waiting_loop)).1
round-runs_example = round-runs tick_down poll [] waiting_loop (unfold new_loop in refl)

rounds-quit_example :
    rounds tick_down (poll ∷ poll ∷ []) ([], waiting_loop)
    ≡ (true, ended (round tick_down poll ([], waiting_loop)))
rounds-quit_example =
    rounds-quit tick_down poll (poll ∷ []) ([], waiting_loop) (unfold new_loop in refl)
      (before_pending [] [] refl)

abbrev every_second : TimedTask ℕ
every_second = record { id = 1; interval_ms = 1000; next = 1003000000; callback = 0 }

next_timeout_ms-bound_example :
    (n : ℕ) × (next_timeout_ms 3000000 (every_second ∷ []) ≡ pos n)
    × (n ≤ 1000)
    × (n * ns_per_ms ≤ every_second.next - 3000000)
next_timeout_ms-bound_example = next_timeout_ms-bound 3000000 [] every_second []
