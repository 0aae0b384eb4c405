-- ===== src/EventLoopThreadPool/Tests.antt =====
-- Three loops, and a counter that has come round.
use mini_net.Prelude.{ℕ, ◌<◌, ◌≡◌, [], ◌∷◌, length, get_or, arith}
use mini_net.EventLoopThreadPool.{LoopPool, next_loop}
use mini_net.EventLoopThreadPool.Fair.{after, next_loop-fair}

abbrev three_loops : LoopPool
three_loops = record { base_loop = 0; thread_num = 3; next = 7; loops = 11 ∷ 12 ∷ 13 ∷ [] }

next_loop-fair_example :
    (i : ℕ) × (i < length three_loops.loops)
    × ((next_loop (after i three_loops)).0 ≡ get_or three_loops.loops 0 three_loops.base_loop)
next_loop-fair_example = next_loop-fair three_loops 0 (omega arith) (omega arith)
