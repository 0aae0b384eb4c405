-- ===== src/EventLoopThreadPool.antt =====
-- src/EventLoopThreadPool.cc and include/mini_net/EventLoopThreadPool.h: which loop a connection is
-- given to. A loop is its number; what startLoop returns for the i-th thread is an argument.
mod Tests
pub mod Fair
use mini_net.Prelude.{
  ℕ, zero, suc, ◌+◌, ◌%◌, ◌^◌, List, [], ◌∷◌, ◌++◌, if◌then◌else◌, ◌==◌, length, get_or,
}
use mini_net.Ctype.{ℤ, pos, negsuc}

pub record LoopPool : Type 0 where
  pub base_loop : ℕ
  pub thread_num : ℕ
  pub next : ℕ
  pub loops : List ℕ

abbrev pub new_loop_pool : ℕ → LoopPool
new_loop_pool base_loop = record { base_loop = base_loop; thread_num = 0; next = 0; loops = [] }

-- setThreadNum: a negative number is 0.
unfoldable pub set_thread_num : ℤ → LoopPool → LoopPool
set_thread_num (pos n) p = record p { thread_num = n }
set_thread_num (negsuc n) p = record p { thread_num = 0 }

unfoldable pub start_loops : ℕ → ℕ → (ℕ → ℕ) → List ℕ
start_loops zero i start_loop = []
start_loops (suc n) i start_loop = start_loop i ∷ start_loops n (suc i) start_loop

unfoldable pub start : (ℕ → ℕ) → LoopPool → LoopPool
start start_loop p = record p { loops = p.loops ++ start_loops p.thread_num 0 start_loop }

unfoldable pub stop : LoopPool → LoopPool
stop p = record p { loops = [] }

-- next_ is a size_t.
unfoldable pub next_loop : LoopPool → ℕ × LoopPool
next_loop p = if length p.loops == 0 then (p.base_loop, p) else (
  get_or p.loops (p.next % length p.loops) p.base_loop,
  record p { next = (p.next + 1) % 2 ^ 64 },
)
