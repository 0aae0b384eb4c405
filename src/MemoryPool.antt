-- ===== src/MemoryPool.antt =====
-- src/MemoryPool.cc and include/mini_net/MemoryPool.h: blocks of one size with an intrusive free
-- list. The memory maps an address to the pointer that is written there, and 0 is the null pointer;
-- IsPool (Owned) rules out blocks that overlap. What malloc returns is an argument, and the mutex makes
-- each method one step.
mod Tests
pub mod Owned
pub mod Methods
use mini_net.Prelude.{
  ℕ, zero, suc, ◌+◌, ◌-◌, ◌*◌, ◌/◌, List, [], ◌∷◌, ◌++◌, Option, none, some, if◌then◌else◌, ltb,
  ◌==◌,
}

abbrev pub Memory : Type 0
Memory = ℕ → ℕ

unfoldable pub write : Memory → ℕ → ℕ → Memory
write m a v b = if a == b then v else m b

-- sizeof(Block) and alignof(std::max_align_t) of the platform.
abbrev pub pointer_size : ℕ
pointer_size = 8

abbrev pub max_align : ℕ
max_align = 16

pub record Pool : Type 0 where
  pub block_size : ℕ
  pub blocks_per_chunk : ℕ
  pub free_list : ℕ
  pub chunks : List ℕ
  pub total_blocks : ℕ
  pub memory : Memory

unfoldable pub aligned_size : ℕ → ℕ
aligned_size n =
    if ltb n pointer_size then pointer_size else (n + max_align - 1) / max_align * max_align

unfoldable pub at_least_one : ℕ → ℕ
at_least_one n = if n == 0 then 1 else n

-- The constructor, on the memory that is there.
unfoldable pub new_pool : Memory → ℕ → ℕ → Pool
new_pool memory block_size blocks_per_chunk = record {
  block_size = aligned_size block_size;
  blocks_per_chunk = at_least_one blocks_per_chunk;
  free_list = 0;
  chunks = [];
  total_blocks = 0;
  memory = memory;
}

-- block->next = free_list_; free_list_ = block;
unfoldable pub push : Pool → ℕ → Pool
push p block = record p { memory = write p.memory block p.free_list; free_list = block }

-- The loop of grow over the blocks of a chunk, `n` of them from `block` on.
unfoldable pub link_blocks : ℕ → ℕ → Pool → Pool
link_blocks zero block p = p
link_blocks (suc n) block p = link_blocks n (block + p.block_size) (push p block)

-- `none` is std::bad_alloc.
unfoldable pub grow : Pool → Option ℕ → Option Pool
grow p none = none
grow p (some chunk) = some (
    link_blocks p.blocks_per_chunk chunk (record p {
      chunks = p.chunks ++ chunk ∷ [];
      total_blocks = p.total_blocks + p.blocks_per_chunk;
    }))

-- Block* block = free_list_; free_list_ = block->next;
unfoldable pub pop : Pool → ℕ × Pool
pop p = (p.free_list, record p { free_list = p.memory p.free_list })

abbrev pub pop_grown : Option Pool → Option (ℕ × Pool)
pop_grown none = none
pop_grown (some p) = some (pop p)

unfoldable pub allocate : Pool → Option ℕ → Option (ℕ × Pool)
allocate p malloc = if p.free_list == 0 then pop_grown (grow p malloc) else some (pop p)

unfoldable pub deallocate : Pool → ℕ → Pool
deallocate p block = if block == 0 then p else push p block
