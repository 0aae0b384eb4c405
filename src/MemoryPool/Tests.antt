-- ===== src/MemoryPool/Tests.antt =====
-- Runs of the pool, and its theorems at an input.
use mini_net.Prelude.{
  ℕ, ◌≡◌, ◌≢◌, refl, sym, ◌∙◌, ◌<◌, ◌+◌, ◌==◌, ==_iff, Bool-cases, inl, inr, List, [], ◌∷◌, Option,
  none, some, arith,
}
use mini_net.MemoryPool.{
  Pool, new_pool, allocate, deallocate, aligned_size, at_least_one, grow, link_blocks, push, pop,
  write,
}
use mini_net.MemoryPool.Owned.{IsPool, count}
use mini_net.MemoryPool.Methods.{
  FreshChunk, allocate-IsPool, deallocate-IsPool, new_pool-IsPool, remove,
}

-- Two blocks of 24 bytes, rounded up to 32, to a chunk.
abbrev small_pool : Pool
small_pool = new_pool (λ a. 0) 24 2

small_chunk : FreshChunk small_pool 4096 [] []
small_chunk = record { nonzero = omega arith; clear = λ b h. absurd (omega (arith, h)) }

allocate-IsPool_example :
    (a : ℕ) × (p' : Pool) × (free' : List ℕ) × (allocate small_pool (some 4096) ≡ some (a, p'))
    × IsPool p' free' (a ∷ [])
    × (count a [] ≡ 0)
    × (a ≢ 0)
allocate-IsPool_example =
    allocate-IsPool small_pool 4096 [] [] (new_pool-IsPool (λ a. 0) 24 2) small_chunk

abbrev address_of : Option (ℕ × Pool) → Option (ℕ × ℕ)
address_of none = none
address_of (some (a, p)) = some (a, p.free_list)

-- The last block of the chunk comes first, and the one before it is next.
first_block : address_of (allocate small_pool (some 4096)) ≡ some (4128, 4096)
unfolding allocate new_pool grow link_blocks push pop write aligned_size at_least_one
first_block = refl

-- A pool whose only block the program has.
abbrev lent_pool : Pool
lent_pool = record {
  block_size = 32;
  blocks_per_chunk = 1;
  free_list = 0;
  chunks = 4096 ∷ [];
  total_blocks = 1;
  memory = λ a. 0;
}

only_block : (a : ℕ) → 0 < count a [] + count a (4096 ∷ []) → 4096 ≡ a
only_block a h = elim (Bool-cases (4096 == a)) [
  | inl is ↦ (==_iff 4096 a).0 is
  | inr other ↦ absurd (ground (arith, other, h))
]

lent_pool-IsPool : IsPool lent_pool [] (4096 ∷ [])
lent_pool-IsPool = record {
  linked = refl;
  once = λ a. ground arith;
  apart = λ a b ha hb differ. absurd (differ (sym (only_block a ha) ∙ only_block b hb));
  sized = omega arith;
  chunked = omega arith;
}

deallocate-IsPool_example : IsPool (deallocate lent_pool 4096) (4096 ∷ []) (remove 4096 (4096 ∷ []))
deallocate-IsPool_example =
    deallocate-IsPool lent_pool 4096 [] (4096 ∷ []) lent_pool-IsPool (omega arith)
      (λ e. omega (arith, e))
