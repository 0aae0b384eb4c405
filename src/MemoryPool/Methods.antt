-- ===== src/MemoryPool/Methods.antt =====
-- allocate and deallocate hand blocks over between the free list and the program.
use mini_net.Prelude.{
  ℕ, zero, suc, ◌+◌, ◌-◌, ◌*◌, ◌<◌, ◌≤◌, ◌≡◌, ◌≢◌, refl, sym, ap, ◌∙◌, subst, List, [], ◌∷◌, ◌++◌,
  Option, some, inl, inr, if◌then◌else◌, ◌==◌, ==_iff, Bool-cases, arith, ltb, ltb→lt, ltb→le,
}
use mini_net.MemoryPool.{
  Memory, Pool, push, link_blocks, grow, pop, pop_grown, allocate, deallocate, new_pool,
  aligned_size, at_least_one, pointer_size, max_align,
}
use mini_net.MemoryPool.Owned.{
  count, IsPool, IsFresh, write_same, push-IsPool, pop-IsPool, linked_list, linked_list-nonempty,
  link_blocks-IsPool,
}

-- malloc's chunk, as large as grow asks for.
abbrev pub FreshChunk : Pool → ℕ → List ℕ → List ℕ → Type 0
FreshChunk p chunk free live =
    IsFresh chunk (chunk + p.blocks_per_chunk * p.block_size) p.block_size free live

grow-IsPool :
    (p : Pool) (chunk : ℕ) (live : List ℕ)
    → IsPool p [] live
    → FreshChunk p chunk [] live
    → (p' : Pool) × (a : ℕ) × (free : List ℕ) × (grow p (some chunk) ≡ some p')
      × IsPool p' (a ∷ free) live
unfolding grow
grow-IsPool p chunk live v f =
    by_blocks p.blocks_per_chunk v.chunked
      (link_blocks-IsPool p.blocks_per_chunk chunk _ p' [] live grown f (omega arith))
  where
    p' : Pool
    p' = record p {
      chunks = p.chunks ++ chunk ∷ [];
      total_blocks = p.total_blocks + p.blocks_per_chunk;
    }

    grown : IsPool p' [] live
    grown = record {
      linked = v.linked;
      once = v.once;
      apart = v.apart;
      sized = v.sized;
      chunked = v.chunked;
    }

    by_blocks :
        (n : ℕ)
        → 0 < n
        → IsPool (link_blocks n chunk p') (linked_list n chunk p.block_size []) live
        → (q : Pool) × (a : ℕ) × (free : List ℕ) × (some (link_blocks n chunk p') ≡ some q)
          × IsPool q (a ∷ free) live
    by_blocks zero h k = absurd (omega arith)
    by_blocks (suc n) h k =
        let (a, free, e) = linked_list-nonempty n (chunk + p.block_size) chunk p.block_size [] in
        (
          link_blocks (suc n) chunk p',
          a,
          free,
          refl,
          subst (λ l. IsPool (link_blocks (suc n) chunk p') l live) e k,
        )

empty_grows :
    (p : Pool) (malloc : Option ℕ) → p.free_list ≡ 0 → allocate p malloc ≡ pop_grown (grow p malloc)
unfolding allocate
empty_grows p malloc h = rw ((==_iff p.free_list 0).1 h)

full_pops : (p : Pool) (malloc : Option ℕ) → p.free_list ≢ 0 → allocate p malloc ≡ some (pop p)
unfolding allocate
full_pops p malloc h = elim (Bool-cases (p.free_list == 0)) [
  | inl e ↦ absurd (h ((==_iff _ _).0 e))
  | inr e ↦ rw e
]

-- On a sound pool, where malloc gives a new chunk, in no block of the pool, if it is asked: allocate
-- gives a block that is not null and that the program does not have, and hands it over; the pool is
-- sound afterwards, so that the block has no byte in common with any other, free or the program's.
pub allocate-IsPool :
    (p : Pool) (chunk : ℕ) (free live : List ℕ)
    → IsPool p free live
    → FreshChunk p chunk free live
    → (a : ℕ) × (p' : Pool) × (free' : List ℕ) × (allocate p (some chunk) ≡ some (a, p'))
      × IsPool p' free' (a ∷ live)
      × (count a live ≡ 0)
      × (a ≢ 0)
allocate-IsPool p chunk [] live v f =
    let (p', a, free, e, k) = grow-IsPool p chunk live v f in
    let (is, k') = pop-IsPool p' a free live k in
    (
      a,
      (pop p').1,
      free,
      empty_grows p (some chunk) v.linked ∙ rw e (ap (λ b. some (b, (pop p').1)) is),
      k',
      ground (arith, k'.once a, ==_iff a a),
      k.linked.1,
    )
allocate-IsPool p chunk (a ∷ free) live v f =
    let (is, nonzero, k) = v.linked in
    let (is', k') = pop-IsPool p a free live v in
    (
      a,
      (pop p).1,
      free,
      full_pops p (some chunk) (λ e. nonzero (sym is ∙ e)) ∙ ap (λ b. some (b, (pop p).1)) is',
      k',
      ground (arith, k'.once a, ==_iff a a),
      nonzero,
    )

abbrev pub remove : ℕ → List ℕ → List ℕ
remove a [] = []
remove a (b ∷ l) = let rest = remove a l in if b == a then l else b ∷ rest

count-remove :
    (a b : ℕ) (l : List ℕ)
    → 0 < count a l
    → count b (remove a l) ≡ (if a == b then count b l - 1 else count b l)
count-remove a b [] h = absurd (omega arith)
count-remove a b (c ∷ l) h = elim (Bool-cases (c == a)) [
  | inl e ↦ ground (arith, e, ==_iff c a, ==_iff c b, ==_iff a b)
  | inr e ↦
      let rest = count-remove a b l (ground (arith, e, h)) in
      ground (arith, e, rest, ==_iff c a, ==_iff c b, ==_iff a b)
]

was_there :
    (a b : ℕ) (free live : List ℕ)
    → 0 < count a live
    → 0 < count b free + count b (remove a live)
    → 0 < count b free + count b live
was_there a b free live has h = ground (arith, h, count-remove a b live has)

-- The block is in no list once it is taken out.
gone_now :
    {p : Pool} (a b : ℕ) (free live : List ℕ)
    → IsPool p free live
    → 0 < count a live
    → 0 < count b free + count b (remove a live)
    → a ≢ b
gone_now a b free live v has h e =
    let there = subst (λ (t : ℕ). 0 < count t free + count t (remove a live)) (sym e) h in
    absurd (ground (arith, there, v.once a, count-remove a a live has, ==_iff a a))

-- On a sound pool, deallocate of a block that the program has gives it back: it heads the free list, and the program
-- has it no more.
pub deallocate-IsPool :
    (p : Pool) (a : ℕ) (free live : List ℕ)
    → IsPool p free live
    → 0 < count a live
    → a ≢ 0
    → IsPool (deallocate p a) (a ∷ free) (remove a live)
unfolding deallocate
deallocate-IsPool p a free live v has nonzero = elim (Bool-cases (a == 0)) [
  | inl e ↦ absurd (nonzero ((==_iff a 0).0 e))
  | inr e ↦
      let without : IsPool p free (remove a live) = record {
        linked = v.linked;
        once = λ b. ground (arith, v.once b, count-remove a b live has);
        apart = λ b c hb hc differ.
            v.apart b c (was_there a b free live has hb) (was_there a c free live has hc) differ;
        sized = v.sized;
        chunked = v.chunked;
      } in
      rw e (
        push-IsPool p a free (remove a live) without nonzero
          (ground (arith, v.once a, count-remove a a live has, ==_iff a a))
          (λ b h.
            v.apart b a (was_there a b free live has h) (omega (arith, has))
              (λ e. gone_now a b free live v has h (sym e))))
]

pop-push : (p : Pool) (a : ℕ) → some (pop (push p a)) ≡ some (a, (pop (push p a)).1)
unfolding pop push
pop-push p a = refl

popped_list : (p : Pool) (a : ℕ) → (pop (push p a)).1.free_list ≡ p.free_list
unfolding pop push
popped_list p a = write_same p.memory a p.free_list

pushed_head : (p : Pool) (a : ℕ) → a ≢ 0 → (push p a).free_list ≢ 0
unfolding push
pushed_head p a h = h

-- The block, not null, that was given back last is the next one handed out, whatever malloc would say, and the
-- free list is then what it was.
allocate-deallocate :
    (p : Pool) (a : ℕ) (malloc : Option ℕ)
    → a ≢ 0
    → (p' : Pool) × (allocate (deallocate p a) malloc ≡ some (a, p')) × (p'.free_list ≡ p.free_list)
unfolding deallocate
allocate-deallocate p a malloc nonzero = elim (Bool-cases (a == 0)) [
  | inl e ↦ absurd (nonzero ((==_iff a 0).0 e))
  | inr e ↦ rw e (
    (pop (push p a)).1,
    full_pops (push p a) malloc (pushed_head p a nonzero) ∙ pop-push p a,
    popped_list p a,
  )
]

-- A block is large enough for the object, and never longer by more than the rounding.
aligned_size-fits :
    (n : ℕ)
    → (n ≤ aligned_size n) × (pointer_size ≤ aligned_size n) × (aligned_size n < n + max_align)
unfolding aligned_size
aligned_size-fits n = elim (Bool-cases (ltb n pointer_size)) [
  | inl small ↦ rw small (omega (arith, ltb→lt _ _ small), omega arith, omega arith)
  | inr large ↦ rw large (
    omega (arith, ltb→le _ _ large),
    omega (arith, ltb→le _ _ large),
    omega (arith, ltb→le _ _ large),
  )
]

pub new_pool-IsPool : (m : Memory) (size per_chunk : ℕ) → IsPool (new_pool m size per_chunk) [] []
unfolding new_pool at_least_one
new_pool-IsPool m size per_chunk = record {
  linked = refl;
  once = λ a. omega arith;
  apart = λ a b ha hb differ. absurd (omega (arith, ha));
  sized = (aligned_size-fits size).1;
  chunked = ground arith;
}
