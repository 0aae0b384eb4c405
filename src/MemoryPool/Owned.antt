-- ===== src/MemoryPool/Owned.antt =====
-- Who owns a block: the free list or the program, never both and never twice.
use mini_net.Prelude.{
  ℕ, zero, suc, ◌+◌, ◌*◌, ◌<◌, ◌≤◌, ◌≡◌, ◌≢◌, refl, sym, ◌∙◌, subst, List, [], ◌∷◌, if◌then◌else◌,
  ◌==◌, ◌⊎◌, inl, inr, ltb, ltb→lt, ltb→le, Bool-cases, ==_iff, false, arith,
}
use mini_net.MemoryPool.{pointer_size, Memory, write, Pool, push, link_blocks, pop}

abbrev pub count : ℕ → List ℕ → ℕ
count a [] = 0
count a (b ∷ l) = let rest = count a l in if b == a then suc rest else rest

-- The blocks of the list that starts at an address, in order.
abbrev pub Linked : Memory → ℕ → List ℕ → Type 0
Linked m h [] = h ≡ 0
Linked m h (a ∷ l) = (h ≡ a) × (a ≢ 0) × Linked m (m a) l

-- `free` are the blocks of the free list, and `live` those that the program has. No two of them have a
-- byte in common, and each has room for the pointer.
pub record IsPool (p : Pool) (free live : List ℕ) : Type 0 where
  pub linked : Linked p.memory p.free_list free
  pub once : (a : ℕ) → count a free + count a live ≤ 1
  pub apart :
      (a b : ℕ)
      → 0 < count a free + count a live
      → 0 < count b free + count b live
      → a ≢ b
      → (a + p.block_size ≤ b) ⊎ (b + p.block_size ≤ a)
  pub sized : pointer_size ≤ p.block_size
  pub chunked : 0 < p.blocks_per_chunk

pub write_same : (m : Memory) (a v : ℕ) → write m a v a ≡ v
unfolding write
write_same m a v = rw ((==_iff a a).1 refl)

write_other : (m : Memory) (a b v : ℕ) → (a == b) ≡ false → write m a v b ≡ m b
unfolding write
write_other m a b v h = rw h

count_apart : (a b : ℕ) (l : List ℕ) → count a (b ∷ l) ≡ 0 → ((a == b) ≡ false) × (count a l ≡ 0)
count_apart a b l h = ground arith

Linked-write :
    (m : Memory) (h a v : ℕ) (l : List ℕ) → count a l ≡ 0 → Linked m h l → Linked (write m a v) h l
Linked-write m h a v [] none_there k = k
Linked-write m h a v (b ∷ l) none_there (is, nonzero, k) =
    let (other, rest) = count_apart a b l none_there in
    (
      is,
      nonzero,
      subst (λ t. Linked (write m a v) t l) (sym (write_other m a b v other))
          (Linked-write m (m b) a v l rest k),
    )

-- The addresses from `start` to `end` are in no block.
abbrev pub Clear : ℕ → ℕ → ℕ → List ℕ → List ℕ → Type 0
Clear start end size free live =
    (b : ℕ) → 0 < count b free + count b live → (b + size ≤ start) ⊎ (end ≤ b)

still_there :
    (a b : ℕ) (free live : List ℕ)
    → (a == b) ≡ false
    → 0 < count b (a ∷ free) + count b live
    → 0 < count b free + count b live
still_there a b free live other h = ground (arith, other, h)

pushed_apart :
    (a size : ℕ) (free live : List ℕ)
    → ((b c : ℕ)
        → 0 < count b free + count b live
        → 0 < count c free + count c live
        → b ≢ c
        → (b + size ≤ c) ⊎ (c + size ≤ b))
    → Clear a (a + size) size free live
    → (b c : ℕ) → 0 < count b (a ∷ free) + count b live
    → 0 < count c (a ∷ free) + count c live
    → b ≢ c
    → (b + size ≤ c) ⊎ (c + size ≤ b)
pushed_apart a size free live apart clear b c hb hc differ = elim (Bool-cases (a == b)) [
  | inl is_b ↦ elim (Bool-cases (a == c)) [
    | inl is_c ↦ absurd (differ (sym ((==_iff a b).0 is_b) ∙ (==_iff a c).0 is_c))
    | inr not_c ↦
        let e = (==_iff a b).0 is_b in
        elim (clear c (still_there a c free live not_c hc)) [
          | inl below ↦ inr (omega (arith, below, e))
          | inr above ↦ inl (omega (arith, above, e))
        ]
  ]
  | inr not_b ↦ elim (Bool-cases (a == c)) [
    | inl is_c ↦
        let e = (==_iff a c).0 is_c in
        elim (clear b (still_there a b free live not_b hb)) [
          | inl below ↦ inl (omega (arith, below, e))
          | inr above ↦ inr (omega (arith, above, e))
        ]
    | inr not_c ↦
        apart b c (still_there a b free live not_b hb) (still_there a c free live not_c hc) differ
  ]
]

pub push-IsPool :
    (p : Pool) (a : ℕ) (free live : List ℕ)
    → IsPool p free live
    → a ≢ 0
    → count a free + count a live ≡ 0
    → Clear a (a + p.block_size) p.block_size free live
    → IsPool (push p a) (a ∷ free) live
unfolding push
push-IsPool p a free live v nonzero fresh clear = record {
  linked = (
    refl,
    nonzero,
    subst (λ t. Linked (write p.memory a p.free_list) t free)
        (sym (write_same p.memory a p.free_list))
        (Linked-write p.memory p.free_list a p.free_list free (omega (arith, fresh)) v.linked),
  );
  once = λ b. ground (arith, v.once b, fresh, ==_iff a b);
  apart = pushed_apart a p.block_size free live v.apart clear;
  sized = v.sized;
  chunked = v.chunked;
}

-- The blocks that link_blocks puts before the list.
abbrev pub linked_list : ℕ → ℕ → ℕ → List ℕ → List ℕ
linked_list zero a size free = free
linked_list (suc n) a size free = linked_list n (a + size) size (a ∷ free)

-- malloc's memory: not null, and in no block that is there already.
pub record IsFresh (chunk end size : ℕ) (free live : List ℕ) : Type 0 where
  pub nonzero : 0 < chunk
  pub clear : Clear chunk end size free live

unowned :
    (chunk end size : ℕ) (free live : List ℕ)
    → IsFresh chunk end size free live
    → chunk < end
    → 0 < size
    → count chunk free + count chunk live ≡ 0
unowned chunk end size free live f room sized =
    elim (Bool-cases (ltb 0 (count chunk free + count chunk live))) [
      | inr none_there ↦ omega (arith, ltb→le _ _ none_there)
      | inl there ↦ absurd (elim (f.clear chunk (ltb→lt _ _ there)) [
        | inl below ↦ omega (arith, below, sized)
        | inr above ↦ omega (arith, above, room)
      ])
    ]

-- The first block of the chunk is taken.
rest-Clear :
    (a end size : ℕ) (free live : List ℕ)
    → Clear a end size free live
    → Clear (a + size) end size (a ∷ free) live
rest-Clear a end size free live clear b h = elim (Bool-cases (a == b)) [
  | inl is ↦ inl (omega (arith, (==_iff a b).0 is))
  | inr other ↦ elim (clear b (still_there a b free live other h)) [
    | inl below ↦ inl (omega (arith, below))
    | inr above ↦ inr above
  ]
]

block-Clear :
    (a end size : ℕ) (free live : List ℕ)
    → Clear a end size free live
    → a + size ≤ end
    → Clear a (a + size) size free live
block-Clear a end size free live clear room b h = elim (clear b h) [
  | inl below ↦ inl below
  | inr above ↦ inr (omega (arith, above, room))
]

pub link_blocks-IsPool :
    (n a end : ℕ) (p : Pool) (free live : List ℕ)
    → IsPool p free live
    → IsFresh a end p.block_size free live
    → a + n * p.block_size ≤ end
    → IsPool (link_blocks n a p) (linked_list n a p.block_size free) live
unfolding link_blocks push
link_blocks-IsPool zero a end p free live v f room = v
link_blocks-IsPool (suc n) a end p free live v f room =
    let next : a + p.block_size + n * p.block_size ≤ end = omega (arith, room) in
    let below : a < end = omega (arith, next, v.sized) in
    link_blocks-IsPool n (a + p.block_size) end (push p a) (a ∷ free) live
      (push-IsPool p a free live v (λ e. omega (arith, e, f.nonzero))
        (unowned a end p.block_size free live f below (omega (arith, v.sized)))
        (block-Clear a end p.block_size free live f.clear (omega (arith, next))))
      (record {
        nonzero = omega (arith, v.sized);
        clear = rest-Clear a end p.block_size free live f.clear;
      })
      next

pub linked_list-nonempty :
    (n a c size : ℕ) (free : List ℕ)
    → (b : ℕ) × (l : List ℕ) × (linked_list n a size (c ∷ free) ≡ b ∷ l)
linked_list-nonempty zero a c size free = (c, free, refl)
linked_list-nonempty (suc n) a c size free = linked_list-nonempty n (a + size) a size (c ∷ free)

handed_over :
    (a b : ℕ) (free live : List ℕ)
    → 0 < count b free + count b (a ∷ live)
    → 0 < count b (a ∷ free) + count b live
handed_over a b free live h = ground (arith, h)

pub pop-IsPool :
    (p : Pool) (a : ℕ) (free live : List ℕ)
    → IsPool p (a ∷ free) live
    → ((pop p).0 ≡ a) × IsPool (pop p).1 free (a ∷ live)
unfolding pop
pop-IsPool p a free live v =
    let (is, nonzero, k) = v.linked in
    (
      is,
      record {
        linked = subst (λ t. Linked p.memory (p.memory t) free) (sym is) k;
        once = λ b. ground (arith, v.once b);
        apart = λ b c hb hc differ.
            v.apart b c (handed_over a b free live hb) (handed_over a c free live hc) differ;
        sized = v.sized;
        chunked = v.chunked;
      },
    )
