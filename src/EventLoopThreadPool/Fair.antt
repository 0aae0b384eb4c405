-- ===== src/EventLoopThreadPool/Fair.antt =====
-- Connections go round the loops.
use mini_net.Prelude.{
  ℕ, zero, suc, ◌+◌, ◌-◌, ◌%◌, ◌^◌, ◌<◌, ◌≡◌, sym, ap, ◌∙◌, length, get_or, arith, ◌==◌, ==_iff,
  Bool-cases, inl, inr, leb, leb→le, leb→lt,
}
use native.Mathlib.Nat.{mod-eq_of_lt, mod-lt, mod-add-mod, add-mod_right}
use mini_net.EventLoopThreadPool.{LoopPool, next_loop}

-- The pool after n calls of nextLoop.
abbrev pub after : ℕ → LoopPool → LoopPool
after zero p = p
after (suc n) p = after n (next_loop p).1

next_loop_step :
    (p : LoopPool)
    → 0 < length p.loops
    → p.next + 1 < 2 ^ 64
    → next_loop p
      ≡ (get_or p.loops (p.next % length p.loops) p.base_loop, record p { next = p.next + 1 })
unfolding next_loop
next_loop_step p h small = elim (Bool-cases (length p.loops == 0)) [
  | inl e ↦ absurd (omega (arith, h, (==_iff _ _).0 e))
  | inr e ↦ rw e (
      ap (λ (n : ℕ). (get_or p.loops (p.next % length p.loops) p.base_loop, record p { next = n }))
        (mod-eq_of_lt small))
]

after_next :
    (n : ℕ) (p : LoopPool)
    → 0 < length p.loops
    → p.next + n < 2 ^ 64
    → after n p ≡ record p { next = p.next + n }
after_next zero p h small = ap (λ (n : ℕ). record p { next = n }) (omega arith)
after_next (suc n) p h small =
    let step = ap (λ t. t.1) (next_loop_step p h (omega (arith, small))) in
    ap (after n) step
    ∙ after_next n (record p { next = p.next + 1 }) h (omega (arith, small))
    ∙ ap (λ (n : ℕ). record p { next = n }) (omega arith)

-- Position q of the list is met within n calls, n loops being there.
meets : (k n q : ℕ) → q < n → (i : ℕ) × (i < n) × ((k + i) % n ≡ q)
meets k n q h = elim (Bool-cases (leb (k % n) q)) [
  | inl e ↦
      let le = leb→le (k % n) q e in
      let sum : k % n + (q - k % n) ≡ q = omega (arith, le) in
      (
        q - k % n,
        omega (arith, h),
        sym (mod-add-mod k n (q - k % n)) ∙ ap (λ (t : ℕ). t % n) sum ∙ mod-eq_of_lt h,
      )
  | inr e ↦
      let gt = leb→lt (k % n) q e in
      let below : k % n < n = mod-lt k (omega (arith, h)) in
      let i : ℕ = q + n - k % n in
      let sum : k % n + i ≡ q + n = omega (arith, below) in
      (
        i,
        omega (arith, gt, below),
        sym (mod-add-mod k n i) ∙ ap (λ (t : ℕ). t % n) sum ∙ add-mod_right q n ∙ mod-eq_of_lt h,
      )
]

-- With n loops, any n calls of nextLoop in a row give each of them out, whatever came before, until
-- the counter wraps.
pub next_loop-fair :
    (p : LoopPool) (q : ℕ)
    → q < length p.loops
    → p.next + length p.loops < 2 ^ 64
    → (i : ℕ) × (i < length p.loops) × ((next_loop (after i p)).0 ≡ get_or p.loops q p.base_loop)
next_loop-fair p q h small =
    let (i, below, e) = meets p.next (length p.loops) q h in
    (
      i,
      below,
      ap (λ t. (next_loop t).0) (after_next i p (omega (arith, h)) (omega (arith, below, small)))
          ∙ ap (λ t. t.0)
              (next_loop_step (record p { next = p.next + i }) (omega (arith, h))
                (omega (arith, below, small)))
          ∙ ap (λ (t : ℕ). get_or p.loops t p.base_loop) e,
    )
