-- ===== src/EventLoop/Timers.antt =====
-- How long the loop sleeps.
use native.Mathlib.Omega.{arith}
use mini_net.Prelude.{ℕ, ◌-◌, ◌*◌, ◌≤◌, ◌≡◌, refl, List, [], ◌∷◌, ◌++◌, min}
use mini_net.Ctype.{pos}
use mini_net.EventLoop.{TimedTask, next_timeout_ms, soonest, due_in, ns_per_ms}

module _ {C : Type 0} where
  soonest-le : (now best : ℕ) (timers : List (TimedTask C)) → soonest now best timers ≤ best
  unfolding soonest
  soonest-le now best [] = omega arith
  soonest-le now best (t ∷ timers) =
      omega (arith, soonest-le now (min best (due_in now t.next)) timers)

  soonest-due :
      (now best : ℕ) (a : List (TimedTask C)) (t : TimedTask C) (b : List (TimedTask C))
      → soonest now best (a ++ t ∷ b) ≤ due_in now t.next
  unfolding soonest
  soonest-due now best [] t b = omega (arith, soonest-le now (min best (due_in now t.next)) b)
  soonest-due now best (u ∷ a) t b = soonest-due now (min best (due_in now u.next)) a t b

  -- With timers, the loop waits for at most a second, and never past the time of any timer: if one is
  -- due already, it does not wait at all.
  pub next_timeout_ms-bound :
      (now : ℕ) (a : List (TimedTask C)) (t : TimedTask C) (b : List (TimedTask C))
      → (n : ℕ) × (next_timeout_ms now (a ++ t ∷ b) ≡ pos n)
        × (n ≤ 1000)
        × (n * ns_per_ms ≤ t.next - now)
  unfolding next_timeout_ms
  next_timeout_ms-bound now [] t b =
      let n = soonest now 1000 (t ∷ b) in
      (n, refl, soonest-le now 1000 (t ∷ b), omega (arith, soonest-due now 1000 [] t b))
  next_timeout_ms-bound now (u ∷ a) t b =
      let n = soonest now 1000 (u ∷ a ++ t ∷ b) in
      (
        n,
        refl,
        soonest-le now 1000 (u ∷ a ++ t ∷ b),
        omega (arith, soonest-due now 1000 (u ∷ a) t b),
      )
