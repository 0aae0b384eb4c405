-- ===== src/ThreadPool/Safety.antt =====
-- What the pool promises: no task is lost, run twice or forgotten asleep.
use mini_net.Prelude.{
  ℕ, ◌≡◌, refl, sym, ap, ◌∙◌, true, false, List, [], ◌∷◌, ◌++◌, length, arith, inl, inr, Bool-cases,
  ltb, ltb→lt, ltb→le, append-nil,
}
use mini_net.ThreadPool.{Worker, checking, waiting, exited, running, Pool, tally, Reach}
use mini_net.ThreadPool.Tally.{is_active, is_exited, runs, count, tally_all}
use mini_net.ThreadPool.Invariant.{Reach-Inv}

nil_of_length : {A : Type 0} (l : List A) → length l ≡ 0 → l ≡ []
nil_of_length [] h = refl
nil_of_length (x ∷ l) h = absurd (omega (arith, h))

exited_run_nothing : (a : ℕ) (l : List Worker) → tally is_active l ≡ 0 → tally (runs a) l ≡ 0
exited_run_nothing a [] h = refl
exited_run_nothing a (checking ∷ l) h = absurd (omega arith)
exited_run_nothing a (running task ∷ l) h = absurd (omega arith)
exited_run_nothing a (waiting ∷ l) h = omega (arith, exited_run_nothing a l (omega (arith, h)))
exited_run_nothing a (exited ∷ l) h = omega (arith, exited_run_nothing a l (omega (arith, h)))

abbrev pub AllExited : Pool → Type 0
AllExited p = tally is_exited p.workers ≡ length p.workers

-- When every worker has returned, which is what the destructor waits for: the queue is empty, the
-- tasks were started in the order in which they were accepted, and each has finished as often as it
-- was accepted.
pub AllExited-done :
    {threads : ℕ} {p : Pool}
    → Reach threads p
    → AllExited p
    → (p.tasks ≡ [])
      × (p.started ≡ p.accepted)
      × ((a : ℕ) → count a p.finished ≡ count a p.accepted)
AllExited-done {threads} {p} r h =
    let v = Reach-Inv r in
    let empty = nil_of_length p.tasks (v.stayed (omega (arith, v.staffed, h))).1 in
    let order : p.accepted ≡ p.started =
      v.fifo ∙ ap (λ t. p.started ++ t) empty ∙ append-nil p.started in
    let idle : tally is_active p.workers ≡ 0 = omega (arith, tally_all p.workers, h) in
    (
      empty,
      sym order,
      λ a. omega (arith, v.once a, ap (count a) order, exited_run_nothing a p.workers idle),
    )

-- No wake-up is lost: where no notification is due and no worker is at work, nothing is left in the
-- queue, and if the pool is stopped, every worker has returned.
pub quiet_is_done :
    {threads : ℕ} {p : Pool}
    → Reach threads p
    → p.signals ≡ 0
    → p.broadcast ≡ false
    → tally is_active p.workers ≡ 0
    → (p.tasks ≡ []) × (p.stop ≡ true → AllExited p)
quiet_is_done {threads} {p} r no_signals told idle =
    let v = Reach-Inv r in
    (
      nil_of_length p.tasks (elim (Bool-cases (ltb 0 (length p.tasks))) [
        | inl some_left ↦ absurd (omega (arith, v.awake (ltb→lt _ _ some_left), no_signals, idle))
        | inr none_left ↦ omega (arith, ltb→le _ _ none_left)
      ]),
      λ stopped. omega (arith, tally_all p.workers, idle, v.told stopped told),
    )
