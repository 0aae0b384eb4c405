-- ===== src/ThreadPool/Ends.antt =====
-- A stopped pool comes to its end.
use mini_net.Prelude.{
  ℕ, zero, suc, ◌+◌, ◌-◌, ◌*◌, ◌<◌, ◌≤◌, ◌≡◌, ◌⊎◌, refl, ap, Bool, true, false, List, [], ◌∷◌, ◌++◌,
  map, length, arith, inl, inr, Bool-cases, ltb, ltb→lt, ltb→le,
}
use mini_net.ThreadPool.{
  Worker, checking, waiting, exited, running, Pool, check_queue, worker_loop, wake, is_waiting,
  tally, moved, set_worker, Step, works, notifies_one, notifies_nobody, notifies_all, wakes, Reach,
  later,
}
use mini_net.ThreadPool.Tally.{is_active, tally-append}
use mini_net.ThreadPool.Invariant.{Reach-Inv}
use mini_net.ThreadPool.Safety.{AllExited, quiet_is_done}

-- What the pool's threads do by themselves: a worker that is not blocked goes on, or a notification
-- that is due is given.
pub data Move (p : Pool) : Pool → Type 0 where
  goes_on :
      (l : List Worker) (x : Worker) (r : List Worker)
      → p.workers ≡ l ++ x ∷ r
      → is_active x ≡ 1
      → Move p (moved l r (worker_loop x p))
  wakes_one :
      (l r : List Worker)
      → 0 < p.signals
      → p.workers ≡ l ++ waiting ∷ r
      → Move p (set_worker (record p { signals = p.signals - 1 }) l checking r)
  wakes_nobody :
      0 < p.signals → tally is_waiting p.workers ≡ 0 → Move p (record p { signals = p.signals - 1 })
  wakes_all :
      p.broadcast ≡ true → Move p (record p { workers = map wake p.workers; broadcast = false })

Move-Step : {p q : Pool} → Move p q → Step p q
Move-Step (goes_on l x r e a) = works l x r e
Move-Step (wakes_one l r h e) = notifies_one l r h e
Move-Step (wakes_nobody h e) = notifies_nobody h e
Move-Step (wakes_all e) = notifies_all e

-- So many moves, with waiting workers that wake up for no reason among them.
pub data Moves : ℕ → Pool → Pool → Type 0 where
  stays : {p : Pool} → Moves zero p p
  moves : {n : ℕ} {p q s : Pool} → Move p q → Moves n q s → Moves (suc n) p s
  woken :
      {n : ℕ} {p s : Pool} (l r : List Worker)
      → p.workers ≡ l ++ waiting ∷ r
      → Moves n (set_worker p l checking r) s
      → Moves (suc n) p s

-- What is left to do once the pool is stopped.
abbrev pub weight : Worker → ℕ
weight checking = 1
weight (running task) = 2
weight waiting = 2
weight exited = 0

abbrev pub as_number : Bool → ℕ
as_number false = 0
as_number true = 1

abbrev pub work_left : Pool → ℕ
work_left p = 2 * length p.tasks + tally weight p.workers + p.signals + as_number p.broadcast

record Progress (p : Pool) (x : Worker) (yq : Worker × Pool) : Type 0 where
  less : 2 * length yq.1.tasks + weight yq.0 < 2 * length p.tasks + weight x
  stopped : yq.1.stop ≡ true
  signals : yq.1.signals ≡ p.signals
  broadcast : yq.1.broadcast ≡ p.broadcast

check_queue-Progress :
    (p : Pool) (tasks : List ℕ)
    → p.tasks ≡ tasks
    → p.stop ≡ true
    → Progress p checking (check_queue p tasks)
unfolding check_queue
check_queue-Progress p [] e h =
    simp h
      (record { less = omega (arith, ap length e); stopped = h; signals = refl; broadcast = refl })
check_queue-Progress p (task ∷ rest) e h = record {
  less = omega (arith, ap length e);
  stopped = h;
  signals = refl;
  broadcast = refl;
}

worker_loop-Progress :
    (p : Pool) (x : Worker) → is_active x ≡ 1 → p.stop ≡ true → Progress p x (worker_loop x p)
unfolding worker_loop
worker_loop-Progress p checking a h = check_queue-Progress p p.tasks refl h
worker_loop-Progress p (running task) a h = record {
  less = omega arith;
  stopped = h;
  signals = refl;
  broadcast = refl;
}
worker_loop-Progress p waiting a h = absurd (omega (arith, a))
worker_loop-Progress p exited a h = absurd (omega (arith, a))

wake-weight : (l : List Worker) → tally weight (map wake l) ≤ tally weight l
unfolding wake
wake-weight [] = omega arith
wake-weight (checking ∷ l) = omega (arith, wake-weight l)
wake-weight (waiting ∷ l) = omega (arith, wake-weight l)
wake-weight (exited ∷ l) = omega (arith, wake-weight l)
wake-weight (running task ∷ l) = omega (arith, wake-weight l)

-- The pool stays stopped, and has less left to do.
abbrev Shrinks : Pool → Pool → Type 0
Shrinks p q = (q.stop ≡ true) × (work_left q < work_left p)

Move-Shrinks : {p q : Pool} → Move p q → p.stop ≡ true → Shrinks p q
Move-Shrinks {p} (goes_on l x r e a) h =
    let g = worker_loop-Progress p x a h in
    let (y, q) = worker_loop x p in
    let flag = ap as_number g.broadcast in
    (
      g.stopped,
      omega (
        arith,
        g.less,
        g.signals,
        flag,
        tally-append weight l x r,
        tally-append weight l y r,
        ap (tally weight) e,
      ),
    )
Move-Shrinks {p} (wakes_one l r due e) h = (
  h,
  omega (
    arith,
    due,
    tally-append weight l waiting r,
    tally-append weight l checking r,
    ap (tally weight) e,
  ),
)
Move-Shrinks {p} (wakes_nobody due e) h = (h, omega (arith, due))
Move-Shrinks {p} (wakes_all due) h =
    let flag = ap as_number due in (h, omega (arith, flag, wake-weight p.workers))

wake-Shrinks :
    (p : Pool) (l r : List Worker)
    → p.workers ≡ l ++ waiting ∷ r
    → p.stop ≡ true
    → Shrinks p (set_worker p l checking r)
wake-Shrinks p l r e h = (
  h,
  omega (
    arith,
    tally-append weight l waiting r,
    tally-append weight l checking r,
    ap (tally weight) e,
  ),
)

find_active :
    (l : List Worker)
    → 0 < tally is_active l
    → (before : List Worker) × (x : Worker) × (after : List Worker) × (l ≡ before ++ x ∷ after)
      × (is_active x ≡ 1)
find_active [] h = absurd (omega arith)
find_active (checking ∷ l) h = ([], checking, l, refl, refl)
find_active (running task ∷ l) h = ([], running task, l, refl, refl)
find_active (waiting ∷ l) h =
    let (b, x, r, e, a) = find_active l (omega (arith, h)) in
    (waiting ∷ b, x, r, ap (◌∷◌ waiting) e, a)
find_active (exited ∷ l) h =
    let (b, x, r, e, a) = find_active l (omega (arith, h)) in
    (exited ∷ b, x, r, ap (◌∷◌ exited) e, a)

-- All workers have returned, or there is a move.
abbrev pub CanGoOn : Pool → Type 0
CanGoOn p = AllExited p ⊎ ((q : Pool) × Move p q)

stopped-CanGoOn : {threads : ℕ} (p : Pool) → Reach threads p → p.stop ≡ true → CanGoOn p
stopped-CanGoOn p r stopped = elim (Bool-cases (ltb 0 (tally is_active p.workers))) [
  | inl busy ↦
      let (l, x, after, e, a) = find_active p.workers (ltb→lt _ _ busy) in
      inr (_, goes_on l x after e a)
  | inr idle ↦ elim (Bool-cases p.broadcast) [
    | inl due ↦ inr (_, wakes_all due)
    | inr told ↦ elim (Bool-cases (ltb 0 p.signals)) [
      | inl due ↦ inr (_, wakes_nobody (ltb→lt _ _ due) ((Reach-Inv r).told stopped told))
      | inr no_signals ↦ inl (
          (quiet_is_done r (omega (arith, ltb→le _ _ no_signals)) told
              (omega (arith, ltb→le _ _ idle))).1
            stopped)
    ]
  ]
]

-- Once the pool is stopped it comes to its end, whatever its threads were doing and in whatever order
-- they go on: from a reachable stopped pool no run of moves, with spurious wake-ups among them, is
-- longer than the work that is left, and after each such run all workers have returned or there is a
-- move that is no spurious wake-up.
pub stop-ends :
    {threads n : ℕ} {p q : Pool}
    → Reach threads p
    → p.stop ≡ true
    → Moves n p q
    → (n ≤ work_left p) × CanGoOn q
stop-ends {p = p} r stopped stays = (omega arith, stopped-CanGoOn p r stopped)
stop-ends r stopped (moves m rest) =
    let (still, less) = Move-Shrinks m stopped in
    let (bound, on) = stop-ends (later r (Move-Step m)) still rest in
    (omega (arith, bound, less), on)
stop-ends {p = p} r stopped (woken l k e rest) =
    let (still, less) = wake-Shrinks p l k e stopped in
    let (bound, on) = stop-ends (later r (wakes l k e)) still rest in
    (omega (arith, bound, less), on)
