-- ===== src/ThreadPool/Invariant.antt =====
-- What holds of the pool in every reachable state.
use mini_net.Prelude.{
  ℕ, suc, ◌+◌, ◌-◌, ◌<◌, ◌≤◌, ◌≡◌, refl, sym, ap, ◌∙◌, subst, true, false, List, [], ◌∷◌, ◌++◌, map,
  length, arith, append_assoc, inl, inr, Bool-cases, ltb, ltb→lt, ltb→le, length-replicate,
  length-append,
}
use mini_net.ThreadPool.{
  Worker, checking, waiting, exited, running, Pool, new_pool, worker_count, submit, shut,
  check_queue, worker_loop, wake, is_waiting, tally, set_worker, Step, submits, destroys, works,
  notifies_one, notifies_nobody, notifies_all, wakes, Reach, start, later,
}
use mini_net.ThreadPool.Tally.{
  is_active, is_exited, runs, count, count-append, tally-append, tally_all, tally-wake_counts,
  tally-replicate,
}

-- No worker has missed what it should wake for, no worker has left early, and every accepted task is
-- in the queue, with a worker, or finished, in the order of acceptance.
pub record Inv (p : Pool) : Type 0 where
  pub staffed : 0 < length p.workers
  pub fifo : p.accepted ≡ p.started ++ p.tasks
  pub once : (a : ℕ) → count a p.started ≡ count a p.finished + tally (runs a) p.workers
  pub awake : 0 < length p.tasks → 0 < p.signals + tally is_active p.workers
  pub told : p.stop ≡ true → p.broadcast ≡ false → tally is_waiting p.workers ≡ 0
  pub stayed : 0 < tally is_exited p.workers → (p.stop ≡ true) × (length p.tasks ≡ 0)

new_pool-Inv : (threads : ℕ) → Inv (new_pool threads)
unfolding new_pool worker_count
new_pool-Inv threads = record {
  staffed = ground (arith, length-replicate {0} (worker_count threads) checking);
  fifo = refl;
  once = λ a. ground (arith, tally-replicate (runs a) (worker_count threads));
  awake = λ h. absurd (omega arith);
  told = λ h. absurd (cc);
  stayed = λ h. absurd (omega (arith, tally-replicate is_exited (worker_count threads)));
}

submit_late : (p : Pool) (task : ℕ) → p.stop ≡ true → submit p task ≡ p
unfolding submit
submit_late p task h = simp h

submit_open :
    (p : Pool) (task : ℕ)
    → p.stop ≡ false
    → submit p task ≡ record p {
      tasks = p.tasks ++ task ∷ [];
      signals = suc p.signals;
      accepted = p.accepted ++ task ∷ [];
    }
unfolding submit
submit_open p task h = simp h

submit-Inv : (p : Pool) (task : ℕ) → Inv p → Inv (submit p task)
submit-Inv p task v = elim (Bool-cases p.stop) [
  | inl stopped ↦ subst Inv (sym (submit_late p task stopped)) v
  | inr open_now ↦ subst Inv (sym (submit_open p task open_now)) (record {
    staffed = v.staffed;
    fifo = ap (λ l. l ++ task ∷ []) v.fifo ∙ append_assoc p.started p.tasks (task ∷ []);
    once = v.once;
    awake = λ h. omega arith;
    told = λ h. absurd (cc (open_now, h));
    stayed = λ h. absurd (cc (open_now, (v.stayed h).0));
  })
]

shut-Inv : (p : Pool) → Inv p → Inv (shut p)
unfolding shut
shut-Inv p v = record {
  staffed = v.staffed;
  fifo = v.fifo;
  once = v.once;
  awake = v.awake;
  told = λ h k. absurd (cc k);
  stayed = λ h. (refl, (v.stayed h).1);
}

-- What one worker's change does to every tally.
abbrev Swaps : (Worker → ℕ) → List Worker → Worker → Worker → List Worker → Type 0
Swaps w l x y r = tally w (l ++ y ∷ r) + w x ≡ tally w (l ++ x ∷ r) + w y

tally-Swaps : (w : Worker → ℕ) (l : List Worker) (x y : Worker) (r : List Worker) → Swaps w l x y r
tally-Swaps w l x y r = omega (arith, tally-append w l x r, tally-append w l y r)

same_length :
    (l : List Worker) (x y : Worker) (r : List Worker) → length (l ++ y ∷ r) ≡ length (l ++ x ∷ r)
same_length l x y r = length-append l (y ∷ r) ∙ sym (length-append l (x ∷ r))

-- A worker that moves from x to y, where the other fields of q have changed fittingly.
record Fits (p q : Pool) (x y : Worker) : Type 0 where
  same_stop : (q.stop ≡ p.stop) × (q.broadcast ≡ p.broadcast)
  fifo : q.accepted ≡ q.started ++ q.tasks
  once :
      (a : ℕ)
      → count a q.started + (count a p.finished + runs a x)
        ≡ count a p.started + (count a q.finished + runs a y)
  fewer : length q.tasks ≤ length p.tasks
  awake : 0 < length q.tasks → p.signals + is_active x ≤ q.signals + is_active y
  told : p.stop ≡ true → is_waiting y ≤ is_waiting x
  stayed : is_exited x < is_exited y → (p.stop ≡ true) × (length p.tasks ≡ 0)

Fits-Inv :
    (p q : Pool) (l : List Worker) (x y : Worker) (r : List Worker)
    → Inv p
    → p.workers ≡ l ++ x ∷ r
    → Fits p q x y
    → Inv (set_worker q l y r)
Fits-Inv p q l x y r v e f =
    let is = λ (w : Worker → ℕ). ap (tally w) e in
    let w = tally-Swaps is_waiting l x y r in
    let a = tally-Swaps is_active l x y r in
    let g = tally-Swaps is_exited l x y r in
    let stop_same = f.same_stop.0 in
    let broad_same = f.same_stop.1 in
    record {
      staffed = omega (arith, v.staffed, same_length l x y r, ap length e);
      fifo = f.fifo;
      once = λ b. omega (arith, v.once b, f.once b, tally-Swaps (runs b) l x y r, is (runs b));
      awake = λ h. omega (arith, f.awake h, a, is is_active, v.awake (omega (arith, h, f.fewer)));
      told = λ s b. omega (
        arith,
        v.told (sym stop_same ∙ s) (sym broad_same ∙ b),
        w,
        is is_waiting,
        f.told (sym stop_same ∙ s),
      );
      stayed = λ h. elim (Bool-cases (ltb 0 (tally is_exited p.workers))) [
        | inl some_gone ↦
            let (stopped, empty) = v.stayed (ltb→lt _ _ some_gone) in
            (stop_same ∙ stopped, omega (arith, empty, f.fewer))
        | inr none_gone ↦
            let none_there : tally is_exited p.workers ≡ 0 = omega (arith, ltb→le _ _ none_gone) in
            let (stopped, empty) = f.stayed (omega (arith, none_there, h, g, is is_exited)) in
            (stop_same ∙ stopped, omega (arith, empty, f.fewer))
      ];
    }

-- A step that leaves the queue and the history alone.
unchanged : (p : Pool) (x : Worker) → Inv p → Fits p p x x
unchanged p x v = record {
  same_stop = (refl, refl);
  fifo = v.fifo;
  once = λ a. omega arith;
  fewer = omega arith;
  awake = λ h. omega arith;
  told = λ h. omega arith;
  stayed = λ h. absurd (omega arith);
}

check_queue-Fits :
    (p : Pool) (l r : List Worker) (tasks : List ℕ)
    → Inv p
    → p.tasks ≡ tasks
    → let (y, q) = check_queue p tasks in Fits p q checking y
unfolding check_queue
check_queue-Fits p l r [] v e = elim (Bool-cases p.stop) [
  | inl stopped ↦ simp stopped (record {
    same_stop = (refl, refl);
    fifo = v.fifo;
    once = λ a. omega arith;
    fewer = omega arith;
    awake = λ h. absurd (omega (arith, h, ap length e));
    told = λ h. omega arith;
    stayed = λ h. (stopped, ap length e);
  })
  | inr going_on ↦ simp going_on (record {
    same_stop = (refl, refl);
    fifo = v.fifo;
    once = λ a. omega arith;
    fewer = omega arith;
    awake = λ h. absurd (omega (arith, h, ap length e));
    told = λ h. absurd (cc (going_on, h));
    stayed = λ h. absurd (omega arith);
  })
]
check_queue-Fits p l r (task ∷ rest) v e = record {
  same_stop = (refl, refl);
  fifo = v.fifo ∙ ap (λ t. p.started ++ t) e ∙ sym (append_assoc p.started (task ∷ []) rest);
  once = λ a. omega (arith, count-append a p.started (task ∷ []));
  fewer = omega (arith, ap length e);
  awake = λ h. omega arith;
  told = λ h. omega arith;
  stayed = λ h. absurd (omega arith);
}

worker_loop-Fits :
    (p : Pool) (l : List Worker) (x : Worker) (r : List Worker)
    → Inv p
    → p.workers ≡ l ++ x ∷ r
    → let (y, q) = worker_loop x p in Fits p q x y
unfolding worker_loop
worker_loop-Fits p l checking r v e = check_queue-Fits p l r p.tasks v refl
worker_loop-Fits p l waiting r v e = unchanged p waiting v
worker_loop-Fits p l exited r v e = unchanged p exited v
worker_loop-Fits p l (running task) r v e = record {
  same_stop = (refl, refl);
  fifo = v.fifo;
  once = λ a. omega (arith, count-append a p.finished (task ∷ []));
  fewer = omega arith;
  awake = λ h. omega arith;
  told = λ h. omega arith;
  stayed = λ h. absurd (omega arith);
}

woken-Fits :
    (p : Pool) (signals : ℕ)
    → Inv p
    → p.signals ≤ suc signals
    → Fits p (record p { signals = signals }) waiting checking
woken-Fits p signals v few = record {
  same_stop = (refl, refl);
  fifo = v.fifo;
  once = λ a. omega arith;
  fewer = omega arith;
  awake = λ h. omega (arith, few);
  told = λ h. omega arith;
  stayed = λ h. absurd (omega arith);
}

notifies_nobody-Inv :
    (p : Pool)
    → Inv p
    → 0 < p.signals
    → tally is_waiting p.workers ≡ 0
    → Inv (record p { signals = p.signals - 1 })
notifies_nobody-Inv p v h nobody = record {
  staffed = v.staffed;
  fifo = v.fifo;
  once = v.once;
  awake = λ k. elim (Bool-cases (ltb 0 (tally is_exited p.workers))) [
    | inl gone ↦ absurd (omega (arith, k, (v.stayed (ltb→lt _ _ gone)).1))
    | inr all_here ↦ omega (arith, ltb→le _ _ all_here, tally_all p.workers, v.staffed, nobody)
  ];
  told = v.told;
  stayed = v.stayed;
}

notifies_all-Inv :
    (p : Pool) → Inv p → Inv (record p { workers = map wake p.workers; broadcast = false })
notifies_all-Inv p v =
    let c = λ (a : ℕ). tally-wake_counts a p.workers in
    record {
      staffed = omega (arith, v.staffed, c 0);
      fifo = v.fifo;
      once = λ a. omega (arith, v.once a, c a);
      awake = λ h. omega (arith, v.awake h, c 0);
      told = λ s b. (c 0).0;
      stayed = λ h. v.stayed (omega (arith, h, c 0));
    }

pub Step-Inv : {p q : Pool} → Step p q → Inv p → Inv q
Step-Inv {p} (submits task) v = submit-Inv p task v
Step-Inv {p} destroys v = shut-Inv p v
Step-Inv {p} (works l x r e) v =
    Fits-Inv p (worker_loop x p).1 l x (worker_loop x p).0 r v e (worker_loop-Fits p l x r v e)
Step-Inv {p} (notifies_one l r h e) v =
    Fits-Inv p (record p { signals = p.signals - 1 }) l waiting checking r v e
      (woken-Fits p (p.signals - 1) v (omega arith))
Step-Inv {p} (notifies_nobody h nobody) v = notifies_nobody-Inv p v h nobody
Step-Inv {p} (notifies_all h) v = notifies_all-Inv p v
Step-Inv {p} (wakes l r e) v =
    Fits-Inv p p l waiting checking r v e (woken-Fits p p.signals v (omega arith))

-- In every reachable state.
pub Reach-Inv : {threads : ℕ} {p : Pool} → Reach threads p → Inv p
Reach-Inv {threads} start = new_pool-Inv threads
Reach-Inv (later r s) = Step-Inv s (Reach-Inv r)
