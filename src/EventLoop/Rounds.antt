-- ===== src/EventLoop/Rounds.antt =====
-- Rounds of the loop: no task waits without the bell, and quit ends the loop.
use mini_net.Prelude.{
  ℕ, ◌<◌, ◌≡◌, refl, sym, ap, ◌∙◌, subst, Bool, true, false, not, ◌||◌, List, [], ◌∷◌, ◌++◌, length,
  arith, append_assoc, append-nil, Bool-cases, inl, inr,
}
use mini_net.EventLoop.{
  EventLoop, Request, queue_in_loop, run_every, cancel_timer, quit_loop, done_calling, Foreign,
  foreign_task, foreign_quit, Happening, calls, reads_bell, meanwhile, Poll, wakeup, queue,
  quit_from, foreign, foreign_all, do_pending_functors, round, rounds, loop, others, ended,
  happen_all, run_due_timers, happen, perform, handle_wakeup, add_timer, due, call, call_all,
  request,
}
use mini_net.EventLoop.Pending.{do_pending_functors_lem, effects, queue_rung}

module _ {C : Type 0} where
  -- The bell is there, and a task that waits has rung it.
  pub record IsAwake (l : EventLoop C) : Type 0 where
    pub has_bell : l.has_bell ≡ true
    pub rung : 0 < length l.pending → 0 < l.bell

  queue-IsAwake : (c : C) (l : EventLoop C) → l.has_bell ≡ true → IsAwake (queue false c l)
  queue-IsAwake c l h =
      subst IsAwake (sym (queue_rung false c l refl h))
        (record { has_bell = h; rung = λ k. omega arith })

  foreign-IsAwake : (f : Foreign C) (l : EventLoop C) → IsAwake l → IsAwake (foreign f l)
  unfolding foreign quit_from wakeup
  foreign-IsAwake (foreign_task c) l v = queue-IsAwake c l v.has_bell
  foreign-IsAwake foreign_quit l v =
      simp v.has_bell (record { has_bell = refl; rung = λ k. omega arith })

  pub foreign_all-IsAwake :
      (fs : List (Foreign C)) (l : EventLoop C) → IsAwake l → IsAwake (foreign_all fs l)
  unfolding foreign_all
  foreign_all-IsAwake [] l v = v
  foreign_all-IsAwake (f ∷ fs) l v = foreign_all-IsAwake fs (foreign f l) (foreign-IsAwake f l v)

  -- Before the pending tasks are taken, nothing that waits is lost, and the order stays.
  record Grows (l l' : EventLoop C) : Type 0 where
    more : List C
    behind : l'.pending ≡ l.pending ++ more
    same_bell : l'.has_bell ≡ l.has_bell
    quit_stays : l.quit ≡ true → l'.quit ≡ true

  Grows-same :
      (l l' : EventLoop C)
      → l'.pending ≡ l.pending
      → l'.has_bell ≡ l.has_bell
      → (l.quit ≡ true → l'.quit ≡ true)
      → Grows l l'
  Grows-same l l' e b q = record {
    more = [];
    behind = e ∙ sym (append-nil l.pending);
    same_bell = b;
    quit_stays = q;
  }

  Grows-trans : {l m n : EventLoop C} → Grows l m → Grows m n → Grows l n
  Grows-trans {l} x y = record {
    more = x.more ++ y.more;
    behind = y.behind ∙ ap (λ p. p ++ y.more) x.behind ∙ append_assoc l.pending x.more y.more;
    same_bell = y.same_bell ∙ x.same_bell;
    quit_stays = λ q. y.quit_stays (x.quit_stays q);
  }

  wakeup-Grows : (l : EventLoop C) → Grows l (wakeup l)
  unfolding wakeup
  wakeup-Grows l = elim (Bool-cases l.has_bell) [
    | inl b ↦ simp b (Grows-same l _ refl (sym b) (λ q. q))
    | inr b ↦ simp b (Grows-same l _ refl refl (λ q. q))
  ]

  queue-Grows : (own : Bool) (c : C) (l : EventLoop C) → Grows l (queue own c l)
  unfolding queue
  queue-Grows own c l =
      let queued : Grows l (record l { pending = l.pending ++ c ∷ [] }) = record {
        more = c ∷ [];
        behind = refl;
        same_bell = refl;
        quit_stays = λ q. q;
      } in
      elim (Bool-cases (not own || l.calling_pending)) [
        | inl rings ↦ simp rings (Grows-trans queued (wakeup-Grows _))
        | inr silent ↦ simp silent queued
      ]

  request-Grows : (r : Request C) (l : EventLoop C) → Grows l (request r l)
  unfolding request add_timer quit_from
  request-Grows (queue_in_loop c) l = queue-Grows true c l
  request-Grows (run_every now interval_ms c) l = Grows-same l _ refl refl (λ q. q)
  request-Grows (cancel_timer id) l = Grows-same l _ refl refl (λ q. q)
  request-Grows quit_loop l = Grows-same l _ refl refl (λ q. refl)

  perform-Grows : (rs : List (Request C)) (l : EventLoop C) → Grows l (perform rs l)
  unfolding perform
  perform-Grows [] l = Grows-same l l refl refl (λ q. q)
  perform-Grows (r ∷ rs) l = Grows-trans (request-Grows r l) (perform-Grows rs (request r l))

  foreign-Grows : (f : Foreign C) (l : EventLoop C) → Grows l (foreign f l)
  unfolding foreign quit_from
  foreign-Grows (foreign_task c) l = queue-Grows false c l
  foreign-Grows foreign_quit l =
      Grows-trans (Grows-same l (record l { quit = true }) refl refl (λ q. refl)) (wakeup-Grows _)

  foreign_all-Grows : (fs : List (Foreign C)) (l : EventLoop C) → Grows l (foreign_all fs l)
  unfolding foreign_all
  foreign_all-Grows [] l = Grows-same l l refl refl (λ q. q)
  foreign_all-Grows (f ∷ fs) l =
      Grows-trans (foreign-Grows f l) (foreign_all-Grows fs (foreign f l))

module _ {C S : Type 0} (run : C → S → S × List (Request C)) where
  call_all-Grows : (cs : List C) (x : S × EventLoop C) → Grows x.1 (call_all run cs x).1
  unfolding call_all call
  call_all-Grows [] x = Grows-same x.1 x.1 refl refl (λ q. q)
  call_all-Grows (c ∷ cs) (s, l) = Grows-trans (perform-Grows (run c s).1 l) (call_all-Grows cs _)

  happen-Grows : (h : Happening C) (x : S × EventLoop C) → Grows x.1 (happen run h x).1
  unfolding happen call handle_wakeup
  happen-Grows (calls c) (s, l) = perform-Grows (run c s).1 l
  happen-Grows reads_bell (s, l) = Grows-same l _ refl refl (λ q. q)
  happen-Grows (meanwhile f) (s, l) = foreign-Grows f l

  happen_all-Grows :
      (hs : List (Happening C)) (x : S × EventLoop C) → Grows x.1 (happen_all run hs x).1
  unfolding happen_all
  happen_all-Grows [] x = Grows-same x.1 x.1 refl refl (λ q. q)
  happen_all-Grows (h ∷ hs) x =
      Grows-trans (happen-Grows h x) (happen_all-Grows hs (happen run h x))

  run_due_timers-Grows : (now : ℕ) (x : S × EventLoop C) → Grows x.1 (run_due_timers run now x).1
  unfolding run_due_timers
  run_due_timers-Grows now (s, l) =
      Grows-trans (Grows-same l _ refl refl (λ q. q)) (call_all-Grows (due now l.timers) _)

  -- The state in which the pending tasks are taken.
  abbrev taking : Poll C → S × EventLoop C → S × EventLoop C
  taking p x = others p.before_swap (run_due_timers run p.now (happen_all run p.events x))

  taking-Grows : (p : Poll C) (x : S × EventLoop C) → Grows x.1 (taking p x).1
  taking-Grows p x = Grows-trans (happen_all-Grows p.events x) (
      Grows-trans (run_due_timers-Grows p.now (happen_all run p.events x))
        (foreign_all-Grows p.before_swap _))

  do_pending_functors-IsAwake :
      (s : S) (l : EventLoop C) → l.has_bell ≡ true → IsAwake (do_pending_functors run (s, l)).1
  do_pending_functors-IsAwake s l h =
      let (same, kept, rung, calling, bell) = do_pending_functors_lem run s l in
      record { has_bell = bell ∙ h; rung = λ k. omega (arith, k, ap length kept, rung (bell ∙ h)) }

  -- A round runs every task that waits when epoll_wait returns, in order and before any that comes
  -- later, whatever events, timers and other threads do. After it, every task that waits again, from
  -- whatever thread, has rung the bell, so that the next epoll_wait returns at once.
  pub round-runs :
      (p : Poll C) (s : S) (l : EventLoop C)
      → l.has_bell ≡ true
      → ((more : List C) × (t : S) × ((round run p (s, l)).0
            ≡ (effects run (l.pending ++ more) t).0))
        × IsAwake (round run p (s, l)).1
  unfolding round
  round-runs p s l h =
      let g = taking-Grows p (s, l) in
      let x = taking p (s, l) in
      let (same, kept, rung, calling, bell) = do_pending_functors_lem run x.0 x.1 in
      (
        (g.more, x.0, same ∙ ap (λ cs. (effects run cs x.0).0) g.behind),
        foreign_all-IsAwake p.after_swap _ (do_pending_functors-IsAwake x.0 x.1 (g.same_bell ∙ h)),
      )

  foreign_quits : (l : EventLoop C) → (foreign foreign_quit l).quit ≡ true
  unfolding foreign quit_from
  foreign_quits l = (wakeup-Grows (record l { quit = true })).quit_stays refl

  happen_quits : (x : S × EventLoop C) → (happen run (meanwhile foreign_quit) x).1.quit ≡ true
  unfolding happen
  happen_quits (s, l) = foreign_quits l

  do_pending_functors_quit :
      (x : S × EventLoop C) → x.1.quit ≡ true → (do_pending_functors run x).1.quit ≡ true
  unfolding do_pending_functors done_calling
  do_pending_functors_quit (s, l) h = (call_all-Grows l.pending _).quit_stays h

  -- Another thread's call of quit, somewhere in the round.
  pub data Quits (p : Poll C) : Type 0 where
    among_events : (a b : List (Happening C)) → p.events ≡ a ++ meanwhile foreign_quit ∷ b → Quits p
    before_pending : (a b : List (Foreign C)) → p.before_swap ≡ a ++ foreign_quit ∷ b → Quits p
    after_taking : (a b : List (Foreign C)) → p.after_swap ≡ a ++ foreign_quit ∷ b → Quits p

  foreign_all_quit :
      (a b : List (Foreign C)) (l : EventLoop C)
      → (foreign_all (a ++ foreign_quit ∷ b) l).quit ≡ true
  unfolding foreign_all
  foreign_all_quit [] b l =
      (foreign_all-Grows b (foreign foreign_quit l)).quit_stays (foreign_quits l)
  foreign_all_quit (f ∷ a) b l = foreign_all_quit a b (foreign f l)

  happen_all_quit :
      (a b : List (Happening C)) (x : S × EventLoop C)
      → (happen_all run (a ++ meanwhile foreign_quit ∷ b) x).1.quit ≡ true
  unfolding happen_all
  happen_all_quit [] b x =
      (happen_all-Grows b (happen run (meanwhile foreign_quit) x)).quit_stays (happen_quits x)
  happen_all_quit (h ∷ a) b x = happen_all_quit a b (happen run h x)

  round_quit : (p : Poll C) (x : S × EventLoop C) → Quits p → (round run p x).1.quit ≡ true
  unfolding round
  round_quit p x (among_events a b e) =
      let happened : (happen_all run p.events x).1.quit ≡ true = rw e (happen_all_quit a b x) in
      let timed = (run_due_timers-Grows p.now (happen_all run p.events x)).quit_stays happened in
      (foreign_all-Grows p.after_swap _).quit_stays (
        do_pending_functors_quit (taking p x)
          ((foreign_all-Grows p.before_swap _).quit_stays timed))
  round_quit p x (before_pending a b e) =
      let l = (run_due_timers run p.now (happen_all run p.events x)).1 in
      let asked : (foreign_all p.before_swap l).quit ≡ true = rw e (foreign_all_quit a b l) in
      (foreign_all-Grows p.after_swap _).quit_stays (do_pending_functors_quit (taking p x) asked)
  round_quit p x (after_taking a b e) =
      rw e (foreign_all_quit a b (do_pending_functors run (taking p x)).1)

  rounds_go :
      (p : Poll C) (polls : List (Poll C)) (x : S × EventLoop C)
      → x.1.quit ≡ false
      → rounds run (p ∷ polls) x ≡ rounds run polls (round run p x)
  unfolding rounds
  rounds_go p polls x h = rw (h, rounds)

  rounds_end :
      (polls : List (Poll C)) (x : S × EventLoop C)
      → x.1.quit ≡ true
      → rounds run polls x ≡ (true, ended x)
  unfolding rounds
  rounds_end [] x h = rw (h, rounds)
  rounds_end (p ∷ polls) x h = rw (h, rounds)

  -- A quit that another thread calls during a round ends the loop after that round: no later poll is
  -- waited for, whatever callbacks and other threads do.
  pub rounds-quit :
      (p : Poll C) (polls : List (Poll C)) (x : S × EventLoop C)
      → x.1.quit ≡ false
      → Quits p
      → rounds run (p ∷ polls) x ≡ (true, ended (round run p x))
  rounds-quit p polls x h q =
      rounds_go p polls x h ∙ rounds_end polls (round run p x) (round_quit p x q)

  -- A call of quit that comes before the loop has begun has no effect on it but for the bell: the loop
  -- clears the request, so it runs on exactly as if nobody had asked.
  loop-quit :
      (polls : List (Poll C)) (s : S) (l : EventLoop C)
      → loop run polls (s, quit_from false l) ≡ loop run polls (s, wakeup l)
  unfolding loop quit_from wakeup
  loop-quit polls s l = elim (Bool-cases l.has_bell) [ inl b ↦ simp b | inr b ↦ simp b ]
