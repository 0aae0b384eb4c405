-- ===== src/EventLoop/Pending.antt =====
-- The tasks that wait: which run in a round, which stay, and that the bell rings for those.
use mini_net.Prelude.{
  suc, ◌+◌, ◌≡◌, refl, sym, ap, ◌∙◌, subst, Bool, true, false, not, ◌||◌, List, [], ◌∷◌, ◌++◌,
  length, arith, append_assoc, append-nil, Bool-cases, inl, inr, length-append,
}
use mini_net.EventLoop.{
  EventLoop, Request, queue_in_loop, run_every, cancel_timer, quit_loop, wakeup, queue, quit_from,
  add_timer, request, perform, call, call_all, do_pending_functors, done_calling,
}

module _ {C : Type 0} where
  -- The tasks that a list of requests queues.
  abbrev pub queued : List (Request C) → List C
  queued [] = []
  queued (queue_in_loop c ∷ rest) = c ∷ queued rest
  queued (run_every now interval_ms c ∷ rest) = queued rest
  queued (cancel_timer id ∷ rest) = queued rest
  queued (quit_loop ∷ rest) = queued rest

  pub queued-append : (a b : List (Request C)) → queued (a ++ b) ≡ queued a ++ queued b
  queued-append [] b = refl
  queued-append (queue_in_loop c ∷ rest) b = ap (◌∷◌ c) (queued-append rest b)
  queued-append (run_every now interval_ms c ∷ rest) b = queued-append rest b
  queued-append (cancel_timer id ∷ rest) b = queued-append rest b
  queued-append (quit_loop ∷ rest) b = queued-append rest b

  -- While the pending tasks run, each new one is put behind the others and rings the bell.
  record Rings (l l' : EventLoop C) (more : List C) : Type 0 where
    behind : l'.pending ≡ l.pending ++ more
    rung : l'.has_bell ≡ true → l'.bell ≡ l.bell + length more
    calling : l'.calling_pending ≡ true
    same_bell : l'.has_bell ≡ l.has_bell

  Rings-none : (l : EventLoop C) → l.calling_pending ≡ true → Rings l l []
  Rings-none l h = record {
    behind = sym (append-nil l.pending);
    rung = λ b. omega arith;
    calling = h;
    same_bell = refl;
  }

  Rings-trans :
      {l m n : EventLoop C} (a b : List C) → Rings l m a → Rings m n b → Rings l n (a ++ b)
  Rings-trans {l} {m} {n} a b x y = record {
    behind = y.behind ∙ ap (λ p. p ++ b) x.behind ∙ append_assoc l.pending a b;
    rung = λ h. omega (arith, y.rung h, x.rung (sym y.same_bell ∙ h), length-append a b);
    calling = y.calling;
    same_bell = y.same_bell ∙ x.same_bell;
  }

  pub queue_rung :
      (own : Bool) (c : C) (l : EventLoop C)
      → (not own || l.calling_pending) ≡ true
      → l.has_bell ≡ true
      → queue own c l ≡ record l { pending = l.pending ++ c ∷ []; bell = suc l.bell }
  unfolding queue wakeup
  queue_rung own c l h b = simp (h, b)

  queue_silent :
      (c : C) (l : EventLoop C)
      → l.calling_pending ≡ true
      → l.has_bell ≡ false
      → queue true c l ≡ record l { pending = l.pending ++ c ∷ [] }
  unfolding queue wakeup
  queue_silent c l h b = simp (h, b)

  queue-Rings :
      (c : C) (l : EventLoop C) → l.calling_pending ≡ true → Rings l (queue true c l) (c ∷ [])
  queue-Rings c l h = elim (Bool-cases l.has_bell) [
    | inl b ↦
        subst (λ m. Rings l m (c ∷ [])) (sym (queue_rung true c l h b))
          (record { behind = refl; rung = λ k. omega arith; calling = h; same_bell = refl })
    | inr b ↦
        subst (λ m. Rings l m (c ∷ [])) (sym (queue_silent c l h b))
          (record { behind = refl; rung = λ k. absurd (cc (b, k)); calling = h; same_bell = refl })
  ]

  request-Rings :
      (r : Request C) (l : EventLoop C)
      → l.calling_pending ≡ true
      → Rings l (request r l) (queued (r ∷ []))
  unfolding request add_timer quit_from
  request-Rings (queue_in_loop c) l h = queue-Rings c l h
  request-Rings (run_every now interval_ms c) l h = record {
    behind = sym (append-nil l.pending);
    rung = λ b. omega arith;
    calling = h;
    same_bell = refl;
  }
  request-Rings (cancel_timer id) l h = record {
    behind = sym (append-nil l.pending);
    rung = λ b. omega arith;
    calling = h;
    same_bell = refl;
  }
  request-Rings quit_loop l h = record {
    behind = sym (append-nil l.pending);
    rung = λ b. omega arith;
    calling = h;
    same_bell = refl;
  }

  perform-Rings :
      (rs : List (Request C)) (l : EventLoop C)
      → l.calling_pending ≡ true
      → Rings l (perform rs l) (queued rs)
  unfolding perform
  perform-Rings [] l h = Rings-none l h
  perform-Rings (r ∷ rs) l h =
      let first = request-Rings r l h in
      subst (Rings l (perform rs (request r l))) (sym (queued-append (r ∷ []) rs)) (
        Rings-trans (queued (r ∷ [])) (queued rs) first
          (perform-Rings rs (request r l) first.calling))

module _ {C S : Type 0} (run : C → S → S × List (Request C)) where
  -- What a list of tasks does to the program's state, and all that they ask for, in order.
  abbrev pub effects : List C → S → S × List (Request C)
  effects [] s = (s, [])
  effects (c ∷ rest) s =
      let (s1, first) = run c s in let (s2, others) = effects rest s1 in (s2, first ++ others)

  call_all-effects :
      (cs : List C) (s : S) (l : EventLoop C)
      → l.calling_pending ≡ true
      → ((call_all run cs (s, l)).0 ≡ (effects cs s).0)
        × Rings l (call_all run cs (s, l)).1 (queued (effects cs s).1)
  unfolding call_all call
  call_all-effects [] s l h = (refl, Rings-none l h)
  call_all-effects (c ∷ rest) s l h =
      let first = perform-Rings (run c s).1 l h in
      let (same, others) =
        call_all-effects rest (run c s).0 (perform (run c s).1 l) first.calling in
      (
        same,
        subst (Rings l _) (sym (queued-append (run c s).1 (effects rest (run c s).0).1))
            (Rings-trans (queued (run c s).1) (queued (effects rest (run c s).0).1) first others),
      )

  -- A pass over the pending tasks runs exactly those that were pending, once each and in order. What
  -- they queue stays for the next round, in order, and each of these tasks has rung the bell.
  pub do_pending_functors_lem :
      (s : S) (l : EventLoop C)
      → let (s', asked) = effects l.pending s in
        let (t, l') = do_pending_functors run (s, l) in
        (t ≡ s')
        × (l'.pending ≡ queued asked)
        × (l'.has_bell ≡ true → l'.bell ≡ l.bell + length (queued asked))
        × (l'.calling_pending ≡ false)
        × (l'.has_bell ≡ l.has_bell)
  unfolding do_pending_functors done_calling
  do_pending_functors_lem s l =
      let (same, r) =
        call_all-effects l.pending s (record l { calling_pending = true; pending = [] }) refl in
      (same, r.behind, r.rung, refl, r.same_bell)
