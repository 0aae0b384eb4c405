-- ===== src/EventLoopThread/Stop.antt =====
-- What a call of stop comes to.
use mini_net.Prelude.{
  ℕ, zero, suc, ◌≡◌, ◌≢◌, refl, sym, ap, ◌∙◌, subst, Bool, true, false, if◌then◌else◌,
}
use mini_net.EventLoopThread.{
  Runner, absent, starting, told, inside, left, ended, LoopThread, start_loop, thread_step,
  thread_func, ask_stop, Step, starts, goes_on, stops, quits, Reach, begins, later,
}

-- The loop is an object between these points of its thread.
abbrev pub has_loop : Runner → Bool
has_loop absent = false
has_loop starting = false
has_loop told = true
has_loop inside = true
has_loop left = true
has_loop ended = false

abbrev has_thread : Runner → Bool
has_thread absent = false
has_thread starting = true
has_thread told = true
has_thread inside = true
has_thread left = true
has_thread ended = true

pub record IsThread (t : LoopThread) : Type 0 where
  pub live : t.loop ≡ has_loop t.runner
  pub made : t.started ≡ has_thread t.runner

by_test :
    (b : Bool) (x y : LoopThread)
    → (b ≡ true → IsThread x)
    → (b ≡ false → IsThread y)
    → IsThread (if b then x else y)
by_test true x y f g = f refl
by_test false x y f g = g refl

thread_step-IsThread :
    (r : Runner) (t : LoopThread) → t.runner ≡ r → IsThread t → IsThread (thread_step r t)
unfolding thread_step
thread_step-IsThread absent t e v = v
thread_step-IsThread starting t e v = record { live = refl; made = v.made ∙ ap has_thread e }
thread_step-IsThread told t e v = record {
  live = v.live ∙ ap has_loop e;
  made = v.made ∙ ap has_thread e;
}
thread_step-IsThread inside t e v =
    by_test t.quit (record t { runner = left }) t
      (λ q. record { live = v.live ∙ ap has_loop e; made = v.made ∙ ap has_thread e }) (λ q. v)
thread_step-IsThread left t e v = record { live = refl; made = v.made ∙ ap has_thread e }
thread_step-IsThread ended t e v = v

not_made : (r : Runner) → has_thread r ≡ false → has_loop r ≡ false
not_made absent h = refl
not_made starting h = refl
not_made told h = absurd (cc h)
not_made inside h = absurd (cc h)
not_made left h = absurd (cc h)
not_made ended h = refl

asked-IsThread : (t : LoopThread) → IsThread t → IsThread (record t { quit = true })
asked-IsThread t v = record { live = v.live; made = v.made }

Step-IsThread : (t t' : LoopThread) → Step t t' → IsThread t → IsThread t'
unfolding start_loop thread_func ask_stop
Step-IsThread t t' starts v =
    by_test t.started t (record t { started = true; runner = starting }) (λ b. v)
      (λ b. record { live = v.live ∙ not_made t.runner (sym v.made ∙ b); made = refl })
Step-IsThread t t' goes_on v = thread_step-IsThread t.runner t refl v
Step-IsThread t t' stops v =
    by_test t.started (if t.loop then record t { quit = true } else t) t
      (λ b. by_test t.loop (record t { quit = true }) t (λ c. asked-IsThread t v) (λ c. v)) (λ b. v)
Step-IsThread t t' (quits h) v = asked-IsThread t v

Reach-IsThread : {t : LoopThread} → Reach t → IsThread t
Reach-IsThread begins = record { live = refl; made = refl }
Reach-IsThread (later {t} {t'} r s) = Step-IsThread t t' s (Reach-IsThread r)

-- The thread on its own, for some steps.
abbrev pub alone : ℕ → LoopThread → LoopThread
alone zero t = t
alone (suc n) t = alone n (thread_func t)

-- Inside the loop with quit_ unset, the thread stays there.
alone_inside :
    (n : ℕ) (t : LoopThread) → t.runner ≡ inside → t.quit ≡ false → (alone n t).runner ≡ inside
unfolding thread_func thread_step
alone_inside zero t e q = e
alone_inside (suc n) t e q =
    subst (λ (x : LoopThread). (alone n x).runner ≡ inside)
      (sym (ap (λ r. thread_step r t) e ∙ rw q refl)) (alone_inside n t e q)

asked :
    (t : LoopThread)
    → IsThread t
    → has_loop t.runner ≡ true
    → has_thread t.runner ≡ true
    → ask_stop t ≡ record t { quit = true }
unfolding ask_stop
asked t v l h = rw (v.made ∙ h, v.live ∙ l) refl

asked_too_soon : (n : ℕ) (t : LoopThread) → t.runner ≡ told → (alone n t).runner ≢ ended
unfolding thread_func thread_step
asked_too_soon zero t e h = absurd (cc (sym e ∙ h))
asked_too_soon (suc n) t e h =
    let into : thread_func t ≡ record t { runner = inside; quit = false } =
      ap (λ r. thread_step r t) e in
    absurd (
      cc (
        sym (alone_inside n (record t { runner = inside; quit = false }) refl refl)
        ∙ sym (ap (λ (x : LoopThread). (alone n x).runner) into)
        ∙ h))

-- In every reachable state quit is called on a loop that exists. A stop while the thread is in the
-- loop ends it: the thread leaves the loop and clears loop_ in two more steps. A stop after loop_ has
-- been set and before loop() has begun is lost: the thread by itself never ends, and the join of stop
-- does not return.
pub ask_stop-ends :
    {t : LoopThread}
    → Reach t
    → (t.loop ≡ has_loop t.runner)
      × (t.runner ≡ inside → (alone 2 (ask_stop t)).runner ≡ ended)
      × (t.runner ≡ told → (n : ℕ) → (alone n (ask_stop t)).runner ≢ ended)
unfolding thread_func thread_step
ask_stop-ends {t} r =
    let v = Reach-IsThread r in
    (
      v.live,
      λ e.
          subst (λ (x : LoopThread). (alone 2 x).runner ≡ ended)
            (sym (asked t v (ap has_loop e) (ap has_thread e)))
            (subst (λ k. (alone 1 (thread_step k (record t { quit = true }))).runner ≡ ended)
              (sym e) refl),
      λ e n.
          asked_too_soon n (ask_stop t)
            (ap (λ (x : LoopThread). x.runner) (asked t v (ap has_loop e) (ap has_thread e)) ∙ e),
    )
