-- ===== src/TimerWheel/Fires.antt =====
-- A timer's callback runs at the tick that its timeout says, and at no other.
use mini_net.Prelude.{
  ℕ, zero, suc, ◌+◌, ◌-◌, ◌≡◌, ◌≢◌, ◌≤◌, refl, sym, ap, ◌∙◌, subst, List, [], ◌∷◌, ◌++◌,
  append_assoc, append-nil, ltb, ltb→lt, ltb→le, arith, Bool-cases, inl, inr,
}
use mini_net.Ctype.{ℤ}
use mini_net.TimerWheel.{
  TimerEntry, TimerWheel, ticks_of, add_timer, cancel_timer, collect, run_fired, tick,
}
use mini_net.TimerWheel.Named.{
  named, callbacks, callbacks_of, staying, leaving, not_yet, stops, now_due, named-collect,
  named-add_timer, named-remove_id, fired,
}

module _ {S C : Type 0} where
  abbrev pub ticks :
      (C → S × TimerWheel C → S × TimerWheel C) → ℕ → S × TimerWheel C → S × TimerWheel C
  ticks run zero x = x
  ticks run (suc n) x = tick run (ticks run n x)

  -- The callbacks as they run, with a log of their calls.
  abbrev pub noted :
      (C → S × TimerWheel C → S × TimerWheel C)
      → C
      → (List C × S) × TimerWheel C
      → (List C × S) × TimerWheel C
  noted run c ((log, s), w) = ((log ++ c ∷ [], (run c (s, w)).0), (run c (s, w)).1)

  -- What a tick calls, in order.
  abbrev pub called : (C → S × TimerWheel C → S × TimerWheel C) → S × TimerWheel C → List C
  called run (s, w) = (tick (noted run) (([], s), w)).0.0

  log-run_fired :
      (run : C → S × TimerWheel C → S × TimerWheel C) (l : List (TimerEntry C)) (log : List C)
      (s : S) (w : TimerWheel C)
      → (run_fired (noted run) l ((log, s), w)).0.0 ≡ log ++ callbacks l
  unfolding run_fired
  log-run_fired run [] log s w = sym (append-nil log)
  log-run_fired run (e ∷ l) log s w =
      log-run_fired run l (log ++ e.callback ∷ []) (run e.callback (s, w)).0
        (run e.callback (s, w)).1
      ∙ append_assoc log (e.callback ∷ []) (callbacks l)

  called-fired :
      (run : C → S × TimerWheel C → S × TimerWheel C) (x : S × TimerWheel C)
      → called run x ≡ callbacks (fired x.1)
  unfolding tick
  called-fired run (s, w) = log-run_fired run (fired w) [] s _

  -- No callback of those that run adds or cancels a timer of the id.
  abbrev pub SparesIn :
      ℕ
      → (C → S × TimerWheel C → S × TimerWheel C)
      → List (TimerEntry C)
      → S × TimerWheel C
      → Type 0
  SparesIn id run [] x = Unit {0}
  SparesIn id run (e ∷ l) x =
      (named id (run e.callback x).1.entries ≡ named id x.1.entries)
      × SparesIn id run l (run e.callback x)

  -- No callback of those that run adds a timer of the id.
  abbrev pub AddsNoneIn :
      ℕ
      → (C → S × TimerWheel C → S × TimerWheel C)
      → List (TimerEntry C)
      → S × TimerWheel C
      → Type 0
  AddsNoneIn id run [] x = Unit {0}
  AddsNoneIn id run (e ∷ l) x =
      (named id x.1.entries ≡ [] → named id (run e.callback x).1.entries ≡ [])
      × AddsNoneIn id run l (run e.callback x)

  -- The callbacks that the next tick runs.
  abbrev pub Spares : ℕ → (C → S × TimerWheel C → S × TimerWheel C) → S × TimerWheel C → Type 0
  Spares id run (s, w) =
      let (due, keep) = collect w.entries in SparesIn id run due (s, record w { entries = keep })

  abbrev pub AddsNone : ℕ → (C → S × TimerWheel C → S × TimerWheel C) → S × TimerWheel C → Type 0
  AddsNone id run (s, w) =
      let (due, keep) = collect w.entries in AddsNoneIn id run due (s, record w { entries = keep })

  named-run_fired :
      (id : ℕ) (run : C → S × TimerWheel C → S × TimerWheel C) (l : List (TimerEntry C))
      (x : S × TimerWheel C)
      → SparesIn id run l x
      → named id (run_fired run l x).1.entries ≡ named id x.1.entries
  unfolding run_fired
  named-run_fired id run [] x h = refl
  named-run_fired id run (e ∷ l) x h = named-run_fired id run l (run e.callback x) h.1 ∙ h.0

  absent-run_fired :
      (id : ℕ) (run : C → S × TimerWheel C → S × TimerWheel C) (l : List (TimerEntry C))
      (x : S × TimerWheel C)
      → AddsNoneIn id run l x
      → named id x.1.entries ≡ []
      → named id (run_fired run l x).1.entries ≡ []
  unfolding run_fired
  absent-run_fired id run [] x h e = e
  absent-run_fired id run (d ∷ l) x h e = absent-run_fired id run l (run d.callback x) h.1 (h.0 e)

  named-tick :
      (id : ℕ) (run : C → S × TimerWheel C → S × TimerWheel C) (x : S × TimerWheel C)
      → Spares id run x
      → named id (tick run x).1.entries ≡ staying (named id x.1.entries)
  unfolding tick
  named-tick id run (s, w) h = named-run_fired id run _ _ h ∙ (named-collect id w.entries).1

  absent-tick :
      (id : ℕ) (run : C → S × TimerWheel C → S × TimerWheel C) (x : S × TimerWheel C)
      → AddsNone id run x
      → staying (named id x.1.entries) ≡ []
      → named id (tick run x).1.entries ≡ []
  unfolding tick
  absent-tick id run (s, w) h e = absent-run_fired id run _ _ h ((named-collect id w.entries).1 ∙ e)

  counts_down :
      (id n k : ℕ) (c : C) (run : C → S × TimerWheel C → S × TimerWheel C) (x : S × TimerWheel C)
      → ((j : ℕ) → suc j ≤ n → Spares id run (ticks run j x))
      → named id x.1.entries ≡ (n + suc k, c) ∷ []
      → named id (ticks run n x).1.entries ≡ (suc k, c) ∷ []
  counts_down id zero k c run x spares h = h ∙ ap (λ t. (t, c) ∷ []) (omega arith)
  counts_down id (suc n) k c run x spares h =
      named-tick id run (ticks run n x) (spares n (omega arith))
      ∙ ap staying (
          counts_down id n (suc k) c run x (λ j le. spares j (omega (arith, le)))
            (h ∙ ap (λ t. (t, c) ∷ []) (omega arith)))
      ∙ ground arith

  stays_absent :
      (id m k : ℕ) (run : C → S × TimerWheel C → S × TimerWheel C) (x : S × TimerWheel C)
      → m ≤ k
      → ((j : ℕ) → m ≤ j → suc j ≤ k → AddsNone id run (ticks run j x))
      → named id (ticks run m x).1.entries ≡ []
      → named id (ticks run k x).1.entries ≡ []
  stays_absent id m zero run x le adds_none h =
      let e : m ≡ 0 = omega (arith, le) in
      subst (λ (t : ℕ). named id (ticks run t x).1.entries ≡ []) e h
  stays_absent id m (suc k) run x le adds_none h = elim (Bool-cases (ltb k m)) [
    | inl here ↦
        let e : m ≡ suc k = omega (arith, ltb→lt _ _ here, le) in
        subst (λ (t : ℕ). named id (ticks run t x).1.entries ≡ []) e h
    | inr before ↦
        let below = ltb→le _ _ before in
        absent-tick id run (ticks run k x) (adds_none k below (omega arith)) (
          ap staying
            (stays_absent id m k run x below (λ j lo hi. adds_none j lo (omega (arith, hi))) h))
  ]

  -- The tick runs the callbacks of the timers that fire, and among them those of the id are these.
  abbrev pub Calls :
      ℕ → (C → S × TimerWheel C → S × TimerWheel C) → S × TimerWheel C → List C → Type 0
  Calls id run x cs = (called run x ≡ callbacks (fired x.1)) × (callbacks_of id (fired x.1) ≡ cs)

  calls :
      (id : ℕ) (run : C → S × TimerWheel C → S × TimerWheel C) (x : S × TimerWheel C)
      (l : List (ℕ × C)) (cs : List C)
      → named id x.1.entries ≡ l
      → leaving l ≡ cs
      → Calls id run x cs
  calls id run x l cs e f =
      (called-fired run x, (named-collect id x.1.entries).0 ∙ ap leaving e ∙ f)

  -- A timer with an id that is not in use, whose timeout is n + 1 ticks: its callback is run once by
  -- the tick after the next n ones, and at no other tick, earlier or later. The callbacks of the first
  -- n ticks add and cancel no timer of this id, and later ones add none; one that runs in the timer's
  -- own tick cancels it too late.
  pub fires_on_time :
      (run : C → S × TimerWheel C → S × TimerWheel C) (s : S) (w : TimerWheel C) (timeout_ms : ℤ)
      (callback : C) (n : ℕ)
      → let (id, w') = add_timer w timeout_ms callback in
        named id w.entries ≡ []
        → ticks_of w.tick_ms timeout_ms ≡ suc n
        → ((j : ℕ) → suc j ≤ n → Spares id run (ticks run j (s, w')))
        → ((j : ℕ) → n ≤ j → AddsNone id run (ticks run j (s, w')))
        → ((k : ℕ) → k ≢ n → Calls id run (ticks run k (s, w')) [])
          × Calls id run (ticks run n (s, w')) (callback ∷ [])
  unfolding add_timer
  fires_on_time run s w timeout_ms callback n fresh h spares adds_none =
      let id = w.next_id in
      let x : S × TimerWheel C = (s, (add_timer w timeout_ms callback).1) in
      let added : named id x.1.entries ≡ (suc n, callback) ∷ [] =
        named-add_timer w timeout_ms callback fresh ∙ ap (λ (t : ℕ). (t, callback) ∷ []) h in
      let due =
        counts_down id n 0 callback run x spares
          (added ∙ ap (λ (t : ℕ). (t, callback) ∷ []) (omega arith)) in
      (
        (λ k other. elim (Bool-cases (ltb k n)) [
          | inl early ↦
              let le = ltb→lt _ _ early in
              calls id run (ticks run k x) ((suc (n - k), callback) ∷ []) []
                (counts_down id k (n - k) callback run x (λ j lt. spares j (omega (arith, lt, le)))
                  (added ∙ ap (λ (t : ℕ). (t, callback) ∷ []) (omega (arith, le))))
                (not_yet n k callback le)
          | inr late ↦
              calls id run (ticks run k x) [] []
                (stays_absent id (suc n) k run x (omega (arith, ltb→le _ _ late, other))
                  (λ j lo hi. adds_none j (omega (arith, lo)))
                  (absent-tick id run (ticks run n x) (adds_none n (omega arith))
                    (ap staying due ∙ stops callback)))
                refl
        ]),
        calls id run (ticks run n x) ((1, callback) ∷ []) _ due (now_due callback),
      )

  -- The callback of a timer that is cancelled between two ticks is run by no later tick, as long as the
  -- callbacks that run until then add no timer of its id.
  pub cancelled_never_fires :
      (run : C → S × TimerWheel C → S × TimerWheel C) (s : S) (w : TimerWheel C) (id k : ℕ)
      → ((j : ℕ) → suc j ≤ k → AddsNone id run (ticks run j (s, cancel_timer w id)))
      → Calls id run (ticks run k (s, cancel_timer w id)) []
  cancelled_never_fires run s w id k adds_none =
      let x : S × TimerWheel C = (s, cancel_timer w id) in
      calls id run (ticks run k x) [] []
        (stays_absent id 0 k run x (omega arith) (λ j lo hi. adds_none j hi)
          (unfold cancel_timer in named-remove_id id w.entries))
        refl
