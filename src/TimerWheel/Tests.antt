-- ===== src/TimerWheel/Tests.antt =====
-- Runs of the wheel, and its theorems at an input.
use mini_net.Prelude.{
  ℕ, suc, ◌≡◌, ◌≢◌, ◌∙◌, refl, List, [], ◌∷◌, if◌then◌else◌, ◌==◌, append-nil, arith, Bool-cases,
  inl, inr,
}
use mini_net.Ctype.{pos}
use mini_net.TimerWheel.{TimerEntry, TimerWheel, add_timer, cancel_timer, ticks_of}
use mini_net.TimerWheel.Named.{named, named-append}
use mini_net.TimerWheel.Fires.{
  SparesIn, AddsNoneIn, Calls, ticks, fires_on_time, cancelled_never_fires,
}

-- A wheel with a tick of 100 ms and a timer that is due at the next one.
abbrev wheel : TimerWheel ℕ
wheel = record {
  tick_ms = 100;
  wheel_size = 60;
  next_id = 2;
  entries = record { id = 1; remaining_ticks = 1; callback = 5 } ∷ [];
}

-- Callbacks that count their calls, and add a timer where its id is 3.
abbrev run : ℕ → ℕ × TimerWheel ℕ → ℕ × TimerWheel ℕ
run c (n, w) = (suc n, if w.next_id == 3 then (add_timer w (pos 200) 7).1 else w)

spares_two : (c : ℕ) (x : ℕ × TimerWheel ℕ) → named 2 (run c x).1.entries ≡ named 2 x.1.entries
unfolding add_timer
spares_two c (n, w) = elim (Bool-cases (w.next_id == 3)) [
  | inl three ↦
      rw three (named-append 2 w.entries _ ∙ ground (arith, three, append-nil (named 2 w.entries)))
  | inr other ↦ rw other
]

spares_all :
    (l : List (TimerEntry ℕ)) (x : ℕ × TimerWheel ℕ) → SparesIn 2 run l x × AddsNoneIn 2 run l x
spares_all [] x = (tt, tt)
spares_all (e ∷ l) x =
    let (spares, adds_none) = spares_all l (run e.callback x) in
    ((spares_two e.callback x, spares), ((λ h. spares_two e.callback x ∙ h), adds_none))

three_ticks : ticks_of 100 (pos 350) ≡ suc 2
unfolding ticks_of
three_ticks = refl

nobody_yet : named (add_timer wheel (pos 350) 9).0 wheel.entries ≡ []
unfolding add_timer
nobody_yet = refl

fires_on_time_example :
    let (id, w') = add_timer wheel (pos 350) 9 in
    ((k : ℕ) → k ≢ 2 → Calls id run (ticks run k (0, w')) [])
    × Calls id run (ticks run 2 (0, w')) (9 ∷ [])
fires_on_time_example =
    fires_on_time run 0 wheel (pos 350) 9 2 nobody_yet three_ticks
      (λ j le. unfold add_timer in (spares_all _ _).0)
      (λ j le. unfold add_timer in (spares_all _ _).1)

cancelled_never_fires_example :
    Calls 2 run (ticks run 3 (0, cancel_timer (add_timer wheel (pos 350) 9).1 2)) []
cancelled_never_fires_example =
    cancelled_never_fires run 0 (add_timer wheel (pos 350) 9).1 2 3 (λ j le. (spares_all _ _).1)
