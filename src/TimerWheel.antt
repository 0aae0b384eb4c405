-- ===== src/TimerWheel.antt =====
-- src/TimerWheel.cc and include/mini_net/TimerWheel.h: timers that count ticks down. A callback is a
-- value of a type C, and what running it does to the program's state and to the wheel is an argument,
-- since it may add or cancel timers.
mod Tests
pub mod Named
pub mod Fires
use mini_net.Prelude.{ℕ, ◌+◌, ◌-◌, ◌/◌, max, List, [], ◌∷◌, ◌++◌, if◌then◌else◌, leb, ◌==◌}
use mini_net.Ctype.{ℤ, pos, negsuc}
use mini_net.ShortUrlService.{increment}

-- A count is positive from addTimer on, and a timer whose count reaches 0 leaves the wheel, so a
-- natural number holds it.
pub record TimerEntry (C : Type 0) : Type 0 where
  pub id : ℕ
  pub remaining_ticks : ℕ
  pub callback : C

pub record TimerWheel (C : Type 0) : Type 0 where
  pub tick_ms : ℕ
  pub wheel_size : ℕ
  pub next_id : ℕ
  pub entries : List (TimerEntry C)

-- std::max(1, timeout_ms / static_cast<int>(tick_ms_)), for a tick_ms that an int holds. A negative
-- timeout has a quotient of at most 0.
unfoldable pub ticks_of : ℕ → ℤ → ℕ
ticks_of tick_ms (pos n) = max 1 (n / tick_ms)
ticks_of tick_ms (negsuc n) = 1

module _ {C : Type 0} where
  unfoldable pub new_wheel : ℕ → ℕ → TimerWheel C
  new_wheel tick_ms wheel_size = record {
    tick_ms = if tick_ms == 0 then 100 else tick_ms;
    wheel_size = max wheel_size 1;
    next_id = 1;
    entries = [];
  }

  unfoldable pub add_timer : TimerWheel C → ℤ → C → ℕ × TimerWheel C
  add_timer w timeout_ms callback = (
    w.next_id,
    record w {
      next_id = increment w.next_id;
      entries =
          w.entries
          ++ record {
            id = w.next_id;
            remaining_ticks = ticks_of w.tick_ms timeout_ms;
            callback = callback;
          }
            ∷ [];
    },
  )

  -- std::remove_if and erase.
  unfoldable pub remove_id : ℕ → List (TimerEntry C) → List (TimerEntry C)
  remove_id id [] = []
  remove_id id (e ∷ l) = let rest = remove_id id l in if e.id == id then rest else e ∷ rest

  unfoldable pub cancel_timer : TimerWheel C → ℕ → TimerWheel C
  cancel_timer w id = record w { entries = remove_id id w.entries }

  abbrev pub count_down : TimerEntry C → TimerEntry C
  count_down e = record e { remaining_ticks = e.remaining_ticks - 1 }

  -- The first loop of tick: the entries that fire, and those that stay.
  unfoldable pub collect : List (TimerEntry C) → List (TimerEntry C) × List (TimerEntry C)
  collect [] = ([], [])
  collect (e ∷ l) =
      let (fired, keep) = collect l in
      if leb (count_down e).remaining_ticks 0
      then (count_down e ∷ fired, keep)
      else (fired, count_down e ∷ keep)

module _ {S C : Type 0} where
  -- The second loop: the callbacks, in order.
  unfoldable pub run_fired :
      (C → S × TimerWheel C → S × TimerWheel C)
      → List (TimerEntry C)
      → S × TimerWheel C
      → S × TimerWheel C
  run_fired run [] x = x
  run_fired run (e ∷ fired) x = run_fired run fired (run e.callback x)

  unfoldable pub tick :
      (C → S × TimerWheel C → S × TimerWheel C) → S × TimerWheel C → S × TimerWheel C
  tick run (s, w) =
      let (fired, keep) = collect w.entries in run_fired run fired (s, record w { entries = keep })
