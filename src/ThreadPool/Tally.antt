-- ===== src/ThreadPool/Tally.antt =====
-- How many workers stand where.
use mini_net.Prelude.{
  ℕ, zero, suc, ◌+◌, ◌≡◌, refl, List, [], ◌∷◌, ◌++◌, map, length, if◌then◌else◌, ◌==◌, arith,
  replicate, ◌*◌,
}
use mini_net.ThreadPool.{Worker, checking, waiting, exited, running, is_waiting, tally, wake}

abbrev pub is_active : Worker → ℕ
is_active checking = 1
is_active (running task) = 1
is_active waiting = 0
is_active exited = 0

abbrev pub is_exited : Worker → ℕ
is_exited exited = 1
is_exited checking = 0
is_exited waiting = 0
is_exited (running task) = 0

abbrev pub runs : ℕ → Worker → ℕ
runs a (running task) = if task == a then 1 else 0
runs a checking = 0
runs a waiting = 0
runs a exited = 0

abbrev pub count : ℕ → List ℕ → ℕ
count a [] = 0
count a (b ∷ l) = (if b == a then 1 else 0) + count a l

pub count-append : (a : ℕ) (l r : List ℕ) → count a (l ++ r) ≡ count a l + count a r
count-append a [] r = omega arith
count-append a (b ∷ l) r = omega (arith, count-append a l r)

pub tally-append :
    (w : Worker → ℕ) (l : List Worker) (x : Worker) (r : List Worker)
    → tally w (l ++ x ∷ r) ≡ w x + tally w (l ++ r)
tally-append w [] x r = refl
tally-append w (y ∷ l) x r = omega (arith, tally-append w l x r)

pub tally_all :
    (l : List Worker) → length l ≡ tally is_active l + (tally is_waiting l + tally is_exited l)
tally_all [] = omega arith
tally_all (checking ∷ l) = omega (arith, tally_all l)
tally_all (waiting ∷ l) = omega (arith, tally_all l)
tally_all (exited ∷ l) = omega (arith, tally_all l)
tally_all (running task ∷ l) = omega (arith, tally_all l)

-- Waking keeps who runs what and who has returned, and leaves nobody waiting.
pub tally-wake_counts :
    (a : ℕ) (l : List Worker)
    → (tally is_waiting (map wake l) ≡ 0)
      × (tally is_exited (map wake l) ≡ tally is_exited l)
      × (tally (runs a) (map wake l) ≡ tally (runs a) l)
      × (tally is_active (map wake l) ≡ tally is_active l + tally is_waiting l)
      × (length (map wake l) ≡ length l)
unfolding wake
tally-wake_counts a [] = omega arith
tally-wake_counts a (checking ∷ l) = omega (arith, tally-wake_counts a l)
tally-wake_counts a (waiting ∷ l) = omega (arith, tally-wake_counts a l)
tally-wake_counts a (exited ∷ l) = omega (arith, tally-wake_counts a l)
tally-wake_counts a (running task ∷ l) = omega (arith, tally-wake_counts a l)

pub tally-replicate : (w : Worker → ℕ) (n : ℕ) → tally w (replicate n checking) ≡ n * w checking
tally-replicate w zero = omega arith
tally-replicate w (suc n) = omega (arith, tally-replicate w n)
