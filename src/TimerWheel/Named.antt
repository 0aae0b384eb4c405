-- ===== src/TimerWheel/Named.antt =====
-- The timers of an id, and what each operation does to them.
use mini_net.Prelude.{
  ℕ, suc, ◌-◌, ◌≡◌, ◌≤◌, refl, ◌∙◌, List, [], ◌∷◌, ◌++◌, if◌then◌else◌, leb, ◌==◌, ==_iff, arith,
  Bool-cases, inl, inr,
}
use mini_net.Ctype.{ℤ}
use mini_net.TimerWheel.{TimerEntry, TimerWheel, ticks_of, add_timer, remove_id, collect}

module _ {C : Type 0} where
  -- The counts and the callbacks of the timers with an id.
  abbrev pub named : ℕ → List (TimerEntry C) → List (ℕ × C)
  named id [] = []
  named id (e ∷ l) =
      let rest = named id l in if e.id == id then (e.remaining_ticks, e.callback) ∷ rest else rest

  abbrev pub callbacks : List (TimerEntry C) → List C
  callbacks [] = []
  callbacks (e ∷ l) = e.callback ∷ callbacks l

  abbrev pub callbacks_of : ℕ → List (TimerEntry C) → List C
  callbacks_of id [] = []
  callbacks_of id (e ∷ l) =
      let rest = callbacks_of id l in if e.id == id then e.callback ∷ rest else rest

  -- What a tick does to the timers of an id: those that stay, and those that fire.
  abbrev pub staying : List (ℕ × C) → List (ℕ × C)
  staying [] = []
  staying ((n, c) ∷ l) = let rest = staying l in if leb (n - 1) 0 then rest else (n - 1, c) ∷ rest

  abbrev pub leaving : List (ℕ × C) → List C
  leaving [] = []
  leaving ((n, c) ∷ l) = let rest = leaving l in if leb (n - 1) 0 then c ∷ rest else rest

  pub not_yet : (n k : ℕ) (c : C) → suc k ≤ n → leaving ((suc (n - k), c) ∷ []) ≡ []
  not_yet n k c h = ground arith

  pub stops : (c : C) → staying ((1, c) ∷ []) ≡ []
  stops c = ground arith

  pub now_due : (c : C) → leaving ((1, c) ∷ []) ≡ c ∷ []
  now_due c = ground arith

  pub named-collect :
      (id : ℕ) (l : List (TimerEntry C))
      → (callbacks_of id (collect l).0 ≡ leaving (named id l))
        × (named id (collect l).1 ≡ staying (named id l))
  unfolding collect
  named-collect id [] = (refl, refl)
  named-collect id (e ∷ l) =
      let (gone, kept) = named-collect id l in
      elim (Bool-cases (leb (e.remaining_ticks - 1) 0)) [
        | inl fires ↦ elim (Bool-cases (e.id == id)) [
          | inl is ↦ rw (fires, is, gone, kept, fires) (refl, refl)
          | inr other ↦ rw (fires, other, gone, kept) (refl, refl)
        ]
        | inr stays ↦ elim (Bool-cases (e.id == id)) [
          | inl is ↦ rw (stays, is, gone, kept, stays) (refl, refl)
          | inr other ↦ rw (stays, other, gone, kept) (refl, refl)
        ]
      ]

  pub named-append :
      (id : ℕ) (l l' : List (TimerEntry C)) → named id (l ++ l') ≡ named id l ++ named id l'
  named-append id [] l' = refl
  named-append id (e ∷ l) l' = elim (Bool-cases (e.id == id)) [
    | inl is ↦ rw (is, named-append id l l')
    | inr other ↦ rw (other, named-append id l l')
  ]

  pub named-add_timer :
      (w : TimerWheel C) (timeout_ms : ℤ) (callback : C)
      → named w.next_id w.entries ≡ []
      → named w.next_id (add_timer w timeout_ms callback).1.entries
        ≡ (ticks_of w.tick_ms timeout_ms, callback) ∷ []
  unfolding add_timer
  named-add_timer w timeout_ms callback fresh =
      named-append w.next_id w.entries _ ∙ rw (fresh, (==_iff w.next_id w.next_id).1 refl)

  pub named-remove_id : (id : ℕ) (l : List (TimerEntry C)) → named id (remove_id id l) ≡ []
  unfolding remove_id
  named-remove_id id [] = refl
  named-remove_id id (e ∷ l) = elim (Bool-cases (e.id == id)) [
    | inl is ↦ rw (is, named-remove_id id l)
    | inr other ↦ rw (other, other, named-remove_id id l)
  ]

  abbrev pub fired : TimerWheel C → List (TimerEntry C)
  fired w = (collect w.entries).0
