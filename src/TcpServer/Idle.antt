-- ===== src/TcpServer/Idle.antt =====
-- sweepIdle: which connections are closed for having been silent. The closes themselves are tasks of
-- the loops that own the connections.
use mathlib.Core.List.{Memᴰ}
use mathlib.Core.List.Memᴰ
use mini_net.Prelude.{
  ℕ, zero, suc, ◌-◌, ◌*◌, ◌≤◌, ◌≡◌, ◌↔◌, inl, inr, refl, sym, ap, ◌∙◌, subst, Bool, List, [], ◌∷◌,
  ◌++◌, map, Option, none, some, if◌then◌else◌, leb, leb→le, le→leb, Bool-cases, Map, get, nat_eq,
  length,
}
use mini_net.Ctype.{ℤ, pos, negsuc}
use mini_net.EventLoopThreadPool.{stop}
use mini_net.TcpServer.Writing.{Conn}
use mini_net.TcpServer.Reading.{add_u64}
use mini_net.TcpServer.{Server}

abbrev pub is_overdue : ℕ → ℕ → Conn → Bool
is_overdue now seconds c = leb (seconds * 1000) (now - c.last_active_ms)

abbrev pub if_overdue : ℕ → ℕ → Option Conn → List Conn → List Conn
if_overdue now seconds none rest = rest
if_overdue now seconds (some c) rest = if is_overdue now seconds c then c ∷ rest else rest

taken :
    (now seconds : ℕ) (c : Conn) (rest : List Conn)
    → seconds * 1000 ≤ now - c.last_active_ms
    → Memᴰ c (if_overdue now seconds (some c) rest)
taken now seconds c rest late = rw (le→leb _ _ late) (Memᴰ.head refl)

kept :
    (now seconds : ℕ) (c : Conn) (rest : List Conn) (o : Option Conn)
    → Memᴰ c rest
    → Memᴰ c (if_overdue now seconds o rest)
kept now seconds c rest none m = m
kept now seconds c rest (some d) m = elim (Bool-cases (is_overdue now seconds d)) [
  | inl late ↦ rw late (Memᴰ.tail m)
  | inr early ↦ rw early m
]

module _ {K : Type 0} where
  unfoldable pub expired : ℕ → ℕ → Server K → Map ℕ ℕ → List Conn
  expired now seconds s [] = []
  expired now seconds s ((fd, id) ∷ entries) =
      if_overdue now seconds (get s.objects id) (expired now seconds s entries)

  -- With a timeout of this many seconds; none or less is no timeout.
  unfoldable pub sweep : ℕ → ℤ → Server K → List Conn × Server K
  sweep now (negsuc n) s = ([], s)
  sweep now (pos zero) s = ([], s)
  sweep now (pos (suc n)) s =
      let closing = expired now (suc n) s s.conns in
      (closing, record s { closed_idle = add_u64 s.closed_idle (length closing) })

  unfoldable pub sweep_idle : ℕ → Server K → List Conn × Server K
  sweep_idle now s = sweep now s.idle_timeout_s s

  -- The destructor.
  unfoldable pub destroy : Server K → Server K
  destroy s = record s {
    pool = stop s.pool;
    conns = [];
    closed = s.closed ++ map (λ (e : ℕ × ℕ). e.0) s.conns;
  }

  -- An entry of the table whose connection has been silent for that long.
  pub record Silent (now seconds : ℕ) (s : Server K) (entries : Map ℕ ℕ) (c : Conn) : Type 0 where
    pub entry : ℕ × ℕ
    pub listed : Memᴰ entry entries
    pub object : get s.objects entry.1 ≡ some c
    pub overdue : seconds * 1000 ≤ now - c.last_active_ms

  Silent-later :
      {now seconds : ℕ} {s : Server K} {entries : Map ℕ ℕ} {c : Conn} (e : ℕ × ℕ)
      → Silent now seconds s entries c
      → Silent now seconds s (e ∷ entries) c
  Silent-later e m = record {
    entry = m.entry;
    listed = Memᴰ.tail m.listed;
    object = m.object;
    overdue = m.overdue;
  }

  -- The next entry is taken where its object is overdue, and none of the rest is lost.
  if_overdue-Silent :
      (now seconds fd id : ℕ) (s : Server K) (entries : Map ℕ ℕ) (c : Conn) (rest : List Conn)
      (o : Option Conn)
      → get s.objects id ≡ o
      → (Memᴰ c rest → Silent now seconds s entries c)
      → Memᴰ c (if_overdue now seconds o rest)
      → Silent now seconds s ((fd, id) ∷ entries) c
  if_overdue-Silent now seconds fd id s entries c rest none e r m = Silent-later (fd, id) (r m)
  if_overdue-Silent now seconds fd id s entries c rest (some d) e r m =
      elim (Bool-cases (is_overdue now seconds d)) [
        | inl late ↦
            elim (Memᴰ.cases_cons (subst (λ b. Memᴰ c (if b then d ∷ rest else rest)) late m)) [
              | inl same ↦ record {
                entry = (fd, id);
                listed = Memᴰ.head refl;
                object = e ∙ ap some (sym same);
                overdue =
                    subst (λ (x : Conn). seconds * 1000 ≤ now - x.last_active_ms) (sym same)
                      (leb→le _ _ late);
              }
              | inr later ↦ Silent-later (fd, id) (r later)
            ]
        | inr early ↦
            Silent-later (fd, id) (r (subst (λ b. Memᴰ c (if b then d ∷ rest else rest)) early m))
      ]

  expired-Silent :
      (now seconds : ℕ) (s : Server K) (entries : Map ℕ ℕ) (c : Conn)
      → Memᴰ c (expired now seconds s entries)
      → Silent now seconds s entries c
  unfolding expired
  expired-Silent now seconds s [] c m = absurd (Memᴰ.not-nil m)
  expired-Silent now seconds s ((fd, id) ∷ entries) c m =
      if_overdue-Silent now seconds fd id s entries c (expired now seconds s entries)
        (get s.objects id) refl (expired-Silent now seconds s entries c) m

  Silent-expired :
      (now seconds : ℕ) (s : Server K) (entries : Map ℕ ℕ) (c : Conn) (e : ℕ × ℕ)
      → Memᴰ e entries
      → get s.objects e.1 ≡ some c
      → seconds * 1000 ≤ now - c.last_active_ms
      → Memᴰ c (expired now seconds s entries)
  unfolding expired
  Silent-expired now seconds s [] c e m object late = absurd (Memᴰ.not-nil m)
  Silent-expired now seconds s ((fd, id) ∷ entries) c e m object late = elim (Memᴰ.cases_cons m) [
    | inl same ↦
        subst (λ o. Memᴰ c (if_overdue now seconds o (expired now seconds s entries)))
          (sym object ∙ ap (λ (x : ℕ × ℕ). get s.objects x.1) same)
          (taken now seconds c (expired now seconds s entries) late)
    | inr later ↦
        kept now seconds c (expired now seconds s entries) (get s.objects id)
          (Silent-expired now seconds s entries c e later object late)
  ]

  -- What a sweep posts, and what it leaves.
  abbrev pub Sweeps : ℕ → ℕ → Server K → List Conn × Server K → Type 0
  Sweeps now n s (closing, t) =
      ((c : Conn) → Memᴰ c closing ↔ Silent now (suc n) s s.conns c)
      × (t.closed_idle ≡ add_u64 s.closed_idle (length closing))
      × (t.conns ≡ s.conns)

  -- With a timeout of a second or more, the connections that a sweep closes are exactly those that the
  -- table lists and that have been silent for that long, and the counter grows by as many.
  pub sweep_idle-Silent :
      (now n : ℕ) (s : Server K)
      → s.idle_timeout_s ≡ pos (suc n)
      → Sweeps now n s (sweep_idle now s)
  unfolding sweep_idle sweep
  sweep_idle-Silent now n s e = subst (Sweeps now n s) (ap (λ t. sweep now t s) (sym e)) (
    λ c. (
      expired-Silent now (suc n) s s.conns c,
      λ m. Silent-expired now (suc n) s s.conns c m.entry m.listed m.object m.overdue,
    ),
    refl,
    refl,
  )
