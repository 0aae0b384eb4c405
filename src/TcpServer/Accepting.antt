-- ===== src/TcpServer/Accepting.antt =====
-- handleAccept: what it posts for the connections that it accepts.
use mathlib.Core.Option.{some-injective}
use mini_net.Prelude.{
  ℕ, zero, suc, ◌+◌, ◌^◌, ◌<◌, ◌≡◌, refl, sym, ap, ◌∙◌, subst, List, [], ◌∷◌, map, Option, none,
  some, length, arith,
}
use mini_net.EventLoopThreadPool.{next_loop}
use mini_net.ShortUrlService.{increment}
use mini_net.TcpServer.{
  Server, NewConn, Accepted, accepted, accept_again, accept_interrupted, accept_failed,
  handle_accept,
}

-- The descriptors that accept4 hands over before it has no more or fails.
abbrev pub descriptors : List Accepted → List ℕ
descriptors [] = []
descriptors (accepted fd ∷ answers) = fd ∷ descriptors answers
descriptors (accept_again ∷ answers) = []
descriptors (accept_interrupted ∷ answers) = descriptors answers
descriptors (accept_failed ∷ answers) = []

abbrev pub count_from : ℕ → ℕ → List ℕ
count_from n zero = []
count_from n (suc k) = n ∷ count_from (suc n) k

increment_small : (n : ℕ) → n + 1 < 2 ^ 64 → increment n ≡ suc n
increment_small n h = omega (arith, h)

-- What a call of handleAccept posts.
pub record Posts {K : Type 0} (s : Server K) (fds : List ℕ) (tasks : List NewConn) (t : Server K)
    : Type 0 where
  pub all : map (λ (c : NewConn). c.cfd) tasks ≡ fds
  pub ids : map (λ (c : NewConn). c.conn_id) tasks ≡ count_from s.next_conn_id (length tasks)
  pub next : t.next_conn_id ≡ s.next_conn_id + length tasks

module _ {K : Type 0} where
  abbrev nobody : Server K → Option (List NewConn × Server K)
  nobody s = some ([], s)

  nothing-Posts :
      (s t : Server K) (tasks : List NewConn) → nobody s ≡ some (tasks, t) → Posts s [] tasks t
  nothing-Posts s t tasks e =
      subst (λ (q : List NewConn × Server K). Posts s [] q.0 q.1)
        (some-injective ([], s) (tasks, t) e)
        (record { all = refl; ids = refl; next = omega arith })

  abbrev adds : NewConn → Option (List NewConn × Server K) → Option (List NewConn × Server K)
  adds task o = elim o [ none ↦ none | some (tasks, t) ↦ some (task ∷ tasks, t) ]

  one-Posts :
      (s s' t : Server K) (fd : ℕ) (fds : List ℕ) (task : NewConn) (tasks : List NewConn)
      (o : Option (List NewConn × Server K))
      → task.cfd ≡ fd
      → task.conn_id ≡ s.next_conn_id
      → s'.next_conn_id ≡ increment s.next_conn_id
      → ((q : List NewConn × Server K)
          → o ≡ some q
          → s'.next_conn_id + length q.0 < 2 ^ 64
          → Posts s' fds q.0 q.1)
      → adds task o ≡ some (tasks, t)
      → s.next_conn_id + length tasks < 2 ^ 64
      → Posts s (fd ∷ fds) tasks t
  one-Posts s s' t fd fds task tasks none f i n r e h = absurd (cc)
  one-Posts s s' t fd fds task tasks (some q) f i n r e h =
      let both : List NewConn × Server K = (task ∷ q.0, q.1) in
      let same : both ≡ (tasks, t) = some-injective (task ∷ q.0, q.1) (tasks, t) e in
      let long : length tasks ≡ suc (length q.0) =
        ap (λ (x : List NewConn × Server K). length x.0) (sym same) in
      let up : s'.next_conn_id ≡ suc s.next_conn_id =
        n ∙ increment_small s.next_conn_id (omega (arith, h, long)) in
      let rest = r q refl (omega (arith, h, long, up)) in
      subst (λ (x : List NewConn × Server K). Posts s (fd ∷ fds) x.0 x.1) same
        (record {
          all = cc (f, rest.all);
          ids = cc (i, rest.ids ∙ ap (λ m. count_from m (length q.0)) up);
          next = omega (arith, rest.next, up);
        })

  -- As long as the counter of ids does not come round, a call of handleAccept posts a task for every
  -- descriptor that it is handed, in order, and gives them the next ids in turn; the counter
  -- ends after the last of them.
  pub handle_accept-Posts :
      (answers : List Accepted) (s t : Server K) (tasks : List NewConn)
      → handle_accept answers s ≡ some (tasks, t)
      → s.next_conn_id + length tasks < 2 ^ 64
      → Posts s (descriptors answers) tasks t
  unfolding handle_accept
  handle_accept-Posts [] s t tasks e h = absurd (cc)
  handle_accept-Posts (accept_again ∷ answers) s t tasks e h = nothing-Posts s t tasks e
  handle_accept-Posts (accept_failed ∷ answers) s t tasks e h = nothing-Posts s t tasks e
  handle_accept-Posts (accept_interrupted ∷ answers) s t tasks e h =
      handle_accept-Posts answers s t tasks e h
  handle_accept-Posts (accepted fd ∷ answers) s t tasks e h =
      let (io_loop, pool) = next_loop s.pool in
      let s' = record s { pool = pool; next_conn_id = increment s.next_conn_id } in
      one-Posts s s' t fd (descriptors answers)
        (record { cfd = fd; conn_id = s.next_conn_id; io_loop = io_loop }) tasks
        (handle_accept answers s') refl refl refl
        (λ q k b. handle_accept-Posts answers s' q.1 q.0 k b) e h
