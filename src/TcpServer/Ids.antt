-- ===== src/TcpServer/Ids.antt =====
-- No id of a connection is given out twice, through every run.
use mini_net.Prelude.{
  ℕ, suc, ◌+◌, ◌<◌, ◌≤◌, ◌≡◌, ◌⊎◌, inl, inr, refl, sym, ◌∙◌, subst, List, [], ◌∷◌, ◌++◌, map,
  if◌then◌else◌, ◌==◌, ==_iff, Bool-cases, ltb, ltb→lt, ltb→le, arith, length, get, nat_eq,
}
use mini_net.Channel.{Ctl, Poller}
use mini_net.EventLoopThreadPool.{LoopPool}
use mini_net.TcpServer.Table.{IsKept, close_conn_in_loop-IsKept, fewer-IsKept}
use mini_net.TcpServer.Events.{
  found, shut_down-IsKept, send_bytes-IsKept, handle_writable-IsKept, add_connection-IsKept,
}
use mini_net.TcpServer.Accepting.{count_from, Posts, handle_accept-Posts}
use mini_net.TcpServer.Arrivals.{handle_accept-IsKept, handle_readable-IsKept}
use mini_net.TcpServer.{
  Server, World, Handlers, NewConn, add_connection, close_conn_in_loop, shut_down,
}
use mini_net.TcpServer.Runs.{
  Step, accepts, enters, arrives, sends, shuts, flushes, closes, Reach, begins, later,
}

-- How many tasks have an id.
abbrev pub posts_of : ℕ → List NewConn → ℕ
posts_of i [] = 0
posts_of i (t ∷ l) = let rest = posts_of i l in if t.conn_id == i then suc rest else rest

posts_of-append : (i : ℕ) (l r : List NewConn) → posts_of i (l ++ r) ≡ posts_of i l + posts_of i r
posts_of-append i [] r = omega arith
posts_of-append i (t ∷ l) r = ground (arith, posts_of-append i l r)

heads : {m n : ℕ} {l r : List ℕ} → ◌≡◌ {A = List ℕ} (m ∷ l) (n ∷ r) → (m ≡ n) × (l ≡ r)
heads e = (cc e, cc e)

-- The tasks that an accept posts have an id each, from the counter on.
posts_of-ids :
    (i n : ℕ) (tasks : List NewConn)
    → map (λ (c : NewConn). c.conn_id) tasks ≡ count_from n (length tasks)
    → (posts_of i tasks ≤ 1)
      × (i < n → posts_of i tasks ≡ 0)
      × (n + length tasks ≤ i → posts_of i tasks ≡ 0)
posts_of-ids i n [] e = (omega arith, λ h. refl, λ h. refl)
posts_of-ids i n (t ∷ tasks) e =
    let (is, rest) = heads e in
    let (once, below, above) = posts_of-ids i (suc n) tasks rest in
    elim (Bool-cases (t.conn_id == i)) [
      | inl here ↦
          let same : n ≡ i = sym is ∙ (==_iff t.conn_id i).0 here in
          let others = below (omega (arith, same)) in
          rw here (
            omega (arith, others),
            λ k. absurd (omega (arith, k, same)),
            λ k. absurd (omega (arith, k, same)),
          )
      | inr other ↦ rw other (once, λ k. below (omega (arith, k)), λ k. above (omega (arith, k)))
    ]

-- The ids that no connection has had: those that the counter has not reached, and those of the tasks.
abbrev pub Unused : ℕ → List NewConn → ℕ → Type 0
Unused n posted i = (n ≤ i) ⊎ (0 < posts_of i posted)

-- No id is given out twice, whether its task has run or not.
pub record HasIds {K : Type 0} (s : Server K) (posted : List NewConn) : Type 0 where
  pub table : IsKept (Unused s.next_conn_id posted) s.next_conn_id s
  pub once : (i : ℕ) → posts_of i posted ≤ 1
  pub given : (i : ℕ) → s.next_conn_id ≤ i → posts_of i posted ≡ 0

module _ {K : Type 0} where
  Posts-HasIds :
      (s t : Server K) (posted tasks : List NewConn) (fds : List ℕ)
      → HasIds s posted
      → IsKept (Unused s.next_conn_id posted) t.next_conn_id t
      → Posts s fds tasks t
      → HasIds t (posted ++ tasks)
  Posts-HasIds s t posted tasks fds v kept p =
      let ids = λ (i : ℕ). posts_of-ids i s.next_conn_id tasks p.ids in
      let both = λ (i : ℕ). posts_of-append i posted tasks in
      record {
        table = fewer-IsKept (Unused t.next_conn_id (posted ++ tasks)) t kept (λ i u. elim u [
          | inl beyond ↦ inl (omega (arith, beyond, p.next))
          | inr posted_now ↦ elim (Bool-cases (ltb i s.next_conn_id)) [
            | inl before ↦ inr (omega (arith, posted_now, both i, (ids i).1 (ltb→lt _ _ before)))
            | inr after ↦ inl (ltb→le _ _ after)
          ]
        ]);
        once = λ i. elim (Bool-cases (ltb i s.next_conn_id)) [
          | inl before ↦ omega (arith, both i, (ids i).1 (ltb→lt _ _ before), v.once i)
          | inr after ↦ omega (arith, both i, (ids i).0, v.given i (ltb→le _ _ after))
        ];
        given = λ i le. omega (
          arith,
          both i,
          (ids i).2 (omega (arith, le, p.next)),
          v.given i (omega (arith, le, p.next)),
        );
      }

  same-HasIds :
      (s s' : Server K) (posted : List NewConn)
      → HasIds s posted
      → IsKept (Unused s.next_conn_id posted) s.next_conn_id s'
      → HasIds s' posted
  same-HasIds s s' posted v t = record {
    table = subst (λ (n : ℕ). IsKept (Unused n posted) n s') (sym t.counter) t;
    once = v.once;
    given = λ i le. v.given i (omega (arith, le, t.counter));
  }

module _ {K A : Type 0} (ctl : Ctl K) (h : Handlers A) where
  enters-HasIds :
      (now : ℕ) (l : List NewConn) (task : NewConn) (r : List NewConn) (w : World K A)
      → HasIds w.0 (l ++ task ∷ r)
      → HasIds (add_connection ctl h now task w).0 (l ++ r)
  enters-HasIds now l task r w v =
      let i = task.conn_id in
      let n = w.0.next_conn_id in
      let split = λ (j : ℕ). posts_of-append j l (task ∷ r) in
      let joined = λ (j : ℕ). posts_of-append j l r in
      let own : 0 < posts_of i (l ++ task ∷ r) = ground (arith, split i, ==_iff i i) in
      let rest : posts_of i (l ++ r) ≡ 0 =
        ground (arith, split i, joined i, v.once i, ==_iff i i) in
      let fewer = λ (j : ℕ). posts_fewer j l task r in
      same_ids n
        (add_connection-IsKept ctl h (Unused n (l ++ r)) now task w v.table (inr own) (λ j u.
          elim u [
            | inl beyond ↦ (
              inl beyond,
              λ e. omega (arith, own, v.given i (subst (λ (x : ℕ). n ≤ x) (sym e) beyond)),
            )
            | inr posted_now ↦ (
              inr (omega (arith, posted_now, fewer j)),
              λ e.
                  omega
                    (arith, rest, subst (λ (x : ℕ). 0 < posts_of x (l ++ r)) (sym e) posted_now),
            )
          ]))
        (λ j. omega (arith, fewer j, v.once j)) (λ j le. omega (arith, fewer j, v.given j le))
    where
      posts_fewer :
          (j : ℕ) (l : List NewConn) (task : NewConn) (r : List NewConn)
          → posts_of j (l ++ r) ≤ posts_of j (l ++ task ∷ r)
      posts_fewer j l task r = ground (arith, posts_of-append j l r, posts_of-append j l (task ∷ r))

      same_ids :
          (n : ℕ)
          → IsKept (Unused n (l ++ r)) n (add_connection ctl h now task w).0
          → ((j : ℕ) → posts_of j (l ++ r) ≤ 1)
          → ((j : ℕ) → n ≤ j → posts_of j (l ++ r) ≡ 0)
          → HasIds (add_connection ctl h now task w).0 (l ++ r)
      same_ids n t once given = record {
        table =
            subst (λ (m : ℕ). IsKept (Unused m (l ++ r)) m (add_connection ctl h now task w).0)
              (sym t.counter) t;
        once = once;
        given = λ j le. given j (omega (arith, le, t.counter));
      }

  Step-HasIds :
      {x y : World K A × List NewConn} → Step ctl h x y → HasIds x.0.0 x.1 → HasIds y.0.0 y.1
  Step-HasIds (accepts {s} {t} {app} {posted} answers tasks e small) v =
      Posts-HasIds s t posted tasks _ v (handle_accept-IsKept answers s t tasks v.table e)
        (handle_accept-Posts answers s t tasks e small)
  Step-HasIds (enters {w} now l task r e) v = enters-HasIds now l task r w (subst (HasIds w.0) e v)
  Step-HasIds (arrives {w} {w'} i answers e) v =
      same-HasIds w.0 w'.0 _ v (handle_readable-IsKept ctl h i answers w w' v.table e)
  Step-HasIds (sends {w} {w'} now fd bytes answers e) v =
      same-HasIds w.0 w'.0 _ v (send_bytes-IsKept ctl h now fd bytes answers w w' v.table e)
  Step-HasIds (shuts {w} fd) v =
      same-HasIds w.0 (shut_down ctl h fd w).0 _ v (shut_down-IsKept ctl h fd w v.table)
  Step-HasIds (flushes {w} {w'} i c answers g e) v =
      same-HasIds w.0 w'.0 _ v
        (handle_writable-IsKept ctl h answers c w w' v.table (found v.table i c g) e)
  Step-HasIds (closes {w} i c g) v =
      same-HasIds w.0 (close_conn_in_loop ctl h c w).0 _ v
        (close_conn_in_loop-IsKept ctl h c w v.table (found v.table i c g))

  -- Through every run of the server in which the counter of ids does not come round, whatever the
  -- network and the application do and whenever the tasks of accepted connections run: no id is given
  -- to two connections. Each task that has been posted has an id that no other task and no object has
  -- and that the counter has passed, no object has an id that is still to be given, an object stands
  -- under its own id, and an entry of the table names an object that has this descriptor.
  pub Reach-HasIds :
      {pollers : ℕ → Poller K} {pool : LoopPool} {app : A} {w : World K A × List NewConn}
      → Reach ctl h pollers pool app w
      → HasIds w.0.0 w.1
  unfolding get
  Reach-HasIds begins = record {
    table = record {
      keyed = λ i c e. absurd (cc e);
      named = λ fd i e. absurd (cc e);
      unused = λ i u. refl;
      counter = refl;
    };
    once = λ i. omega arith;
    given = λ i le. refl;
  }
  Reach-HasIds (later r s) = Step-HasIds s (Reach-HasIds r)
