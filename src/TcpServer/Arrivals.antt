-- ===== src/TcpServer/Arrivals.antt =====
-- The table of connections through an accept and through a read.
use mathlib.Core.Option.{some-injective}
use mini_net.Prelude.{
  ℕ, ◌≡◌, inl, inr, refl, subst, List, [], ◌∷◌, Option, none, some, if◌then◌else◌, Bool-cases, get,
  nat_eq,
}
use mini_net.Channel.{Ctl}
use mini_net.TcpServer.Writing.{Conn, is_empty}
use mini_net.TcpServer.Table.{IsKept, close_conn_in_loop-IsKept}
use mini_net.TcpServer.Reading.{
  ReadAnswer, got, nothing_yet, read_interrupted, read_broken, message, handle_readable,
}
use mini_net.TcpServer.Events.{found, message-IsKept}
use mini_net.TcpServer.{
  Server, World, Handlers, NewConn, Accepted, accepted, accept_again, accept_interrupted,
  accept_failed, handle_accept, close_conn_in_loop,
}

module _ {K : Type 0} where
  abbrev adds : NewConn → Option (List NewConn × Server K) → Option (List NewConn × Server K)
  adds task o = elim o [ none ↦ none | some (tasks, t) ↦ some (task ∷ tasks, t) ]

module _ {K : Type 0} {U : ℕ → Type 0} where
  -- Accepting only hands out tasks.
  pub handle_accept-IsKept :
      (answers : List Accepted) (s t : Server K) (tasks : List NewConn)
      → IsKept U s.next_conn_id s
      → handle_accept answers s ≡ some (tasks, t)
      → IsKept U t.next_conn_id t
  unfolding handle_accept
  handle_accept-IsKept [] s t tasks v e = absurd (cc)
  handle_accept-IsKept (accept_again ∷ answers) s t tasks v e =
      subst (λ (p : List NewConn × Server K). IsKept U p.1.next_conn_id p.1)
        (some-injective _ (tasks, t) e) v
  handle_accept-IsKept (accept_failed ∷ answers) s t tasks v e =
      subst (λ (p : List NewConn × Server K). IsKept U p.1.next_conn_id p.1)
        (some-injective _ (tasks, t) e) v
  handle_accept-IsKept (accept_interrupted ∷ answers) s t tasks v e =
      handle_accept-IsKept answers s t tasks v e
  handle_accept-IsKept (accepted fd ∷ answers) s t tasks v e =
      after _ (handle_accept answers _)
        (λ q k.
          handle_accept-IsKept answers _ q.1 q.0
            (record { keyed = v.keyed; named = v.named; unused = v.unused; counter = refl }) k)
        e
    where
      after :
          (task : NewConn) (o : Option (List NewConn × Server K))
          → ((q : List NewConn × Server K) → o ≡ some q → IsKept U q.1.next_conn_id q.1)
          → adds task o ≡ some (tasks, t)
          → IsKept U t.next_conn_id t
      after task none r k = absurd (cc)
      after task (some q) r k =
          subst (λ (p : List NewConn × Server K). IsKept U p.1.next_conn_id p.1)
            (some-injective _ (tasks, t) k) (r q refl)

module _ {K A : Type 0} {U : ℕ → Type 0} {n : ℕ} (ctl : Ctl K) (h : Handlers A) where
  pub handle_readable-IsKept :
      (i : ℕ) (reads : List ReadAnswer) (w w' : World K A)
      → IsKept U n w.0
      → handle_readable ctl h i reads w ≡ some w'
      → IsKept U n w'.0
  unfolding handle_readable
  handle_readable-IsKept i [] w w' v e = absurd (cc)
  handle_readable-IsKept i (nothing_yet ∷ reads) w w' v e =
      subst (λ (t : World K A). IsKept U n t.0) (some-injective w w' e) v
  handle_readable-IsKept i (read_interrupted ∷ reads) w w' v e =
      handle_readable-IsKept i reads w w' v e
  handle_readable-IsKept i (read_broken ∷ reads) w w' v e = by_object (get w.0.objects i) refl e
    where
      by_object :
          (o : Option Conn)
          → get w.0.objects i ≡ o
          → elim o [ none ↦ some w | some c ↦ some (close_conn_in_loop ctl h c w) ] ≡ some w'
          → IsKept U n w'.0
      by_object none g k = subst (λ (t : World K A). IsKept U n t.0) (some-injective w w' k) v
      by_object (some c) g k =
          subst (λ (t : World K A). IsKept U n t.0) (some-injective _ w' k)
            (close_conn_in_loop-IsKept ctl h c w v (found v i c g))
  handle_readable-IsKept i (got bytes now answers ∷ reads) w w' v e =
      by_object (get w.0.objects i) refl (handle_readable-IsKept i reads) e
    where
      after :
          (o : Option (World K A))
          → ((u : World K A) → o ≡ some u → IsKept U n u.0)
          → ((u u' : World K A)
              → IsKept U n u.0
              → handle_readable ctl h i reads u ≡ some u'
              → IsKept U n u'.0)
          → elim o [ none ↦ none | some u ↦ handle_readable ctl h i reads u ] ≡ some w'
          → IsKept U n w'.0
      after none r rest k = absurd (cc)
      after (some u) r rest k = rest u w' (r u refl) k

      by_object :
          (o : Option Conn)
          → get w.0.objects i ≡ o
          → ((u u' : World K A)
              → IsKept U n u.0
              → handle_readable ctl h i reads u ≡ some u'
              → IsKept U n u'.0)
          → elim o [
            | none ↦ some w
            | some c ↦
                if is_empty bytes
                then some (close_conn_in_loop ctl h c w)
                else elim (message ctl h bytes now answers c w) [
                  | none ↦ none
                  | some u ↦ handle_readable ctl h i reads u
                ]
          ]
            ≡ some w'
          → IsKept U n w'.0
      by_object none g rest k = subst (λ (t : World K A). IsKept U n t.0) (some-injective w w' k) v
      by_object (some c) g rest k = elim (Bool-cases (is_empty bytes)) [
        | inl ends ↦
            subst (λ (t : World K A). IsKept U n t.0) (some-injective _ w' (rw ends at k))
              (close_conn_in_loop-IsKept ctl h c w v (found v i c g))
        | inr more ↦
            after (message ctl h bytes now answers c w)
              (λ u r. message-IsKept ctl h bytes now answers c w u v (found v i c g) r) rest
              (rw more at k)
      ]
