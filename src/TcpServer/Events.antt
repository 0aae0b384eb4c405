-- ===== src/TcpServer/Events.antt =====
-- The table of connections through whatever the loops do: accepted connections, bytes that arrive,
-- sends, shutdowns, writable sockets and closes, in any order.
use mathlib.Core.Option.{some-injective}
use mini_net.Prelude.{
  ℕ, ◌≡◌, ◌≢◌, refl, ap, ◌∙◌, subst, List, [], ◌∷◌, ◌++◌, Option, none, some, Bytes, get, nat_eq,
  length,
}
use mini_net.Channel.{Ctl, enable_reading}
use mini_net.TcpServer.Writing.{Conn, SendAnswer, append_and_flush, flush_write, begin}
use mini_net.TcpServer.Writing.Keeps.{flush_loop-Flushed}
use mini_net.TcpServer.Writing.Stream.{append_and_flush-Flushed}
use mini_net.TcpServer.Table.{
  IsTable, table_of, kept, IsKept, IsObject, store-IsKept, enter-IsKept, close_conn_in_loop-IsKept,
  flushed-IsKept,
}
use mini_net.TcpServer.Reading.{
  set_object, counted, retrieved, retrieve_object, received, perform, after_calls, message,
}
use mini_net.TcpServer.{
  Server, World, Output, send, shutdown, Handlers, NewConn, new_conn, add_connection, close_object,
  send_to, object_at, send_bytes, shut_down, handle_writable,
}

module _ {K : Type 0} {U : ℕ → Type 0} {n : ℕ} where
  abbrev pub found :
      {s : Server K} → IsKept U n s → (i : ℕ) (c : Conn) → get s.objects i ≡ some c → IsObject s c
  found {s} v i c e = record {
    old = c;
    here = ap (get s.objects) (v.keyed i c e) ∙ e;
    same_fd = refl;
  }

  pub set_object-IsKept :
      (s : Server K) (c : Conn) → IsKept U n s → IsObject s c → IsKept U n (set_object s c)
  set_object-IsKept s c v o =
      let stored = store-IsKept s (s.pollers c.owner_loop) c v o in
      record {
        keyed = stored.keyed;
        named = stored.named;
        unused = stored.unused;
        counter = stored.counter;
      }

  retrieve_object-IsKept :
      (k i : ℕ) (s : Server K) → IsKept U n s → IsKept U n (retrieve_object k (get s.objects i) s)
  retrieve_object-IsKept k i s v = by_object (get s.objects i) refl
    where
      by_object : (o : Option Conn) → get s.objects i ≡ o → IsKept U n (retrieve_object k o s)
      by_object none e = v
      by_object (some c) e =
          let o = found v i c e in
          set_object-IsKept s (retrieved k c) v
            (record { old = o.old; here = o.here; same_fd = o.same_fd })

module _ {K A : Type 0} {U : ℕ → Type 0} {n : ℕ} (ctl : Ctl K) (h : Handlers A) where
  close_object-IsKept :
      (i : Option ℕ) (w : World K A)
      → IsKept U n w.0
      → IsKept U n (close_object ctl h (object_at w.0 i) w).0
  close_object-IsKept none w v = v
  close_object-IsKept (some i) w v = by_object (get w.0.objects i) refl
    where
      by_object : (o : Option Conn) → get w.0.objects i ≡ o → IsKept U n (close_object ctl h o w).0
      by_object none e = v
      by_object (some c) e = close_conn_in_loop-IsKept ctl h c w v (found v i c e)

  pub shut_down-IsKept :
      (fd : ℕ) (w : World K A) → IsKept U n w.0 → IsKept U n (shut_down ctl h fd w).0
  unfolding shut_down
  shut_down-IsKept fd w v = close_object-IsKept (get w.0.conns fd) w v

  pub send_bytes-IsKept :
      (now fd : ℕ) (bytes : Bytes) (answers : List SendAnswer) (w w' : World K A)
      → IsKept U n w.0
      → send_bytes ctl h now fd bytes answers w ≡ some w'
      → IsKept U n w'.0
  unfolding send_bytes
  send_bytes-IsKept now fd bytes answers w w' v e = by_entry (get w.0.conns fd) e
    where
      by_object :
          (i : ℕ) (o : Option Conn)
          → get w.0.objects i ≡ o
          → send_to ctl h now bytes answers o w ≡ some w'
          → IsKept U n w'.0
      by_object i none g k = subst (λ (t : World K A). IsKept U n t.0) (some-injective w w' k) v
      by_object i (some c) g k =
          let o = found v i c g in
          flushed-IsKept ctl h (append_and_flush ctl now bytes answers (w.0.pollers c.owner_loop) c)
            (record c { last_active_ms = now; out = c.out ++ bytes }) (w.0.pollers c.owner_loop) w
            w' v (record { old = o.old; here = o.here; same_fd = o.same_fd })
            (λ f r. append_and_flush-Flushed ctl now bytes answers (w.0.pollers c.owner_loop) c f r)
            k

      by_entry :
          (i : Option ℕ)
          → send_to ctl h now bytes answers (object_at w.0 i) w ≡ some w'
          → IsKept U n w'.0
      by_entry none k = subst (λ (t : World K A). IsKept U n t.0) (some-injective w w' k) v
      by_entry (some i) k = by_object i (get w.0.objects i) refl k

  pub handle_writable-IsKept :
      (answers : List SendAnswer) (c : Conn) (w w' : World K A)
      → IsKept U n w.0
      → IsObject w.0 c
      → handle_writable ctl h answers c w ≡ some w'
      → IsKept U n w'.0
  unfolding handle_writable flush_write
  handle_writable-IsKept answers c w w' v o e =
      flushed-IsKept ctl h (flush_write ctl answers (w.0.pollers c.owner_loop) c) c
        (w.0.pollers c.owner_loop) w w' v o
        (λ f r. flush_loop-Flushed ctl answers (begin (w.0.pollers c.owner_loop) c) f r) e

  pub add_connection-IsKept :
      (V : ℕ → Type 0) (now : ℕ) (task : NewConn) (w : World K A)
      → IsKept U n w.0
      → U task.conn_id
      → ((i : ℕ) → V i → U i × (task.conn_id ≢ i))
      → IsKept V n (add_connection ctl h now task w).0
  unfolding add_connection
  add_connection-IsKept V now task w v u left =
      let c = new_conn task.cfd task.conn_id task.io_loop now in
      let entered = enable_reading ctl (w.0.pollers task.io_loop) c.channel in
      enter-IsKept V w.0 task.cfd (record c { channel = entered.1 }) entered.0 _ v u left refl

  pub perform-IsKept :
      (now fd : ℕ) (outputs : List Output) (answers : List (List SendAnswer)) (w w' : World K A)
      → IsKept U n w.0
      → perform ctl h now fd outputs answers w ≡ some w'
      → IsKept U n w'.0
  unfolding perform
  perform-IsKept now fd [] answers w w' v e =
      subst (λ (t : World K A). IsKept U n t.0) (some-injective w w' e) v
  perform-IsKept now fd (shutdown ∷ outputs) answers w w' v e =
      perform-IsKept now fd outputs answers (shut_down ctl h fd w) w' (shut_down-IsKept fd w v) e
  perform-IsKept now fd (send bytes ∷ outputs) [] w w' v e = absurd (cc)
  perform-IsKept now fd (send bytes ∷ outputs) (a ∷ answers) w w' v e =
      by_sent (send_bytes ctl h now fd bytes a w) refl e (perform-IsKept now fd outputs answers)
    where
      by_sent :
          (o : Option (World K A))
          → send_bytes ctl h now fd bytes a w ≡ o
          → elim o [ none ↦ none | some u ↦ perform ctl h now fd outputs answers u ] ≡ some w'
          → ((u u' : World K A)
              → IsKept U n u.0
              → perform ctl h now fd outputs answers u ≡ some u'
              → IsKept U n u'.0)
          → IsKept U n w'.0
      by_sent none g k rest = absurd (cc)
      by_sent (some u) g k rest = rest u w' (send_bytes-IsKept now fd bytes a w u v g) k

  after_calls-IsKept :
      (i k : ℕ) (o : Option (World K A)) (w' : World K A)
      → ((u : World K A) → o ≡ some u → IsKept U n u.0)
      → after_calls i k o ≡ some w'
      → IsKept U n w'.0
  after_calls-IsKept i k none w' r e = absurd (cc)
  after_calls-IsKept i k (some u) w' r e =
      subst (λ (t : World K A). IsKept U n t.0) (some-injective _ w' e)
        (retrieve_object-IsKept k i u.0 (r u refl))

  pub message-IsKept :
      (bytes : Bytes) (now : ℕ) (answers : List (List SendAnswer)) (c : Conn) (w w' : World K A)
      → IsKept U n w.0
      → IsObject w.0 c
      → message ctl h bytes now answers c w ≡ some w'
      → IsKept U n w'.0
  message-IsKept bytes now answers c w w' v o e =
      let s : Server K = counted (length bytes) w.0 in
      let table : IsKept U n s = record {
        keyed = v.keyed;
        named = v.named;
        unused = v.unused;
        counter = v.counter;
      } in
      let set =
        set_object-IsKept s (received bytes now c) table
          (record { old = o.old; here = o.here; same_fd = o.same_fd }) in
      after_calls-IsKept c.id (length bytes) _ w'
        (λ u g.
          perform-IsKept now c.fd _ answers _ u
            (record {
              keyed = set.keyed;
              named = set.named;
              unused = set.unused;
              counter = set.counter;
            })
            g)
        e

-- The same where nothing is said of the ids.
module _ {K : Type 0} where
  abbrev pub found_object :
      {s : Server K} → IsTable s → (i : ℕ) (c : Conn) → get s.objects i ≡ some c → IsObject s c
  found_object v i c e = found (kept v) i c e

  pub set_object-IsTable :
      (s : Server K) (c : Conn) → IsTable s → IsObject s c → IsTable (set_object s c)
  set_object-IsTable s c v o = table_of (set_object-IsKept s c (kept v) o)

module _ {K A : Type 0} (ctl : Ctl K) (h : Handlers A) where
  pub shut_down-IsTable : (fd : ℕ) (w : World K A) → IsTable w.0 → IsTable (shut_down ctl h fd w).0
  shut_down-IsTable fd w v = table_of (shut_down-IsKept ctl h fd w (kept v))

  pub send_bytes-IsTable :
      (now fd : ℕ) (bytes : Bytes) (answers : List SendAnswer) (w w' : World K A)
      → IsTable w.0
      → send_bytes ctl h now fd bytes answers w ≡ some w'
      → IsTable w'.0
  send_bytes-IsTable now fd bytes answers w w' v e =
      table_of (send_bytes-IsKept ctl h now fd bytes answers w w' (kept v) e)

  pub perform-IsTable :
      (now fd : ℕ) (outputs : List Output) (answers : List (List SendAnswer)) (w w' : World K A)
      → IsTable w.0
      → perform ctl h now fd outputs answers w ≡ some w'
      → IsTable w'.0
  perform-IsTable now fd outputs answers w w' v e =
      table_of (perform-IsKept ctl h now fd outputs answers w w' (kept v) e)

  pub message-IsTable :
      (bytes : Bytes) (now : ℕ) (answers : List (List SendAnswer)) (c : Conn) (w w' : World K A)
      → IsTable w.0
      → IsObject w.0 c
      → message ctl h bytes now answers c w ≡ some w'
      → IsTable w'.0
  message-IsTable bytes now answers c w w' v o e =
      table_of (message-IsKept ctl h bytes now answers c w w' (kept v) o e)
