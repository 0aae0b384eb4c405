-- ===== src/TcpServer/Held.antt =====
-- What the application keeps true of its own state in its callbacks is true in every run.
use mathlib.Core.Option.{some-injective}
use mini_net.Prelude.{
  ℕ, ◌≡◌, inl, inr, refl, subst, Bool, true, false, List, [], ◌∷◌, Option, none, some, Bytes,
  if◌then◌else◌, Bool-cases, get, length, nat_eq,
}
use mini_net.Buffer.{peek}
use mini_net.Channel.{Ctl, Poller}
use mini_net.EventLoopThreadPool.{LoopPool}
use mini_net.TcpServer.Writing.{Conn, SendAnswer, Flush, append_and_flush, flush_write, is_empty}
use mini_net.TcpServer.Reading.{
  ReadAnswer, got, nothing_yet, read_interrupted, read_broken, set_object, counted, received,
  perform, after_calls, message, handle_readable,
}
use mini_net.TcpServer.Runs.{
  Step, accepts, enters, arrives, sends, shuts, flushes, closes, Reach, begins, later,
}
use mini_net.TcpServer.{
  World, NewConn, Output, send, shutdown, Handlers, store, add_connection, close_at,
  close_conn_in_loop, close_object, flushed, send_to, object_at, send_bytes, shut_down,
  handle_writable,
}

-- Both callbacks keep `I`.
pub record Holds {A : Type 0} (h : Handlers A) (I : A → Type 0) : Type 0 where
  pub message : (a : A) (fd id : ℕ) (bytes : Bytes) → I a → I (h.on_message a fd id bytes).0
  pub connection :
      (a : A) (fd id : ℕ) (connected : Bool) → I a → I (h.on_connection a fd id connected)

module _ {K A : Type 0} (ctl : Ctl K) (h : Handlers A) (I : A → Type 0) (k : Holds h I) where
  after_closing : (c : Conn) (w : World K A) → I w.1 → I (close_conn_in_loop ctl h c w).1
  unfolding close_conn_in_loop
  after_closing c w i = by_entry (get w.0.conns c.fd)
    where
      by_entry : (e : Option ℕ) → I (close_at ctl h c e w).1
      by_entry none = i
      by_entry (some id) = k.connection w.1 c.fd c.id false i

  after_object : (o : Option Conn) (w : World K A) → I w.1 → I (close_object ctl h o w).1
  after_object none w i = i
  after_object (some c) w i = after_closing c w i

  after_shutdown : (fd : ℕ) (w : World K A) → I w.1 → I (shut_down ctl h fd w).1
  unfolding shut_down
  after_shutdown fd w i = after_object (object_at w.0 (get w.0.conns fd)) w i

  after_flush :
      (o : Option (Flush K)) (w w' : World K A) → I w.1 → flushed ctl h o w ≡ some w' → I w'.1
  after_flush none w w' i e = absurd (cc)
  after_flush (some f) w w' i e =
      subst (λ (t : World K A). I t.1) (some-injective _ w' e)
        (elim (Bool-cases f.failed) [
          | inl bad ↦ rw bad (after_closing f.conn (store w.0 f.poller f.conn, w.1) i)
          | inr good ↦ rw good i
        ])

  after_send :
      (now fd : ℕ) (bytes : Bytes) (answers : List SendAnswer) (w w' : World K A)
      → I w.1
      → send_bytes ctl h now fd bytes answers w ≡ some w'
      → I w'.1
  unfolding send_bytes
  after_send now fd bytes answers w w' i e = by_object (object_at w.0 (get w.0.conns fd)) e
    where
      by_object : (o : Option Conn) → send_to ctl h now bytes answers o w ≡ some w' → I w'.1
      by_object none g = subst (λ (t : World K A). I t.1) (some-injective w w' g) i
      by_object (some c) g =
          after_flush (append_and_flush ctl now bytes answers (w.0.pollers c.owner_loop) c) w w' i g

  after_outputs :
      (now fd : ℕ) (outputs : List Output) (answers : List (List SendAnswer)) (w w' : World K A)
      → I w.1
      → perform ctl h now fd outputs answers w ≡ some w'
      → I w'.1
  unfolding perform
  after_outputs now fd [] answers w w' i e =
      subst (λ (t : World K A). I t.1) (some-injective w w' e) i
  after_outputs now fd (shutdown ∷ outputs) answers w w' i e =
      after_outputs now fd outputs answers (shut_down ctl h fd w) w' (after_shutdown fd w i) e
  after_outputs now fd (send bytes ∷ outputs) [] w w' i e = absurd (cc)
  after_outputs now fd (send bytes ∷ outputs) (a ∷ answers) w w' i e =
      by_sent (send_bytes ctl h now fd bytes a w) refl e (after_outputs now fd outputs answers)
    where
      by_sent :
          (o : Option (World K A))
          → send_bytes ctl h now fd bytes a w ≡ o
          → elim o [ none ↦ none | some u ↦ perform ctl h now fd outputs answers u ] ≡ some w'
          → ((u u' : World K A) → I u.1 → perform ctl h now fd outputs answers u ≡ some u' → I u'.1)
          → I w'.1
      by_sent none g e rest = absurd (cc)
      by_sent (some u) g e rest = rest u w' (after_send now fd bytes a w u i g) e

  after_arrival :
      (bytes : Bytes) (now : ℕ) (answers : List (List SendAnswer)) (c : Conn) (w w' : World K A)
      → I w.1
      → message ctl h bytes now answers c w ≡ some w'
      → I w'.1
  after_arrival bytes now answers c w w' i e =
      let c' = received bytes now c in
      let told = h.on_message w.1 c.fd c.id (peek c'.input (length bytes)) in
      let start : World K A = (set_object (counted (length bytes) w.0) c', told.0) in
      by_done (perform ctl h now c.fd told.1 answers start)
        (λ u g. after_outputs now c.fd told.1 answers start u (k.message w.1 c.fd c.id _ i) g) e
    where
      by_done :
          (o : Option (World K A))
          → ((u : World K A) → o ≡ some u → I u.1)
          → after_calls c.id (length bytes) o ≡ some w'
          → I w'.1
      by_done none r g = absurd (cc)
      by_done (some u) r g = subst (λ (t : World K A). I t.1) (some-injective _ w' g) (r u refl)

  after_reading :
      (j : ℕ) (reads : List ReadAnswer) (w w' : World K A)
      → I w.1
      → handle_readable ctl h j reads w ≡ some w'
      → I w'.1
  unfolding handle_readable
  after_reading j [] w w' i e = absurd (cc)
  after_reading j (nothing_yet ∷ reads) w w' i e =
      subst (λ (t : World K A). I t.1) (some-injective w w' e) i
  after_reading j (read_interrupted ∷ reads) w w' i e = after_reading j reads w w' i e
  after_reading j (read_broken ∷ reads) w w' i e = by_object (get w.0.objects j) e
    where
      by_object :
          (o : Option Conn)
          → elim o [ none ↦ some w | some c ↦ some (close_conn_in_loop ctl h c w) ] ≡ some w'
          → I w'.1
      by_object none g = subst (λ (t : World K A). I t.1) (some-injective w w' g) i
      by_object (some c) g =
          subst (λ (t : World K A). I t.1) (some-injective _ w' g) (after_closing c w i)
  after_reading j (got bytes now answers ∷ reads) w w' i e =
      by_object (get w.0.objects j) e (after_reading j reads)
    where
      goes_on :
          (o : Option (World K A))
          → ((u : World K A) → o ≡ some u → I u.1)
          → ((u u' : World K A) → I u.1 → handle_readable ctl h j reads u ≡ some u' → I u'.1)
          → elim o [ none ↦ none | some u ↦ handle_readable ctl h j reads u ] ≡ some w'
          → I w'.1
      goes_on none r rest g = absurd (cc)
      goes_on (some u) r rest g = rest u w' (r u refl) g

      by_object :
          (o : Option Conn)
          → elim o [
            | none ↦ some w
            | some c ↦
                if is_empty bytes
                then some (close_conn_in_loop ctl h c w)
                else elim (message ctl h bytes now answers c w) [
                  | none ↦ none
                  | some u ↦ handle_readable ctl h j reads u
                ]
          ]
            ≡ some w'
          → ((u u' : World K A) → I u.1 → handle_readable ctl h j reads u ≡ some u' → I u'.1)
          → I w'.1
      by_object none g rest = subst (λ (t : World K A). I t.1) (some-injective w w' g) i
      by_object (some c) g rest = elim (Bool-cases (is_empty bytes)) [
        | inl ends ↦
            subst (λ (t : World K A). I t.1) (some-injective _ w' (rw ends at g))
              (after_closing c w i)
        | inr more ↦
            goes_on (message ctl h bytes now answers c w)
              (λ u r. after_arrival bytes now answers c w u i r) rest (rw more at g)
      ]

  after_step : {x y : World K A × List NewConn} → Step ctl h x y → I x.0.1 → I y.0.1
  unfolding add_connection handle_writable
  after_step (accepts answers tasks e small) i = i
  after_step (enters {w} now l task r e) i = k.connection w.1 task.cfd task.conn_id true i
  after_step (arrives {w} {w'} j answers e) i = after_reading j answers w w' i e
  after_step (sends {w} {w'} now fd bytes answers e) i = after_send now fd bytes answers w w' i e
  after_step (shuts {w} fd) i = after_shutdown fd w i
  after_step (flushes {w} {w'} j c answers g e) i =
      after_flush (flush_write ctl answers (w.0.pollers c.owner_loop) c) w w' i e
  after_step (closes {w} j c g) i = after_closing c w i

  -- In every run the application's state keeps what its callbacks keep.
  pub Reach-Holds :
      {pollers : ℕ → Poller K} {pool : LoopPool} {app : A} {w : World K A × List NewConn}
      → I app
      → Reach ctl h pollers pool app w
      → I w.0.1
  Reach-Holds i begins = i
  Reach-Holds i (later r s) = after_step s (Reach-Holds i r)
