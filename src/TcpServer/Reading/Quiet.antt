-- ===== src/TcpServer/Reading/Quiet.antt =====
-- What the calls of a message callback leave as it was: the bytes that connections have received.
use mathlib.Core.Option.{some-injective}
use mini_net.Prelude.{
  ℕ, ◌≡◌, inl, inr, refl, sym, ap, ◌∙◌, subst, List, [], ◌∷◌, ◌++◌, Option, none, some, Bytes,
  Bool-cases, ◌==◌, ==_iff, get, get-insert, nat_eq,
}
use mini_net.Channel.{Ctl, Poller, disable_all}
use mini_net.TcpServer.Writing.{Conn, SendAnswer, Flush, append_and_flush, begin}
use mini_net.TcpServer.Writing.Keeps.{Flushed}
use mini_net.TcpServer.Writing.Stream.{append_and_flush-Flushed}
use mini_net.TcpServer.Table.{IsTable}
use mini_net.TcpServer.Events.{shut_down-IsTable, send_bytes-IsTable}
use mini_net.TcpServer.Reading.{perform}
use mini_net.TcpServer.{
  Server, World, Output, send, shutdown, Handlers, store, close_at, close_conn_in_loop,
  close_object, flushed, send_to, object_at, send_bytes, shut_down,
}

-- An application that also keeps the messages that it gets, with the connections' ids.
abbrev pub Logged : Type 0 → Type 0
Logged A = A × List (ℕ × Bytes)

abbrev pub log_message :
    {A : Type 0} → Logged A → ℕ → Bytes → A × List Output → Logged A × List Output
log_message (a, log) id bytes (a', outputs) = ((a', log ++ (id, bytes) ∷ []), outputs)

abbrev pub logged : {A : Type 0} → Handlers A → Handlers (Logged A)
logged h = record {
  on_message = λ app fd id bytes. log_message app id bytes (h.on_message app.0 fd id bytes);
  on_connection = λ app fd id connected. (h.on_connection app.0 fd id connected, app.1);
}

-- Every object is still there, with the same unread bytes.
abbrev pub Same : {K : Type 0} → Server K → Server K → Type 0
Same s t =
    (j : ℕ) (c : Conn)
    → get s.objects j ≡ some c
    → (d : Conn) × (get t.objects j ≡ some d) × (d.input ≡ c.input)

pub record Quiet {K A : Type 0} (w w' : World K (Logged A)) : Type 0 where
  pub log : w'.1.1 ≡ w.1.1
  pub same : Same w.0 w'.0

-- A newer state of an object of the server, with the same unread bytes.
pub record IsCurrent {K : Type 0} (s : Server K) (c : Conn) : Type 0 where
  pub old : Conn
  pub here : get s.objects c.id ≡ some old
  pub same_input : c.input ≡ old.input

module _ {K : Type 0} where
  store-Same : (s : Server K) (p : Poller K) (c : Conn) → IsCurrent s c → Same s (store s p c)
  store-Same s p c o j d e = elim (Bool-cases (c.id == j)) [
    | inl t ↦
        let same : o.old ≡ d =
          some-injective o.old d (sym o.here ∙ ap (get s.objects) ((==_iff _ _).0 t) ∙ e) in
        (c, get-insert s.objects c.id j c ∙ rw t, o.same_input ∙ ap (λ (x : Conn). x.input) same)
    | inr t ↦ (d, get-insert s.objects c.id j c ∙ rw t e, refl)
  ]

  stored-IsCurrent : (s : Server K) (p : Poller K) (c : Conn) → IsCurrent (store s p c) c
  stored-IsCurrent s p c = record {
    old = c;
    here = get-insert s.objects c.id c.id c ∙ rw ((==_iff c.id c.id).1 refl);
    same_input = refl;
  }

  pub current :
      {s : Server K} → IsTable s → (i : ℕ) (c : Conn) → get s.objects i ≡ some c → IsCurrent s c
  current {s} v i c e = record {
    old = c;
    here = ap (get s.objects) (v.keyed i c e) ∙ e;
    same_input = refl;
  }

  Same-trans : (s t u : Server K) → Same s t → Same t u → Same s u
  Same-trans s t u a b j c e =
      let (d, g, i) = a j c e in let (d', g', i') = b j d g in (d', g', i' ∙ i)

module _ {K A : Type 0} where
  Quiet-refl : (w : World K (Logged A)) → Quiet w w
  Quiet-refl w = record { log = refl; same = λ j c e. (c, e, refl) }

  Quiet-trans : {w u x : World K (Logged A)} → Quiet w u → Quiet u x → Quiet w x
  Quiet-trans {w} {u} {x} a b = record {
    log = b.log ∙ a.log;
    same = Same-trans w.0 u.0 x.0 a.same b.same;
  }

module _ {K A : Type 0} (ctl : Ctl K) (h : Handlers A) where
  pub close_conn_in_loop-Quiet :
      (c : Conn) (w : World K (Logged A))
      → IsCurrent w.0 c
      → Quiet w (close_conn_in_loop ctl (logged h) c w)
  unfolding close_conn_in_loop
  close_conn_in_loop-Quiet c w o = by_entry (get w.0.conns c.fd)
    where
      by_entry : (e : Option ℕ) → Quiet w (close_at ctl (logged h) c e w)
      by_entry none = Quiet-refl w
      by_entry (some id) = record {
        log = refl;
        same =
            store-Same w.0 (disable_all ctl (w.0.pollers c.owner_loop) c.channel).0
              (record c { channel = (disable_all ctl (w.0.pollers c.owner_loop) c.channel).1 })
              (record { old = o.old; here = o.here; same_input = o.same_input });
      }

  flushed-Quiet :
      (o : Option (Flush K)) (c : Conn) (p : Poller K) (w w' : World K (Logged A))
      → IsCurrent w.0 c
      → ((f : Flush K) → o ≡ some f → Flushed (begin p c) f)
      → flushed ctl (logged h) o w ≡ some w'
      → Quiet w w'
  flushed-Quiet none c p w w' b r e = absurd (cc)
  flushed-Quiet (some f) c p w w' b r e =
      let (fd, id, input) = (r f refl).same_conn in
      let fits : IsCurrent w.0 f.conn = record {
        old = b.old;
        here = ap (get w.0.objects) id ∙ b.here;
        same_input = input ∙ b.same_input;
      } in
      let stored : Quiet w (store w.0 f.poller f.conn, w.1) = record {
        log = refl;
        same = store-Same w.0 f.poller f.conn fits;
      } in
      subst (Quiet w) (some-injective _ w' e) (elim (Bool-cases f.failed) [
        | inl bad ↦ rw bad (
            Quiet-trans stored (
              close_conn_in_loop-Quiet f.conn (store w.0 f.poller f.conn, w.1)
                (stored-IsCurrent w.0 f.poller f.conn)))
        | inr good ↦ rw good stored
      ])

  shut_down-Quiet :
      (fd : ℕ) (w : World K (Logged A)) → IsTable w.0 → Quiet w (shut_down ctl (logged h) fd w)
  unfolding shut_down
  shut_down-Quiet fd w v = by_entry (get w.0.conns fd)
    where
      by_object :
          (i : ℕ) (o : Option Conn)
          → get w.0.objects i ≡ o
          → Quiet w (close_object ctl (logged h) o w)
      by_object i none e = Quiet-refl w
      by_object i (some c) e = close_conn_in_loop-Quiet c w (current v i c e)

      by_entry : (i : Option ℕ) → Quiet w (close_object ctl (logged h) (object_at w.0 i) w)
      by_entry none = Quiet-refl w
      by_entry (some i) = by_object i (get w.0.objects i) refl

  send_bytes-Quiet :
      (now fd : ℕ) (bytes : Bytes) (answers : List SendAnswer) (w w' : World K (Logged A))
      → IsTable w.0
      → send_bytes ctl (logged h) now fd bytes answers w ≡ some w'
      → Quiet w w'
  unfolding send_bytes
  send_bytes-Quiet now fd bytes answers w w' v e = by_entry (get w.0.conns fd) e
    where
      by_object :
          (i : ℕ) (o : Option Conn)
          → get w.0.objects i ≡ o
          → send_to ctl (logged h) now bytes answers o w ≡ some w'
          → Quiet w w'
      by_object i none g k = subst (Quiet w) (some-injective w w' k) (Quiet-refl w)
      by_object i (some c) g k =
          let o = current v i c g in
          flushed-Quiet (append_and_flush ctl now bytes answers (w.0.pollers c.owner_loop) c)
            (record c { last_active_ms = now; out = c.out ++ bytes }) (w.0.pollers c.owner_loop) w
            w' (record { old = o.old; here = o.here; same_input = o.same_input })
            (λ f r. append_and_flush-Flushed ctl now bytes answers (w.0.pollers c.owner_loop) c f r)
            k

      by_entry :
          (i : Option ℕ)
          → send_to ctl (logged h) now bytes answers (object_at w.0 i) w ≡ some w'
          → Quiet w w'
      by_entry none k = subst (Quiet w) (some-injective w w' k) (Quiet-refl w)
      by_entry (some i) k = by_object i (get w.0.objects i) refl k

  -- The calls of a callback bring no message about and touch no unread bytes.
  pub perform-Quiet :
      (now fd : ℕ) (outputs : List Output) (answers : List (List SendAnswer))
      (w w' : World K (Logged A))
      → IsTable w.0
      → perform ctl (logged h) now fd outputs answers w ≡ some w'
      → Quiet w w'
  unfolding perform
  perform-Quiet now fd [] answers w w' v e = subst (Quiet w) (some-injective w w' e) (Quiet-refl w)
  perform-Quiet now fd (shutdown ∷ outputs) answers w w' v e =
      Quiet-trans (shut_down-Quiet fd w v) (
        perform-Quiet now fd outputs answers (shut_down ctl (logged h) fd w) w'
          (shut_down-IsTable ctl (logged h) fd w v) e)
  perform-Quiet now fd (send bytes ∷ outputs) [] w w' v e = absurd (cc)
  perform-Quiet now fd (send bytes ∷ outputs) (a ∷ answers) w w' v e =
      by_sent (send_bytes ctl (logged h) now fd bytes a w) refl e
        (perform-Quiet now fd outputs answers)
    where
      by_sent :
          (o : Option (World K (Logged A)))
          → send_bytes ctl (logged h) now fd bytes a w ≡ o
          → elim o [ none ↦ none | some u ↦ perform ctl (logged h) now fd outputs answers u ]
            ≡ some w'
          → ((u u' : World K (Logged A))
              → IsTable u.0
              → perform ctl (logged h) now fd outputs answers u ≡ some u'
              → Quiet u u')
          → Quiet w w'
      by_sent none g k rest = absurd (cc)
      by_sent (some u) g k rest =
          Quiet-trans (send_bytes-Quiet now fd bytes a w u v g)
            (rest u w' (send_bytes-IsTable ctl (logged h) now fd bytes a w u v g) k)
