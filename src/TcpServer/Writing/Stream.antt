-- ===== src/TcpServer/Writing/Stream.antt =====
-- The life of a write buffer: what the peer gets is what was sent, in order.
use mathlib.Core.Option.{some-injective}
use mini_net.Prelude.{
  ℕ, ◌<◌, ◌≡◌, refl, sym, ap, ◌∙◌, subst, Bool, true, false, List, [], ◌∷◌, ◌++◌, append_assoc,
  append-nil, Option, none, some, Bytes, if◌then◌else◌, length, inl, inr, Bool-cases, arith,
}
use mini_net.Channel.{Ctl, Poller}
use mini_net.TcpServer.Writing.{
  Conn, SendAnswer, Flush, begin, flush_write, append_and_flush, flush_loop,
}
use mini_net.TcpServer.Writing.Keeps.{Agrees, Flushed, flush_loop-Flushed}

-- A call of send, or a report of EPOLLOUT, each with what ::send answers.
pub data WriteOp : Type 0 where
  sends : ℕ → Bytes → List SendAnswer → WriteOp
  writable : List SendAnswer → WriteOp

abbrev pub sent : List WriteOp → Bytes
sent [] = []
sent (sends now bytes answers ∷ ops) = bytes ++ sent ops
sent (writable answers ∷ ops) = sent ops

abbrev pub bytes_of : WriteOp → Bytes
bytes_of (sends now bytes answers) = bytes
bytes_of (writable answers) = []

module _ {K : Type 0} where
  -- The next operation starts where the last one ended; `wire` grows.
  abbrev pub onto : Bytes → Option (Flush K) → Option (Flush K)
  onto wire none = none
  onto wire (some g) = some (record g { wire = wire ++ g.wire })

module _ {K : Type 0} (ctl : Ctl K) where
  abbrev pub write_op : WriteOp → Flush K → Option (Flush K)
  write_op (sends now bytes answers) f =
      onto f.wire (append_and_flush ctl now bytes answers f.poller f.conn)
  write_op (writable answers) f = onto f.wire (flush_write ctl answers f.poller f.conn)

  -- Until the connection fails.
  abbrev pub run_writes : List WriteOp → Flush K → Option (Flush K)
  run_writes [] f = some f
  run_writes (op ∷ ops) f =
      let rest : Option (Flush K) = elim (write_op op f) [
        | none ↦ none
        | some g ↦ run_writes ops g
      ] in
      if f.failed then some f else rest

  -- One operation: nothing is lost, and what is left waits.
  record Written (f : Flush K) (bytes : Bytes) (g : Flush K) : Type 0 where
    stream : g.wire ++ g.conn.out ≡ f.wire ++ (f.conn.out ++ bytes)
    agrees : Agrees f.conn → Agrees g.conn
    settled : g.failed ≡ false → g.conn.writing ≡ false → g.conn.out ≡ []

  Flushed-Written :
      (f : Flush K) (bytes : Bytes) (c : Conn) (g : Flush K)
      → c.out ≡ f.conn.out ++ bytes
      → (Agrees f.conn → Agrees c)
      → Flushed (begin f.poller c) g
      → Written f bytes (record g { wire = f.wire ++ g.wire })
  Flushed-Written f bytes c g e a r = record {
    stream = append_assoc f.wire g.wire g.conn.out ∙ ap (λ s. f.wire ++ s) (r.stream ∙ e);
    agrees = λ h. r.agrees (a h);
    settled = r.settled;
  }

  onto-Written :
      (f : Flush K) (bytes : Bytes) (c : Conn) (g : Flush K) (o : Option (Flush K))
      → c.out ≡ f.conn.out ++ bytes
      → (Agrees f.conn → Agrees c)
      → ((h : Flush K) → o ≡ some h → Flushed (begin f.poller c) h)
      → onto f.wire o ≡ some g
      → Written f bytes g
  onto-Written f bytes c g none e a r k = absurd (cc)
  onto-Written f bytes c g (some h) e a r k =
      subst (Written f bytes) (some-injective _ g k) (Flushed-Written f bytes c h e a (r h refl))

  pub append_and_flush-Flushed :
      (now : ℕ) (bytes : Bytes) (answers : List SendAnswer) (p : Poller K) (c : Conn) (g : Flush K)
      → append_and_flush ctl now bytes answers p c ≡ some g
      → Flushed (begin p (record c { last_active_ms = now; out = c.out ++ bytes })) g
  unfolding append_and_flush flush_write
  append_and_flush-Flushed now bytes answers p c g e =
      let c' = record c { last_active_ms = now; out = c.out ++ bytes } in
      let choose =
        λ (b : Bool). if b then some (begin p c') else flush_loop ctl answers (begin p c') in
      elim (Bool-cases c.writing) [
        | inl waits ↦
            subst (Flushed (begin p c')) (some-injective (begin p c') g (ap choose (sym waits) ∙ e))
              (record {
                stream = refl;
                agrees = λ a. a;
                settled = λ h w. absurd (cc (waits, w));
                same_conn = (refl, refl, refl);
              })
        | inr idle ↦ flush_loop-Flushed ctl answers (begin p c') g (ap choose (sym idle) ∙ e)
      ]

  write_op-Written :
      (op : WriteOp) (f g : Flush K) → write_op op f ≡ some g → Written f (bytes_of op) g
  write_op-Written (sends now bytes answers) f g e =
      onto-Written f bytes (record f.conn { last_active_ms = now; out = f.conn.out ++ bytes }) g _
        refl (λ a. record { flag = a.flag; mask = a.mask })
        (λ h k. append_and_flush-Flushed now bytes answers f.poller f.conn h k) e
  write_op-Written (writable answers) f g e =
      onto-Written f [] f.conn g (flush_write ctl answers f.poller f.conn)
        (sym (append-nil f.conn.out)) (λ a. a)
        (λ h k. flush_loop-Flushed ctl answers (begin f.poller f.conn) h (unfold flush_write in k))
        e

  -- A connection that has lost nothing so far.
  pub record Streams (all : Bytes) (g : Flush K) : Type 0 where
    pub waits : Bytes
    pub prefix : g.wire ++ waits ≡ all
    pub exact : g.failed ≡ false → waits ≡ g.conn.out
    pub asks : g.failed ≡ false → 0 < length g.conn.out → g.conn.channel.events.epollout ≡ true

  settled_asks :
      (g : Flush K)
      → Agrees g.conn
      → (g.conn.writing ≡ false → g.conn.out ≡ [])
      → 0 < length g.conn.out
      → g.conn.channel.events.epollout ≡ true
  settled_asks g a settled h = elim (Bool-cases g.conn.writing) [
    | inl w ↦ a.mask ∙ w
    | inr w ↦ absurd (omega (arith, h, ap length (settled w)))
  ]

  failed-Streams :
      (f g : Flush K) (bytes : Bytes)
      → f.failed ≡ true
      → f ≡ g
      → Streams (f.wire ++ (f.conn.out ++ bytes)) g
  failed-Streams f g bytes h e = subst (Streams (f.wire ++ (f.conn.out ++ bytes))) e (record {
    waits = f.conn.out ++ bytes;
    prefix = refl;
    exact = λ k. absurd (cc (h, k));
    asks = λ k. absurd (cc (h, k));
  })

  sent_first : (op : WriteOp) (ops : List WriteOp) → sent (op ∷ ops) ≡ bytes_of op ++ sent ops
  sent_first (sends now bytes answers) ops = refl
  sent_first (writable answers) ops = refl

  -- What is written after the first operation follows what it has written.
  after-Streams :
      (op : WriteOp) (ops : List WriteOp) (f h g : Flush K)
      → Written f (bytes_of op) h
      → Streams (h.wire ++ (h.conn.out ++ sent ops)) g
      → Streams (f.wire ++ (f.conn.out ++ sent (op ∷ ops))) g
  after-Streams op ops f h g w =
      subst (λ s. Streams s g)
        (sym (append_assoc h.wire h.conn.out (sent ops))
          ∙ ap (λ s. s ++ sent ops) w.stream
          ∙ append_assoc f.wire (f.conn.out ++ bytes_of op) (sent ops)
          ∙ ap (λ s. f.wire ++ s)
              (append_assoc f.conn.out (bytes_of op) (sent ops)
                ∙ ap (λ s. f.conn.out ++ s) (sym (sent_first op ops))))

  -- Over any sequence of sends and of reports that the socket is writable, with any answers of the
  -- kernel: what it has taken is a prefix of all that was sent, in order and without gaps. While the
  -- connection has not failed, the rest is exactly what the write buffer holds, and if it holds
  -- anything, the connection waits for EPOLLOUT.
  pub writes-Streams :
      (ops : List WriteOp) (f g : Flush K)
      → Agrees f.conn
      → (f.failed ≡ false → f.conn.writing ≡ false → f.conn.out ≡ [])
      → run_writes ops f ≡ some g
      → Streams (f.wire ++ (f.conn.out ++ sent ops)) g
  writes-Streams [] f g a quiet e =
      subst (Streams (f.wire ++ (f.conn.out ++ []))) (some-injective f g e) (record {
        waits = f.conn.out;
        prefix = ap (λ s. f.wire ++ s) (sym (append-nil f.conn.out));
        exact = λ h. refl;
        asks = λ h. settled_asks f a (quiet h);
      })
  writes-Streams (op ∷ ops) f g a quiet e = elim (Bool-cases f.failed) [
    | inl over ↦
        failed-Streams f g (sent (op ∷ ops)) over (some-injective f g (sym (ap choose over) ∙ e))
    | inr going ↦ by_result (write_op op f) refl (sym (ap choose going) ∙ e) (writes-Streams ops)
  ]
    where
      after : Option (Flush K) → Option (Flush K)
      after o = elim o [ none ↦ none | some h ↦ run_writes ops h ]

      choose : Bool → Option (Flush K)
      choose b = if b then some f else after (write_op op f)

      by_result :
          (o : Option (Flush K))
          → write_op op f ≡ o
          → after (write_op op f) ≡ some g
          → ((f g : Flush K)
              → Agrees f.conn
              → (f.failed ≡ false → f.conn.writing ≡ false → f.conn.out ≡ [])
              → run_writes ops f ≡ some g
              → Streams (f.wire ++ (f.conn.out ++ sent ops)) g)
          → Streams (f.wire ++ (f.conn.out ++ sent (op ∷ ops))) g
      by_result none h k rest = absurd (cc (sym (ap after h) ∙ k))
      by_result (some m) h k rest =
          let w = write_op-Written op f m h in
          after-Streams op ops f m g w (rest m g (w.agrees a) w.settled (sym (ap after h) ∙ k))
