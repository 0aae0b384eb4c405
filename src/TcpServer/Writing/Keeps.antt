-- ===== src/TcpServer/Writing/Keeps.antt =====
-- What a call of flushWrite keeps: no byte is lost, doubled or moved, and what is left waits for
-- EPOLLOUT.
use mathlib.Core.Option.{some-injective}
use mini_net.Prelude.{
  ℕ, zero, suc, ◌<◌, ◌≤◌, ◌≡◌, refl, sym, ap, ◌∙◌, subst, true, false, List, [], ◌∷◌, ◌++◌,
  append_assoc, Option, none, some, Bytes, take, drop, take-append-drop, length, length-drop, inl,
  inr, Bool-cases, arith,
}
use mini_net.Channel.{Ctl, Events, enable_writing, disable_writing}
use mini_net.Channel.Operations.{update_channel-SameChannel}
use mini_net.TcpServer.Writing.{
  Conn, SendAnswer, took, would_block, interrupted, broken, Flush, is_empty, finish, block, advance,
  fail, flush_loop,
}

-- The connection knows whether it waits for EPOLLOUT.
pub record Agrees (c : Conn) : Type 0 where
  pub flag : c.channel.writing ≡ c.writing
  pub mask : c.channel.events.epollout ≡ c.writing

-- What holds of the end of a flush.
pub record Flushed {K : Type 0} (f g : Flush K) : Type 0 where
  pub stream : g.wire ++ g.conn.out ≡ f.wire ++ f.conn.out
  pub agrees : Agrees f.conn → Agrees g.conn
  pub settled : g.failed ≡ false → g.conn.writing ≡ false → g.conn.out ≡ []
  pub same_conn : (g.conn.fd ≡ f.conn.fd) × (g.conn.id ≡ f.conn.id) × (g.conn.input ≡ f.conn.input)

is_empty_nil : (s : Bytes) → is_empty s ≡ true → s ≡ []
is_empty_nil [] h = refl
is_empty_nil (x ∷ s) h = absurd (cc)

-- The answers that are no interruption.
abbrev pub useful : List SendAnswer → ℕ
useful [] = 0
useful (took n ∷ answers) = suc (useful answers)
useful (would_block ∷ answers) = suc (useful answers)
useful (interrupted ∷ answers) = useful answers
useful (broken ∷ answers) = suc (useful answers)

length-is_empty : (s : Bytes) → is_empty s ≡ false → 0 < length s
length-is_empty [] h = absurd (cc)
length-is_empty (x ∷ s) h = omega arith

module _ {K : Type 0} where
  fail-Flushed : (f : Flush K) → Flushed f (fail f)
  fail-Flushed f = record {
    stream = refl;
    agrees = λ a. a;
    settled = λ h w. absurd (cc h);
    same_conn = (refl, refl, refl);
  }

  advance-stream :
      (n : ℕ) (f : Flush K) → (advance n f).wire ++ (advance n f).conn.out ≡ f.wire ++ f.conn.out
  unfolding advance
  advance-stream n f =
      append_assoc f.wire (take n f.conn.out) (drop n f.conn.out)
      ∙ ap (λ s. f.wire ++ s) (take-append-drop n f.conn.out)

  advance-Flushed : (n : ℕ) (f g : Flush K) → Flushed (advance n f) g → Flushed f g
  advance-Flushed n f g r = record {
    stream = r.stream ∙ advance-stream n f;
    agrees = λ a. r.agrees (unfold advance in record { flag = a.flag; mask = a.mask });
    settled = r.settled;
    same_conn = unfold advance in r.same_conn;
  }

module _ {K : Type 0} (ctl : Ctl K) where
  finish-Flushed : (f : Flush K) → f.conn.out ≡ [] → Flushed f (finish ctl f)
  unfolding finish disable_writing
  finish-Flushed f e =
      let same = update_channel-SameChannel ctl f.poller (record f.conn.channel {
        events = record f.conn.channel.events { epollout = false };
        writing = false;
      }) in
      elim (Bool-cases f.conn.writing) [
        | inl was ↦ rw was (record {
          stream = refl;
          agrees = λ a. record {
            flag = same.writing;
            mask = ap (λ (e : Events). e.epollout) same.events;
          };
          settled = λ h w. e;
          same_conn = (refl, refl, refl);
        })
        | inr was_not ↦ rw was_not (record {
          stream = refl;
          agrees = λ a. a;
          settled = λ h w. e;
          same_conn = (refl, refl, refl);
        })
      ]

  block-Flushed : (f : Flush K) → Flushed f (block ctl f)
  unfolding block enable_writing
  block-Flushed f =
      let same = update_channel-SameChannel ctl f.poller (record f.conn.channel {
        events = record f.conn.channel.events { epollout = true };
        writing = true;
      }) in
      elim (Bool-cases f.conn.writing) [
        | inl was ↦ rw was (record {
          stream = refl;
          agrees = λ a. a;
          settled = λ h w. absurd (cc w);
          same_conn = (refl, refl, refl);
        })
        | inr was_not ↦ rw was_not (record {
          stream = refl;
          agrees = λ a. record {
            flag = same.writing;
            mask = ap (λ (e : Events). e.epollout) same.events;
          };
          settled = λ h w. absurd (cc w);
          same_conn = (refl, refl, refl);
        })
      ]

  -- With nothing to send the loop ends, whatever the answers would be.
  stops :
      (answers : List SendAnswer) (f : Flush K)
      → is_empty f.conn.out ≡ true
      → flush_loop ctl answers f ≡ some (finish ctl f)
  unfolding flush_loop
  stops [] f h = rw (h, flush_loop)
  stops (took zero ∷ answers) f h = rw (h, flush_loop)
  stops (took (suc n) ∷ answers) f h = rw (h, flush_loop)
  stops (would_block ∷ answers) f h = rw (h, flush_loop)
  stops (interrupted ∷ answers) f h = rw (h, flush_loop)
  stops (broken ∷ answers) f h = rw (h, flush_loop)

  -- With something to send, what the next answer does.
  abbrev next_flush : SendAnswer → List SendAnswer → Flush K → Option (Flush K)
  next_flush (took zero) answers f = some (fail f)
  next_flush (took (suc n)) answers f = flush_loop ctl answers (advance (suc n) f)
  next_flush would_block answers f = some (block ctl f)
  next_flush interrupted answers f = flush_loop ctl answers f
  next_flush broken answers f = some (fail f)

  goes :
      (a : SendAnswer) (answers : List SendAnswer) (f : Flush K)
      → is_empty f.conn.out ≡ false
      → flush_loop ctl (a ∷ answers) f ≡ next_flush a answers f
  unfolding flush_loop
  goes (took zero) answers f h = rw (h, flush_loop)
  goes (took (suc n)) answers f h = rw (h, flush_loop)
  goes would_block answers f h = rw (h, flush_loop)
  goes interrupted answers f h = rw (h, flush_loop)
  goes broken answers f h = rw (h, flush_loop)

  stuck : (f : Flush K) → is_empty f.conn.out ≡ false → flush_loop ctl [] f ≡ none
  unfolding flush_loop
  stuck f h = rw (h, flush_loop)

  pub flush_loop-Flushed :
      (answers : List SendAnswer) (f g : Flush K) → flush_loop ctl answers f ≡ some g → Flushed f g
  flush_loop-Flushed [] f g e = elim (Bool-cases (is_empty f.conn.out)) [
    | inl h ↦
        subst (Flushed f) (some-injective _ g (sym (stops [] f h) ∙ e))
          (finish-Flushed f (is_empty_nil _ h))
    | inr h ↦ absurd (cc (sym (stuck f h) ∙ e))
  ]
  flush_loop-Flushed (a ∷ answers) f g e = elim (Bool-cases (is_empty f.conn.out)) [
    | inl h ↦
        subst (Flushed f) (some-injective _ g (sym (stops (a ∷ answers) f h) ∙ e))
          (finish-Flushed f (is_empty_nil _ h))
    | inr h ↦ by_answer a (sym (goes a answers f h) ∙ e) (flush_loop-Flushed answers)
  ]
    where
      by_answer :
          (a : SendAnswer)
          → next_flush a answers f ≡ some g
          → ((f g : Flush K) → flush_loop ctl answers f ≡ some g → Flushed f g)
          → Flushed f g
      by_answer (took zero) k rest = subst (Flushed f) (some-injective _ g k) (fail-Flushed f)
      by_answer (took (suc n)) k rest = advance-Flushed (suc n) f g (rest (advance (suc n) f) g k)
      by_answer would_block k rest = subst (Flushed f) (some-injective _ g k) (block-Flushed f)
      by_answer interrupted k rest = rest f g k
      by_answer broken k rest = subst (Flushed f) (some-injective _ g k) (fail-Flushed f)

  -- However often the calls are interrupted, as many other answers as there are bytes to send are
  -- enough for the loop to end.
  pub flush_loop-ends :
      (answers : List SendAnswer) (f : Flush K)
      → length f.conn.out ≤ useful answers
      → (g : Flush K) × (flush_loop ctl answers f ≡ some g)
  flush_loop-ends [] f h = elim (Bool-cases (is_empty f.conn.out)) [
    | inl e ↦ (_, stops [] f e)
    | inr e ↦ absurd (omega (arith, h, length-is_empty f.conn.out e))
  ]
  flush_loop-ends (a ∷ answers) f h = elim (Bool-cases (is_empty f.conn.out)) [
    | inl e ↦ (_, stops (a ∷ answers) f e)
    | inr e ↦
        let (g, k) = by_answer a h (length-is_empty f.conn.out e) (flush_loop-ends answers) in
        (g, goes a answers f e ∙ k)
  ]
    where
      by_answer :
          (a : SendAnswer)
          → length f.conn.out ≤ useful (a ∷ answers)
          → 0 < length f.conn.out
          → ((f : Flush K)
              → length f.conn.out ≤ useful answers
              → (g : Flush K) × (flush_loop ctl answers f ≡ some g))
          → (g : Flush K) × (next_flush a answers f ≡ some g)
      by_answer (took zero) k some_left rest = (_, refl)
      by_answer (took (suc n)) k some_left rest =
          rest (advance (suc n) f)
            (unfold advance in omega (arith, k, some_left, length-drop (suc n) f.conn.out))
      by_answer would_block k some_left rest = (_, refl)
      by_answer interrupted k some_left rest = rest f k
      by_answer broken k some_left rest = (_, refl)
