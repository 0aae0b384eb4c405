-- ===== src/EchoBench/Connections/Echoes.antt =====
-- What doRead makes of the bytes that a server echoes.
use mini_net.Prelude.{
  ℕ, zero, suc, ◌+◌, ◌-◌, ◌*◌, ◌%◌, ◌<◌, ◌≤◌, ◌≡◌, refl, ◌∙◌, Bool, true, Bytes, text, ap,
  bytes_eq_iff, ◌↔◌, leb, arith, length, Bool-cases, inl, inr,
}
use mini_net.EchoBench.Helpers.{payload_from, make_echo_payload}
use mini_net.EchoBench.Options.{Options}
use mini_net.EchoBench.Options.Usable.{IsUsable}
use mini_net.EchoBench.Connections.Setup.{plan_of}
use mini_net.EchoBench.Payload.{verify_chunk}
use mini_net.EchoBench.Payload.Echoed.{echoed, verify_chunk-echoed}
use mini_net.EchoBench.Connections.{At, Plan, Env, on_conn}
use mini_net.EchoBench.Connections.Receive.{
  keep_latency, take_time, count_status, on_response_complete, spent, complete_echoes, take_echo,
}

-- Whole echoes, each of `size` bytes, and a part of one.
pub record IsCut (size bytes : ℕ) (a b : At) : Type 0 where
  pub whole : ℕ
  pub sizes : bytes ≡ whole * size + b.conn.echo_partial
  pub part : b.conn.echo_partial < size
  pub answered : b.conn.done_req ≡ a.conn.done_req + whole
  pub all : b.totals.ok + b.totals.bad_status ≡ a.totals.ok + a.totals.bad_status + whole

length-payload_from : (i n : ℕ) → length (payload_from i n) ≡ n
unfolding payload_from
length-payload_from i zero = refl
length-payload_from i (suc n) = ap suc (length-payload_from (suc i) n)

-- The payload of a client in echo mode, with options that parseArgs lets through.
echo_payload-sized :
    (opts : Options)
    → IsUsable opts
    → opts.mode ≡ text "echo"
    → (length (plan_of opts).echo_payload ≡ (plan_of opts).size) × (0 < (plan_of opts).size)
unfolding plan_of make_echo_payload text
echo_payload-sized opts u is_echo =
    (rw is_echo (length-payload_from 0 opts.size), u.in_range.size.0)

module _ (o : Plan) (e : Env) where
  record IsOneMore (a b : At) : Type 0 where
    answered : b.conn.done_req ≡ a.conn.done_req + 1
    all : b.totals.ok + b.totals.bad_status ≡ a.totals.ok + a.totals.bad_status + 1
    rest : b.conn.echo_partial ≡ a.conn.echo_partial - o.size
    received : b.conn.echo_recv ≡ a.conn.echo_recv

  complete-IsOneMore : (a : At) → IsOneMore a (on_response_complete o e 0 (spent o e o.size a))
  unfolding on_response_complete take_time count_status keep_latency
  complete-IsOneMore a = ground arith

  pub complete_echoes-IsCut :
      (fuel : ℕ) (a : At)
      → 0 < o.size
      → a.conn.echo_partial ≤ fuel
      → IsCut o.size a.conn.echo_partial a (complete_echoes o e fuel a)
  unfolding complete_echoes
  complete_echoes-IsCut zero a some h = record {
    whole = 0;
    sizes = omega arith;
    part = omega arith;
    answered = omega arith;
    all = omega arith;
  }
  complete_echoes-IsCut (suc fuel) a some h = elim (Bool-cases (leb o.size a.conn.echo_partial)) [
    | inl more ↦
        let b = on_response_complete o e 0 (spent o e o.size a) in
        let one = complete-IsOneMore a in
        let enough : o.size ≤ a.conn.echo_partial = ground arith in
        let later = complete_echoes-IsCut fuel b some (omega (arith, one.rest, h, some)) in
        rw more (record {
          whole = suc later.whole;
          sizes = omega (arith, later.sizes, one.rest, enough);
          part = later.part;
          answered = omega (arith, later.answered, one.answered);
          all = omega (arith, later.all, one.all);
        })
    | inr short ↦ rw short (record {
      whole = 0;
      sizes = omega arith;
      part = ground arith;
      answered = omega arith;
      all = omega arith;
    })
  ]

  complete_echoes-received :
      (fuel : ℕ) (a : At) → (complete_echoes o e fuel a).conn.echo_recv ≡ a.conn.echo_recv
  unfolding complete_echoes
  complete_echoes-received zero a = refl
  complete_echoes-received (suc fuel) a =
      let later = complete_echoes-received fuel (on_response_complete o e 0 (spent o e o.size a)) in
      let one = (complete-IsOneMore a).received in
      elim (Bool-cases (leb o.size a.conn.echo_partial)) [
        | inl more ↦ rw more (later ∙ one)
        | inr short ↦ rw short
      ]

  -- What the bytes of an echo change.
  pub record IsTaken (n : ℕ) (a : At) (q : Bool × At) : Type 0 where
    pub goes_on : q.0 ≡ true
    pub received : q.1.conn.echo_recv ≡ a.conn.echo_recv + n
    pub cut : IsCut o.size (a.conn.echo_partial + n) a q.1

  abbrev grown : Bytes → At → At
  grown bytes = on_conn (λ c. record c {
    echo_recv = c.echo_recv + length bytes;
    echo_partial = c.echo_partial + length bytes;
  })

  taken :
      (bytes : Bytes) (a : At)
      → 0 < o.size
      → IsTaken
          (length bytes)
          a
          (true, complete_echoes o e (grown bytes a).conn.echo_partial (grown bytes a))
  taken bytes a some =
      let cut =
        complete_echoes-IsCut (grown bytes a).conn.echo_partial (grown bytes a) some
          (omega arith) in
      record {
        goes_on = refl;
        received = complete_echoes-received (grown bytes a).conn.echo_partial (grown bytes a);
        cut = record {
          whole = cut.whole;
          sizes = cut.sizes;
          part = cut.part;
          answered = cut.answered;
          all = cut.all;
        };
      }

  checks_same :
      (bytes : Bytes) (a : At)
      → length o.echo_payload ≡ o.size
      → 0 < o.size
      → length bytes ≤ o.size - a.conn.echo_recv % o.size + o.size
      → (verify_chunk o.echo_payload e.behind a.conn.echo_recv bytes ≡ true)
        ↔ (bytes ≡ echoed o.echo_payload a.conn.echo_recv (length bytes))
  checks_same bytes a sized some fits =
      rw
        (verify_chunk-echoed o.echo_payload e.behind a.conn.echo_recv bytes (rw sized some)
          (rw sized fits))
        (bytes_eq_iff bytes (echoed o.echo_payload a.conn.echo_recv (length bytes)))

  take_echo_lem :
      (bytes : Bytes) (a : At)
      → o.verify ≡ true
      → length o.echo_payload ≡ o.size
      → 0 < o.size
      → length bytes ≤ o.size - a.conn.echo_recv % o.size + o.size
      → (((take_echo o e bytes a).0 ≡ true)
          ↔ (bytes ≡ echoed o.echo_payload a.conn.echo_recv (length bytes)))
        × ((take_echo o e bytes a).0 ≡ true → IsTaken (length bytes) a (take_echo o e bytes a))
  unfolding take_echo
  take_echo_lem bytes a checked sized some fits =
      let same = checks_same bytes a sized some fits in
      elim (Bool-cases (verify_chunk o.echo_payload e.behind a.conn.echo_recv bytes)) [
        | inl good ↦ simp (checked, good) ((λ t. same.0 good, λ t. refl), λ t. taken bytes a some)
        | inr wrong ↦
            simp (checked, wrong)
              ((λ t. absurd (cc t), λ t. absurd (cc (wrong, same.1 t))), λ t. absurd (cc t))
      ]

-- For a client in echo mode that verifies, with options that parseArgs lets through, and for a chunk
-- that reaches the payload's end at most twice (a longer one the client may refuse though it is
-- right): the client takes it exactly if it is what a server that
-- echoes sends at this place. Then it counts an answer for each `size` bytes, and keeps the number of
-- bytes that are left over.
pub take_echo-IsTaken :
    (opts : Options) (e : Env) (bytes : Bytes) (a : At)
    → IsUsable opts
    → opts.mode ≡ text "echo"
    → opts.verify ≡ true
    → length bytes ≤ opts.size - a.conn.echo_recv % opts.size + opts.size
    → (((take_echo (plan_of opts) e bytes a).0 ≡ true)
        ↔ (bytes ≡ echoed (plan_of opts).echo_payload a.conn.echo_recv (length bytes)))
      × ((take_echo (plan_of opts) e bytes a).0 ≡ true
          → IsTaken (plan_of opts) e (length bytes) a (take_echo (plan_of opts) e bytes a))
unfolding plan_of
take_echo-IsTaken opts e bytes a u is_echo checked fits =
    let (sized, some) = echo_payload-sized opts u is_echo in
    take_echo_lem (plan_of opts) e bytes a checked sized some fits
