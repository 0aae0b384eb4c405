-- ===== src/EchoBench/Connections/Sound/Exit.antt =====
-- What the exit code of the client tells of its connections.
use mini_net.Prelude.{
  ℕ, ◌+◌, ◌≤◌, ◌≡◌, ◌↔◌, refl, ◌⊎◌, Bool, true, false, not, List, [], ◌∷◌, Option, none, some,
  Bytes, arith, subst,
}
use mini_net.EchoBench.Connections.{Conn, Totals, World, Plan, Env, is_over}
use mini_net.EchoBench.Connections.Events.{SocketError, Event}
use mini_net.EchoBench.Connections.Loop.{Bench, exit_code}
use mini_net.EchoBench.Connections.Setup.{Target, Calls, new_totals, setup_conns, run_loop, run}
use mini_net.EchoBench.Connections.Sound.{Others, missing, one_if}
use mini_net.EchoBench.Connections.Sound.Rounds.{
  IsKept, IsWhole, AllKept, shares, maybe_start-IsWhole, loop-IsWhole,
}
use mini_net.EchoBench.Connections.Sound.Made.{AllSettled, setup_conns-Settled}

-- The connection has ended, no request that it sent has been left without an answer, and where the
-- requests are counted it has the answers to all.
pub record IsAnswered (o : Plan) (c : Conn) : Type 0 where
  pub over : is_over c.state ≡ true
  pub none_open : c.sent_req ≤ c.done_req
  pub in_time : (o.duration_mode ≡ false) ⊎ (c.inflight ≡ 0)
  pub all_asked : (o.duration_mode ≡ true) ⊎ (o.requests ≤ c.done_req)

abbrev pub AllAnswered : Plan → List Conn → Type 0
AllAnswered o [] = Unit {0}
AllAnswered o (c ∷ conns) = IsAnswered o c × AllAnswered o conns

module _ (o : Plan) where
  none_missing :
      (c : Conn)
      → IsKept o c
      → one_if (not (is_over c.state)) ≡ 0
      → missing o c.state c.inflight c.done_req ≡ 0
      → IsAnswered o c
  none_missing c k over all = ground arith

  nothing_missing : (c : Conn) → IsAnswered o c → missing o c.state c.inflight c.done_req ≡ 0
  nothing_missing c k = ground arith

  all_none_missing :
      (conns : List Conn)
      → AllKept o conns
      → (shares o conns).alive ≡ 0
      → (shares o conns).missing ≡ 0
      → AllAnswered o conns
  all_none_missing [] k over all = tt
  all_none_missing (c ∷ conns) k over all = (
    none_missing c k.0 (omega arith) (omega arith),
    all_none_missing conns k.1 (omega arith) (omega arith),
  )

  all_nothing_missing : (conns : List Conn) → AllAnswered o conns → (shares o conns).missing ≡ 0
  all_nothing_missing [] k = refl
  all_nothing_missing (c ∷ conns) k =
      omega (arith, nothing_missing c k.0, all_nothing_missing conns k.1)

module _ (o : Plan) (e : Env) (target : Target) where
  -- The exit code is 0 where it should be, for connections that have all ended.
  exit_code_lem :
      (b : Bench)
      → IsWhole o e b
      → b.totals.alive_count ≡ 0
      → (exit_code b.totals ≡ 0) ↔ (AllAnswered o b.conns × (b.totals.bad_status ≡ 0))
  unfolding exit_code
  exit_code_lem b h over = (
    λ zero_code.
        let none_left : b.totals.failed_requests ≡ 0 = ground arith in
        let none_bad : b.totals.bad_status ≡ 0 = ground arith in
        (
          all_none_missing o b.conns h.kept (omega (arith, h.summed, over))
              (omega (arith, h.summed, none_left)),
          none_bad,
        ),
    λ fine.
        let none_left : b.totals.failed_requests ≡ 0 =
          omega (arith, h.summed, all_nothing_missing o b.conns fine.0) in
        let none_bad = fine.1 in ground arith,
  )

  -- What is known of a run: where it comes to its loop, the loop's connections are sound.
  Ran : ℕ × Option Bench → Type 0
  Ran (code, none) = code ≡ 2
  Ran (code, some b) = IsWhole o e b × (code ≡ exit_code b.totals)

  run-Ran :
      (prepared : Bool) (src_ips : List Bytes) (calls : List Calls)
      (turns : List (List (ℕ × Event) × (ℕ → SocketError))) (w : World)
      → Ran (run o e target prepared src_ips calls turns w)
  unfolding run Ran run_loop
  run-Ran false src_ips calls turns w = refl
  run-Ran true src_ips calls turns w =
      let nobody : Others = record { answered = 0; missing = 0; alive = 0; connecting = 0 } in
      let r = setup_conns o e target src_ips 0 calls new_totals (record w { tick = w.tick + 1 }) in
      by_setup r (setup_conns-Settled o e target src_ips 0 calls nobody new_totals _ (ground arith))
    where
      by_setup :
          (r : Option Bytes × (List Conn × Totals × World))
          → AllSettled o e target
              (record { answered = 0; missing = 0; alive = 0; connecting = 0 })
              r
          → Ran (elim (r.0) [
            | some why ↦ (2, none)
            | none ↦ run_loop o e target turns r.1.0 r.1.1 r.1.2
          ])
      by_setup (some why, r) h = refl
      by_setup (none, (conns, t, w')) h = (
        loop-IsWhole o e turns _
            (maybe_start-IsWhole o e _ (record { kept = h.0; summed = ground (arith, h.1) })),
        refl,
      )

  -- What a run of the client tells by its exit code. Where the loop has been left with no connection
  -- alive, it is 0 exactly if no response had an unexpected status, no request that was sent has been
  -- left without an answer, and where the requests are counted, every connection has all its answers.
  -- The responses counted are then those of the connections.
  pub run-AllAnswered :
      (prepared : Bool) (src_ips : List Bytes) (calls : List Calls)
      (turns : List (List (ℕ × Event) × (ℕ → SocketError))) (w : World) (code : ℕ) (b : Bench)
      → run o e target prepared src_ips calls turns w ≡ (code, some b)
      → b.totals.alive_count ≡ 0
      → ((code ≡ 0) ↔ (AllAnswered o b.conns × (b.totals.bad_status ≡ 0)))
        × (b.totals.ok + b.totals.bad_status ≡ (shares o b.conns).answered)
  unfolding Ran
  run-AllAnswered prepared src_ips calls turns w code b is over =
      let known : Ran (code, some b) = subst Ran is (run-Ran prepared src_ips calls turns w) in
      (rw known.1 (exit_code_lem b known.0 over), known.0.summed.counted)
