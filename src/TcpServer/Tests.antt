-- ===== src/TcpServer/Tests.antt =====
-- A server that logs what it is told.
use mini_net.Prelude.{
  arith, ℕ, ◌≡◌, refl, Bool, List, [], ◌∷◌, ◌++◌, none, some, get, if◌then◌else◌, ◌==◌, nat_eq,
  insert,
}
use mini_net.Ctype.{pos}
use mini_net.Channel.{Poller}
use mini_net.Channel.Listed.{Listed, listed_ctl, empty_poller}
use mini_net.EventLoopThreadPool.{LoopPool, next_loop}
use mini_net.TcpServer.{
  Server, World, Handlers, NewConn, accepted, accept_interrupted, accept_again, new_server,
  new_conn, handle_accept, add_connection, close_conn_in_loop, Accepted,
}
use mini_net.TcpServer.Table.{close_conn_in_loop-once}
use mini_net.TcpServer.Accepting.{descriptors, Posts, handle_accept-Posts}
use mini_net.TcpServer.Runs.{Reach, Step}
use mini_net.TcpServer.Ids.{HasIds, Reach-HasIds}
use mini_net.TcpServer.Idle.{Sweeps, sweep_idle, sweep_idle-Silent}

-- The ids of the connections that came and went.
abbrev Log : Type 0
Log = List (ℕ × Bool)

abbrev logger : Handlers Log
logger = record {
  on_message = λ app fd id bytes. (app, []);
  on_connection = λ app fd id connected. app ++ (id, connected) ∷ [];
}

abbrev one_loop : LoopPool
one_loop = record { base_loop = 0; thread_num = 1; next = 0; loops = 1 ∷ [] }

abbrev no_pollers : ℕ → Poller Listed
no_pollers i = empty_poller

abbrev started : World Listed Log
started = (new_server no_pollers one_loop, [])

abbrev first_task : NewConn
first_task = record { cfd = 5; conn_id = 1; io_loop = 1 }

abbrev entered : World Listed Log
entered = add_connection listed_ctl logger 100 first_task started

is_entered : get entered.0.conns 5 ≡ some 1
unfolding add_connection get insert
is_entered = refl

-- The server after it has accepted one connection.
abbrev accepting : World Listed Log
accepting = (record started.0 { next_conn_id = 2; pool = record one_loop { next = 1 } }, [])

one_accepted :
    handle_accept (accepted 5 ∷ accept_again ∷ []) started.0 ≡ some (first_task ∷ [], accepting.0)
unfolding handle_accept next_loop
one_accepted = refl

Reach-HasIds_example : HasIds (add_connection listed_ctl logger 100 first_task accepting).0 []
Reach-HasIds_example = Reach-HasIds listed_ctl logger (
    Reach.later
      (Reach.later Reach.begins (
        Step.accepts (accepted 5 ∷ accept_again ∷ []) (first_task ∷ []) one_accepted (omega arith)))
      (Step.enters 100 [] first_task [] refl))

close_conn_in_loop-once_example :
    let c = new_conn 5 1 1 100 in
    let (s', app') = close_conn_in_loop listed_ctl logger c entered in
    ((j : ℕ) → get s'.conns j ≡ (if 5 == j then none else get entered.0.conns j))
    × (s'.closed ≡ entered.0.closed ++ 5 ∷ [])
    × (app' ≡ entered.1 ++ (1, Bool.false) ∷ [])
    × (close_conn_in_loop listed_ctl logger c (close_conn_in_loop listed_ctl logger c entered)
        ≡ close_conn_in_loop listed_ctl logger c entered)
close_conn_in_loop-once_example =
    close_conn_in_loop-once listed_ctl logger (new_conn 5 1 1 100) 1 entered is_entered

abbrev two_seconds : Server Listed
two_seconds = record entered.0 { idle_timeout_s = pos 2 }

sweep_idle-Silent_example : Sweeps 2100 1 two_seconds (sweep_idle 2100 two_seconds)
sweep_idle-Silent_example = sweep_idle-Silent 2100 1 two_seconds refl

-- Two connections and an interruption.
abbrev two_answers : List Accepted
two_answers = accept_interrupted ∷ accepted 5 ∷ accepted 8 ∷ accept_again ∷ []

abbrev two_tasks : List NewConn
two_tasks = first_task ∷ record { cfd = 8; conn_id = 2; io_loop = 1 } ∷ []

abbrev two_accepted : Server Listed
two_accepted = record (new_server no_pollers one_loop) {
  pool = record one_loop { next = 2 };
  next_conn_id = 3;
}

accepts_two :
    handle_accept two_answers (new_server no_pollers one_loop) ≡ some (two_tasks, two_accepted)
unfolding handle_accept next_loop
accepts_two = refl

handle_accept-Posts_example :
    Posts (new_server no_pollers one_loop) (descriptors two_answers) two_tasks two_accepted
handle_accept-Posts_example =
    handle_accept-Posts two_answers (new_server no_pollers one_loop) two_accepted two_tasks
      accepts_two (omega arith)
