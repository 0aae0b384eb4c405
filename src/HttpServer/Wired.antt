-- ===== src/HttpServer/Wired.antt =====
-- HttpServer::start: the HTTP server as the application of a TCP server. What onMessage asks of the
-- transport is done when it has returned, where the source does it at once: they differ where a send
-- closes the connection, whose callback the source runs inside onMessage.
use mini_net.Prelude.{ℕ, sym, subst, List, [], Option, none, some, Bytes}
use mini_net.Channel.{Ctl, Poller}
use mini_net.EventLoopThreadPool.{LoopPool}
use mini_net.TcpServer.{World, NewConn, Output, Handlers}
use mini_net.TcpServer.Runs.{Reach}
use mini_net.TcpServer.Held.{Holds, Reach-Holds}
use mini_net.HttpServer.{Server, Handler, new_server, on_message, on_connection}
use mini_net.HttpServer.Serve.{
  IsServer, Served, on_message-Served, on_connection-forgets, new_server-IsServer,
}

module _ {S : Type 0} where
  abbrev pub answered : Server × S → Option (Server × S × List Output) → (Server × S) × List Output
  answered a none = (a, [])
  answered a (some (s, app, outputs)) = ((s, app), outputs)

  unfoldable pub callbacks : Option (Handler S) → Handlers (Server × S)
  callbacks handler = record {
    on_message = λ a fd id bytes. answered a (on_message handler a.0 a.1 id bytes);
    on_connection = λ a fd id connected. (on_connection a.0 id connected, a.1);
  }

  callbacks-Holds : (handler : Option (Handler S)) → Holds (callbacks handler) (λ a. IsServer a.0)
  unfolding callbacks
  callbacks-Holds handler = record {
    message = λ a fd id bytes v.
        by_answer a id (on_message handler a.0 a.1 id bytes) bytes
          (on_message-Served handler a.0 a.1 id bytes v);
    connection = λ a fd id connected v. (on_connection-forgets a.0 id connected v).0;
  }
    where
      by_answer :
          (a : Server × S) (id : ℕ) (o : Option (Server × S × List Output))
          → (bytes : Bytes) → Served handler a.0 a.1 id bytes o
          → IsServer (answered a o).0.0
      by_answer a id o bytes (s, app, outputs, e, v, other, c, found, x) =
          subst (λ x. IsServer (answered a x).0.0) (sym e) v

  -- Through every run of a TCP server that has the HTTP server for its application, with the outputs
  -- done after the callback: every HTTP connection is sound, and the next message of any connection
  -- is served.
  pub Reach-Served :
      {K : Type 0} (ctl : Ctl K) (handler : Option (Handler S)) {pollers : ℕ → Poller K}
      {pool : LoopPool} {app : S} {w : World K (Server × S) × List NewConn}
      → Reach ctl (callbacks handler) pollers pool (new_server, app) w
      → IsServer w.0.1.0
        × ((i : ℕ) (bytes : Bytes)
            → Served handler w.0.1.0 w.0.1.1 i bytes (on_message handler w.0.1.0 w.0.1.1 i bytes))
  Reach-Served ctl handler {w = w} r =
      let v =
        Reach-Holds ctl (callbacks handler) (λ a. IsServer a.0) (callbacks-Holds handler)
          new_server-IsServer r in
      (v, λ i bytes. on_message-Served handler w.0.1.0 w.0.1.1 i bytes v)
