-- ===== src/TcpServer/Runs.antt =====
-- The server as the loops run it: each step is one handler on one connection, and the steps of
-- different loops come in any order. A connection that has been accepted is entered by a task, which
-- may run at any later time.
use mini_net.Prelude.{ℕ, ◌+◌, ◌^◌, ◌<◌, ◌≡◌, List, [], ◌∷◌, ◌++◌, some, Bytes, length, get, nat_eq}
use mini_net.Channel.{Ctl, Poller}
use mini_net.EventLoopThreadPool.{LoopPool}
use mini_net.TcpServer.Writing.{Conn, SendAnswer}
use mini_net.TcpServer.Reading.{ReadAnswer, handle_readable}
use mini_net.TcpServer.{
  Server, World, Handlers, NewConn, Accepted, new_server, handle_accept, add_connection,
  close_conn_in_loop, send_bytes, shut_down, handle_writable,
}

module _ {K A : Type 0} (ctl : Ctl K) (h : Handlers A) where
  -- The world, and the tasks of accepted connections that have not run yet. The counter of ids does not
  -- come round.
  pub data Step : World K A × List NewConn → World K A × List NewConn → Type 0 where
    accepts :
        {s t : Server K} {app : A} {posted : List NewConn} (answers : List Accepted)
        (tasks : List NewConn)
        → handle_accept answers s ≡ some (tasks, t)
        → s.next_conn_id + length tasks < 2 ^ 64
        → Step ((s, app), posted) ((t, app), posted ++ tasks)
    enters :
        {w : World K A} {posted : List NewConn} (now : ℕ) (l : List NewConn) (task : NewConn)
        (r : List NewConn)
        → posted ≡ l ++ task ∷ r
        → Step (w, posted) (add_connection ctl h now task w, l ++ r)
    arrives :
        {w w' : World K A} {posted : List NewConn} (i : ℕ) (answers : List ReadAnswer)
        → handle_readable ctl h i answers w ≡ some w'
        → Step (w, posted) (w', posted)
    sends :
        {w w' : World K A} {posted : List NewConn} (now fd : ℕ) (bytes : Bytes)
        (answers : List SendAnswer)
        → send_bytes ctl h now fd bytes answers w ≡ some w'
        → Step (w, posted) (w', posted)
    shuts :
        {w : World K A} {posted : List NewConn} (fd : ℕ)
        → Step (w, posted) (shut_down ctl h fd w, posted)
    flushes :
        {w w' : World K A} {posted : List NewConn} (i : ℕ) (c : Conn) (answers : List SendAnswer)
        → get w.0.objects i ≡ some c
        → handle_writable ctl h answers c w ≡ some w'
        → Step (w, posted) (w', posted)
    closes :
        {w : World K A} {posted : List NewConn} (i : ℕ) (c : Conn)
        → get w.0.objects i ≡ some c
        → Step (w, posted) (close_conn_in_loop ctl h c w, posted)

  pub data Reach (pollers : ℕ → Poller K) (pool : LoopPool) (app : A)
      : World K A × List NewConn → Type 0 where
    begins : Reach pollers pool app ((new_server pollers pool, app), [])
    later :
        {w w' : World K A × List NewConn}
        → Reach pollers pool app w
        → Step w w'
        → Reach pollers pool app w'
