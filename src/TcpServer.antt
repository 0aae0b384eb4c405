-- ===== src/TcpServer.antt =====
-- src/TcpServer.cc and include/mini_net/TcpServer.h: the table of connections and what happens to
-- them. A Conn is an object that outlives its place in the table: `objects` holds them by id, and the
-- table, as in the source, names them by descriptor. What the application does in a callback is a
-- function on its state, with the calls of send and shutdown that it makes as outputs, carried out
-- when it returns. Calls of other threads reach a connection as tasks of its own loop.
mod Tests
pub mod Writing
pub mod Reading
pub mod Table
pub mod Idle
pub mod Starting
pub mod Accepting
pub mod Events
pub mod Arrivals
pub mod Runs
pub mod Ids
pub mod Held
use mini_net.Prelude.{
  ℕ, zero, suc, ◌+◌, ◌-◌, ◌*◌, ◌^◌, Bool, true, false, List, [], ◌∷◌, ◌++◌, Option, none, some,
  Bytes, if◌then◌else◌, leb, ◌==◌, length, Map, get, insert, erase, nat_eq, size,
}
use mini_net.Ctype.{ℤ, pos, negsuc}
use mini_net.Buffer.{Buffer, init, initial_size}
use mini_net.Channel.{Channel, Ctl, Poller, new_channel, enable_reading, disable_all}
use mini_net.ShortUrlService.{increment}
use mini_net.EventLoopThreadPool.{LoopPool, next_loop}
use mini_net.TcpServer.Writing.{Conn, SendAnswer, Flush, append_and_flush, flush_write}

-- `closed` lists the descriptors that ::close has been called on.
pub record Server (K : Type 0) : Type 0 where
  pub conns : Map ℕ ℕ
  pub objects : Map ℕ Conn
  pub pollers : ℕ → Poller K
  pub pool : LoopPool
  pub conn_count : ℕ
  pub next_conn_id : ℕ
  pub recv_bytes : ℕ
  pub closed_idle : ℕ
  pub idle_timeout_s : ℤ
  pub closed : List ℕ

-- The server and the application's state.
abbrev pub World : Type 0 → Type 0 → Type 0
World K A = Server K × A

pub data Output : Type 0 where
  send : Bytes → Output
  shutdown : Output

pub record Handlers (A : Type 0) : Type 0 where
  pub on_message : A → ℕ → ℕ → Bytes → A × List Output
  pub on_connection : A → ℕ → ℕ → Bool → A

abbrev pub set_poller : {K : Type 0} → (ℕ → Poller K) → ℕ → Poller K → ℕ → Poller K
set_poller pollers i p j = if i == j then p else pollers j

abbrev pub store : {K : Type 0} → Server K → Poller K → Conn → Server K
store s p c = record s {
  objects = insert s.objects c.id c;
  pollers = set_poller s.pollers c.owner_loop p;
}

-- A connection made in its own loop. The object's address is its id.
abbrev pub new_conn : ℕ → ℕ → ℕ → ℕ → Conn
new_conn fd conn_id owner now = record {
  fd = fd;
  id = conn_id;
  owner_loop = owner;
  channel = new_channel conn_id fd;
  input = init initial_size;
  out = [];
  writing = false;
  last_active_ms = now;
  recv_bytes = 0;
}

-- What accept4 returns: a descriptor, EAGAIN, EINTR, or another errno.
pub data Accepted : Type 0 where
  accepted : ℕ → Accepted
  accept_again accept_interrupted accept_failed : Accepted

-- addConnection(cfd, conn_id, io_loop), as a task of that loop.
pub record NewConn : Type 0 where
  pub cfd : ℕ
  pub conn_id : ℕ
  pub io_loop : ℕ

module _ {K : Type 0} where
  -- A server that has been started: the loops of its pool run.
  abbrev pub new_server : (ℕ → Poller K) → LoopPool → Server K
  new_server pollers pool = record {
    conns = [];
    objects = [];
    pollers = pollers;
    pool = pool;
    conn_count = 0;
    next_conn_id = 1;
    recv_bytes = 0;
    closed_idle = 0;
    idle_timeout_s = pos 30;
    closed = [];
  }

  abbrev pub alive_connections : Server K → ℕ
  alive_connections s = size s.conns

  abbrev pub object_at : Server K → Option ℕ → Option Conn
  object_at s none = none
  object_at s (some id) = get s.objects id

  -- The loop of handleAccept: the tasks that it posts. `none` where accept4 has not answered yet.
  unfoldable pub handle_accept : List Accepted → Server K → Option (List NewConn × Server K)
  handle_accept [] s = none
  handle_accept (accept_again ∷ answers) s = some ([], s)
  handle_accept (accept_failed ∷ answers) s = some ([], s)
  handle_accept (accept_interrupted ∷ answers) s = handle_accept answers s
  handle_accept (accepted fd ∷ answers) s =
      let (io_loop, pool) = next_loop s.pool in
      let s' = record s { pool = pool; next_conn_id = increment s.next_conn_id } in
      let task : NewConn = record { cfd = fd; conn_id = s.next_conn_id; io_loop = io_loop } in
      elim (handle_accept answers s') [ none ↦ none | some (tasks, t) ↦ some (task ∷ tasks, t) ]

module _ {K A : Type 0} (ctl : Ctl K) (h : Handlers A) where
  unfoldable pub add_connection : ℕ → NewConn → World K A → World K A
  add_connection now task (s, app) =
      let c = new_conn task.cfd task.conn_id task.io_loop now in
      let (p, ch) = enable_reading ctl (s.pollers task.io_loop) c.channel in
      let stored = store s p (record c { channel = ch }) in
      (
        record stored {
          conns = insert s.conns task.cfd task.conn_id;
          conn_count = increment s.conn_count;
        },
        h.on_connection app task.cfd task.conn_id true,
      )

  -- closeConnInLoop on an object: the table is searched by its descriptor.
  abbrev pub close_at : Conn → Option ℕ → World K A → World K A
  close_at c none w = w
  close_at c (some id) (s, app) =
      let (p, ch) = disable_all ctl (s.pollers c.owner_loop) c.channel in
      let stored = store s p (record c { channel = ch }) in
      (
        record stored { conns = erase s.conns c.fd; closed = s.closed ++ c.fd ∷ [] },
        h.on_connection app c.fd c.id false,
      )

  unfoldable pub close_conn_in_loop : Conn → World K A → World K A
  close_conn_in_loop c w = close_at c (get w.0.conns c.fd) w

  abbrev pub close_object : Option Conn → World K A → World K A
  close_object none w = w
  close_object (some c) w = close_conn_in_loop c w

  -- After a flush the object and its poller are written back, and a failed connection is closed.
  abbrev pub flushed : Option (Flush K) → World K A → Option (World K A)
  flushed none w = none
  flushed (some f) (s, app) =
      let w : World K A = (store s f.poller f.conn, app) in
      some (if f.failed then close_conn_in_loop f.conn w else w)

  abbrev pub send_to : ℕ → Bytes → List SendAnswer → Option Conn → World K A → Option (World K A)
  send_to now bytes answers none w = some w
  send_to now bytes answers (some c) w =
      flushed (append_and_flush ctl now bytes answers (w.0.pollers c.owner_loop) c) w

  -- TcpServer::send and TcpServer::shutdown, in the loop of the connection.
  unfoldable pub send_bytes : ℕ → ℕ → Bytes → List SendAnswer → World K A → Option (World K A)
  send_bytes now fd bytes answers w = send_to now bytes answers (object_at w.0 (get w.0.conns fd)) w

  unfoldable pub shut_down : ℕ → World K A → World K A
  shut_down fd w = close_object (object_at w.0 (get w.0.conns fd)) w

  -- The write callback.
  unfoldable pub handle_writable : List SendAnswer → Conn → World K A → Option (World K A)
  handle_writable answers c w = flushed (flush_write ctl answers (w.0.pollers c.owner_loop) c) w
