-- ===== src/TcpServer/Reading.antt =====
-- handleReadable: a connection is read until the kernel has nothing more, and each read is a message.
mod Tests
pub mod Quiet
pub mod Messages
use mini_net.Prelude.{
  ℕ, ◌+◌, ◌^◌, ◌%◌, List, [], ◌∷◌, Option, none, some, Bytes, if◌then◌else◌, length, get, insert,
  nat_eq,
}
use mini_net.Buffer.{read_fd, peek, retrieve, delivered}
use mini_net.Channel.{Ctl}
use mini_net.TcpServer.Writing.{Conn, SendAnswer, is_empty}
use mini_net.TcpServer.{
  Server, World, Output, send, shutdown, Handlers, close_conn_in_loop, send_bytes, shut_down,
}

-- What readFd returns, with the clock's reading after it and what ::send answers to the calls that
-- the message brings about; no bytes are the end of the stream.
pub data ReadAnswer : Type 0 where
  got : Bytes → ℕ → List (List SendAnswer) → ReadAnswer
  nothing_yet read_interrupted read_broken : ReadAnswer

-- += on a uint64_t.
abbrev pub add_u64 : ℕ → ℕ → ℕ
add_u64 a b = (a + b) % 2 ^ 64

-- The object after its buffer has been read into.
abbrev pub received : Bytes → ℕ → Conn → Conn
received bytes now c = record c {
  input = read_fd c.input (delivered bytes);
  last_active_ms = now;
  recv_bytes = add_u64 c.recv_bytes (length bytes);
}

abbrev pub retrieved : ℕ → Conn → Conn
retrieved n c = record c { input = retrieve c.input n }

module _ {K : Type 0} where
  abbrev pub set_object : Server K → Conn → Server K
  set_object s c = record s { objects = insert s.objects c.id c }

  abbrev pub counted : ℕ → Server K → Server K
  counted n s = record s { recv_bytes = add_u64 s.recv_bytes n }

  -- conn->in.retrieve(n), on the object as the callback has left it.
  abbrev pub retrieve_object : ℕ → Option Conn → Server K → Server K
  retrieve_object n none s = s
  retrieve_object n (some c) s = set_object s (retrieved n c)

module _ {K A : Type 0} where
  abbrev pub after_calls : ℕ → ℕ → Option (World K A) → Option (World K A)
  after_calls id n none = none
  after_calls id n (some (s, app)) = some (retrieve_object n (get s.objects id) s, app)

module _ {K A : Type 0} (ctl : Ctl K) (h : Handlers A) where
  -- The calls that a message makes, each send with its answers. They are done when the callback has
  -- returned; the source does each inside the callback.
  unfoldable pub perform :
      ℕ → ℕ → List Output → List (List SendAnswer) → World K A → Option (World K A)
  perform now fd [] answers w = some w
  perform now fd (shutdown ∷ outputs) answers w =
      perform now fd outputs answers (shut_down ctl h fd w)
  perform now fd (send bytes ∷ outputs) [] w = none
  perform now fd (send bytes ∷ outputs) (a ∷ answers) w = elim (send_bytes ctl h now fd bytes a w) [
    | none ↦ none
    | some w' ↦ perform now fd outputs answers w'
  ]

  -- A read of some bytes: the callback gets what the buffer holds, as many bytes as arrived.
  abbrev pub message : Bytes → ℕ → List (List SendAnswer) → Conn → World K A → Option (World K A)
  message bytes now answers c (s, app) =
      let c' = received bytes now c in
      let (app', outputs) = h.on_message app c.fd c.id (peek c'.input (length bytes)) in
      after_calls c.id (length bytes)
        (perform now c.fd outputs answers (set_object (counted (length bytes) s) c', app'))

  -- `none` where the kernel has not answered yet.
  unfoldable pub handle_readable : ℕ → List ReadAnswer → World K A → Option (World K A)
  handle_readable id [] w = none
  handle_readable id (nothing_yet ∷ reads) w = some w
  handle_readable id (read_interrupted ∷ reads) w = handle_readable id reads w
  handle_readable id (read_broken ∷ reads) w = elim (get w.0.objects id) [
    | none ↦ some w
    | some c ↦ some (close_conn_in_loop ctl h c w)
  ]
  handle_readable id (got bytes now answers ∷ reads) w = elim (get w.0.objects id) [
    | none ↦ some w
    | some c ↦
        if is_empty bytes
        then some (close_conn_in_loop ctl h c w)
        else elim (message bytes now answers c w) [
          | none ↦ none
          | some w' ↦ handle_readable id reads w'
        ]
  ]
