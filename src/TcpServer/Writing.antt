-- ===== src/TcpServer/Writing.antt =====
-- appendAndFlush and flushWrite: the write buffer of a connection. What ::send returns, call by call,
-- is a list of answers.
mod Tests
pub mod Keeps
pub mod Stream
use mini_net.Prelude.{
  ℕ, zero, suc, Bool, true, false, List, [], ◌∷◌, ◌++◌, Option, none, some, Bytes, if◌then◌else◌,
  take, drop,
}
use mini_net.Buffer.{Buffer}
use mini_net.Channel.{Channel, Ctl, Poller, enable_writing, disable_writing}

-- TcpServer::Conn, with the number of the loop that owns it.
pub record Conn : Type 0 where
  pub fd : ℕ
  pub id : ℕ
  pub owner_loop : ℕ
  pub channel : Channel
  pub input : Buffer
  pub out : Bytes
  pub writing : Bool
  pub last_active_ms : ℕ
  pub recv_bytes : ℕ

-- n > 0 or n == 0; EAGAIN or EWOULDBLOCK; EINTR; another errno.
pub data SendAnswer : Type 0 where
  took : ℕ → SendAnswer
  would_block interrupted broken : SendAnswer

-- Where flushWrite has got to: `wire` is what the kernel has taken in this call, and `failed` says
-- that the connection is to be closed.
pub record Flush (K : Type 0) : Type 0 where
  pub poller : Poller K
  pub conn : Conn
  pub wire : Bytes
  pub failed : Bool

abbrev pub is_empty : Bytes → Bool
is_empty [] = true
is_empty (x ∷ s) = false

module _ {K : Type 0} where
  abbrev pub with_channel : Flush K → Bool → Poller K × Channel → Flush K
  with_channel f writing (p, ch) = record f {
    poller = p;
    conn = record f.conn { writing = writing; channel = ch };
  }

  unfoldable pub advance : ℕ → Flush K → Flush K
  advance n f = record f {
    conn = record f.conn { out = drop n f.conn.out };
    wire = f.wire ++ take n f.conn.out;
  }

  abbrev pub fail : Flush K → Flush K
  fail f = record f { failed = true }

  abbrev pub begin : Poller K → Conn → Flush K
  begin p c = record { poller = p; conn = c; wire = []; failed = false }

module _ {K : Type 0} (ctl : Ctl K) where
  -- After the loop.
  unfoldable pub finish : Flush K → Flush K
  finish f =
      if f.conn.writing
      then with_channel f false (disable_writing ctl f.poller f.conn.channel)
      else f

  -- EAGAIN.
  unfoldable pub block : Flush K → Flush K
  block f =
      if f.conn.writing then f else with_channel f true (enable_writing ctl f.poller f.conn.channel)

  -- The loop of flushWrite; `none` where an answer is still missing.
  unfoldable pub flush_loop : List SendAnswer → Flush K → Option (Flush K)
  flush_loop [] f = if is_empty f.conn.out then some (finish f) else none
  flush_loop (took zero ∷ answers) f =
      if is_empty f.conn.out then some (finish f) else some (fail f)
  flush_loop (took (suc n) ∷ answers) f =
      let rest = flush_loop answers (advance (suc n) f) in
      if is_empty f.conn.out then some (finish f) else rest
  flush_loop (would_block ∷ answers) f =
      if is_empty f.conn.out then some (finish f) else some (block f)
  flush_loop (interrupted ∷ answers) f =
      let rest = flush_loop answers f in if is_empty f.conn.out then some (finish f) else rest
  flush_loop (broken ∷ answers) f = if is_empty f.conn.out then some (finish f) else some (fail f)

  unfoldable pub flush_write : List SendAnswer → Poller K → Conn → Option (Flush K)
  flush_write answers p c = flush_loop answers (begin p c)

  unfoldable pub append_and_flush : ℕ → Bytes → List SendAnswer → Poller K → Conn → Option (Flush K)
  append_and_flush now bytes answers p c =
      let c' = record c { last_active_ms = now; out = c.out ++ bytes } in
      if c.writing then some (begin p c') else flush_write answers p c'
