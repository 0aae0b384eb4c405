-- ===== src/TcpServer/Writing/Tests.antt =====
-- A connection that sends in pieces.
use mini_net.Prelude.{◌≡◌, refl, true, false, List, [], ◌∷◌, some, arith, get, insert, nat_eq}
use mini_net.Buffer.{init}
use mini_net.Channel.{
  no_events, new_channel, update_channel, update_at, enable_writing, disable_writing,
}
use mini_net.Channel.Listed.{Listed, listed_ctl, empty_poller}
use mini_net.TcpServer.Writing.{
  Conn, took, would_block, interrupted, Flush, begin, flush_loop, advance, flush_write,
  append_and_flush, finish, block,
}
use mini_net.TcpServer.Writing.Keeps.{flush_loop-ends, Agrees}
use mini_net.TcpServer.Writing.Stream.{
  WriteOp, sends, writable, run_writes, Streams, writes-Streams,
}

abbrev fresh_conn : Conn
fresh_conn = record {
  fd = 5;
  id = 1;
  owner_loop = 0;
  channel = new_channel 4096 5;
  input = init 0;
  out = [];
  writing = false;
  last_active_ms = 0;
  recv_bytes = 0;
}

abbrev start_flush : Flush Listed
start_flush = begin empty_poller fresh_conn

-- Three bytes, of which one is taken at first and two when the socket is writable again.
abbrev in_pieces : List WriteOp
in_pieces =
    sends 7 (1 ∷ 2 ∷ 3 ∷ []) (took 1 ∷ would_block ∷ []) ∷ writable (interrupted ∷ took 2 ∷ []) ∷ []

abbrev last_flush : Flush Listed
last_flush = record {
  poller = record { channels = (5, 4096) ∷ []; kernel = (5, (no_events, 4096)) ∷ [] };
  conn = record fresh_conn {
    last_active_ms = 7;
    channel = record (new_channel 4096 5) { in_poller = true };
  };
  wire = 1 ∷ 2 ∷ 3 ∷ [];
  failed = false;
}

all_taken : run_writes listed_ctl in_pieces start_flush ≡ some last_flush
unfolding append_and_flush flush_write flush_loop advance finish block enable_writing
    disable_writing update_channel update_at get insert
all_taken = refl

fresh-Agrees : Agrees fresh_conn
fresh-Agrees = record { flag = refl; mask = refl }

writes-Streams_example : Streams listed_ctl (1 ∷ 2 ∷ 3 ∷ []) last_flush
writes-Streams_example =
    writes-Streams listed_ctl in_pieces start_flush last_flush fresh-Agrees (λ h w. refl) all_taken

flush_loop-ends_example :
    (g : Flush Listed) × (flush_loop listed_ctl (interrupted ∷ took 1 ∷ []) start_flush ≡ some g)
flush_loop-ends_example =
    flush_loop-ends listed_ctl (interrupted ∷ took 1 ∷ []) start_flush (omega arith)
