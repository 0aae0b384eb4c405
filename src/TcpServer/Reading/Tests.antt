-- ===== src/TcpServer/Reading/Tests.antt =====
-- A connection whose bytes are sent back, in two pieces.
use mini_net.Prelude.{
  ℕ, ◌≡◌, ◌++◌, refl, List, [], ◌∷◌, map, none, some, Bytes, get, insert, nat_eq,
}
use mini_net.Buffer.{init, initial_size, read_fd, retrieve}
use mini_net.Buffer.View.{init-IsValid, contents-init}
use mini_net.Channel.{enable_reading, update_channel, update_at}
use mini_net.Channel.Listed.{Listed, listed_ctl, empty_poller}
use mini_net.TcpServer.{World, send, Handlers, NewConn, new_server, add_connection, send_bytes}
use mini_net.TcpServer.Writing.{took, append_and_flush, flush_write, flush_loop, advance, finish}
use mini_net.TcpServer.Events.{add_connection-IsKept}
use mini_net.TcpServer.Table.{IsTable, IsKept, table_of}
use mini_net.TcpServer.Reading.{
  ReadAnswer, got, nothing_yet, read_interrupted, perform, handle_readable,
}
use mini_net.TcpServer.Reading.Quiet.{Logged, logged}
use mini_net.TcpServer.Reading.Messages.{pieces, IsRead, handle_readable-Delivers}

abbrev echo : Handlers ℕ
echo = record {
  on_message = λ app fd id bytes. (app, send bytes ∷ []);
  on_connection = λ app fd id connected. app;
}

abbrev before : World Listed (Logged ℕ)
before = (
  new_server (λ i. empty_poller) (record { base_loop = 0; thread_num = 0; next = 0; loops = [] }),
  (0, []),
)

abbrev task : NewConn
task = record { cfd = 5; conn_id = 1; io_loop = 0 }

abbrev entered : World Listed (Logged ℕ)
entered = add_connection listed_ctl (logged echo) 100 task before

abbrev two_pieces : List ReadAnswer
two_pieces =
    got (104 ∷ 105 ∷ []) 101 ((took 2 ∷ []) ∷ [])
    ∷ read_interrupted
    ∷ got (120 ∷ []) 102 ((took 1 ∷ []) ∷ [])
    ∷ nothing_yet
    ∷ []

abbrev echoed : World Listed (Logged ℕ)
echoed = elim (handle_readable listed_ctl (logged echo) 1 two_pieces entered) [
  | none ↦ entered
  | some w ↦ w
]

started-IsKept : IsKept (λ i. 1 ≡ i) 1 before.0
unfolding get
started-IsKept = record {
  keyed = λ i c e. absurd (cc e);
  named = λ fd i e. absurd (cc e);
  unused = λ i u. refl;
  counter = refl;
}

entered-IsTable : IsTable entered.0
entered-IsTable = table_of (
    add_connection-IsKept {U = λ i. 1 ≡ i} listed_ctl (logged echo) (λ i. ⊥) 100 task before
      started-IsKept refl (λ i u. absurd u))

entered-IsRead : IsRead entered.0 1
unfolding add_connection get insert
entered-IsRead = record {
  conn = _;
  here = refl;
  idle = record { valid = init-IsValid initial_size; nothing = contents-init initial_size };
}

is_echoed : handle_readable listed_ctl (logged echo) 1 two_pieces entered ≡ some echoed
unfolding handle_readable perform send_bytes append_and_flush flush_write flush_loop advance finish
    add_connection enable_reading update_channel update_at get insert read_fd retrieve init
is_echoed = refl

handle_readable-Delivers_example :
    echoed.1.1 ≡ entered.1.1 ++ map (λ (bytes : Bytes). (1, bytes)) (pieces two_pieces)
handle_readable-Delivers_example =
    handle_readable-Delivers listed_ctl echo 1 two_pieces entered echoed entered-IsTable
      entered-IsRead is_echoed
