-- ===== src/HttpServer.antt =====
-- src/HttpServer.cc and include/mini_net/HttpServer.h: a parser for each connection, and the loop
-- that answers every request that a message completes. The handler is a function on a state of its
-- own; what the server asks of the transport is a list of outputs. The shard locks make
-- find_or_create and drop single steps, and a connection's messages come from one thread.
mod Tests
pub mod Shards
pub mod Exchange
pub mod Progress
pub mod Serve
pub mod Wired
use mini_net.Prelude.{
  ℕ, zero, suc, ◌+◌, ◌%◌, Bool, true, false, ◌&&◌, not, List, [], ◌∷◌, ◌++◌, Option, none, some,
  Bytes, text, if◌then◌else◌, Map, get, insert, erase, nat_eq, replicate,
}
use mini_net.Ctype.Decimal.{print_decimal}
use mini_net.Buffer.{Buffer, append, init, initial_size, readable_bytes}
use mini_net.HttpTypes.{HttpRequest, HttpResponse, new_response, set_json, serialize, line256}
use mini_net.HttpParser.{
  Parser, new_parser, reset, parse, Result, need_more, complete, error, Error, Outcome,
}
use mini_net.ShortUrlService.{increment}
use mini_net.TcpServer.{Output, send, shutdown}

-- HttpConn
pub record Conn : Type 0 where
  pub input : Buffer
  pub parser : Parser

abbrev pub new_conn : Conn
new_conn = record { input = init initial_size; parser = new_parser }

abbrev pub shard_count : ℕ
shard_count = 16

abbrev pub shard_of : ℕ → ℕ
shard_of conn_id = conn_id % shard_count

abbrev pub Shard : Type 0
Shard = Map ℕ Conn

-- shards_[i]: there are shard_count of them, so an index of shard_of is in range.
unfoldable pub shard_at : List Shard → ℕ → Shard
shard_at [] i = []
shard_at (m ∷ shards) zero = m
shard_at (m ∷ shards) (suc i) = shard_at shards i

unfoldable pub set_shard : List Shard → ℕ → Shard → List Shard
set_shard [] i m = []
set_shard (n ∷ shards) zero m = m ∷ shards
set_shard (n ∷ shards) (suc i) m = n ∷ set_shard shards i m

abbrev pub no_shards : List Shard
no_shards = replicate shard_count []

pub record Server : Type 0 where
  pub shards : List Shard
  pub requests : ℕ
  pub errors : ℕ

abbrev pub new_server : Server
new_server = record { shards = no_shards; requests = 0; errors = 0 }

-- Writing through the pointer that findOrCreate returned.
unfoldable pub put_conn : Server → ℕ → Conn → Server
put_conn s conn_id c =
    let i = shard_of conn_id in
    record s { shards = set_shard s.shards i (insert (shard_at s.shards i) conn_id c) }

unfoldable pub find_conn : Server → ℕ → Option Conn
find_conn s conn_id = get (shard_at s.shards (shard_of conn_id)) conn_id

abbrev pub or_new : Option Conn → Conn
or_new none = new_conn
or_new (some c) = c

-- The connection that is there, or a new one; the slot is written either way.
unfoldable pub find_or_create : Server → ℕ → Conn × Server
find_or_create s conn_id = let c = or_new (find_conn s conn_id) in (c, put_conn s conn_id c)

unfoldable pub drop : Server → ℕ → Server
drop s conn_id =
    let i = shard_of conn_id in
    record s { shards = set_shard s.shards i (erase (shard_at s.shards i) conn_id) }

-- A connection that opens or closes starts from nothing.
unfoldable pub on_connection : Server → ℕ → Bool → Server
on_connection s conn_id connected = drop s conn_id

-- What a message changes: the connection, the handler's state, the counters and the outputs.
pub record Turn (S : Type 0) : Type 0 where
  pub conn : Conn
  pub app : S
  pub requests : ℕ
  pub errors : ℕ
  pub outputs : List Output

unfoldable pub error_response : Error → HttpResponse
error_response e =
    set_json (record new_response { status = e.status; keep_alive = false })
      (text "{\"error\":\"" ++ (e.code ++ (text "\",\"detail\":\"" ++ (e.detail ++ text "\"}"))))

abbrev pub Handler : Type 0 → Type 0
Handler S = S → HttpRequest → HttpResponse → S × HttpResponse

module _ {S : Type 0} where
  unfoldable pub handle_error : Error → Turn S → Turn S
  handle_error e t = record t {
    errors = increment t.errors;
    outputs = t.outputs ++ send (serialize (error_response e)) ∷ shutdown ∷ [];
  }

  -- handler_ may be empty.
  unfoldable pub run_handler :
      Option (Handler S) → S → HttpRequest → HttpResponse → S × HttpResponse
  run_handler (some handler) app req r = handler app req r
  run_handler none app req r = (
    app,
    set_json (record r { status = 404 })
        (text "{\"error\":\"not_found\",\"detail\":\"没有设置 handler\"}"),
  )

  -- Whether the loop goes on, and the turn.
  unfoldable pub answer : HttpRequest → Turn S → S × HttpResponse → Bool × Turn S
  answer req t (app, r) =
      let sent = record t {
        app = app;
        requests = increment t.requests;
        outputs = t.outputs ++ send (serialize r) ∷ [];
      } in
      if req.keep_alive && r.keep_alive
      then (true, record sent { conn = record sent.conn { parser = reset sent.conn.parser } })
      else (false, record sent { outputs = sent.outputs ++ shutdown ∷ [] })

  unfoldable pub react : Option (Handler S) → Result → Turn S → Bool × Turn S
  react handler need_more t = (false, t)
  react handler (error e) t = (false, handle_error e t)
  react handler complete t =
      let req = t.conn.parser.req in
      answer req t
        (run_handler handler t.app req (record new_response { keep_alive = req.keep_alive }))

  -- One round of the loop of onMessage.
  unfoldable pub message_round : Option (Handler S) → Turn S → Option (Bool × Turn S)
  message_round handler t = elim (parse t.conn.parser t.conn.input) [
    | none ↦ none
    | some (result, p, b) ↦
        some (react handler result (record t { conn = record { input = b; parser = p } }))
  ]

  unfoldable pub message_loop : ℕ → Option (Handler S) → Turn S → Option (Turn S)
  message_loop zero handler t = none
  message_loop (suc fuel) handler t = elim (message_round handler t) [
    | none ↦ none
    | some (false, t') ↦ some t'
    | some (true, t') ↦ message_loop fuel handler t'
  ]

  -- A round that goes on has reset the parser, and from there each request takes a line at least.
  unfoldable pub answer_all : Option (Handler S) → Turn S → Option (Turn S)
  answer_all handler t = message_loop (suc (suc (readable_bytes t.conn.input))) handler t

  abbrev pub after_message : Server → ℕ → Option (Turn S) → Option (Server × S × List Output)
  after_message s conn_id none = none
  after_message s conn_id (some t) = some (
    record (put_conn s conn_id t.conn) { requests = t.requests; errors = t.errors },
    t.app,
    t.outputs,
  )

  -- HttpServer::onMessage
  unfoldable pub on_message :
      Option (Handler S) → Server → S → ℕ → Bytes → Option (Server × S × List Output)
  on_message handler s app conn_id bytes =
      let (c, s') = find_or_create s conn_id in
      after_message s' conn_id (
        answer_all handler (record {
          conn = record c { input = append c.input bytes };
          app = app;
          requests = s'.requests;
          errors = s'.errors;
          outputs = [];
        }))

-- What buildMetrics reads of the transport.
pub record Transport : Type 0 where
  pub alive : ℕ
  pub total : ℕ
  pub bytes_in : ℕ

unfoldable pub transport_metrics : Option Transport → Bytes
transport_metrics none = []
transport_metrics (some t) =
    line256 (text "alive_connections " ++ (print_decimal t.alive ++ text "\n"))
    ++ (line256 (text "total_connections " ++ (print_decimal t.total ++ text "\n"))
        ++ line256 (text "total_bytes_in " ++ (print_decimal t.bytes_in ++ text "\n")))

abbrev pub provide : Option (Bytes → Bytes) → Bytes → Bytes
provide none out = out
provide (some provider) out = provider out

-- uptime is not negative, since the clock is steady.
unfoldable pub build_metrics : Server → ℕ → Option Transport → Option (Bytes → Bytes) → Bytes
build_metrics s uptime transport provider = provide provider (
    line256 (text "uptime_seconds " ++ (print_decimal uptime ++ text "\n"))
    ++ (transport_metrics transport
        ++ line256 (text "total_requests " ++ (print_decimal s.requests ++ text "\n"))))
