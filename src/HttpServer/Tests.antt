-- ===== src/HttpServer/Tests.antt =====
-- Runs of the server, and its theorems at an input.
use mini_net.Prelude.{
  ℕ, suc, get, insert, nat_eq, ◌≡◌, ◌≢◌, refl, Bytes, text, Option, none, some, true, List, length,
}
use mini_net.Buffer.{init, append, find_eol, retrieve_until}
use mini_net.HttpTypes.{find_header}
use mini_net.Ctype.{skip_spaces, extract, word, after_word}
use mini_net.HttpParser.{
  parse, parse_loop, parse_round, parse_request_line, take_request_line, trim, trim_end, keep_end,
  accept_line, three_words, accept_words, set_target, before_mark, after_mark, advance,
  parse_headers, headers_loop, headers_round, take_header, header_line, end_headers, chunked,
  framing, use_framing, set_connection, keep_alive_after, add_header,
}
use mini_net.TcpServer.{Output}
use mini_net.HttpServer.{
  Server, new_server, Handler, on_message, on_connection, find_conn, find_or_create, put_conn,
  shard_at, set_shard, answer_all, message_loop, message_round, react, answer, run_handler,
}
use mini_net.HttpServer.Serve.{
  IsServer, Served, on_message-Served, on_connection-forgets, new_server-IsServer,
}

-- A handler that counts the requests and answers with the path.
abbrev echo : Handler ℕ
echo n req r = (suc n, record r { body = req.path })

abbrev two_requests : Bytes
two_requests = text "GET /a HTTP/1.1\r\n\r\nGET /b HTTP/1.0\r\n\r\n"

on_message-Served_example :
    Served
      (some echo)
      new_server
      0
      7
      two_requests
      (on_message (some echo) new_server 0 7 two_requests)
on_message-Served_example =
    on_message-Served (some echo) new_server 0 7 two_requests new_server-IsServer

on_connection-forgets_example :
    IsServer (on_connection new_server 7 true)
    × (find_conn (on_connection new_server 7 true) 7 ≡ none)
    × ((j : ℕ) → 7 ≢ j → find_conn (on_connection new_server 7 true) j ≡ find_conn new_server j)
on_connection-forgets_example = on_connection-forgets new_server 7 true new_server-IsServer

abbrev summary : Option (Server × ℕ × List Output) → Option (ℕ × ℕ × ℕ)
summary none = none
summary (some (s, n, outputs)) = some (s.requests, n, length outputs)

-- Both requests of one message are answered, and the second closes the connection.
pipelined : summary (on_message (some echo) new_server 0 7 two_requests) ≡ some (2, 2, 3)
unfolding on_message find_or_create find_conn put_conn shard_at set_shard get insert answer_all
    message_loop message_round react answer run_handler parse parse_loop parse_round append init
    find_eol retrieve_until text find_header parse_request_line take_request_line trim trim_end
    keep_end skip_spaces accept_line three_words extract word after_word accept_words set_target
    before_mark after_mark advance parse_headers headers_loop headers_round take_header header_line
    end_headers chunked framing use_framing set_connection keep_alive_after add_header
pipelined = refl
