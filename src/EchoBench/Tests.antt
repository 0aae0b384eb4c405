-- ===== src/EchoBench/Tests.antt =====
-- Runs of the client, and its theorems at an input.
use mini_net.Prelude.{
  ℕ, ◌+◌, ◌≤◌, ◌≡◌, ◌↔◌, refl, inl, sym, ◌∙◌, arith, Bytes, text, Option, none, some, true, false,
  List, [], ◌∷◌, ◌++◌, length, append-nil,
}
use mini_net.Buffer.{Buffer, init, append}
use mini_net.Buffer.View.{IsValid, contents, init-IsValid}
use mini_net.Buffer.Space.{append-Refines}
use mini_net.Ctype.{pos}
use mini_net.Ctype.Decimal.{print_decimal}
use mini_net.HttpTypes.{HttpResponse}
use mini_net.HttpParser.{Parser, parse, new_parser, max_body_bytes}
use mini_net.HttpParser as Parser
use mini_net.HttpParser.Fields.{IsText}
use mini_net.HttpParser.Whole.{IsWord}
use mini_net.EchoBench.Helpers.{expand_placeholder, expand}
use mini_net.EchoBench.Requests.{build_http_request, host_header}
use mini_net.EchoBench.Requests.ReadByServer.{sent_request, parse-build_http_request}
use mini_net.EchoBench.Responses.{parse_one, need_more}
use mini_net.EchoBench.Responses.Written.{IsWritable}
use mini_net.EchoBench.Payload.{verify_chunk}
use mini_net.EchoBench.Payload.Echoed.{echoed}
use mini_net.EchoBench.Options.{Arg, port_is, mode_is, duration_is, Double, finite, seconds}
use mini_net.EchoBench.Options as Options
use mini_net.EchoBench.Options.InRange.{Ensures}
use mini_net.EchoBench.Options.Usable.{IsUsable, parse_args-IsUsable}
use mini_net.EchoBench.Connections.{
  waiting, ready, done, World, At, Plan, Env, took, got, close_conn, wanted, modify, update_events,
  more_requests, queue_request, refill_loop, refill, progress, flush_loop, flush_out, pump_loop,
  pump,
}
use mini_net.EchoBench.Connections.Receive.{
  keep_latency, take_time, count_status, on_response_complete, drain_http, complete_echoes,
  take_echo, take_bytes, peer_closed, read_loop, do_read,
}
use mini_net.EchoBench.Connections.Events.{
  SocketError, error_is, Event, maybe_finish, after_read, on_event, start_conn,
}
use mini_net.EchoBench.Connections.Loop.{
  Bench, each, for_each, begin, maybe_start, periodic_scan, handle_events, turn, loop, exit_code,
}
use mini_net.EchoBench.Connections.Setup.{
  plan_of, Target, Calls, at_once, new_conn, new_totals, request_of, socket_trouble, start_connect,
  counted, added, settle, setup_conn, setup_conns, run_loop, run,
}
use mini_net.EchoBench.Connections.Drains.{written, IsDrained, drain_http-written}
use mini_net.EchoBench.Connections.Echoes.{IsTaken, take_echo-IsTaken}
use mini_net.EchoBench.Connections.Sound.Rounds.{IsWhole, shares, loop-IsWhole}
use mini_net.EchoBench.Connections.Sound.Exit.{AllAnswered, run-AllAnswered}

-- Every number is 30.
half_minute : Bytes → Option Double
half_minute s = some (finite (pos (seconds 30)))

parse_args-IsUsable_example : Ensures IsUsable (
    Options.parse_args half_minute
      (port_is (text "9000") ∷ mode_is (text "HTTP") ∷ duration_is (text "30") ∷ []))
parse_args-IsUsable_example =
    parse_args-IsUsable half_minute
      (port_is (text "9000") ∷ mode_is (text "HTTP") ∷ duration_is (text "30") ∷ [])

abbrev asked : Bytes
asked = build_http_request (text "GET") (text "/c") [] (host_header (text "h") 80) 7

get_IsWord : IsWord (text "GET")
unfolding text
get_IsWord = (refl, (refl, (refl, tt)))

empty_fits : length (expand_placeholder [] 7) ≤ max_body_bytes
unfolding expand_placeholder expand
empty_fits = omega arith

abbrev arrived : Buffer
arrived = append (init 0) asked

arrived-IsValid : IsValid arrived
arrived-IsValid = (append-Refines (init 0) asked (init-IsValid 0)).0

arrived_is : contents arrived ≡ asked ++ []
unfolding init
arrived_is = (append-Refines (init 0) asked (init-IsValid 0)).1 ∙ sym (append-nil asked)

path_IsWord : IsWord (expand_placeholder (text "/c") 7)
unfolding expand_placeholder expand text
path_IsWord = (refl, (refl, tt))

name_IsText : IsText (text "h")
unfolding text Parser.trim_end Parser.keep_end
name_IsText = record {
  first = b'h';
  others = [];
  split = refl;
  visible = refl;
  whole = refl;
  one_line = omega arith;
}

lengths_fit :
    length (text "GET")
      + length (expand_placeholder (text "/c") 7)
      + length (host_header (text "h") 80)
    ≤ 8000
unfolding expand_placeholder expand text host_header print_decimal
lengths_fit = omega arith

parse-build_http_request_example :
    (p : Parser) × (b' : Buffer) × (parse new_parser arrived ≡ some (Parser.complete, p, b'))
    × (p.req
        ≡ sent_request
            (text "GET")
            (expand_placeholder (text "/c") 7)
            (host_header (text "h") 80)
            (expand_placeholder [] 7))
    × (contents b' ≡ [])
parse-build_http_request_example =
    parse-build_http_request (text "GET") (text "/c") [] (text "h") [] 80 7 arrived arrived-IsValid
      arrived_is get_IsWord path_IsWord name_IsText lengths_fit empty_fits

abbrev plan : Plan
plan = record {
  http_mode = false;
  duration_mode = false;
  duration_ns = 0;
  requests = 1;
  pipeline = 1;
  size = 2;
  verify = true;
  expect_status = 200 ∷ [];
  timeout_ns = 5000000000;
  connect_timeout_ns = 5000000000;
  echo_payload = b'a' ∷ b'b' ∷ [];
}

abbrev env : Env
env = record { clock = λ n. n + 1; strerror = λ n. []; behind = [] }

abbrev target : Target
target = record { host = text "h"; port = 80; method = text "GET"; path = []; body = [] }

-- A connection that is made at once, sends its request and gets its echo in the first turn.
abbrev calls : Calls
calls = record {
  fd = 5;
  socket_error = none;
  is_address = true;
  bind_error = none;
  connect = at_once;
  add_error = none;
}

abbrev world : World
world = record { tick = 0; mods = []; sends = took 1 ∷ []; recvs = got (b'a' ∷ b'b' ∷ []) ∷ [] }

abbrev turns : List (List (ℕ × Event) × (ℕ → SocketError))
turns = (((0, record { to_read = true; socket_error = error_is 0 }) ∷ []), λ i. error_is 0) ∷ []

abbrev finished : Bench
finished = record {
  conns =
      record new_conn {
        ev_mask = 1;
        state = done;
        req = b'a' ∷ b'b' ∷ [];
        sent_req = 1;
        done_req = 1;
        last_progress = 9;
        echo_recv = 2;
      }
      ∷ [];
  totals = record new_totals {
    started = true;
    ok = 1;
    lat_ns = 3 ∷ [];
    total_bytes_in = 2;
    total_bytes_out = 2;
  };
  world = record { tick = 10; mods = []; sends = []; recvs = [] };
  last_scan_ns = 3;
}

one_run : run plan env target true ([] ∷ []) (calls ∷ []) turns world ≡ (0, some finished)
unfolding run setup_conns setup_conn start_connect socket_trouble settle added counted request_of
    run_loop maybe_start begin for_each each start_conn pump pump_loop flush_out flush_loop progress
    refill refill_loop more_requests queue_request update_events modify wanted maybe_finish loop
    turn handle_events on_event do_read read_loop take_bytes take_echo verify_chunk complete_echoes
    on_response_complete take_time count_status keep_latency peer_closed after_read close_conn
    exit_code periodic_scan
one_run = refl

run-AllAnswered_example :
    ((◌≡◌ {A = ℕ} 0 0) ↔ (AllAnswered plan finished.conns × (finished.totals.bad_status ≡ 0)))
    × (finished.totals.ok + finished.totals.bad_status ≡ (shares plan finished.conns).answered)
run-AllAnswered_example =
    run-AllAnswered plan env target true ([] ∷ []) (calls ∷ []) turns world 0 finished one_run refl

-- A client whose only connection waits for the start.
abbrev waiting_bench : Bench
waiting_bench = record {
  conns =
      record new_conn { fd = some 5; ev_mask = 1; state = waiting; req = b'a' ∷ b'b' ∷ [] } ∷ [];
  totals = record new_totals { alive_count = 1 };
  world = world;
  last_scan_ns = 0;
}

waiting_bench-IsWhole : IsWhole plan env waiting_bench
waiting_bench-IsWhole = ground arith

loop-IsWhole_example : IsWhole plan env (loop plan env turns waiting_bench)
loop-IsWhole_example = loop-IsWhole plan env turns waiting_bench waiting_bench-IsWhole

abbrev found : HttpResponse
found = record {
  status = 200;
  content_type = text "text/plain";
  body = text "ok";
  extra_headers = [];
  keep_alive = true;
}

found-IsWritable : IsWritable found
unfolding text
found-IsWritable = ground arith

abbrev rest : Bytes
rest = text "HTTP/1.1"

rest_ends : parse_one rest ≡ need_more
unfolding parse_one text
rest_ends = refl

abbrev received : At
received = record {
  conn = record new_conn { received = written (found ∷ found ∷ []) ++ rest; inflight = 2 };
  totals = new_totals;
  world = world;
}

drain_http-written_example :
    IsDrained plan env (found ∷ found ∷ []) rest received (drain_http plan env received)
drain_http-written_example =
    drain_http-written plan env (found ∷ found ∷ []) rest received
      (found-IsWritable, (found-IsWritable, tt)) refl rest_ends

abbrev sent_one : At
sent_one = record {
  conn = record new_conn { inflight = 1; state = ready };
  totals = new_totals;
  world = world;
}

abbrev two_bytes : Options.Options
two_bytes = record Options.defaults { size = 2 }

two_bytes-IsUsable : IsUsable two_bytes
unfolding Options.defaults
two_bytes-IsUsable = record {
  in_range =
      let no_time : Options.InRange.IsDuration (finite (pos 0)) =
        Options.InRange.within 0 (omega arith) in
      ground arith;
  ends = inl (omega arith);
  fits = omega arith;
  by_mode = inl refl;
}

two_bytes_echo : two_bytes.mode ≡ text "echo"
unfolding Options.defaults
two_bytes_echo = refl

two_bytes_checked : two_bytes.verify ≡ true
unfolding Options.defaults
two_bytes_checked = refl

take_echo-IsTaken_example :
    (((take_echo (plan_of two_bytes) env (b'a' ∷ b'b' ∷ []) sent_one).0 ≡ true)
      ↔ (b'a' ∷ b'b' ∷ [] ≡ echoed (plan_of two_bytes).echo_payload 0 2))
    × ((take_echo (plan_of two_bytes) env (b'a' ∷ b'b' ∷ []) sent_one).0 ≡ true
        → IsTaken
            (plan_of two_bytes)
            env
            2
            sent_one
            (take_echo (plan_of two_bytes) env (b'a' ∷ b'b' ∷ []) sent_one))
take_echo-IsTaken_example =
    take_echo-IsTaken two_bytes env (b'a' ∷ b'b' ∷ []) sent_one two_bytes-IsUsable two_bytes_echo
      two_bytes_checked (omega arith)
