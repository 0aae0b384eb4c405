-- ===== src/HttpParser/Tests.antt =====
-- Runs of the parser.
use mini_net.Prelude.{◌≡◌, refl, Bytes, text, Option, none, some, []}
use mini_net.Buffer.{Buffer, init, append, find_eol, retrieve_until, retrieve_as_string}
use mini_net.HttpTypes.{find_header}
use mini_net.Ctype.{skip_spaces, extract, word, after_word, strtol}
use mini_net.Buffer.View.{init-IsValid}
use mini_net.Buffer.Space.{append-Refines}
use mini_net.HttpParser.Total.{Ends, parse-Ends}
use mini_net.HttpParser.Agree.{Agree}
use mini_net.HttpParser.Resume.{parse-append}
use mini_net.HttpParser.{
  parse_loop, parse_round, parse_request_line, take_request_line, trim, trim_end, keep_end,
  accept_line, three_words, accept_words, set_target, before_mark, after_mark, advance,
  parse_headers, headers_loop, headers_round, take_header, header_line, end_headers, chunked,
  framing, use_framing, set_connection, keep_alive_after, add_header, checked_length, parse_body,
  wait_request_line, Result, need_more, complete, new_parser, parse, Outcome,
}

abbrev target_of : Option Outcome → Option (Result × Bytes × Bytes)
target_of none = none
target_of (some (r, p, b)) = some (r, p.req.target, p.req.body)

abbrev loaded : Bytes → Buffer
loaded s = append (init 0) s

get_request :
    target_of (parse new_parser (loaded (text "GET /x?y HTTP/1.1\r\nHost: a\r\n\r\n")))
    ≡ some (complete, text "/x?y", [])
unfolding parse parse_loop parse_round append init find_eol retrieve_until text find_header
    parse_request_line take_request_line trim trim_end keep_end skip_spaces accept_line three_words
    extract word after_word accept_words set_target before_mark after_mark advance parse_headers
    headers_loop headers_round take_header header_line end_headers chunked framing use_framing
    set_connection keep_alive_after add_header
get_request = refl

post_request :
    target_of (parse new_parser (loaded (text "POST /x HTTP/1.1\nContent-Length: 3\n\nabcd")))
    ≡ some (complete, text "/x", text "abc")
unfolding parse parse_loop parse_round append init find_eol retrieve_until retrieve_as_string text
    find_header parse_request_line take_request_line trim trim_end keep_end skip_spaces accept_line
    three_words extract word after_word accept_words set_target before_mark after_mark advance
    parse_headers headers_loop headers_round take_header header_line end_headers chunked framing
    use_framing set_connection keep_alive_after add_header checked_length strtol parse_body
post_request = refl

parse-Ends_example :
    Ends (loaded (text "GET / HTTP/1.1")) (parse new_parser (loaded (text "GET / HTTP/1.1")))
parse-Ends_example =
    parse-Ends new_parser (loaded (text "GET / HTTP/1.1"))
      (append-Refines (init 0) (text "GET / HTTP/1.1") (init-IsValid 0)).0

abbrev first_piece : Buffer
first_piece = loaded (text "GET /x HT")

first_piece_waits :
    parse new_parser first_piece
    ≡ some (need_more, record new_parser { header_bytes = 9 }, first_piece)
unfolding parse parse_loop parse_round append init find_eol text parse_request_line
    wait_request_line advance
first_piece_waits = refl

parse-append_example :
    (o : Outcome) × (o1 : Outcome) × (parse new_parser (append first_piece (text "TP/1.1\r\n\r\n"))
      ≡ some o)
    × (parse (record new_parser { header_bytes = 9 }) (append first_piece (text "TP/1.1\r\n\r\n"))
        ≡ some o1)
    × Agree o o1
parse-append_example =
    parse-append new_parser first_piece (record new_parser { header_bytes = 9 }) first_piece
      (text "TP/1.1\r\n\r\n") (append-Refines (init 0) (text "GET /x HT") (init-IsValid 0)).0
      first_piece_waits
