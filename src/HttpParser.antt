-- ===== src/HttpParser.antt =====
-- src/HttpParser.cc and include/mini_net/HttpParser.h: the incremental HTTP/1.1 request parser.
-- A call returns its result, the parser's new state and what it left of the buffer. Each loop of
-- the source is a step function and a loop on fuel; HttpParser/Total shows that the fuel suffices.
mod Tests
pub mod Lines
pub mod Total
pub mod Step
pub mod Agree
pub mod Waits
pub mod Grows
pub mod Resume
pub mod Fields
pub mod Whole
use mini_net.Prelude.{
  ℕ, zero, suc, ◌+◌, ◌-◌, Bool, true, false, [], ◌∷◌, ◌++◌, Option, none, some, map, Bytes, text,
  bytes_eq, ltb, ◌==◌, if◌then◌else◌, length, drop,
}
use mini_net.Buffer.{Buffer, readable_bytes, peek, find_eol, retrieve_until, retrieve_as_string}
use mini_net.Ctype.{
  to_lower, is_space, starts_with, contains, skip_spaces, extract, ℤ, pos, negsuc, strtol,
}
use mini_net.HttpTypes.{HttpRequest, empty_request, find_header}

pub data State : Type 0 where
  request_line headers body done : State

pub record Error : Type 0 where
  pub status : ℕ
  pub code : Bytes
  pub detail : Bytes

pub data Result : Type 0 where
  need_more : Result
  complete : Result
  error : Error → Result

abbrev pub max_header_bytes : ℕ
max_header_bytes = 8192

abbrev pub max_body_bytes : ℕ
max_body_bytes = 8192

pub record Parser : Type 0 where
  pub state : State
  pub req : HttpRequest
  pub content_length : ℕ
  pub header_bytes : ℕ

abbrev pub new_parser : Parser
new_parser = record {
  state = request_line;
  req = empty_request;
  content_length = 0;
  header_bytes = 0;
}

-- reset()
abbrev pub reset : Parser → Parser
reset p = new_parser

abbrev pub lower : Bytes → Bytes
lower s = map to_lower s

-- The second loop of trim: spaces at the end go.
unfoldable pub keep_end : ℕ → Bytes → Bytes
keep_end c [] = if is_space c then [] else c ∷ []
keep_end c (d ∷ r) = c ∷ d ∷ r

unfoldable pub trim_end : Bytes → Bytes
trim_end [] = []
trim_end (c ∷ s) = keep_end c (trim_end s)

unfoldable pub trim : Bytes → Bytes
trim s = trim_end (skip_spaces s)

abbrev pub Outcome : Type 0
Outcome = Result × Parser × Buffer

-- What a round of a loop does: leave the loop, or go round again.
pub data Round : Type 0 where
  leave : Outcome → Round
  again : Parser → Buffer → Round

unfoldable pub bad_request : Bytes → Result
bad_request detail = error (record { status = 400; code = text "bad_request"; detail = detail })

unfoldable pub headers_too_large : Bytes → Result
headers_too_large detail =
    error (record { status = 431; code = text "headers_too_large"; detail = detail })

-- target.find('?') and the two substr: what stands before the mark, and behind it.
unfoldable pub before_mark : ℕ → Bytes → Bytes
before_mark m [] = []
before_mark m (c ∷ s) = if c == m then [] else c ∷ before_mark m s

unfoldable pub after_mark : ℕ → Bytes → Option Bytes
after_mark m [] = none
after_mark m (c ∷ s) = if c == m then some s else after_mark m s

-- req_.query stays as it was where the target has no '?'.
unfoldable pub set_target : HttpRequest → Bytes → Bytes → Bytes → HttpRequest
set_target r method target version = record r {
  method = method;
  target = target;
  version = version;
  path = before_mark b'?' target;
  query = elim (after_mark b'?' target) [ none ↦ r.query | some q ↦ q ];
  keep_alive = bytes_eq version (text "HTTP/1.1");
}

-- iss >> method >> target >> version
unfoldable pub three_words : Bytes → Option (Bytes × Bytes × Bytes)
three_words s = elim (extract s) [
  | none ↦ none
  | some (method, s1) ↦ elim (extract s1) [
    | none ↦ none
    | some (target, s2) ↦ elim (extract s2) [
      | none ↦ none
      | some (version, s3) ↦ some (method, target, version)
    ]
  ]
]

-- The checks on the words of a request line, and the request that they make.
unfoldable pub accept_words : HttpRequest → Option (Bytes × Bytes × Bytes) → Result × HttpRequest
accept_words r none = (bad_request (text "请求行格式非法（应为 METHOD TARGET VERSION）"), r)
accept_words r (some (method, target, version)) =
    if starts_with (text "HTTP/") version
    then (let ver = drop 5 version in
        if bytes_eq ver (text "1.0")
        then (complete, set_target r method target version)
        else if bytes_eq ver (text "1.1")
        then (complete, set_target r method target version)
        else (
          error (record {
            status = 505;
            code = text "unsupported_version";
            detail = text "只支持 HTTP/1.0 与 HTTP/1.1";
          }),
          r,
        ))
    else (bad_request (text "缺少 HTTP 版本"), r)

unfoldable pub accept_line : HttpRequest → Bytes → Result × HttpRequest
accept_line r [] = (bad_request (text "请求行为空"), r)
accept_line r (c ∷ clean) = accept_words r (three_words (c ∷ clean))

-- No newline yet: the size of what is there is recorded.
unfoldable pub wait_request_line : Parser → Buffer → Outcome
wait_request_line p b = (
  if ltb max_header_bytes (readable_bytes b)
      then headers_too_large (text "请求行或请求头超过 8 KiB")
      else need_more,
  record p { header_bytes = readable_bytes b },
  b,
)

-- A line, with `b` behind it.
unfoldable pub take_request_line : Parser → Bytes → Buffer → Outcome
take_request_line p line b =
    let (result, req) = accept_line p.req (trim line) in
    (result, record p { req = req; header_bytes = p.header_bytes + (length line + 1) }, b)

unfoldable pub parse_request_line : Parser → Buffer → Outcome
parse_request_line p b = elim (find_eol b) [
  | none ↦ wait_request_line p b
  | some eol ↦ take_request_line p (peek b (eol - b.read_idx)) (retrieve_until b (eol + 1))
]

-- What the Content-Length header says: nothing, a length, or an error.
pub data Framing : Type 0 where
  no_length : Framing
  has_length : ℕ → Framing
  refused : Result → Framing

unfoldable pub checked_length : Option ℤ → Framing
checked_length none = refused (bad_request (text "Content-Length 非法"))
checked_length (some (negsuc n)) = refused (bad_request (text "Content-Length 非法"))
checked_length (some (pos n)) =
    if ltb max_body_bytes n
    then refused (
        error
          (record { status = 413; code = text "payload_too_large"; detail = text "请求体超过 8 KiB" }))
    else has_length n

unfoldable pub framing : Option Bytes → Framing
framing none = no_length
framing (some value) = checked_length (strtol value)

unfoldable pub keep_alive_after : Option Bytes → Bool → Bool
keep_alive_after none old = old
keep_alive_after (some value) old =
    let c = lower (trim value) in
    if bytes_eq c (text "close")
    then false
    else if bytes_eq c (text "keep-alive")
    then true
    else old

unfoldable pub chunked : Option Bytes → Bool
chunked none = false
chunked (some value) = contains (text "chunked") (lower value)

unfoldable pub set_connection : Parser → Parser
set_connection p = record p {
  req = record p.req {
    keep_alive = keep_alive_after (find_header p.req.headers (text "connection")) p.req.keep_alive;
  };
}

unfoldable pub use_framing : Parser → Framing → Result × Parser
use_framing p no_length = (complete, set_connection p)
use_framing p (has_length n) = (complete, set_connection (record p { content_length = n }))
use_framing p (refused e) = (e, p)

-- The blank line.
unfoldable pub end_headers : Parser → Result × Parser
end_headers p =
    if chunked (find_header p.req.headers (text "transfer-encoding"))
    then (
      error (record {
        status = 501;
        code = text "unsupported_transfer_encoding";
        detail = text "v1 暂不支持 chunked 请求体";
      }),
      p,
    )
    else use_framing p (framing (find_header p.req.headers (text "content-length")))

-- req_.headers.emplace_back(lower(trim(name)), trim(value))
unfoldable pub add_header : Parser → Bytes → Option Bytes → Buffer → Round
add_header p name none b = leave (bad_request (text "请求头缺少冒号"), p, b)
add_header p name (some value) b =
    again
      (record p {
        req = record p.req { headers = p.req.headers ++ (lower (trim name), trim value) ∷ [] };
      })
      b

unfoldable pub header_line : Parser → Bytes → Buffer → Round
header_line p [] b = let (result, p') = end_headers p in leave (result, p', b)
header_line p (c ∷ line) b =
    add_header p (before_mark b':' (c ∷ line)) (after_mark b':' (c ∷ line)) b

unfoldable pub wait_headers : Parser → Buffer → Outcome
wait_headers p b =
    let total = p.header_bytes + readable_bytes b in
    (
      if ltb max_header_bytes total then headers_too_large (text "请求头超过 8 KiB") else need_more,
      record p { header_bytes = total },
      b,
    )

unfoldable pub take_header : Parser → Bytes → Buffer → Round
take_header p raw b =
    let p' = record p { header_bytes = p.header_bytes + (length raw + 1) } in
    if ltb max_header_bytes p'.header_bytes
    then leave (headers_too_large (text "请求头超过 8 KiB"), p', b)
    else header_line p' (trim raw) b

-- One round of the loop of parseHeaders.
unfoldable pub headers_round : Parser → Buffer → Round
headers_round p b = elim (find_eol b) [
  | none ↦ leave (wait_headers p b)
  | some eol ↦ take_header p (peek b (eol - b.read_idx)) (retrieve_until b (eol + 1))
]

unfoldable pub headers_loop : ℕ → Parser → Buffer → Option Outcome
headers_loop zero p b = none
headers_loop (suc fuel) p b = elim (headers_round p b) [
  | leave o ↦ some o
  | again p' b' ↦ headers_loop fuel p' b'
]

-- Each round but the last takes a line, so there are at most as many as bytes, and one.
unfoldable pub parse_headers : Parser → Buffer → Option Outcome
parse_headers p b = headers_loop (suc (readable_bytes b)) p b

unfoldable pub parse_body : Parser → Buffer → Outcome
parse_body p b =
    if ltb (readable_bytes b) p.content_length
    then (need_more, p, b)
    else (let (bytes, b') = retrieve_as_string b p.content_length in
        (complete, record p { req = record p.req { body = bytes } }, b'))

-- A case of the switch: an unfinished result is returned, and a complete one moves to `next`.
unfoldable pub advance : (Parser → State) → Outcome → Round
advance next (complete, p, b) = again (record p { state = next p }) b
advance next (need_more, p, b) = leave (need_more, p, b)
advance next (error e, p, b) = leave (error e, p, b)

abbrev pub after_headers : Parser → State
after_headers p = if p.content_length == 0 then done else body

unfoldable pub parse_round : State → Parser → Buffer → Option Round
parse_round request_line p b = some (advance (λ p'. headers) (parse_request_line p b))
parse_round headers p b = elim (parse_headers p b) [
  | none ↦ none
  | some o ↦ some (advance after_headers o)
]
parse_round body p b = some (advance (λ p'. done) (parse_body p b))
parse_round done p b = some (leave (complete, p, b))

unfoldable pub parse_loop : ℕ → Parser → Buffer → Option Outcome
parse_loop zero p b = none
parse_loop (suc fuel) p b = elim (parse_round p.state p b) [
  | none ↦ none
  | some (leave o) ↦ some o
  | some (again p' b') ↦ parse_loop fuel p' b'
]

-- The states only go forward, so four rounds are enough.
unfoldable pub parse : Parser → Buffer → Option Outcome
parse p b = parse_loop 4 p b
