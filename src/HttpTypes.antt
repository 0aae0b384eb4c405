-- ===== src/HttpTypes.antt =====
-- include/mini_net/HttpTypes.h: requests, responses, and how a response is written.
use mini_net.Prelude.{
  ℕ, Bool, true, List, [], ◌∷◌, ◌++◌, Option, none, some, Bytes, text, bytes_eq, ◌==◌,
  if◌then◌else◌, length, take,
}
use mini_net.Ctype.Decimal.{print_decimal}

pub record HttpRequest : Type 0 where
  pub method : Bytes
  pub target : Bytes
  pub path : Bytes
  pub query : Bytes
  pub version : Bytes
  pub headers : List (Bytes × Bytes)
  pub body : Bytes
  pub keep_alive : Bool

abbrev pub empty_request : HttpRequest
empty_request = record {
  method = [];
  target = [];
  path = [];
  query = [];
  version = [];
  headers = [];
  body = [];
  keep_alive = true;
}

unfoldable pub find_header : List (Bytes × Bytes) → Bytes → Option Bytes
find_header [] key = none
find_header ((k, v) ∷ rest) key = if bytes_eq k key then some v else find_header rest key

pub record HttpResponse : Type 0 where
  pub status : ℕ
  pub content_type : Bytes
  pub body : Bytes
  pub extra_headers : List (Bytes × Bytes)
  pub keep_alive : Bool

unfoldable pub plain_text : Bytes
plain_text = text "text/plain; charset=utf-8"

unfoldable pub json_type : Bytes
json_type = text "application/json; charset=utf-8"

abbrev pub new_response : HttpResponse
new_response = record {
  status = 200;
  content_type = plain_text;
  body = [];
  extra_headers = [];
  keep_alive = true;
}

abbrev pub set_json : HttpResponse → Bytes → HttpResponse
set_json r s = record r { content_type = json_type; body = s }

unfoldable pub reason : ℕ → Bytes
reason code =
    if code == 200
    then text "OK"
    else if code == 201
    then text "Created"
    else if code == 302
    then text "Found"
    else if code == 400
    then text "Bad Request"
    else if code == 404
    then text "Not Found"
    else if code == 405
    then text "Method Not Allowed"
    else if code == 408
    then text "Request Timeout"
    else if code == 413
    then text "Payload Too Large"
    else if code == 431
    then text "Request Header Fields Too Large"
    else if code == 500
    then text "Internal Server Error"
    else if code == 501
    then text "Not Implemented"
    else if code == 505
    then text "HTTP Version Not Supported"
    else text "Unknown"

-- snprintf into `char line[256]` keeps at most 255 bytes.
abbrev pub line256 : Bytes → Bytes
line256 s = take 255 s

unfoldable pub crlf : Bytes
crlf = text "\r\n"

unfoldable pub write_headers : List (Bytes × Bytes) → Bytes
write_headers [] = []
write_headers ((k, v) ∷ rest) = (k ++ (text ": " ++ (v ++ crlf))) ++ write_headers rest

unfoldable pub serialize : HttpResponse → Bytes
unfolding reason print_decimal write_headers
serialize r =
    line256
      (text "HTTP/1.1 " ++ (print_decimal r.status ++ (text " " ++ (reason r.status ++ crlf))))
    ++ (line256 (text "Content-Length: " ++ (print_decimal (length r.body) ++ crlf))
        ++ ((text "Content-Type: " ++ (r.content_type ++ crlf))
            ++ ((if r.keep_alive
                  then text "Connection: keep-alive\r\n"
                  else text "Connection: close\r\n")
                ++ (write_headers r.extra_headers ++ (crlf ++ r.body)))))
