-- ===== src/EchoBench/Requests.antt =====
-- bench/echo_bench.cc: the request that a connection of the client repeats.
pub mod ReadByServer
use mini_net.Prelude.{ℕ, Bool, true, false, List, [], ◌∷◌, ◌++◌, Bytes, text, length}
use mini_net.Ctype.Decimal.{print_decimal}
use mini_net.EchoBench.Helpers.{expand_placeholder}

-- host_header_, as resolveTarget sets it.
unfoldable pub host_header : Bytes → ℕ → Bytes
host_header host port = host ++ (text ":" ++ print_decimal port)

-- The two headers of a body, where there is one.
unfoldable pub body_headers : Bytes → Bytes
body_headers [] = []
body_headers (c ∷ content) =
    text "Content-Type: application/json\r\n"
    ++ (text "Content-Length: " ++ (print_decimal (length (c ∷ content)) ++ text "\r\n"))

-- `path` and `body` with their placeholders.
unfoldable pub build_http_request : Bytes → Bytes → Bytes → Bytes → ℕ → Bytes
build_http_request method path body host conn_index =
    let target = expand_placeholder path conn_index in
    let content = expand_placeholder body conn_index in
    method
    ++ (text " "
        ++ (target
            ++ (text " HTTP/1.1\r\n"
                ++ (text "Host: "
                    ++ (host
                        ++ (text "\r\n"
                            ++ (text "User-Agent: mini-net-echo_bench/1.0\r\n"
                                ++ (text "Accept: */*\r\n"
                                    ++ (text "Connection: keep-alive\r\n"
                                        ++ (body_headers content
                                            ++ (text "\r\n" ++ content)))))))))))
