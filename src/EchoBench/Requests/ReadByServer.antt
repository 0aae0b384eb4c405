-- ===== src/EchoBench/Requests/ReadByServer.antt =====
-- The server's parser reads the request that the client writes.
use mini_net.Prelude.{
  ℕ, ◌+◌, ◌≤◌, ◌<◌, ◌≡◌, refl, sym, ap, ◌∙◌, Bool, true, false, List, [], ◌∷◌, ◌++◌, append_assoc,
  append-nil, none, some, Bytes, text, arith, length, length-append, ltb, not, ◌&&◌, and-true, ◌==◌,
  ==_iff,
}
use mini_net.Buffer.{Buffer}
use mini_net.Buffer.View.{contents, IsValid}
use mini_net.Buffer.Search.{Lacks}
use mini_net.Ctype.{strtol, skip_spaces, is_space}
use mini_net.Ctype.Decimal.{print_decimal}
use mini_net.Ctype.Decimal.ReadBack.{
  AllDigits, digit_not_space, length-print_decimal, print_decimal-AllDigits, print_decimal-ne-nil,
  strtol-print_decimal,
}
use mini_net.HttpTypes.{HttpRequest, find_header}
use mini_net.HttpParser.{
  Parser, new_parser, trim_end, keep_end, parse, complete, before_mark, after_mark, max_body_bytes,
  end_headers, trim, chunked, framing, checked_length, use_framing, set_connection, has_length,
  keep_alive_after, set_target,
}
use mini_net.HttpParser.Fields.{IsText, IsField, AreFields, written, IsText-between}
use mini_net.HttpParser.Whole.{
  IsWord, AllVisible, word-IsText, request_text, with_blank, parse-request_text,
}
use mini_net.EchoBench.Helpers.{expand_placeholder}
use mini_net.EchoBench.Requests.{build_http_request, body_headers, host_header}

abbrev user_agent : Bytes
user_agent = text "mini-net-echo_bench/1.0"

-- The headers of the request, as the server keeps them.
abbrev content_headers : Bytes → List (Bytes × Bytes)
content_headers [] = []
content_headers (c ∷ content) =
    (text "content-type", text "application/json")
    ∷ (text "content-length", print_decimal (length (c ∷ content)))
    ∷ []

-- The request as the server has it.
abbrev pub sent_request : Bytes → Bytes → Bytes → Bytes → HttpRequest
sent_request method target host content = record {
  method = method;
  target = target;
  path = before_mark b'?' target;
  query = elim (after_mark b'?' target) [ none ↦ [] | some q ↦ q ];
  version = text "HTTP/1.1";
  headers =
      (text "host", host)
      ∷ (text "user-agent", user_agent)
      ∷ (text "accept", text "*/*")
      ∷ (text "connection", text "keep-alive")
      ∷ content_headers content;
  body = content;
  keep_alive = true;
}

abbrev content_fields : Bytes → List (Bytes × Bytes)
content_fields [] = []
content_fields (c ∷ content) =
    (text "Content-Type", text "application/json")
    ∷ (text "Content-Length", print_decimal (length (c ∷ content)))
    ∷ []

abbrev fields_of : Bytes → Bytes → List (Bytes × Bytes)
fields_of host content =
    (text "Host", host)
    ∷ (text "User-Agent", user_agent)
    ∷ (text "Accept", text "*/*")
    ∷ (text "Connection", text "keep-alive")
    ∷ content_fields content

request_shape :
    (method target host content : Bytes)
    → method
        ++ (text " "
            ++ (target
                ++ (text " HTTP/1.1\r\n"
                    ++ (text "Host: "
                        ++ (host
                            ++ (text "\r\n"
                                ++ (text "User-Agent: mini-net-echo_bench/1.0\r\n"
                                    ++ (text "Accept: */*\r\n"
                                        ++ (text "Connection: keep-alive\r\n"
                                            ++ (body_headers content
                                                ++ (text "\r\n" ++ content)))))))))))
      ≡ request_text method target (fields_of host content) content
unfolding text body_headers
request_shape method target host [] = simp append_assoc
request_shape method target host (c ∷ content) = simp append_assoc

-- The parser behind the header section.
abbrev judged : Bytes → Bytes → Bytes → Bytes → Parser
judged method target host content = record (with_blank method target (fields_of host content)) {
  content_length = length content;
  req = record (sent_request method target host content) { body = [] };
}

length_allowed :
    (n : ℕ) → n ≤ max_body_bytes → checked_length (strtol (print_decimal n)) ≡ has_length n
unfolding checked_length
length_allowed n h =
    let small : ltb max_body_bytes n ≡ false = ground (arith, h) in
    ap checked_length (
      ap strtol (sym (append-nil (print_decimal n)))
      ∙ strtol-print_decimal n [] (omega (arith, h)) refl)
    ∙ rw small

judged_is :
    (method target host content : Bytes)
    → length content ≤ max_body_bytes
    → end_headers (with_blank method target (fields_of host content))
      ≡ (complete, judged method target host content)
unfolding end_headers text find_header chunked framing use_framing set_connection keep_alive_after
    set_target trim trim_end keep_end skip_spaces
judged_is method target host [] h = refl
judged_is method target host (c ∷ content) h =
    ap (use_framing (with_blank method target (fields_of host (c ∷ content))))
      (length_allowed (length (c ∷ content)) h)

-- A word without a colon, by evaluation.
clean : Bytes → Bool
clean [] = true
clean (c ∷ s) = (not (is_space c) && not (c == b':')) && clean s

clean-AllVisible : (s : Bytes) → clean s ≡ true → AllVisible s × Lacks b':' s
unfolding clean
clean-AllVisible [] h = (tt, tt)
clean-AllVisible (c ∷ s) h =
    let (here, later) = and-true (not (is_space c) && not (c == b':')) (clean s) h in
    let (no_space, no_colon) = and-true (not (is_space c)) (not (c == b':')) here in
    let (v, l) = clean-AllVisible s later in
    (
      (not-true (is_space c) no_space, v),
      (λ e. absurd (cc (rw ((==_iff c b':').1 e) at no_colon)), l),
    )
  where
    not-true : (x : Bool) → not x ≡ true → x ≡ false
    not-true true e = absurd (cc e)
    not-true false e = refl

clean-IsWord : (c : ℕ) (s : Bytes) → clean (c ∷ s) ≡ true → IsWord (c ∷ s)
clean-IsWord c s h = (clean-AllVisible (c ∷ s) h).0

-- A field whose name and value are such words.
field :
    (n : ℕ) (name : Bytes) (v : ℕ) (value : Bytes)
    → clean (n ∷ name) ≡ true
    → clean (v ∷ value) ≡ true
    → IsField (n ∷ name) (v ∷ value)
field n name v value h k = record {
  name_text = word-IsText (n ∷ name) (clean-IsWord n name h);
  value_text = word-IsText (v ∷ value) (clean-IsWord v value k);
  no_colon = (clean-AllVisible (n ∷ name) h).1;
}

digits_clean : (s : Bytes) → AllDigits s → clean s ≡ true
unfolding clean
digits_clean [] a = refl
digits_clean (c ∷ s) (d, a) =
    let no_space : is_space c ≡ false = digit_not_space c d in
    let no_colon : (c == b':') ≡ false = ground arith in rw (no_space, no_colon) (digits_clean s a)

digits-IsText : (s : Bytes) → AllDigits s → 0 < length s → IsText s
digits-IsText [] a h = absurd (omega (arith, h))
digits-IsText (c ∷ s) a h = word-IsText (c ∷ s) (clean-IsWord c s (digits_clean (c ∷ s) a))

decimal-IsText : (n : ℕ) → IsText (print_decimal n)
decimal-IsText n =
    digits-IsText (print_decimal n) (print_decimal-AllDigits n) (print_decimal-ne-nil n)

named :
    (n : ℕ) (name value : Bytes) → clean (n ∷ name) ≡ true → IsText value → IsField (n ∷ name) value
named n name value h t = record {
  name_text = word-IsText (n ∷ name) (clean-IsWord n name h);
  value_text = t;
  no_colon = (clean-AllVisible (n ∷ name) h).1;
}

content_fields-AreFields : (content : Bytes) → AreFields (content_fields content)
unfolding text clean
content_fields-AreFields [] = tt
content_fields-AreFields (c ∷ content) =
    (field _ _ _ _ refl refl, (named _ _ _ refl (decimal-IsText (length (c ∷ content))), tt))

fields_of-AreFields : (host content : Bytes) → IsText host → AreFields (fields_of host content)
unfolding text clean
fields_of-AreFields host content t = (
  named _ _ _ refl t,
  (
    field _ _ _ _ refl refl,
    (field _ _ _ _ refl refl, (field _ _ _ _ refl refl, content_fields-AreFields content)),
  ),
)

host_header-IsText : (host : Bytes) (port : ℕ) → IsText host → IsText (host_header host port)
unfolding host_header text
host_header-IsText host port t =
    IsText-between host (b':' ∷ []) (print_decimal port) t (λ e. absurd (cc), tt)
      (decimal-IsText port)

fields_length :
    (host content : Bytes)
    → length content ≤ max_body_bytes
    → length (written (fields_of host content)) ≤ length host + 136
unfolding text
fields_length host [] h = omega (
  arith,
  length-append host (
      b'\r'
      ∷ b'\n'
      ∷ written (
          (text "User-Agent", user_agent)
          ∷ (text "Accept", text "*/*")
          ∷ (text "Connection", text "keep-alive")
          ∷ [])),
)
fields_length host (c ∷ content) h =
    let n = length (c ∷ content) in
    omega (
      arith,
      h,
      length-append host (
          b'\r'
          ∷ b'\n'
          ∷ written (
              (text "User-Agent", user_agent)
              ∷ (text "Accept", text "*/*")
              ∷ (text "Connection", text "keep-alive")
              ∷ content_fields (c ∷ content))),
      length-append (print_decimal n) (b'\r' ∷ b'\n' ∷ []),
      length-print_decimal n 3 (omega (arith, h)),
    )

request_rest :
    (method target : Bytes) (fields : List (Bytes × Bytes)) (content rest : Bytes)
    → request_text method target fields content ++ rest
      ≡ request_text method target fields (content ++ rest)
request_rest method target fields content rest = simp append_assoc

-- What the client asks for, the server's parser reads: from a buffer that begins with the client's
-- request it takes that request and nothing else, with the method, the target, the Host header and the
-- body that the client was told to send, and with keep-alive. The method and the target are words, the
-- host's name has no newline and no space at its ends, the three have at most 8000 bytes in all, and
-- the body has at most 8192.
pub parse-build_http_request :
    (method path body host rest : Bytes) (port conn_index : ℕ) (b : Buffer)
    → IsValid b
    → contents b ≡ build_http_request method path body (host_header host port) conn_index ++ rest
    → IsWord method
    → IsWord (expand_placeholder path conn_index)
    → IsText host
    → length method + length (expand_placeholder path conn_index) + length (host_header host port)
      ≤ 8000
    → length (expand_placeholder body conn_index) ≤ max_body_bytes
    → (p : Parser) × (b' : Buffer) × (parse new_parser b ≡ some (complete, p, b'))
      × (p.req
          ≡ sent_request method
              (expand_placeholder path conn_index)
              (host_header host port)
              (expand_placeholder body conn_index))
      × (contents b' ≡ rest)
unfolding build_http_request
parse-build_http_request method path body host rest port conn_index b v e m t h fits small =
    let target = expand_placeholder path conn_index in
    let content = expand_placeholder body conn_index in
    let to = host_header host port in
    parse-request_text method target (fields_of to content) content rest b
      (judged method target to content) v m t
      (fields_of-AreFields to content (host_header-IsText host port h))
      (omega (arith, fits, fields_length to content small))
      (judged_is method target to content small) refl refl
      (e
        ∙ ap (λ (x : Bytes). x ++ rest) (request_shape method target to content)
        ∙ request_rest method target (fields_of to content) content rest)
