-- ===== src/ShortUrlApp.antt =====
-- src/ShortUrlApp.cc and include/mini_net/ShortUrlApp.h: the routes of the short-URL service.
-- The clock's reading, and what the metrics source returns, are arguments. Logging is left out.
mod Tests
pub mod Json
pub mod Flow
pub mod Safety
use mini_net.Prelude.{
  ℕ, zero, suc, ◌+◌, ◌-◌, ◌*◌, ◌/◌, ◌%◌, Bool, true, false, ◌&&◌, ◌||◌, [], ◌∷◌, ◌++◌, Option, none,
  some, Bytes, text, bytes_eq, ltb, leb, ◌==◌, if◌then◌else◌, length, take, drop,
}
use mini_net.Ctype.{starts_with}
use mini_net.Ctype.Decimal.{print_decimal}
use mini_net.HttpTypes.{HttpRequest, HttpResponse, set_json, plain_text, line256}
use mini_net.HttpParser.{before_mark}
use mini_net.ShortUrlService.{Service, Entry, valid_code, shorten, lookup, stats, stored}
use mini_net.ShortUrlApp.Json.{json_extract_string, Extracted, value, failed}

pub record App : Type 0 where
  pub host : Bytes
  pub service : Service

-- `none` if the URL is valid, and otherwise the message.
unfoldable pub valid_url : Bytes → Option Bytes
valid_url url =
    if bytes_eq url []
    then some (text "url 不能为空")
    else if ltb 2048 (length url)
    then some (text "url 超过 2048 字节")
    else if starts_with (text "http://") url || starts_with (text "https://") url
    then none
    else some (text "只支持 http:// 或 https:// 开头的链接")

-- {"error":"<code>","detail":"<detail>"}
unfoldable pub error_json : Bytes → Bytes → Bytes
error_json code detail =
    text "{\"error\":\"" ++ (code ++ (text "\",\"detail\":\"" ++ (detail ++ text "\"}")))

unfoldable pub bad_request : HttpResponse → Bytes → Bytes → HttpResponse
bad_request r code detail = set_json (record r { status = 400 }) (error_json code detail)

unfoldable pub not_found : HttpResponse → HttpResponse
not_found r = set_json (record r { status = 404 }) (error_json (text "not_found") (text "短码不存在"))

unfoldable pub method_not_allowed : HttpResponse → Bytes → Bytes → HttpResponse
method_not_allowed r allow detail =
    set_json
      (record r { status = 405; extra_headers = r.extra_headers ++ (text "Allow", allow) ∷ [] })
      (error_json (text "method_not_allowed") detail)

-- Line ends made visible, for the log.
unfoldable pub esc : Bytes → Bytes
esc [] = []
esc (c ∷ s) =
    (if c == b'\r' then text "\\r" else if c == b'\n' then text "\\n" else c ∷ []) ++ esc s

-- {"code":"<code>","short":"http://<host>/<code>","url":"<url>"}
unfoldable pub shorten_json : Bytes → Bytes → Bytes → Bytes
shorten_json host code url =
    text "{\"code\":\""
    ++ (code
        ++ (text "\",\"short\":\"http://"
            ++ (host ++ (text "/" ++ (code ++ (text "\",\"url\":\"" ++ (url ++ text "\"}")))))))

unfoldable pub created : App → HttpResponse → Bytes → Bytes × Service → App × HttpResponse
created a r url (code, service) = (
  record a { service = service },
  set_json (record r { status = 201 }) (shorten_json a.host code url),
)

-- `none` means that shorten ran out of fuel, which ShortUrlService.Shorten excludes.
unfoldable pub shorten_url : App → ℕ → HttpResponse → Bytes → Option (App × HttpResponse)
shorten_url a now r url = elim (valid_url url) [
  | some detail ↦ some (a, bad_request r (text "invalid_url") detail)
  | none ↦ elim (shorten a.service url now) [
    | none ↦ none
    | some result ↦ some (created a r url result)
  ]
]

unfoldable pub handle_shorten : App → ℕ → HttpRequest → HttpResponse → Option (App × HttpResponse)
handle_shorten a now req r = elim (json_extract_string req.body (text "url")) [
  | failed detail ↦ some (a, bad_request r (text "invalid_url") detail)
  | value url ↦ shorten_url a now r url
]

unfoldable pub redirected : HttpResponse → Option Entry → HttpResponse
redirected r none = not_found r
redirected r (some e) = record r {
  status = 302;
  body = [];
  extra_headers =
      r.extra_headers ++ (text "Location", e.url) ∷ (text "Cache-Control", text "no-store") ∷ [];
}

unfoldable pub handle_redirect : App → Bytes → HttpResponse → App × HttpResponse
handle_redirect a code r =
    if valid_code code
    then (let (found, service) = lookup a.service code in
        (record a { service = service }, redirected r found))
    else (a, bad_request r (text "invalid_code") (text "短码只允许 1-8 位字母数字"))

-- snprintf into `char buf[512]` keeps 511 bytes, and %s stops at a zero byte.
unfoldable pub stats_json : Bytes → Entry → Bytes
stats_json code e = take 511 (
    text "{\"code\":\""
    ++ (before_mark 0 code
        ++ (text "\",\"url\":\""
            ++ (before_mark 0 e.url
                ++ (text "\",\"hits\":"
                    ++ (print_decimal e.hits
                        ++ (text ",\"created_at\":"
                            ++ (print_decimal e.created_at ++ text "}"))))))))

unfoldable pub stats_response : Bytes → HttpResponse → Option Entry → HttpResponse
stats_response code r none = not_found r
stats_response code r (some e) = set_json r (stats_json code e)

unfoldable pub handle_stats : App → Bytes → HttpResponse → HttpResponse
handle_stats a code r =
    if valid_code code
    then stats_response code r (stats a.service code)
    else bad_request r (text "invalid_code") (text "短码只允许 1-8 位字母数字")

unfoldable pub append_metrics : App → Bytes → Bytes
append_metrics a out =
    out
    ++ (line256 (text "shorten_total " ++ (print_decimal a.service.shorten_total ++ text "\n"))
        ++ (line256
              (text "redirect_total " ++ (print_decimal a.service.redirect_total ++ text "\n"))
            ++ line256 (text "stored_codes " ++ (print_decimal (stored a.service) ++ text "\n"))))

-- Which handler a path is for.
pub data Route : Type 0 where
  healthz metrics shorten_api : Route
  stats_api redirect : Bytes → Route
  unknown : Route

unfoldable pub short_route : Bytes → Route
short_route [] = unknown
short_route (c ∷ []) = unknown
short_route (c ∷ d ∷ s) = if c == b'/' then redirect (d ∷ s) else unknown

unfoldable pub route : Bytes → Route
route path =
    if bytes_eq path (text "/healthz")
    then healthz
    else if bytes_eq path (text "/metrics")
    then metrics
    else if bytes_eq path (text "/api/shorten")
    then shorten_api
    else if starts_with (text "/api/stats/") path
    then stats_api (drop (length (text "/api/stats/")) path)
    else short_route path

abbrev pub or_empty : Option Bytes → Bytes
or_empty none = []
or_empty (some s) = s

unfoldable pub dispatch :
    Route → App → ℕ → Option Bytes → HttpRequest → HttpResponse → Option (App × HttpResponse)
dispatch healthz a now source req r = some (
  a,
  (if bytes_eq req.method (text "GET")
      then record r { body = text "ok" }
      else method_not_allowed r (text "GET") (text "/healthz 只支持 GET")),
)
dispatch metrics a now source req r = some (
  a,
  (if bytes_eq req.method (text "GET")
      then record r { content_type = plain_text; body = or_empty source }
      else method_not_allowed r (text "GET") (text "/metrics 只支持 GET")),
)
dispatch shorten_api a now source req r =
    if bytes_eq req.method (text "POST")
    then handle_shorten a now req r
    else some (a, method_not_allowed r (text "POST") (text "/api/shorten 只支持 POST"))
dispatch (stats_api code) a now source req r = some (
  a,
  (if bytes_eq req.method (text "GET")
      then handle_stats a code r
      else method_not_allowed r (text "GET") (text "该接口只支持 GET")),
)
dispatch (redirect code) a now source req r = some (
    if bytes_eq req.method (text "GET")
    then handle_redirect a code r
    else (a, method_not_allowed r (text "GET") (text "短链跳转只支持 GET")))
dispatch unknown a now source req r = some (a, not_found r)

-- ShortUrlApp::handle
unfoldable pub handle :
    App → ℕ → Option Bytes → HttpRequest → HttpResponse → Option (App × HttpResponse)
handle a now source req r = dispatch (route req.path) a now source req r
