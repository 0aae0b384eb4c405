-- ===== src/ShortUrlApp/Tests.antt =====
-- Runs of the routes, and their theorems at an input.
use mini_net.Prelude.{◌≡◌, refl, some, none, ◌∷◌, Bytes, text, arith, false}
use mini_net.HttpTypes.{HttpRequest, HttpResponse, empty_request, new_response, set_json}
use mini_net.ShortUrlService.{new_service, lookup}
use mini_net.ShortUrlService.Invariant.{new_service-IsValid}
use mini_net.ShortUrlApp.{App, handle, shorten_json, valid_url}
use mini_net.ShortUrlApp.Flow.{redirect_to, shorten_then_redirect}
use mini_net.ShortUrlApp.Safety.{Handled, handle-Handled}
use mini_net.ShortUrlApp.Json.{
  json_extract_string, value, unicode_escape, append_utf8, read_field, read_value, read_string,
  string_step, is_object, first_byte, last_byte, after_needle, skip_blanks, escape_step, code_point,
  hex4, hex_digit, hex_digits,
}
use mini_net.ShortUrlApp.Json.Strings.{json_object, json_extract_string-json_object}
use mini_net.ShortUrlApp.Json.Utf8.{utf8_decode, utf8_decode-append_utf8}

abbrev fresh_app : App
fresh_app = record { host = text "127.0.0.1:8080"; service = new_service }

abbrev site : Bytes
site = text "http://a"

abbrev get_root : HttpRequest
get_root = record empty_request { method = text "GET"; path = text "/" }

site_ok : valid_url site ≡ none
unfolding valid_url text
site_ok = refl

shorten_then_redirect_example :
    (code : Bytes) × (a' : App) × (handle fresh_app 5 none
        (record empty_request {
          path = text "/api/shorten";
          method = text "POST";
          body = json_object (text "url") site;
        })
        new_response
      ≡ some (
        a',
        set_json (record new_response { status = 201 }) (shorten_json fresh_app.host code site),
      ))
    × (handle a' 7 none (record get_root { path = b'/' ∷ code; method = text "GET" }) new_response
        ≡ some (record a' { service = (lookup a'.service code).1 }, redirect_to site new_response))
shorten_then_redirect_example =
    shorten_then_redirect fresh_app 5 7 none empty_request get_root new_response new_response site
      new_service-IsValid (omega arith) site_ok

handle-Handled_example :
    (a' : App) × (r' : HttpResponse) × (handle fresh_app 5 none get_root new_response
      ≡ some (a', r'))
    × Handled fresh_app a' r'
handle-Handled_example =
    handle-Handled fresh_app 5 none get_root new_response new_service-IsValid (omega arith) refl

json_extract_string-json_object_example :
    json_extract_string (json_object (text "url") (text "a\"b\\\n")) (text "url")
    ≡ value (text "a\"b\\\n")
json_extract_string-json_object_example =
    json_extract_string-json_object (text "url") (text "a\"b\\\n")

utf8_decode-append_utf8_example : utf8_decode (append_utf8 0x4e2d) ≡ some 0x4e2d
utf8_decode-append_utf8_example = utf8_decode-append_utf8 0x4e2d (omega arith)

-- A body that is cut off before its closing brace is no object.
truncated : is_object (text "{\"url\":\"x\"") ≡ false
unfolding is_object first_byte last_byte text
truncated = refl

extracted :
    json_extract_string (text " {\"a\":1, \"url\" : \"\\u4e2d\"} ") (text "url") ≡ value (text "中")
unfolding json_extract_string is_object first_byte last_byte text read_field read_value read_string
    string_step after_needle skip_blanks mini_net.HttpParser.after_mark escape_step unicode_escape
    code_point hex4 hex_digit hex_digits append_utf8
extracted = refl
