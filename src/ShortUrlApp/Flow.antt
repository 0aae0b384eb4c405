-- ===== src/ShortUrlApp/Flow.antt =====
-- A URL that is shortened over HTTP is redirected to over HTTP.
use mini_net.Prelude.{
  ℕ, suc, ◌+◌, ◌^◌, ◌<◌, ◌≤◌, ◌≡◌, ◌≢◌, refl, ap, ◌∙◌, true, false, [], ◌∷◌, ◌++◌, Option, none,
  some, Bytes, text, bytes_eq, bytes_eq_refl, length, arith,
}
use mini_net.Ctype.{starts_with}
use mini_net.HttpTypes.{HttpRequest, HttpResponse, set_json}
use mini_net.ShortUrlService.{Service, Entry, valid_code, shorten, lookup, stats, hit}
use mini_net.ShortUrlService.Base62.{base62_short}
use mini_net.ShortUrlService.Invariant.{IsValid}
use mini_net.ShortUrlService.Shorten.{shorten-Answers}
use mini_net.ShortUrlService.Lookup.{lookup-counts}
use mini_net.ShortUrlApp.{
  App, valid_url, shorten_json, shorten_url, handle_shorten, redirected, handle_redirect, redirect,
  shorten_api, route, short_route, dispatch, handle, created,
}
use mini_net.ShortUrlApp.Json.{json_extract_string, value}
use mini_net.ShortUrlApp.Json.Strings.{json_object, json_extract_string-json_object}

bytes_eq-length : (xs ys : Bytes) → length xs ≢ length ys → bytes_eq xs ys ≡ false
bytes_eq-length [] [] h = absurd (h refl)
bytes_eq-length [] (y ∷ ys) h = refl
bytes_eq-length (x ∷ xs) [] h = refl
bytes_eq-length (x ∷ xs) (y ∷ ys) h =
    let e : bytes_eq xs ys ≡ false = bytes_eq-length xs ys (λ k. h (ap suc k)) in ground arith

starts_with-length : (p s : Bytes) → length s < length p → starts_with p s ≡ false
starts_with-length [] s h = elim h [ ]
starts_with-length (c ∷ p) [] h = refl
starts_with-length (c ∷ p) (d ∷ s) h =
    let e : starts_with p s ≡ false = starts_with-length p s (omega arith) in ground arith

-- A path of a slash and at most six bytes is for the redirect handler.
pub route-redirect : (d : ℕ) (s : Bytes) → length s < 6 → route (b'/' ∷ d ∷ s) ≡ redirect (d ∷ s)
unfolding route short_route text
route-redirect d s h = rw (
  bytes_eq-length (b'/' ∷ d ∷ s) (text "/healthz") (omega arith),
  bytes_eq-length (b'/' ∷ d ∷ s) (text "/metrics") (omega arith),
  bytes_eq-length (b'/' ∷ d ∷ s) (text "/api/shorten") (omega arith),
  starts_with-length (text "/api/stats/") (b'/' ∷ d ∷ s) (omega arith),
)

-- Codes of up to six letters are given out.
abbrev pub HasShortCodes : Service → Type 0
HasShortCodes s = s.counter + 100001 < 62 ^ 6

pub code_of_entry :
    (s : Service) (code : Bytes) (e : Entry)
    → IsValid s
    → s.counter + 100000 < 62 ^ 6
    → stats s code ≡ some e
    → (valid_code code ≡ true) × (length code ≤ 6)
unfolding stats
code_of_entry s code e v h found =
    let (k, le, made, back) = v.codes code e found in
    rw made (base62_short 5 k (omega arith) (omega arith) (omega arith))

route-code :
    (code : Bytes) → valid_code code ≡ true → length code ≤ 6 → route (b'/' ∷ code) ≡ redirect code
unfolding valid_code
route-code [] v h = absurd (cc)
route-code (d ∷ s) v h = route-redirect d s (omega arith)

handle-shorten_url :
    (a : App) (now : ℕ) (source : Option Bytes) (post : HttpRequest) (r : HttpResponse)
    (url : Bytes)
    → handle a now source
        (record post {
          path = text "/api/shorten";
          method = text "POST";
          body = json_object (text "url") url;
        })
        r
      ≡ shorten_url a now r url
unfolding handle dispatch
handle-shorten_url a now source post r url =
    rw (shorten_route, bytes_eq_refl (text "POST"))
      (field (json_extract_string-json_object (text "url") url))
  where
    shorten_route : route (text "/api/shorten") ≡ shorten_api
    shorten_route = unfold route text in refl

    field :
        json_extract_string (json_object (text "url") url) (text "url") ≡ value url
        → handle_shorten a now
            (record post {
              path = text "/api/shorten";
              method = text "POST";
              body = json_object (text "url") url;
            })
            r
          ≡ shorten_url a now r url
    field e = unfold handle_shorten in rw (e, handle_shorten)

shorten_url_lem :
    (a : App) (now : ℕ) (r : HttpResponse) (url code : Bytes) (s : Service)
    → valid_url url ≡ none
    → shorten a.service url now ≡ some (code, s)
    → shorten_url a now r url ≡ some (created a r url (code, s))
unfolding shorten_url
shorten_url_lem a now r url code s ok e = rw (ok, shorten_url, e)

handle-redirect :
    (a : App) (now : ℕ) (source : Option Bytes) (get : HttpRequest) (r : HttpResponse)
    (code : Bytes) (e : Entry)
    → valid_code code ≡ true
    → length code ≤ 6
    → stats a.service code ≡ some e
    → handle a now source (record get { path = b'/' ∷ code; method = text "GET" }) r
      ≡ some (record a { service = (lookup a.service code).1 }, redirected r (some (hit e)))
unfolding handle dispatch handle_redirect
handle-redirect a now source get r code e v h found =
    rw
      (route-code code v h, bytes_eq_refl (text "GET"), v, (lookup-counts a.service code e found).0)

-- The answer that sends a browser to the URL.
abbrev pub redirect_to : Bytes → HttpResponse → HttpResponse
redirect_to url r = record r {
  status = 302;
  body = [];
  extra_headers =
      r.extra_headers ++ (text "Location", url) ∷ (text "Cache-Control", text "no-store") ∷ [];
}

-- POST /api/shorten with a JSON object that holds a valid URL answers 201 with a code, and a later
-- GET of a slash and that code answers 302 with exactly that URL in Location, and the service
-- looks the code up; for any two requests of these forms, as long as codes of at most six letters
-- are given out.
pub shorten_then_redirect :
    (a : App) (now later : ℕ) (source : Option Bytes) (post get : HttpRequest) (r r' : HttpResponse)
    (url : Bytes)
    → IsValid a.service
    → HasShortCodes a.service
    → valid_url url ≡ none
    → (code : Bytes) × (a' : App) × (handle a now source
          (record post {
            path = text "/api/shorten";
            method = text "POST";
            body = json_object (text "url") url;
          })
          r
        ≡ some (a', set_json (record r { status = 201 }) (shorten_json a.host code url)))
      × (handle a' later source (record get { path = b'/' ∷ code; method = text "GET" }) r'
          ≡ some (record a' { service = (lookup a'.service code).1 }, redirect_to url r'))
shorten_then_redirect a now later source post get r r' url v h ok =
    let (code, s, e, ans) = shorten-Answers a.service url now v (omega arith) in
    let (valid, short) =
      code_of_entry s code ans.entry ans.valid (omega (arith, ans.counted)) ans.found in
    let a' = record a { service = s } in
    (
      code,
      a',
      handle-shorten_url a now source post r url
          ∙ shorten_url_lem a now r url code s ok e
          ∙ (unfold created in refl),
      handle-redirect a' later source get r' code ans.entry valid short ans.found
          ∙ (unfold redirected in
              ap (λ u. some (record a' { service = (lookup a'.service code).1 }, redirect_to u r'))
                ans.url_is),
    )
