-- ===== src/ShortUrlApp/Safety.antt =====
-- Every request is answered, with a status of the API, and only the two successful routes that
-- write change the service.
use mini_net.Prelude.{
  ℕ, ◌≡◌, ◌⊎◌, inl, inr, refl, Option, some, Bytes, text, bytes_eq, Bool-cases, Option-cases,
  if◌then◌else◌, arith,
}
use mini_net.HttpTypes.{HttpRequest, HttpResponse}
use mini_net.ShortUrlService.{valid_code, lookup, stats}
use mini_net.ShortUrlService.Invariant.{IsValid, HasRoom}
use mini_net.ShortUrlService.Shorten.{shorten-Answers}
use mini_net.ShortUrlService.Lookup.{lookup-IsValid, lookup_missing, lookup-counts}
use mini_net.ShortUrlApp.{
  App, valid_url, shorten_url, handle_shorten, redirected, handle_redirect, handle_stats,
  stats_response, Route, healthz, metrics, shorten_api, stats_api, redirect, unknown, route,
  dispatch, handle, created, bad_request, not_found, method_not_allowed,
}
use mini_net.ShortUrlApp.Json.{json_extract_string, Extracted, value, failed}

-- The statuses that docs/API.md lists.
abbrev pub IsApiStatus : ℕ → Type 0
IsApiStatus n = (n ≡ 200) ⊎ ((n ≡ 201) ⊎ ((n ≡ 302) ⊎ ((n ≡ 400) ⊎ ((n ≡ 404) ⊎ (n ≡ 405)))))

pub record Handled (a a' : App) (r' : HttpResponse) : Type 0 where
  pub valid : IsValid a'.service
  pub host : a'.host ≡ a.host
  pub status : IsApiStatus r'.status
  pub unchanged : (a'.service ≡ a.service) ⊎ ((r'.status ≡ 201) ⊎ (r'.status ≡ 302))

abbrev Done : App → Option (App × HttpResponse) → Type 0
Done a o = (a' : App) × (r' : HttpResponse) × (o ≡ some (a', r')) × Handled a a' r'

-- A response that leaves the service alone.
answered :
    (a : App) (r' : HttpResponse)
    → IsValid a.service
    → IsApiStatus r'.status
    → Done a (some (a, r'))
answered a r' v ok =
    (a, r', refl, record { valid = v; host = refl; status = ok; unchanged = inl refl })

shorten_url-Done :
    (a : App) (now : ℕ) (r : HttpResponse) (url : Bytes)
    → IsValid a.service
    → HasRoom a.service
    → Done a (shorten_url a now r url)
unfolding shorten_url
shorten_url-Done a now r url v h = elim (Option-cases (valid_url url)) [
  | inr (detail, bad) ↦
      rw (bad, shorten_url)
        (answered a (bad_request r (text "invalid_url") detail) v
          (unfold bad_request in ground arith))
  | inl ok ↦
      let (code, s, e, ans) = shorten-Answers a.service url now v h in
      rw (ok, shorten_url, e)
        (
          record a { service = s },
          (created a r url (code, s)).1,
          unfold created in refl,
          unfold created in
              record {
                valid = ans.valid;
                host = refl;
                status = ground arith;
                unchanged = inr (inl refl);
              },
        )
]

handle_shorten-Done :
    (a : App) (now : ℕ) (req : HttpRequest) (r : HttpResponse) (x : Extracted)
    → json_extract_string req.body (text "url") ≡ x
    → IsValid a.service
    → HasRoom a.service
    → Done a (handle_shorten a now req r)
unfolding handle_shorten
handle_shorten-Done a now req r (failed detail) e v h =
    rw (e, handle_shorten)
      (answered a (bad_request r (text "invalid_url") detail) v
        (unfold bad_request in ground arith))
handle_shorten-Done a now req r (value url) e v h =
    rw (e, handle_shorten) (shorten_url-Done a now r url v h)

handle_redirect-Done :
    (a : App) (code : Bytes) (r : HttpResponse)
    → IsValid a.service
    → Done a (some (handle_redirect a code r))
unfolding handle_redirect redirected not_found
handle_redirect-Done a code r v = elim (Bool-cases (valid_code code)) [
  | inr bad ↦
      rw bad
        (answered a (bad_request r (text "invalid_code") _) v (unfold bad_request in ground arith))
  | inl ok ↦ elim (Option-cases (stats a.service code)) [
    | inl missing ↦
        rw (ok, lookup_missing a.service code missing)
          (answered a (not_found r) v (unfold not_found in ground arith))
    | inr (e, found) ↦ rw (ok) (
      record a { service = (lookup a.service code).1 },
      redirected r (lookup a.service code).0,
      refl,
      rw (lookup-counts a.service code e found).0 (
          unfold redirected in
          record {
            valid = lookup-IsValid a.service code v;
            host = refl;
            status = ground arith;
            unchanged = inr (inr refl);
          }),
    )
  ]
]

handle_stats-status :
    (a : App) (code : Bytes) (r : HttpResponse)
    → r.status ≡ 200
    → IsApiStatus (handle_stats a code r).status
unfolding handle_stats stats_response bad_request not_found
handle_stats-status a code r ok = ground arith

get_only :
    (a : App) (method : Bytes) (r r' : HttpResponse) (detail : Bytes)
    → IsValid a.service
    → IsApiStatus r'.status
    → Done a (
        some (
          a,
          (if bytes_eq method (text "GET") then r' else method_not_allowed r (text "GET") detail),
        ))
get_only a method r r' detail v ok = elim (Bool-cases (bytes_eq method (text "GET"))) [
  | inl get ↦ rw get (answered a r' v ok)
  | inr other ↦ rw other (
      answered a (method_not_allowed r (text "GET") detail) v
        (unfold method_not_allowed in ground arith))
]

dispatch-Done :
    (t : Route) (a : App) (now : ℕ) (source : Option Bytes) (req : HttpRequest) (r : HttpResponse)
    → IsValid a.service
    → HasRoom a.service
    → r.status ≡ 200
    → Done a (dispatch t a now source req r)
unfolding dispatch
dispatch-Done healthz a now source req r v h ok = get_only a req.method r _ _ v (inl ok)
dispatch-Done metrics a now source req r v h ok = get_only a req.method r _ _ v (inl ok)
dispatch-Done shorten_api a now source req r v h ok =
    elim (Bool-cases (bytes_eq req.method (text "POST"))) [
      | inl post ↦
          rw post
            (handle_shorten-Done a now req r (json_extract_string req.body (text "url")) refl v h)
      | inr other ↦ rw other (
          answered a (method_not_allowed r (text "POST") _) v
            (unfold method_not_allowed in ground arith))
    ]
dispatch-Done (stats_api code) a now source req r v h ok =
    get_only a req.method r _ _ v (handle_stats-status a code r ok)
dispatch-Done (redirect code) a now source req r v h ok =
    elim (Bool-cases (bytes_eq req.method (text "GET"))) [
      | inl get ↦ rw get (handle_redirect-Done a code r v)
      | inr other ↦ rw other (
          answered a (method_not_allowed r (text "GET") _) v
            (unfold method_not_allowed in ground arith))
    ]
dispatch-Done unknown a now source req r v h ok =
    answered a (not_found r) v (unfold not_found in ground arith)

-- On consistent tables with room in the counter, and with a response that comes with status 200,
-- every request is answered with a status of the API. The tables stay consistent and the host stays;
-- the service changes at most where the answer is 201 or 302, never on an error.
pub handle-Handled :
    (a : App) (now : ℕ) (source : Option Bytes) (req : HttpRequest) (r : HttpResponse)
    → IsValid a.service
    → HasRoom a.service
    → r.status ≡ 200
    → (a' : App) × (r' : HttpResponse) × (handle a now source req r ≡ some (a', r'))
      × Handled a a' r'
unfolding handle
handle-Handled a now source req r v h ok = dispatch-Done (route req.path) a now source req r v h ok
