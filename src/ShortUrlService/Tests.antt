-- ===== src/ShortUrlService/Tests.antt =====
-- Runs of the service, and its theorems at an input: one URL shortened on an empty service.
use native.Mathlib.Decide.{dec_lt}
use mini_net.Prelude.{[], ◌≡◌, ◌≢◌, refl, some, Bytes, text, get, insert, bytes_eq_instance, arith}
use mini_net.ShortUrlService.{
  Entry, Service, new_service, base62, digits, digit, store, shorten, stats,
}
use mini_net.ShortUrlService.Invariant.{get_same, IsValid, new_service-IsValid, store-IsValid}
use mini_net.ShortUrlService.Shorten.{Answers, shorten-Answers, shorten-distinct, shorten_new}

abbrev site : Bytes
site = text "http://a"

abbrev other_site : Bytes
other_site = text "https://b/c"

abbrev one_site : Service
one_site = (store new_service site 5 (1, base62 1)).1

abbrev site_entry : Entry
site_entry = record { url = site; hits = 0; created_at = 5 }

first_code : base62 1 ≡ text "V0q"
unfolding base62 digits digit text dec_lt
first_code = refl

first_result : shorten new_service site 5 ≡ some (base62 1, one_site)
unfolding store get
first_result = shorten_new new_service site 5 new_service-IsValid (omega arith) refl

one_site-IsValid : IsValid one_site
unfolding store get
one_site-IsValid = store-IsValid new_service site 5 new_service-IsValid (omega arith) refl

second_result :
    shorten one_site other_site 6 ≡ some (base62 2, (store one_site other_site 6 (2, base62 2)).1)
unfolding store get text insert
second_result = shorten_new one_site other_site 6 one_site-IsValid (omega arith) refl

site_stats : stats one_site (base62 1) ≡ some site_entry
unfolding store stats
site_stats = get_same [] (base62 1) site_entry

shorten-Answers_example :
    (code : Bytes) × (s' : Service) × (shorten new_service site 5 ≡ some (code, s'))
    × Answers new_service site code s'
shorten-Answers_example = shorten-Answers new_service site 5 new_service-IsValid (omega arith)

sites_differ : site ≢ other_site
unfolding text
sites_differ e = cc

shorten-distinct_example : base62 1 ≢ base62 2
unfolding store
shorten-distinct_example =
    shorten-distinct new_service site other_site 5 6 (base62 1) (base62 2) one_site
      (store one_site other_site 6 (2, base62 2)).1 new_service-IsValid (omega arith) (omega arith)
      first_result second_result sites_differ
