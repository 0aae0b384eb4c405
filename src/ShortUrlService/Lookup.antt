-- ===== src/ShortUrlService/Lookup.antt =====
-- What lookup and stats answer: lookup counts the hit, and touches nothing else.
use mathlib.Core.Option.{some-injective}
use mini_net.Prelude.{
  ℕ, zero, suc, ◌+◌, ◌%◌, ◌<◌, ◌≡◌, inl, inr, refl, sym, ap, ◌∙◌, none, some, Bytes, bytes_eq,
  bytes_eq_iff, bytes_eq_refl, Bool-cases, Option-cases, get, insert, get-insert, bytes_eq_instance,
  if◌then◌else◌, arith,
}
use mini_net.ShortUrlService.{Entry, Service, u64, increment, lookup, stats, hit}
use mini_net.ShortUrlService.Invariant.{IsValid, get_same_is, get_other}

lookup_found :
    (s : Service) (code : Bytes) (e : Entry)
    → get s.by_code code ≡ some e
    → lookup s code ≡ (
      some (hit e),
      record s {
        by_code = insert s.by_code code (hit e);
        redirect_total = increment s.redirect_total;
      },
    )
unfolding lookup
lookup_found s code e h = rw (h, lookup)

-- A code that is not stored: the answer is no, and nothing is counted.
pub lookup_missing : (s : Service) (code : Bytes) → stats s code ≡ none → lookup s code ≡ (none, s)
unfolding lookup stats
lookup_missing s code h = rw (h, lookup)

-- For a stored code, the answer is its entry with one more hit; the table holds that entry, every other
-- code keeps its own, and the redirect counter goes up.
pub lookup-counts :
    (s : Service) (code : Bytes) (e : Entry)
    → stats s code ≡ some e
    → let (answer, s') = lookup s code in
      (answer ≡ some (hit e))
      × ((c : Bytes) → stats s' c ≡ (if bytes_eq code c then some (hit e) else stats s c))
      × (s'.redirect_total ≡ increment s.redirect_total)
      × (s'.counter ≡ s.counter)
unfolding stats
lookup-counts s code e h =
    rw (lookup_found s code e h) (refl, λ c. get-insert s.by_code code c (hit e), refl, refl)

hit_codes :
    (s : Service) (code : Bytes) (e : Entry)
    → IsValid s
    → get s.by_code code ≡ some e
    → (c : Bytes) (d : Entry) → get (insert s.by_code code (hit e)) c ≡ some d
    → (d' : Entry) × (get s.by_code c ≡ some d') × (d'.url ≡ d.url)
hit_codes s code e v h c d found = elim (Bool-cases (bytes_eq code c)) [
  | inl same ↦
      let (it, is) = get_same_is s.by_code code c (hit e) d same found in
      (e, rw (← it) h, ap (λ (x : Entry). x.url) is)
  | inr differ ↦ (d, sym (get_other s.by_code code c (hit e) differ) ∙ found, refl)
]

hit_urls :
    (s : Service) (code : Bytes) (e : Entry)
    → get s.by_code code ≡ some e
    → (c : Bytes) (d : Entry) → get s.by_code c ≡ some d
    → (d' : Entry) × (get (insert s.by_code code (hit e)) c ≡ some d') × (d'.url ≡ d.url)
hit_urls s code e h c d at = elim (Bool-cases (bytes_eq code c)) [
  | inl same ↦
      let it = (bytes_eq_iff code c).0 same in
      (
        hit e,
        get-insert s.by_code code c (hit e) ∙ rw same,
        ap (λ (x : Entry). x.url) (some-injective e d (sym h ∙ rw it at)),
      )
  | inr differ ↦ (d, get_other s.by_code code c (hit e) differ ∙ at, refl)
]

-- `lookup` keeps the tables consistent, whether it finds the code or not.
pub lookup-IsValid : (s : Service) (code : Bytes) → IsValid s → IsValid (lookup s code).1
lookup-IsValid s code v = elim (Option-cases (get s.by_code code)) [
  | inl h ↦ rw (lookup_missing s code (unfold stats in h)) v
  | inr (e, h) ↦ rw (lookup_found s code e h) (record {
    codes = λ c d found.
        let (d', at, is) = hit_codes s code e v h c d found in
        let (k, le, made, back) = v.codes c d' at in (k, le, made, rw (← is) back);
    urls = λ url c found.
        let (d, at, is) = v.urls url c found in
        let (d', at', is') = hit_urls s code e h c d at in (d', at', is' ∙ is);
  })
]

-- A code that is looked up again and again.
pub lookup_times : ℕ → Service → Bytes → Service
lookup_times zero s code = s
lookup_times (suc n) s code = lookup_times n (lookup s code).1 code

-- After n lookups the entry has n more hits, modulo 2^64, and the same URL and time.
stats-lookup_times :
    (n : ℕ) (s : Service) (code : Bytes) (e : Entry)
    → e.hits < u64
    → stats s code ≡ some e
    → stats (lookup_times n s code) code ≡ some (record e { hits = (e.hits + n) % u64 })
unfolding lookup_times
stats-lookup_times zero s code e h at = at ∙ ap (λ k. some (record e { hits = k })) (omega arith)
stats-lookup_times (suc n) s code e h at =
    let (answer, rest, _, _) = lookup-counts s code e at in
    stats-lookup_times n (lookup s code).1 code (hit e) (omega arith)
      (rest code ∙ rw (bytes_eq_refl code))
    ∙ ap (λ k. some (record e { hits = k })) (omega arith)
