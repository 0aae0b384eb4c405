-- ===== src/ShortUrlService/Shorten.antt =====
-- What shorten answers, and what it leaves of the tables.
use mathlib.Core.Option.{some-injective}
use mini_net.Prelude.{
  ℕ, ◌≤◌, ◌≡◌, ◌≢◌, inl, inr, refl, sym, ap, ◌∙◌, subst, none, some, Bytes, Option-cases, get, size,
  bytes_eq_instance, arith,
}
use mini_net.ShortUrlService.{Entry, Service, base62, increment, store, shorten, stats}
use mini_net.ShortUrlService.Invariant.{
  IsValid, HasRoom, next, next_code_lem, next_is_free, store-IsValid, get_same, get_other, not_free,
  new_entry,
}

pub shorten_known :
    (s : Service) (url code : Bytes) (now : ℕ)
    → get s.by_url url ≡ some code
    → shorten s url now ≡ some (code, record s { shorten_total = increment s.shorten_total })
unfolding shorten
shorten_known s url code now e = rw (e, shorten)

pub shorten_new :
    (s : Service) (url : Bytes) (now : ℕ)
    → IsValid s
    → HasRoom s
    → get s.by_url url ≡ none
    → shorten s url now ≡ some (store s url now (next s, base62 (next s)))
unfolding shorten
shorten_new s url now v h e = rw (e, shorten, next_code_lem s (size s.by_code) v h)

-- A code is given, which the tables map to the URL and back; the old entries are still there.
pub record Answers (s : Service) (url code : Bytes) (s' : Service) : Type 0 where
  pub valid : IsValid s'
  pub entry : Entry
  pub found : stats s' code ≡ some entry
  pub url_is : entry.url ≡ url
  pub known : get s'.by_url url ≡ some code
  pub counted : s'.counter ≤ next s
  pub kept : (c : Bytes) (e : Entry) → stats s c ≡ some e → stats s' c ≡ some e

known-Answers :
    (s : Service) (url code : Bytes)
    → IsValid s
    → get s.by_url url ≡ some code
    → Answers s url code (record s { shorten_total = increment s.shorten_total })
unfolding stats
known-Answers s url code v e =
    let (entry, at, is) = v.urls url code e in
    record {
      valid = record { codes = v.codes; urls = v.urls };
      entry = entry;
      found = at;
      url_is = is;
      known = e;
      counted = omega arith;
      kept = λ c d h. h;
    }

new-Answers :
    (s : Service) (url : Bytes) (now : ℕ)
    → IsValid s
    → HasRoom s
    → get s.by_url url ≡ none
    → Answers s url (base62 (next s)) (store s url now (next s, base62 (next s))).1
unfolding stats store
new-Answers s url now v h e = record {
  valid = store-IsValid s url now v h e;
  entry = new_entry url now;
  found = get_same s.by_code (base62 (next s)) (new_entry url now);
  url_is = refl;
  known = get_same s.by_url url (base62 (next s));
  counted = omega arith;
  kept = λ c d at.
      get_other s.by_code (base62 (next s)) c (new_entry url now)
        (not_free s c d (next_is_free s v h) at)
      ∙ at;
}

-- On consistent tables with room in the counter, `shorten` returns on every URL, with a code that the new tables map to that URL; the tables stay
-- consistent and no old code changes its entry.
pub shorten-Answers :
    (s : Service) (url : Bytes) (now : ℕ)
    → IsValid s
    → HasRoom s
    → (code : Bytes) × (s' : Service) × (shorten s url now ≡ some (code, s'))
      × Answers s url code s'
shorten-Answers s url now v h = elim (Option-cases (get s.by_url url)) [
  | inl e ↦ (
    base62 (next s),
    (store s url now (next s, base62 (next s))).1,
    shorten_new s url now v h e ∙ unfold store in refl,
    new-Answers s url now v h e,
  )
  | inr (code, e) ↦ (
    code,
    record s { shorten_total = increment s.shorten_total },
    shorten_known s url code now e,
    known-Answers s url code v e,
  )
]

-- The same for a result that is at hand.
pub shorten-Answers_of :
    (s : Service) (url : Bytes) (now : ℕ) (code : Bytes) (s' : Service)
    → IsValid s
    → HasRoom s
    → shorten s url now ≡ some (code, s')
    → Answers s url code s'
shorten-Answers_of s url now code s' v h e =
    let (code', t, is, a) = shorten-Answers s url now v h in
    subst (λ (r : Bytes × Service). Answers s url r.0 r.1)
      (some-injective (code', t) (code, s') (sym is ∙ e)) a

-- On consistent tables with room in the counter: a URL that was shortened just before gets its old code, and the tables and the counter stay as they are.
shorten_again :
    (s : Service) (url : Bytes) (now later : ℕ) (code : Bytes) (s' : Service)
    → IsValid s
    → HasRoom s
    → shorten s url now ≡ some (code, s')
    → shorten s' url later ≡ some (code, record s' { shorten_total = increment s'.shorten_total })
shorten_again s url now later code s' v h e =
    shorten_known s' url code later (shorten-Answers_of s url now code s' v h e).known

-- On consistent tables with room in the counter, two different URLs that are shortened one after the
-- other get different codes.
pub shorten-distinct :
    (s : Service) (url url' : Bytes) (now later : ℕ) (code code' : Bytes) (s' s'' : Service)
    → IsValid s
    → HasRoom s
    → HasRoom s'
    → shorten s url now ≡ some (code, s')
    → shorten s' url' later ≡ some (code', s'')
    → url ≢ url'
    → code ≢ code'
shorten-distinct s url url' now later code code' s' s'' v h h' e e' ne same =
    let a = shorten-Answers_of s url now code s' v h e in
    let a' = shorten-Answers_of s' url' later code' s'' a.valid h' e' in
    let old : stats s'' code' ≡ some a.entry =
      subst (λ c. stats s'' c ≡ some a.entry) same (a'.kept code a.entry a.found) in
    let one = some-injective a.entry a'.entry (sym old ∙ a'.found) in
    ne (sym a.url_is ∙ ap (λ (d : Entry). d.url) one ∙ a'.url_is)
