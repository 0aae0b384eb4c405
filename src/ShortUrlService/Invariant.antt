-- ===== src/ShortUrlService/Invariant.antt =====
-- The two maps of the service agree, and every code was made from a counter value.
use mathlib.Core.Option.{some-injective}
use mini_net.Prelude.{
  subst, ℕ, suc, ◌+◌, ◌≤◌, ◌<◌, ◌≡◌, inl, inr, sym, ◌∙◌, none, some, Bytes, true, false, bytes_eq,
  bytes_eq_iff, bytes_eq_refl, Bool-cases, Option-cases, Map, get, insert, get-insert,
  bytes_eq_instance, arith,
}
use mini_net.ShortUrlService.{Entry, Service, new_service, base62, u64, increment, next_code, store}
use mini_net.ShortUrlService.Base62.{base62-injective}

pub record IsValid (s : Service) : Type 0 where
  pub codes :
      (code : Bytes) (e : Entry)
      → get s.by_code code ≡ some e
      → (k : ℕ) × (k ≤ s.counter) × (code ≡ base62 k) × (get s.by_url e.url ≡ some code)
  pub urls :
      (url code : Bytes)
      → get s.by_url url ≡ some code
      → (e : Entry) × (get s.by_code code ≡ some e) × (e.url ≡ url)

pub new_service-IsValid : IsValid new_service
unfolding get
new_service-IsValid = record { codes = λ code e h. absurd (cc); urls = λ url code h. absurd (cc) }

-- A counter that has not come near its wrap.
abbrev pub HasRoom : Service → Type 0
HasRoom s = s.counter + 100001 < u64

abbrev pub next : Service → ℕ
next s = s.counter + 1

pub next_is_free : (s : Service) → IsValid s → HasRoom s → get s.by_code (base62 (next s)) ≡ none
next_is_free s v h = elim (Option-cases (get s.by_code (base62 (next s)))) [
  | inl free ↦ free
  | inr (e, taken) ↦
      let (k, le, same, back) = v.codes (base62 (next s)) e taken in
      absurd (omega (arith, base62-injective (next s) k (omega arith) (omega arith) same))
]

one_round :
    (fuel c : ℕ) (m : Map Bytes Entry)
    → get m (base62 (increment c)) ≡ none
    → next_code (suc fuel) c m ≡ some (increment c, base62 (increment c))
unfolding next_code
one_round fuel c m e = rw (e, next_code)

-- The first code that is tried is free, so any fuel is enough.
pub next_code_lem :
    (s : Service) (fuel : ℕ)
    → IsValid s
    → HasRoom s
    → next_code (suc fuel) s.counter s.by_code ≡ some (next s, base62 (next s))
next_code_lem s fuel v h =
    let e : increment s.counter ≡ next s = omega arith in
    subst (λ c. next_code (suc fuel) s.counter s.by_code ≡ some (c, base62 c)) e
      (one_round fuel s.counter s.by_code (rw e (next_is_free s v h)))

-- A lookup in a map with one entry put in.
pub get_same {ℓ} :
    {V : Type ℓ} (m : Map Bytes V) (k : Bytes) (v : V) → get (insert m k v) k ≡ some v
get_same m k v = get-insert m k k v ∙ rw (bytes_eq_refl k)

pub get_same_is {ℓ} :
    {V : Type ℓ} (m : Map Bytes V) (k j : Bytes) (v w : V)
    → bytes_eq k j ≡ true
    → get (insert m k v) j ≡ some w
    → (k ≡ j) × (v ≡ w)
get_same_is m k j v w same found =
    let kept : get (insert m k v) j ≡ some v = get-insert m k j v ∙ rw same in
    ((bytes_eq_iff k j).0 same, some-injective v w (sym kept ∙ found))

pub get_other {ℓ} :
    {V : Type ℓ} (m : Map Bytes V) (k j : Bytes) (v : V)
    → bytes_eq k j ≡ false
    → get (insert m k v) j ≡ get m j
get_other m k j v h = get-insert m k j v ∙ rw h

not_known :
    (s : Service) (url code : Bytes) (e : Entry)
    → get s.by_url url ≡ none
    → get s.by_url e.url ≡ some code
    → bytes_eq url e.url ≡ false
not_known s url code e new old = elim (Bool-cases (bytes_eq url e.url)) [
  | inl same ↦ absurd (cc ((bytes_eq_iff url e.url).0 same))
  | inr differ ↦ differ
]

pub not_free :
    (s : Service) (code : Bytes) (e : Entry)
    → get s.by_code (base62 (next s)) ≡ none
    → get s.by_code code ≡ some e
    → bytes_eq (base62 (next s)) code ≡ false
not_free s code e free old = elim (Bool-cases (bytes_eq (base62 (next s)) code)) [
  | inl same ↦ absurd (cc ((bytes_eq_iff (base62 (next s)) code).0 same))
  | inr differ ↦ differ
]

abbrev pub new_entry : Bytes → ℕ → Entry
new_entry url now = record { url = url; hits = 0; created_at = now }

store_codes :
    (s : Service) (url : Bytes) (now : ℕ)
    → IsValid s
    → HasRoom s
    → get s.by_url url ≡ none
    → let s' = (store s url now (next s, base62 (next s))).1 in
      (code : Bytes) (e : Entry)
      → get s'.by_code code ≡ some e
      → (k : ℕ) × (k ≤ s'.counter) × (code ≡ base62 k) × (get s'.by_url e.url ≡ some code)
unfolding store
store_codes s url now v h new code e found = elim (Bool-cases (bytes_eq (base62 (next s)) code)) [
  | inl same ↦
      let (it, is) =
        get_same_is s.by_code (base62 (next s)) code (new_entry url now) e same found in
      (next s, omega arith, sym it, rw (← is, it) (get_same s.by_url url code))
  | inr differ ↦
      let (k, le, made, back) =
        v.codes code e
          (sym (get_other s.by_code (base62 (next s)) code (new_entry url now) differ) ∙ found) in
      (
        k,
        omega arith,
        made,
        get_other s.by_url url e.url (base62 (next s)) (not_known s url code e new back) ∙ back,
      )
]

store_urls :
    (s : Service) (url : Bytes) (now : ℕ)
    → IsValid s
    → HasRoom s
    → get s.by_url url ≡ none
    → let s' = (store s url now (next s, base62 (next s))).1 in
      (url' code : Bytes)
      → get s'.by_url url' ≡ some code
      → (e : Entry) × (get s'.by_code code ≡ some e) × (e.url ≡ url')
unfolding store
store_urls s url now v h new url' code found = elim (Bool-cases (bytes_eq url url')) [
  | inl same ↦
      let (it, is) = get_same_is s.by_url url url' (base62 (next s)) code same found in
      (new_entry url now, rw (← is) (get_same s.by_code (base62 (next s)) (new_entry url now)), it)
  | inr differ ↦
      let (e, at, is) =
        v.urls url' code (sym (get_other s.by_url url url' (base62 (next s)) differ) ∙ found) in
      (
        e,
        get_other s.by_code (base62 (next s)) code (new_entry url now)
              (not_free s code e (next_is_free s v h) at)
            ∙ at,
        is,
      )
]

pub store-IsValid :
    (s : Service) (url : Bytes) (now : ℕ)
    → IsValid s
    → HasRoom s
    → get s.by_url url ≡ none
    → IsValid (store s url now (next s, base62 (next s))).1
store-IsValid s url now v h new = record {
  codes = store_codes s url now v h new;
  urls = store_urls s url now v h new;
}
