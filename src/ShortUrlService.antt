-- ===== src/ShortUrlService.antt =====
-- src/ShortUrlService.cc and include/mini_net/ShortUrlService.h: codes for long URLs, in two maps.
-- The clock's reading is an argument. Each method runs under the mutex, so a call is one step.
mod Tests
pub mod Base62
pub mod Invariant
pub mod Shorten
pub mod Lookup
use mathlib.Core.WellFounded.{Acc}
use mathlib.Core.Logic.{dite}
use native.Mathlib.Decide.{dec_lt}
use mini_net.Prelude.{
  ℕ, zero, suc, ◌+◌, ◌/◌, ◌%◌, ◌^◌, ◌<◌, Bool, true, false, ◌&&◌, [], ◌∷◌, Option, none, some,
  Bytes, text, ltb, if◌then◌else◌, length, get_or, arith, lt_wf, Map, get, insert, size,
  bytes_eq_instance,
}
use mini_net.Ctype.{is_alnum}

abbrev pub u64 : ℕ
u64 = 2 ^ 64

pub record Entry : Type 0 where
  pub url : Bytes
  pub hits : ℕ
  pub created_at : ℕ

pub record Service : Type 0 where
  pub by_code : Map Bytes Entry
  pub by_url : Map Bytes Bytes
  pub counter : ℕ
  pub shorten_total : ℕ
  pub redirect_total : ℕ

abbrev pub new_service : Service
new_service = record {
  by_code = [];
  by_url = [];
  counter = 0;
  shorten_total = 0;
  redirect_total = 0;
}

-- fetch_add(1) and ++ on a uint64_t.
abbrev pub increment : ℕ → ℕ
increment n = (n + 1) % u64

-- kAlphabet[d]
unfoldable pub digit : ℕ → ℕ
digit d = get_or (text "0123456789abcdefghijklmnopqrstuvwxyzABCDEFGHIJKLMNOPQRSTUVWXYZ") d 0

-- do { out.push_back(kAlphabet[n % 62]); n /= 62; } while (n > 0);
unfoldable pub digits_acc : (n : ℕ) → Acc ◌<◌ n → Bytes
digits_acc n (Acc.intro _ smaller) =
    digit (n % 62)
    ∷ dite (dec_lt 0 (n / 62)) (λ h. digits_acc (n / 62) (smaller (n / 62) (omega arith))) (λ _. [])

unfoldable pub digits : ℕ → Bytes
unfolding digits_acc lt_wf
digits n = digits_acc n (lt_wf.apply n)

unfoldable pub base62 : ℕ → Bytes
base62 n = digits ((n + 100000) % u64)

abbrev pub all_alnum : Bytes → Bool
all_alnum [] = true
all_alnum (c ∷ s) = is_alnum c && all_alnum s

unfoldable pub valid_code : Bytes → Bool
valid_code [] = false
valid_code (c ∷ s) = if ltb 8 (length (c ∷ s)) then false else all_alnum (c ∷ s)

-- do { code = base62(++counter_); } while (by_code_.find(code) != by_code_.end());
-- The new counter and the code. Each round but the last meets a code of the table.
unfoldable pub next_code : ℕ → ℕ → Map Bytes Entry → Option (ℕ × Bytes)
next_code zero counter by_code = none
next_code (suc fuel) counter by_code = elim (get by_code (base62 (increment counter))) [
  | none ↦ some (increment counter, base62 (increment counter))
  | some e ↦ next_code fuel (increment counter) by_code
]

unfoldable pub store : Service → Bytes → ℕ → ℕ × Bytes → Bytes × Service
store s url now (counter, code) = (
  code,
  record {
    by_code = insert s.by_code code (record { url = url; hits = 0; created_at = now });
    by_url = insert s.by_url url code;
    counter = counter;
    shorten_total = increment s.shorten_total;
    redirect_total = s.redirect_total;
  },
)

unfoldable pub shorten : Service → Bytes → ℕ → Option (Bytes × Service)
shorten s url now = elim (get s.by_url url) [
  | some code ↦ some (code, record s { shorten_total = increment s.shorten_total })
  | none ↦ elim (next_code (suc (size s.by_code)) s.counter s.by_code) [
    | none ↦ none
    | some r ↦ some (store s url now r)
  ]
]

abbrev pub hit : Entry → Entry
hit e = record e { hits = increment e.hits }

-- `none` is the result false; *out is the entry after the increment.
unfoldable pub lookup : Service → Bytes → Option Entry × Service
lookup s code = elim (get s.by_code code) [
  | none ↦ (none, s)
  | some e ↦ (
    some (hit e),
    record s {
      by_code = insert s.by_code code (hit e);
      redirect_total = increment s.redirect_total;
    },
  )
]

unfoldable pub stats : Service → Bytes → Option Entry
stats s code = get s.by_code code

abbrev pub stored : Service → ℕ
stored s = size s.by_code
