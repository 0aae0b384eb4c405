-- ===== src/ShortUrlService/Base62.antt =====
-- base62 loses nothing: the code of a number spells it, least digit first.
use mathlib.Core.Logic.{ite, dite}
use mathlib.Core.WellFounded
use mathlib.Core.WellFounded.{Acc, Acc-prop}
use native.Mathlib.Nat.{pow-suc}
use native.Mathlib.Decide.{dec_lt}
use mini_net.Prelude.{
  ℕ, zero, suc, ◌+◌, ◌-◌, ◌*◌, ◌/◌, ◌%◌, ◌^◌, ◌<◌, ◌≤◌, ◌≡◌, refl, sym, ap, ◌∙◌, Bool, true, ◌&&◌,
  [], ◌∷◌, Bytes, text, ltb, ◌==◌, ==_iff, if◌then◌else◌, length, get_or, arith, lt_wf, and-true,
}
use mini_net.Ctype.{is_alnum}
use mini_net.ShortUrlService.{digit, digits, digits_acc, base62, u64, all_alnum, valid_code}

-- The value of a letter of the alphabet.
abbrev value : ℕ → ℕ
value c = if ltb c b'A' then c - b'0' else if ltb c b'a' then c - b'A' + 36 else c - b'a' + 10

-- The letters from number `i` on are letters or digits, each of its number's value.
spells : ℕ → Bytes → Bool
spells i [] = true
spells i (c ∷ s) = (value c == i && is_alnum c) && spells (i + 1) s

letter_lem :
    (s : Bytes) (i d : ℕ)
    → spells i s ≡ true
    → d < length s
    → (value (get_or s d 0) ≡ i + d) × (is_alnum (get_or s d 0) ≡ true)
unfolding spells
letter_lem [] i d h lt = absurd (omega arith)
letter_lem (c ∷ s) i zero h lt =
    let (here, more) = and-true (value c == i && is_alnum c) (spells (i + 1) s) h in
    let (v, a) = and-true (value c == i) (is_alnum c) here in ((==_iff _ _).0 v ∙ omega arith, a)
letter_lem (c ∷ s) i (suc d) h lt =
    let (here, more) = and-true (value c == i && is_alnum c) (spells (i + 1) s) h in
    let (v, a) = letter_lem s (i + 1) d more (omega arith) in (v ∙ omega arith, a)

alphabet_spells :
    spells 0 (text "0123456789abcdefghijklmnopqrstuvwxyzABCDEFGHIJKLMNOPQRSTUVWXYZ") ≡ true
unfolding spells text
alphabet_spells = refl

digit_lem : (d : ℕ) → d < 62 → (value (digit d) ≡ d) × (is_alnum (digit d) ≡ true)
unfolding digit text
digit_lem d h =
    let (v, a) =
      letter_lem (text "0123456789abcdefghijklmnopqrstuvwxyzABCDEFGHIJKLMNOPQRSTUVWXYZ") 0 d
        alphabet_spells (omega arith) in
    (v ∙ omega arith, a)

digits_acc_step :
    (n : ℕ) (w : Acc ◌<◌ n) (w' : Acc ◌<◌ (n / 62))
    → digits_acc n w ≡ digit (n % 62) ∷ ite (dec_lt 0 (n / 62)) (digits_acc (n / 62) w') []
unfolding digits_acc
digits_acc_step n (Acc.intro _ smaller) w' = λ i.
    digit (n % 62)
    ∷ dite (dec_lt 0 (n / 62))
        (λ h. digits_acc (n / 62) (Acc-prop (smaller (n / 62) (omega arith)) w' i)) (λ _. [])

-- The loop of base62: one digit, and the rest as long as the quotient is positive.
pub digits_step : (n : ℕ) → digits n ≡ digit (n % 62) ∷ ite (dec_lt 0 (n / 62)) (digits (n / 62)) []
unfolding digits lt_wf
digits_step n = digits_acc_step n (lt_wf.apply n) (lt_wf.apply (n / 62))

decode : Bytes → ℕ
decode [] = 0
decode (c ∷ s) = value c + 62 * decode s

decode-digits : (n : ℕ) → decode (digits n) ≡ n
unfolding decode
decode-digits n =
    WellFounded.induction lt_wf {C = λ k. decode (digits k) ≡ k} n
      λ k ih. ground (arith, digits_step k, ih (k / 62), (digit_lem (k % 62) (omega arith)).0)

-- Numbers with the same code are the same.
pub digits-injective : (m n : ℕ) → digits m ≡ digits n → m ≡ n
digits-injective m n e = sym (decode-digits m) ∙ ap decode e ∙ decode-digits n

-- Two counters below the wrap have different codes.
pub base62-injective : (m n : ℕ) → m + 100000 < u64 → n + 100000 < u64 → base62 m ≡ base62 n → m ≡ n
unfolding base62
base62-injective m n hm hn e = omega (arith, digits-injective _ _ e)

digits-all_alnum : (n : ℕ) → all_alnum (digits n) ≡ true
digits-all_alnum n =
    WellFounded.induction lt_wf {C = λ k. all_alnum (digits k) ≡ true} n
      λ k ih. ground (arith, digits_step k, ih (k / 62), (digit_lem (k % 62) (omega arith)).1)

-- A number below 62^(k+1) has at most k+1 digits.
length-digits : (k n : ℕ) → n < 62 ^ suc k → length (digits n) ≤ suc k
length-digits zero n h = ground (arith, digits_step n)
length-digits (suc k) n h =
    ground (arith, digits_step n, length-digits k (n / 62), pow-suc 62 (suc k))

valid_code_of :
    (s : Bytes) (c : ℕ) (r : Bytes)
    → s ≡ c ∷ r
    → length s ≤ 8
    → all_alnum s ≡ true
    → valid_code s ≡ true
unfolding valid_code
valid_code_of s c r e h a = ground arith

-- The code of a counter up to 62^(k+1) - 100001, for k below 8, passes validCode and has at most
-- k+1 letters.
pub base62_short :
    (k n : ℕ)
    → k < 8
    → n + 100000 < 62 ^ suc k
    → n + 100000 < u64
    → (valid_code (base62 n) ≡ true) × (length (base62 n) ≤ suc k)
unfolding base62
base62_short k n hk h room =
    let e : (n + 100000) % u64 ≡ n + 100000 = omega arith in
    let short = length-digits k (n + 100000) h in
    rw e (
      valid_code_of (digits (n + 100000)) _ _ (digits_step (n + 100000)) (omega arith)
          (digits-all_alnum (n + 100000)),
      short,
    )

-- The codes of all counters up to 62^8 - 100001 pass validCode: 1 to 8 letters or digits.
base62-valid_code : (n : ℕ) → n + 100000 < 62 ^ 8 → valid_code (base62 n) ≡ true
base62-valid_code n h = (base62_short 7 n (omega arith) h (omega arith)).0
