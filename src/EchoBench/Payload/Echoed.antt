-- ===== src/EchoBench/Payload/Echoed.antt =====
-- verifyChunk against the bytes that a server that echoes sends back.
use mini_net.Prelude.{
  ℕ, zero, suc, ◌+◌, ◌-◌, ◌%◌, ◌<◌, ◌≤◌, ◌≡◌, refl, sym, ap, ◌∙◌, Bool, true, false, ◌&&◌, [], ◌∷◌,
  ◌++◌, Bytes, bytes_eq, ltb, ◌==◌, if◌then◌else◌, arith, length, take, drop, min, length-take,
  length-drop, take-append-drop, Bool-cases, inl, inr, ◌⊎◌, take_all,
}
use native.Mathlib.Nat.{suc-mod, mod-eq_of_lt, mod-lt, mod-add-mod, mod_self}
use mini_net.EchoBench.Payload.{verify_chunk}

-- The byte at an index, 0 past the end.
abbrev pub byte_at : Bytes → ℕ → ℕ
byte_at [] i = 0
byte_at (c ∷ s) zero = c
byte_at (c ∷ s) (suc i) = byte_at s i

-- The k-th byte of all that is echoed is payload[k % size].
abbrev pub echoed : Bytes → ℕ → ℕ → Bytes
echoed payload k zero = []
echoed payload k (suc n) = byte_at payload (k % length payload) ∷ echoed payload (suc k) n

pub length-echoed : (payload : Bytes) (k n : ℕ) → length (echoed payload k n) ≡ n
length-echoed payload k zero = refl
length-echoed payload k (suc n) = ap suc (length-echoed payload (suc k) n)

echoed-append :
    (payload : Bytes) (k a n : ℕ)
    → echoed payload k (a + n) ≡ echoed payload k a ++ echoed payload (k + a) n
echoed-append payload k zero n =
    let e1 : 0 + n ≡ n = omega arith in
    let e2 : k ≡ k + 0 = omega arith in ap (echoed payload k) e1 ∙ ap (λ x. echoed payload x n) e2
echoed-append payload k (suc a) n =
    let e1 : suc a + n ≡ suc (a + n) = omega arith in
    let e2 : suc k + a ≡ k + suc a = omega arith in
    ap (echoed payload k) e1
    ∙ ap (λ x. byte_at payload (k % length payload) ∷ x)
        (echoed-append payload (suc k) a n
          ∙ ap (λ x. echoed payload (suc k) a ++ echoed payload x n) e2)

drop_at : (s : Bytes) (j : ℕ) → j < length s → drop j s ≡ byte_at s j ∷ drop (suc j) s
drop_at [] j h = absurd (omega (arith, h))
drop_at (c ∷ s) zero h = refl
drop_at (c ∷ s) (suc j) h = drop_at s j (omega (arith, h))

next_index : (k sz j : ℕ) → k % sz ≡ j → suc j < sz → suc k % sz ≡ suc j
next_index k sz j e h = suc-mod k sz ∙ ap (λ x. suc x % sz) e ∙ mod-eq_of_lt h

-- Up to the payload's end, what is echoed is a part of the payload.
echoed_part :
    (payload : Bytes) (k j n : ℕ)
    → k % length payload ≡ j
    → j + n ≤ length payload
    → echoed payload k n ≡ take n (drop j payload)
echoed_part payload k j zero e h = refl
echoed_part payload k j (suc zero) e h =
    ap (λ (x : ℕ). byte_at payload x ∷ []) e
    ∙ ap (take 1) (sym (drop_at payload j (omega (arith, h))))
echoed_part payload k j (suc (suc n)) e h =
    ap (λ (x : ℕ). byte_at payload x ∷ echoed payload (suc k) (suc n)) e
    ∙ ap (λ x. byte_at payload j ∷ x)
        (echoed_part payload (suc k) (suc j) (suc n)
          (next_index k (length payload) j e (omega (arith, h))) (omega (arith, h)))
    ∙ ap (take (suc (suc n))) (sym (drop_at payload j (omega (arith, h))))

and_assoc : (a b c : Bool) → ((a && b) && c) ≡ (a && (b && c))
and_assoc true b c = refl
and_assoc false b c = refl

bytes_eq-append :
    (x y x' y' : Bytes)
    → length x ≡ length x'
    → bytes_eq (x ++ y) (x' ++ y') ≡ bytes_eq x x' && bytes_eq y y'
bytes_eq-append [] y [] y' h = refl
bytes_eq-append [] y (d ∷ x') y' h = absurd (omega (arith, h))
bytes_eq-append (c ∷ x) y [] y' h = absurd (omega (arith, h))
bytes_eq-append (c ∷ x) y (d ∷ x') y' h =
    ap (λ t. c == d && t) (bytes_eq-append x y x' y' (omega (arith, h)))
    ∙ sym (and_assoc (c == d) (bytes_eq x x') (bytes_eq y y'))

and_true : (a : Bool) → (a && true) ≡ a
and_true true = refl
and_true false = refl

-- Where the second memcmp starts, the payload starts again.
wraps : (base sz : ℕ) → 0 < sz → (base + (sz - base % sz)) % sz ≡ 0
wraps base sz h =
    let whole : base % sz + (sz - base % sz) ≡ sz = omega (arith, mod-lt base h) in
    sym (mod-add-mod base sz (sz - base % sz)) ∙ ap (λ x. x % sz) whole ∙ mod_self sz

take-prefix : (s t : Bytes) (n : ℕ) → n ≤ length s → take n (s ++ t) ≡ take n s
take-prefix s t zero h = refl
take-prefix [] t (suc n) h = absurd (omega (arith, h))
take-prefix (c ∷ s) t (suc n) h = ap (λ x. c ∷ x) (take-prefix s t n (omega (arith, h)))

-- The two memcmp of a chunk, and the one.
two_parts :
    (payload behind : Bytes) (base : ℕ) (chunk : Bytes)
    → 0 < length payload
    → length payload - base % length payload ≤ length chunk
    → length chunk ≤ length payload - base % length payload + length payload
    → let first = length payload - base % length payload in
      (bytes_eq (take first chunk) (take first (drop (base % length payload) payload))
        && bytes_eq (drop first chunk) (take (length chunk - first) (payload ++ behind)))
      ≡ bytes_eq chunk (echoed payload base (length chunk))
two_parts payload behind base chunk h low high =
    let sz = length payload in
    let start = base % sz in
    let first = sz - start in
    let whole : first + (length chunk - first) ≡ length chunk = omega (arith, low) in
    let p1 = sym (echoed_part payload base start first refl (omega (arith, mod-lt base h))) in
    let p2 = sym (
      echoed_part payload (base + first) 0 (length chunk - first) (wraps base sz h)
        (omega (arith, high))) in
    let same : length (take first chunk) ≡ length (take first (drop start payload)) = omega (
      arith,
      low,
      mod-lt base h,
      length-take first chunk,
      length-take first (drop start payload),
      length-drop start payload,
    ) in
    ap
      (λ x.
        bytes_eq (take first chunk) (take first (drop start payload))
        && bytes_eq (drop first chunk) x)
      (take-prefix payload behind (length chunk - first) (omega (arith, high)))
    ∙ sym (bytes_eq-append (take first chunk) (drop first chunk) _ _ same)
    ∙ (λ i. bytes_eq (take-append-drop first chunk i) (p1 i ++ p2 i))
    ∙ ap (bytes_eq chunk) (
        sym (echoed-append payload base first (length chunk - first))
        ∙ ap (echoed payload base) whole)

abbrev comparison : Bytes → Bytes → ℕ → Bytes → ℕ → Bool
comparison payload behind start chunk first =
    if bytes_eq (take first chunk) (take first (drop start payload))
    then if ltb first (length chunk)
      then bytes_eq (drop first chunk) (take (length chunk - first) (payload ++ behind))
      else true
    else false

verify_is :
    (payload behind : Bytes) (base : ℕ) (chunk : Bytes)
    → 0 < length payload
    → 0 < length chunk
    → verify_chunk payload behind base chunk
      ≡ comparison payload behind
          (base % length payload)
          chunk
          (min (length chunk) (length payload - base % length payload))
unfolding verify_chunk
verify_is payload behind base chunk h k =
    let e1 : (length payload == 0) ≡ false = ground (arith, h) in
    let e2 : (length chunk == 0) ≡ false = ground (arith, k) in rw (e1, e2)

leb-cases : (a b : ℕ) → (a ≤ b) ⊎ (b < a)
leb-cases a b = elim (Bool-cases (ltb b a)) [
  | inl e ↦ inr (ground arith)
  | inr e ↦ inl (ground arith)
]

nothing :
    (payload behind : Bytes) (base : ℕ)
    → 0 < length payload
    → verify_chunk payload behind base [] ≡ true
unfolding verify_chunk
nothing payload behind base h = let e : (length payload == 0) ≡ false = ground (arith, h) in rw e

as_and : (a b : Bool) → (if a then b else false) ≡ (a && b)
as_and true b = refl
as_and false b = refl

one_part :
    (payload behind : Bytes) (base : ℕ) (chunk : Bytes)
    → 0 < length payload
    → length chunk ≤ length payload - base % length payload
    → comparison payload behind (base % length payload) chunk (length chunk)
      ≡ bytes_eq chunk (echoed payload base (length chunk))
one_part payload behind base chunk h low =
    let n = length chunk in
    let start = base % length payload in
    let last : ltb n n ≡ false = ground arith in
    let same = bytes_eq (take n chunk) (take n (drop start payload)) in
    let others = bytes_eq (drop n chunk) (take (n - n) (payload ++ behind)) in
    ap (λ t. if same then (if t then others else true) else false) last
    ∙ as_and same true
    ∙ and_true same
    ∙ ap (λ x. bytes_eq x (take n (drop start payload))) (take_all n chunk (omega arith))
    ∙ ap (bytes_eq chunk)
        (sym (echoed_part payload base start n refl (omega (arith, low, mod-lt base h))))

round_part :
    (payload behind : Bytes) (base : ℕ) (chunk : Bytes)
    → 0 < length payload
    → length payload - base % length payload < length chunk
    → length chunk ≤ length payload - base % length payload + length payload
    → comparison payload behind
        (base % length payload)
        chunk
        (length payload - base % length payload)
      ≡ bytes_eq chunk (echoed payload base (length chunk))
round_part payload behind base chunk h low high =
    let first = length payload - base % length payload in
    let more : ltb first (length chunk) ≡ true = ground (arith, low) in
    let same = bytes_eq (take first chunk) (take first (drop (base % length payload) payload)) in
    let others = bytes_eq (drop first chunk) (take (length chunk - first) (payload ++ behind)) in
    ap (λ t. if same then (if t then others else true) else false) more
    ∙ as_and same others
    ∙ two_parts payload behind base chunk h (omega (arith, low)) high

-- verifyChunk accepts a chunk exactly where its k-th byte, counted from the connection's first, is
-- byte k % size of the payload: for a payload that is not empty, and a chunk that reaches the
-- payload's end at most twice.
pub verify_chunk-echoed :
    (payload behind : Bytes) (base : ℕ) (chunk : Bytes)
    → 0 < length payload
    → length chunk ≤ length payload - base % length payload + length payload
    → verify_chunk payload behind base chunk ≡ bytes_eq chunk (echoed payload base (length chunk))
verify_chunk-echoed payload behind base [] h fits = nothing payload behind base h
verify_chunk-echoed payload behind base (c ∷ chunk) h fits =
    let n = length (c ∷ chunk) in
    let room = length payload - base % length payload in
    verify_is payload behind base (c ∷ chunk) h (omega arith) ∙ elim (leb-cases n room) [
      | inl small ↦
          (let e : min n room ≡ n = omega (arith, small) in
            ap (comparison payload behind (base % length payload) (c ∷ chunk)) e)
          ∙ one_part payload behind base (c ∷ chunk) h small
      | inr large ↦
          (let e : min n room ≡ room = omega (arith, large) in
            ap (comparison payload behind (base % length payload) (c ∷ chunk)) e)
          ∙ round_part payload behind base (c ∷ chunk) h large fits
    ]
