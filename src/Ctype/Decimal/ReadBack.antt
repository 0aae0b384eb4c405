-- ===== src/Ctype/Decimal/ReadBack.antt =====
-- What strtol reads back of printf's decimals.
use mathlib.Core.WellFounded.{Acc}
use mathlib.Core.Logic.{dite}
use native.Mathlib.Decide.{dec_lt}
use native.Mathlib.Nat.{pow-suc}
use mini_net.Prelude.{
  ℕ, zero, suc, ◌+◌, ◌-◌, ◌*◌, ◌/◌, ◌%◌, ◌^◌, ◌<◌, ◌≤◌, ◌≡◌, refl, ap, ◌∙◌, true, false, Bool, [],
  ◌∷◌, ◌++◌, some, Bytes, not, arith, lt_wf, min, length, ◌==◌,
}
use mini_net.Ctype.{
  is_digit, is_space, leading_value, strtol, signed_value, digits_value, skip_spaces, as_long,
  long_max, pos,
}
use mini_net.Ctype.Decimal.{print_acc, print_decimal}

leading_value_digit :
    (m d : ℕ) (s : Bytes) → d < 10 → leading_value m ((b'0' + d) ∷ s) ≡ leading_value (m * 10 + d) s
unfolding leading_value
leading_value_digit m d s h =
    let e : is_digit (b'0' + d) ≡ true = ground arith in
    let k : m * 10 + (b'0' + d - b'0') ≡ m * 10 + d = omega arith in rw (e, k)

dite_ind :
    {A : Type 0} (d : Dec A) (f : A → Bytes) (g : (A → ⊥) → Bytes) (P : Bytes → Type 0)
    → ((a : A) → P (f a))
    → ((n : A → ⊥) → P (g n))
    → P (dite d f g)
dite_ind (yes a) f g P p q = p a
dite_ind (no n) f g P p q = q n

-- One round of the loop: what holds of both branches holds of it.
print_acc_ind :
    (n : ℕ) (smaller : (m : ℕ) → m < n → Acc ◌<◌ m) (out : Bytes) (P : Bytes → Type 0)
    → ((h : n / 10 < n)
        → 9 < n
        → P (print_acc (n / 10) (smaller (n / 10) h) ((b'0' + n % 10) ∷ out)))
    → (n ≤ 9 → P ((b'0' + n) ∷ out))
    → P (print_acc n (Acc.intro n smaller) out)
unfolding print_acc
print_acc_ind n smaller out P p q =
    dite_ind (dec_lt 9 n)
      (λ h. print_acc (n / 10) (smaller (n / 10) (omega arith)) ((b'0' + n % 10) ∷ out))
      (λ _. (b'0' + n) ∷ out) P (λ h. p (omega arith) h) (λ k. q (omega (arith, not_lt k)))
  where
    not_lt : (9 < n → ⊥) → n ≤ 9
    not_lt k = omega (arith, k)

abbrev pub AllDigits : Bytes → Type 0
AllDigits [] = Unit
AllDigits (c ∷ s) = (is_digit c ≡ true) × AllDigits s

digit-is_digit : (d : ℕ) → d < 10 → is_digit (b'0' + d) ≡ true
digit-is_digit d h = ground arith

-- What the loop makes of `n` in front of `out`.
record Printed (n : ℕ) (out s : Bytes) : Type 0 where
  value : (rest : Bytes) → leading_value 0 (s ++ rest) ≡ leading_value n (out ++ rest)
  digits : AllDigits out → AllDigits s
  longer : length out < length s
  short : (k : ℕ) → n < 10 ^ suc k → length s ≤ suc k + length out

shorter :
    (k n m l : ℕ)
    → 9 < n
    → n < 10 ^ suc k
    → ((j : ℕ) → n / 10 < 10 ^ suc j → m ≤ suc j + suc l)
    → m ≤ suc k + l
shorter zero n m l big h p = absurd (omega (arith, h))
shorter (suc k) n m l big h p = omega (arith, p k (omega (arith, h, pow-suc 10 (suc k))))

print_acc-Printed : (n : ℕ) (w : Acc ◌<◌ n) (out : Bytes) → Printed n out (print_acc n w out)
print_acc-Printed n (Acc.intro _ smaller) out =
    print_acc_ind n smaller out (Printed n out)
      (λ h big.
        let r = print_acc-Printed (n / 10) (smaller (n / 10) h) ((b'0' + n % 10) ∷ out) in
        record {
          value = λ rest.
              r.value rest
              ∙ leading_value_digit (n / 10) (n % 10) (out ++ rest) (omega arith)
              ∙ ap (λ m. leading_value m (out ++ rest)) (omega arith);
          digits = λ all. r.digits (digit-is_digit (n % 10) (omega arith), all);
          longer = omega (arith, r.longer);
          short = λ k lt. shorter k n _ (length out) big lt r.short;
        })
      (λ small. record {
        value = λ rest.
            leading_value_digit 0 n (out ++ rest) (omega arith)
            ∙ ap (λ m. leading_value m (out ++ rest)) (omega arith);
        digits = λ all. (digit-is_digit n (omega arith), all);
        longer = omega arith;
        short = λ k lt. omega arith;
      })

decimal : (n : ℕ) → Printed n [] (print_decimal n)
unfolding print_decimal
decimal n = print_acc-Printed n (lt_wf.apply n) []

pub print_decimal-AllDigits : (n : ℕ) → AllDigits (print_decimal n)
print_decimal-AllDigits n = (decimal n).digits tt

pub length-print_decimal : (n k : ℕ) → n < 10 ^ suc k → length (print_decimal n) ≤ suc k
length-print_decimal n k h = omega (arith, (decimal n).short k h)

pub print_decimal-ne-nil : (n : ℕ) → 0 < length (print_decimal n)
print_decimal-ne-nil n = omega (arith, (decimal n).longer)

-- No digit follows.
abbrev pub ends_number : Bytes → Bool
ends_number [] = true
ends_number (c ∷ s) = not (is_digit c)

leading_value_ends : (n : ℕ) (s : Bytes) → ends_number s ≡ true → leading_value n s ≡ n
unfolding leading_value
leading_value_ends n [] h = refl
leading_value_ends n (c ∷ s) h = ground arith

pub digit_not_space : (c : ℕ) → is_digit c ≡ true → is_space c ≡ false
digit_not_space c h = ground arith

-- strtol on the decimals of a number that a long can hold, whatever follows them.
pub strtol-print_decimal :
    (n : ℕ) (rest : Bytes)
    → n < 2 ^ 63
    → ends_number rest ≡ true
    → strtol (print_decimal n ++ rest) ≡ some (pos n)
unfolding strtol signed_value digits_value as_long skip_spaces
strtol-print_decimal n rest h e =
    by_digits (print_decimal n) refl (print_decimal-AllDigits n) (print_decimal-ne-nil n)
  where
    small : min n long_max ≡ n
    small = omega (arith, h)

    by_digits :
        (s : Bytes)
        → s ≡ print_decimal n
        → AllDigits s
        → 0 < length s
        → signed_value (skip_spaces (s ++ rest)) ≡ some (pos n)
    by_digits [] k all l = absurd (omega (arith, l))
    by_digits (c ∷ s) k (d, all) l =
        let v : leading_value 0 (c ∷ (s ++ rest)) ≡ n =
          ap (λ (x : Bytes). leading_value 0 (x ++ rest)) k
          ∙ (decimal n).value rest
          ∙ leading_value_ends n rest e in
        let e1 : is_space c ≡ false = digit_not_space c d in
        let e2 : (c == b'-') ≡ false = ground arith in
        let e3 : (c == b'+') ≡ false = ground arith in
        rw (e1, e2, e3, d)
          (ap (λ m. some (pos (min m long_max))) (rw d at v) ∙ ap (λ m. some (pos m)) small)
