-- ===== src/Ctype/Decimal.antt =====
-- printf's %d, %zu and %llu of a number that is not negative, without sign or padding.
pub mod ReadBack
use mathlib.Core.WellFounded.{Acc}
use mathlib.Core.Logic.{dite}
use native.Mathlib.Decide.{dec_lt}
use mini_net.Prelude.{ℕ, ◌+◌, ◌/◌, ◌%◌, ◌<◌, [], ◌∷◌, Bytes, arith, lt_wf}

print_acc : (n : ℕ) → Acc ◌<◌ n → Bytes → Bytes
print_acc n (Acc.intro _ smaller) out =
    dite (dec_lt 9 n)
      (λ h. print_acc (n / 10) (smaller (n / 10) (omega arith)) ((b'0' + n % 10) ∷ out))
      (λ _. (b'0' + n) ∷ out)

unfoldable pub print_decimal : ℕ → Bytes
unfolding print_acc lt_wf dec_lt
print_decimal n = print_acc n (lt_wf.apply n) []
