-- ===== src/Buffer/Search.antt =====
-- findEOL and findCRLF find the first line end among the unread bytes.
use mini_net.Prelude.{
  ℕ, zero, suc, ◌+◌, ◌-◌, ◌≤◌, ◌≡◌, ◌≢◌, ◌⊎◌, ◌&&◌, length-drop, inl, inr, refl, ap, ◌∙◌, ◌++◌, [],
  ◌∷◌, Option, none, some, arith, Bytes, length, take, drop, Bool-cases, false, ◌==◌, ==_iff,
}
use mini_net.Buffer.{Buffer, find_eol, scan_eol, find_crlf, scan_crlf}
use mini_net.Buffer.View.{contents, IsValid}

abbrev pub Lacks : ℕ → Bytes → Type 0
Lacks c [] = Unit
Lacks c (x ∷ xs) = (x ≢ c) × Lacks c xs

-- Where the first `c` stands behind `i` bytes, or that there is none.
abbrev pub Splits : ℕ → Bytes → (ℕ → ℕ) → Option ℕ → Type 0
Splits c s at r =
    ((r ≡ none) × Lacks c s)
    ⊎ ((line rest : Bytes) × (r ≡ some (at (length line))) × (s ≡ line ++ c ∷ rest) × Lacks c line)

scan_eol-Splits : (n p : ℕ) (s : Bytes) → Splits b'\n' (take n s) (λ k. p + k) (scan_eol n p s)
unfolding scan_eol
scan_eol-Splits zero p s = inl (refl, tt)
scan_eol-Splits (suc n) p [] = inl (refl, tt)
scan_eol-Splits (suc n) p (c ∷ s) = elim (Bool-cases (c == b'\n')) [
  | inl hit ↦
      rw hit
        (inr ([], take n s, ap some (omega arith), ap (λ d. d ∷ take n s) ((==_iff _ _).0 hit), tt))
  | inr miss ↦
      let ne : c ≢ b'\n' = λ e. absurd (ground arith) in
      rw miss (elim (scan_eol-Splits n (p + 1) s) [
        | inl (e, l) ↦ inl (e, (ne, l))
        | inr (line, rest, e, cut, l) ↦
            inr (c ∷ line, rest, e ∙ ap some (omega arith), ap (◌∷◌ c) cut, (ne, l))
      ])
]

-- findEOL gives the first newline among the unread bytes, or nullptr if there is none.
pub find_eol-Splits : (b : Buffer) → Splits b'\n' (contents b) (λ k. b.read_idx + k) (find_eol b)
unfolding find_eol
find_eol-Splits b = scan_eol-Splits (b.write_idx - b.read_idx) b.read_idx (drop b.read_idx b.buf)

-- No \r\n begins in the bytes, or the first one begins behind `line`.
abbrev pub LacksCrlf : Bytes → Type 0
LacksCrlf [] = Unit
LacksCrlf (c ∷ []) = Unit
LacksCrlf (c ∷ d ∷ s) = ((c ≢ b'\r') ⊎ (d ≢ b'\n')) × LacksCrlf (d ∷ s)

abbrev pub SplitsCrlf : Bytes → (ℕ → ℕ) → Option ℕ → Type 0
SplitsCrlf s at r =
    ((r ≡ none) × LacksCrlf s)
    ⊎ ((line rest : Bytes) × (r ≡ some (at (length line)))
        × (s ≡ line ++ b'\r' ∷ b'\n' ∷ rest)
        × LacksCrlf (line ++ b'\r' ∷ []))

not-crlf : (c d : ℕ) → (c == b'\r' && d == b'\n') ≡ false → (c ≢ b'\r') ⊎ (d ≢ b'\n')
not-crlf c d h = elim (Bool-cases (c == b'\r')) [
  | inl hit ↦ inr (ground arith)
  | inr miss ↦ inl (ground arith)
]

LacksCrlf-cons :
    (c : ℕ) (line rest s : Bytes) (d : ℕ)
    → d ∷ s ≡ line ++ b'\r' ∷ rest
    → (c ≢ b'\r') ⊎ (d ≢ b'\n')
    → LacksCrlf (line ++ b'\r' ∷ [])
    → LacksCrlf (c ∷ (line ++ b'\r' ∷ []))
LacksCrlf-cons c [] rest s d e ne l = (inr (ground arith), tt)
LacksCrlf-cons c (x ∷ line) rest s d e ne l = (ground arith, l)

scan_crlf-Splits :
    (n p : ℕ) (s : Bytes)
    → suc n ≤ length s
    → SplitsCrlf (take (suc n) s) (λ k. p + k) (scan_crlf n p s)
unfolding scan_crlf
scan_crlf-Splits n p [] h = absurd (omega arith)
scan_crlf-Splits zero p (c ∷ s) h = inl (refl, tt)
scan_crlf-Splits (suc n) p (c ∷ []) h = absurd (omega arith)
scan_crlf-Splits (suc n) p (c ∷ d ∷ s) h = elim (Bool-cases (c == b'\r' && d == b'\n')) [
  | inl hit ↦ rw hit (inr ([], take n s, ap some (omega arith), ground arith, tt))
  | inr miss ↦ rw miss (elim (scan_crlf-Splits n (p + 1) (d ∷ s) (omega arith)) [
    | inl (e, l) ↦ inl (e, (not-crlf c d miss, l))
    | inr (line, rest, e, cut, l) ↦ inr (
      c ∷ line,
      rest,
      e ∙ ap some (omega arith),
      ap (◌∷◌ c) cut,
      LacksCrlf-cons c line (b'\n' ∷ rest) (take n s) d cut (not-crlf c d miss) l,
    )
  ])
]

scan_crlf-Splits_all :
    (n p : ℕ) (s : Bytes)
    → n ≤ length s
    → SplitsCrlf (take n s) (λ k. p + k) (scan_crlf (n - 1) p s)
scan_crlf-Splits_all zero p s h = unfold scan_crlf in inl (refl, tt)
scan_crlf-Splits_all (suc n) p s h =
    let e : suc n - 1 ≡ n = omega arith in rw e (scan_crlf-Splits n p s h)

-- On a valid buffer, findCRLF gives the first \r\n that lies whole among the unread bytes, or nullptr.
find_crlf-Splits :
    (b : Buffer) → IsValid b → SplitsCrlf (contents b) (λ k. b.read_idx + k) (find_crlf b)
unfolding find_crlf
find_crlf-Splits b v =
    scan_crlf-Splits_all (b.write_idx - b.read_idx) b.read_idx (drop b.read_idx b.buf)
      (omega (arith, v.ordered, v.within, length-drop b.read_idx b.buf))
