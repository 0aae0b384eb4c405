-- ===== src/Buffer/Lines.antt =====
-- Taking a line: findEOL, the string before it, and retrieveUntil behind it, as the parser does.
use mini_net.Prelude.{
  ℕ, ◌+◌, ◌-◌, ◌≡◌, ◌⊎◌, inl, inr, refl, ap, ◌∙◌, sym, ◌++◌, [], ◌∷◌, none, some, arith, Bytes,
  length, length-append, take-append, drop, drop-append, append_assoc,
}
use mini_net.Buffer.{Buffer, find_eol, peek, retrieve_until, readable_bytes}
use mini_net.Buffer.View.{contents, IsValid, length-contents}
use mini_net.Buffer.Refine.{peek_lem, retrieve_until-Refines}
use mini_net.Buffer.Search.{Lacks, find_eol-Splits}

pub record TakesLine (b : Buffer) (eol : ℕ) (line rest : Bytes) : Type 0 where
  pub found : find_eol b ≡ some eol
  pub line_is : peek b (eol - b.read_idx) ≡ line
  pub no_break : Lacks b'\n' line
  pub before : contents b ≡ line ++ b'\n' ∷ rest
  pub valid : IsValid (retrieve_until b (eol + 1))
  pub after : contents (retrieve_until b (eol + 1)) ≡ rest

takes_line :
    (b : Buffer) (line rest : Bytes)
    → IsValid b
    → find_eol b ≡ some (b.read_idx + length line)
    → contents b ≡ line ++ b'\n' ∷ rest
    → Lacks b'\n' line
    → TakesLine b (b.read_idx + length line) line rest
takes_line b line rest v e cut l =
    let n : length (line ++ b'\n' ∷ rest) ≡ readable_bytes b =
      ap length (sym cut) ∙ length-contents b v in
    let k : length (line ++ b'\n' ∷ rest) ≡ length line + (length rest + 1) =
      omega (arith, length-append line (b'\n' ∷ rest)) in
    let (valid, left) = retrieve_until-Refines b (length line + 1) v in
    let same : b.read_idx + length line + 1 ≡ b.read_idx + (length line + 1) = omega arith in
    let here : b.read_idx + length line - b.read_idx ≡ length line = omega arith in
    let behind : drop (length line + 1) (line ++ b'\n' ∷ rest) ≡ rest =
      let long : length (line ++ b'\n' ∷ []) ≡ length line + 1 =
        omega (arith, length-append line (b'\n' ∷ [])) in
      rw (← long, ← append_assoc line (b'\n' ∷ []) rest) (drop-append (line ++ b'\n' ∷ []) rest) in
    record {
      found = e;
      line_is =
          rw here
            (peek_lem b (length line) (omega arith) ∙ rw cut (take-append line (b'\n' ∷ rest)));
      no_break = l;
      before = cut;
      valid = rw same valid;
      after = rw same (left ∙ rw cut behind);
    }

-- Either no newline is there, or the first line is taken off.
pub line-cases :
    (b : Buffer)
    → IsValid b
    → ((find_eol b ≡ none) × Lacks b'\n' (contents b))
      ⊎ ((eol : ℕ) × (line rest : Bytes) × TakesLine b eol line rest)
line-cases b v = elim (find_eol-Splits b) [
  | inl (e, l) ↦ inl (e, l)
  | inr (line, rest, e, cut, l) ↦
      inr (b.read_idx + length line, line, rest, takes_line b line rest v e cut l)
]

Lacks-not : (line rest : Bytes) (c : ℕ) → Lacks c (line ++ c ∷ rest) → ⊥
Lacks-not [] rest c (ne, l) = ne refl
Lacks-not (x ∷ line) rest c (ne, l) = Lacks-not line rest c l

-- The first line is one.
line_unique :
    (line line' rest rest' : Bytes) (c : ℕ)
    → Lacks c line
    → Lacks c line'
    → line ++ c ∷ rest ≡ line' ++ c ∷ rest'
    → (line ≡ line') × (rest ≡ rest')
line_unique [] [] rest rest' c l l' e = (refl, ground arith)
line_unique [] (y ∷ line') rest rest' c l (ne, l') e = absurd (ne (ground arith))
line_unique (x ∷ line) [] rest rest' c (ne, l) l' e = absurd (ne (ground arith))
line_unique (x ∷ line) (y ∷ line') rest rest' c (ne, l) (ne', l') e =
    let (p, q) = line_unique line line' rest rest' c l l' (ground arith) in (ground arith, q)

-- What is taken, where the contents are known.
pub line_of :
    (b : Buffer) (line rest : Bytes)
    → IsValid b
    → contents b ≡ line ++ b'\n' ∷ rest
    → Lacks b'\n' line
    → (eol : ℕ) × TakesLine b eol line rest
line_of b line rest v e l = elim (find_eol-Splits b) [
  | inl (_, lacking) ↦ absurd (Lacks-not line rest b'\n' (rw e at lacking))
  | inr (line', rest', found, cut, l') ↦
      let (p, q) = line_unique line' line rest' rest b'\n' l' l (sym cut ∙ e) in
      (
        b.read_idx + length line,
        takes_line b line rest v (found ∙ ap (λ s. some (b.read_idx + length s)) p) e l,
      )
]

-- No line is taken, where the contents have no newline.
pub no_line_of : (b : Buffer) → Lacks b'\n' (contents b) → find_eol b ≡ none
no_line_of b l = elim (find_eol-Splits b) [
  | inl (e, _) ↦ e
  | inr (line', rest', found, cut, l') ↦ absurd (Lacks-not line' rest' b'\n' (rw cut at l))
]
