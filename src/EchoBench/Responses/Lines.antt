-- ===== src/EchoBench/Responses/Lines.antt =====
-- Text made of lines: where its head ends, and which lines it has.
use mini_net.Prelude.{
  ℕ, ◌≡◌, ◌≢◌, inl, inr, refl, sym, ap, ◌∙◌, false, List, [], ◌∷◌, ◌++◌, append_assoc, append-nil,
  Option, none, some, Bytes, ◌==◌, ==_iff, Bool-cases,
}
use mini_net.Buffer.Search.{Lacks}
use mini_net.EchoBench.Responses.{cut, consed, split_lines, first_line}

-- A line of a head: it is not empty and has no \r.
abbrev pub IsLine : Bytes → Type 0
IsLine [] = ⊥
IsLine (c ∷ l) = Lacks b'\r' (c ∷ l)

abbrev pub AreLines : List Bytes → Type 0
AreLines [] = Unit
AreLines (l ∷ lines) = IsLine l × AreLines lines

-- Each line with its end.
abbrev pub ended : List Bytes → Bytes
ended [] = []
ended (l ∷ lines) = l ++ b'\r' ∷ b'\n' ∷ ended lines

abbrev pub joined : Bytes → List Bytes → Bytes
joined l [] = l
joined l (m ∷ lines) = l ++ b'\r' ∷ b'\n' ∷ joined m lines

abbrev blank : Bytes
blank = b'\r' ∷ b'\n' ∷ b'\r' ∷ b'\n' ∷ []

abbrev before : Bytes → Option (Bytes × Bytes) → Option (Bytes × Bytes)
before l none = none
before l (some (a, b)) = some (l ++ a, b)

consed-before :
    (c : ℕ) (l : Bytes) (o : Option (Bytes × Bytes)) → consed c (before l o) ≡ before (c ∷ l) o
consed-before c l none = refl
consed-before c l (some (a, b)) = refl

not_that : (c d : ℕ) → c ≢ d → (c == d) ≡ false
not_that c d h = elim (Bool-cases (c == d)) [ inl e ↦ absurd (h ((==_iff c d).0 e)) | inr e ↦ e ]

not_this : (c d : ℕ) → c ≢ d → (d == c) ≡ false
not_this c d h = elim (Bool-cases (d == c)) [
  | inl e ↦ absurd (h (sym ((==_iff d c).0 e)))
  | inr e ↦ e
]

-- A byte that the needle does not begin with is passed over.
pub cut_past :
    (d c : ℕ) (needle s : Bytes) → c ≢ d → cut (d ∷ needle) (c ∷ s) ≡ consed c (cut (d ∷ needle) s)
unfolding cut
cut_past d c needle s h = rw (not_this c d h, cut)

pub cut-Lacks :
    (d : ℕ) (needle l s : Bytes)
    → Lacks d l
    → cut (d ∷ needle) (l ++ s) ≡ before l (cut (d ∷ needle) s)
cut-Lacks d needle [] s h = by_result (cut (d ∷ needle) s)
  where
    by_result : (o : Option (Bytes × Bytes)) → o ≡ before [] o
    by_result none = refl
    by_result (some (a, b)) = refl
cut-Lacks d needle (c ∷ l) s (ne, h) =
    cut_past d c needle (l ++ s) ne
    ∙ ap (consed c) (cut-Lacks d needle l s h)
    ∙ consed-before c l (cut (d ∷ needle) s)

cut_here : (body : Bytes) → cut blank (b'\r' ∷ b'\n' ∷ b'\r' ∷ b'\n' ∷ body) ≡ some ([], body)
unfolding cut
cut_here body = refl

cut_next :
    (d : ℕ) (s : Bytes)
    → d ≢ b'\r'
    → cut blank (b'\r' ∷ b'\n' ∷ d ∷ s) ≡ before (b'\r' ∷ b'\n' ∷ []) (cut blank (d ∷ s))
unfolding cut
cut_next d s h = rw (not_this d b'\r' h) (by_result (consed d (cut blank s)))
  where
    by_result :
        (o : Option (Bytes × Bytes)) → consed b'\r' (consed b'\n' o) ≡ before (b'\r' ∷ b'\n' ∷ []) o
    by_result none = refl
    by_result (some (a, b)) = refl

-- The first byte of a line, apart.
line_head : (l : Bytes) → IsLine l → (c : ℕ) × (r : Bytes) × (l ≡ c ∷ r) × (c ≢ b'\r')
line_head [] h = absurd h
line_head (c ∷ r) (ne, h) = (c, r, refl, ne)

line-Lacks : (l : Bytes) → IsLine l → Lacks b'\r' l
line-Lacks [] h = absurd h
line-Lacks (c ∷ r) h = h

-- The head of lines with their ends, before a blank line.
pub cut-ended :
    (l : Bytes) (lines : List Bytes) (body : Bytes)
    → IsLine l
    → AreLines lines
    → cut blank (ended (l ∷ lines) ++ (b'\r' ∷ b'\n' ∷ body)) ≡ some (joined l lines, body)
cut-ended l [] body h hs =
    ap (cut blank) (append_assoc l (b'\r' ∷ b'\n' ∷ []) (b'\r' ∷ b'\n' ∷ body))
    ∙ cut-Lacks b'\r' (b'\n' ∷ b'\r' ∷ b'\n' ∷ []) l (b'\r' ∷ b'\n' ∷ b'\r' ∷ b'\n' ∷ body)
        (line-Lacks l h)
    ∙ ap (before l) (cut_here body)
    ∙ ap (λ (x : Bytes). some (x, body)) (append-nil l)
cut-ended l (m ∷ lines) body h (hm, hs) =
    let (c, r, e, ne) = line_head m hm in
    let tail : Bytes = ended (m ∷ lines) ++ (b'\r' ∷ b'\n' ∷ body) in
    let first : tail ≡ c ∷ (r ++ (b'\r' ∷ b'\n' ∷ ended lines) ++ (b'\r' ∷ b'\n' ∷ body)) =
      ap (λ (x : Bytes). (x ++ (b'\r' ∷ b'\n' ∷ ended lines)) ++ (b'\r' ∷ b'\n' ∷ body)) e ∙ refl in
    ap (cut blank) (append_assoc l (b'\r' ∷ b'\n' ∷ ended (m ∷ lines)) (b'\r' ∷ b'\n' ∷ body))
    ∙ cut-Lacks b'\r' (b'\n' ∷ b'\r' ∷ b'\n' ∷ []) l (b'\r' ∷ b'\n' ∷ tail) (line-Lacks l h)
    ∙ ap (before l) (
        ap (λ (x : Bytes). cut blank (b'\r' ∷ b'\n' ∷ x)) first
        ∙ cut_next c _ ne
        ∙ ap (λ (x : Bytes). before (b'\r' ∷ b'\n' ∷ []) (cut blank x)) (sym first)
        ∙ ap (before (b'\r' ∷ b'\n' ∷ [])) (cut-ended m lines body hm hs))

split_lines_past :
    (c : ℕ) (s : Bytes) → c ≢ b'\r' → split_lines (c ∷ s) ≡ first_line c (split_lines s)
unfolding split_lines
split_lines_past c [] h = refl
split_lines_past c (d ∷ s) h = rw (not_that c b'\r' h) refl

-- A text that lacks \r belongs to one line.
abbrev onto_first : Bytes → List Bytes → List Bytes
onto_first [] lines = lines
onto_first (c ∷ l) lines = first_line c (onto_first l lines)

split_lines-Lacks :
    (l s : Bytes) → Lacks b'\r' l → split_lines (l ++ s) ≡ onto_first l (split_lines s)
split_lines-Lacks [] s h = refl
split_lines-Lacks (c ∷ l) s (ne, h) =
    split_lines_past c (l ++ s) ne ∙ ap (first_line c) (split_lines-Lacks l s h)

onto_first_cons : (l m : Bytes) (lines : List Bytes) → onto_first l (m ∷ lines) ≡ (l ++ m) ∷ lines
onto_first_cons [] m lines = refl
onto_first_cons (c ∷ l) m lines = ap (first_line c) (onto_first_cons l m lines)

pub split_lines-joined :
    (l : Bytes) (lines : List Bytes)
    → IsLine l
    → AreLines lines
    → split_lines (joined l lines) ≡ l ∷ lines
unfolding split_lines
split_lines-joined l [] h hs =
    ap split_lines (sym (append-nil l))
    ∙ split_lines-Lacks l [] (line-Lacks l h)
    ∙ onto_first_cons l [] []
    ∙ ap (λ (x : Bytes). x ∷ []) (append-nil l)
split_lines-joined l (m ∷ lines) h (hm, hs) =
    split_lines-Lacks l (b'\r' ∷ b'\n' ∷ joined m lines) (line-Lacks l h)
    ∙ ap (λ (x : List Bytes). onto_first l ([] ∷ x)) (split_lines-joined m lines hm hs)
    ∙ onto_first_cons l [] (m ∷ lines)
    ∙ ap (λ (x : Bytes). x ∷ m ∷ lines) (append-nil l)
