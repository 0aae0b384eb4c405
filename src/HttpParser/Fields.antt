-- ===== src/HttpParser/Fields.antt =====
-- What the parser makes of a well written line: a header line `Name: value`, and the blank line.
use mini_net.Prelude.{
  ℕ, ◌+◌, ◌≤◌, ◌≡◌, ◌≢◌, refl, sym, ap, ◌∙◌, true, false, List, [], ◌∷◌, ◌++◌, append_assoc, some,
  Bytes, ltb, ◌==◌, ==_iff, Bool-cases, inl, inr, arith, length, length-append,
}
use mini_net.Buffer.{Buffer, retrieve_until}
use mini_net.Buffer.View.{contents, IsValid}
use mini_net.Buffer.Lines.{line_of}
use mini_net.Buffer.Search.{Lacks}
use mini_net.Ctype.{is_space, skip_spaces}
use mini_net.HttpParser.{
  Parser, headers, Round, again, lower, trim, trim_end, keep_end, before_mark, after_mark,
  take_header, header_line, add_header, max_header_bytes,
}
use mini_net.HttpParser.Lines.{headers_take}
use mini_net.HttpParser.Step.{Run, go, step_headers, lift}

-- A text whose first byte and last byte are not spaces, on one line.
pub record IsText (s : Bytes) : Type 0 where
  pub first : ℕ
  pub others : Bytes
  pub split : s ≡ first ∷ others
  pub visible : is_space first ≡ false
  pub whole : trim_end s ≡ s
  pub one_line : Lacks b'\n' s

pub record IsField (name value : Bytes) : Type 0 where
  pub name_text : IsText name
  pub value_text : IsText value
  pub no_colon : Lacks b':' name

pub trim-IsText : (s : Bytes) → IsText s → trim s ≡ s
unfolding trim skip_spaces
trim-IsText s t =
    let e : skip_spaces s ≡ s = ap skip_spaces t.split ∙ rw (t.visible) (sym t.split) in
    ap trim_end e ∙ t.whole

pub trim_space : (s : Bytes) → IsText s → trim (b' ' ∷ s) ≡ s
unfolding trim skip_spaces
trim_space s t = trim-IsText s t

trim_end-last : (s : Bytes) (c : ℕ) → is_space c ≡ true → trim_end (s ++ (c ∷ [])) ≡ trim_end s
unfolding trim_end keep_end
trim_end-last [] c h = rw h
trim_end-last (d ∷ s) c h = ap (keep_end d) (trim_end-last s c h)

pub trim_end-behind :
    (s : Bytes) (c : ℕ) (v : Bytes)
    → trim_end (c ∷ v) ≡ c ∷ v
    → trim_end (s ++ (c ∷ v)) ≡ s ++ (c ∷ v)
unfolding trim_end keep_end
trim_end-behind [] c v h = h
trim_end-behind (d ∷ s) c v h = ap (keep_end d) (trim_end-behind s c v h) ∙ keeps d s
  where
    keeps : (d : ℕ) (s : Bytes) → keep_end d (s ++ (c ∷ v)) ≡ d ∷ (s ++ (c ∷ v))
    keeps d [] = refl
    keeps d (e ∷ s) = refl

-- A text with the \r that ends its line.
pub trim_return : (s : Bytes) → IsText s → trim (s ++ (b'\r' ∷ [])) ≡ s
unfolding trim skip_spaces
trim_return s t =
    let e : skip_spaces (s ++ (b'\r' ∷ [])) ≡ s ++ (b'\r' ∷ []) =
      ap (λ (x : Bytes). skip_spaces (x ++ (b'\r' ∷ []))) t.split
      ∙ rw (t.visible) (ap (λ (x : Bytes). x ++ (b'\r' ∷ [])) (sym t.split)) in
    ap trim_end e ∙ trim_end-last s b'\r' refl ∙ t.whole

pub Lacks-append : (c : ℕ) (s t : Bytes) → Lacks c s → Lacks c t → Lacks c (s ++ t)
Lacks-append c [] t h k = k
Lacks-append c (x ∷ s) t (ne, h) k = (ne, Lacks-append c s t h k)

-- Two texts, with anything on one line between them.
pub IsText-between : (s m t : Bytes) → IsText s → Lacks b'\n' m → IsText t → IsText (s ++ (m ++ t))
IsText-between s m t a l b = record {
  first = a.first;
  others = a.others ++ (m ++ t);
  split = ap (λ (x : Bytes). x ++ (m ++ t)) a.split;
  visible = a.visible;
  whole =
      ap (λ (x : Bytes). trim_end (s ++ (m ++ x))) b.split
      ∙ ap trim_end (sym (append_assoc s m (b.first ∷ b.others)))
      ∙ trim_end-behind (s ++ m) b.first b.others (ap trim_end (sym b.split) ∙ b.whole ∙ b.split)
      ∙ append_assoc s m (b.first ∷ b.others)
      ∙ ap (λ (x : Bytes). s ++ (m ++ x)) (sym b.split);
  one_line = Lacks-append b'\n' s (m ++ t) a.one_line (Lacks-append b'\n' m t l b.one_line);
}

not_same : (c d : ℕ) → c ≢ d → (c == d) ≡ false
not_same c d h = elim (Bool-cases (c == d)) [ inl e ↦ absurd (h ((==_iff c d).0 e)) | inr e ↦ e ]

before_mark-Lacks : (m : ℕ) (s t : Bytes) → Lacks m s → before_mark m (s ++ (m ∷ t)) ≡ s
unfolding before_mark
before_mark-Lacks m [] t h = rw ((==_iff m m).1 refl)
before_mark-Lacks m (c ∷ s) t (ne, h) = rw (not_same c m ne, before_mark-Lacks m s t h)

after_mark-Lacks : (m : ℕ) (s t : Bytes) → Lacks m s → after_mark m (s ++ (m ∷ t)) ≡ some t
unfolding after_mark
after_mark-Lacks m [] t h = rw ((==_iff m m).1 refl)
after_mark-Lacks m (c ∷ s) t (ne, h) = rw (not_same c m ne, after_mark-Lacks m s t h)

-- The parser behind a header line.
abbrev pub with_header : Parser → Bytes × Bytes → Parser
with_header p (name, value) = record p {
  header_bytes = p.header_bytes + (length (name ++ (b':' ∷ b' ' ∷ (value ++ (b'\r' ∷ [])))) + 1);
  req = record p.req { headers = p.req.headers ++ (lower name, value) ∷ [] };
}

abbrev pub with_headers : Parser → List (Bytes × Bytes) → Parser
with_headers p [] = p
with_headers p (f ∷ fields) = with_headers (with_header p f) fields

-- The fields on their lines.
abbrev pub written : List (Bytes × Bytes) → Bytes
written [] = []
written ((name, value) ∷ fields) =
    name ++ (b':' ∷ b' ' ∷ (value ++ (b'\r' ∷ b'\n' ∷ written fields)))

abbrev pub AreFields : List (Bytes × Bytes) → Type 0
AreFields [] = Unit
AreFields ((name, value) ∷ fields) = IsField name value × AreFields fields

pub raw_length :
    (name value : Bytes)
    → length (name ++ (b':' ∷ b' ' ∷ (value ++ (b'\r' ∷ [])))) ≡ length name + (length value + 3)
raw_length name value = omega (
  arith,
  length-append name (b':' ∷ b' ' ∷ (value ++ (b'\r' ∷ []))),
  length-append value (b'\r' ∷ []),
)

pub length-written :
    (name value : Bytes) (fields : List (Bytes × Bytes))
    → length (written ((name, value) ∷ fields))
      ≡ length name + (length value + 4) + length (written fields)
length-written name value fields = omega (
  arith,
  length-append name (b':' ∷ b' ' ∷ (value ++ (b'\r' ∷ b'\n' ∷ written fields))),
  length-append value (b'\r' ∷ b'\n' ∷ written fields),
)

take_header_is :
    (p : Parser) (raw : Bytes) (b : Buffer)
    → ltb max_header_bytes (p.header_bytes + (length raw + 1)) ≡ false
    → take_header p raw b
      ≡ header_line (record p { header_bytes = p.header_bytes + (length raw + 1) }) (trim raw) b
unfolding take_header
take_header_is p raw b e = rw (e, take_header)

header_line_is :
    (p : Parser) (name value : Bytes) (b : Buffer)
    → IsField name value
    → header_line p (name ++ (b':' ∷ b' ' ∷ value)) b
      ≡ again
          (record p { req = record p.req { headers = p.req.headers ++ (lower name, value) ∷ [] } })
          b
unfolding header_line add_header
header_line_is p name value b f =
    ap (λ (x : Bytes). header_line p (x ++ (b':' ∷ b' ' ∷ value)) b) f.name_text.split
    ∙ ap
        (λ (x : Bytes).
          add_header p (before_mark b':' (x ++ (b':' ∷ b' ' ∷ value)))
            (after_mark b':' (x ++ (b':' ∷ b' ' ∷ value))) b)
        (sym f.name_text.split)
    ∙ rw (
      before_mark-Lacks b':' name (b' ' ∷ value) f.no_colon,
      after_mark-Lacks b':' name (b' ' ∷ value) f.no_colon,
      trim-IsText name f.name_text,
      trim_space value f.value_text,
    )

separator : Lacks b'\n' (b':' ∷ b' ' ∷ [])
separator = (λ e. absurd (cc), (λ e. absurd (cc), tt))

raw_Lacks :
    (name value : Bytes)
    → IsField name value
    → Lacks b'\n' (name ++ (b':' ∷ b' ' ∷ (value ++ (b'\r' ∷ []))))
raw_Lacks name value f = Lacks-append b'\n' name _ f.name_text.one_line (
    Lacks-append b'\n' (b':' ∷ b' ' ∷ []) _ separator
      (Lacks-append b'\n' value (b'\r' ∷ []) f.value_text.one_line (λ e. absurd (cc), tt)))

take_field :
    (p : Parser) (name value : Bytes) (b : Buffer)
    → IsField name value
    → p.header_bytes + (length name + (length value + 4)) ≤ max_header_bytes
    → take_header p (name ++ (b':' ∷ b' ' ∷ (value ++ (b'\r' ∷ [])))) b
      ≡ again (with_header p (name, value)) b
take_field p name value b f fits =
    let raw = name ++ (b':' ∷ b' ' ∷ (value ++ (b'\r' ∷ []))) in
    let line : IsText (name ++ (b':' ∷ b' ' ∷ value)) =
      IsText-between name (b':' ∷ b' ' ∷ []) value f.name_text separator f.value_text in
    let small : ltb max_header_bytes (p.header_bytes + (length raw + 1)) ≡ false =
      ground (arith, fits, raw_length name value) in
    take_header_is p raw b small
    ∙ ap
        (λ (x : Bytes).
          header_line (record p { header_bytes = p.header_bytes + (length raw + 1) }) x b)
        (ap trim (sym (append_assoc name (b':' ∷ b' ' ∷ value) (b'\r' ∷ []))) ∙ trim_return _ line)
    ∙ header_line_is _ name value b f

-- A step of the parser takes a field.
step_field :
    (p : Parser) (name value rest : Bytes) (b : Buffer)
    → p.state ≡ headers
    → IsValid b
    → IsField name value
    → contents b ≡ name ++ (b':' ∷ b' ' ∷ (value ++ (b'\r' ∷ b'\n' ∷ rest)))
    → p.header_bytes + (length name + (length value + 4)) ≤ max_header_bytes
    → (b' : Buffer) × IsValid b'
      × (contents b' ≡ rest)
      × ((r : Round) → Run (with_header p (name, value)) b' r → Run p b r)
unfolding lift
step_field p name value rest b s v f e fits =
    let raw = name ++ (b':' ∷ b' ' ∷ (value ++ (b'\r' ∷ []))) in
    let (eol, t) = line_of b raw rest v (e ∙ simp append_assoc) (raw_Lacks name value f) in
    (
      retrieve_until b (eol + 1),
      t.valid,
      t.after,
      λ r run.
          go _ _ (step_headers p b _ s (headers_take p b t ∙ take_field p name value _ f fits)) run,
    )

pub take_fields :
    (p : Parser) (fields : List (Bytes × Bytes)) (rest : Bytes) (b : Buffer)
    → p.state ≡ headers
    → IsValid b
    → AreFields fields
    → contents b ≡ written fields ++ rest
    → p.header_bytes + length (written fields) ≤ max_header_bytes
    → (b' : Buffer) × IsValid b'
      × (contents b' ≡ rest)
      × ((r : Round) → Run (with_headers p fields) b' r → Run p b r)
take_fields p [] rest b s v a e fits = (b, v, e, λ r run. run)
take_fields p ((name, value) ∷ fields) rest b s v (f, a) e fits =
    let (b1, v1, e1, run1) =
      step_field p name value (written fields ++ rest) b s v f (e ∙ simp append_assoc)
        (omega (arith, length-written name value fields, fits)) in
    let (b2, v2, e2, run2) =
      take_fields (with_header p (name, value)) fields rest b1 s v1 a e1
        (omega (arith, fits, length-written name value fields, raw_length name value)) in
    (b2, v2, e2, λ r run. run1 r (run2 r run))
