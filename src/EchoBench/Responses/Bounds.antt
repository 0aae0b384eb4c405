-- ===== src/EchoBench/Responses/Bounds.antt =====
-- What parseOne takes of the bytes that have been received.
use mini_net.Prelude.{
  ℕ, ◌+◌, ◌≤◌, ◌≡◌, true, List, [], ◌∷◌, Option, none, some, Bytes, text, ltb, if◌then◌else◌, drop,
  arith, length, length-drop, Bool-cases, inl, inr,
}
use mini_net.Ctype.{ℤ, starts_with}
use mini_net.EchoBench.Helpers.{atoi}
use mini_net.EchoBench.Responses.{
  ParseResult, need_more, complete, refused, head_too_long, no_status, bad_status, max_header_bytes,
  Framing, no_framing, cut, consed, check_status, frame_body, read_head, read_lines, split_lines,
  parse_one,
}

abbrev Parts : Bytes → Bytes → Option (Bytes × Bytes) → Type 0
Parts needle s none = Unit {0}
Parts needle s (some (before, after)) = length before + (length needle + length after) ≡ length s

starts_with-length : (p s : Bytes) → starts_with p s ≡ true → length p ≤ length s
starts_with-length [] s h = omega arith
starts_with-length (c ∷ p) [] h = absurd (cc h)
starts_with-length (c ∷ p) (d ∷ s) h = ground (arith, starts_with-length p s)

consed-Parts :
    (c : ℕ) (needle s : Bytes) (r : Option (Bytes × Bytes))
    → Parts needle s r
    → Parts needle (c ∷ s) (consed c r)
consed-Parts c needle s none h = tt
consed-Parts c needle s (some (before, after)) h = omega (arith, h)

cut-Parts : (needle s : Bytes) → Parts needle s (cut needle s)
unfolding cut
cut-Parts needle [] = tt
cut-Parts needle (c ∷ s) = elim (Bool-cases (starts_with needle (c ∷ s))) [
  | inl here ↦
      rw here
        (omega (arith, starts_with-length needle (c ∷ s) here, length-drop (length needle) (c ∷ s)))
  | inr later ↦ rw later (consed-Parts c needle s (cut needle s) (cut-Parts needle s))
]

-- A whole response has its blank line at least, no more than the bytes that are there, and a status
-- of three digits.
abbrev pub Within : ℕ → ParseResult → Type 0
Within total need_more = Unit
Within total (refused why) = Unit
Within total (complete status n) = (4 ≤ n) × (n ≤ total) × (100 ≤ status) × (status ≤ 599)

framed :
    (status before behind : ℕ) (f : Framing)
    → 4 ≤ before
    → 100 ≤ status
    → status ≤ 599
    → Within (before + behind) (frame_body status before behind f)
unfolding frame_body
framed status before behind f h low high = ground arith

abbrev Judged : Option ℕ → Type 0
Judged none = Unit {0}
Judged (some n) = (100 ≤ n) × (n ≤ 599)

check_status-Judged : (v : ℤ) → Judged (check_status v)
unfolding check_status
check_status-Judged v = ground arith

read_head-Within :
    (s : Bytes) (lines : List Bytes) (before behind : ℕ)
    → 4 ≤ before
    → Within (before + behind) (read_head s lines before behind)
unfolding read_head
read_head-Within s [] before behind h = tt
read_head-Within s (line ∷ lines) before behind h = ground (arith, by_words (cut (b' ' ∷ []) line))
  where
    by_status :
        (v : Option ℕ)
        → Judged v
        → Within (before + behind) (elim v [
          | none ↦ refused bad_status
          | some status ↦ frame_body status before behind (read_lines lines no_framing)
        ])
    by_status none j = tt
    by_status (some status) j = framed status before behind (read_lines lines no_framing) h j.0 j.1

    by_words :
        (r : Option (Bytes × Bytes))
        → Within (before + behind) (elim r [
          | none ↦ refused no_status
          | some (protocol, after) ↦ elim (check_status (atoi (drop (length protocol + 1) s))) [
            | none ↦ refused bad_status
            | some status ↦ frame_body status before behind (read_lines lines no_framing)
          ]
        ])
    by_words none = tt
    by_words (some (protocol, after)) =
        by_status (check_status (atoi (drop (length protocol + 1) s)))
          (check_status-Judged (atoi (drop (length protocol + 1) s)))

-- Where parseOne finds a whole response.
pub parse_one-Within : (s : Bytes) → Within (length s) (parse_one s)
unfolding parse_one text
parse_one-Within s =
    ground (arith, by_blank (cut (text "\r\n\r\n") s) (cut-Parts (text "\r\n\r\n") s))
  where
    by_blank :
        (r : Option (Bytes × Bytes))
        → Parts (text "\r\n\r\n") s r
        → Within (length s) (elim r [
          | none ↦ if ltb max_header_bytes (length s) then refused head_too_long else need_more
          | some (head, after) ↦ read_head s (split_lines head) (length head + 4) (length after)
        ])
    by_blank none h = ground arith
    by_blank (some (head, after)) h =
        let e : length head + 4 + length after ≡ length s = omega (arith, h) in
        rw (← e)
          (read_head-Within s (split_lines head) (length head + 4) (length after) (omega arith))
