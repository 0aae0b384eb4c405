-- ===== src/HttpParser/Resume.antt =====
-- Parsing in pieces: a parser that has asked for more bytes goes on as if it had had them all.
use mathlib.Core.Option.{some-injective}
use mini_net.Prelude.{◌≡◌, refl, sym, ap, ◌∙◌, subst, some, Bytes, ◌++◌}
use mini_net.Buffer.{Buffer, append}
use mini_net.Buffer.View.{contents, IsValid}
use mini_net.Buffer.Space.{append-Refines}
use mini_net.HttpParser.{Parser, need_more, Outcome, Round, leave, parse}
use mini_net.HttpParser.Lines.{round_buffer}
use mini_net.HttpParser.Step.{Run, stop, go, parse-Run, round_parser}
use mini_net.HttpParser.Total.{parse-Ends}
use mini_net.HttpParser.Agree.{Agree, Run-Agree}
use mini_net.HttpParser.Waits.{Waits, step-Waits}
use mini_net.HttpParser.Grows.{Longer, Grows, step-Grows, step-IsValid}

-- The run on the longer buffer keeps up with the run that asked for more, and what they agree on
-- from there on is one parser on the same unread bytes.
resumes :
    {p : Parser} {b : Buffer} {r : Round} (p1 : Parser) (b1 c1 : Buffer) (d : Bytes) (c : Buffer)
    {r' : Round} (o o1 : Outcome)
    → Run p b r
    → r ≡ leave (need_more, p1, b1)
    → IsValid b
    → Longer b d c
    → Run p c r'
    → r' ≡ leave o
    → Longer b1 d c1
    → Run p1 c1 (leave o1)
    → Agree o o1
resumes {p} {b} p1 b1 c1 d c o o1 (stop e) eo v l t et l1 t1 =
    let ((h, k), same) = subst (Waits p b) (e ∙ eo) (step-Waits p.state p b v) in
    Run-Agree o h p1 c1 o1 t et l.valid l1.valid
      (l.more ∙ ap (λ s. contents s ++ d) (sym same) ∙ sym l1.more) k t1 refl
resumes {p} {b} p1 b1 c1 d c o o1 (go p2 b2 e s) eo v l (stop e') et l1 t1 =
    let (c2, e2, l2) = subst (Grows d p c) e (step-Grows p.state d p b c refl v l) in
    absurd (cc (sym e2 ∙ e' ∙ et))
resumes {p} {b} p1 b1 c1 d c {r'} o o1 (go p2 b2 e s) eo v l (go p3 c3 e' s') et l1 t1 =
    let (c2, e2, l2) = subst (Grows d p c) e (step-Grows p.state d p b c refl v l) in
    let v2 = subst (λ t. IsValid (round_buffer t)) e (step-IsValid p.state p b v) in
    resumes p1 b1 c1 d c2 o o1 s eo v2 l2
      (subst (λ t. Run (round_parser t) (round_buffer t) r') (sym e' ∙ e2) s') et l1 t1

Longer-append : (b : Buffer) (d : Bytes) → IsValid b → Longer b d (append b d)
Longer-append b d v = let (v', more) = append-Refines b d v in record { valid = v'; more = more }

-- On a valid buffer where `parse` asks for more bytes, appending them to the buffer that it left and parsing again
-- ends as parsing them all at once: the same result, the same parser but for header_bytes and the
-- same unread bytes, unless one of the two refuses the header section as too large.
pub parse-append :
    (p : Parser) (b : Buffer) (p1 : Parser) (b1 : Buffer) (d : Bytes)
    → IsValid b
    → parse p b ≡ some (need_more, p1, b1)
    → (o : Outcome) × (o1 : Outcome) × (parse p (append b d) ≡ some o)
      × (parse p1 (append b1 d) ≡ some o1)
      × Agree o o1
parse-append p b p1 b1 d v e =
    let (o0, is0, k0) = parse-Ends p b v in
    let v1 = subst (λ t. IsValid t.2) (some-injective _ _ (sym is0 ∙ e)) k0.valid in
    let l = Longer-append b d v in
    let l1 = Longer-append b1 d v1 in
    let (o, is, k) = parse-Ends p (append b d) l.valid in
    let (o1, is1, k1) = parse-Ends p1 (append b1 d) l1.valid in
    (
      o,
      o1,
      is,
      is1,
      resumes p1 b1 (append b1 d) d (append b d) o o1 (parse-Run p b _ v e) refl v l
          (parse-Run p (append b d) o l.valid is) refl l1
          (parse-Run p1 (append b1 d) o1 l1.valid is1),
    )
