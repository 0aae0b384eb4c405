-- ===== src/EchoBench/Responses/Written.antt =====
-- HttpResponse::serialize as lines: which lines a response has, and that line256 cuts none of them.
use mini_net.Prelude.{
  ℕ, ◌^◌, ◌<◌, ◌≤◌, ◌≡◌, refl, ap, ◌∙◌, Bool, true, false, not, ◌&&◌, List, [], ◌∷◌, ◌++◌,
  append_assoc, Bytes, text, bytes_eq, ◌==◌, ==_iff, if◌then◌else◌, leb, leb→le, arith, length,
  length-append, take_all, and-true,
}
use mini_net.Buffer.Search.{Lacks}
use mini_net.Ctype.{is_digit}
use mini_net.Ctype.Decimal.{print_decimal}
use mini_net.Ctype.Decimal.ReadBack.{AllDigits, print_decimal-AllDigits, length-print_decimal}
use mini_net.HttpTypes.{HttpResponse, reason, serialize, write_headers, line256, crlf}
use mini_net.EchoBench.Responses.Lines.{IsLine, AreLines, ended}
use mini_net.EchoBench.Responses.{lower}

-- A header that the client does not read, on a line of its own.
pub record IsPlainHeader (key val : Bytes) : Type 0 where
  pub named : Lacks b':' key
  pub one_line : Lacks b'\r' (key ++ (text ": " ++ val))
  pub no_length : bytes_eq (lower key) (text "content-length") ≡ false
  pub no_coding : bytes_eq (lower key) (text "transfer-encoding") ≡ false

abbrev pub ArePlain : List (Bytes × Bytes) → Type 0
ArePlain [] = Unit
ArePlain ((k, v) ∷ rest) = IsPlainHeader k v × ArePlain rest

-- A response that the server may write.
pub record IsWritable (r : HttpResponse) : Type 0 where
  pub at_least : 100 ≤ r.status
  pub at_most : r.status ≤ 599
  pub one_line : Lacks b'\r' r.content_type
  pub plain : ArePlain r.extra_headers
  pub body_fits : length r.body < 2 ^ 63

abbrev pub status_line : HttpResponse → Bytes
status_line r = text "HTTP/1.1 " ++ (print_decimal r.status ++ (text " " ++ reason r.status))

abbrev pub length_line : HttpResponse → Bytes
length_line r = text "Content-Length: " ++ print_decimal (length r.body)

abbrev pub type_line : HttpResponse → Bytes
type_line r = text "Content-Type: " ++ r.content_type

abbrev pub connection_line : Bool → Bytes
connection_line alive = if alive then text "Connection: keep-alive" else text "Connection: close"

abbrev pub header_lines : List (Bytes × Bytes) → List Bytes
header_lines [] = []
header_lines ((k, v) ∷ rest) = (k ++ (text ": " ++ v)) ∷ header_lines rest

abbrev pub lines_of : HttpResponse → List Bytes
lines_of r =
    length_line r ∷ type_line r ∷ connection_line r.keep_alive ∷ header_lines r.extra_headers

abbrev pub eol : Bytes
eol = b'\r' ∷ b'\n' ∷ []

crlf-eol : crlf ≡ eol
unfolding crlf text
crlf-eol = refl

connection_eol :
    (alive : Bool)
    → (if alive then text "Connection: keep-alive\r\n" else text "Connection: close\r\n")
      ≡ connection_line alive ++ eol
unfolding text
connection_eol true = refl
connection_eol false = refl

write_headers-ended : (hs : List (Bytes × Bytes)) → write_headers hs ≡ ended (header_lines hs)
unfolding write_headers
write_headers-ended [] = refl
write_headers-ended ((k, v) ∷ rest) = rw (crlf-eol, write_headers-ended rest) (simp append_assoc)

-- What is short and has no \r, by evaluation.
lacks : Bytes → Bool
lacks [] = true
lacks (c ∷ s) = not (c == b'\r') && lacks s

lacks-Lacks : (s : Bytes) → lacks s ≡ true → Lacks b'\r' s
unfolding lacks
lacks-Lacks [] h = tt
lacks-Lacks (c ∷ s) h =
    let (a, b) = and-true (not (c == b'\r')) (lacks s) h in
    (λ e. absurd (cc (rw ((==_iff c b'\r').1 e) at a)), lacks-Lacks s b)

abbrev IsShort : Bytes → Type 0
IsShort s = (leb (length s) 40 && lacks s) ≡ true

if_ind : (P : Bytes → Type 0) (b : Bool) (x y : Bytes) → P x → P y → P (if b then x else y)
if_ind P true x y p q = p
if_ind P false x y p q = q

reason-IsShort : (code : ℕ) → IsShort (reason code)
unfolding reason lacks text
reason-IsShort code = if_ind IsShort (code == 200) _ _ refl (
    if_ind IsShort (code == 201) _ _ refl (
      if_ind IsShort (code == 302) _ _ refl (
        if_ind IsShort (code == 400) _ _ refl (
          if_ind IsShort (code == 404) _ _ refl (
            if_ind IsShort (code == 405) _ _ refl (
              if_ind IsShort (code == 408) _ _ refl (
                if_ind IsShort (code == 413) _ _ refl (
                  if_ind IsShort (code == 431) _ _ refl (
                    if_ind IsShort (code == 500) _ _ refl (
                      if_ind IsShort (code == 501) _ _ refl
                        (if_ind IsShort (code == 505) _ _ refl refl)))))))))))

Lacks-append : (c : ℕ) (s t : Bytes) → Lacks c s → Lacks c t → Lacks c (s ++ t)
Lacks-append c [] t h k = k
Lacks-append c (x ∷ s) t (ne, h) k = (ne, Lacks-append c s t h k)

digits-Lacks : (c : ℕ) (s : Bytes) → is_digit c ≡ false → AllDigits s → Lacks c s
digits-Lacks c [] h a = tt
digits-Lacks c (x ∷ s) h (d, a) = (λ e. absurd (cc), digits-Lacks c s h a)

length-text :
    (length (text "HTTP/1.1 ") ≡ 9)
    × (length (text " ") ≡ 1)
    × (length (text "Content-Length: ") ≡ 16)
unfolding text
length-text = (refl, refl, refl)

status_eol :
    (r : HttpResponse)
    → text "HTTP/1.1 " ++ (print_decimal r.status ++ (text " " ++ (reason r.status ++ crlf)))
      ≡ status_line r ++ eol
status_eol r = rw crlf-eol (simp append_assoc)

length-eol :
    (r : HttpResponse)
    → text "Content-Length: " ++ (print_decimal (length r.body) ++ crlf) ≡ length_line r ++ eol
length-eol r = rw crlf-eol (simp append_assoc)

type_eol :
    (r : HttpResponse) → text "Content-Type: " ++ (r.content_type ++ crlf) ≡ type_line r ++ eol
type_eol r = rw crlf-eol (simp append_assoc)

module _ (r : HttpResponse) (w : IsWritable r) where
  status_whole : line256 (status_line r ++ eol) ≡ status_line r ++ eol
  status_whole = take_all 255 (status_line r ++ eol) (
      omega (
        arith,
        length-append (status_line r) eol,
        length-append (text "HTTP/1.1 ") (print_decimal r.status ++ (text " " ++ reason r.status)),
        length-append (print_decimal r.status) (text " " ++ reason r.status),
        length-append (text " ") (reason r.status),
        length-text.0,
        length-text.1,
        leb→le _ _
            (and-true (leb (length (reason r.status)) 40) (lacks (reason r.status))
              (reason-IsShort r.status)).0,
        length-print_decimal r.status 2 (omega (arith, w.at_most)),
      ))

  length_whole : line256 (length_line r ++ eol) ≡ length_line r ++ eol
  length_whole = take_all 255 (length_line r ++ eol) (
      omega (
        arith,
        length-append (length_line r) eol,
        length-append (text "Content-Length: ") (print_decimal (length r.body)),
        length-text.2,
        length-print_decimal (length r.body) 18 (omega (arith, w.body_fits)),
      ))

  pub serialize-ended : serialize r ≡ ended (status_line r ∷ lines_of r) ++ (eol ++ r.body)
  unfolding serialize
  serialize-ended =
      let e1 = ap line256 (status_eol r) ∙ status_whole in
      let e2 = ap line256 (length-eol r) ∙ length_whole in
      (λ i.
        e1 i
        ++ (e2 i
            ++ (type_eol r i
                ++ (connection_eol r.keep_alive i
                    ++ (write_headers-ended r.extra_headers i ++ (crlf-eol i ++ r.body))))))
      ∙ simp append_assoc

is_line : (l : Bytes) → Lacks b'\r' l → 0 < length l → IsLine l
is_line [] h k = absurd (omega (arith, k))
is_line (c ∷ l) h k = h

named-IsLine :
    (p s : Bytes) → lacks p ≡ true → leb 1 (length p) ≡ true → Lacks b'\r' s → IsLine (p ++ s)
named-IsLine p s h k l =
    is_line (p ++ s) (Lacks-append b'\r' p s (lacks-Lacks p h) l)
      (omega (arith, length-append p s, leb→le _ _ k))

decimal-Lacks : (n : ℕ) → Lacks b'\r' (print_decimal n)
decimal-Lacks n = digits-Lacks b'\r' (print_decimal n) refl (print_decimal-AllDigits n)

pub status_IsLine : (r : HttpResponse) → IsLine (status_line r)
unfolding lacks text
status_IsLine r = named-IsLine (text "HTTP/1.1 ") _ refl refl (
    Lacks-append b'\r' (print_decimal r.status) _ (decimal-Lacks r.status) (
      Lacks-append b'\r' (text " ") _ (lacks-Lacks (text " ") refl) (
        lacks-Lacks _
          (and-true (leb (length (reason r.status)) 40) (lacks (reason r.status))
            (reason-IsShort r.status)).1)))

connection_IsLine : (alive : Bool) → IsLine (connection_line alive)
unfolding lacks text
connection_IsLine true =
    is_line (text "Connection: keep-alive") (lacks-Lacks (text "Connection: keep-alive") refl)
      (omega arith)
connection_IsLine false =
    is_line (text "Connection: close") (lacks-Lacks (text "Connection: close") refl) (omega arith)

header_lines-AreLines : (hs : List (Bytes × Bytes)) → ArePlain hs → AreLines (header_lines hs)
unfolding text
header_lines-AreLines [] h = tt
header_lines-AreLines ((k, v) ∷ rest) (p, h) = (
  is_line _ p.one_line (omega (arith, length-append k (text ": " ++ v))),
  header_lines-AreLines rest h,
)

pub lines_of-AreLines : (r : HttpResponse) → IsWritable r → AreLines (lines_of r)
unfolding lacks text
lines_of-AreLines r w = (
  named-IsLine (text "Content-Length: ") _ refl refl (decimal-Lacks (length r.body)),
  (
    named-IsLine (text "Content-Type: ") _ refl refl w.one_line,
    (connection_IsLine r.keep_alive, header_lines-AreLines r.extra_headers w.plain),
  ),
)
