-- ===== src/EchoBench/Options/Usable.antt =====
-- The options that parseArgs hands to the client fit together.
use mini_net.Prelude.{
  ℕ, suc, ◌*◌, ◌<◌, ◌≤◌, ◌≡◌, ◌⊎◌, inl, inr, refl, Bool, true, false, not, ◌&&◌, List, [], ◌∷◌,
  ◌++◌, Option, map, Bytes, text, bytes_eq, bytes_eq_iff, ltb, ◌==◌, if◌then◌else◌, arith, length,
  Bool-cases, ap, subst, sym, ltb→le,
}
use mini_net.Ctype.{pos, negsuc, to_upper, starts_with}
use mini_net.EchoBench.Options.{
  Double, nan, plus_infinity, minus_infinity, finite, is_positive, at_most_zero, Options, defaults,
  Arg, good, wrong, take_args, or_else, with_slash, full_path, full_method, full_body,
  full_statuses, http_defaults, max_out_buffer, check_together, parse_args,
}
use mini_net.EchoBench.Options.InRange.{
  Ensures, bind-Ensures, AllWithin, IsInRange, defaults-IsInRange, take_args-IsInRange,
}

-- There is a number of requests, or a duration above 0, or a duration that is no number.
abbrev pub CanEnd : Options → Type 0
CanEnd o = (0 < o.requests) ⊎ ((is_positive o.duration ≡ true) ⊎ (o.duration ≡ nan))

-- What http mode needs.
pub record IsRequest (o : Options) : Type 0 where
  pub rooted : starts_with (text "/") o.path ≡ true
  pub upper : map to_upper o.method ≡ o.method
  pub some_method : 0 < length o.method
  pub some_body : bytes_eq o.method (text "POST") ≡ true → 0 < length o.body
  pub some_status : 0 < length o.expect_status

pub record IsUsable (o : Options) : Type 0 where
  pub in_range : IsInRange o
  pub ends : CanEnd o
  pub fits : o.size * o.pipeline ≤ max_out_buffer
  pub by_mode : (o.mode ≡ text "echo") ⊎ ((o.mode ≡ text "http") × IsRequest o)

with_slash-rooted : (s : Bytes) → starts_with (text "/") (with_slash s) ≡ true
unfolding text
with_slash-rooted [] = refl
with_slash-rooted (c ∷ s) = ground arith

upper_twice : (c : ℕ) → to_upper (to_upper c) ≡ to_upper c
upper_twice c = ground arith

map-upper_twice : (s : Bytes) → map to_upper (map to_upper s) ≡ map to_upper s
map-upper_twice [] = refl
map-upper_twice (c ∷ s) = simp (upper_twice, map-upper_twice s)

length-map : (f : ℕ → ℕ) (s : Bytes) → length (map f s) ≡ length s
length-map f [] = refl
length-map f (c ∷ s) = ap suc (length-map f s)

or_else-some : (s other : Bytes) → 0 < length other → 0 < length (or_else s other)
or_else-some [] other h = h
or_else-some (c ∷ s) other h = omega arith

-- A method by default.
either_some : (b : Bool) → 0 < length (if b then text "POST" else text "GET")
unfolding text
either_some true = omega arith
either_some false = omega arith

full_method-upper :
    (path method : Bytes) → map to_upper (full_method path method) ≡ full_method path method
unfolding full_method
full_method-upper path method = map-upper_twice _

full_method-some : (path method : Bytes) → 0 < length (full_method path method)
unfolding full_method
full_method-some path method =
    let other = if starts_with (text "/api/shorten") path then text "POST" else text "GET" in
    omega (
      arith,
      length-map to_upper (or_else method other),
      or_else-some method other (either_some (starts_with (text "/api/shorten") path)),
    )

full_body-some :
    (method body : Bytes)
    → bytes_eq method (text "POST") ≡ true
    → 0 < length (full_body method body)
unfolding full_body text
full_body-some method body post = ground arith

full_statuses-Within :
    (method : Bytes) (statuses : List ℕ)
    → AllWithin 100 599 statuses
    → AllWithin 100 599 (full_statuses method statuses)
      × (0 < length (full_statuses method statuses))
full_statuses-Within method [] h = ground arith
full_statuses-Within method (s ∷ statuses) h = (h, omega arith)

http_defaults-IsRequest : (o : Options) → IsInRange o → IsRequest (http_defaults o)
unfolding http_defaults full_path
http_defaults-IsRequest o h = record {
  rooted = with_slash-rooted (or_else o.path (text "/healthz"));
  upper = full_method-upper _ o.method;
  some_method = full_method-some _ o.method;
  some_body = full_body-some _ o.body;
  some_status = (full_statuses-Within _ o.expect_status h.expect_status).1;
}

http_defaults-IsInRange : (o : Options) → IsInRange o → IsInRange (http_defaults o)
unfolding http_defaults
http_defaults-IsInRange o h =
    let statuses =
      (full_statuses-Within (full_method (full_path o.path) o.method) o.expect_status
        h.expect_status).0 in
    ground arith

-- A mode that is echo or http, with the defaults of http mode.
by_mode :
    (o : Options)
    → IsInRange o
    → CanEnd o
    → o.size * o.pipeline ≤ max_out_buffer
    → (not (bytes_eq o.mode (text "echo")) && not (bytes_eq o.mode (text "http"))) ≡ false
    → IsUsable (if bytes_eq o.mode (text "http") then http_defaults o else o)
unfolding http_defaults
by_mode o h ends fits known = elim (Bool-cases (bytes_eq o.mode (text "http"))) [
  | inl http ↦
      subst (λ b. IsUsable (if b then http_defaults o else o)) (sym http)
        (record {
          in_range = http_defaults-IsInRange o h;
          ends = ends;
          fits = fits;
          by_mode = inr ((bytes_eq_iff o.mode (text "http")).0 http, http_defaults-IsRequest o h);
        })
  | inr other ↦
      subst (λ b. IsUsable (if b then http_defaults o else o)) (sym other)
        (record {
          in_range = h;
          ends = ends;
          fits = fits;
          by_mode = inl ((bytes_eq_iff o.mode (text "echo")).0 (ground (arith, known, other)));
        })
]

can_end :
    (requests : ℕ) (d : Double)
    → (requests == 0 && at_most_zero d) ≡ false
    → (0 < requests) ⊎ ((is_positive d ≡ true) ⊎ (d ≡ nan))
unfolding at_most_zero is_positive
can_end requests nan e = inr (inr refl)
can_end requests plus_infinity e = inr (inl refl)
can_end requests minus_infinity e = inl (ground arith)
can_end requests (finite (negsuc n)) e = inl (ground arith)
can_end requests (finite (pos n)) e = elim (Bool-cases (ltb 0 n)) [
  | inl some_time ↦ inr (inl some_time)
  | inr no_time ↦ inl (ground arith)
]

check_together-IsUsable : (o : Options) → IsInRange o → Ensures IsUsable (check_together o)
unfolding check_together
check_together-IsUsable o h =
    by_tests (not (bytes_eq o.mode (text "echo")) && not (bytes_eq o.mode (text "http")))
      (o.requests == 0 && at_most_zero o.duration) (ltb max_out_buffer (o.size * o.pipeline)) refl
      refl refl
  where
    by_tests :
        (bad_mode endless large : Bool)
        → (not (bytes_eq o.mode (text "echo")) && not (bytes_eq o.mode (text "http"))) ≡ bad_mode
        → (o.requests == 0 && at_most_zero o.duration) ≡ endless
        → ltb max_out_buffer (o.size * o.pipeline) ≡ large
        → Ensures IsUsable (
            if bad_mode
            then wrong (text "--mode 只能是 echo 或 http，收到的是 \"" ++ (o.mode ++ text "\""))
            else if endless
            then wrong (text "--requests 0 表示定压模式，必须同时给 --duration（例如 --duration 30）")
            else if large
            then wrong
                (text "--size 乘 --pipeline 太大了（超过 8 MiB），每条连接的发送缓冲会撑爆内存，请调小 --size 或 --pipeline")
            else good (if bytes_eq o.mode (text "http") then http_defaults o else o))
    by_tests true endless large e1 e2 e3 = tt
    by_tests false true large e1 e2 e3 = tt
    by_tests false false true e1 e2 e3 = tt
    by_tests false false false e1 e2 e3 =
        by_mode o h (can_end o.requests o.duration e2) (ltb→le _ _ e3) e1

-- Whatever is on the command line and whatever strtod says: the options that parseArgs lets through are
-- each within their range, except that the duration may be a NaN; a request is asked for, or the
-- duration is above 0 or a NaN; a connection's requests in flight take at most 8 MiB,
-- and the mode is echo or http. In http mode the path begins with a slash, the method is there and
-- has no small letters, a POST has a body, and some status from 100 to 599 is expected.
pub parse_args-IsUsable :
    (strtod : Bytes → Option Double) (args : List Arg) → Ensures IsUsable (parse_args strtod args)
unfolding parse_args
parse_args-IsUsable strtod args =
    bind-Ensures IsInRange IsUsable (take_args strtod args defaults) check_together
      (take_args-IsInRange strtod args defaults defaults-IsInRange) check_together-IsUsable
