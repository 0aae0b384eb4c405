-- ===== src/EchoBench/Options/InRange.antt =====
-- What parseArgs lets through.
use mini_net.Prelude.{
  ℕ, ◌*◌, ◌≤◌, Bool, true, false, not, ◌||◌, List, [], ◌∷◌, ◌++◌, Option, none, some, Bytes, text,
  ◌==◌, if◌then◌else◌, arith, length, ltb, ltb→le, inl, inr, Bool-cases,
}
use mini_net.Ctype.{ℤ, pos, negsuc, strtol, strtol_rest, strtol_overflows}
use mini_net.EchoBench.Helpers.{trim}
use mini_net.EchoBench.Options.{
  Options, defaults, Arg, host_is, port_is, conns_is, requests_is, size_is, mode_is, pipeline_is,
  path_is, method_is, body_is, expect_status_is, timeout_ms_is, duration_is, source_ip_count_is,
  label_is, json_is, connect_timeout_ms_is, not_a_number, no_reuse_port, nodelay, no_verify, help,
  unknown, Outcome, good, wrong, helped, ◌>>=◌, check_range, parse_int_arg, split_commas,
  parse_statuses, Double, nan, plus_infinity, minus_infinity, finite, seconds, out_of_day,
  check_duration, take_arg, take_args,
}

-- Where there is a result, it is so.
abbrev pub Ensures {ℓ κ} : {A : Type ℓ} → (A → Type κ) → Outcome A → Type κ
Ensures P (good a) = P a
Ensures P (wrong err) = Unit
Ensures P helped = Unit

pub bind-Ensures {ℓ κ ι η} :
    {A : Type ℓ} {B : Type κ} (P : A → Type ι) (Q : B → Type η) (m : Outcome A) (f : A → Outcome B)
    → Ensures P m
    → ((a : A) → P a → Ensures Q (f a))
    → Ensures Q (m >>= f)
bind-Ensures P Q (good a) f h k = k a h
bind-Ensures P Q (wrong err) f h k = tt
bind-Ensures P Q helped f h k = tt

-- An integer from lo to hi.
abbrev pub Within : ℕ → ℕ → ℕ → Type 0
Within lo hi n = (lo ≤ n) × (n ≤ hi)

abbrev pub AllWithin : ℕ → ℕ → List ℕ → Type 0
AllWithin lo hi [] = Unit {0}
AllWithin lo hi (n ∷ ns) = Within lo hi n × AllWithin lo hi ns

check_range-Within :
    (name : Bytes) (lo hi : ℕ) (v : ℤ) → Ensures (Within lo hi) (check_range name lo hi v)
unfolding check_range
check_range-Within name lo hi (negsuc n) = tt
check_range-Within name lo hi (pos n) = ground arith

parse_int_arg-Within :
    (name s : Bytes) (lo hi : ℕ) → Ensures (Within lo hi) (parse_int_arg name s lo hi)
unfolding parse_int_arg
parse_int_arg-Within name s lo hi = by_value (strtol s)
  where
    by_test :
        (bad : Bool) (err : Bytes) (v : ℤ)
        → Ensures (Within lo hi) (if bad then wrong err else check_range name lo hi v)
    by_test true err v = tt
    by_test false err v = check_range-Within name lo hi v

    by_value :
        (v : Option ℤ)
        → Ensures (Within lo hi) (elim v [
          | none ↦ wrong (not_a_number name s)
          | some v ↦
              if strtol_overflows s || not (length (strtol_rest s) == 0)
              then wrong (not_a_number name s)
              else check_range name lo hi v
        ])
    by_value none = tt
    by_value (some v) = by_test _ _ v

AllWithin-snoc :
    (lo hi n : ℕ) (ns : List ℕ)
    → AllWithin lo hi ns
    → Within lo hi n
    → AllWithin lo hi (ns ++ n ∷ [])
AllWithin-snoc lo hi n [] h k = (k, tt)
AllWithin-snoc lo hi n (m ∷ ns) h k = (h.0, AllWithin-snoc lo hi n ns h.1 k)

parse_statuses-Within :
    (parts : List Bytes) (statuses : List ℕ)
    → AllWithin 100 599 statuses
    → Ensures (AllWithin 100 599) (parse_statuses parts statuses)
unfolding parse_statuses
parse_statuses-Within [] statuses h = h
parse_statuses-Within (p ∷ parts) statuses h =
    by_empty (length (trim p) == 0) _ _ (parse_statuses-Within parts statuses h) (
      bind-Ensures (Within 100 599) (AllWithin 100 599)
        (parse_int_arg (text "--expect-status") (trim p) 100 599)
        (λ v. parse_statuses parts (statuses ++ v ∷ [])) (parse_int_arg-Within _ _ 100 599)
        (λ v k.
          parse_statuses-Within parts (statuses ++ v ∷ []) (AllWithin-snoc 100 599 v statuses h k)))
  where
    by_empty :
        (empty : Bool) (m n : Outcome (List ℕ))
        → Ensures (AllWithin 100 599) m
        → Ensures (AllWithin 100 599) n
        → Ensures (AllWithin 100 599) (if empty then m else n)
    by_empty true m n h k = h
    by_empty false m n h k = k

-- A duration that is no NaN is from 0 to 86400 seconds.
pub data IsDuration : Double → Type 0 where
  no_number : IsDuration nan
  within : (n : ℕ) → n ≤ seconds 86400 → IsDuration (finite (pos n))

check_duration-IsDuration :
    (s : Bytes) (d : Option Double) → Ensures IsDuration (check_duration s d)
unfolding check_duration
check_duration-IsDuration s none = tt
check_duration-IsDuration s (some nan) = unfold out_of_day in no_number
check_duration-IsDuration s (some plus_infinity) = unfold out_of_day in tt
check_duration-IsDuration s (some minus_infinity) = unfold out_of_day in tt
check_duration-IsDuration s (some (finite (negsuc n))) = unfold out_of_day in tt
check_duration-IsDuration s (some (finite (pos n))) =
    unfold out_of_day in
    elim (Bool-cases (ltb (seconds 86400) n)) [
      | inl long ↦ rw long tt
      | inr short ↦ rw short (within n (ltb→le _ _ short))
    ]

-- Each number is within the range that its option allows.
pub record IsInRange (o : Options) : Type 0 where
  pub port : Within 1 65535 o.port
  pub conns : Within 1 1000000 o.conns
  pub requests : Within 0 1000000000 o.requests
  pub size : Within 1 (1024 * 1024) o.size
  pub pipeline : Within 1 4096 o.pipeline
  pub expect_status : AllWithin 100 599 o.expect_status
  pub timeout_ms : Within 1 3600000 o.timeout_ms
  pub connect_timeout_ms : Within 1 3600000 o.connect_timeout_ms
  pub duration : IsDuration o.duration
  pub source_ip_count : Within 1 254 o.source_ip_count

pub defaults-IsInRange : IsInRange defaults
unfolding defaults
defaults-IsInRange =
    let zero_seconds : IsDuration (finite (pos 0)) = within 0 (omega arith) in ground arith

module _ (strtod : Bytes → Option Double) where
  -- An option with a number.
  number :
      (lo hi : ℕ) (m : Outcome ℕ) (f : ℕ → Options)
      → Ensures (Within lo hi) m
      → ((v : ℕ) → Within lo hi v → IsInRange (f v))
      → Ensures IsInRange (m >>= λ v. good (f v))
  number lo hi m f h k = bind-Ensures (Within lo hi) IsInRange m (λ v. good (f v)) h k

  take_arg-IsInRange :
      (a : Arg) (o : Options) → IsInRange o → Ensures IsInRange (take_arg strtod a o)
  unfolding take_arg
  take_arg-IsInRange help o h = tt
  take_arg-IsInRange (host_is s) o h = ground arith
  take_arg-IsInRange (port_is s) o h =
      number 1 65535 _ (λ v. record o { port = v }) (parse_int_arg-Within _ s _ _)
        (λ v k. ground arith)
  take_arg-IsInRange (conns_is s) o h =
      number 1 1000000 _ (λ v. record o { conns = v }) (parse_int_arg-Within _ s _ _)
        (λ v k. ground arith)
  take_arg-IsInRange (requests_is s) o h =
      number 0 1000000000 _ (λ v. record o { requests = v }) (parse_int_arg-Within _ s _ _)
        (λ v k. ground arith)
  take_arg-IsInRange (size_is s) o h =
      number 1 (1024 * 1024) _ (λ v. record o { size = v }) (parse_int_arg-Within _ s _ _)
        (λ v k. ground arith)
  take_arg-IsInRange (pipeline_is s) o h =
      number 1 4096 _ (λ v. record o { pipeline = v }) (parse_int_arg-Within _ s _ _)
        (λ v k. ground arith)
  take_arg-IsInRange (timeout_ms_is s) o h =
      number 1 3600000 _ (λ v. record o { timeout_ms = v }) (parse_int_arg-Within _ s _ _)
        (λ v k. ground arith)
  take_arg-IsInRange (source_ip_count_is s) o h =
      number 1 254 _ (λ v. record o { source_ip_count = v }) (parse_int_arg-Within _ s _ _)
        (λ v k. ground arith)
  take_arg-IsInRange (connect_timeout_ms_is s) o h =
      number 1 3600000 _ (λ v. record o { connect_timeout_ms = v }) (parse_int_arg-Within _ s _ _)
        (λ v k. ground arith)
  take_arg-IsInRange (mode_is s) o h = ground arith
  take_arg-IsInRange (path_is s) o h = ground arith
  take_arg-IsInRange (method_is s) o h = ground arith
  take_arg-IsInRange (body_is s) o h = ground arith
  take_arg-IsInRange (label_is s) o h = ground arith
  take_arg-IsInRange (json_is s) o h = ground arith
  take_arg-IsInRange no_reuse_port o h = ground arith
  take_arg-IsInRange nodelay o h = ground arith
  take_arg-IsInRange no_verify o h = ground arith
  take_arg-IsInRange unknown o h = tt
  take_arg-IsInRange (expect_status_is s) o h =
      bind-Ensures (AllWithin 100 599) IsInRange (parse_statuses (split_commas s) o.expect_status)
        (λ statuses. good (record o { expect_status = statuses }))
        (parse_statuses-Within (split_commas s) o.expect_status h.expect_status)
        (λ statuses k. ground arith)
  take_arg-IsInRange (duration_is s) o h =
      bind-Ensures IsDuration IsInRange (check_duration s (strtod s))
        (λ v. good (record o { duration = v })) (check_duration-IsDuration s (strtod s))
        (λ v k. ground arith)

  pub take_args-IsInRange :
      (args : List Arg) (o : Options) → IsInRange o → Ensures IsInRange (take_args strtod args o)
  unfolding take_args
  take_args-IsInRange [] o h = h
  take_args-IsInRange (a ∷ args) o h =
      bind-Ensures IsInRange IsInRange (take_arg strtod a o) (λ o1. take_args strtod args o1)
        (take_arg-IsInRange a o h) (λ o1 h1. take_args-IsInRange args o1 h1)
