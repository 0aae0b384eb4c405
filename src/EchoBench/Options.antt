-- ===== src/EchoBench/Options.antt =====
-- bench/echo_bench.cc, the command line: parseIntArg and parseArgs. What getopt_long makes of argv is a
-- list of options, and strtod is a parameter.
pub mod InRange
pub mod Usable
use mini_net.Prelude.{
  ℕ, zero, suc, ◌+◌, ◌*◌, ◌^◌, Bool, true, false, not, ◌&&◌, ◌||◌, List, [], ◌∷◌, ◌++◌, Option,
  none, some, map, Bytes, text, bytes_eq, ltb, leb, ◌==◌, if◌then◌else◌, length,
}
use mini_net.Ctype.{
  ℤ, pos, negsuc, strtol, strtol_rest, strtol_overflows, starts_with, to_lower, to_upper,
}
use mini_net.Ctype.Decimal.{print_decimal}
use mini_net.EchoBench.Helpers.{trim}

-- A double: each finite one is a whole number of units of 2 ^ -1074, which is the smallest.
pub data Double : Type 0 where
  nan plus_infinity minus_infinity : Double
  finite : ℤ → Double

unfoldable pub seconds : ℕ → ℕ
seconds n = n * 2 ^ 1074

-- x > 0.0, and it is no NaN.
unfoldable pub is_positive : Double → Bool
is_positive nan = false
is_positive plus_infinity = true
is_positive minus_infinity = false
is_positive (finite (pos n)) = ltb 0 n
is_positive (finite (negsuc n)) = false

-- x <= 0.0, which no NaN is.
unfoldable pub at_most_zero : Double → Bool
at_most_zero nan = false
at_most_zero plus_infinity = false
at_most_zero minus_infinity = true
at_most_zero (finite (pos n)) = n == 0
at_most_zero (finite (negsuc n)) = true

-- d < 0.0 || d > 86400.0
unfoldable pub out_of_day : Double → Bool
out_of_day nan = false
out_of_day plus_infinity = true
out_of_day minus_infinity = true
out_of_day (finite (pos n)) = ltb (seconds 86400) n
out_of_day (finite (negsuc n)) = true

pub record Options : Type 0 where
  pub host : Bytes
  pub port : ℕ
  pub conns : ℕ
  pub requests : ℕ
  pub size : ℕ
  pub mode : Bytes
  pub pipeline : ℕ
  pub path : Bytes
  pub method : Bytes
  pub body : Bytes
  pub expect_status : List ℕ
  pub timeout_ms : ℕ
  pub connect_timeout_ms : ℕ
  pub duration : Double
  pub source_ip_count : ℕ
  pub reuse_port : Bool
  pub nodelay : Bool
  pub verify : Bool
  pub label : Bytes
  pub json_out : Bytes

unfoldable pub defaults : Options
unfolding text
defaults = record {
  host = text "127.0.0.1";
  port = 8080;
  conns = 100;
  requests = 1000;
  size = 64;
  mode = text "echo";
  pipeline = 1;
  path = [];
  method = [];
  body = [];
  expect_status = [];
  timeout_ms = 5000;
  connect_timeout_ms = 5000;
  duration = finite (pos 0);
  source_ip_count = 1;
  reuse_port = true;
  nodelay = false;
  verify = true;
  label = [];
  json_out = [];
}

-- An option with its argument.
pub data Arg : Type 0 where
  host_is port_is conns_is requests_is size_is mode_is pipeline_is path_is method_is body_is
        expect_status_is timeout_ms_is duration_is source_ip_count_is label_is json_is
        connect_timeout_ms_is :
      Bytes → Arg
  no_reuse_port nodelay no_verify help unknown : Arg

-- `helped` is the exit that --help takes, and `wrong` has the text of the error.
pub data Outcome {ℓ} (A : Type ℓ) : Type ℓ where
  good : A → Outcome A
  wrong : Bytes → Outcome A
  helped : Outcome A

infixl 5 ◌>>=◌
abbrev pub ◌>>=◌ {ℓ κ} : {A : Type ℓ} {B : Type κ} → Outcome A → (A → Outcome B) → Outcome B
good a >>= f = f a
wrong err >>= f = wrong err
helped >>= f = helped

unfoldable pub print_int : ℤ → Bytes
print_int (pos n) = print_decimal n
print_int (negsuc n) = b'-' ∷ print_decimal (suc n)

unfoldable pub not_a_number : Bytes → Bytes → Bytes
not_a_number name s = text "参数 " ++ (name ++ (text " 需要一个整数，收到的是 \"" ++ (s ++ text "\"")))

unfoldable pub out_of_range : Bytes → ℕ → ℕ → ℤ → Bytes
out_of_range name lo hi v =
    text "参数 "
    ++ (name
        ++ (text " 超出范围，应该在 "
            ++ (print_decimal lo
                ++ (text " ~ " ++ (print_decimal hi ++ (text " 之间，收到 " ++ print_int v))))))

unfoldable pub check_range : Bytes → ℕ → ℕ → ℤ → Outcome ℕ
check_range name lo hi (negsuc n) = wrong (out_of_range name lo hi (negsuc n))
check_range name lo hi (pos n) =
    if ltb n lo || ltb hi n then wrong (out_of_range name lo hi (pos n)) else good n

unfoldable pub parse_int_arg : Bytes → Bytes → ℕ → ℕ → Outcome ℕ
parse_int_arg name s lo hi = elim (strtol s) [
  | none ↦ wrong (not_a_number name s)
  | some v ↦
      if strtol_overflows s || not (length (strtol_rest s) == 0)
      then wrong (not_a_number name s)
      else check_range name lo hi v
]

-- The parts of a text between its commas.
abbrev pub first_part : ℕ → List Bytes → List Bytes
first_part c [] = (c ∷ []) ∷ []
first_part c (p ∷ parts) = (c ∷ p) ∷ parts

unfoldable pub split_commas : Bytes → List Bytes
split_commas [] = [] ∷ []
split_commas (c ∷ s) =
    let parts = split_commas s in if c == b',' then [] ∷ parts else first_part c parts

-- The statuses of --expect-status, behind those that are there; an empty part is passed over.
unfoldable pub parse_statuses : List Bytes → List ℕ → Outcome (List ℕ)
parse_statuses [] statuses = good statuses
parse_statuses (p ∷ parts) statuses =
    let one = trim p in
    let skipped = parse_statuses parts statuses in
    let taken =
      parse_int_arg (text "--expect-status") one 100 599
      >>= (λ v. parse_statuses parts (statuses ++ v ∷ [])) in
    if length one == 0 then skipped else taken

unfoldable pub bad_duration : Bytes → Bytes
bad_duration s = text "参数 --duration 需要一个 0 ~ 86400 的秒数，收到的是 \"" ++ (s ++ text "\"")

-- `none`: errno, no number, or bytes behind it.
unfoldable pub check_duration : Bytes → Option Double → Outcome Double
check_duration s none = wrong (bad_duration s)
check_duration s (some d) = if out_of_day d then wrong (bad_duration s) else good d

abbrev pub or_else : Bytes → Bytes → Bytes
or_else [] other = other
or_else (c ∷ s) other = c ∷ s

abbrev pub with_slash : Bytes → Bytes
with_slash [] = b'/' ∷ []
with_slash (c ∷ s) = if c == b'/' then c ∷ s else b'/' ∷ c ∷ s

unfoldable pub full_path : Bytes → Bytes
full_path path = with_slash (or_else path (text "/healthz"))

-- The method, for a path with its defaults.
unfoldable pub full_method : Bytes → Bytes → Bytes
full_method path method =
    map to_upper
      (or_else method (if starts_with (text "/api/shorten") path then text "POST" else text "GET"))

unfoldable pub full_body : Bytes → Bytes → Bytes
full_body method body =
    if bytes_eq method (text "POST") && length body == 0
    then text "{\"url\":\"https://example.com/bench\"}"
    else body

abbrev pub full_statuses : Bytes → List ℕ → List ℕ
full_statuses method [] = (if bytes_eq method (text "POST") then 201 else 200) ∷ []
full_statuses method (s ∷ statuses) = s ∷ statuses

unfoldable pub http_defaults : Options → Options
http_defaults o =
    let path = full_path o.path in
    let method = full_method path o.method in
    record o {
      path = path;
      method = method;
      body = full_body method o.body;
      expect_status = full_statuses method o.expect_status;
    }

-- kMaxOutBuffer
abbrev pub max_out_buffer : ℕ
max_out_buffer = 8 * 1024 * 1024

-- The checks of parseArgs behind its loop, and the defaults of http mode.
unfoldable pub check_together : Options → Outcome Options
check_together o =
    if not (bytes_eq o.mode (text "echo")) && not (bytes_eq o.mode (text "http"))
    then wrong (text "--mode 只能是 echo 或 http，收到的是 \"" ++ (o.mode ++ text "\""))
    else if o.requests == 0 && at_most_zero o.duration
    then wrong (text "--requests 0 表示定压模式，必须同时给 --duration（例如 --duration 30）")
    else if ltb max_out_buffer (o.size * o.pipeline)
    then wrong (text "--size 乘 --pipeline 太大了（超过 8 MiB），每条连接的发送缓冲会撑爆内存，请调小 --size 或 --pipeline")
    else good (if bytes_eq o.mode (text "http") then http_defaults o else o)

module _ (strtod : Bytes → Option Double) where
  -- The switch of parseArgs.
  unfoldable pub take_arg : Arg → Options → Outcome Options
  take_arg help o = helped
  take_arg (host_is s) o = good (record o { host = s })
  take_arg (port_is s) o =
      parse_int_arg (text "--port") s 1 65535 >>= λ v. good (record o { port = v })
  take_arg (conns_is s) o =
      parse_int_arg (text "--conns") s 1 1000000 >>= λ v. good (record o { conns = v })
  take_arg (requests_is s) o =
      parse_int_arg (text "--requests") s 0 1000000000 >>= λ v. good (record o { requests = v })
  take_arg (size_is s) o =
      parse_int_arg (text "--size") s 1 (1024 * 1024) >>= λ v. good (record o { size = v })
  take_arg (mode_is s) o = good (record o { mode = map to_lower s })
  take_arg (pipeline_is s) o =
      parse_int_arg (text "--pipeline") s 1 4096 >>= λ v. good (record o { pipeline = v })
  take_arg (path_is s) o = good (record o { path = s })
  take_arg (method_is s) o = good (record o { method = s })
  take_arg (body_is s) o = good (record o { body = s })
  take_arg (expect_status_is s) o = parse_statuses (split_commas s) o.expect_status >>= λ statuses.
      good (record o { expect_status = statuses })
  take_arg (timeout_ms_is s) o =
      parse_int_arg (text "--timeout-ms") s 1 3600000 >>= λ v. good (record o { timeout_ms = v })
  take_arg (duration_is s) o = check_duration s (strtod s) >>= λ v. good (record o { duration = v })
  take_arg (source_ip_count_is s) o = parse_int_arg (text "--source-ip-count") s 1 254 >>= λ v.
      good (record o { source_ip_count = v })
  take_arg no_reuse_port o = good (record o { reuse_port = false })
  take_arg nodelay o = good (record o { nodelay = true })
  take_arg no_verify o = good (record o { verify = false })
  take_arg (label_is s) o = good (record o { label = s })
  take_arg (json_is s) o = good (record o { json_out = s })
  take_arg (connect_timeout_ms_is s) o =
      parse_int_arg (text "--connect-timeout-ms") s 1 3600000 >>= λ v.
      good (record o { connect_timeout_ms = v })
  take_arg unknown o = wrong (text "命令行里有不认识的参数，用 --help 看看支持哪些选项")

  unfoldable pub take_args : List Arg → Options → Outcome Options
  take_args [] o = good o
  take_args (a ∷ args) o = take_arg a o >>= λ o1. take_args args o1

  unfoldable pub parse_args : List Arg → Outcome Options
  parse_args args = take_args args defaults >>= check_together
