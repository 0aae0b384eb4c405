-- ===== src/EchoBench/Helpers.antt =====
-- bench/echo_bench.cc, the helpers at its top: withCommas, trim, expandPlaceholder, makeEchoPayload,
-- and atoi and atoll as the client calls them.
use mini_net.Prelude.{
  ℕ, zero, suc, ◌+◌, ◌-◌, ◌%◌, ◌^◌, Bool, true, false, not, ◌&&◌, ◌||◌, [], ◌∷◌, ◌++◌, none, some,
  Bytes, ltb, ◌==◌, if◌then◌else◌, length,
}
use mini_net.Ctype.{ℤ, pos, negsuc, strtol}
use mini_net.Ctype.Decimal.{print_decimal}

-- A comma stands before a digit, but the first, where three or six or nine digits are left.
unfoldable pub group_digits : Bool → Bytes → Bytes
group_digits first [] = []
group_digits first (c ∷ digits) =
    let rest = c ∷ group_digits false digits in
    if not first && (length digits + 1) % 3 == 0 then b',' ∷ rest else rest

unfoldable pub with_commas : ℤ → Bytes
with_commas (pos n) = group_digits true (print_decimal n)
with_commas (negsuc n) = b'-' ∷ group_digits true (print_decimal (suc n))

abbrev pub is_blank : ℕ → Bool
is_blank c = c == b' ' || c == b'\t'

unfoldable pub skip_blanks : Bytes → Bytes
skip_blanks [] = []
skip_blanks (c ∷ s) = if is_blank c then skip_blanks s else c ∷ s

-- The second loop of trim, over the bytes from the last one on: \r goes too.
unfoldable pub keep_last : ℕ → Bytes → Bytes
keep_last c [] = if is_blank c || c == b'\r' then [] else c ∷ []
keep_last c (d ∷ r) = c ∷ d ∷ r

unfoldable pub trim_end : Bytes → Bytes
trim_end [] = []
trim_end (c ∷ s) = keep_last c (trim_end s)

unfoldable pub trim : Bytes → Bytes
trim s = trim_end (skip_blanks s)

-- expandPlaceholder, with the decimals of the connection's number.
unfoldable pub expand : Bytes → Bytes → Bytes
expand index [] = []
expand index (c ∷ []) = c ∷ []
expand index (c ∷ d ∷ s) =
    let number = index ++ expand index s in
    let percent = b'%' ∷ expand index s in
    let plain = c ∷ expand index (d ∷ s) in
    if c == b'%' then if d == b'd' then number else if d == b'%' then percent else plain else plain

unfoldable pub expand_placeholder : Bytes → ℕ → Bytes
expand_placeholder s conn_index = expand (print_decimal conn_index) s

-- The bytes of the payload from the i-th on.
unfoldable pub payload_from : ℕ → ℕ → Bytes
payload_from i zero = []
payload_from i (suc n) = (b'a' + i % 26) ∷ payload_from (suc i) n

unfoldable pub make_echo_payload : ℕ → Bytes
make_echo_payload size = payload_from 0 size

-- atoll is strtoll, and atoi is strtol cut to an int; both are 0 where no number is read.
unfoldable pub atoll : Bytes → ℤ
atoll s = elim (strtol s) [ none ↦ pos 0 | some v ↦ v ]

abbrev pub to_int : ℤ → ℤ
to_int (pos n) = let m = n % 2 ^ 32 in if ltb m (2 ^ 31) then pos m else negsuc (2 ^ 32 - 1 - m)
to_int (negsuc n) = let m = n % 2 ^ 32 in if ltb m (2 ^ 31) then negsuc m else pos (2 ^ 32 - 1 - m)

unfoldable pub atoi : Bytes → ℤ
atoi s = to_int (atoll s)
