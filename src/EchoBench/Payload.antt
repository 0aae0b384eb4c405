-- ===== src/EchoBench/Payload.antt =====
-- verifyChunk: the echoed bytes against the payload, which repeats.
pub mod Echoed
use mini_net.Prelude.{
  ℕ, zero, suc, ◌+◌, ◌-◌, ◌%◌, ◌<◌, ◌≤◌, ◌≡◌, refl, sym, ap, ◌∙◌, Bool, true, false, ◌&&◌, ◌||◌, [],
  ◌∷◌, ◌++◌, Bytes, bytes_eq, ltb, ◌==◌, if◌then◌else◌, arith, length, take, drop, min, length-take,
  length-drop, take-append-drop, Bool-cases, inl, inr, ◌⊎◌, take_all,
}
use native.Mathlib.Nat.{suc-mod, mod-eq_of_lt, mod-lt, mod-add-mod, mod_self}

-- The memory at the payload's data is the payload and the bytes `behind` it, which the second memcmp
-- reads where the chunk goes round the payload more than once.
unfoldable pub verify_chunk : Bytes → Bytes → ℕ → Bytes → Bool
verify_chunk payload behind base chunk =
    let sz = length payload in
    let n = length chunk in
    let start = base % sz in
    let first = min n (sz - start) in
    if sz == 0 || n == 0
    then true
    else if bytes_eq (take first chunk) (take first (drop start payload))
    then if ltb first n
      then bytes_eq (drop first chunk) (take (n - first) (payload ++ behind))
      else true
    else false
